-- ===== src/Capabilities/Revocation.antt =====
-- What `revoke_capability` does to the capabilities delegated from the one it revokes.
use mathlib.Core.Path.{subst}
use mathlib.Core.Option.{some-injective}
use verigate.Base.{
  inl, inr, refl, [], ◌∷◌, true, ◌≡◌, ◌==◌, string_eq, String, ℕ, List, first_row, arith, some,
  false, Bool-cases, sym, ◌∙◌, ap,
}
use verigate.Storage.{CapabilityRow, Storage}
use verigate.Storage.Registries.{
  status_eq, revoke_rows, row_capability, capability_is_live, capability_of, revoke_capability,
  capability_is_active,
}
use verigate.Models.{Capability}
use verigate.Capabilities.{effective_active}
use verigate.Capabilities.Chain.{LiveChain, link, effective_active_iff}

-- the row it selects is revoked, and every other is as it was
module _ (x : String) (then : ℕ) where
  capability-revoke_rows :
      (id : String) (rows : List CapabilityRow)
      → row_capability (first_row (λ row. row.capability_id == id) (revoke_rows x then rows))
        ≡ row_capability (first_row (λ row. row.capability_id == id) rows)
  unfolding revoke_rows
  capability-revoke_rows id [] = refl
  capability-revoke_rows id (row ∷ rows) = ground (arith, capability-revoke_rows id rows)

  live-revoke_rows :
      (id : String) (now : ℕ) (rows : List CapabilityRow)
      → capability_is_live
          (first_row (λ row. row.capability_id == id) (revoke_rows x then rows))
          now
        ≡ true
      → (capability_is_live (first_row (λ row. row.capability_id == id) rows) now ≡ true)
        × ¬ (id ≡ x)
  unfolding revoke_rows
  live-revoke_rows id now [] h = cc
  live-revoke_rows id now (row ∷ rows) h = ground (arith, live-revoke_rows id now rows)

-- The capabilities that come from one by any number of delegations.
pub data DelegatedFrom (s : Storage) (x : String) : String → Type 0 where
  itself : DelegatedFrom s x x
  child :
      (id parent : String) (c : Capability)
      → capability_of id s ≡ some c
      → c.delegated_from ≡ some parent
      → DelegatedFrom s x parent
      → DelegatedFrom s x id

module _ (x : String) (then : ℕ) (s : Storage) where
  abbrev after_revocation : Storage
  after_revocation = record s { capabilities = revoke_rows x then s.capabilities }

  not_live :
      (now n : ℕ) (id : String)
      → DelegatedFrom s x id
      → ¬ LiveChain now after_revocation n (some id)
  unfolding capability_of capability_is_active
  not_live now n id itself (link k _ c found live held chain) =
      (live-revoke_rows x then x now s.capabilities live).1 refl
  not_live now n id (child _ parent c found from d) (link k _ c2 found2 live held chain) =
      let same : c2 ≡ c =
        some-injective c2 c
          (sym found2 ∙ capability-revoke_rows x then id s.capabilities ∙ found) in
      not_live now k parent d (
        subst (LiveChain now after_revocation k)
          (ap (λ (y : Capability). y.delegated_from) same ∙ from) chain)

  revoked_state : (s' : Storage) → revoke_capability x then s ≡ (true, s') → s' ≡ after_revocation
  unfolding revoke_capability
  revoked_state s' h = ground arith

  -- Once `revoke_capability` has revoked a capability, no capability that comes from it by delegation, itself
  -- included, is effectively active at any time.
  pub revocation_is_transitive :
      (s' : Storage) (id : String) (now : ℕ)
      → revoke_capability x then s ≡ (true, s')
      → DelegatedFrom s x id
      → effective_active id now s' ≡ false
  revocation_is_transitive s' id now h d = elim (Bool-cases (effective_active id now s')) [
    | inl e ↦
        let (n, le, chain) = (effective_active_iff now s' id).0 e in
        absurd (
          not_live now n id d (subst (λ t. LiveChain now t n (some id)) (revoked_state s' h) chain))
    | inr e ↦ e
  ]
