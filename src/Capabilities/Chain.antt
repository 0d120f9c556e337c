-- ===== src/Capabilities/Chain.antt =====
-- The chain of delegations that `effective_active` of core/capabilities.py follows.
use mathlib.Core.Path.{subst}
use mathlib.Core.Option.{some-injective}
use verigate.Base.{
  refl, inl, inr, ◌∷◌, none, some, true, false, zero, suc, ◌≡◌, ◌≤◌, ℕ, Option, List, String,
  Option-cases, arith, sym, ◌<◌, contains, Bool-cases, ◌↔◌, ◌∙◌, ap, ◌==◌, ==_sound, [], string_eq,
}
use verigate.Storage.{Storage}
use verigate.Capabilities.{chain_active, identity_inactive, effective_active, max_depth}
use verigate.Models.{Capability}
use verigate.Storage.Registries.{capability_of, capability_is_active}

-- A chain of that many links, each active and held by an active identity, up to a root.
pub data LiveChain (now : ℕ) (s : Storage) : ℕ → Option String → Type 0 where
  root : LiveChain now s zero none
  link :
      (n : ℕ) (id : String) (c : Capability)
      → capability_of id s ≡ some c
      → capability_is_active id now s ≡ true
      → identity_inactive c.identity_id now s ≡ false
      → LiveChain now s n c.delegated_from
      → LiveChain now s (suc n) (some id)

module _ (now : ℕ) (s : Storage) where
  -- what a round that goes on has found
  Round : ℕ → List String → String → Type 0
  Round rounds visited id =
      (c : Capability) × (capability_of id s ≡ some c)
      × (capability_is_active id now s ≡ true)
      × (identity_inactive c.identity_id now s ≡ false)
      × (chain_active rounds (id ∷ visited) c.delegated_from now s ≡ true)

  round :
      (rounds : ℕ) (visited : List String) (id : String)
      → chain_active (suc rounds) visited (some id) now s ≡ true
      → Round rounds visited id
  unfolding chain_active Round
  round rounds visited id h = elim (Option-cases (capability_of id s)) [
    | inl e ↦ ground arith
    | inr (c, e) ↦ (c, e, ground arith, ground arith, ground arith)
  ]

  pub chain_active_sound :
      (rounds : ℕ) (visited : List String) (start : Option String)
      → chain_active rounds visited start now s ≡ true
      → (n : ℕ) × (n ≤ rounds) × LiveChain now s n start
  unfolding chain_active Round
  chain_active_sound rounds visited none h = (zero, omega arith, root)
  chain_active_sound zero visited (some id) h = cc
  chain_active_sound (suc rounds) visited (some id) h =
      let (c, found, live, held, rest) = round rounds visited id h in
      let (n, le, chain) = chain_active_sound rounds (id ∷ visited) c.delegated_from rest in
      (suc n, omega arith, link n id c found live held chain)

  -- the chain from a given start has one length, since each capability has one parent
  unique :
      {m n : ℕ} {start : Option String} → LiveChain now s m start → LiveChain now s n start → m ≡ n
  unique root root = refl
  unique (link j id c found live held chain) (link k id2 c2 found2 live2 held2 chain2) =
      let same : c2 ≡ c = some-injective c2 c (sym found2 ∙ found) in
      ap suc (unique chain (subst (λ x. LiveChain now s k x.delegated_from) same chain2))

  -- every id visited so far starts a longer chain
  abbrev Longer : ℕ → List String → Type 0
  Longer n [] = Unit
  Longer n (v ∷ visited) = ((k : ℕ) × (n < k) × LiveChain now s k (some v)) × Longer n visited

  Longer-mono : (n : ℕ) (visited : List String) → Longer (suc n) visited → Longer n visited
  Longer-mono n [] l = tt
  Longer-mono n (v ∷ visited) l = ((l.0.0, omega (arith, l.0.1), l.0.2), Longer-mono n visited l.1)

  fresh :
      (n : ℕ) (id : String) (visited : List String)
      → LiveChain now s n (some id)
      → Longer n visited
      → contains visited id ≡ false
  fresh n id [] chain l = refl
  fresh n id (v ∷ visited) chain l = elim (Bool-cases (id == v)) [
    | inl e ↦
        let (k, lt, longer) = l.0 in
        let same = subst (λ x. LiveChain now s k (some x)) (sym (==_sound id v e)) longer in
        absurd (omega (arith, unique chain same, lt))
    | inr ne ↦ ground (arith, fresh n id visited chain l.1)
  ]

  chain_active_complete :
      {n : ℕ} {start : Option String} (rounds : ℕ) (visited : List String)
      → LiveChain now s n start
      → n ≤ rounds
      → Longer n visited
      → chain_active rounds visited start now s ≡ true
  unfolding chain_active
  chain_active_complete rounds visited root le l = refl
  chain_active_complete zero visited (link n id c found live held chain) le l = absurd (omega arith)
  chain_active_complete (suc rounds) visited (link n id c found live held chain) le l =
      let new = fresh (suc n) id visited (link n id c found live held chain) l in
      let rest =
        chain_active_complete rounds (id ∷ visited) chain (omega arith)
          ((suc n, omega arith, link n id c found live held chain), Longer-mono n visited l) in
      ground (arith, new, found, live, held, rest)

  -- A capability is effectively active exactly when its chain of delegations reaches a root through active
  -- capabilities of active identities, in at most `max_depth + 1` links.
  pub effective_active_iff :
      (id : String)
      → (effective_active id now s ≡ true)
        ↔ ((n : ℕ) × (n ≤ suc max_depth) × LiveChain now s n (some id))
  unfolding effective_active
  effective_active_iff id = (
    chain_active_sound (suc max_depth) [] (some id),
    λ w. chain_active_complete (suc max_depth) [] w.2 w.1 tt,
  )
