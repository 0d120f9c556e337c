-- ===== src/Delegation/Path.antt =====
-- The paths of `AuthorityGraph.authority_path` in core/authority.py.
use mathlib.Core.Path.{subst}
use mathlib.Core.Option.{some-injective}
use verigate.Base.{
  inl, inr, refl, [], ◌∷◌, none, some, true, zero, suc, ok, err, ◌≡◌, ◌==◌, string_eq, arith,
  Bool-cases, missing, missing-lt, ==_refl, ◌≢◌, Option-cases, Option, String, List, ℕ, map,
  first_row, contains, sym, ◌<◌, ◌⊎◌, length, runtime_error, ap, false, ==_sound, ◌∙◌,
  missing-start,
}
use verigate.Storage.{Storage, CapabilityRow}
use verigate.Storage.Registries.{capability_of, capability_row}
use verigate.Models.{Capability}
use verigate.Delegation.Graph.{PathNode, path_node, parent_of, climb, authority_path, path_fuel}
use verigate.Delegation.Granted.{Keyed}

-- the capabilities from one up to its root, or up to one whose parent is not stored
pub data Lineage (s : Storage) : Option Capability → List Capability → Type 0 where
  top : Lineage s none []
  up :
      (c : Capability) (above : List Capability)
      → Lineage s (parent_of c.delegated_from s) above
      → Lineage s (some c) (c ∷ above)

module _ (digest : Capability → String) where
  -- their entries, each put before those of its children
  abbrev pub from_root : List Capability → List PathNode → List PathNode
  from_root [] path = path
  from_root (c ∷ above) path = from_root above (path_node digest c ∷ path)

-- the ids under which an entry of a path may stand
stored_ids : Storage → List String
stored_ids s = map (λ (row : CapabilityRow). row.capability.capability_id) s.capabilities

row_known :
    (rows : List CapabilityRow) (id : String) (row : CapabilityRow)
    → first_row (λ (r : CapabilityRow). r.capability_id == id) rows ≡ some row
    → contains
        (map (λ (r : CapabilityRow). r.capability.capability_id) rows)
        row.capability.capability_id
      ≡ true
row_known [] id row h = cc
row_known (r ∷ rows) id row h = elim (Bool-cases (r.capability_id == id)) [
  | inl e ↦ (let here = ==_refl row.capability.capability_id in ground arith)
  | inr ne ↦ ground (arith, row_known rows id row)
]

module _ (s : Storage) where
  stored_known :
      (id : String) (c : Capability)
      → capability_of id s ≡ some c
      → contains (stored_ids s) c.capability_id ≡ true
  unfolding capability_of stored_ids
  stored_known id c h = elim (Option-cases (capability_row id s)) [
    | inl e ↦ cc (rw e at h)
    | inr (row, e) ↦
        subst (λ (x : Capability). contains (stored_ids s) x.capability_id ≡ true)
          (some-injective row.capability c (rw e at h)) (row_known s.capabilities id row e)
  ]

  parent_known :
      (parent : Option String) (c : Capability)
      → parent_of parent s ≡ some c
      → contains (stored_ids s) c.capability_id ≡ true
  parent_known none c h = cc
  parent_known (some id) c h = stored_known id c h

  module _ (digest : Capability → String) where
    climb_cases :
        (fuel : ℕ) (visited : List String) (start : Option Capability) (path : List PathNode)
        → ((c : Capability) → start ≡ some c → contains (stored_ids s) c.capability_id ≡ true)
        → missing (stored_ids s) visited < fuel
        → ((above : List Capability) × Lineage s start above
            × (climb digest fuel visited start path s ≡ ok (from_root digest above path)))
          ⊎ (climb digest fuel visited start path s
              ≡ err (runtime_error "authority graph cycle detected"))
    climb_cases zero visited start path known enough = absurd (omega arith)
    climb_cases (suc fuel) visited none path known enough = inl ([], top, refl)
    climb_cases (suc fuel) visited (some c) path known enough =
        elim (Bool-cases (contains visited c.capability_id)) [
          | inl cycle ↦ inr (rw cycle refl)
          | inr fresh ↦
              (let less = missing-lt c.capability_id (stored_ids s) visited (known c refl) fresh in
                elim (climb_cases fuel (c.capability_id ∷ visited) (parent_of c.delegated_from s)
                  (path_node digest c ∷ path) (parent_known c.delegated_from)
                  (omega (arith, less))) [
                    | inl (above, chain, same) ↦ inl (c ∷ above, up c above chain, rw fresh same)
                    | inr failed ↦ inr (rw fresh failed)
                  ])
        ]

  -- one capability has one lineage
  unique :
      {start : Option Capability} {xs ys : List Capability}
      → Lineage s start xs
      → Lineage s start ys
      → length xs ≡ length ys
  unique top top = refl
  unique (up c above chain) (up _ above' chain') = ap suc (unique chain chain')

  -- every id visited so far has a longer lineage
  abbrev Longer : ℕ → List String → Type 0
  Longer n [] = Unit
  Longer n (v ∷ visited) =
      ((above : List Capability) × (n < length above) × Lineage s (capability_of v s) above)
      × Longer n visited

  Longer-mono : (n : ℕ) (visited : List String) → Longer (suc n) visited → Longer n visited
  Longer-mono n [] l = tt
  Longer-mono n (v ∷ visited) l = ((l.0.0, omega (arith, l.0.1), l.0.2), Longer-mono n visited l.1)

  not_visited :
      (id : String) (above : List Capability) (visited : List String)
      → Lineage s (capability_of id s) above
      → Longer (length above) visited
      → contains visited id ≡ false
  not_visited id above [] chain l = refl
  not_visited id above (v ∷ visited) chain l = elim (Bool-cases (id == v)) [
    | inl e ↦
        (let (other, lt, longer) = l.0 in
          let same =
            subst (λ (x : String). Lineage s (capability_of x s) other) (sym (==_sound id v e))
              longer in
          absurd (omega (arith, unique chain same, lt)))
    | inr ne ↦ ground (arith, not_visited id above visited chain l.1)
  ]

  module _ (digest : Capability → String) (keyed : Keyed s) where
    -- a capability that was read is stored under its own id
    Read : Option Capability → Type 0
    Read start = (c : Capability) → start ≡ some c → capability_of c.capability_id s ≡ some c

    read : (id : String) → Read (capability_of id s)
    unfolding Read
    read id c h = ap (λ x. capability_of x s) (keyed id c h) ∙ h

    Read-parent : (parent : Option String) → Read (parent_of parent s)
    unfolding Read
    Read-parent none c h = cc
    Read-parent (some id) c h = read id c h

    no_cycle :
        (fuel : ℕ) (visited : List String) {start : Option Capability} {above : List Capability}
        (path : List PathNode)
        → Read start
        → Lineage s start above
        → Longer (length above) visited
        → climb digest fuel visited start path s
          ≢ err (runtime_error "authority graph cycle detected")
    unfolding Read
    no_cycle fuel visited path is_read top l h = cc
    no_cycle zero visited path is_read (up c above chain) l h = cc
    no_cycle (suc fuel) visited path is_read (up c above chain) l h =
        let own : Lineage s (capability_of c.capability_id s) (c ∷ above) =
          subst (λ (o : Option Capability). Lineage s o (c ∷ above)) (sym (is_read c refl))
            (up c above chain) in
        let fresh = not_visited c.capability_id (c ∷ above) visited own l in
        no_cycle fuel (c.capability_id ∷ visited) (path_node digest c ∷ path)
          (Read-parent c.delegated_from) chain
          ((c ∷ above, omega arith, own), Longer-mono (length above) visited l) (rw fresh at h)

  ids_bound :
      (rows : List CapabilityRow)
      → length (map (λ (r : CapabilityRow). r.capability.capability_id) rows) ≡ length rows
  ids_bound [] = refl
  ids_bound (r ∷ rows) = omega (arith, ids_bound rows)

  -- Where every capability is stored under its own id, `authority_path` always ends: with the entries from the root
  -- down to the capability, or with the error of a cycle, which it gives only where no chain of parents from the
  -- capability ends.
  pub authority_path_cases :
      (digest : Capability → String) (id : String)
      → Keyed s
      → ((above : List Capability) × Lineage s (capability_of id s) above
          × (authority_path digest id s ≡ ok (from_root digest above [])))
        ⊎ ((authority_path digest id s ≡ err (runtime_error "authority graph cycle detected"))
            × ((above : List Capability) → ¬ Lineage s (capability_of id s) above))
  unfolding authority_path stored_ids
  authority_path_cases digest id keyed =
      elim (climb_cases digest (path_fuel s) [] (capability_of id s) [] (stored_known id)
        (omega (arith, missing-start (stored_ids s), ids_bound s.capabilities))) [
          | inl found ↦ inl found
          | inr failed ↦ inr (
            failed,
            λ above chain.
                no_cycle digest keyed (path_fuel s) [] [] (read digest keyed id) chain tt failed,
          )
        ]
