-- ===== src/Storage/Delegations/Inserted.antt =====
-- The tables after `register_delegated_capability`.
use verigate.Base.{
  inl, inr, [], ◌∷◌, ◌++◌, none, some, ok, err, ◌≡◌, ◌==◌, string_eq, nat_eq, ok-of_bind,
  Bool-cases, Option, ℕ, Result, String, any, ok-injective, Option-cases, ◌∙◌, ◌||◌, sym, ap,
}
use verigate.Storage.{Storage, EdgeRow, DelegationRow}
use verigate.Storage.Registries.{
  status_eq, capability_row, capability_row_of, insert_capability, insert_edge, insert_holds, edge,
  same_edge,
}
use verigate.Storage.Delegations.{
  insert_delegated, insert_evidence, register_delegated_capability, conflict, active_parent,
}
use verigate.Models.{Capability}

-- the tables that an insert of an edge or of evidence leaves alone
abbrev Kept : Storage → Storage → Type 0
Kept s s' = (s'.capabilities ≡ s.capabilities) × (s'.identities ≡ s.identities)

unchanged : (s s' : Storage) → ◌≡◌ {A = Result Storage} (ok s) (ok s') → Kept s s'
unchanged s s' h =
    let same = ok-injective h in
    (sym (ap (λ (t : Storage). t.capabilities) same), sym (ap (λ (t : Storage). t.identities) same))

insert_edge-Kept : (e : EdgeRow) (s s' : Storage) → insert_edge e s ≡ ok s' → Kept s s'
insert_edge-Kept e s s' h = elim (Bool-cases (any (same_edge e) s.authority_edges)) [
  | inl k ↦ cc (rw k at h)
  | inr k ↦ unchanged (record s { authority_edges = s.authority_edges ++ e ∷ [] }) s' (rw k at h)
]

insert_holds-Kept :
    (id : Option String) (c : Capability) (now : ℕ) (s s' : Storage)
    → insert_holds id c now s ≡ ok s'
    → Kept s s'
insert_holds-Kept none c now s s' h = unchanged s s' h
insert_holds-Kept (some id) c now s s' h = elim (Bool-cases (id == "")) [
  | inl k ↦ unchanged s s' (rw k at h)
  | inr k ↦ insert_edge-Kept (edge "identity" id "HOLDS" c.capability_id now) s s' (rw k at h)
]

insert_evidence-Kept :
    (delegator signature : Option String) (parent_id : String) (c : Capability) (digest : String)
    (now : ℕ) (s s' : Storage)
    → insert_evidence delegator signature parent_id c digest now s ≡ ok s'
    → Kept s s'
insert_evidence-Kept none signature parent_id c digest now s s' h = unchanged s s' h
insert_evidence-Kept (some d) none parent_id c digest now s s' h = unchanged s s' h
insert_evidence-Kept (some d) (some g) parent_id c digest now s s' h =
    elim (Bool-cases (d == "" || g == "")) [
      | inl k ↦ unchanged s s' (rw k at h)
      | inr k ↦
          elim (Bool-cases (
            any (λ (r : DelegationRow). r.child_capability_id == c.capability_id)
              s.capability_delegations)) [
                | inl taken ↦ cc (rw (k, taken) at h)
                | inr free ↦
                    (let same = ok-injective (rw (k, free) at h) in
                      (
                        sym (ap (λ (t : Storage). t.capabilities) same),
                        sym (ap (λ (t : Storage). t.identities) same),
                      ))
              ]
    ]

-- One more capability, whose id was free, and the same identities.
pub record Registered (c : Capability) (now : ℕ) (s s' : Storage) : Type 0 where
  pub free : capability_row c.capability_id s ≡ none
  pub rows : s'.capabilities ≡ s.capabilities ++ capability_row_of c now ∷ []
  pub people : s'.identities ≡ s.identities

insert_capability-Registered :
    (c : Capability) (now : ℕ) (s s' : Storage)
    → insert_capability c now s ≡ ok s'
    → Registered c now s s'
insert_capability-Registered c now s s' h = elim (Option-cases (capability_row c.capability_id s)) [
  | inr (row, e) ↦ cc (rw e at h)
  | inl e ↦
      (let same = ok-injective (rw e at h) in
        record {
          free = e;
          rows = sym (ap (λ (t : Storage). t.capabilities) same);
          people = sym (ap (λ (t : Storage). t.identities) same);
        })
]

conflict_ok : (r : Result Storage) (s' : Storage) → conflict r ≡ ok s' → r ≡ ok s'
conflict_ok (ok s) s' h = h
conflict_ok (err e) s' h = cc

module _ (digest : Capability → String) where
  pub register_delegated_capability-Registered :
      (c : Capability) (parent_id : String) (delegator signature : Option String) (now : ℕ)
      (s s' : Storage)
      → register_delegated_capability digest c parent_id delegator signature now s ≡ ok s'
      → Registered c now s s'
  unfolding register_delegated_capability
  register_delegated_capability-Registered c parent_id delegator signature now s s' h =
      let (u, parent, h1) = ok-of_bind (active_parent (capability_row parent_id s)) _ h in
      let h2 =
        conflict_ok (insert_delegated c parent_id delegator signature (digest c) now s) s' h1 in
      let (s1, first, h3) = ok-of_bind (insert_capability c now s) _ h2 in
      let (s2, second, h4) =
        ok-of_bind (insert_edge (edge "capability" parent_id "DELEGATES" c.capability_id now) s1) _
          h3 in
      let (s3, third, h5) = ok-of_bind (insert_holds c.identity_id c now s2) _ h4 in
      let new = insert_capability-Registered c now s s1 first in
      let k2 =
        insert_edge-Kept (edge "capability" parent_id "DELEGATES" c.capability_id now) s1 s2
          second in
      let k3 = insert_holds-Kept c.identity_id c now s2 s3 third in
      let k4 = insert_evidence-Kept delegator signature parent_id c (digest c) now s3 s' h5 in
      record {
        free = new.free;
        rows = k4.0 ∙ k3.0 ∙ k2.0 ∙ new.rows;
        people = k4.1 ∙ k3.1 ∙ k2.1 ∙ new.people;
      }
