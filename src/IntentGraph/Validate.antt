-- ===== src/IntentGraph/Validate.antt =====
-- What `validate` accepts.
use verigate.Base.{
  inl, inr, refl, [], ◌∷◌, true, zero, suc, ◌≡◌, ◌==◌, string_eq, List, String, ℕ, ◌++◌, contains,
  Bool-cases, ==_sound, arith, ==_refl, ◌<◌, ◌∙◌, missing, missing-lt,
}
use verigate.IntentGraph.{
  dependency_cycle, exhausted, problem_eq, IntentGraph, Problem, visit, Search, visit_all,
  dependencies_of, enter,
}
use verigate.IntentGraph.Paths.{InOrder, Acyclic, LeadTo, LeadTo-step}
use verigate.IntentGraph.Fuel.{Covers, visit-visiting}

pub append-nil_left : (xs ys : List Problem) → xs ++ ys ≡ [] → xs ≡ []
append-nil_left [] ys h = refl
append-nil_left (x ∷ xs) ys h = cc

append-not_nil : (xs : List Problem) (p : Problem) → ¬ (xs ++ p ∷ [] ≡ [])
append-not_nil [] p h = cc
append-not_nil (x ∷ xs) p h = cc

module _ (g : IntentGraph) where
  pub visit_all_clean :
      (f : String → Search → Search)
      → ((d : String) (st : Search) → (f d st).errors ≡ [] → st.errors ≡ [])
      → (ds : List String) (st : Search) → (visit_all f ds st).errors ≡ []
      → st.errors ≡ []
  visit_all_clean f each [] st e = e
  visit_all_clean f each (d ∷ ds) st e = each d st (visit_all_clean f each ds (f d st) e)

  pub visit_clean :
      (fuel : ℕ) (x : String) (st : Search) → (visit g fuel x st).errors ≡ [] → st.errors ≡ []
  unfolding visit
  visit_clean zero x st e = append-nil_left st.errors (exhausted ∷ []) e
  visit_clean (suc fuel) x st e = elim (Bool-cases (contains st.visiting x)) [
    | inl cycle ↦ append-nil_left st.errors (dependency_cycle ∷ []) (rw cycle at e)
    | inr fresh ↦ elim (Bool-cases (contains st.visited x)) [
      | inl seen ↦ rw (fresh, seen) at e
      | inr new ↦
          visit_all_clean (visit g fuel) (visit_clean fuel) (dependencies_of g x) (enter x st)
            (rw (fresh, new) at e)
    ]
  ]

  -- What a search without an error has done.
  pub record Sound (x : String) (st st' : Search) : Type 0 where
    pub order : InOrder g st'.visited
    pub found : contains st'.visited x ≡ true
    pub kept : (y : String) → contains st.visited y ≡ true → contains st'.visited y ≡ true

  pub record AllSound (ds : List String) (st st' : Search) : Type 0 where
    pub order : InOrder g st'.visited
    pub found : (d : String) → contains ds d ≡ true → contains st'.visited d ≡ true
    pub kept : (y : String) → contains st.visited y ≡ true → contains st'.visited y ≡ true

  pub visit_all-Sound :
      (f : String → Search → Search)
      → ((d : String) (st : Search) → (f d st).errors ≡ [] → st.errors ≡ [])
      → ((d : String) (st : Search)
          → (f d st).errors ≡ []
          → InOrder g st.visited
          → Sound d st (f d st))
      → (ds : List String) (st : Search) → (visit_all f ds st).errors ≡ []
      → InOrder g st.visited
      → AllSound ds st (visit_all f ds st)
  visit_all-Sound f clear each [] st e o = record { order = o; found = λ d h. cc; kept = λ y h. h }
  visit_all-Sound f clear each (d ∷ ds) st e o =
      let clean = visit_all_clean f clear ds (f d st) e in
      let here = each d st clean o in
      let rest = visit_all-Sound f clear each ds (f d st) e here.order in
      record {
        order = rest.order;
        found = λ c h. elim (Bool-cases (c == d)) [
          | inl same ↦ rw (==_sound c d same) (rest.kept d here.found)
          | inr other ↦ rest.found c (ground arith)
        ];
        kept = λ y h. rest.kept y (here.kept y h);
      }

  pub visit-Sound :
      (fuel : ℕ) (x : String) (st : Search)
      → (visit g fuel x st).errors ≡ []
      → InOrder g st.visited
      → Sound x st (visit g fuel x st)
  unfolding visit
  visit-Sound zero x st e o = absurd (append-not_nil st.errors exhausted e)
  visit-Sound (suc fuel) x st e o = elim (Bool-cases (contains st.visiting x)) [
    | inl cycle ↦ absurd (append-not_nil st.errors dependency_cycle (rw cycle at e))
    | inr fresh ↦ elim (Bool-cases (contains st.visited x)) [
      | inl seen ↦ rw (fresh, seen) (record { order = o; found = seen; kept = λ y h. h })
      | inr new ↦
          (let inner =
              visit_all-Sound (visit g fuel) (visit_clean fuel) (visit-Sound fuel)
                (dependencies_of g x) (enter x st) (rw (fresh, new) at e) o in
            rw (fresh, new)
              (record {
                order = (inner.found, inner.order);
                found = ground (arith, ==_refl x);
                kept = λ y h. ground (arith, inner.kept y h);
              }))
    ]
  ]

  -- What a search on an acyclic graph keeps: every id on the path leads to the next one.
  module _ (acyclic : Acyclic g) (ids : List String) (covers : Covers g ids) where
    pub visit_all_complete :
        (fuel : ℕ) (path : List String) (ds : List String)
        → ((d : String) (st : Search)
            → st.visiting ≡ path
            → contains ds d ≡ true
            → (visit g fuel d st).errors ≡ st.errors)
        → (st : Search) → st.visiting ≡ path
        → (visit_all (visit g fuel) ds st).errors ≡ st.errors
    visit_all_complete fuel path [] each st e = refl
    visit_all_complete fuel path (d ∷ ds) each st e =
        visit_all_complete fuel path ds (λ c s p h. each c s p (ground arith)) (visit g fuel d st)
          (visit-visiting g fuel d st ∙ e)
        ∙ each d st e (ground (arith, ==_refl d))

    pub visit_complete :
        (fuel : ℕ) (x : String) (st : Search)
        → contains ids x ≡ true
        → missing ids st.visiting < fuel
        → LeadTo g st.visiting x
        → (visit g fuel x st).errors ≡ st.errors
    unfolding visit
    visit_complete zero x st known enough lead = absurd (omega arith)
    visit_complete (suc fuel) x st known enough lead = elim (Bool-cases (contains st.visiting x)) [
      | inl cycle ↦ absurd (acyclic x (lead x cycle))
      | inr fresh ↦
          (let less = missing-lt x ids st.visiting known fresh in
            let inner =
              visit_all_complete fuel (x ∷ st.visiting) (dependencies_of g x)
                (λ d s e k.
                  visit_complete fuel d s (covers x d k) (rw e (omega (arith, less)))
                    (λ y h. LeadTo-step g x d k st.visiting lead y (rw e at h)))
                (enter x st) refl in
            ground (arith, inner))
    ]
