-- ===== src/IntentGraph/Fuel.antt =====
-- The search of `validate` keeps its path, and its fuel is enough.
use verigate.Base.{
  inl, inr, refl, [], ◌∷◌, true, zero, suc, ◌≡◌, ◌==◌, string_eq, String, List, ℕ, contains, arith,
  count_rows, ◌<◌, ==_refl, Bool-cases, ◌∙◌, ap, count_rows-append_left_out, missing, missing-lt,
}
use verigate.IntentGraph.{
  dependency_cycle, exhausted, problem_eq, IntentGraph, remove, Search, visit, visit_all,
  dependencies_of, enter,
}

remove_head : (x : String) (xs : List String) → remove (x ∷ xs) x ≡ xs
remove_head x xs = ground (arith, ==_refl x)

module _ (g : IntentGraph) where
  visit_all-visiting :
      (f : String → Search → Search)
      → ((d : String) (st : Search) → (f d st).visiting ≡ st.visiting)
      → (ds : List String) (st : Search) → (visit_all f ds st).visiting ≡ st.visiting
  visit_all-visiting f keep [] st = refl
  visit_all-visiting f keep (d ∷ ds) st = visit_all-visiting f keep ds (f d st) ∙ keep d st

  pub visit-visiting :
      (fuel : ℕ) (x : String) (st : Search) → (visit g fuel x st).visiting ≡ st.visiting
  unfolding visit
  visit-visiting zero x st = refl
  visit-visiting (suc fuel) x st =
      let inner =
        visit_all-visiting (visit g fuel) (visit-visiting fuel) (dependencies_of g x)
          (enter x st) in
      ground (arith, ap (λ p. remove p x) inner ∙ remove_head x st.visiting)

  -- how often the fuel ran out
  abbrev pub misses : Search → ℕ
  misses st = count_rows (λ p. p == exhausted) st.errors

  -- the ids that a search may meet: `ids` has every target of a dependency
  abbrev pub Covers : List String → Type 0
  Covers ids = (a b : String) → contains (dependencies_of g a) b ≡ true → contains ids b ≡ true

  module _ (ids : List String) (covers : Covers ids) where
    pub visit_all-misses :
        (fuel : ℕ) (visiting ds : List String)
        → ((d : String) (st : Search)
            → st.visiting ≡ visiting
            → contains ids d ≡ true
            → misses (visit g fuel d st) ≡ misses st)
        → ((d : String) → contains ds d ≡ true → contains ids d ≡ true)
        → (st : Search) → st.visiting ≡ visiting
        → misses (visit_all (visit g fuel) ds st) ≡ misses st
    visit_all-misses fuel visiting [] keep known st e = refl
    visit_all-misses fuel visiting (d ∷ ds) keep known st e =
        visit_all-misses fuel visiting ds keep (λ c h. known c (ground arith)) (visit g fuel d st)
          (visit-visiting fuel d st ∙ e)
        ∙ keep d st e (known d (ground (arith, ==_refl d)))

    pub visit-misses :
        (fuel : ℕ) (x : String) (st : Search)
        → contains ids x ≡ true
        → missing ids st.visiting < fuel
        → misses (visit g fuel x st) ≡ misses st
    unfolding visit
    visit-misses zero x st known enough = absurd (omega arith)
    visit-misses (suc fuel) x st known enough = elim (Bool-cases (contains st.visiting x)) [
      | inl cycle ↦ rw cycle (
          count_rows-append_left_out (λ p. p == exhausted) st.errors dependency_cycle
            (ground arith))
      | inr fresh ↦
          (let less = missing-lt x ids st.visiting known fresh in
            let inner =
              visit_all-misses fuel (x ∷ st.visiting) (dependencies_of g x)
                (λ d s e k. visit-misses fuel d s k (rw e (omega (arith, less)))) (covers x)
                (enter x st) refl in
            ground (arith, inner))
    ]
