-- ===== src/IntentGraph/Accepts.antt =====
-- The graphs that `validate` and `build` accept.
use verigate.Base.{
  inl, inr, refl, [], ◌∷◌, true, false, ok, ◌≡◌, ◌==◌, string_eq, List, String, contains, length,
  ◌↔◌, count_rows, arith, any, ◌<◌, ◌++◌, ◌+◌, where_rows, length-append, ◌||◌, ◌∙◌, Bool-cases, ap,
  missing, missing-start, has_duplicate,
}
use verigate.IntentGraph.{
  validate, exhausted, problem_eq, relation_eq, IntentGraph, dependencies_of, all_errors, build,
  node_ids, IntentEdge, Search, early_errors, visit, IntentGraphBuilder, targets_of, unknown_edges,
  search_fuel, graph_of, is_unknown, is_dependency,
}
use verigate.IntentGraph.Fuel.{Covers, visit_all-misses, visit-misses}
use verigate.IntentGraph.Validate.{
  visit_all_complete, visit_all_clean, visit_complete, visit_clean, visit_all-Sound, visit-Sound,
}
use verigate.IntentGraph.Paths.{Acyclic, Reaches-source, InOrder-Acyclic}

-- The ids that a search may meet.
abbrev pub met : IntentGraph → List String
met g = node_ids g ++ targets_of g.edges

contains-append :
    (xs ys : List String) (x : String) → contains (xs ++ ys) x ≡ (contains xs x || contains ys x)
contains-append [] ys x = refl
contains-append (y ∷ xs) ys x = ground (arith, contains-append xs ys x)

target_met :
    (a b : String) (es : List IntentEdge)
    → contains (targets_of (where_rows (is_dependency a) es)) b ≡ true
    → contains (targets_of es) b ≡ true
target_met a b [] h = h
target_met a b (e ∷ es) h = ground (arith, target_met a b es)

pub met-Covers : (g : IntentGraph) → Covers g (met g)
unfolding dependencies_of
met-Covers g a b h = rw contains-append (ground (arith, target_met a b g.edges h))

source_known :
    (ids : List String) (a b : String) (es : List IntentEdge)
    → any (is_unknown ids) es ≡ false
    → contains (targets_of (where_rows (is_dependency a) es)) b ≡ true
    → contains ids a ≡ true
source_known ids a b [] k h = cc
source_known ids a b (e ∷ es) k h = ground (arith, source_known ids a b es)

unknown_iff :
    (ids : List String) (es : List IntentEdge)
    → (unknown_edges ids es ≡ []) ↔ (any (is_unknown ids) es ≡ false)
unknown_iff ids [] = (λ h. refl, λ h. refl)
unknown_iff ids (e ∷ es) =
    let ih = unknown_iff ids es in (λ h. ground (arith, ih.0), λ h. ground (arith, ih.1))

length-met : (g : IntentGraph) → length (met g) ≡ length (node_ids g) + length g.edges
length-met g =
    length-append (node_ids g) (targets_of g.edges) ∙ ap (λ n. length (node_ids g) + n) (go g.edges)
  where
    go : (es : List IntentEdge) → length (targets_of es) ≡ length es
    go [] = refl
    go (e ∷ es) = omega (arith, go es)

abbrev begin : IntentGraph → Search
begin g = record { visiting = []; visited = []; errors = early_errors g }

pub enough : (g : IntentGraph) → missing (met g) [] < search_fuel g
enough g = omega (arith, missing-start (met g), length-met g)

pub node_met :
    (g : IntentGraph) (x : String) → contains (node_ids g) x ≡ true → contains (met g) x ≡ true
node_met g x h = rw contains-append (ground arith)

-- A graph whose node ids differ, whose edges join its nodes, and in which no dependency path returns.
pub record IsPlan (g : IntentGraph) : Type 0 where
  pub ids_differ : has_duplicate (node_ids g) ≡ false
  pub edges_known : any (is_unknown (node_ids g)) g.edges ≡ false
  pub acyclic : Acyclic g

early_sound :
    (g : IntentGraph)
    → early_errors g ≡ []
    → (has_duplicate (node_ids g) ≡ false) × (any (is_unknown (node_ids g)) g.edges ≡ false)
early_sound g h = elim (Bool-cases (has_duplicate (node_ids g))) [
  | inl twice ↦ ground arith
  | inr once ↦ (once, (unknown_iff (node_ids g) g.edges).0 (ground arith))
]

sound : (g : IntentGraph) → all_errors g ≡ [] → IsPlan g
unfolding all_errors dependencies_of
sound g h =
    let search = visit g (search_fuel g) in
    let start = visit_all_clean g search (visit_clean g (search_fuel g)) (node_ids g) (begin g) h in
    let (once, known) = early_sound g start in
    let all =
      visit_all-Sound g search (visit_clean g (search_fuel g)) (visit-Sound g (search_fuel g))
        (node_ids g) (begin g) h tt in
    record {
      ids_differ = once;
      edges_known = known;
      acyclic = λ a r.
          (let (b, needs) = Reaches-source g r in
            InOrder-Acyclic g _ all.order a
              (all.found a (source_known (node_ids g) a b g.edges known needs)) r);
    }

nowhere : (st : Search) (y : String) → st.visiting ≡ [] → ¬ (contains st.visiting y ≡ true)
nowhere st y e h = cc (rw e at h)

complete : (g : IntentGraph) → IsPlan g → all_errors g ≡ []
unfolding all_errors
complete g plan =
    visit_all_complete g plan.acyclic (met g) (met-Covers g) (search_fuel g) [] (node_ids g)
      (λ d st e k.
        visit_complete g plan.acyclic (met g) (met-Covers g) (search_fuel g) d st (node_met g d k)
          (rw e (enough g)) (λ y h. absurd (nowhere st y e h)))
      (begin g) refl
    ∙ ground (arith, (unknown_iff (node_ids g) g.edges).1 plan.edges_known, plan.ids_differ)

-- `validate` accepts a graph exactly when its node ids differ, its edges join its own nodes, and no dependency
-- path leads from a node back to it.
pub validate_iff : (g : IntentGraph) → ((validate g).0 ≡ true) ↔ IsPlan g
unfolding validate
validate_iff g = (λ h. sound g (ground arith), λ plan. rw (complete g plan) refl)

early_misses :
    (ids : List String) (es : List IntentEdge)
    → count_rows (λ p. p == exhausted) (unknown_edges ids es) ≡ 0
early_misses ids [] = refl
early_misses ids (e ∷ es) = ground (arith, early_misses ids es)

-- The fuel of the search in `validate` is enough on every graph, cyclic ones and those with unknown nodes
-- included: it never runs out.
validate_fuel : (g : IntentGraph) → count_rows (λ p. p == exhausted) (all_errors g) ≡ 0
unfolding all_errors
validate_fuel g =
    visit_all-misses g (met g) (met-Covers g) (search_fuel g) [] (node_ids g)
      (λ d st e k. visit-misses g (met g) (met-Covers g) (search_fuel g) d st k (rw e (enough g)))
      (node_met g) (begin g) refl
    ∙ ground (arith, early_misses (node_ids g) g.edges)

-- `build` gives the builder's graph exactly when that is a plan, and else raises.
pub build_iff :
    (b : IntentGraphBuilder) (g : IntentGraph)
    → (build b ≡ ok g) ↔ ((g ≡ graph_of b) × IsPlan (graph_of b))
unfolding build
build_iff b g =
    let accepted = validate_iff (graph_of b) in
    (
      λ h. (let same : g ≡ graph_of b = ground arith in (same, accepted.0 (ground arith))),
      λ w. ground (arith, accepted.1 w.1),
    )
