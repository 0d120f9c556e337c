-- ===== src/PlanAuthority/Eligible.antt =====
-- The plans whose actions are eligible.
use mathlib.Core.Path.{subst}
use verigate.Base.{
  inl, inr, refl, [], ◌∷◌, some, true, false, zero, suc, ok, ◌≡◌, ◌==◌, ◌>>=◌, string_eq, Result,
  Bool, ℕ, String, List, not, Bool-cases, if◌then◌else◌, contains, Option-cases, arith, sym,
  ==_sound, ==_refl, ◌++◌, ◌<◌, ◌∙◌, ap, ok-of_bind, ok-of_guard, missing, missing-lt,
}
use verigate.IntentGraph.{node, action, node_type_eq, dependencies_of, IntentNode}
use verigate.IntentGraph.Paths.{one, more, Reaches, Needs, Reaches-snoc, LeadTo, LeadTo-step}
use verigate.PlanAuthority.{
  eligible, blocked, plan_status_eq, AuthorityAwareIntentGraph, assess_from,
  IntentAuthorityAssessment, envelope, PlanAuthorityStatus, action_of, assess_dependencies,
  assessment, conclude,
}
use verigate.Models.{ActionIntent}
use verigate.PlanAuthority.Within.{Within, envelope_sound, envelope_complete}
use verigate.IntentGraph.Fuel.{Covers}

module _ (p : AuthorityAwareIntentGraph) (now : ℕ) where
  -- an action within the authority and the capability, all its dependencies being so
  pub data EligiblePlan : String → Type 0 where
    plan :
        (node_id : String) (n : IntentNode) (a : ActionIntent)
        → node p.graph node_id ≡ ok n
        → n.node_type ≡ action
        → n.action_intent ≡ some a
        → Within p a now
        → ((d : String) → Needs p.graph node_id d → EligiblePlan d)
        → EligiblePlan node_id

  rotate :
      {a c : String}
      → Reaches p.graph a c
      → c ≡ a
      → (d : String) × Needs p.graph a d × Reaches p.graph d d
  rotate (one a c n) e = (c, n, rw e (one a a (rw e at n)))
  rotate (more a b c n r) e =
      (b, n, Reaches-snoc p.graph b r (subst (λ x. Needs p.graph x b) (sym e) n))

  EligiblePlan-no_cycle : {a : String} → EligiblePlan a → ¬ Reaches p.graph a a
  EligiblePlan-no_cycle (plan a n act found typed payload within kids) r =
      let (d, needs, around) = rotate r refl in EligiblePlan-no_cycle (kids d needs) around

  -- the status that a loop over dependencies ends with
  dependencies_sound :
      (f : String → Result IntentAuthorityAssessment)
      → ((d : String) (x : IntentAuthorityAssessment)
          → f d ≡ ok x
          → x.status ≡ eligible
          → EligiblePlan d)
      → (ds : List String) (before after : List (String × PlanAuthorityStatus))
      → assess_dependencies p f ds before ≡ ok (true, after)
      → (d : String) → contains ds d ≡ true
      → EligiblePlan d
  dependencies_sound f each [] before after h d k = cc
  dependencies_sound f each (c ∷ ds) before after h d k =
      let (x, first, rest) = ok-of_bind (f c) _ h in
      elim (Bool-cases (x.status == eligible)) [
        | inl good ↦ elim (Bool-cases (d == c)) [
          | inl same ↦ rw (==_sound d c same) (each c x first (==_sound x.status eligible good))
          | inr other ↦ dependencies_sound f each ds _ after (rw good at rest) d (ground arith)
        ]
        | inr bad ↦ ground arith
      ]

  -- what an assessment that did not raise has read
  Read : ℕ → String → List String → IntentAuthorityAssessment → Type 0
  Read fuel node_id visiting x =
      (n : IntentNode) × (a : ActionIntent) × (node p.graph node_id ≡ ok n)
      × (n.node_type ≡ action)
      × (n.action_intent ≡ some a)
      × ((if contains visiting node_id
            then ok (assessment p node_id a blocked "intent graph contains a dependency cycle" [])
            else (assess_dependencies p (λ d. assess_from p fuel now d (node_id ∷ visiting))
                  (dependencies_of p.graph node_id) []
                >>= conclude p node_id a now))
          ≡ ok x)

  payload_found :
      (n : IntentNode) (a : ActionIntent) → action_of n ≡ ok a → n.action_intent ≡ some a
  payload_found n a h = elim (Option-cases n.action_intent) [
    | inl e ↦ cc (rw e at h)
    | inr (b, e) ↦ ground arith
  ]

  read :
      (fuel : ℕ) (node_id : String) (visiting : List String) (x : IntentAuthorityAssessment)
      → assess_from p (suc fuel) now node_id visiting ≡ ok x
      → Read fuel node_id visiting x
  unfolding assess_from Read
  read fuel node_id visiting x h =
      let (n, found, h1) = ok-of_bind (node p.graph node_id) _ h in
      let (typed, h2) = ok-of_guard (not (n.node_type == action)) _ _ h1 in
      let (a, payload, h3) = ok-of_bind (action_of n) _ h2 in
      (n, a, found, ground arith, payload_found n a payload, h3)

  no_fuel :
      (node_id : String) (visiting : List String) (x : IntentAuthorityAssessment)
      → ¬ (assess_from p zero now node_id visiting ≡ ok x)
  unfolding assess_from
  no_fuel node_id visiting x h = cc

  concluded :
      (node_id : String) (a : ActionIntent) (ds : Bool × List (String × PlanAuthorityStatus))
      (x : IntentAuthorityAssessment)
      → conclude p node_id a now ds ≡ ok x
      → x.status ≡ eligible
      → (ds.0 ≡ true) × ((reason : String) × (envelope p a now ≡ ok (eligible, reason)))
  concluded node_id a (false, statuses) x h good = ground arith
  concluded node_id a (true, statuses) x h good =
      let (verdict, within, end) = ok-of_bind (envelope p a now) _ h in
      let same : verdict.0 ≡ eligible = ground arith in
      (
        refl,
        (verdict.1, within ∙ ap (λ (status : PlanAuthorityStatus). ok (status, verdict.1)) same),
      )

  pub assess_sound :
      (fuel : ℕ) (node_id : String) (visiting : List String) (x : IntentAuthorityAssessment)
      → assess_from p fuel now node_id visiting ≡ ok x
      → x.status ≡ eligible
      → EligiblePlan node_id
  unfolding Read
  assess_sound zero node_id visiting x h good = absurd (no_fuel node_id visiting x h)
  assess_sound (suc fuel) node_id visiting x h good =
      let (n, a, found, typed, payload, rest) = read fuel node_id visiting x h in
      elim (Bool-cases (contains visiting node_id)) [
        | inl cycle ↦ ground arith
        | inr fresh ↦
            (let (ds, deps, end) =
                ok-of_bind
                  (assess_dependencies p (λ d. assess_from p fuel now d (node_id ∷ visiting))
                    (dependencies_of p.graph node_id) [])
                  _ (rw fresh at rest) in
              let (all_good, (reason, within)) = concluded node_id a ds x end good in
              plan node_id n a found typed payload (envelope_sound p a now reason within) (
                dependencies_sound (λ d. assess_from p fuel now d (node_id ∷ visiting))
                  (λ d y. assess_sound fuel d (node_id ∷ visiting) y)
                  (dependencies_of p.graph node_id) [] ds.1 (ground arith)))
      ]

  dependencies_complete :
      (f : String → Result IntentAuthorityAssessment) (ds : List String)
      → ((d : String)
          → contains ds d ≡ true
          → (x : IntentAuthorityAssessment) × (f d ≡ ok x) × (x.status ≡ eligible))
      → (before : List (String × PlanAuthorityStatus))
      → (after : List (String × PlanAuthorityStatus)) × (assess_dependencies p f ds before
          ≡ ok (true, after))
  dependencies_complete f [] each before = (before, refl)
  dependencies_complete f (d ∷ ds) each before =
      let (x, first, good) = each d (ground (arith, ==_refl d)) in
      let (after, rest) =
        dependencies_complete f ds (λ c k. each c (ground arith)) (before ++ (d, x.status) ∷ []) in
      (after, ground arith)

  module _ (ids : List String) (covers : Covers p.graph ids) where
    pub assess_complete :
        (fuel : ℕ) (node_id : String) (visiting : List String)
        → EligiblePlan node_id
        → contains ids node_id ≡ true
        → missing ids visiting < fuel
        → LeadTo p.graph visiting node_id
        → (x : IntentAuthorityAssessment) × (assess_from p fuel now node_id visiting ≡ ok x)
          × (x.status ≡ eligible)
    unfolding assess_from
    assess_complete zero node_id visiting e known enough lead = absurd (omega arith)
    assess_complete (suc fuel) node_id visiting (plan _ n a found typed payload within kids) known
          enough lead =
        elim (Bool-cases (contains visiting node_id)) [
          | inl cycle ↦ absurd (
              EligiblePlan-no_cycle (plan node_id n a found typed payload within kids)
                (lead node_id cycle))
          | inr fresh ↦
              (let less = missing-lt node_id ids visiting known fresh in
                let (reason, answered) = envelope_complete p a now within in
                let (after, deps) =
                  dependencies_complete (λ d. assess_from p fuel now d (node_id ∷ visiting))
                    (dependencies_of p.graph node_id)
                    (λ d k.
                      assess_complete fuel d (node_id ∷ visiting) (kids d k) (covers node_id d k)
                        (omega (arith, less)) (LeadTo-step p.graph node_id d k visiting lead))
                    [] in
                (
                  assessment p node_id a eligible reason after,
                  rw (found, payload) (ground arith),
                  refl,
                ))
        ]
