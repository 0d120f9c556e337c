-- ===== src/PlanAuthority/Total.antt =====
-- What `assess` answers on every plan.
use verigate.AuthorityState.{state_eq}
use verigate.Storage.{suspended}
use verigate.Base.{
  if◌then◌else◌, nonempty, not, ◌&&◌, inl, inr, refl, [], ◌∷◌, none, some, true, false, zero, suc,
  ok, err, ◌≡◌, ◌==◌, ◌>>=◌, string_eq, runtime_error, Error, ℕ, ◌≢◌, List, Option, String,
  first_row, contains, map, Bool-cases, arith, ==_sound, ==_refl, Bool, err-of_bind, Result, ◌<◌,
  Option-cases, ◌++◌, key_error, ◌↔◌, missing, missing-lt,
}
use verigate.Money.{finite, not_finite, nan, not_number, Amount}
use verigate.Base.Int.{pos, negsuc, ℤ}
use verigate.IntentGraph.{
  node_type_eq, node, action, search_fuel, dependencies_of, IntentNode, IntentGraph, node_ids,
}
use verigate.PlanAuthority.{
  eligible, plan_status_eq, AuthorityAwareIntentGraph, envelope, permit_verdict,
  PlanAuthorityStatus, IntentAuthorityAssessment, assess_from, conclude, assess_dependencies,
  assess, asks_other,
}
use verigate.PlanAuthority.Eligible.{plan, EligiblePlan, assess_sound, assess_complete}
use verigate.Base.Text.{contains_lower}
use verigate.Models.{
  expired, outside, outside_opt, context_permits, exact_amount, ActionIntent, exact_or, permits,
  permits_amount, Capability, limit_for, or_empty,
}
use verigate.IntentGraph.Fuel.{Covers}
use verigate.IntentGraph.Accepts.{met, met-Covers, node_met, enough}

abbrev pub recursion_error : Error
recursion_error = runtime_error "maximum recursion depth exceeded"

exact_amount-ne : (a : ActionIntent) → exact_amount a ≢ err recursion_error
unfolding exact_amount
exact_amount-ne a h = go a.amount_exact a.amount h
  where
    go : (e amount : Option Amount) → ¬ (exact_or e amount ≡ err recursion_error)
    go none none h = cc
    go none (some (finite n)) h = cc
    go none (some not_finite) h = cc
    go none (some nan) h = cc
    go none (some not_number) h = cc
    go (some (finite (pos n))) amount h = cc
    go (some (finite (negsuc n))) amount h = cc
    go (some not_finite) amount h = cc
    go (some nan) amount h = cc
    go (some not_number) amount h = cc

known_node :
    (nodes : List IntentNode) (id : String) (n : IntentNode)
    → first_row (λ (m : IntentNode). m.node_id == id) nodes ≡ some n
    → contains (map (λ (m : IntentNode). m.node_id) nodes) id ≡ true
known_node [] id n h = cc
known_node (m ∷ nodes) id n h = elim (Bool-cases (m.node_id == id)) [
  | inl e ↦ (let same = ==_sound m.node_id id e in let here = ==_refl id in ground arith)
  | inr ne ↦ ground (arith, known_node nodes id n)
]

node-ne : (g : IntentGraph) (id : String) → node g id ≢ err recursion_error
unfolding node
node-ne g id h = ground arith

permits_amount-ne :
    (a : ActionIntent) (limit : Option ℤ) → permits_amount a limit ≢ err recursion_error
unfolding permits_amount
permits_amount-ne a none h = cc
permits_amount-ne a (some limit) h = elim (err-of_bind (exact_amount a) _ h) [
  | inl e ↦ exact_amount-ne a e
  | inr (amount, e, over) ↦ cc
]

branch-ne {ℓ} :
    {A : Type ℓ} (test : Bool) {x y : Result A} {e : Error}
    → x ≢ err e
    → y ≢ err e
    → (if test then x else y) ≢ err e
branch-ne true nx ny = nx
branch-ne false nx ny = ny

permits-ne : (c : Capability) (a : ActionIntent) (now : ℕ) → permits c a now ≢ err recursion_error
unfolding permits
permits-ne c a now =
    branch-ne (not (a.agent_id == c.agent_id)) (λ h. cc)
      (branch-ne (expired c.expires_at now) (λ h. cc)
        (branch-ne (outside c.allowed_actions a.action_type) (λ h. cc)
          (branch-ne
            (nonempty c.allowed_purposes && not (contains_lower c.allowed_purposes a.purpose))
            (λ h. cc)
            (branch-ne (not (context_permits c.context_constraints a.declared_context)) (λ h. cc)
              (branch-ne (outside c.allowed_targets a.target) (λ h. cc)
                (branch-ne (outside c.allowed_resources a.resource) (λ h. cc)
                  (branch-ne (outside_opt c.allowed_networks a.network) (λ h. cc)
                    (branch-ne (outside_opt c.allowed_assets a.asset) (λ h. cc)
                      (permits_amount-ne a (limit_for c.max_per_action (or_empty a.asset)))))))))))

module _ (p : AuthorityAwareIntentGraph) (now : ℕ) where
  permit_verdict-ne :
      (verdict : Bool × String) (a : ActionIntent)
      → permit_verdict p verdict a ≢ err recursion_error
  permit_verdict-ne (false, reason) a h = cc
  permit_verdict-ne (true, reason) a h = elim (err-of_bind (exact_amount a) _ h) [
    | inl e ↦ exact_amount-ne a e
    | inr (amount, e, over) ↦ cc
  ]

  verdict-ne :
      (a : ActionIntent)
      → (permits p.capability a now >>= λ verdict. permit_verdict p verdict a) ≢ err recursion_error
  verdict-ne a h = elim (err-of_bind (permits p.capability a now) _ h) [
    | inl e ↦ permits-ne p.capability a now e
    | inr (verdict, e, f) ↦ permit_verdict-ne verdict a f
  ]

  envelope-ne : (a : ActionIntent) → envelope p a now ≢ err recursion_error
  unfolding envelope
  envelope-ne a =
      branch-ne (p.authority.state == suspended) (λ h. cc)
        (branch-ne (not (a.agent_id == p.authority.agent_id)) (λ h. cc)
          (branch-ne (asks_other a.requested_capability p.authority.capability_id) (λ h. cc)
            (verdict-ne a)))

  conclude-ne :
      (id : String) (a : ActionIntent) (ds : Bool × List (String × PlanAuthorityStatus))
      → conclude p id a now ds ≢ err recursion_error
  conclude-ne id a (false, statuses) h = cc
  conclude-ne id a (true, statuses) h = elim (err-of_bind (envelope p a now) _ h) [
    | inl e ↦ envelope-ne a e
    | inr (verdict, e, f) ↦ cc
  ]

  -- an error of the loop is an error of one dependency
  dependency_failed :
      (f : String → Result IntentAuthorityAssessment) (ds : List String)
      (before : List (String × PlanAuthorityStatus)) (e : Error)
      → assess_dependencies p f ds before ≡ err e
      → (d : String) × (contains ds d ≡ true) × (f d ≡ err e)
  dependency_failed f [] before e h = cc
  dependency_failed f (d ∷ ds) before e h = elim (err-of_bind (f d) _ h) [
    | inl first ↦ (d, ground (arith, ==_refl d), first)
    | inr (x, found, rest) ↦ elim (Bool-cases (x.status == eligible)) [
      | inl good ↦
          (let (c, k, failed) =
              dependency_failed f ds (before ++ (d, x.status) ∷ []) e (rw good at rest) in
            (c, ground arith, failed))
      | inr bad ↦ cc (rw bad at rest)
    ]
  ]

  module _ (ids : List String) (covers : Covers p.graph ids) where
    inside :
        (fuel : ℕ) (id : String) (visiting : List String) (a : ActionIntent)
        → contains ids id ≡ true
        → missing ids visiting < suc fuel
        → contains visiting id ≡ false
        → ((d : String)
            → contains ids d ≡ true
            → missing ids (id ∷ visiting) < fuel
            → assess_from p fuel now d (id ∷ visiting) ≢ err recursion_error)
        → ¬ (
            (assess_dependencies p
                (λ d. assess_from p fuel now d (id ∷ visiting))
                (dependencies_of p.graph id)
                []
              >>= conclude p id a now)
            ≡ err recursion_error)
    inside fuel id visiting a known enough fresh each h =
        elim (err-of_bind
          (assess_dependencies p (λ d. assess_from p fuel now d (id ∷ visiting))
            (dependencies_of p.graph id) [])
          _ h) [
            | inl e ↦
                (let (d, k, failed) =
                    dependency_failed (λ d. assess_from p fuel now d (id ∷ visiting))
                      (dependencies_of p.graph id) [] recursion_error e in
                  let less = missing-lt id ids visiting known fresh in
                  each d (covers id d k) (omega (arith, less)) failed)
            | inr (ds, e, f) ↦ conclude-ne id a ds f
          ]

    bounded :
        (fuel : ℕ) (id : String) (visiting : List String)
        → contains ids id ≡ true
        → missing ids visiting < fuel
        → assess_from p fuel now id visiting ≢ err recursion_error
    unfolding assess_from
    bounded zero id visiting known enough h = absurd (omega arith)
    bounded (suc fuel) id visiting known enough h = elim (err-of_bind (node p.graph id) _ h) [
      | inl e ↦ node-ne p.graph id e
      | inr (n, found, h1) ↦ elim (Bool-cases (n.node_type == action)) [
        | inr other ↦ cc (rw other at h1)
        | inl typed ↦ elim (Option-cases n.action_intent) [
          | inl nothing ↦ cc (rw (typed, nothing) at h1)
          | inr (a, payload) ↦ elim (Bool-cases (contains visiting id)) [
            | inl cycle ↦ cc (rw (typed, payload, cycle) at h1)
            | inr fresh ↦
                inside fuel id visiting a known enough fresh (λ d. bounded fuel d (id ∷ visiting))
                  (rw (typed, payload, fresh) at h1)
          ]
        ]
      ]
    ]

  plan_known : {id : String} → EligiblePlan p now id → contains (node_ids p.graph) id ≡ true
  unfolding node
  plan_known (plan id n a found typed payload within kids) =
      elim (Option-cases (first_row (λ (m : IntentNode). m.node_id == id) p.graph.nodes)) [
        | inl nothing ↦ cc (rw nothing at found)
        | inr (m, e) ↦ known_node p.graph.nodes id m e
      ]

  unknown_node_err :
      (id : String)
      → contains (node_ids p.graph) id ≡ false
      → assess_from p (search_fuel p.graph) now id [] ≡ err (key_error "unknown intent graph node")
  unfolding assess_from node
  unknown_node_err id h =
      elim (Option-cases (first_row (λ (m : IntentNode). m.node_id == id) p.graph.nodes)) [
        | inl nothing ↦ rw nothing refl
        | inr (m, e) ↦ (let k = known_node p.graph.nodes id m e in ground arith)
      ]

  -- The search fuel of `assess` is enough on every plan, a cyclic one included.
  assess_ends : (node_id : String) → assess p now node_id ≢ err recursion_error
  unfolding assess
  assess_ends node_id h = elim (Bool-cases (contains (node_ids p.graph) node_id)) [
    | inl known ↦
        bounded (met p.graph) (met-Covers p.graph) (search_fuel p.graph) node_id []
          (node_met p.graph node_id known) (enough p.graph) h
    | inr unknown ↦ cc (unknown_node_err node_id unknown)
  ]

  -- An action is eligible exactly when it is within the authority and the capability, and so is every action
  -- that its plan makes it depend on, directly or through others. Within them: the authority is not
  -- suspended and is that of the agent and of the capability asked for, if one is; the action is in the
  -- capability's scope, and its exact amount at most the multiplier's hundredths of the limit, if there is one.
  pub assess_iff :
      (node_id : String)
      → ((x : IntentAuthorityAssessment) × (assess p now node_id ≡ ok x) × (x.status ≡ eligible))
        ↔ EligiblePlan p now node_id
  unfolding assess
  assess_iff node_id = (
    λ w. assess_sound p now (search_fuel p.graph) node_id [] w.0 w.1 w.2,
    λ e.
        assess_complete p now (met p.graph) (met-Covers p.graph) (search_fuel p.graph) node_id [] e
          (node_met p.graph node_id (plan_known e)) (enough p.graph) (λ y h. cc),
  )
