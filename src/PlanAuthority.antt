-- ===== src/PlanAuthority.antt =====
-- core/authority_intent_graph.py: which actions of a plan are within an authority and a capability. An
-- assessment's digests are left out.
pub mod Within
pub mod Eligible
pub mod Total
use verigate.Base.{
  inl, inr, refl, [], ◌∷◌, ◌++◌, none, some, true, false, zero, suc, ok, err, ◌≡◌, ◌==◌, ◌>>=◌,
  ◌>>◌, string_eq, nat_eq, Eq, String, Option, Bool, ℕ, List, Result, not, raise_if, value_error,
  ◌&&◌, if◌then◌else◌, runtime_error, contains,
}
use verigate.Base.Json.{Value}
use verigate.Models.{
  allow, block, Decision, ActionIntent, permits, Capability, exact_amount, limit_for, or_empty,
}
use verigate.Storage.{suspended}
use verigate.IntentGraph.{
  node, action, node_type_eq, search_fuel, dependencies_of, IntentGraph, IntentNode, actions,
}
use verigate.AuthorityState.{state_eq}
use verigate.AuthorityProtocol.{Authority, authority_ceiling_allows}
use verigate.Models.Digests.{capability_digest}
use verigate.Base.Int.{ℤ}
use verigate.Money.{Amount}

pub data PlanAuthorityStatus : Type 0 where
  eligible blocked : PlanAuthorityStatus

pub PlanAuthorityStatus-discrete : Discrete PlanAuthorityStatus
PlanAuthorityStatus-discrete = hlevel

instance unfoldable pub plan_status_eq : Eq PlanAuthorityStatus
unfolding PlanAuthorityStatus-discrete
plan_status_eq = record { dec = PlanAuthorityStatus-discrete }

pub record IntentAuthorityAssessment : Type 0 where
  pub graph_id : String
  pub node_id : String
  pub intent_id : String
  pub agent_id : String
  pub status : PlanAuthorityStatus
  pub decision : Decision
  pub reason : String
  pub dependency_statuses : List (String × PlanAuthorityStatus)

pub record AuthorityAwareIntentGraph : Type 0 where
  pub graph : IntentGraph
  pub authority : Authority
  pub capability : Capability

-- `AuthorityAwareIntentGraph.__init__`
unfoldable pub authority_aware :
    (Value → String) → IntentGraph → Authority → Capability → Result AuthorityAwareIntentGraph
unfolding capability_digest
authority_aware sha256_json graph authority capability = do
  raise_if (not (capability.agent_id == authority.agent_id))
      (value_error "capability agent does not match authority agent")
  raise_if (not (capability.capability_id == authority.capability_id))
      (value_error "capability does not match authority")
  raise_if (not (capability.version == authority.capability_version))
      (value_error "capability version does not match authority")
  raise_if (not (capability_digest sha256_json capability == authority.capability_sha256))
      (value_error "capability digest does not match authority")
  ok (record { graph = graph; authority = authority; capability = capability })

abbrev decision_of : PlanAuthorityStatus → Decision
decision_of eligible = allow
decision_of blocked = block

abbrev or_payload : Option ActionIntent → Result ActionIntent
or_payload none = err (value_error "ACTION node has no ActionIntent payload")
or_payload (some a) = ok a

abbrev pub action_of : IntentNode → Result ActionIntent
action_of n = or_payload n.action_intent

-- `action.requested_capability and action.requested_capability != …`
abbrev pub asks_other : Option String → String → Bool
asks_other none capability_id = false
asks_other (some requested) capability_id =
    not (requested == "") && not (requested == capability_id)

abbrev pub within_ceiling : Option ℤ → ℕ → Option Amount → Bool
within_ceiling limit multiplier none = true
within_ceiling none multiplier (some requested) = true
within_ceiling (some limit) multiplier (some requested) =
    authority_ceiling_allows limit multiplier requested

module _ (p : AuthorityAwareIntentGraph) where
  abbrev assessment :
      String
      → ActionIntent
      → PlanAuthorityStatus
      → String
      → List (String × PlanAuthorityStatus)
      → IntentAuthorityAssessment
  assessment node_id a status reason statuses = record {
    graph_id = p.graph.graph_id;
    node_id = node_id;
    intent_id = a.intent_id;
    agent_id = a.agent_id;
    status = status;
    decision = decision_of status;
    reason = reason;
    dependency_statuses = statuses;
  }

  -- The test of the exact amount, which may raise.
  abbrev ceiling_verdict : ActionIntent → Result (PlanAuthorityStatus × String)
  ceiling_verdict a = do
    amount ← exact_amount a
    ok (
        if within_ceiling (limit_for p.capability.max_per_action (or_empty a.asset))
          p.authority.multiplier amount
        then (eligible, "action is within current authority and dependencies are eligible")
        else (blocked, "action exceeds current dynamic authority ceiling"))

  abbrev permit_verdict : Bool × String → ActionIntent → Result (PlanAuthorityStatus × String)
  permit_verdict (false, reason) a = ok (blocked, reason)
  permit_verdict (true, reason) a = ceiling_verdict a

  -- The tests of one action, its dependencies being eligible.
  unfoldable pub envelope : ActionIntent → ℕ → Result (PlanAuthorityStatus × String)
  unfolding state_eq permits exact_amount authority_ceiling_allows
  envelope a now =
      if p.authority.state == suspended
      then ok (blocked, "authority is suspended")
      else if not (a.agent_id == p.authority.agent_id)
      then ok (blocked, "action agent does not match authority")
      else if asks_other a.requested_capability p.authority.capability_id
      then ok (blocked, "requested capability does not match authority")
      else permits p.capability a now >>= λ verdict. permit_verdict verdict a

  -- The loop over the dependencies, which stops at the first that is not eligible.
  abbrev pub assess_dependencies :
      (String → Result IntentAuthorityAssessment)
      → List String
      → List (String × PlanAuthorityStatus)
      → Result (Bool × List (String × PlanAuthorityStatus))
  assess_dependencies f [] statuses = ok (true, statuses)
  assess_dependencies f (d ∷ ds) statuses = f d >>= λ dependency.
      (let after = statuses ++ (d, dependency.status) ∷ [] in
        let rest = assess_dependencies f ds after in
        if dependency.status == eligible then rest else ok (false, after))

  abbrev conclude :
      String
      → ActionIntent
      → ℕ
      → Bool × List (String × PlanAuthorityStatus)
      → Result IntentAuthorityAssessment
  conclude node_id a now (false, statuses) =
      ok (assessment node_id a blocked "dependency is not authority-eligible" statuses)
  conclude node_id a now (true, statuses) =
      envelope a now >>= λ verdict. ok (assessment node_id a verdict.0 verdict.1 statuses)

  -- `_assess`, on fuel; running out of it is Python's `RecursionError`.
  unfoldable pub assess_from : ℕ → ℕ → String → List String → Result IntentAuthorityAssessment
  unfolding envelope plan_status_eq node_type_eq node
  assess_from zero now node_id visiting = err (runtime_error "maximum recursion depth exceeded")
  assess_from (suc fuel) now node_id visiting = do
    n ← node p.graph node_id
    raise_if (not (n.node_type == action))
        (value_error "authority assessment requires an ACTION node")
    a ← action_of n
    let inner =
        assess_dependencies (λ d. assess_from fuel now d (node_id ∷ visiting))
          (dependencies_of p.graph node_id) []
        >>= conclude node_id a now
    let cyclic = assessment node_id a blocked "intent graph contains a dependency cycle" []
    (if contains visiting node_id then ok cyclic else inner)

  unfoldable pub assess : ℕ → String → Result IntentAuthorityAssessment
  unfolding assess_from
  assess now node_id = assess_from (search_fuel p.graph) now node_id []

  abbrev assess_nodes : ℕ → List IntentNode → Result (List IntentAuthorityAssessment)
  unfolding assess
  assess_nodes now [] = ok []
  assess_nodes now (n ∷ nodes) = do
    first ← assess now n.node_id
    others ← assess_nodes now nodes
    ok (first ∷ others)

  unfoldable pub assess_all : ℕ → Result (List IntentAuthorityAssessment)
  unfolding assess_nodes actions
  assess_all now = assess_nodes now (actions p.graph)
