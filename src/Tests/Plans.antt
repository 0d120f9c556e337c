-- ===== src/Tests/Plans.antt =====
-- Plans of two actions, one of which depends on the other.
use verigate.Base.{[], ◌∷◌, some, true, ok, ◌≡◌, string_eq, nat_eq, option_eq, String, ◌↔◌}
use verigate.IntentGraph.{
  action, depends_on, node_type_eq, relation_eq, problem_eq, IntentNode, IntentGraph,
  IntentGraphBuilder, validate, build, graph_of,
}
use verigate.IntentGraph.Accepts.{IsPlan, validate_iff, build_iff}
use verigate.PlanAuthority.{eligible, AuthorityAwareIntentGraph, IntentAuthorityAssessment, assess}
use verigate.PlanAuthority.Eligible.{EligiblePlan}
use verigate.PlanAuthority.Total.{assess_iff}
use verigate.AuthorityProtocol.{Authority}
use verigate.Storage.{standard}
use verigate.Tests.Data.{parent}

abbrev step : String → IntentNode
step id = record {
  node_id = id;
  node_type = action;
  label = id;
  action_intent = some (record verigate.Tests.Data.action { agent_id = "boss" });
}

abbrev small_plan : IntentGraph
small_plan = record {
  graph_id = "plan";
  nodes = step "pay" ∷ step "check" ∷ [];
  edges = (record { source_id = "pay"; relation = depends_on; target_id = "check" }) ∷ [];
}

abbrev builder : IntentGraphBuilder
builder = record { graph_id = "plan"; nodes = small_plan.nodes; edges = small_plan.edges }

validate_iff_example : ((validate small_plan).0 ≡ true) ↔ IsPlan small_plan
validate_iff_example = validate_iff small_plan

build_iff_example :
    (build builder ≡ ok small_plan) ↔ ((small_plan ≡ graph_of builder) × IsPlan (graph_of builder))
build_iff_example = build_iff builder small_plan

abbrev small_authority : Authority
small_authority = record {
  authority_id = "authority";
  agent_id = "boss";
  identity_id = "boss key";
  capability_id = "parent";
  capability_version = 1;
  capability_sha256 = "";
  state = standard;
  multiplier = 100;
  ledger_head_hash = "";
}

abbrev with_authority : AuthorityAwareIntentGraph
with_authority = record { graph = small_plan; authority = small_authority; capability = parent }

assess_iff_example :
    ((x : IntentAuthorityAssessment) × (assess with_authority 5000 "pay" ≡ ok x)
      × (x.status ≡ eligible))
    ↔ EligiblePlan with_authority 5000 "pay"
assess_iff_example = assess_iff with_authority 5000 "pay"
