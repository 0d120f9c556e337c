-- ===== src/Tests/Data.antt =====
-- Small inputs: a policy, a store, a payment, an action and two capabilities.
use verigate.Base.{[], ◌∷◌, none, some, false, String, List}
use verigate.Base.Json.{end, Value}
use verigate.Base.Int.{pos, negsuc, ℤ}
use verigate.Money.{finite}
use verigate.Policy.{Policy}
use verigate.Storage.{Storage, empty, active, CapabilityRow, IdentityRow}
use verigate.Models.{Capability, ActionIntent, PaymentIntent, AgentIdentity}

abbrev pub digest : Value → String
digest v = ""

abbrev pub caps : List (String × ℤ)
caps = ("USDC", pos 100) ∷ []

abbrev pub small_policy : Policy
small_policy = record {
  blocked_payees = "mallory" ∷ [];
  allowed_payees = none;
  allowed_action_types = none;
  allowed_purposes = none;
  context_constraints = end;
  input_provenance_constraints = end;
  execution_graph = end;
  allowed_destinations = none;
  blocked_destinations = [];
  require_external_state_binding = false;
  external_state_requirements = [];
  allowed_targets = none;
  allowed_networks = some ("base" ∷ []);
  allowed_assets = none;
  per_tx_cap = caps;
  daily_cap = caps;
  new_payee_cap = caps;
  rate_limit_per_minute = 2;
  confirmation_required_over = [];
  raw = end;
}

abbrev pub payment : PaymentIntent
payment = record {
  agent_id = "agent";
  payee = "shop";
  asset = "USDC";
  network = "base";
  amount = finite (pos 60);
  resource = "";
  metadata = end;
  intent_id = "intent";
  timestamp = 1000;
}

abbrev pub lower_payment : PaymentIntent
lower_payment = record payment { asset = "usdc"; intent_id = "intent 2" }

abbrev pub action : ActionIntent
action = record {
  agent_id = "agent";
  action_type = "transfer";
  target = "shop";
  resource = "";
  amount = some (finite (pos 5));
  amount_exact = none;
  asset = some "USDC";
  network = some "base";
  purpose = "";
  declared_context = end;
  input_provenance = end;
  parent_intent_id = none;
  requested_capability = none;
  constraints = end;
  metadata = end;
  intent_id = "action";
  timestamp = 1000;
}

abbrev pub bad_action : ActionIntent
bad_action = record action { amount_exact = some (finite (negsuc 0)) }

abbrev pub parent : Capability
parent = record {
  capability_id = "parent";
  agent_id = "boss";
  identity_id = some "boss key";
  delegated_from = none;
  delegated_by_identity_id = none;
  delegation_depth = 0;
  allowed_actions = "transfer" ∷ [];
  allowed_purposes = [];
  context_constraints = end;
  allowed_targets = "shop" ∷ [];
  allowed_resources = [];
  allowed_networks = [];
  allowed_assets = [];
  max_per_action = caps;
  aggregate_limits = [];
  conditions = [];
  version = 1;
  issued_at = 0;
  expires_at = none;
  metadata = end;
}

abbrev pub child : Capability
child = record parent {
  capability_id = "child";
  agent_id = "agent";
  identity_id = none;
  delegated_from = some "parent";
  delegated_by_identity_id = some "boss key";
  delegation_depth = 1;
}

abbrev row : Capability → CapabilityRow
row c = record {
  capability_id = c.capability_id;
  capability = c;
  status = active;
  expires_at = none;
  revoked_at = none;
  created_at = 0;
}

abbrev boss : AgentIdentity
boss = record {
  agent_id = "boss";
  public_key_b64 = "";
  key_id = "boss key";
  organization_id = "";
  identity_version = 1;
  reputation_ref = none;
  issued_at = 0;
  expires_at = none;
  metadata = end;
}

abbrev boss_row : IdentityRow
boss_row = record {
  identity_id = "boss key";
  identity = boss;
  status = active;
  expires_at = none;
  revoked_at = none;
  created_at = 0;
}

abbrev pub store : Storage
store = record empty { identities = boss_row ∷ []; capabilities = row parent ∷ row child ∷ [] }
