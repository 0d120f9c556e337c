-- ===== src/Policy.antt =====
-- core/policy.py: a policy that was loaded.
pub mod Version
use verigate.Base.{ℕ, String, Bool, List, Option}
use verigate.Base.Json.{Fields}
use verigate.Models.{Limits}

pub record Policy : Type 0 where
  pub blocked_payees : List String
  pub allowed_payees : Option (List String)
  pub allowed_action_types : Option (List String)
  pub allowed_purposes : Option (List String)
  pub context_constraints : Fields
  pub input_provenance_constraints : Fields
  pub execution_graph : Fields
  pub allowed_destinations : Option (List String)
  pub blocked_destinations : List String
  pub require_external_state_binding : Bool
  pub external_state_requirements : List Fields
  pub allowed_targets : Option (List String)
  pub allowed_networks : Option (List String)
  pub allowed_assets : Option (List String)
  pub per_tx_cap : Limits
  pub daily_cap : Limits
  pub new_payee_cap : Limits
  pub rate_limit_per_minute : ℕ
  pub confirmation_required_over : Limits
  pub raw : Fields
