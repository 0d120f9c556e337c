-- ===== src/Models/Digests.antt =====
-- The digests of core/models.py: SHA-256, a parameter, of the JSON of the listed fields.
use verigate.Base.{[], ◌∷◌, none, some, List, Option, String, ℕ}
use verigate.Base.Json.{Value, null, num, str, obj, arr, Items, nil, cons, Fields, end, field}
use verigate.Base.Int.{pos}
use verigate.Money.{Amount, finite, not_finite, nan, not_number}
use verigate.Models.{opt_str, Limits, Capability, AgentIdentity, ActionIntent}

abbrev pub strings : List String → Items
strings [] = nil
strings (x ∷ xs) = cons (str x) (strings xs)

abbrev pub limits_fields : Limits → Fields
limits_fields [] = end
limits_fields ((asset, limit) ∷ rest) = field asset (num limit) (limits_fields rest)

abbrev pub time_value : Option ℕ → Value
time_value none = null
time_value (some t) = num (pos t)

-- from "delegated_from" on
abbrev capability_fields_after : Capability → Fields
capability_fields_after c = field "delegated_from" (opt_str c.delegated_from) (
    field "delegation_depth" (num (pos c.delegation_depth)) (
      field "expires_at" (time_value c.expires_at) (
        field "identity_id" (opt_str c.identity_id) (
          field "issued_at" (num (pos c.issued_at)) (
            field "max_per_action" (obj (limits_fields c.max_per_action))
              (field "metadata" (obj c.metadata) (field "version" (num (pos c.version)) end)))))))

-- the payload of `Capability.digest`, by key
abbrev pub capability_fields : Capability → Fields
capability_fields c = field "agent_id" (str c.agent_id) (
    field "aggregate_limits" (obj (limits_fields c.aggregate_limits)) (
      field "allowed_actions" (arr (strings c.allowed_actions)) (
        field "allowed_assets" (arr (strings c.allowed_assets)) (
          field "allowed_networks" (arr (strings c.allowed_networks)) (
            field "allowed_purposes" (arr (strings c.allowed_purposes)) (
              field "allowed_resources" (arr (strings c.allowed_resources)) (
                field "allowed_targets" (arr (strings c.allowed_targets)) (
                  field "capability_id" (str c.capability_id) (
                    field "conditions" (arr (strings c.conditions)) (
                      field "context_constraints" (obj c.context_constraints) (
                        field "delegated_by_identity_id" (opt_str c.delegated_by_identity_id)
                          (capability_fields_after c))))))))))))

abbrev pub identity_fields : AgentIdentity → Fields
identity_fields i = field "agent_id" (str i.agent_id) (
    field "expires_at" (time_value i.expires_at) (
      field "identity_version" (num (pos i.identity_version)) (
        field "issued_at" (num (pos i.issued_at)) (
          field "key_id" (str i.key_id) (
            field "metadata" (obj i.metadata) (
              field "organization_id" (str i.organization_id) (
                field "public_key_b64" (str i.public_key_b64)
                  (field "reputation_ref" (opt_str i.reputation_ref) end))))))))

module _ (sha256_json : Value → String) where
  -- `Capability.digest`
  unfoldable pub capability_digest : Capability → String
  capability_digest c = sha256_json (obj (capability_fields c))

  -- `AgentIdentity.digest`
  unfoldable pub identity_digest : AgentIdentity → String
  identity_digest i = sha256_json (obj (identity_fields i))

-- The JSON of an amount: `amount_json` gives that of one which is no finite number, and `amount_text` the text of
-- an exact amount.
module _ (amount_json : Amount → Value) (amount_text : Amount → String) where
  abbrev amount_value : Option Amount → Value
  amount_value none = null
  amount_value (some (finite a)) = num a
  amount_value (some not_finite) = amount_json not_finite
  amount_value (some nan) = amount_json nan
  amount_value (some not_number) = amount_json not_number

  abbrev exact_value : Option Amount → Value
  exact_value none = null
  exact_value (some a) = str (amount_text a)

  -- `ActionIntent.as_dict`, by key
  unfoldable pub action_fields : ActionIntent → Fields
  action_fields a = field "action_type" (str a.action_type) (
      field "agent_id" (str a.agent_id) (
        field "amount" (amount_value a.amount) (
          field "amount_exact" (exact_value a.amount_exact) (
            field "asset" (opt_str a.asset) (
              field "constraints" (obj a.constraints) (
                field "declared_context" (obj a.declared_context) (
                  field "input_provenance" (obj a.input_provenance) (
                    field "intent_id" (str a.intent_id) (
                      field "metadata" (obj a.metadata) (
                        field "network" (opt_str a.network) (
                          field "parent_intent_id" (opt_str a.parent_intent_id) (
                            field "purpose" (str a.purpose) (
                              field "requested_capability" (opt_str a.requested_capability) (
                                field "resource" (str a.resource) (
                                  field "target" (str a.target)
                                    (field "timestamp" (num (pos a.timestamp)) end))))))))))))))))
