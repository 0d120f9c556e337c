-- ===== src/Engine/Actions.antt =====
-- What `evaluate_action` decides of a generic action.
use mathlib.Core.Path.{subst}
use verigate.Base.{
  [], ◌∷◌, none, true, false, inl, inr, ℕ, List, Option, ◌≡◌, ◌⊎◌, any, arith, ok, Error, err, ◌≢◌,
  Result-cases, ok-injective, sym, ◌∙◌, refl,
}
use verigate.Policy.{Policy}
use verigate.Storage.{Storage}
use verigate.Models.{
  ActionIntent, RuleMatch, context_permits, block, GuardrailDecision, exact_amount,
}
use verigate.Money.{Amount}
use verigate.Engine.{final_decision, matches_of, action_checks, evaluate_action, action_decision}
use verigate.Rules.Payment.{Listed, UnderRate, rate_limit_iff}
use verigate.Base.Text.{contains_lower, contains_upper}
use verigate.Rules.{
  contains_stripped, action_destination, generic_cap_match, check_action_type_allowed,
  check_purpose_allowed, check_context_constraints, check_input_provenance, check_execution_graph,
  check_destination_allowed, check_target_allowed, check_generic_network_allowed,
  check_generic_asset_allowed, check_rate_limit, check_generic_amount_cap,
}
use verigate.Engine.Decide.{blocks, NoMatch, block_iff}
use verigate.Rules.Context.{
  OnGraph, InScope, ListedOpt, CapOpt, action_type_iff, purpose_iff, context_iff, provenance_iff,
  execution_graph_iff, destination_allowed_iff, target_iff, network_iff, asset_iff, generic_cap_iff,
}
use verigate.Base.Json.{get}
use verigate.Storage.Audit.{
  Python, with_row, action_row, action_amount, calls_last_minute, record_action,
}

-- The limits of a policy on a generic action, whose exact amount has been read.
pub record ActionLimits (policy : Policy) (s : Storage) (a : ActionIntent) (now : ℕ)
    (amount : Option Amount) : Type 0 where
  pub type_listed : Listed contains_lower policy.allowed_action_types a.action_type
  pub purpose_listed : Listed contains_stripped policy.allowed_purposes a.purpose
  pub context_holds : context_permits policy.context_constraints a.declared_context ≡ true
  pub provenance_holds :
      context_permits policy.input_provenance_constraints a.input_provenance ≡ true
  pub on_graph : OnGraph policy.execution_graph (get "execution_graph" a.metadata)
  pub in_scope : InScope policy (action_destination a)
  pub target_not_blocked : contains_lower policy.blocked_payees a.target ≡ false
  pub target_listed : Listed contains_lower policy.allowed_targets a.target
  pub network_listed : ListedOpt contains_lower policy.allowed_networks a.network
  pub asset_listed : ListedOpt contains_upper policy.allowed_assets a.asset
  pub under_cap : CapOpt policy a.asset amount
  pub under_rate : UnderRate policy (calls_last_minute a.agent_id now s)

-- every match of the checks blocks
abbrev AllBlock : List (Option RuleMatch) → Type 0
AllBlock [] = Unit
AllBlock (c ∷ rest) = ((c ≡ none) ⊎ (blocks c ≡ true)) × AllBlock rest

AllBlock-cases :
    (checks : List (Option RuleMatch))
    → AllBlock checks
    → NoMatch checks ⊎ (any blocks checks ≡ true)
AllBlock-cases [] h = inl tt
AllBlock-cases (c ∷ rest) h = ground (arith, AllBlock-cases rest h.1)

module _ (policy : Policy) (s : Storage) (a : ActionIntent) (now : ℕ) (amount : Option Amount) where
  abbrev checks : List (Option RuleMatch)
  checks = action_checks policy s a now (generic_cap_match policy a.asset amount)

  all_block : AllBlock checks
  unfolding action_checks check_action_type_allowed check_purpose_allowed check_context_constraints
      check_input_provenance check_execution_graph check_destination_allowed check_target_allowed
      check_generic_network_allowed check_generic_asset_allowed check_rate_limit
  all_block = ground arith

  NoMatch-sound : NoMatch checks → ActionLimits policy s a now amount
  unfolding action_checks
  NoMatch-sound (b, (c, (d, (e, (f, (g, (h, (i, (j, (k, (l, _))))))))))) = record {
    type_listed = (action_type_iff a policy).0 b;
    purpose_listed = (purpose_iff a policy).0 c;
    context_holds = (context_iff a policy).0 d;
    provenance_holds = (provenance_iff a policy).0 e;
    on_graph = (execution_graph_iff a policy).0 f;
    in_scope = (destination_allowed_iff a policy).0 g;
    target_not_blocked = ((target_iff a policy).0 h).0;
    target_listed = ((target_iff a policy).0 h).1;
    network_listed = (network_iff a policy).0 i;
    asset_listed = (asset_iff a policy).0 j;
    under_cap = (generic_cap_iff policy a.asset amount).0 k;
    under_rate = (rate_limit_iff policy _).0 l;
  }

  -- there is no third decision
  decided : ActionLimits policy s a now amount ⊎ (final_decision (matches_of checks) ≡ block)
  decided = elim (AllBlock-cases checks all_block) [
    | inl n ↦ inl (NoMatch-sound n)
    | inr b ↦ inr ((block_iff checks).1 b)
  ]

module _ (python : Python) (policy : Policy) (s : Storage) (a : ActionIntent) (now : ℕ) where
  -- the decision for an action whose exact amount has been read
  abbrev pub decision_at : Option Amount → GuardrailDecision
  decision_at amount =
      action_decision python policy s a now (generic_cap_match policy a.asset amount)

  evaluate_action-ok :
      (amount : Option Amount) (stored : Amount)
      → exact_amount a ≡ ok amount
      → action_amount python a.amount ≡ ok stored
      → evaluate_action python policy s a now
        ≡ ok (decision_at amount, with_row s (action_row a (decision_at amount) none now stored))
  unfolding evaluate_action check_generic_amount_cap record_action
  evaluate_action-ok amount stored h k = rw (h, k)

  -- An action whose exact amount cannot be read is not decided: the error is raised and nothing is stored.
  evaluate_action-err :
      (e : Error) → exact_amount a ≡ err e → evaluate_action python policy s a now ≡ err e
  unfolding evaluate_action check_generic_amount_cap
  evaluate_action-err e h = rw h

  -- So is one whose amount the column refuses.
  evaluate_action-refused :
      (amount : Option Amount) (e : Error)
      → exact_amount a ≡ ok amount
      → action_amount python a.amount ≡ err e
      → evaluate_action python policy s a now ≡ err e
  unfolding evaluate_action check_generic_amount_cap record_action
  evaluate_action-refused amount e h k = rw (h, k)

  -- what a decided action has stored, and that one let through was under the rate
  abbrev Stored : GuardrailDecision × Storage → Type 0
  Stored x =
      (stored : Amount) × (x.1 ≡ with_row s (action_row a x.0 none now stored))
      × ((x.0.decision ≢ block) → UnderRate policy (calls_last_minute a.agent_id now s))

  pub evaluate_action-stored :
      (d : GuardrailDecision) (s' : Storage)
      → evaluate_action python policy s a now ≡ ok (d, s')
      → (stored : Amount) × (s' ≡ with_row s (action_row a d none now stored))
        × ((d.decision ≢ block) → UnderRate policy (calls_last_minute a.agent_id now s))
  unfolding action_decision
  evaluate_action-stored d s' h = elim (Result-cases (exact_amount a)) [
    | inl (amount, e) ↦ elim (Result-cases (action_amount python a.amount)) [
      | inl (stored, k) ↦
          subst Stored (ok-injective (sym (evaluate_action-ok amount stored e k) ∙ h)) (
            stored,
            refl,
            λ n. elim (decided policy s a now amount) [
              | inl m ↦ m.under_rate
              | inr b ↦ absurd (n b)
            ],
          )
      | inr (x, k) ↦ cc (h, evaluate_action-refused amount x e k)
    ]
    | inr (x, e) ↦ cc (h, evaluate_action-err x e)
  ]
