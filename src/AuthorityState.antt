-- ===== src/AuthorityState.antt =====
-- core/authority_state.py: dynamic authority. A multiplier is a whole number of hundredths, and its
-- product with a limit a parameter. The ledger head and the digests in a snapshot are left out.
pub mod Suspension
pub mod Actions
pub mod Outcomes
use verigate.Base.{
  inl, inr, refl, [], ◌∷◌, ◌++◌, none, some, true, false, zero, suc, ok, err, ◌≡◌, ◌==◌, ◌>>=◌,
  ◌>>◌, string_eq, nat_eq, Eq, ℕ, ◌*◌, String, List, Option, count_rows, ◌-◌, if◌then◌else◌, Bool,
  contains, ltb, ◌&&◌, Result, is_none, raise_if, leb, permission_error, ◌||◌, not, value_error,
  option_eq,
}
use verigate.Base.Json.{Fields}
use verigate.Storage.{
  probation, limited, standard, elevated, suspended, AuthorityState, EventRow, ResetRow, Storage,
  LedgerRow,
}
use verigate.Storage.Events.{
  authority_events, latest_authority_state, latest_authority_reset, record_authority_event,
  set_authority_state, append_authority_ledger,
}
use verigate.Money.{Amount, finite, not_finite, nan, not_number}
use verigate.Base.Int.{ℤ, ◌*ℤ◌, ltb_ℤ}
use verigate.Models.{limit_for, or_empty, Capability, ActionIntent}

pub AuthorityState-discrete : Discrete AuthorityState
AuthorityState-discrete = hlevel

instance unfoldable pub state_eq : Eq AuthorityState
unfolding AuthorityState-discrete
state_eq = record { dec = AuthorityState-discrete }

pub record AuthorityPolicy : Type 0 where
  pub window_seconds : ℕ
  pub probation_successes : ℕ
  pub standard_successes : ℕ
  pub limited_adverse_events : ℕ
  pub suspension_critical_events : ℕ
  pub probation_multiplier : ℕ
  pub limited_multiplier : ℕ
  pub standard_multiplier : ℕ
  pub elevated_multiplier : ℕ
  pub elevated_only_actions : List String

-- the defaults of the dataclass
abbrev pub default_policy : AuthorityPolicy
default_policy = record {
  window_seconds = 30 * 24 * 3600;
  probation_successes = 5;
  standard_successes = 20;
  limited_adverse_events = 2;
  suspension_critical_events = 1;
  probation_multiplier = 10;
  limited_multiplier = 25;
  standard_multiplier = 50;
  elevated_multiplier = 100;
  elevated_only_actions = "irreversible_operation" ∷ [];
}

unfoldable pub multiplier : AuthorityPolicy → AuthorityState → ℕ
multiplier policy probation = policy.probation_multiplier
multiplier policy limited = policy.limited_multiplier
multiplier policy standard = policy.standard_multiplier
multiplier policy elevated = policy.elevated_multiplier
multiplier policy suspended = 0

pub record AuthoritySnapshot : Type 0 where
  pub agent_id : String
  pub capability_id : String
  pub state : AuthorityState
  pub successes : ℕ
  pub adverse_events : ℕ
  pub critical_events : ℕ
  pub multiplier : ℕ
  pub evaluated_at : ℕ
  pub reason : String
  pub history_start_at : ℕ

abbrev pub success_events : List String
success_events = "EXECUTION_CONFIRMED" ∷ []

abbrev pub adverse_events : List String
adverse_events =
    "EXECUTION_FAILED" ∷ "AUTHORIZATION_REJECTED" ∷ "POLICY_VIOLATION" ∷ "TAMPER_DETECTED" ∷ []

abbrev pub critical_events : List String
critical_events = "TAMPER_DETECTED" ∷ "POLICY_VIOLATION" ∷ []

abbrev pub count_of : List String → List EventRow → ℕ
count_of types events = count_rows (λ (event : EventRow). contains types event.event_type) events

-- `max(now - window, issued_at)`
unfoldable pub history_start : AuthorityPolicy → Option ResetRow → ℕ → ℕ
history_start policy none now = now - policy.window_seconds
history_start policy (some reset) now =
    if ltb (now - policy.window_seconds) reset.issued_at
    then reset.issued_at
    else now - policy.window_seconds

-- The branches of `snapshot`, with their reason.
unfoldable pub decide_state :
    AuthorityPolicy → Option AuthorityState → Option ResetRow → ℕ → ℕ → ℕ → AuthorityState × String
unfolding state_eq
decide_state policy previous latest_reset critical adverse successes =
    if previous == some suspended && is_none latest_reset
    then (suspended, "suspended until an explicit authority reset")
    else if leb policy.suspension_critical_events critical
    then (suspended, "critical authority event observed")
    else if leb policy.limited_adverse_events adverse
    then (limited, "adverse outcome threshold reached")
    else if leb policy.standard_successes successes && leb adverse 1
    then (elevated, "verified success threshold reached with bounded adverse history")
    else if leb policy.probation_successes successes && leb adverse 1
    then (standard, "probation success threshold reached")
    else (probation, "insufficient verified history for broader authority")

-- the events since the start of the history
abbrev pub history : AuthorityPolicy → String → String → ℕ → Storage → List EventRow
history policy agent_id capability_id now s =
    authority_events agent_id capability_id
      (history_start policy (latest_authority_reset agent_id capability_id s) now) s

abbrev pub state_at : AuthorityPolicy → String → String → ℕ → Storage → AuthorityState × String
state_at policy agent_id capability_id now s =
    let events = history policy agent_id capability_id now s in
    decide_state policy (latest_authority_state agent_id capability_id s)
      (latest_authority_reset agent_id capability_id s) (count_of critical_events events)
      (count_of adverse_events events) (count_of success_events events)

unfoldable pub snapshot :
    AuthorityPolicy → String → String → ℕ → Storage → AuthoritySnapshot × Storage
unfolding decide_state history_start multiplier authority_events latest_authority_state
    latest_authority_reset set_authority_state
snapshot policy agent_id capability_id now s =
    let events = history policy agent_id capability_id now s in
    let (state, reason) = state_at policy agent_id capability_id now s in
    (
      record {
        agent_id = agent_id;
        capability_id = capability_id;
        state = state;
        successes = count_of success_events events;
        adverse_events = count_of adverse_events events;
        critical_events = count_of critical_events events;
        multiplier = multiplier policy state;
        evaluated_at = now;
        reason = reason;
        history_start_at =
            history_start policy (latest_authority_reset agent_id capability_id s) now;
      },
      set_authority_state agent_id capability_id state now s,
    )

-- `times limit m` is the product of two floats, rounded as Python does; `other_above` is Python's
-- comparison for an amount that is no finite number.
module _ (times : ℤ → ℕ → ℤ) (other_above : Amount → ℤ → Bool) where
  -- `amount > effective_limit`
  abbrev pub above_share : Amount → ℤ → Bool
  above_share (finite a) limit = ltb_ℤ limit a
  above_share not_finite limit = other_above not_finite limit
  above_share nan limit = other_above nan limit
  above_share not_number limit = other_above not_number limit

  abbrev pub check_share : Option Amount → Option ℤ → ℕ → Result (Unit {0})
  check_share none base_limit m = ok tt
  check_share (some amount) none m = ok tt
  check_share (some amount) (some base_limit) m =
      raise_if (above_share amount (times base_limit m))
        (permission_error "action exceeds dynamic authority limit")

  -- the tests after the snapshot, which stays recorded when one of them raises
  unfoldable pub check_action :
      AuthorityPolicy → Capability → ActionIntent → AuthoritySnapshot → Result AuthoritySnapshot
  unfolding state_eq
  check_action policy capability action snap = do
    raise_if (snap.state == suspended) (permission_error "dynamic authority is suspended")
    raise_if
        (contains policy.elevated_only_actions action.action_type && not (snap.state == elevated))
        (permission_error "action requires elevated dynamic authority")
    check_share action.amount (limit_for capability.max_per_action (or_empty action.asset))
        snap.multiplier
    ok snap

  unfoldable pub assert_action :
      AuthorityPolicy → Capability → ActionIntent → ℕ → Storage → Result AuthoritySnapshot × Storage
  unfolding check_action snapshot
  assert_action policy capability action now s =
      let (snap, s') = snapshot policy action.agent_id capability.capability_id now s in
      (check_action policy capability action snap, s')

module _ (event_digest : String → String → String → String → String)
    (sha256_event : EventRow → String) where
  abbrev pub event_of :
      String → String → String → String → Option String → Option String → Fields → ℕ → EventRow
  event_of agent_id capability_id event_type evidence_ref action_type identity_id metadata
        occurred_at =
      record {
        event_id = event_digest agent_id capability_id event_type evidence_ref;
        agent_id = agent_id;
        capability_id = capability_id;
        identity_id = identity_id;
        event_type = event_type;
        action_type = action_type;
        evidence_ref = evidence_ref;
        metadata = metadata;
        occurred_at = occurred_at;
      }

  -- The event is stored before the ledger is appended: they are two transactions.
  unfoldable pub store_event : EventRow → ℕ → Storage → Result (LedgerRow × Storage)
  unfolding record_authority_event append_authority_ledger
  store_event event now s = do
    raise_if (event.event_type == "" || event.evidence_ref == "")
        (value_error "event_type and evidence_ref are required")
    raise_if (not (contains (success_events ++ adverse_events) event.event_type))
        (value_error "unknown authority event type")
    s' ← record_authority_event event s
    append_authority_ledger sha256_event event now s'
