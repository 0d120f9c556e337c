-- ===== src/Tests/Gate.antt =====
-- The gate, dynamic authority and the ceiling on small inputs.
use Prim.Native.Nat.{◌/◌}
use verigate.Base.{
  refl, [], ◌∷◌, none, some, true, false, ok, suc, string_eq, ◌≡◌, nat_eq, count_rows, option_eq, ℕ,
  ◌==◌, Bool, ◌+◌, ◌≤◌, arith, String, if◌then◌else◌, ◌*◌, first_row,
}
use verigate.Base.Json.{end, Fields}
use verigate.Base.Int.{pos, negsuc, ℤ}
use verigate.Money.{Amount}
use verigate.Storage.{StateRow, empty, suspended, probation, Storage, ResetRow}
use verigate.AuthorityState.{
  default_policy, state_eq, AuthoritySnapshot, assert_action, multiplier, snapshot, check_action,
  decide_state, history, history_start,
}
use verigate.AuthorityState.Suspension.{start, evaluate, suspension_holds, suspension_lapses}
use verigate.Enforcement.Once.{done, run, Calls, spent, at_most_once, replay, world_is_replay}
use verigate.Tests.Data.{small_policy, action, child, store}
use verigate.Enforcement.{Authorization, execute, consume, validate, execute_after_consume}
use verigate.Storage.Events.{
  state_row, latest_authority_state, latest_authority_reset, authority_events, set_authority_state,
}
use verigate.Policy.{Policy}
use verigate.EffectiveAuthority.{
  verify_effective_action, effective_authority, intersect, check_amount, effective_limit,
  context_intersection,
}
use verigate.EffectiveAuthority.Ceiling.{common, disjoint_targets_unrestricted}
use verigate.Storage.Nonces.{consume_execution_nonce}
use verigate.Base.Text.{lower}

abbrev authorization : Authorization
authorization = record {
  authorization_id = "authorization";
  intent_id = "action";
  agent_id = "agent";
  nonce = "nonce";
  issued_at = 10;
  action = end;
}

abbrev accept_all : Authorization → ℕ → Bool × String
accept_all a now = (true, "valid")

-- a world that counts the effects
abbrev count_effect : Fields → ℕ → Unit {0} × ℕ
count_effect a w = (tt, suc w)

abbrev spent_store : Storage
spent_store = (consume_execution_nonce "nonce" "authorization" "action" "agent" 20 empty).1

ran_once : execute accept_all count_effect authorization 20 (empty, 0) ≡ (ok tt, (spent_store, 1))
unfolding execute consume validate consume_execution_nonce execute_after_consume string_eq
ran_once = refl

calls : Calls accept_all count_effect (empty, 0) (authorization ∷ []) (spent_store, 1)
calls = run authorization 20 tt (empty, 0) (spent_store, 1) ran_once (done (spent_store, 1))

at_most_once_example :
    count_rows (λ (a : Authorization). a.nonce == "nonce") (authorization ∷ [])
      + (if spent "nonce" empty then 1 else 0)
    ≤ 1
at_most_once_example = at_most_once accept_all count_effect "nonce" calls

world_is_replay_example : 1 ≡ replay accept_all count_effect (authorization ∷ []) 0
world_is_replay_example = world_is_replay accept_all count_effect calls

-- the exact product, rounded down
abbrev share_of : ℤ → ℕ → ℤ
share_of (pos n) m = pos (n * m / 100)
share_of (negsuc n) m = negsuc n

abbrev never_above : Amount → ℤ → Bool
never_above amount limit = false

abbrev shot : AuthoritySnapshot × Storage
shot = snapshot default_policy "agent" "child" 5000 store

asserted :
    assert_action share_of never_above default_policy child action 5000 store ≡ (ok shot.0, shot.1)
unfolding assert_action check_action snapshot state_eq string_eq decide_state multiplier
    authority_events latest_authority_state latest_authority_reset history_start option_eq
asserted = refl

abbrev suspended_store : Storage
suspended_store = set_authority_state "agent" "child" suspended 100 store

is_suspended : latest_authority_state "agent" "child" suspended_store ≡ some suspended
unfolding latest_authority_state set_authority_state string_eq
is_suspended = refl

not_reset : latest_authority_reset "agent" "child" suspended_store ≡ none
unfolding latest_authority_reset set_authority_state string_eq
not_reset = refl

suspension_holds_example :
    (snapshot default_policy "agent" "child" 9000
      (snapshot default_policy "agent" "child" 5000 suspended_store).1).0.state
    ≡ suspended
suspension_holds_example =
    suspension_holds "agent" "child" default_policy 9000 is_suspended not_reset
      (evaluate default_policy "agent" "child" 5000 (start suspended_store))

abbrev old_reset : ResetRow
old_reset = record {
  reset_id = "reset";
  agent_id = "agent";
  capability_id = "child";
  governor_id = "governor";
  epoch = 1;
  reason = "";
  issued_at = 50;
  nonce = "nonce";
}

abbrev reset_store : Storage
reset_store = record suspended_store { authority_resets = old_reset ∷ [] }

abbrev suspended_row : StateRow
suspended_row = record {
  agent_id = "agent";
  capability_id = "child";
  state = suspended;
  updated_at = 100;
}

row_found : first_row (state_row "agent" "child") reset_store.authority_states ≡ some suspended_row
unfolding set_authority_state string_eq
row_found = refl

was_reset : latest_authority_reset "agent" "child" reset_store ≡ some old_reset
unfolding latest_authority_reset set_authority_state string_eq
was_reset = refl

no_events : history default_policy "agent" "child" 9000 reset_store ≡ []
unfolding authority_events set_authority_state
no_events = refl

suspension_lapses_example :
    ((snapshot default_policy "agent" "child" 9000 reset_store).0.state ≡ probation)
    × ((snapshot default_policy "agent" "child" 9000 suspended_store).0.state ≡ suspended)
suspension_lapses_example =
    suspension_lapses "agent" "child" default_policy default_policy 9000 9000 reset_store
      suspended_store suspended_row old_reset row_found refl was_reset (omega arith) no_events
      (omega arith) (omega arith) (omega arith) (omega arith) refl not_reset

abbrev shop_policy : Policy
shop_policy = record small_policy { allowed_targets = some ("bank" ∷ []) }

under_disjoint :
    verify_effective_action action (effective_authority share_of child shop_policy shot.0) ≡ ok tt
unfolding verify_effective_action effective_authority intersect check_amount effective_limit
    string_eq snapshot state_eq decide_state multiplier authority_events latest_authority_state
    latest_authority_reset history_start context_intersection lower option_eq
under_disjoint = refl

none_common : common ("shop" ∷ []) ("bank" ∷ []) ≡ 0
unfolding string_eq
none_common = refl

disjoint_targets_unrestricted_example :
    verify_effective_action
      (record action { target = "casino" })
      (effective_authority share_of child shop_policy shot.0)
    ≡ ok tt
disjoint_targets_unrestricted_example =
    disjoint_targets_unrestricted share_of child shop_policy shot.0 action "casino" "shop" []
      ("bank" ∷ []) refl refl none_common under_disjoint
