-- ===== src/Governance/Lifted.antt =====
-- What the resets of core/governance.py do to a suspension.
use verigate.Base.{
  all-up_to_le, inl, inr, refl, [], ◌∷◌, ◌++◌, some, true, ◌≡◌, ◌==◌, string_eq, nat_eq, arith,
  Option-cases, ◌<◌, ◌∙◌, sym, all, up_to, last_row, order_by, order_by-append, all-order_by,
  last_row-order_by, last_row-order_by-none, last_row-append, where_rows, where_rows-append_kept,
  count_rows, count_rows-order_by, ==_refl, ℕ, List, Bool, ◌+◌, ◌&&◌, contains, not, ◌||◌, ltb,
  String, leb, Option,
}
use verigate.Storage.{suspended, Storage, ResetRow, EventRow, AuthorityState}
use verigate.Storage.Events.{authority_events, latest_authority_reset, in_scope}
use verigate.AuthorityState.{
  state_eq, decide_state, default_policy, state_at, history, history_start, count_of,
  critical_events,
}
use verigate.Governance.Resets.{next_epoch, latest_of}

abbrev epoch_of : ResetRow → ℕ
epoch_of row = row.epoch

below_next :
    (rows : List ResetRow)
    → all (up_to epoch_of (next_epoch (last_row (order_by epoch_of rows)))) rows ≡ true
below_next rows = elim (Option-cases (last_row (order_by epoch_of rows))) [
  | inl nothing ↦ rw (last_row-order_by-none epoch_of rows nothing) refl
  | inr (last, found) ↦ rw found (
      all-up_to_le epoch_of last.epoch (last.epoch + 1) rows (omega arith)
        (last_row-order_by epoch_of rows last found))
]

-- A new row with the next epoch is the latest one.
pub latest-append :
    (reset : ResetRow) (s s' : Storage)
    → reset.epoch ≡ next_epoch (latest_authority_reset reset.agent_id reset.capability_id s)
    → s'.authority_resets ≡ s.authority_resets ++ reset ∷ []
    → latest_authority_reset reset.agent_id reset.capability_id s' ≡ some reset
unfolding latest_authority_reset
latest-append reset s s' next added =
    let mine : ResetRow → Bool = λ (row : ResetRow).
      row.agent_id == reset.agent_id && row.capability_id == reset.capability_id in
    let rows = where_rows mine s.authority_resets in
    let kept =
      where_rows-append_kept mine s.authority_resets reset
        (ground (arith, ==_refl reset.agent_id, ==_refl reset.capability_id)) in
    rw (added, kept, order_by-append epoch_of rows reset (rw next (below_next rows)))
      (last_row-append (order_by epoch_of rows) reset)

abbrev is_critical : EventRow → Bool
is_critical e = contains critical_events e.event_type

-- no critical event at `n` or later
abbrev quiet_from : ℕ → EventRow → Bool
quiet_from n e = not (is_critical e) || ltb e.occurred_at n

latest_of-quiet :
    (n : ℕ) (events : List EventRow) → latest_of events < n → all (quiet_from n) events ≡ true
latest_of-quiet n [] h = refl
latest_of-quiet n (e ∷ es) h = ground (arith, latest_of-quiet n es)

abbrev since : String → String → ℕ → EventRow → Bool
since agent_id capability_id n e = in_scope agent_id capability_id e && leb n e.occurred_at

quiet_later :
    (agent_id capability_id : String) (n : ℕ) (events : List EventRow)
    → all (quiet_from n) (where_rows (since agent_id capability_id 0) events) ≡ true
    → count_rows is_critical (where_rows (since agent_id capability_id n) events) ≡ 0
quiet_later agent_id capability_id n [] h = refl
quiet_later agent_id capability_id n (e ∷ es) h =
    ground (arith, quiet_later agent_id capability_id n es)

-- Where every critical event is older than a reset, the history that the reset starts has none.
history-quiet :
    (reset : ResetRow) (s : Storage)
    → latest_authority_reset reset.agent_id reset.capability_id s ≡ some reset
    → latest_of (authority_events reset.agent_id reset.capability_id 0 s) < reset.issued_at
    → count_of critical_events
        (history default_policy reset.agent_id reset.capability_id reset.issued_at s)
      ≡ 0
unfolding authority_events history_start
history-quiet reset s latest older =
    let occurred : EventRow → ℕ = λ e. e.occurred_at in
    let old = where_rows (since reset.agent_id reset.capability_id 0) s.authority_events in
    let quiet = latest_of-quiet reset.issued_at (order_by occurred old) older in
    let starts : history_start default_policy (some reset) reset.issued_at ≡ reset.issued_at =
      ground arith in
    rw
      (
        latest,
        starts,
        count_rows-order_by occurred is_critical (
            where_rows (since reset.agent_id reset.capability_id reset.issued_at)
              s.authority_events),
      )
      (quiet_later reset.agent_id reset.capability_id reset.issued_at s.authority_events
        (sym (all-order_by occurred (quiet_from reset.issued_at) old) ∙ quiet))

decide_state-lifted :
    (previous : Option AuthorityState) (reset : ResetRow) (adverse successes : ℕ)
    → ¬ ((decide_state default_policy previous (some reset) 0 adverse successes).0 ≡ suspended)
unfolding decide_state
decide_state-lifted previous reset adverse successes h = ground arith

-- A history without critical events suspends nobody who has been reset.
pub state-lifted :
    (reset : ResetRow) (s : Storage)
    → latest_authority_reset reset.agent_id reset.capability_id s ≡ some reset
    → latest_of (authority_events reset.agent_id reset.capability_id 0 s) < reset.issued_at
    → ¬ (
        (state_at default_policy reset.agent_id reset.capability_id reset.issued_at s).0
        ≡ suspended)
state-lifted reset s latest older h =
    decide_state-lifted _ reset _ _ (rw (history-quiet reset s latest older, latest) at h)
