-- ===== src/Storage/Events.antt =====
-- Authority events, their hash-chained ledger, states and resets of core/storage.py. An event's row is
-- the event; a ledger row holds the event's object; hashes are a parameter, SHA-256 of canonical JSON.
pub mod Ledger
use verigate.Base.{
  last_row, [], ◌∷◌, ◌++◌, none, some, true, false, suc, ok, err, ◌==◌, string_eq, nat_eq, Bool,
  String, List, Option, ◌&&◌, Result, ℕ, order_by, if◌then◌else◌, any, where_rows, ◌+◌, first_row,
  not, ◌||◌, leb, runtime_error, value_error,
}
use verigate.Storage.{EventRow, LedgerRow, StateRow, ResetRow, Storage, AuthorityState}

abbrev pub same_evidence : EventRow → EventRow → Bool
same_evidence a b =
    a.agent_id == b.agent_id
    && a.capability_id == b.capability_id
    && a.event_type == b.event_type
    && a.evidence_ref == b.evidence_ref

-- The event id is the primary key, and the evidence of an event is unique.
unfoldable pub record_authority_event : EventRow → Storage → Result Storage
record_authority_event event s =
    if any (λ row. row.event_id == event.event_id || same_evidence row event) s.authority_events
    then (if any (λ row. row.event_id == event.event_id) s.authority_events
        then ok s
        else err (value_error "authority evidence reference already exists"))
    else ok (record s { authority_events = s.authority_events ++ event ∷ [] })

abbrev pub in_scope : String → String → EventRow → Bool
in_scope agent_id capability_id row = row.agent_id == agent_id && row.capability_id == capability_id

-- `authority_events(agent_id, capability_id, since)`
unfoldable pub authority_events : String → String → ℕ → Storage → List EventRow
authority_events agent_id capability_id since s =
    order_by (λ row. row.occurred_at)
      (where_rows (λ row. in_scope agent_id capability_id row && leb since row.occurred_at)
        s.authority_events)

abbrev pub of_ledger : String → String → LedgerRow → Bool
of_ledger agent_id capability_id row =
    row.agent_id == agent_id && row.capability_id == capability_id

-- `authority_ledger`: the rows of one agent and capability, by sequence
unfoldable pub authority_ledger : String → String → Storage → List LedgerRow
authority_ledger agent_id capability_id s =
    order_by (λ row. row.sequence)
      (where_rows (of_ledger agent_id capability_id) s.authority_ledger)

-- `"0" * 64`
abbrev pub no_hash : String
no_hash = "0000000000000000000000000000000000000000000000000000000000000000"

abbrev pub hash_or_none : Option LedgerRow → String
hash_or_none none = no_hash
hash_or_none (some row) = row.event_hash

unfoldable pub authority_ledger_head : String → String → Storage → String
unfolding authority_ledger
authority_ledger_head agent_id capability_id s =
    hash_or_none (last_row (authority_ledger agent_id capability_id s))

abbrev pub next_sequence : Option LedgerRow → ℕ
next_sequence none = 1
next_sequence (some row) = row.sequence + 1

module _ (sha256_event : EventRow → String) where
  abbrev pub ledger_row : EventRow → Option LedgerRow → ℕ → LedgerRow
  ledger_row event before now = record {
    agent_id = event.agent_id;
    capability_id = event.capability_id;
    sequence = next_sequence before;
    event_id = event.event_id;
    prev_event_hash = hash_or_none before;
    event_hash = sha256_event event;
    event = event;
    created_at = now;
  }

  -- `event_hash` is unique over the whole table too; another row with it is an integrity error.
  abbrev insert_ledger : LedgerRow → Storage → Result (LedgerRow × Storage)
  insert_ledger row s =
      if any (λ r. r.event_hash == row.event_hash) s.authority_ledger
      then err (runtime_error "UNIQUE constraint failed: authority_ledger.event_hash")
      else ok (row, record s { authority_ledger = s.authority_ledger ++ row ∷ [] })

  abbrev append_unless : Option LedgerRow → EventRow → ℕ → Storage → Result (LedgerRow × Storage)
  append_unless (some existing) event now s = ok (existing, s)
  append_unless none event now s =
      insert_ledger
        (ledger_row event (last_row (authority_ledger event.agent_id event.capability_id s)) now) s

  unfoldable pub append_authority_ledger : EventRow → ℕ → Storage → Result (LedgerRow × Storage)
  unfolding authority_ledger
  append_authority_ledger event now s =
      append_unless (first_row (λ row. row.event_id == event.event_id) s.authority_ledger) event now
        s

  unfoldable pub check_chain : ℕ → String → List LedgerRow → Bool × String
  check_chain expected previous [] = (true, "valid")
  check_chain expected previous (row ∷ rows) =
      if not (row.sequence == expected) || not (row.prev_event_hash == previous)
      then (false, "authority ledger chain mismatch")
      else if not (sha256_event row.event == row.event_hash)
      then (false, "authority ledger event digest mismatch")
      else check_chain (suc expected) (sha256_event row.event) rows

  unfoldable pub verify_authority_ledger : String → String → Storage → Bool × String
  unfolding check_chain authority_ledger
  verify_authority_ledger agent_id capability_id s =
      check_chain 1 no_hash (authority_ledger agent_id capability_id s)

abbrev pub state_row : String → String → StateRow → Bool
state_row agent_id capability_id row =
    row.agent_id == agent_id && row.capability_id == capability_id

abbrev pub set_state : StateRow → List StateRow → List StateRow
set_state new [] = new ∷ []
set_state new (row ∷ rows) =
    if state_row new.agent_id new.capability_id row then new ∷ rows else row ∷ set_state new rows

-- The row's snapshot is left out.
unfoldable pub set_authority_state : String → String → AuthorityState → ℕ → Storage → Storage
set_authority_state agent_id capability_id state now s = record s {
  authority_states =
      set_state
        (record {
          agent_id = agent_id;
          capability_id = capability_id;
          state = state;
          updated_at = now;
        })
        s.authority_states;
}

abbrev pub state_of_row : Option StateRow → Option AuthorityState
state_of_row none = none
state_of_row (some row) = some row.state

unfoldable pub latest_authority_state : String → String → Storage → Option AuthorityState
latest_authority_state agent_id capability_id s =
    state_of_row (first_row (state_row agent_id capability_id) s.authority_states)

-- `latest_authority_reset`: the row with the greatest epoch, which is unique
unfoldable pub latest_authority_reset : String → String → Storage → Option ResetRow
latest_authority_reset agent_id capability_id s = last_row (
    order_by (λ (row : ResetRow). row.epoch)
      (where_rows
        (λ (row : ResetRow). row.agent_id == agent_id && row.capability_id == capability_id)
        s.authority_resets))
