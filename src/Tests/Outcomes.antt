-- ===== src/Tests/Outcomes.antt =====
-- Recorded outcomes and their ledger on small inputs.
use verigate.Base.{refl, [], ◌∷◌, none, true, ok, string_eq, ◌≡◌, String}
use verigate.Base.Json.{end}
use verigate.Storage.{empty, EventRow, LedgerRow, Storage}
use verigate.AuthorityState.{store_event, event_of}
use verigate.Storage.Events.{
  verify_authority_ledger, append_authority_ledger, ledger_row, record_authority_event, check_chain,
  authority_ledger,
}
use verigate.Storage.Events.Ledger.{append-verify_authority_ledger}

abbrev event_digest : String → String → String → String → String
event_digest agent_id capability_id event_type evidence_ref = evidence_ref

abbrev event_hash : EventRow → String
event_hash event = event.event_id

abbrev outcome : EventRow
outcome =
    event_of event_digest event_hash "agent" "child" "EXECUTION_CONFIRMED" "receipt" none none end
      10

abbrev outcome_row : LedgerRow
outcome_row = ledger_row event_hash outcome none 20

abbrev outcome_store : Storage
outcome_store = record empty {
  authority_events = outcome ∷ [];
  authority_ledger = outcome_row ∷ [];
}

outcome_stored :
    store_event event_digest event_hash outcome 20 empty ≡ ok (outcome_row, outcome_store)
unfolding store_event record_authority_event append_authority_ledger authority_ledger string_eq
outcome_stored = refl

nothing_valid : verify_authority_ledger event_hash "agent" "child" empty ≡ (true, "valid")
unfolding verify_authority_ledger check_chain authority_ledger
nothing_valid = refl

appended_first :
    append_authority_ledger event_hash outcome 20 empty
    ≡ ok (outcome_row, record empty { authority_ledger = outcome_row ∷ [] })
unfolding append_authority_ledger authority_ledger string_eq
appended_first = refl

append-verify_authority_ledger_example :
    verify_authority_ledger event_hash "agent" "child"
      (record empty { authority_ledger = outcome_row ∷ [] })
    ≡ (true, "valid")
append-verify_authority_ledger_example =
    append-verify_authority_ledger event_hash "agent" "child" outcome 20 empty
      (record empty { authority_ledger = outcome_row ∷ [] }) outcome_row nothing_valid
      appended_first
