-- ===== src/AuthorityState/Outcomes.antt =====
-- The outcomes that `record_event` of core/authority_state.py stores.
use mathlib.Core.Path.{subst}
use verigate.Base.{
  last_row, ◌||◌, ok-injective, inl, inr, refl, [], ◌∷◌, none, some, true, false, ok, ◌≡◌, ◌==◌,
  string_eq, String, Bool, any, Bool-cases, arith, List, ℕ, any-append, first_row, ==_refl, ◌++◌,
  Option-cases, sym, ◌∙◌, Result-cases,
}
use verigate.Storage.Events.{
  record_authority_event, append_authority_ledger, ledger_row, authority_ledger, same_evidence,
}
use verigate.Storage.{LedgerRow, EventRow, Storage}
use verigate.AuthorityState.{store_event}

has_event : String → Storage → Bool
has_event event_id s = any (λ (row : EventRow). row.event_id == event_id) s.authority_events

last_has :
    (event : EventRow) (s s' : Storage)
    → s'.authority_events ≡ s.authority_events ++ event ∷ []
    → has_event event.event_id s' ≡ true
unfolding has_event
last_has event s s' h = rw h (
    any-append (λ (row : EventRow). row.event_id == event.event_id) s.authority_events (event ∷ [])
    ∙ ground (arith, ==_refl event.event_id))

any_or :
    (p q : EventRow → Bool) (rows : List EventRow)
    → any p rows ≡ true
    → any (λ row. p row || q row) rows ≡ true
any_or p q [] h = cc
any_or p q (row ∷ rows) h = ground (arith, any_or p q rows)

again :
    (event : EventRow) (s : Storage)
    → has_event event.event_id s ≡ true
    → record_authority_event event s ≡ ok s
unfolding record_authority_event has_event
again event s h =
    rw
      (
        any_or (λ (row : EventRow). row.event_id == event.event_id) (λ row. same_evidence row event)
            s.authority_events h,
        h,
      )
      refl

stored :
    (event : EventRow) (s s' : Storage)
    → has_event event.event_id s ≡ false
    → record_authority_event event s ≡ ok s'
    → s'.authority_events ≡ s.authority_events ++ event ∷ []
unfolding record_authority_event has_event
stored event s s' n h = ground arith

recorded :
    (event : EventRow) (s s' : Storage)
    → record_authority_event event s ≡ ok s'
    → has_event event.event_id s' ≡ true
recorded event s s' h = elim (Bool-cases (has_event event.event_id s)) [
  | inl e ↦
      (let same = ok-injective (sym (again event s e) ∙ h) in
        subst (λ t. has_event event.event_id t ≡ true) same e)
  | inr n ↦ last_has event s s' (stored event s s' n h)
]

first_row-append :
    (p : LedgerRow → Bool) (rows : List LedgerRow) (row : LedgerRow)
    → first_row p rows ≡ none
    → p row ≡ true
    → first_row p (rows ++ row ∷ []) ≡ some row
first_row-append p [] row h k = ground arith
first_row-append p (r ∷ rows) row h k = ground (arith, first_row-append p rows row)

module _ (sha256_event : EventRow → String) where
  appended :
      (event : EventRow) (now : ℕ) (s s' : Storage) (row : LedgerRow)
      → append_authority_ledger sha256_event event now s ≡ ok (row, s')
      → (first_row (λ (r : LedgerRow). r.event_id == event.event_id) s'.authority_ledger ≡ some row)
        × (s'.authority_events ≡ s.authority_events)
  unfolding append_authority_ledger
  appended event now s s' row h =
      elim (Option-cases
        (first_row (λ (r : LedgerRow). r.event_id == event.event_id) s.authority_ledger)) [
          | inl nothing ↦
              (let new =
                  ledger_row sha256_event event
                    (last_row (authority_ledger event.agent_id event.capability_id s)) now in
                let found =
                  first_row-append (λ (r : LedgerRow). r.event_id == event.event_id)
                    s.authority_ledger new nothing (==_refl event.event_id) in
                ground arith)
          | inr (r, e) ↦ ground arith
        ]

  ledger_again :
      (event : EventRow) (now : ℕ) (s : Storage) (row : LedgerRow)
      → first_row (λ (r : LedgerRow). r.event_id == event.event_id) s.authority_ledger ≡ some row
      → append_authority_ledger sha256_event event now s ≡ ok (row, s)
  unfolding append_authority_ledger
  ledger_again event now s row h = rw h refl

module _ (event_digest : String → String → String → String → String)
    (sha256_event : EventRow → String) where
  stored_first :
      (event : EventRow) (now : ℕ) (s s' : Storage) (row : LedgerRow)
      → store_event event_digest sha256_event event now s ≡ ok (row, s')
      → (s1 : Storage) × (record_authority_event event s ≡ ok s1)
        × (append_authority_ledger sha256_event event now s1 ≡ ok (row, s'))
  unfolding store_event
  stored_first event now s s' row h = elim (Result-cases (record_authority_event event s)) [
    | inl (s1, e) ↦ (s1, e, ground arith)
    | inr (e, failed) ↦ ground arith
  ]

  -- Recording the outcome that was just recorded, at any later time, gives the same ledger row and
  -- changes nothing.
  store_event_again :
      (event : EventRow) (now later : ℕ) (s s' : Storage) (row : LedgerRow)
      → store_event event_digest sha256_event event now s ≡ ok (row, s')
      → store_event event_digest sha256_event event later s' ≡ ok (row, s')
  unfolding store_event has_event
  store_event_again event now later s s' row h =
      let (s1, first, second) = stored_first event now s s' row h in
      let (found, events) = appended sha256_event event now s1 s' row second in
      let kept : has_event event.event_id s' ≡ true = rw events (recorded event s s1 first) in
      ground (arith, again event s' kept, ledger_again sha256_event event later s' row found)
