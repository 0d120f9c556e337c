-- ===== src/Storage/Events/Ledger.antt =====
-- The hash chain of the authority ledger, as `verify_authority_ledger` of core/storage.py reads it.
use mathlib.Core.Path.{subst}
use verigate.Base.{
  up_to, order_by-append, all-order_by, last_row, inl, inr, refl, [], ◌∷◌, true, false, ok, suc,
  ◌≡◌, ◌==◌, string_eq, nat_eq, List, ℕ, String, order_by, Bool, ◌≤◌, all, ◌+◌, arith, length, ◌++◌,
  ◌&&◌, ◌∙◌, passed, not, where_rows, ◌⊎◌, sym, ◌||◌, where_rows-append_kept,
  where_rows-append_left_out, Bool-cases, ==_refl,
}
use verigate.Storage.{LedgerRow, EventRow, Storage}
use verigate.Storage.Events.{
  check_chain, next_sequence, hash_or_none, no_hash, append_authority_ledger,
  verify_authority_ledger, ledger_row, authority_ledger, of_ledger,
}

abbrev sequence_of : LedgerRow → ℕ
sequence_of row = row.sequence

abbrev sorted : List LedgerRow → List LedgerRow
sorted = order_by sequence_of

abbrev last_hash : String → List LedgerRow → String
last_hash before [] = before
last_hash before (row ∷ rows) = last_hash row.event_hash rows

module _ (sha256_event : EventRow → String) where
  abbrev Valid : ℕ → String → List LedgerRow → Type 0
  Valid n before rows = check_chain sha256_event n before rows ≡ (true, "valid")

  refused : (reason : String) → ¬ (◌≡◌ {A = Bool × String} (false, reason) (true, "valid"))
  refused reason h = cc

  link-Valid :
      (n : ℕ) (before : String) (row : LedgerRow) (rows : List LedgerRow)
      → Valid n before (row ∷ rows)
      → (row.sequence ≡ n)
        × (row.prev_event_hash ≡ before)
        × (sha256_event row.event ≡ row.event_hash)
        × Valid (suc n) row.event_hash rows
  unfolding check_chain
  link-Valid n before row rows h =
      let (link, h1) =
        passed (not (row.sequence == n) || not (row.prev_event_hash == before)) (refused _) h in
      let (digest, h2) = passed (not (sha256_event row.event == row.event_hash)) (refused _) h1 in
      let same : sha256_event row.event ≡ row.event_hash = ground arith in
      (ground arith, ground arith, same, subst (λ hash. Valid (suc n) hash rows) same h2)

  Valid-append :
      (n : ℕ) (before : String) (rows : List LedgerRow) (x : LedgerRow)
      → Valid n before rows
      → x.sequence ≡ n + length rows
      → x.prev_event_hash ≡ last_hash before rows
      → sha256_event x.event ≡ x.event_hash
      → Valid n before (rows ++ x ∷ [])
  unfolding check_chain
  Valid-append n before [] x h k p e = ground arith
  Valid-append n before (row ∷ rows) x h k p e =
      let (at, after, same, rest) = link-Valid n before row rows h in
      ground (arith, Valid-append (suc n) row.event_hash rows x rest (omega arith) p e)

  Valid-up_to :
      (n m : ℕ) (before : String) (rows : List LedgerRow)
      → Valid n before rows
      → n + length rows ≤ m
      → all (up_to sequence_of m) rows ≡ true
  Valid-up_to n m before [] h le = refl
  Valid-up_to n m before (row ∷ rows) h le =
      let (at, after, same, rest) = link-Valid n before row rows h in
      ground (arith, Valid-up_to (suc n) m row.event_hash rows rest (omega arith))

  next_of_Valid :
      (n : ℕ) (before : String) (row : LedgerRow) (rows : List LedgerRow)
      → Valid n before (row ∷ rows)
      → (next_sequence (last_row (row ∷ rows)) ≡ n + length (row ∷ rows))
        × (hash_or_none (last_row (row ∷ rows)) ≡ last_hash before (row ∷ rows))
  next_of_Valid n before row [] h =
      let (at, _, _, _) = link-Valid n before row [] h in (omega arith, refl)
  next_of_Valid n before row (second ∷ rows) h =
      let (_, _, _, rest) = link-Valid n before row (second ∷ rows) h in
      let (next, hash) = next_of_Valid (suc n) row.event_hash second rows rest in
      (omega arith, hash)

  abbrev ledger_of : String → String → Storage → List LedgerRow
  ledger_of agent_id capability_id s =
      where_rows (of_ledger agent_id capability_id) s.authority_ledger

  end_of_Valid :
      (rows : List LedgerRow)
      → Valid 1 no_hash rows
      → (next_sequence (last_row rows) ≡ 1 + length rows)
        × (hash_or_none (last_row rows) ≡ last_hash no_hash rows)
  end_of_Valid [] h = (omega arith, refl)
  end_of_Valid (row ∷ rows) h = next_of_Valid 1 no_hash row rows h

  -- what an append has stored: an existing row, or one new row after the last of its chain
  appended_row :
      (event : EventRow) (now : ℕ) (s s' : Storage) (row : LedgerRow)
      → append_authority_ledger sha256_event event now s ≡ ok (row, s')
      → (s'.authority_ledger ≡ s.authority_ledger)
        ⊎ (s'.authority_ledger
            ≡ s.authority_ledger
              ++ ledger_row sha256_event event
                  (last_row (authority_ledger event.agent_id event.capability_id s))
                  now
                ∷ [])
  unfolding append_authority_ledger
  appended_row event now s s' row h = ground arith

  own_ledger :
      (event : EventRow) (now : ℕ) (s s' : Storage)
      → s'.authority_ledger
        ≡ s.authority_ledger
          ++ ledger_row sha256_event event
              (last_row (authority_ledger event.agent_id event.capability_id s))
              now
            ∷ []
      → Valid 1 no_hash (sorted (ledger_of event.agent_id event.capability_id s))
      → Valid 1 no_hash (sorted (ledger_of event.agent_id event.capability_id s'))
  unfolding authority_ledger
  own_ledger event now s s' added h =
      let rows = ledger_of event.agent_id event.capability_id s in
      let new = ledger_row sha256_event event (last_row (sorted rows)) now in
      let (next, hash) = end_of_Valid (sorted rows) h in
      let below = Valid-up_to 1 new.sequence no_hash (sorted rows) h (omega (arith, next)) in
      let kept =
        where_rows-append_kept (of_ledger event.agent_id event.capability_id) s.authority_ledger new
          (ground (arith, ==_refl event.agent_id, ==_refl event.capability_id)) in
      rw
        (
          added,
          kept,
          order_by-append sequence_of rows new
              (sym (all-order_by sequence_of (up_to sequence_of new.sequence) rows) ∙ below),
        )
        (Valid-append 1 no_hash (sorted rows) new h next hash refl)

  other_ledger :
      (agent_id capability_id : String) (s s' : Storage) (new : LedgerRow)
      → of_ledger agent_id capability_id new ≡ false
      → s'.authority_ledger ≡ s.authority_ledger ++ new ∷ []
      → ledger_of agent_id capability_id s' ≡ ledger_of agent_id capability_id s
  other_ledger agent_id capability_id s s' new out added =
      rw added
        (where_rows-append_left_out (of_ledger agent_id capability_id) s.authority_ledger new out)

  -- An append that succeeds keeps every ledger that `verify_authority_ledger` accepts acceptable, that of the
  -- event's own agent and capability and all others.
  pub append-verify_authority_ledger :
      (agent_id capability_id : String) (event : EventRow) (now : ℕ) (s s' : Storage)
      (row : LedgerRow)
      → verify_authority_ledger sha256_event agent_id capability_id s ≡ (true, "valid")
      → append_authority_ledger sha256_event event now s ≡ ok (row, s')
      → verify_authority_ledger sha256_event agent_id capability_id s' ≡ (true, "valid")
  unfolding verify_authority_ledger authority_ledger
  append-verify_authority_ledger agent_id capability_id event now s s' row h appended =
      elim (appended_row event now s s' row appended) [
        | inl same ↦ rw same h
        | inr added ↦
            elim (Bool-cases (event.agent_id == agent_id && event.capability_id == capability_id)) [
              | inl own ↦
                  (let agents : agent_id ≡ event.agent_id = ground arith in
                    let capabilities : capability_id ≡ event.capability_id = ground arith in
                    rw (agents, capabilities)
                      (own_ledger event now s s' added (rw (agents, capabilities) at h)))
              | inr other ↦ rw (other_ledger agent_id capability_id s s' _ other added) h
            ]
      ]
