-- ===== src/Enforcement/Once.antt =====
-- The calls of the gate of enforcement/local.py over any time.
use verigate.Base.{
  true, false, ok, err, ◌≡◌, ◌==◌, string_eq, ◌⊎◌, String, ℕ, Bool, any, if◌then◌else◌, Result,
  Error, arith, Bool-cases, inl, List, ◌+◌, inr, [], ◌∷◌, ◌≤◌, count_rows, permission_error,
  any-append, sym, refl,
}
use verigate.Enforcement.{Authorization, validate, execute, consume, execute_after_consume}
use verigate.Storage.{Storage}
use verigate.Base.Json.{Fields}
use verigate.Storage.Nonces.{consume_execution_nonce}

-- whether a nonce is consumed
unfoldable pub spent : String → Storage → Bool
spent nonce s = any (λ row. row.nonce == nonce) s.execution_nonces

unfoldable pub spent_count : String → Storage → ℕ
unfolding spent
spent_count nonce s = if spent nonce s then 1 else 0

module _ (verify_execution_authorization : Authorization → ℕ → Bool × String) {W R : Type 0}
    (side_effect : Fields → W → R × W) where
  abbrev exec : Authorization → ℕ → Storage × W → Result R × (Storage × W)
  exec = execute verify_execution_authorization side_effect

  -- What a call that runs the side effect requires and does.
  unfoldable pub Ran : Authorization → ℕ → Storage × W → R → Storage × W → Type 0
  unfolding spent
  Ran a now (s, w) r (s', w') =
      ((validate verify_execution_authorization a now).0 ≡ true)
      × (spent a.nonce s ≡ false)
      × ((r, w') ≡ side_effect a.action w)
      × ((consume_execution_nonce a.nonce a.authorization_id a.intent_id a.agent_id now s)
          ≡ (true, s'))

  pub execute_cases :
      (a : Authorization) (now : ℕ) (st : Storage × W)
      → ((e : Error) × (exec a now st ≡ (err e, st))
          × (((validate verify_execution_authorization a now).0 ≡ false)
              ⊎ (spent a.nonce st.0 ≡ true)))
        ⊎ ((r : R) × (st' : Storage × W) × (exec a now st ≡ (ok r, st')) × Ran a now st r st')
  unfolding execute consume consume_execution_nonce spent Ran execute_after_consume
  execute_cases a now (s, w) = elim (Bool-cases (validate verify_execution_authorization a now).0) [
    | inr bad ↦
        inl (
          permission_error (validate verify_execution_authorization a now).1,
          ground arith,
          inl bad,
        )
    | inl good ↦ elim (Bool-cases (spent a.nonce s)) [
      | inl used ↦
          inl (permission_error "execution authorization already consumed", ground arith, inr used)
      | inr fresh ↦ inr (
        (side_effect a.action w).0,
        (
          (consume_execution_nonce a.nonce a.authorization_id a.intent_id a.agent_id now s).1,
          (side_effect a.action w).1,
        ),
        ground arith,
        (good, fresh, refl, ground arith),
      )
    ]
  ]

  ran :
      (a : Authorization) (now : ℕ) (st : Storage × W) (r : R) (st' : Storage × W)
      → exec a now st ≡ (ok r, st')
      → Ran a now st r st'
  unfolding Ran
  ran a now st r st' h = elim (execute_cases a now st) [
    | inl (e, refused, _) ↦ ground arith
    | inr (r2, st2, h2, did) ↦ ground arith
  ]

  refused_state :
      (a : Authorization) (now : ℕ) (st : Storage × W) (e : Error) (st' : Storage × W)
      → exec a now st ≡ (err e, st')
      → st' ≡ st
  refused_state a now st e st' h = elim (execute_cases a now st) [
    | inl (e, refused, _) ↦ ground arith
    | inr (r2, st2, h2, did) ↦ ground arith
  ]

  -- The calls of a gate, with the authorizations whose side effect ran, in order. Between two calls the rest of
  -- the program changes the store, but deletes no nonce.
  pub data Calls : Storage × W → List Authorization → Storage × W → Type 0 where
    done : (st : Storage × W) → Calls st [] st
    other :
        {st'' : Storage × W} {accepted : List Authorization} (s s' : Storage) (w : W)
        → ((nonce : String) → spent nonce s ≡ true → spent nonce s' ≡ true)
        → Calls (s', w) accepted st''
        → Calls (s, w) accepted st''
    refuse :
        {st'' : Storage × W} {accepted : List Authorization} (a : Authorization) (now : ℕ)
        (e : Error) (st st' : Storage × W)
        → exec a now st ≡ (err e, st')
        → Calls st' accepted st''
        → Calls st accepted st''
    run :
        {st'' : Storage × W} {accepted : List Authorization} (a : Authorization) (now : ℕ) (r : R)
        (st st' : Storage × W)
        → exec a now st ≡ (ok r, st')
        → Calls st' accepted st''
        → Calls st (a ∷ accepted) st''

  -- the actions of the authorizations that ran, each once and in order
  abbrev pub replay : List Authorization → W → W
  replay [] w = w
  replay (a ∷ accepted) w = replay accepted (side_effect a.action w).1

  -- After any calls, the world is as the side effects of the accepted authorizations make it, each run once and in
  -- order.
  pub world_is_replay :
      {st st'' : Storage × W} {accepted : List Authorization}
      → Calls st accepted st''
      → st''.1 ≡ replay accepted st.1
  unfolding Ran
  world_is_replay (done st) = refl
  world_is_replay (other s s' w e calls) = world_is_replay calls
  world_is_replay (refuse a now e st st' h calls) =
      ground (arith, world_is_replay calls, refused_state a now st e st' h)
  world_is_replay (run a now r st st' h calls) =
      let did = ran a now st r st' h in ground (arith, world_is_replay calls)

  spent_after :
      (nonce : String) (a : Authorization) (now : ℕ) (st : Storage × W) (r : R) (st' : Storage × W)
      → Ran a now st r st'
      → (if a.nonce == nonce then 1 else 0) + spent_count nonce st.0 ≤ spent_count nonce st'.0
  unfolding Ran spent spent_count consume_execution_nonce
  spent_after nonce a now st r st' h = grind (arith, any-append)

  -- Over any calls of the gate, each nonce lets at most one side effect run, and one that was consumed before
  -- lets none run.
  pub at_most_once :
      (nonce : String) {st st'' : Storage × W} {accepted : List Authorization}
      → Calls st accepted st''
      → count_rows (λ (a : Authorization). a.nonce == nonce) accepted
          + (if spent nonce st.0 then 1 else 0)
        ≤ 1
  unfolding spent_count
  at_most_once nonce (done st) = ground arith
  at_most_once nonce (other s s' w e calls) = ground (arith, at_most_once nonce calls, e nonce)
  at_most_once nonce (refuse a now e st st' h calls) =
      rw (sym (refused_state a now st e st' h)) (at_most_once nonce calls)
  at_most_once nonce (run a now r st st' h calls) =
      omega
        (arith, at_most_once nonce calls, spent_after nonce a now st r st' (ran a now st r st' h))
