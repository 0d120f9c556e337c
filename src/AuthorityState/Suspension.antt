-- ===== src/AuthorityState/Suspension.antt =====
-- How long a suspension of core/authority_state.py holds.
use verigate.Base.{
  inl, inr, [], ◌∷◌, none, some, true, ◌≡◌, ◌==◌, string_eq, option_eq, String, ℕ, if◌then◌else◌,
  arith, ◌&&◌, List, first_row, ◌<◌, Bool-cases, ◌∙◌, ap,
}
use verigate.Storage.{probation, suspended, AuthorityState, Storage, StateRow, ResetRow}
use verigate.AuthorityState.{state_eq, decide_state, AuthorityPolicy, state_at, snapshot, history}
use verigate.Storage.Events.{
  latest_authority_state, set_authority_state, latest_authority_reset, state_of_row, state_row,
  set_state,
}

module _ (agent_id capability_id : String) where
  latest-set_authority_state :
      (agent capability : String) (state : AuthorityState) (now : ℕ) (s : Storage)
      → latest_authority_state agent_id capability_id
          (set_authority_state agent capability state now s)
        ≡ (if agent == agent_id && capability == capability_id
            then some state
            else latest_authority_state agent_id capability_id s)
  unfolding latest_authority_state set_authority_state
  latest-set_authority_state agent capability state now s = go s.authority_states
    where
      go :
          (rows : List StateRow)
          → state_of_row (
              first_row (state_row agent_id capability_id) (
                set_state
                  (record {
                    agent_id = agent;
                    capability_id = capability;
                    state = state;
                    updated_at = now;
                  })
                  rows))
            ≡ (if agent == agent_id && capability == capability_id
                then some state
                else state_of_row (first_row (state_row agent_id capability_id) rows))
      go [] = ground arith
      go (row ∷ rows) = ground (arith, go rows)

  -- suspended, and never reset
  Held : Storage → Type 0
  Held s =
      (latest_authority_state agent_id capability_id s ≡ some suspended)
      × (latest_authority_reset agent_id capability_id s ≡ none)

  Held-state :
      (policy : AuthorityPolicy) (now : ℕ) (s : Storage)
      → Held s
      → (state_at policy agent_id capability_id now s).0 ≡ suspended
  unfolding decide_state Held
  Held-state policy now s (latest, reset) = ground arith

  Held-for :
      (policy : AuthorityPolicy) (agent capability : String) (now : ℕ) (s : Storage)
      → (agent == agent_id && capability == capability_id) ≡ true
      → Held s
      → (state_at policy agent capability now s).0 ≡ suspended
  Held-for policy agent capability now s same held =
      let agents : agent ≡ agent_id = ground arith in
      let capabilities : capability ≡ capability_id = ground arith in
      rw (agents, capabilities) (Held-state policy now s held)

  snapshot-Held :
      (policy : AuthorityPolicy) (agent capability : String) (now : ℕ) (s : Storage)
      → Held s
      → Held (snapshot policy agent capability now s).1
  unfolding Held snapshot latest_authority_reset set_authority_state
  snapshot-Held policy agent capability now s (latest, reset) = (
    elim (Bool-cases (agent == agent_id && capability == capability_id)) [
      | inl same ↦
          latest-set_authority_state agent capability (state_at policy agent capability now s).0 now
            s
          ∙ rw same (ap some (Held-for policy agent capability now s same (latest, reset)))
      | inr other ↦
          latest-set_authority_state agent capability (state_at policy agent capability now s).0 now
            s
          ∙ (rw other latest)
    ],
    reset,
  )

  -- What happens to the store without a reset: snapshots of any agent, under any policy and at any time, and
  -- changes that leave the states and the resets as they are.
  pub data Unreset : Storage → Storage → Type 0 where
    start : (s : Storage) → Unreset s s
    evaluate :
        {s s' : Storage} (policy : AuthorityPolicy) (agent capability : String) (now : ℕ)
        → Unreset s s'
        → Unreset s (snapshot policy agent capability now s').1
    change :
        {s s' : Storage} (s'' : Storage)
        → s''.authority_states ≡ s'.authority_states
        → s''.authority_resets ≡ s'.authority_resets
        → Unreset s s'
        → Unreset s s''

  change-Held :
      (s s' : Storage)
      → s'.authority_states ≡ s.authority_states
      → s'.authority_resets ≡ s.authority_resets
      → Held s
      → Held s'
  unfolding Held latest_authority_state latest_authority_reset
  change-Held s s' states resets (latest, reset) = (rw states latest, rw resets reset)

  unreset-Held : {s s' : Storage} → Unreset s s' → Held s → Held s'
  unreset-Held (start s) h = h
  unreset-Held (evaluate {s' = s'} policy agent capability now run) h =
      snapshot-Held policy agent capability now s' (unreset-Held run h)
  unreset-Held (change {s' = s'} s'' states resets run) h =
      change-Held s' s'' states resets (unreset-Held run h)

  -- Where an agent is recorded as suspended for a capability and has no reset, every later snapshot
  -- says suspended, whatever snapshots, and whatever changes that leave the recorded states and the
  -- resets alone, come between.
  pub suspension_holds :
      (policy : AuthorityPolicy) (now : ℕ) {s s' : Storage}
      → latest_authority_state agent_id capability_id s ≡ some suspended
      → latest_authority_reset agent_id capability_id s ≡ none
      → Unreset s s'
      → (snapshot policy agent_id capability_id now s').0.state ≡ suspended
  unfolding Held snapshot
  suspension_holds policy now {s' = s'} latest reset run =
      Held-state policy now s' (unreset-Held run (latest, reset))

  -- Where an agent is recorded as suspended, and has a reset from before that record, a snapshot whose history has no
  -- event says probation, with positive thresholds; with the same recorded states and no reset it would say suspended,
  -- under any policy, at any time.
  pub suspension_lapses :
      (policy policy' : AuthorityPolicy) (now now' : ℕ) (s s' : Storage) (row : StateRow)
      (reset : ResetRow)
      → first_row (state_row agent_id capability_id) s.authority_states ≡ some row
      → row.state ≡ suspended
      → latest_authority_reset agent_id capability_id s ≡ some reset
      → reset.issued_at < row.updated_at
      → history policy agent_id capability_id now s ≡ []
      → 0 < policy.suspension_critical_events
      → 0 < policy.limited_adverse_events
      → 0 < policy.probation_successes
      → 0 < policy.standard_successes
      → s'.authority_states ≡ s.authority_states
      → latest_authority_reset agent_id capability_id s' ≡ none
      → ((snapshot policy agent_id capability_id now s).0.state ≡ probation)
        × ((snapshot policy' agent_id capability_id now' s').0.state ≡ suspended)
  unfolding snapshot Held latest_authority_state decide_state
  suspension_lapses policy policy' now now' s s' row reset found held lifted before quiet h1 h2 h3
        h4 same none_yet =
      (
        rw (quiet, lifted, found, held) (ground arith),
        Held-state policy' now' s' (rw same (rw found (ap some held)), none_yet),
      )
