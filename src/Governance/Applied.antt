-- ===== src/Governance/Applied.antt =====
-- What the steps that both resets of core/governance.py share have done.
use verigate.Base.{
  inl, inr, refl, [], ◌∷◌, ◌++◌, none, some, ok, err, ◌≡◌, string_eq, nat_eq, arith, Result-cases,
  ◌<◌, ◌∙◌, sym, ap, ℕ, List, String, Option, Result, Error, ◌⊎◌,
}
use verigate.Storage.{suspended, Storage, ResetRow, ApprovalRow}
use verigate.Storage.Events.{set_authority_state, authority_events, latest_authority_reset}
use verigate.Storage.Resets.{register_authority_reset, insert_reset, insert_approvals}
use verigate.AuthorityState.{state_eq, default_policy, AuthoritySnapshot, snapshot, state_at}
use verigate.Governance.Quorum.{approval_rows, GovernanceApproval}
use verigate.Governance.Resets.{
  next_epoch, latest_of, check_target, check_suspended, apply_if, registered, refreshed,
}
use verigate.Governance.Lifted.{latest-append, state-lifted}
use verigate.Governance.Target.{Target, check_target-Target}

-- What a reset that succeeds did: the agent was suspended for an active capability, the reset has the next epoch and
-- is younger than every critical event, it has become the latest reset, and the agent is no longer suspended.
pub record Lifted (reset : ResetRow) (now : ℕ) (s s' : Storage) (snap : AuthoritySnapshot)
    : Type 0 where
  pub target : Target reset now s
  pub suspended_before :
      (snapshot default_policy reset.agent_id reset.capability_id now s).0.state ≡ suspended
  pub younger :
      latest_of (authority_events reset.agent_id reset.capability_id 0 s) < reset.issued_at
  pub recorded : latest_authority_reset reset.agent_id reset.capability_id s' ≡ some reset
  pub lifted : ¬ (snap.state ≡ suspended)

check_suspended_sound :
    (reset : ResetRow) (snap : AuthoritySnapshot) (s : Storage)
    → check_suspended reset snap s ≡ ok tt
    → (snap.state ≡ suspended)
      × (latest_of (authority_events reset.agent_id reset.capability_id 0 s) < reset.issued_at)
unfolding check_suspended
check_suspended_sound reset snap s h = (ground arith, ground arith)

-- One row is added, and no other table that a snapshot reads changes.
registered_row :
    (reset : ResetRow) (rows : List ApprovalRow) (s s' : Storage)
    → register_authority_reset reset rows s ≡ ok s'
    → (s'.authority_resets ≡ s.authority_resets ++ reset ∷ [])
      × (s'.authority_events ≡ s.authority_events)
unfolding register_authority_reset
registered_row reset rows s s' h = go (insert_approvals rows s.governance_approvals) h
  where
    go :
        (table : Option (List ApprovalRow))
        → insert_reset reset rows table s ≡ ok s'
        → (s'.authority_resets ≡ s.authority_resets ++ reset ∷ [])
          × (s'.authority_events ≡ s.authority_events)
    go none h = cc
    go (some table) h = (ground arith, ground arith)

-- A snapshot leaves the resets and the events as they are.
latest-snapshot :
    (agent capability agent_id capability_id : String) (now : ℕ) (s : Storage)
    → latest_authority_reset agent_id capability_id
        (snapshot default_policy agent capability now s).1
      ≡ latest_authority_reset agent_id capability_id s
unfolding snapshot set_authority_state latest_authority_reset
latest-snapshot agent capability agent_id capability_id now s = refl

events-snapshot :
    (agent capability agent_id capability_id : String) (now : ℕ) (s : Storage)
    → authority_events agent_id capability_id 0 (snapshot default_policy agent capability now s).1
      ≡ authority_events agent_id capability_id 0 s
unfolding snapshot set_authority_state authority_events
events-snapshot agent capability agent_id capability_id now s = refl

events-registered :
    (reset : ResetRow) (rows : List ApprovalRow) (s s' : Storage) (agent_id capability_id : String)
    → register_authority_reset reset rows s ≡ ok s'
    → authority_events agent_id capability_id 0 s' ≡ authority_events agent_id capability_id 0 s
unfolding authority_events
events-registered reset rows s s' agent_id capability_id h =
    rw ((registered_row reset rows s s' h).1) refl

-- The snapshot after the row has been stored.
refreshed-lifts :
    (reset : ResetRow) (rows : List ApprovalRow) (s s2 s' : Storage) (snap : AuthoritySnapshot)
    → register_authority_reset reset rows s ≡ ok s2
    → reset.epoch ≡ next_epoch (latest_authority_reset reset.agent_id reset.capability_id s)
    → latest_of (authority_events reset.agent_id reset.capability_id 0 s) < reset.issued_at
    → refreshed reset (ok s2) s ≡ (ok snap, s')
    → (latest_authority_reset reset.agent_id reset.capability_id s' ≡ some reset)
      × (¬ (snap.state ≡ suspended))
unfolding refreshed snapshot
refreshed-lifts reset rows s s2 s' snap stored next younger h =
    let agent = reset.agent_id in
    let capability = reset.capability_id in
    let latest = latest-append reset s s2 next ((registered_row reset rows s s2 stored).0) in
    let older : latest_of (authority_events agent capability 0 s2) < reset.issued_at =
      rw (events-registered reset rows s s2 agent capability stored) younger in
    let end : (snapshot default_policy agent capability reset.issued_at s2).1 ≡ s' = ground arith in
    let state : (state_at default_policy agent capability reset.issued_at s2).0 ≡ snap.state =
      ground arith in
    (
      rw (sym end) (latest-snapshot agent capability agent capability reset.issued_at s2 ∙ latest),
      λ held. state-lifted reset s2 latest older (state ∙ held),
    )

apply_if-Lifted :
    (reset : ResetRow) (approvals : List GovernanceApproval) (now : ℕ) (s s' : Storage)
    (snap : AuthoritySnapshot)
    → check_target reset now s ≡ ok tt
    → apply_if (ok tt) reset approvals now s ≡ (ok snap, s')
    → Lifted reset now s s' snap
unfolding apply_if registered refreshed
apply_if-Lifted reset approvals now s s' snap target h =
    let agent = reset.agent_id in
    let capability = reset.capability_id in
    let rows = approval_rows approvals now in
    let before = (snapshot default_policy agent capability now s).0 in
    let s1 = (snapshot default_policy agent capability now s).1 in
    elim (Result-cases (check_suspended reset before s1)) [
      | inr (e, refused) ↦ (let h' = rw refused at h in cc)
      | inl (done, allowed) ↦ elim (Result-cases (register_authority_reset reset rows s1)) [
        | inr (e, clash) ↦ (let h' = rw (allowed, clash) at h in cc)
        | inl (s2, stored) ↦
            (let h' = rw (allowed, stored) at h in
              let (was, younger) = check_suspended_sound reset before s1 allowed in
              let goal = check_target-Target reset now s target in
              let since = rw (events-snapshot agent capability agent capability now s) at younger in
              let (recorded, lifted) =
                refreshed-lifts reset rows s1 s2 s' snap stored
                  (rw (latest-snapshot agent capability agent capability now s) goal.next) younger
                  h' in
              record {
                target = goal;
                suspended_before = was;
                younger = since;
                recorded = recorded;
                lifted = lifted;
              })
      ]
    ]

apply_if-passed :
    (tests : Result (Unit {0})) (reset : ResetRow) (approvals : List GovernanceApproval) (now : ℕ)
    (s s' : Storage) (snap : AuthoritySnapshot)
    → apply_if tests reset approvals now s ≡ (ok snap, s')
    → tests ≡ ok tt
unfolding apply_if
apply_if-passed (err e) reset approvals now s s' snap h = cc
apply_if-passed (ok done) reset approvals now s s' snap h = refl

-- Neither table of governance changes where the result is an error.
apply_if-err :
    (tests : Result (Unit {0})) (reset : ResetRow) (approvals : List GovernanceApproval) (now : ℕ)
    (s s' : Storage) (e : Error)
    → apply_if tests reset approvals now s ≡ (err e, s')
    → (s'.authority_resets ≡ s.authority_resets)
      × (s'.governance_approvals ≡ s.governance_approvals)
unfolding apply_if registered refreshed snapshot set_authority_state
apply_if-err (err e') reset approvals now s s' e h = (ground arith, ground arith)
apply_if-err (ok done) reset approvals now s s' e h =
    let before = (snapshot default_policy reset.agent_id reset.capability_id now s).0 in
    let s1 = (snapshot default_policy reset.agent_id reset.capability_id now s).1 in
    let same : s1 ≡ s'
        → (s'.authority_resets ≡ s.authority_resets)
          × (s'.governance_approvals ≡ s.governance_approvals) =
      λ end. (rw (sym end) refl, rw (sym end) refl) in
    elim (Result-cases (check_suspended reset before s1)) [
      | inr (refusal, refused) ↦ same (ap (λ r. r.1) (rw refused at h))
      | inl (done', allowed) ↦
          elim (Result-cases (register_authority_reset reset (approval_rows approvals now) s1)) [
            | inr (clash, refused) ↦ same (ap (λ r. r.1) (rw (allowed, refused) at h))
            | inl (s2, stored) ↦ (let h' = rw (allowed, stored) at h in cc)
          ]
    ]

-- What a run of `apply_if` has done, when `target` holds and `P` follows where its tests pass.
pub apply_if_cases {ℓ} :
    {P : Type ℓ} (tests : Result (Unit {0})) (reset : ResetRow)
    (approvals : List GovernanceApproval) (now : ℕ) (s : Storage)
    → (tests ≡ ok tt → P × (check_target reset now s ≡ ok tt))
    → ((snap : AuthoritySnapshot) × (s' : Storage) × (apply_if tests reset approvals now s
          ≡ (ok snap, s'))
        × P
        × Lifted reset now s s' snap)
      ⊎ ((e : Error) × (s' : Storage) × (apply_if tests reset approvals now s ≡ (err e, s'))
          × (s'.authority_resets ≡ s.authority_resets)
          × (s'.governance_approvals ≡ s.governance_approvals))
apply_if_cases tests reset approvals now s passes =
    let run = apply_if tests reset approvals now s in
    elim (Result-cases run.0) [
      | inr (e, raised) ↦
          (let ran : run ≡ (err e, run.1) = ap (λ r. (r, run.1)) raised in
            let (resets, kept) = apply_if-err tests reset approvals now s run.1 e ran in
            inr (e, run.1, ran, resets, kept))
      | inl (snap, returned) ↦
          (let ran : run ≡ (ok snap, run.1) = ap (λ r. (r, run.1)) returned in
            let passed_tests = apply_if-passed tests reset approvals now s run.1 snap ran in
            let (p, target) = passes passed_tests in
            inl (
              snap,
              run.1,
              ran,
              p,
              apply_if-Lifted reset approvals now s run.1 snap target
                  (ap (λ t. apply_if t reset approvals now s) (sym passed_tests) ∙ ran),
            ))
    ]
