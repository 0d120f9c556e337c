-- ===== src/Engine/Limits/Rate.antt =====
-- The rate limit over every run of evaluations under one policy and a clock that does not go back.
use verigate.Base.{
  inl, inr, [], ◌∷◌, true, ok, ℕ, String, Bool, count_rows, ◌≡◌, ◌&&◌, ◌++◌, not, ◌≤◌, ◌==◌, arith,
  ◌-◌, ◌≢◌, count_rows-le, ◌<◌, Bool-cases, count_rows-append_kept, count_rows-append_left_out, ap,
  none,
}
use verigate.Storage.{AuditRow, Storage}
use verigate.Policy.{Policy}
use verigate.Storage.Audit.{is_call, calls_last_minute, action_row, Python, with_row}
use verigate.Money.{Amount}
use verigate.Models.{PaymentIntent, block, ActionIntent, GuardrailDecision, decision_eq}
use verigate.Engine.{evaluate, evaluate_action}
use verigate.Rules.Payment.{UnderRate}
use verigate.Engine.Limits.{row_of_payment}
use verigate.Engine.Payments.{not_block-HardLimits, evaluate-stored}
use verigate.Engine.Actions.{evaluate_action-stored}

-- the rows of an agent that were let through since a time
abbrev pub is_let_through : String → ℕ → AuditRow → Bool
is_let_through agent since row = is_call agent since row && not (row.decision == block)

unfoldable pub let_through : String → ℕ → Storage → ℕ
let_through agent since s = count_rows (is_let_through agent since) s.audit_log

module _ (python : Python) (policy : Policy) where
  -- The runs: each evaluation reads the clock, at or after the one before it.
  pub data Run : ℕ → Storage → Type 0 where
    begin : (s : Storage) → s.audit_log ≡ [] → Run 0 s
    pay :
        {t : ℕ} {s : Storage} (p : PaymentIntent) (now : ℕ) (s' : Storage) (d : GuardrailDecision)
        → Run t s
        → t ≤ now
        → evaluate python policy s p now ≡ ok (d, s')
        → Run now s'
    act :
        {t : ℕ} {s : Storage} (a : ActionIntent) (now : ℕ) (s' : Storage) (d : GuardrailDecision)
        → Run t s
        → t ≤ now
        → evaluate_action python policy s a now ≡ ok (d, s')
        → Run now s'

-- The rows let through in the minute before any later time stay within the limit.
abbrev Within : ℕ → String → ℕ → Storage → Type 0
Within rate agent t s = (u : ℕ) → t ≤ u → let_through agent (u - 60) s ≤ rate

let_through-le-calls :
    (agent : String) (u now : ℕ) (s : Storage)
    → now ≤ u
    → let_through agent (u - 60) s ≤ calls_last_minute agent now s
unfolding let_through calls_last_minute
let_through-le-calls agent u now s h =
    count_rows-le (is_let_through agent (u - 60)) (is_call agent (now - 60)) s.audit_log
      λ row e. ground arith

through-agent :
    (agent : String) (since : ℕ) (row : AuditRow)
    → is_let_through agent since row ≡ true
    → row.agent_id ≡ agent
through-agent agent since row h = ground arith

through-not_block :
    (agent : String) (since : ℕ) (row : AuditRow)
    → is_let_through agent since row ≡ true
    → row.decision ≢ block
through-not_block agent since row h b = ground arith

-- One more row, which was under the rate unless it was blocked, keeps the limit.
append-Within :
    (rate : ℕ) (agent : String) (t now : ℕ) (s : Storage) (row : AuditRow)
    → t ≤ now
    → ((row.decision ≢ block) → calls_last_minute row.agent_id now s < rate)
    → Within rate agent t s
    → Within rate agent now (record s { audit_log = s.audit_log ++ row ∷ [] })
unfolding let_through
append-Within rate agent t now s row le under h u later =
    elim (Bool-cases (is_let_through agent (u - 60) row)) [
      | inl through ↦ omega (
        arith,
        count_rows-append_kept (is_let_through agent (u - 60)) s.audit_log row through,
        let_through-le-calls agent u now s later,
        rw (through-agent agent (u - 60) row through) at
            (under (through-not_block agent (u - 60) row through)),
      )
      | inr not_through ↦ omega (
        arith,
        count_rows-append_left_out (is_let_through agent (u - 60)) s.audit_log row not_through,
        h u (omega arith),
      )
    ]

module _ (python : Python) (policy : Policy) (on : 0 < policy.rate_limit_per_minute) where
  under : (calls : ℕ) → UnderRate policy calls → calls < policy.rate_limit_per_minute
  under calls (inl off) = absurd (omega arith)
  under calls (inr h) = h

  pay-Within :
      (agent : String) (t now : ℕ) (s : Storage) (p : PaymentIntent) (stored : Amount)
      → t ≤ now
      → Within policy.rate_limit_per_minute agent t s
      → Within policy.rate_limit_per_minute agent now
          (with_row s (row_of_payment python policy s p now stored))
  unfolding row_of_payment
  pay-Within agent t now s p stored le h =
      append-Within policy.rate_limit_per_minute agent t now s
        (row_of_payment python policy s p now stored) le
        (λ n. under _ ((not_block-HardLimits python policy s p now n).under_rate)) h

  act-Within :
      (agent : String) (t now : ℕ) (s : Storage) (a : ActionIntent) (d : GuardrailDecision)
      (stored : Amount)
      → t ≤ now
      → ((d.decision ≢ block) → UnderRate policy (calls_last_minute a.agent_id now s))
      → Within policy.rate_limit_per_minute agent t s
      → Within policy.rate_limit_per_minute agent now (with_row s (action_row a d none now stored))
  act-Within agent t now s a d stored le n h =
      append-Within policy.rate_limit_per_minute agent t now s (action_row a d none now stored) le
        (λ b. under _ (n b)) h

  Run-Within :
      (agent : String) {t : ℕ} {s : Storage}
      → Run python policy t s
      → Within policy.rate_limit_per_minute agent t s
  unfolding let_through row_of_payment
  Run-Within agent (begin s e) u h =
      ground (arith, ap (count_rows (is_let_through agent (u - 60))) e)
  Run-Within agent (pay {t = t} {s = s} p now s' d run le e) u h =
      let (stored, _, _, after) = evaluate-stored python policy s p now d s' e in
      rw after (pay-Within agent t now s p stored le (Run-Within agent run) u h)
  Run-Within agent (act {t = t} {s = s} a now s' d run le e) u h =
      let (stored, after, limited) = evaluate_action-stored python policy s a now d s' e in
      rw after (act-Within agent t now s a d stored le limited (Run-Within agent run) u h)

  -- After any run of evaluations from an empty log, under one policy with a positive rate limit and
  -- a clock that does not go back, the minute before the end of the run or any later time holds no
  -- more rows of an agent that were let through than the rate limit.
  pub Run-rate_limit :
      (agent : String) {t : ℕ} {s : Storage} (u : ℕ)
      → Run python policy t s
      → t ≤ u
      → let_through agent (u - 60) s ≤ policy.rate_limit_per_minute
  Run-rate_limit agent u run h = Run-Within agent run u h
