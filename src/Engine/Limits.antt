-- ===== src/Engine/Limits.antt =====
-- What the recorded history satisfies after an evaluation: the daily spend, and one row for each.
pub mod Rate
use mathlib.Core.List.{map-append}
use verigate.Base.{
  ℕ, String, ◌++◌, ◌∷◌, ◌-◌, [], ◌≡◌, true, false, ap, map, where_rows-append_kept,
  where_rows-append_left_out, ◌∙◌, none, ◌≢◌, some, arith, ==_refl, ==_ne, ◌+◌, refl, sym, ok,
  ok-injective, string_eq, if◌then◌else◌, ◌==◌, count_rows, count_rows-append,
}
use verigate.Storage.{Storage, AuditRow}
use verigate.Storage.Audit.{
  Python, with_row, exact_spend, spent_today, is_spend, day, spend_rows, payment_row, count_intent,
}
use verigate.Money.{total, total_of, Amount, finite}
use verigate.Money.Order.{total_of-append, WithinCap, total-pos}
use verigate.Policy.{Policy}
use verigate.Models.{PaymentIntent, GuardrailDecision, allow, limit_for, block, decision_eq}
use verigate.Engine.{evaluate, payment_decision, matches_of, payment_checks, final_decision}
use verigate.Base.Int.{ℤ, pos, ◌≤ℤ◌}
use verigate.Base.Text.{upper}
use verigate.Engine.Payments.{evaluate-stored, allow-SoftLimits, decision}
use verigate.Rules.{check_daily_cap}
use verigate.Rules.Payment.{WithinDaily, daily_cap_iff}

spend_after :
    (agent asset : String) (now : ℕ) (s : Storage) (row : AuditRow)
    → is_spend agent asset (now - day) row ≡ true
    → exact_spend agent asset now (with_row s row)
      ≡ total (exact_spend agent asset now s) row.amount
unfolding exact_spend
spend_after agent asset now s row h =
    ap (λ rows. total_of (map (λ r. r.amount) rows))
      (where_rows-append_kept (is_spend agent asset (now - day)) s.audit_log row h)
    ∙ ap total_of (map-append (λ r. r.amount) (spend_rows agent asset (now - day) s) (row ∷ []))
    ∙ total_of-append (map (λ r. r.amount) (spend_rows agent asset (now - day) s)) row.amount

spend_unchanged :
    (agent asset : String) (now : ℕ) (s : Storage) (row : AuditRow)
    → is_spend agent asset (now - day) row ≡ false
    → exact_spend agent asset now (with_row s row) ≡ exact_spend agent asset now s
unfolding exact_spend
spend_unchanged agent asset now s row h =
    ap (λ rows. total_of (map (λ r. r.amount) rows))
      (where_rows-append_left_out (is_spend agent asset (now - day)) s.audit_log row h)

module _ (python : Python) (policy : Policy) (s : Storage) (p : PaymentIntent) (now : ℕ) where
  pub row_of_payment : Amount → AuditRow
  row_of_payment = payment_row p (decision python policy s p now) none now

  -- a payment that is not blocked is spend of its own asset
  counts_as_spend :
      (stored : Amount)
      → (decision python policy s p now).decision ≢ block
      → is_spend p.agent_id p.asset (now - day) (row_of_payment stored) ≡ true
  unfolding row_of_payment payment_decision
  counts_as_spend stored h =
      let m = matches_of (payment_checks python policy s p now) in
      ground (arith, ==_refl p.agent_id, ==_refl p.asset, ==_ne (final_decision m) block h)

  -- Where the amount column of the audit log holds the payment's amount unchanged and the exact sum of the
  -- spend before it is itself a float: after a payment that was allowed, the exact sum of the amounts that
  -- are recorded for the agent and the asset in the last day is a valid amount within the daily cap, if
  -- the policy has one for the asset.
  pub evaluate_allow-daily_cap :
      (cap : ℤ) (d : GuardrailDecision) (s' : Storage)
      → python.column p.amount ≡ ok p.amount
      → python.rounded (exact_spend p.agent_id p.asset now s) ≡ exact_spend p.agent_id p.asset now s
      → evaluate python policy s p now ≡ ok (d, s')
      → d.decision ≡ allow
      → limit_for policy.daily_cap (upper p.asset) ≡ some cap
      → WithinCap cap (exact_spend p.agent_id p.asset now s')
  unfolding row_of_payment spent_today
  evaluate_allow-daily_cap cap d s' kept rounded h allowed e =
      let (stored, held, same, after) = evaluate-stored python policy s p now d s' h in
      let stored_same = ok-injective (sym held ∙ kept) in
      let let_in = ap (λ x. x.decision) (sym same) ∙ allowed in
      let w = rw e at ((allow-SoftLimits python policy s p now let_in).under_daily) in
      let spend = counts_as_spend stored (λ b. cc (let_in, b)) in
      record {
        units = w.spent_units + w.units;
        is_units =
            ap (exact_spend p.agent_id p.asset now) after
            ∙ spend_after p.agent_id p.asset now s (row_of_payment stored) spend
            ∙ ap (λ a. total a stored) (sym rounded ∙ w.is_spent)
            ∙ ap (total (finite (pos w.spent_units))) (stored_same ∙ w.is_units)
            ∙ total-pos w.spent_units w.units;
        below = w.below;
      }

  not_spend_of :
      (stored : Amount) (agent asset : String)
      → asset ≢ p.asset
      → is_spend agent asset (now - day) (row_of_payment stored) ≡ false
  unfolding row_of_payment
  not_spend_of stored agent asset n = ground (arith, ==_ne p.asset asset (λ e. n (sym e)))

  -- Where the assets of two payments differ as texts but have one upper case, and the agent of the
  -- second has spent nothing in the last day under the second's own text, the second passes the
  -- daily check with any finite amount from zero to the daily cap, just after the evaluation of the
  -- first, whatever the first amounts to.
  pub other_spelling_passes_daily_cap :
      (q : PaymentIntent) (cap : ℤ) (n : ℕ) (d : GuardrailDecision) (s' : Storage)
      → evaluate python policy s p now ≡ ok (d, s')
      → upper q.asset ≡ upper p.asset
      → q.asset ≢ p.asset
      → limit_for policy.daily_cap (upper p.asset) ≡ some cap
      → spent_today python q.agent_id q.asset now s ≡ finite (pos 0)
      → q.amount ≡ finite (pos n)
      → pos n ≤ℤ cap
      → check_daily_cap q policy (spent_today python q.agent_id q.asset now s') ≡ none
  unfolding spent_today row_of_payment
  other_spelling_passes_daily_cap q cap n d s' h same differ capped fresh amount small =
      let (stored, held, decided, after) = evaluate-stored python policy s p now d s' h in
      let spend =
        ap (λ x. python.rounded (exact_spend q.agent_id q.asset now x)) after
        ∙ ap python.rounded (
            spend_unchanged q.agent_id q.asset now s (row_of_payment stored)
              (not_spend_of stored q.agent_id q.asset differ))
        ∙ fresh in
      let under : WithinDaily cap q.amount (spent_today python q.agent_id q.asset now s') = record {
        units = n;
        spent_units = 0;
        is_units = amount;
        is_spent = spend;
        below = omega arith;
      } in
      (daily_cap_iff q policy _).1 (rw (same, capped) under)
