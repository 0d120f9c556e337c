-- ===== src/PlanAuthority/Within.antt =====
-- What it means that an action is within an authority and a capability.
use verigate.Base.{
  inl, inr, refl, none, some, true, false, ok, ◌≡◌, ◌==◌, ◌≢◌, ◌≤◌, ◌*◌, string_eq, Option, String,
  ℕ, Bool, Result, Bool-cases, arith, ==_sound, ==_refl, ==_ne, ok-of_bind, ◌>>=◌, not,
  if◌then◌else◌, ◌∙◌,
}
use verigate.Base.Int.{ℤ, pos, negsuc, ◌*ℤ◌}
use verigate.Money.{Amount, finite, not_finite, nan, not_number}
use verigate.Storage.{suspended}
use verigate.Models.{ActionIntent, exact_amount, limit_for, or_empty, permits}
use verigate.Models.Permits.{InScope, permits_sound, permits_complete, Permitted-InScope}
use verigate.AuthorityState.{state_eq}
use verigate.AuthorityProtocol.{authority_ceiling_allows}
use verigate.PlanAuthority.{
  AuthorityAwareIntentGraph, envelope, eligible, asks_other, within_ceiling, permit_verdict,
  PlanAuthorityStatus,
}

-- An amount of at most the multiplier's hundredths of the limit, where there are both.
abbrev pub UnderShare : Option ℤ → ℕ → Option Amount → Type 0
UnderShare limit multiplier none = Unit
UnderShare none multiplier (some requested) = Unit
UnderShare (some limit) multiplier (some requested) =
    (l r : ℕ) × (limit ≡ pos l)
    × (requested ≡ finite (pos r))
    × (multiplier ≤ 100)
    × (r * 100 ≤ l * multiplier)

share_sound :
    (limit : Option ℤ) (m : ℕ) (amount : Option Amount)
    → within_ceiling limit m amount ≡ true
    → UnderShare limit m amount
unfolding authority_ceiling_allows ◌*ℤ◌
share_sound limit m none h = tt
share_sound none m (some requested) h = tt
share_sound (some (pos l)) m (some (finite (pos r))) h =
    (l, r, refl, refl, ground arith, ground arith)
share_sound (some (pos l)) m (some (finite (negsuc r))) h = ground arith
share_sound (some (negsuc l)) m (some (finite r)) h = ground arith
share_sound (some l) m (some not_finite) h = cc
share_sound (some l) m (some nan) h = cc
share_sound (some l) m (some not_number) h = cc

share_complete :
    (limit : Option ℤ) (m : ℕ) (amount : Option Amount)
    → UnderShare limit m amount
    → within_ceiling limit m amount ≡ true
unfolding authority_ceiling_allows ◌*ℤ◌
share_complete limit m none w = refl
share_complete none m (some requested) w = refl
share_complete (some limit) m (some requested) (l, r, is_limit, is_amount, share, below) =
    rw (is_limit, is_amount) (ground arith)

tests_passed {ℓ} :
    {A : Type ℓ} (x y z : A) {rest : A} (s t u : Bool)
    → s ≡ false
    → t ≡ false
    → u ≡ false
    → (if s then x else if t then y else if u then z else rest) ≡ rest
tests_passed x y z s t u hs ht hu = rw (hs, ht, hu) refl

module _ (p : AuthorityAwareIntentGraph) where
  -- The authority is not suspended, is that of the action's agent and of the capability it asks for, if it
  -- asks for one; the capability covers the action, and the amount is within the authority's share.
  pub record Within (a : ActionIntent) (now : ℕ) : Type 0 where
    pub not_suspended : p.authority.state ≢ suspended
    pub agent : a.agent_id ≡ p.authority.agent_id
    pub requested :
        (r : String) → a.requested_capability ≡ some r → r ≢ "" → r ≡ p.authority.capability_id
    pub scope : InScope p.capability a now
    pub amount : Option Amount
    pub exact : exact_amount a ≡ ok amount
    pub share :
        UnderShare
          (limit_for p.capability.max_per_action (or_empty a.asset))
          p.authority.multiplier
          amount

  asked_sound :
      (requested : Option String) (id : String)
      → asks_other requested id ≡ false
      → (r : String) → requested ≡ some r
      → r ≢ ""
      → r ≡ id
  asked_sound none id h r e n = cc
  asked_sound (some q) id h r e n = elim (Bool-cases (q == "")) [
    | inl empty ↦ (let is_empty = ==_sound q "" empty in absurd (n (ground arith)))
    | inr given ↦ elim (Bool-cases (q == id)) [
      | inl same ↦ (let s = ==_sound q id same in ground arith)
      | inr other ↦ ground arith
    ]
  ]

  asked_complete :
      (requested : Option String) (id : String)
      → ((r : String) → requested ≡ some r → r ≢ "" → r ≡ id)
      → asks_other requested id ≡ false
  asked_complete none id f = refl
  asked_complete (some q) id f = elim (Bool-cases (q == "")) [
    | inl empty ↦ ground arith
    | inr given ↦
        (let same = f q refl (λ e. (let r = ==_refl q in ground arith)) in
          let s = ==_refl id in ground arith)
  ]

  module _ (a : ActionIntent) (now : ℕ) where
    abbrev verdict_of : Bool × String → Result (PlanAuthorityStatus × String)
    verdict_of verdict = permit_verdict p verdict a

    permitted_sound :
        (reason : String)
        → permits p.capability a now >>= verdict_of ≡ ok (eligible, reason)
        → InScope p.capability a now
          × ((amount : Option Amount) × (exact_amount a ≡ ok amount)
              × (within_ceiling
                    (limit_for p.capability.max_per_action (or_empty a.asset))
                    p.authority.multiplier
                    amount
                  ≡ true))
    permitted_sound reason h =
        let (verdict, permitted, h1) = ok-of_bind (permits p.capability a now) _ h in
        go verdict permitted h1
      where
        go :
            (verdict : Bool × String)
            → permits p.capability a now ≡ ok verdict
            → verdict_of verdict ≡ ok (eligible, reason)
            → InScope p.capability a now
              × ((amount : Option Amount) × (exact_amount a ≡ ok amount)
                  × (within_ceiling
                        (limit_for p.capability.max_per_action (or_empty a.asset))
                        p.authority.multiplier
                        amount
                      ≡ true))
        go (false, why) permitted h1 = cc
        go (true, why) permitted h1 =
            let (amount, exact, h2) = ok-of_bind (exact_amount a) _ h1 in
            (
              (Permitted-InScope p.capability a now).0
                  (permits_sound p.capability a now why permitted),
              (amount, exact, ground arith),
            )

    pub envelope_sound : (reason : String) → envelope p a now ≡ ok (eligible, reason) → Within a now
    unfolding envelope
    envelope_sound reason h = elim (Bool-cases (p.authority.state == suspended)) [
      | inl held ↦ cc (rw held at h)
      | inr free ↦ elim (Bool-cases (a.agent_id == p.authority.agent_id)) [
        | inr other ↦ cc (rw (free, other) at h)
        | inl agent ↦
            elim (Bool-cases (asks_other a.requested_capability p.authority.capability_id)) [
              | inl asked ↦ cc (rw (free, agent, asked) at h)
              | inr own ↦
                  (let (scope, found) = permitted_sound reason (rw (free, agent, own) at h) in
                    record {
                      not_suspended = λ e. ground arith;
                      agent = ==_sound a.agent_id p.authority.agent_id agent;
                      requested = asked_sound a.requested_capability p.authority.capability_id own;
                      scope = scope;
                      amount = found.0;
                      exact = found.1;
                      share = share_sound _ _ found.0 found.2;
                    })
            ]
      ]
    ]

    permitted_complete :
        (amount : Option Amount)
        → InScope p.capability a now
        → exact_amount a ≡ ok amount
        → within_ceiling
            (limit_for p.capability.max_per_action (or_empty a.asset))
            p.authority.multiplier
            amount
          ≡ true
        → permits p.capability a now >>= verdict_of
          ≡ ok (eligible, "action is within current authority and dependencies are eligible")
    permitted_complete amount scope exact share =
        let permitted =
          permits_complete p.capability a now ((Permitted-InScope p.capability a now).1 scope) in
        rw permitted (rw exact (rw share refl))

    pub envelope_complete :
        Within a now → (reason : String) × (envelope p a now ≡ ok (eligible, reason))
    unfolding envelope
    envelope_complete w =
        let free = ==_ne p.authority.state suspended w.not_suspended in
        let own = asked_complete a.requested_capability p.authority.capability_id w.requested in
        let agent : (not (a.agent_id == p.authority.agent_id)) ≡ false =
          ground (arith, w.agent, ==_refl p.authority.agent_id) in
        let share = share_complete _ _ w.amount w.share in
        (
          "action is within current authority and dependencies are eligible",
          tests_passed _ _ _ _ _ _ free agent own
              ∙ permitted_complete w.amount w.scope w.exact share,
        )
