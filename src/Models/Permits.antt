-- ===== src/Models/Permits.antt =====
-- What `Capability.permits` accepts: the tests one by one.
use verigate.Base.{
  ◌>>=◌, refl, none, some, true, false, ok, err, ◌≡◌, ◌&&◌, Option, ℕ, String, arith, nonempty, not,
  Result, Bool, passed, ◌==◌, ==_sound, string_eq, ◌↔◌, ◌<◌,
}
use verigate.Models.{
  ActionIntent, Capability, permits_amount, expired, permits, outside, exact_amount,
  context_permits, outside_opt, limit_for, or_empty, amount_verdict,
}
use verigate.Models.Scope.{
  Among, AmongOpt, AmongLower, SatisfiesAll, Among-iff, AmongOpt-iff, AmongLower-iff,
  SatisfiesAll-iff, current_iff,
}
use verigate.Base.Int.{ℤ}
use verigate.Money.{Amount}
use verigate.Money.Order.{exceeds_complete, WithinCap, exceeds_sound}
use verigate.Base.Text.{contains_lower}

-- Where the asset has a limit, the exact amount is known, valid and at most the limit.
abbrev pub WithinLimit : ActionIntent → Option ℤ → Type 0
WithinLimit a none = Unit
WithinLimit a (some limit) =
    (amount : Amount) × (exact_amount a ≡ ok (some amount)) × WithinCap limit amount

-- The scope of a capability at a time, for one action: as a list of tests, and as what they mean.
pub record Permitted (c : Capability) (a : ActionIntent) (now : ℕ) : Type 0 where
  pub agent : a.agent_id ≡ c.agent_id
  pub current : expired c.expires_at now ≡ false
  pub action : outside c.allowed_actions a.action_type ≡ false
  pub purpose :
      (nonempty c.allowed_purposes && not (contains_lower c.allowed_purposes a.purpose)) ≡ false
  pub context : context_permits c.context_constraints a.declared_context ≡ true
  pub target : outside c.allowed_targets a.target ≡ false
  pub resource : outside c.allowed_resources a.resource ≡ false
  pub network : outside_opt c.allowed_networks a.network ≡ false
  pub asset : outside_opt c.allowed_assets a.asset ≡ false
  pub amount : WithinLimit a (limit_for c.max_per_action (or_empty a.asset))

pub record InScope (c : Capability) (a : ActionIntent) (now : ℕ) : Type 0 where
  pub agent : a.agent_id ≡ c.agent_id
  pub current : (t : ℕ) → c.expires_at ≡ some t → now < t
  pub action : Among c.allowed_actions a.action_type
  pub purpose : AmongLower c.allowed_purposes a.purpose
  pub context : SatisfiesAll c.context_constraints a.declared_context
  pub target : Among c.allowed_targets a.target
  pub resource : Among c.allowed_resources a.resource
  pub network : AmongOpt c.allowed_networks a.network
  pub asset : AmongOpt c.allowed_assets a.asset
  pub amount : WithinLimit a (limit_for c.max_per_action (or_empty a.asset))

pub Permitted-InScope :
    (c : Capability) (a : ActionIntent) (now : ℕ) → Permitted c a now ↔ InScope c a now
Permitted-InScope c a now = (
  λ w. record {
    agent = w.agent;
    current = (current_iff c.expires_at now).0 w.current;
    action = (Among-iff c.allowed_actions a.action_type).0 w.action;
    purpose = (AmongLower-iff c.allowed_purposes a.purpose).0 w.purpose;
    context = (SatisfiesAll-iff c.context_constraints a.declared_context).0 w.context;
    target = (Among-iff c.allowed_targets a.target).0 w.target;
    resource = (Among-iff c.allowed_resources a.resource).0 w.resource;
    network = (AmongOpt-iff c.allowed_networks a.network).0 w.network;
    asset = (AmongOpt-iff c.allowed_assets a.asset).0 w.asset;
    amount = w.amount;
  },
  λ w. record {
    agent = w.agent;
    current = (current_iff c.expires_at now).1 w.current;
    action = (Among-iff c.allowed_actions a.action_type).1 w.action;
    purpose = (AmongLower-iff c.allowed_purposes a.purpose).1 w.purpose;
    context = (SatisfiesAll-iff c.context_constraints a.declared_context).1 w.context;
    target = (Among-iff c.allowed_targets a.target).1 w.target;
    resource = (Among-iff c.allowed_resources a.resource).1 w.resource;
    network = (AmongOpt-iff c.allowed_networks a.network).1 w.network;
    asset = (AmongOpt-iff c.allowed_assets a.asset).1 w.asset;
    amount = w.amount;
  },
)

amount_found :
    (r : Result (Option Amount)) (limit : ℤ) (reason : String)
    → (r >>= λ amount. ok (amount_verdict limit amount)) ≡ ok (true, reason)
    → (amount : Amount) × (r ≡ ok (some amount)) × WithinCap limit amount
amount_found (ok none) limit reason h = cc
amount_found (ok (some a)) limit reason h = (a, refl, exceeds_sound a limit (ground arith))
amount_found (err e) limit reason h = cc

amount_sound :
    (a : ActionIntent) (limit : Option ℤ) (reason : String)
    → permits_amount a limit ≡ ok (true, reason)
    → WithinLimit a limit
unfolding permits_amount
amount_sound a none reason h = tt
amount_sound a (some limit) reason h = amount_found (exact_amount a) limit reason h

amount_complete :
    (a : ActionIntent) (limit : Option ℤ)
    → WithinLimit a limit
    → permits_amount a limit ≡ ok (true, "capability permits action")
unfolding permits_amount
amount_complete a none w = refl
amount_complete a (some limit) (amount, e, w) =
    rw e (ground (arith, exceeds_complete amount limit w))

refused :
    (m reason : String) → ¬ (◌≡◌ {A = Result (Bool × String)} (ok (false, m)) (ok (true, reason)))
refused m reason e = cc

pub not-false : (b : Bool) → not b ≡ false → b ≡ true
not-false true h = refl
not-false false h = cc

module _ (c : Capability) (a : ActionIntent) (now : ℕ) where
  -- An action that a capability permits is of the capability's agent, before its expiry, on each of
  -- its lists, within its context constraints, and of a valid amount within the limit, where it has
  -- one for the asset.
  pub permits_sound : (reason : String) → permits c a now ≡ ok (true, reason) → Permitted c a now
  unfolding permits
  permits_sound reason h =
      let (agent, h1) = passed (not (a.agent_id == c.agent_id)) (refused _ _) h in
      let (current, h2) = passed (expired c.expires_at now) (refused _ _) h1 in
      let (action, h3) = passed (outside c.allowed_actions a.action_type) (refused _ _) h2 in
      let (purpose, h4) =
        passed (nonempty c.allowed_purposes && not (contains_lower c.allowed_purposes a.purpose))
          (refused _ _) h3 in
      let (context, h5) =
        passed (not (context_permits c.context_constraints a.declared_context)) (refused _ _) h4 in
      let (target, h6) = passed (outside c.allowed_targets a.target) (refused _ _) h5 in
      let (resource, h7) = passed (outside c.allowed_resources a.resource) (refused _ _) h6 in
      let (network, h8) = passed (outside_opt c.allowed_networks a.network) (refused _ _) h7 in
      let (asset, h9) = passed (outside_opt c.allowed_assets a.asset) (refused _ _) h8 in
      record {
        agent = ==_sound a.agent_id c.agent_id (not-false _ agent);
        current = current;
        action = action;
        purpose = purpose;
        context = not-false _ context;
        target = target;
        resource = resource;
        network = network;
        asset = asset;
        amount = amount_sound a (limit_for c.max_per_action (or_empty a.asset)) reason h9;
      }

  -- A capability permits every action of its agent that is before its expiry, on each of its lists,
  -- within its context constraints, and of a valid amount within the limit, where it has one for
  -- the asset.
  pub permits_complete :
      Permitted c a now → permits c a now ≡ ok (true, "capability permits action")
  unfolding permits
  permits_complete w =
      rw (w.current, w.action, w.purpose, w.context, w.target, w.resource, w.network, w.asset)
        (ground (
          arith,
          w.agent,
          amount_complete a (limit_for c.max_per_action (or_empty a.asset)) w.amount,
        ))

  -- A capability permits exactly the actions of its agent before its expiry, if it has one, with an action type,
  -- target, resource, network, asset and purpose (in any case) on each of its lists that is not empty, with a context
  -- that satisfies its constraints, and, where it limits the asset, with a valid exact amount of at most the limit.
  pub permits_iff : (permits c a now ≡ ok (true, "capability permits action")) ↔ InScope c a now
  permits_iff = (
    λ h. (Permitted-InScope c a now).0 (permits_sound "capability permits action" h),
    λ w. permits_complete ((Permitted-InScope c a now).1 w),
  )
