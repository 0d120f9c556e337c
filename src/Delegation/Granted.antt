-- ===== src/Delegation/Granted.antt =====
-- What `delegate` of core/authority.py has granted when it returns.
use mathlib.Core.Path.{subst}
use verigate.Base.{
  inl, inr, refl, [], ◌∷◌, none, some, true, false, ◌≡◌, ◌==◌, string_eq, option_eq, nat_eq, arith,
  String, ℕ, Option, ==_refl, Option-cases, ◌∙◌, first_row-append_found, first_row-append_new, ok,
  Result, ok-of_guard, List, not, ok-of_bind, permission_error, suc, ap, ok-injective, Bool, sym,
}
use verigate.Storage.{Storage, CapabilityRow}
use verigate.Storage.Registries.{
  status_eq, capability_row, capability_row_of, capability_of, capability_is_active,
  identity_is_active, identity_of,
}
use verigate.Storage.Delegations.Inserted.{Registered, register_delegated_capability-Registered}
use verigate.Models.{Capability, expired, AgentIdentity, ActionIntent, permits}
use verigate.Capabilities.{resolve, identity_inactive, effective_active, or_missing}
use verigate.Capabilities.Chain.{LiveChain, root, link, effective_active_iff}
use verigate.Delegation.Service.{
  or_unbound, delegate, check_parties, or_no_delegator, verify_delegation, or_no_recipient,
  digest_of,
}
use verigate.Signatures.{Signatures}
use verigate.Delegation.Attenuation.{ScopeValid, as_agent, scope_valid, Permitted-attenuates}
use verigate.Delegation.Graph.{PathNode}
use verigate.Models.Permits.{not-false, permits_complete, permits_sound}
use verigate.Storage.Delegations.{register_delegated_capability}
use verigate.Delegation.{validate_delegation_scope}

-- every capability is stored under its own id
abbrev pub Keyed : Storage → Type 0
Keyed s = (id : String) (c : Capability) → capability_of id s ≡ some c → c.capability_id ≡ id

module _ (child : Capability) (now : ℕ) (s s' : Storage) (new : Registered child now s s') where
  row_kept :
      (id : String) (row : CapabilityRow)
      → capability_row id s ≡ some row
      → capability_row id s' ≡ some row
  row_kept id row h = rw new.rows (
      first_row-append_found (λ (r : CapabilityRow). r.capability_id == id) s.capabilities
        (capability_row_of child now ∷ []) row h)

  child_row : capability_row child.capability_id s' ≡ some (capability_row_of child now)
  child_row = rw new.rows (
      first_row-append_new (λ (r : CapabilityRow). r.capability_id == child.capability_id)
        s.capabilities (capability_row_of child now) (==_refl child.capability_id) new.free)

  inactive_kept : (id : Option String) → identity_inactive id now s' ≡ identity_inactive id now s
  unfolding identity_is_active
  inactive_kept none = refl
  inactive_kept (some id) = rw new.people refl

  chain_kept : {n : ℕ} {start : Option String} → LiveChain now s n start → LiveChain now s' n start
  unfolding capability_of capability_is_active
  chain_kept root = root
  chain_kept (link n id c found live held chain) = elim (Option-cases (capability_row id s)) [
    | inl e ↦ cc (rw e at found)
    | inr (row, e) ↦
        link n id c (rw (row_kept id row e) (rw e at found)) (rw (row_kept id row e) (rw e at live))
          (inactive_kept c.identity_id ∙ held) (chain_kept chain)
  ]

  child_found : capability_of child.capability_id s' ≡ some child
  unfolding capability_of
  child_found = rw child_row refl

  child_live :
      expired child.expires_at now ≡ false → capability_is_active child.capability_id now s' ≡ true
  unfolding capability_is_active
  child_live h = rw (child_row, h) (ground arith)

-- What the tests of `delegate` have established.
record Granted (parent_id : String) (child : Capability) (now : ℕ) (s s' : Storage) : Type 0 where
  parent : Capability
  found : capability_of parent_id s ≡ some parent
  live : effective_active parent_id now s ≡ true
  scope : ScopeValid parent child
  holder : identity_inactive child.identity_id now s ≡ false
  new : Registered child now s s'

present :
    (o : Option Capability) (message : String) (c : Capability)
    → or_missing o message ≡ ok c
    → o ≡ some c
present none message c h = cc
present (some d) message c h = ground arith

resolve_sound :
    (id : String) (now : ℕ) (s : Storage) (c : Capability)
    → resolve id now s ≡ ok c
    → (capability_of id s ≡ some c) × (effective_active id now s ≡ true)
unfolding resolve
resolve_sound id now s c h =
    let (d, stored, h1) = ok-of_bind (or_missing (capability_of id s) "capability not found") _ h in
    let (live, same) =
      ok-of_guard (not (effective_active id now s))
        (permission_error "capability is not active or has an ineffective authority chain") _ h1 in
    (present (capability_of id s) "capability not found" c (stored ∙ same), not-false _ live)

bound : (o : Option String) (id : String) → or_unbound o ≡ ok id → o ≡ some id
bound none id h = cc
bound (some x) id h = ground arith

check_parties_sound :
    (parent child : Capability) (delegator : String) (now : ℕ) (s : Storage)
    (identity : AgentIdentity)
    → check_parties parent child delegator now s ≡ ok identity
    → ScopeValid parent child × (identity_inactive child.identity_id now s ≡ false)
unfolding check_parties
check_parties_sound parent child delegator now s identity h =
    let (giver, h0, h1) = ok-of_bind (or_no_delegator (identity_of delegator s)) _ h in
    let (active_giver, h2) = ok-of_guard (not (identity_is_active delegator now s)) _ _ h1 in
    let (owner, h3) = ok-of_guard (not (parent.identity_id == some delegator)) _ _ h2 in
    let (id, is_bound, h4) = ok-of_bind (or_unbound child.identity_id) _ h3 in
    let (recipient, h5, h6) = ok-of_bind (or_no_recipient (identity_of id s)) _ h4 in
    let (held, h7) = ok-of_guard (not (identity_is_active id now s)) _ _ h6 in
    let (agent, h8) = ok-of_guard (not (recipient.agent_id == child.agent_id)) _ _ h7 in
    let verdict = validate_delegation_scope parent child in
    let (scope, h9) = ok-of_guard (not verdict.0) _ _ h8 in
    (
      scope_valid parent child verdict.1 (ap (λ (b : Bool). (b, verdict.1)) (not-false _ scope)),
      rw (bound child.identity_id id is_bound) held,
    )

module _ (crypto : Signatures) (parent_id : String) (child : Capability)
    (delegator signature : String) (now : ℕ) where
  granted :
      (s s' : Storage) (path : Result (List PathNode))
      → delegate crypto parent_id child delegator signature now s ≡ ok (path, s')
      → Granted parent_id child now s s'
  unfolding delegate
  granted s s' path h =
      let (parent, h0, h1) = ok-of_bind (resolve parent_id now s) _ h in
      let (identity, h2, h3) = ok-of_bind (check_parties parent child delegator now s) _ h1 in
      let verdict = verify_delegation crypto parent_id child delegator signature identity in
      let (valid, h4) = ok-of_guard (not verdict.0) _ _ h3 in
      let (t, h5, h6) =
        ok-of_bind
          (register_delegated_capability (digest_of crypto) child parent_id (some delegator)
            (some signature) now s)
          _ h4 in
      let same : t ≡ s' = ap (λ (x : Result (List PathNode) × Storage). x.1) (ok-injective h6) in
      let (found, live) = resolve_sound parent_id now s parent h0 in
      let (scope, holder) = check_parties_sound parent child delegator now s identity h2 in
      record {
        parent = parent;
        found = found;
        live = live;
        scope = scope;
        holder = holder;
        new =
            register_delegated_capability-Registered (digest_of crypto) child parent_id
              (some delegator) (some signature) now s s' (rw same at h5);
      }

  -- Where every capability is stored under its own id, a delegation that returns a path or the error of one, of a
  -- child that has not expired, makes the parent's live chain of delegations one link longer, up to the child.
  pub delegate-LiveChain :
      (s s' : Storage) (path : Result (List PathNode))
      → Keyed s
      → delegate crypto parent_id child delegator signature now s ≡ ok (path, s')
      → expired child.expires_at now ≡ false
      → (n : ℕ) × LiveChain now s n (some parent_id)
        × LiveChain now s' (suc n) (some child.capability_id)
  delegate-LiveChain s s' path keyed h current =
      let g = granted s s' path h in
      let (n, le, chain) = (effective_active_iff now s parent_id).0 g.live in
      let up : child.delegated_from ≡ some parent_id =
        g.scope.child_of ∙ ap some (keyed parent_id g.parent g.found) in
      (
        n,
        chain,
        link n child.capability_id child (child_found child now s s' g.new)
            (child_live child now s s' g.new current)
            (inactive_kept child now s s' g.new child.identity_id ∙ g.holder)
            (subst (LiveChain now s' n) (sym up) (chain_kept child now s s' g.new chain)),
      )

  -- What a capability that `delegate` has registered permits at any time, the stored parent permits then too, of
  -- its own agent.
  pub delegate-attenuates :
      (s s' : Storage) (path : Result (List PathNode))
      → delegate crypto parent_id child delegator signature now s ≡ ok (path, s')
      → (parent : Capability) × (capability_of parent_id s ≡ some parent)
        × (capability_of child.capability_id s' ≡ some child)
        × ((a : ActionIntent) (later : ℕ) (reason : String)
            → permits child a later ≡ ok (true, reason)
            → permits parent (as_agent parent.agent_id a) later
              ≡ ok (true, "capability permits action"))
  delegate-attenuates s s' path h =
      let g = granted s s' path h in
      (
        g.parent,
        g.found,
        child_found child now s s' g.new,
        λ a later reason allowed. permits_complete g.parent (as_agent g.parent.agent_id a) later (
            Permitted-attenuates g.parent child a later g.scope
              (permits_sound child a later reason allowed)),
      )
