-- ===== src/Governance/Approved.antt =====
-- The loop of `verify_governance_quorum` of core/governance.py over the approvals.
use verigate.Base.{
  refl, [], ◌∷◌, none, some, true, false, ok, err, ◌≡◌, ◌==◌, string_eq, nat_eq, arith, ok-of_guard,
  ◌↔◌, ◌≤◌, ◌<◌, List, String, ℕ, map, Bool, count_rows, any, not, ◌||◌, contains, has_duplicate,
  ◌+◌, ◌&&◌, Result, Option, length, sym, ok-injective,
}
use verigate.Signatures.{Signatures, verified}
use verigate.Governance.{clock_skew}
use verigate.Governance.Members.{
  GovernancePolicy, GovernanceMember, validate, member_for_governor, public_key,
}
use verigate.Governance.Quorum.{
  GovernanceApproval, approval_payload, approved_by, signed_by, check_approval,
  verify_governance_approval, tally_approvals, Tally, counted, approval_verdict,
}

abbrev pub governors : List GovernanceApproval → List String
governors = map (λ (a : GovernanceApproval). a.governor_id)

abbrev pub nonces : List GovernanceApproval → List String
nonces = map (λ (a : GovernanceApproval). a.nonce)

abbrev pub in_role : String → GovernanceApproval → Bool
in_role role a = a.role == role

-- The ids of the loop, each new to those before it.
abbrev pub distinct : List String → List String → Bool
distinct seen [] = true
distinct seen (x ∷ xs) = not (contains seen x) && distinct (x ∷ seen) xs

any-contains_cons :
    (seen xs : List String) (x : String)
    → any (contains (x ∷ seen)) xs ≡ (contains xs x || any (contains seen) xs)
any-contains_cons seen [] x = refl
any-contains_cons seen (y ∷ xs) x = ground (arith, any-contains_cons seen xs x)

distinct_lem :
    (seen xs : List String)
    → distinct seen xs ≡ (not (any (contains seen) xs) && not (has_duplicate xs))
distinct_lem seen [] = refl
distinct_lem seen (x ∷ xs) = ground (arith, distinct_lem (x ∷ seen) xs, any-contains_cons seen xs x)

any-contains_none : (xs : List String) → any (contains []) xs ≡ false
any-contains_none [] = refl
any-contains_none (x ∷ xs) = ground (arith, any-contains_none xs)

pub distinct_start : (xs : List String) → distinct [] xs ≡ not (has_duplicate xs)
distinct_start xs = ground (arith, distinct_lem [] xs, any-contains_none xs)

module _ (crypto : Signatures) (policy : GovernancePolicy) (now : ℕ) where
  -- An approval in time, signed with the key of a member of the policy in the member's role.
  pub record Approved (a : GovernanceApproval) : Type 0 where
    pub ed25519 : a.algorithm ≡ "Ed25519"
    pub named :
        (a.action_digest == ""
          || a.governor_id == ""
          || a.role == ""
          || a.approval_id == ""
          || a.nonce == "")
        ≡ false
    pub issued : a.issued_at ≤ now + clock_skew
    pub unexpired : now < a.expires_at
    pub lasting : a.issued_at < a.expires_at
    pub short : a.expires_at ≤ a.issued_at + policy.max_approval_lifetime_seconds
    pub member : GovernanceMember
    pub is_member : member_for_governor policy a.governor_id ≡ some member
    pub in_role : (member.role == a.role) ≡ true
    pub key : String
    pub has_key : public_key crypto member ≡ ok key
    pub signed : verified crypto key (approval_payload a) a.signature ≡ true

  accepts_key :
      (a : GovernanceApproval) (found : Result String)
      → (signed_by crypto a found).0 ≡ true
      → (key : String) × (found ≡ ok key)
        × (verified crypto key (approval_payload a) a.signature ≡ true)
  unfolding signed_by
  accepts_key a (err e) h = cc
  accepts_key a (ok key) h = (key, refl, ground arith)

  accepts_member :
      (a : GovernanceApproval) (found : Option GovernanceMember)
      → (approved_by crypto a found).0 ≡ true
      → (member : GovernanceMember) × (found ≡ some member)
        × ((member.role == a.role) ≡ true)
        × ((signed_by crypto a (public_key crypto member)).0 ≡ true)
  unfolding approved_by
  accepts_member a none h = cc
  accepts_member a (some member) h = (member, refl, ground arith, ground arith)

  check_approval-Approved :
      (a : GovernanceApproval) → (check_approval crypto a policy now).0 ≡ true → Approved a
  unfolding check_approval
  check_approval-Approved a h =
      let (member, found, role, signed) =
        accepts_member a (member_for_governor policy a.governor_id) (ground arith) in
      let (key, has_key, valid) = accepts_key a (public_key crypto member) signed in
      record {
        ed25519 = ground arith;
        named = ground arith;
        issued = ground arith;
        unexpired = ground arith;
        lasting = ground arith;
        short = ground arith;
        member = member;
        is_member = found;
        in_role = role;
        key = key;
        has_key = has_key;
        signed = valid;
      }

  Approved-check_approval :
      (a : GovernanceApproval) → Approved a → (check_approval crypto a policy now).0 ≡ true
  unfolding check_approval approved_by signed_by
  Approved-check_approval a h = rw h.ed25519 (
      rw h.named (
        rw h.is_member (
          rw h.in_role (
            rw h.has_key
              (rw h.signed (ground (arith, h.issued, h.unexpired, h.lasting, h.short)))))))

  verdict-Approved :
      validate crypto policy ≡ ok tt
      → (a : GovernanceApproval)
      → ((verify_governance_approval crypto a policy now).0 ≡ true) ↔ Approved a
  unfolding verify_governance_approval approval_verdict
  verdict-Approved valid a = rw valid (check_approval-Approved a, Approved-check_approval a)

  -- Each approval is one of this action's.
  unfoldable pub AllApproved : String → List GovernanceApproval → Type 0
  AllApproved digest [] = Unit
  AllApproved digest (a ∷ approvals) =
      Approved a × ((a.action_digest == digest) ≡ true) × AllApproved digest approvals

  pub record Gathered (digest : String) (t t' : Tally) (approvals : List GovernanceApproval)
      : Type 0 where
    pub approved : AllApproved digest approvals
    pub signers : distinct t.seen_governors (governors approvals) ≡ true
    pub used : distinct t.seen_nonces (nonces approvals) ≡ true
    pub valid : t'.valid ≡ t.valid + length approvals
    pub roles :
        (role : String)
        → counted role t'.roles ≡ counted role t.roles + count_rows (in_role role) approvals

  pub tally_sound :
      validate crypto policy ≡ ok tt
      → (digest : String) (approvals : List GovernanceApproval) (t t' : Tally)
      → tally_approvals crypto policy digest now approvals t ≡ ok t'
      → Gathered digest t t' approvals
  unfolding tally_approvals AllApproved
  tally_sound v digest [] t t' h = rw (sym (ok-injective h)) (record {
    approved = tt;
    signers = refl;
    used = refl;
    valid = omega arith;
    roles = λ role. omega arith;
  })
  tally_sound v digest (a ∷ approvals) t t' h =
      let (good, h1) = ok-of_guard (not (verify_governance_approval crypto a policy now).0) _ _ h in
      let (of_action, h2) = ok-of_guard (not (a.action_digest == digest)) _ _ h1 in
      let (new_signer, h3) = ok-of_guard (contains t.seen_governors a.governor_id) _ _ h2 in
      let (new_nonce, h4) = ok-of_guard (contains t.seen_nonces a.nonce) _ _ h3 in
      let ih = tally_sound v digest approvals _ t' h4 in
      record {
        approved = ((verdict-Approved v a).0 (ground arith), ground arith, ih.approved);
        signers = ground (arith, ih.signers);
        used = ground (arith, ih.used);
        valid = omega (arith, ih.valid);
        roles = λ role. ground (arith, ih.roles role);
      }

  pub tally_complete :
      validate crypto policy ≡ ok tt
      → (digest : String) (approvals : List GovernanceApproval) (t : Tally)
      → AllApproved digest approvals
      → distinct t.seen_governors (governors approvals) ≡ true
      → distinct t.seen_nonces (nonces approvals) ≡ true
      → (t' : Tally) × (tally_approvals crypto policy digest now approvals t ≡ ok t')
  unfolding tally_approvals AllApproved
  tally_complete v digest [] t all signers used = (t, refl)
  tally_complete v digest (a ∷ approvals) t (approved, of_action, all) signers used =
      let good = (verdict-Approved v a).1 approved in
      let new_signer : contains t.seen_governors a.governor_id ≡ false = ground arith in
      let new_nonce : contains t.seen_nonces a.nonce ≡ false = ground arith in
      rw good (
        rw of_action (
          rw new_signer
            (rw new_nonce (tally_complete v digest approvals _ all (ground arith) (ground arith)))))
