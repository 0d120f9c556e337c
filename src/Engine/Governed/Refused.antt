-- ===== src/Engine/Governed/Refused.antt =====
-- What a governance control does to the engines of the policy version that was active before it.
use verigate.Base.{
  ==_ne, ok-of_bind, none, inl, inr, refl, some, true, false, err, ◌≡◌, ◌==◌, string_eq, nat_eq,
  option_eq, Bool-cases, ◌⊎◌, Error, String, permission_error, Result, Option, List, ok, ℕ, arith,
  ◌∙◌,
}
use verigate.Storage.{Storage, ControlRow}
use verigate.Storage.Policies.{
  policy_control, governed_policy_change_by_sha, register_policy_version,
}
use verigate.PolicyVersions.Decided.{Governed}
use verigate.PolicyVersions.Controlled.{apply-Controlled}
use verigate.Engine.Governed.{
  GuardrailEngine, assert_governed_policy_control, check_control, artifact_differs, if_governed,
  version_of, admitted, own_version, signed_policy_version,
}
use verigate.Signatures.{Signatures}
use verigate.PolicyVersions.Control.{PolicyControlGovernanceAction, apply}
use verigate.Policy.Version.{SignedPolicyVersion, build_policy_version}
use verigate.Governance.Quorum.{GovernanceApproval}
use verigate.Governance.Members.{GovernancePolicy}
use verigate.Base.Json.{end}

-- Frozen, or active for another version.
abbrev Barred : GuardrailEngine → ControlRow → Type 0
Barred e control =
    (control.frozen ≡ true) ⊎ ((control.active_policy_sha256 == e.policy_sha256) ≡ false)

check_control-Barred :
    (e : GuardrailEngine) (control : ControlRow)
    → Barred e control
    → (x : Error) × (check_control e (some control) ≡ err x)
unfolding check_control
check_control-Barred e control (inl frozen) =
    (permission_error "governed policy is frozen", rw frozen refl)
check_control-Barred e control (inr other) = elim (Bool-cases control.frozen) [
  | inl frozen ↦ (permission_error "governed policy is frozen", rw frozen refl)
  | inr thawed ↦
      (permission_error "policy is not the active governed policy", rw (thawed, other) refl)
]

asserted-Barred :
    (e : GuardrailEngine) (policy_id : String) (control : ControlRow) (s : Storage)
    → Governed policy_id e.policy_sha256 s
    → policy_control policy_id s ≡ some control
    → Barred e control
    → (x : Error) × (assert_governed_policy_control e s ≡ err x)
unfolding assert_governed_policy_control
asserted-Barred e policy_id control s own recorded barred =
    elim (Bool-cases (artifact_differs e own.change.signed_policy.payload)) [
      | inl differs ↦ (
        permission_error "governed policy artifact does not match active policy",
        rw (own.found, differs) refl,
      )
      | inr same ↦
          (let (x, refused) = check_control-Barred e control barred in
            (x, rw (own.found, same, own.of_policy, recorded) refused))
    ]

-- Where the tests of governance refuse, whatever the engine signs, it answers with an error.
if_governed-err :
    (crypto : Signatures) (document : Result (SignedPolicyVersion × Storage)) (e : GuardrailEngine)
    (s : Storage)
    → e.require_governed_policy ≡ true
    → ((d : SignedPolicyVersion) (s' : Storage)
        → document ≡ ok (d, s')
        → (x : Error) × (assert_governed_policy_control e s' ≡ err x))
    → (x : Error) × ((if_governed crypto document e s).0 ≡ err x)
unfolding if_governed admitted
if_governed-err crypto (err raised) e s required refuses = (raised, refl)
if_governed-err crypto (ok (d, s')) e s required refuses =
    let (x, refused) = refuses d s' refl in (x, rw (required, refused) refl)

-- Signing changes neither the governed changes nor the controls.
version_of-kept :
    (crypto : Signatures) (cached : Option SignedPolicyVersion) (e : GuardrailEngine) (key : String)
    (now : ℕ) (s : Storage) (d : SignedPolicyVersion) (s' : Storage)
    → version_of crypto cached e key now s ≡ ok (d, s')
    → (s'.governed_policy_changes ≡ s.governed_policy_changes)
      × (s'.policy_controls ≡ s.policy_controls)
unfolding version_of own_version register_policy_version
version_of-kept crypto (some document) e key now s d s' h = (ground arith, ground arith)
version_of-kept crypto none e key now s d s' h =
    let (version, built, h1) =
      ok-of_bind
        (build_policy_version crypto e.policy_sha256 e.policy_source_ref e.policy_version_number
          e.policy_parent_sha256 end now)
        _ h in
    (ground arith, ground arith)

Governed-kept :
    (policy_id sha : String) (s s' : Storage)
    → s'.governed_policy_changes ≡ s.governed_policy_changes
    → Governed policy_id sha s
    → Governed policy_id sha s'
unfolding governed_policy_change_by_sha
Governed-kept policy_id sha s s' same own = record {
  change = own.change;
  found = rw same own.found;
  of_policy = own.of_policy;
}

module _ (crypto : Signatures) where
  -- Once a freeze or a rollback has been applied, an engine that requires governance and runs the version that was active
  -- before gets no signed policy version: `signed_policy_version` raises, at any time and with any key, while the governed
  -- changes and the controls stay as the control left them.
  pub controlled_version_is_refused :
      (a : PolicyControlGovernanceAction) (approvals : List GovernanceApproval)
      (policy : GovernancePolicy) (applied now : ℕ) (s s' later : Storage) (e : GuardrailEngine)
      (key : String)
      → apply crypto a approvals policy applied s ≡ ok s'
      → e.policy_sha256 ≡ a.current_policy_sha256
      → e.require_governed_policy ≡ true
      → later.governed_policy_changes ≡ s.governed_policy_changes
      → later.policy_controls ≡ s'.policy_controls
      → (x : Error) × ((signed_policy_version crypto e key now later).0 ≡ err x)
  unfolding signed_policy_version policy_control
  controlled_version_is_refused a approvals policy applied now s s' later e key done runs required
        changes controls =
      let c = apply-Controlled crypto a approvals policy applied s s' done in
      let barred : Barred e c.control = elim (Bool-cases (a.action == "POLICY_FREEZE")) [
        | inl freezes ↦ inl (c.freezes ∙ freezes)
        | inr rolls ↦
            (let moved = c.rollback (λ same. ground arith) in
              inr (
                ==_ne c.control.active_policy_sha256 e.policy_sha256 (λ back. moved (back ∙ runs))))
      ] in
      let document = version_of crypto e.signed_policy e key now later in
      if_governed-err crypto document e later required (λ d end_store signed.
        (let (kept, kept_controls) =
            version_of-kept crypto e.signed_policy e key now later d end_store signed in
          asserted-Barred e a.policy_id c.control end_store
            (Governed-kept a.policy_id e.policy_sha256 s end_store (kept ∙ changes)
              (rw runs c.was_governed))
            (rw (kept_controls, controls) c.recorded) barred))
