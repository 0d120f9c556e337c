-- ===== src/PolicyVersions/Decided.antt =====
-- What a control of core/policy_version.py decides, and how its row is stored.
use verigate.Base.{
  inl, inr, [], ◌∷◌, none, some, false, ok, ◌≡◌, ◌==◌, string_eq, nat_eq, option_eq, arith,
  Bool-cases, ok-of_bind, ok-of_guard, ok-injective, ◌∙◌, sym, ap, first_row, String, Option, List,
  not, Bool,
}
use verigate.Storage.{Storage, ChangeRow, ControlRow}
use verigate.Storage.Policies.{governed_policy_change_by_sha, policy_control, set_control}
use verigate.PolicyVersions.Control.{
  PolicyControlGovernanceAction, active_sha, is_frozen, decide_control, control_outcome, roll_back,
  target_change, or_refused,
}

-- A governed version of the policy.
pub record Governed (policy_id sha : String) (s : Storage) : Type 0 where
  pub change : ChangeRow
  pub found : governed_policy_change_by_sha sha s ≡ some change
  pub of_policy : change.signed_policy.payload.policy_id ≡ policy_id

found_change :
    (o : Option ChangeRow) (reason : String) (row : ChangeRow)
    → or_refused o reason ≡ ok row
    → o ≡ some row
found_change none reason row h = cc
found_change (some other) reason row h = cc

sha_of_found :
    (sha : String) (rows : List ChangeRow) (row : ChangeRow)
    → first_row (λ (r : ChangeRow). r.policy_sha256 == sha) rows ≡ some row
    → row.policy_sha256 ≡ sha
sha_of_found sha [] row h = cc
sha_of_found sha (r ∷ rows) row h = elim (Bool-cases (r.policy_sha256 == sha)) [
  | inl same ↦ ground arith
  | inr other ↦ sha_of_found sha rows row (ground arith)
]

target_found :
    (target : Option String) (s : Storage) (row : ChangeRow)
    → target_change target s ≡ some row
    → (target ≡ some row.policy_sha256)
      × (governed_policy_change_by_sha row.policy_sha256 s ≡ some row)
unfolding target_change governed_policy_change_by_sha
target_found none s row h = cc
target_found (some sha) s row h =
    let same = sha_of_found sha s.governed_policy_changes row h in
    (ap some (sym same), ap (λ x. governed_policy_change_by_sha x s) same ∙ h)

-- Where a rollback leads.
roll_back-Governed :
    (a : PolicyControlGovernanceAction) (s : Storage) (active : String)
    → roll_back a s ≡ ok active
    → Governed a.policy_id active s
      × (a.target_policy_sha256 ≡ some active)
      × ¬ (active ≡ a.current_policy_sha256)
unfolding roll_back
roll_back-Governed a s active h =
    let (row, found, h1) =
      ok-of_bind
        (or_refused (target_change a.target_policy_sha256 s) "rollback target is not governed") _
        h in
    let (same, h2) =
      ok-of_guard (not (row.signed_policy.payload.policy_id == a.policy_id)) _ _ h1 in
    let (version, h3) =
      ok-of_guard (not (a.target_version == some row.signed_policy.payload.version)) _ _ h2 in
    let (differs, h4) =
      ok-of_guard (a.target_policy_sha256 == some a.current_policy_sha256) _ _ h3 in
    let (target, governed) = target_found a.target_policy_sha256 s row (
      found_change (target_change a.target_policy_sha256 s) "rollback target is not governed" row
        found) in
    let is_active : row.policy_sha256 ≡ active = ok-injective h4 in
    (
      record { change = row; found = rw (sym is_active) governed; of_policy = ground arith },
      target ∙ ap some is_active,
      λ back.
          (let same_target : a.target_policy_sha256 ≡ some a.current_policy_sha256 =
              target ∙ ap some (is_active ∙ back) in
            ground arith),
    )

pub set_control-own :
    (new : ControlRow) (rows : List ControlRow)
    → first_row (λ (row : ControlRow). row.policy_id == new.policy_id) (set_control new rows)
      ≡ some new
set_control-own new [] = ground arith
set_control-own new (row ∷ rows) = ground (arith, set_control-own new rows)

pub set_control-other :
    (new : ControlRow) (policy_id : String) (rows : List ControlRow)
    → (new.policy_id == policy_id) ≡ false
    → first_row (λ (row : ControlRow). row.policy_id == policy_id) (set_control new rows)
      ≡ first_row (λ (row : ControlRow). row.policy_id == policy_id) rows
set_control-other new policy_id [] other = ground arith
set_control-other new policy_id (row ∷ rows) other =
    ground (arith, set_control-other new policy_id rows)

-- What a control that succeeds has decided.
pub record Decided (a : PolicyControlGovernanceAction) (active : String) (frozen : Bool)
    (s : Storage) : Type 0 where
  pub was_governed : Governed a.policy_id a.current_policy_sha256 s
  pub governed : Governed a.policy_id active s
  pub current :
      active_sha a.current_policy_sha256 (policy_control a.policy_id s) ≡ a.current_policy_sha256
  pub freezes : frozen ≡ (a.action == "POLICY_FREEZE")
  pub freeze :
      a.action ≡ "POLICY_FREEZE"
      → (active ≡ a.current_policy_sha256) × (is_frozen (policy_control a.policy_id s) ≡ false)
  pub rollback : ¬ (a.action ≡ "POLICY_FREEZE") → ¬ (active ≡ a.current_policy_sha256)

pub decide_control-Decided :
    (a : PolicyControlGovernanceAction) (s : Storage) (active : String) (frozen : Bool)
    → decide_control a s ≡ ok (active, frozen)
    → Decided a active frozen s
unfolding decide_control control_outcome
decide_control-Decided a s active frozen h =
    let reason : String = "current policy is not governed" in
    let (row, found, h1) =
      ok-of_bind (or_refused (governed_policy_change_by_sha a.current_policy_sha256 s) reason) _
        h in
    let (same, h2) =
      ok-of_guard (not (row.signed_policy.payload.policy_id == a.policy_id)) _ _ h1 in
    let control = policy_control a.policy_id s in
    let (fresh, h3) =
      ok-of_guard (not (active_sha a.current_policy_sha256 control == a.current_policy_sha256)) _ _
        h2 in
    let own : Governed a.policy_id a.current_policy_sha256 s = record {
      change = row;
      found =
          found_change (governed_policy_change_by_sha a.current_policy_sha256 s) reason row found;
      of_policy = ground arith;
    } in
    elim (Bool-cases (a.action == "POLICY_FREEZE")) [
      | inl freezes ↦
          (let h4 = rw freezes at h3 in
            let (thawed, h5) = ok-of_guard (is_frozen control) _ _ h4 in
            let is_active : a.current_policy_sha256 ≡ active = ap (λ r. r.0) (ok-injective h5) in
            record {
              was_governed = own;
              governed = rw (sym is_active) own;
              current = ground arith;
              freezes = sym (ap (λ r. r.1) (ok-injective h5)) ∙ sym freezes;
              freeze = λ e. (sym is_active, thawed);
              rollback = λ n. absurd (n (ground arith));
            })
      | inr rolls ↦
          (let h4 = rw rolls at h3 in
            let (target, back, h5) = ok-of_bind (roll_back a s) _ h4 in
            let is_active : target ≡ active = ap (λ r. r.0) (ok-injective h5) in
            let (governed, named, differs) =
              roll_back-Governed a s active (back ∙ ap ok is_active) in
            record {
              was_governed = own;
              governed = governed;
              current = ground arith;
              freezes = sym (ap (λ r. r.1) (ok-injective h5)) ∙ sym rolls;
              freeze = λ e. (ground arith, ground arith);
              rollback = λ n. differs;
            })
    ]
