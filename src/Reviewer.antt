-- ===== src/Reviewer.antt =====
-- `validate_verdict` of apps/engine/src/engine/agents/reviewer.py.
use automated_software_engin.Prelude.{
  ℕ, ◌+◌, ◌≡◌, refl, Bool, true, false, not, ◌&&◌, Option, none, some, List, [], ◌∷◌, arith, length,
  ◌≤◌, inl, inr, All, if◌then◌else◌, Text, codes, text_eq, is_empty, Option-cases, Bool-cases,
}
use automated_software_engin.Answers.{
  Json, null, bool, int, other_number, str, list, object, Fields, get_field, list_or_empty,
  RoleTest, engineer, no_engineer, unhashable, role_test, Checked, valid, refused, type_error,
  role_test-engineer,
}
use automated_software_engin.ProductManager.{title_of}
use automated_software_engin.Registry.{is_engineer}
use automated_software_engin.Runner.World.{Finding, Verdict}

-- The messages of ReviewError, as the values that they print.
pub data ReviewError : Type 0 where
  bad_decision bad_findings no_findings : ReviewError
  not_an_object needs_issue bad_role : (number : ℕ) → ReviewError

-- `decision not in (APPROVE, REQUEST_CHANGES)`, and which of the two it is.
abbrev pub decision_of : Json → Option Bool
decision_of (str s) =
    if text_eq s (codes "approve")
    then some true
    else if text_eq s (codes "request_changes")
    then some false
    else none
decision_of _ = none

abbrev check_finding_role : ℕ → Text → RoleTest → Checked ReviewError Finding
check_finding_role number issue (engineer role) = valid (record { role = role; issue = issue })
check_finding_role number issue no_engineer = refused (bad_role number)
check_finding_role number issue unhashable = type_error

-- One round of the loop.
unfoldable pub check_finding : ℕ → Json → Checked ReviewError Finding
check_finding number (object finding) =
    let issue = title_of (get_field "issue" finding) in
    if is_empty issue
    then refused (needs_issue number)
    else check_finding_role number issue (role_test (get_field "role" finding))
check_finding number _ = refused (not_an_object number)

pub check_findings : ℕ → List Json → Checked ReviewError (List Finding)
unfolding check_finding
check_findings number [] = valid []
check_findings number (j ∷ js) = elim (check_finding number j) [
  | refused e ↦ refused e
  | type_error ↦ type_error
  | valid f ↦ elim (check_findings (number + 1) js) [
    | refused e ↦ refused e
    | type_error ↦ type_error
    | valid fs ↦ valid (f ∷ fs)
  ]
]

check_decision : Bool → List Json → Checked ReviewError Verdict
unfolding check_findings
check_decision approve findings =
    if not approve && is_empty findings
    then refused no_findings
    else elim (check_findings 1 findings) [
      | refused e ↦ refused e
      | type_error ↦ type_error
      | valid fs ↦ valid (record { approve = approve; findings = fs })
    ]

-- `validate_verdict`
unfoldable pub validate_verdict : Fields → Checked ReviewError Verdict
unfolding check_decision
validate_verdict verdict = elim (decision_of (get_field "verdict" verdict)) [
  | none ↦ refused bad_decision
  | some approve ↦ elim (list_or_empty (get_field "findings" verdict)) [
    | none ↦ refused bad_findings
    | some findings ↦ check_decision approve findings
  ]
]

-- A verdict that the runner can act on.
pub record IsVerdict (v : Verdict) : Type 0 where
  pub actionable : v.approve ≡ false → 1 ≤ length v.findings
  pub findings : All (λ f. (is_engineer f.role ≡ true) × (1 ≤ length f.issue)) v.findings

check_finding_role_sound :
    (number : ℕ) (issue : Text) (j : Json) (f : Finding)
    → 1 ≤ length issue
    → check_finding_role number issue (role_test j) ≡ valid f
    → (is_engineer f.role ≡ true) × (1 ≤ length f.issue)
check_finding_role_sound number issue j f n e = go (role_test j) refl
  where
    go : (r : RoleTest) → role_test j ≡ r → (is_engineer f.role ≡ true) × (1 ≤ length f.issue)
    go (engineer role) h = let known = role_test-engineer j role h in ground (arith, known, n, e, h)
    go no_engineer h = absurd (ground (arith, e, h))
    go unhashable h = absurd (ground (arith, e, h))

check_finding_sound :
    (number : ℕ) (j : Json) (f : Finding)
    → check_finding number j ≡ valid f
    → (is_engineer f.role ≡ true) × (1 ≤ length f.issue)
unfolding check_finding
check_finding_sound number (object finding) f e =
    let issue = title_of (get_field "issue" finding) in
    elim (Bool-cases (is_empty issue)) [
      | inl h ↦ absurd (ground arith)
      | inr h ↦
          check_finding_role_sound number issue (get_field "role" finding) f (ground arith)
            (ground arith)
    ]
check_finding_sound number null f e = cc
check_finding_sound number (bool _) f e = cc
check_finding_sound number (int _) f e = cc
check_finding_sound number other_number f e = cc
check_finding_sound number (str _) f e = cc
check_finding_sound number (list _) f e = cc

check_findings_sound :
    (number : ℕ) (js : List Json) (fs : List Finding)
    → check_findings number js ≡ valid fs
    → All (λ f. (is_engineer f.role ≡ true) × (1 ≤ length f.issue)) fs × (length fs ≡ length js)
unfolding check_findings
check_findings_sound number [] [] e = (tt, refl)
check_findings_sound number [] (f ∷ fs) e = cc
check_findings_sound number (j ∷ js) [] e = absurd (ground arith)
check_findings_sound number (j ∷ js) (f ∷ fs) e =
    let (rest, same) = check_findings_sound (number + 1) js fs (ground arith) in
    ((check_finding_sound number j f (ground arith), rest), omega (arith, same))

check_decision-IsVerdict :
    (approve : Bool) (js : List Json) (v : Verdict)
    → check_decision approve js ≡ valid v
    → IsVerdict v
unfolding check_decision
check_decision-IsVerdict approve js v e =
    let (all, long) = check_findings_sound 1 js v.findings parts.0 in
    record { actionable = λ h. omega (arith, long, parts.1 h); findings = all }
  where
    parts : (check_findings 1 js ≡ valid v.findings) × (v.approve ≡ false → 1 ≤ length js)
    parts = ground arith

-- A verdict that the check accepts is one that the runner can act on: each finding names an issue
-- and an engineer's role, and a request for changes has at least one finding.
pub validate_verdict-IsVerdict :
    (payload : Fields) (v : Verdict) → validate_verdict payload ≡ valid v → IsVerdict v
unfolding validate_verdict
validate_verdict-IsVerdict payload v e =
    elim (Option-cases (decision_of (get_field "verdict" payload))) [
      | inl h ↦ absurd (ground arith)
      | inr (approve, h) ↦ elim (Option-cases (list_or_empty (get_field "findings" payload))) [
        | inl k ↦ absurd (ground arith)
        | inr (js, k) ↦ check_decision-IsVerdict approve js v (ground arith)
      ]
    ]
