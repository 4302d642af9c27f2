-- ===== src/Runner/Gates.antt =====
-- The review, the gates before the pull request, and its publication: `_review`, `_sandbox_gate`,
-- `_run_qa_fix`, `_security_gate`, `_dependency_gate` and `_publish` of
-- apps/engine/src/engine/agents/runner.py.
use automated_software_engin.Prelude.{
  ℕ, zero, suc, ◌+◌, Bool, true, false, Option, none, some, List, ◌==◌, if◌then◌else◌, Text, length,
}
use automated_software_engin.Errors.{ok}
use automated_software_engin.Enums.{AgentRole, reviewer, qa}
use automated_software_engin.Store.{
  Db, tests_failing, secrets_found, vulnerable_dependencies, SandboxStatus, failed, emit,
  review_verdict, review_revision, sandbox_run, qa_attempt, security_scan, dependency_scan,
  branch_published,
}
use automated_software_engin.Runner.World.{
  and_then, LlmUsage, Outside, Workspace, Repository, Verdict, SandboxResult, Run, pure, ◌>>=◌,
  ◌>>◌, on_run, outside, session_of, apply_usage, fail_run,
}

abbrev pub is_failed : SandboxStatus → Bool
is_failed failed = true
is_failed _ = false

-- The blocks that record the outcome of a gate's step.
abbrev pub note_verdict : Verdict → LlmUsage → Db → Db
note_verdict verdict usage db =
    emit (review_verdict verdict.approve (length verdict.findings)) (some reviewer) none
      (apply_usage usage db)

abbrev pub note_revision : AgentRole → ℕ → LlmUsage → Db → Db
note_revision role findings usage db =
    emit (review_revision findings) (some role) none (apply_usage usage db)

abbrev pub note_qa : ℕ → LlmUsage → Db → Db
note_qa attempt usage db = emit (qa_attempt attempt) (some qa) none (apply_usage usage db)

abbrev pub note_secrets : ℕ → Db → Db
note_secrets found db =
    let db' = emit (security_scan found) none none db in
    if found == 0 then db' else fail_run (secrets_found found) db'

abbrev pub note_vulnerable : ℕ → Db → Db
note_vulnerable found db =
    let db' = emit (dependency_scan found) none none db in
    if found == 0 then db' else fail_run (vulnerable_dependencies found) db'

abbrev pub note_sandbox : {E : Type 0} → ℕ → SandboxStatus → Run E (Unit {0})
note_sandbox attempt status w =
    (ok tt, record w { db = emit (sandbox_run attempt status) none none w.db })

-- The event of a branch that was pushed.
abbrev pub note_published : {E : Type 0} → Option (Option Text) → Run E (Option Text)
note_published none w = (ok none, w)
note_published (some pr_url) w = (ok pr_url, record w { db = emit branch_published none none w.db })

-- `if not await gate(…): return`
abbrev pub if_passed : {E : Type 0} → Run E Bool → Run E (Unit {0}) → Run E (Unit {0})
if_passed gate next w =
    and_then (gate w) (λ passed w'. let rest = next w' in if passed then rest else (ok tt, w'))

module _ {E : Type 0} (out : Outside E) where
  -- `_review`
  unfoldable pub review : Text → Run E Verdict
  review request = do
    (usage, verdict) ← session_of reviewer (out.review_run request)
    on_run (note_verdict verdict usage)
    pure verdict

  -- One role's turn in the revision round.
  unfoldable pub revise : Text → AgentRole → List Text → Run E (Unit {0})
  revise request role issues = do
    (usage, summary) ← session_of role (out.execute_revision role issues request)
    on_run (note_revision role (length issues) usage)

  -- `_run_qa_fix`
  unfoldable pub run_qa_fix : Text → ℕ → Run E (Unit {0})
  run_qa_fix failure_output attempt = do
    (usage, summary) ← session_of qa (out.fix_failing_tests failure_output attempt)
    on_run (note_qa attempt usage)

  -- One sandbox run with its event (`_emit_sandbox_run`, which loads no row).
  unfoldable pub sandbox : ℕ → Run E SandboxResult
  sandbox attempt = do
    result ← outside out.run_sandbox
    note_sandbox attempt result.status
    pure result

  -- The `for` of `_sandbox_gate`: `left` attempts are left, and `attempt` is the next.
  unfoldable pub qa_rounds : (left attempt : ℕ) → SandboxResult → Run E Bool
  unfolding sandbox run_qa_fix
  qa_rounds zero attempt result = do
    on_run (fail_run (tests_failing out.qa_max_attempts result.reason))
    pure false
  qa_rounds (suc left) attempt result = do
    run_qa_fix result.output attempt
    again ← sandbox attempt
    (λ w.
        let rest = qa_rounds left (attempt + 1) again w in
        if is_failed again.status then rest else (ok true, w))

  -- `_sandbox_gate`
  unfoldable pub sandbox_gate : Run E Bool
  unfolding qa_rounds
  sandbox_gate = do
    result ← sandbox 0
    if is_failed result.status then qa_rounds out.qa_max_attempts 1 result else pure true

  -- `_security_gate`
  unfoldable pub security_gate : Workspace → Run E Bool
  security_gate ws = do
    diff ← outside (out.diff ws.base_sha)
    let found = out.scan_secrets diff
    on_run (note_secrets found)
    pure (found == 0)

  -- `_dependency_gate`
  unfoldable pub dependency_gate : Workspace → Run E Bool
  dependency_gate ws = do
    diff ← outside (out.diff ws.base_sha)
    let found = out.scan_dependencies diff
    on_run (note_vulnerable found)
    pure (found == 0)

  -- `_publish`
  unfoldable pub publish : Repository → Run E (Option Text)
  publish repo = do pushed ← outside (out.pushed repo); note_published pushed
