-- ===== src/Runner/Outcome.antt =====
-- What the three gates let pass.
use automated_software_engin.Prelude.{
  ℕ, zero, suc, ◌+◌, ◌≡◌, refl, sym, ◌∙◌, subst, inl, inr, Bool, true, false, Option, none, some,
  List, Memᴰ, arith, Text, Bool-cases,
}
use automated_software_engin.Errors.{Reply, ok, raise}
use automated_software_engin.Enums.{AgentRole, RunStatus, qa}
use automated_software_engin.Store.{
  AgentRun, EventKind, review_verdict, Db, RunError, SandboxStatus, emit, qa_attempt, sandbox_run,
  security_scan, dependency_scan, tests_failing,
}
use automated_software_engin.Runner.World.{
  Outside, World, SandboxResult, LlmUsage, Session, pure, on_run, apply_usage, fail_run, outside,
  converse, session_of,
}
use automated_software_engin.Runner.Gates.{
  is_failed, run_qa_fix, sandbox, qa_rounds, sandbox_gate, note_qa,
}
use automated_software_engin.Runner.Contracts.{
  kinds, Grows, Grows-keeps, Post, Post-bind, Post-session, converse-Grows,
}

-- A run that ended in failure, with its reason.
pub record HasFailed (db : Db) : Type 0 where
  pub run : AgentRun
  pub found : db.run ≡ some run
  pub at : run.status ≡ RunStatus.failed
  pub stamped : run.finished_at ≡ true
  pub reason : RunError
  pub told : run.error ≡ some reason

pub HasFailed-fail_run :
    (e : RunError) (db : Db) (run : AgentRun) → db.run ≡ some run → HasFailed (fail_run e db)
HasFailed-fail_run e db run found = record {
  run = record run { status = RunStatus.failed; error = some e; finished_at = true };
  found = ground (arith, found);
  at = refl;
  stamped = refl;
  reason = e;
  told = refl;
}

-- The timeline tells of a sandbox run whose tests did not fail.
pub record IsTestedIn (ks : List EventKind) : Type 0 where
  pub attempt : ℕ
  pub status : SandboxStatus
  pub not_failed : is_failed status ≡ false
  pub told : Memᴰ (sandbox_run attempt status) ks

abbrev pub IsTested : Db → Type 0
IsTested db = IsTestedIn (kinds db)

-- ... and of a scan for secrets without findings, and of one for vulnerable dependencies.
abbrev pub IsClean : Db → Type 0
IsClean db = IsTested db × Memᴰ (security_scan 0) (kinds db)

abbrev pub IsSafe : Db → Type 0
IsSafe db = IsClean db × Memᴰ (dependency_scan 0) (kinds db)

-- A run in review, with an approving verdict on its timeline.
pub record Reviewing (db : Db) : Type 0 where
  pub run : AgentRun
  pub found : db.run ≡ some run
  pub at : run.status ≡ RunStatus.reviewing
  pub findings : ℕ
  pub approved : Memᴰ (review_verdict true findings) (kinds db)

-- A further event leaves it so.
pub Reviewing-emit :
    (k : EventKind) (role : Option AgentRole) (db : Db)
    → Reviewing db
    → Reviewing (emit k role none db)
Reviewing-emit k role db s = record {
  run = s.run;
  found = s.found;
  at = s.at;
  findings = s.findings;
  approved = Memᴰ.tail s.approved;
}

Reviewing-Grows : (a b : Db) → Grows a b → Reviewing a → Reviewing b
Reviewing-Grows a b g s = record {
  run = s.run;
  found = g.same_run ∙ s.found;
  at = s.at;
  findings = s.findings;
  approved = Grows-keeps a b g (review_verdict true s.findings) s.approved;
}

-- A gate answers true where the run passed, and false where it has failed the run.
abbrev pub Passed : (Db → Type 0) → Bool → Db → Type 0
Passed P true db = Reviewing db × P db
Passed P false db = HasFailed db

Reviewing-note_qa :
    (attempt : ℕ) (u : LlmUsage) (db : Db) → Reviewing db → Reviewing (note_qa attempt u db)
Reviewing-note_qa attempt u db s =
    Reviewing-emit (qa_attempt attempt) (some qa) (apply_usage u db) (record {
      run = record s.run {
        total_input_tokens = s.run.total_input_tokens + u.input_tokens;
        total_output_tokens = s.run.total_output_tokens + u.output_tokens;
        total_cost_usd = s.run.total_cost_usd + u.cost_usd;
      };
      found = ground (arith, s.found);
      at = s.at;
      findings = s.findings;
      approved = subst (Memᴰ (review_verdict true s.findings)) (same s.found) s.approved;
    })
  where
    same : {run : AgentRun} → db.run ≡ some run → kinds db ≡ kinds (apply_usage u db)
    same found = ground (arith, found)

module _ {E : Type 0} where
  -- The exceptions of a gate leave the run in review, for `_guarded` to fail.
  abbrev pub Open : World E → Type 0
  Open w = Reviewing w.db

  pub Post-on_run :
      (Q : World E → Type 0) (f : Db → Db) (w : World E)
      → Reviewing w.db
      → Q (record w { db = f w.db })
      → Post (λ _. Q) Open (on_run f w)
  Post-on_run Q f w s q = subst (Post (λ _. Q) Open) (sym same) q
    where
      same : on_run f w ≡ (ok tt, record w { db = f w.db })
      same = ground (arith, s.found)

  Post-qa :
      {A : Type 0} (agent : E → Session A × E) (w : World E)
      → Reviewing w.db
      → Post (λ _. Open) Open (session_of qa agent w)
  Post-qa agent w s =
      let after = converse qa none agent w in
      let kept = Reviewing-Grows w.db after.1.db (converse-Grows qa none agent w) s in
      Post-session Open Open after kept kept

  pub Post-outside :
      {A : Type 0} (Q : A → World E → Type 0) (f : E → Reply A × E) (w : World E)
      → ((a : A) (env : E) → Q a (record w { env = env }))
      → Reviewing w.db
      → Post Q Open (outside f w)
  Post-outside Q f w q s = go (f w.env) refl
    where
      go : (r : Reply _ × E) → f w.env ≡ r → Post Q Open (outside f w)
      go (ok a, env) h = rw h (q a env)
      go (raise e, env) h = rw h s

  module _ (out : Outside E) where
    Post-run_qa_fix :
        (output : Text) (attempt : ℕ) (w : World E)
        → Reviewing w.db
        → Post (λ _. Open) Open (run_qa_fix out output attempt w)
    unfolding run_qa_fix
    Post-run_qa_fix output attempt w s =
        Post-bind (λ _. Open) (λ _. Open) Open _ _
          (Post-qa (out.fix_failing_tests output attempt) w s)
          λ (usage, summary) w' s'.
            Post-on_run Open (note_qa attempt usage) w' s'
              (Reviewing-note_qa attempt usage w'.db s')

    -- A sandbox run is on the timeline with its outcome.
    abbrev Ran : SandboxResult → World E → Type 0
    Ran result w = Reviewing w.db × (is_failed result.status ≡ false → IsTested w.db)

    Post-sandbox :
        (attempt : ℕ) (w : World E) → Reviewing w.db → Post Ran Open (sandbox out attempt w)
    unfolding sandbox
    Post-sandbox attempt w s =
        Post-bind (λ _. Open) Ran Open _ _
          (Post-outside (λ _. Open) out.run_sandbox w (λ a env. s) s)
          λ result w' s'. (
            Reviewing-emit (sandbox_run attempt result.status) none w'.db s',
            (λ fine. record {
              attempt = attempt;
              status = result.status;
              not_failed = fine;
              told = Memᴰ.head refl;
            }),
          )

    abbrev pub TestedOr : Bool → World E → Type 0
    TestedOr passed w = Passed IsTested passed w.db

    Post-qa_rounds :
        (left attempt : ℕ) (result : SandboxResult) (w : World E)
        → Reviewing w.db
        → Post TestedOr Open (qa_rounds out left attempt result w)
    unfolding qa_rounds
    Post-qa_rounds zero attempt result w s =
        Post-bind (λ _ w'. HasFailed w'.db) TestedOr Open _ (λ _. pure false)
          (Post-on_run (λ w'. HasFailed w'.db)
            (fail_run (tests_failing out.qa_max_attempts result.reason)) w s
            (HasFailed-fail_run _ w.db s.run s.found))
          (λ _ w' h. h)
    Post-qa_rounds (suc left) attempt result w s =
        Post-bind (λ _. Open) TestedOr Open _ _ (Post-run_qa_fix result.output attempt w s)
          λ _ w' s'.
            Post-bind Ran TestedOr Open _ _ (Post-sandbox attempt w' s') λ again w'' (o, tested).
              elim (Bool-cases (is_failed again.status)) [
                | inl bad ↦ rw bad (Post-qa_rounds left (attempt + 1) again w'' o)
                | inr good ↦ rw good (o, tested good)
              ]

    pub Post-sandbox_gate : (w : World E) → Reviewing w.db → Post TestedOr Open (sandbox_gate out w)
    unfolding sandbox_gate
    Post-sandbox_gate w s =
        Post-bind Ran TestedOr Open _ _ (Post-sandbox 0 w s) λ result w' (o, tested).
          elim (Bool-cases (is_failed result.status)) [
            | inl bad ↦ rw bad (Post-qa_rounds out.qa_max_attempts 1 result w' o)
            | inr good ↦ rw good (o, tested good)
          ]
