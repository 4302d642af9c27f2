-- ===== src/Runner/Completion.antt =====
-- How a run leaves the gates: failed, or published behind a clean record.
use automated_software_engin.Prelude.{
  ℕ, ◌≡◌, refl, subst, ◌⊎◌, inl, inr, Bool, true, false, Option, none, some, Memᴰ, arith, ◌==◌,
  if◌then◌else◌, Text, Bool-cases,
}
use automated_software_engin.Errors.{ok}
use automated_software_engin.Enums.{RunStatus}
use automated_software_engin.Store.{
  AgentRun, EventKind, review_verdict, Db, emit, run_finished, run_status_changed, security_scan,
  dependency_scan, branch_published, secrets_found, vulnerable_dependencies,
}
use automated_software_engin.Runner.World.{Outside, World, Workspace, Repository, Run, pure}
use automated_software_engin.Runner.Gates.{
  if_passed, note_published, sandbox_gate, security_gate, dependency_gate, publish, note_secrets,
  note_vulnerable,
}
use automated_software_engin.Runner.Phases.{gates, complete_run, finish_run}
use automated_software_engin.Runner.Contracts.{kinds, Post, Post-bind}
use automated_software_engin.Runner.Outcome.{
  HasFailed, HasFailed-fail_run, IsTested, IsClean, IsSafe, Reviewing, Reviewing-emit, Passed, Open,
  Post-on_run, Post-outside, Post-sandbox_gate,
}

-- A run that ended well: its timeline tells of an approving verdict, of tests that did not fail
-- and of two scans without findings.
pub record HasCompleted (db : Db) : Type 0 where
  pub run : AgentRun
  pub found : db.run ≡ some run
  pub at : run.status ≡ RunStatus.completed
  pub stamped : run.finished_at ≡ true
  pub findings : ℕ
  pub approved : Memᴰ (review_verdict true findings) (kinds db)
  pub safe : IsSafe db

abbrev pub HasEnded : Db → Type 0
HasEnded db = HasFailed db ⊎ HasCompleted db

IsSafe-emit : (k : EventKind) (db : Db) → IsSafe db → IsSafe (emit k none none db)
IsSafe-emit k db ((t, scanned), checked) = (
  (
    record {
      attempt = t.attempt;
      status = t.status;
      not_failed = t.not_failed;
      told = Memᴰ.tail t.told;
    },
    Memᴰ.tail scanned,
  ),
  Memᴰ.tail checked,
)

module _ {E : Type 0} (out : Outside E) where
  Post-security_gate :
      (ws : Workspace) (w : World E)
      → Reviewing w.db
      → IsTested w.db
      → Post (λ passed w'. Passed IsClean passed w'.db) Open (security_gate out ws w)
  unfolding security_gate
  Post-security_gate ws w s t =
      Post-bind (λ _ w'. Reviewing w'.db × IsTested w'.db) _ Open _ _
        (Post-outside (λ _ w'. Reviewing w'.db × IsTested w'.db) (out.diff ws.base_sha) w
          (λ a env. (s, t)) s)
        λ diff w' (s', t').
          Post-bind (λ _ w''. Passed IsClean (out.scan_secrets diff == 0) w''.db)
            (λ passed w''. Passed IsClean passed w''.db) Open _
            (λ _. pure (out.scan_secrets diff == 0))
            (Post-on_run (λ w''. Passed IsClean (out.scan_secrets diff == 0) w''.db)
              (note_secrets (out.scan_secrets diff)) w' s'
              (noted (out.scan_secrets diff) w'.db s' t'))
            (λ _ w'' h. h)
    where
      noted :
          (found : ℕ) (db : Db)
          → Reviewing db
          → IsTested db
          → Passed IsClean (found == 0) (note_secrets found db)
      noted found db r k = elim (Bool-cases (found == 0)) [
        | inl none_found ↦ rw none_found (
          Reviewing-emit (security_scan found) none db r,
          (
            record {
              attempt = k.attempt;
              status = k.status;
              not_failed = k.not_failed;
              told = Memᴰ.tail k.told;
            },
            Memᴰ.head (ground arith),
          ),
        )
        | inr some_found ↦ rw some_found (HasFailed-fail_run (secrets_found found) _ r.run r.found)
      ]

  Post-dependency_gate :
      (ws : Workspace) (w : World E)
      → Reviewing w.db
      → IsClean w.db
      → Post (λ passed w'. Passed IsSafe passed w'.db) Open (dependency_gate out ws w)
  unfolding dependency_gate
  Post-dependency_gate ws w s t =
      Post-bind (λ _ w'. Reviewing w'.db × IsClean w'.db) _ Open _ _
        (Post-outside (λ _ w'. Reviewing w'.db × IsClean w'.db) (out.diff ws.base_sha) w
          (λ a env. (s, t)) s)
        λ diff w' (s', t').
          Post-bind (λ _ w''. Passed IsSafe (out.scan_dependencies diff == 0) w''.db)
            (λ passed w''. Passed IsSafe passed w''.db) Open _
            (λ _. pure (out.scan_dependencies diff == 0))
            (Post-on_run (λ w''. Passed IsSafe (out.scan_dependencies diff == 0) w''.db)
              (note_vulnerable (out.scan_dependencies diff)) w' s'
              (noted (out.scan_dependencies diff) w'.db s' t'))
            (λ _ w'' h. h)
    where
      noted :
          (found : ℕ) (db : Db)
          → Reviewing db
          → IsClean db
          → Passed IsSafe (found == 0) (note_vulnerable found db)
      noted found db r (k, scanned) = elim (Bool-cases (found == 0)) [
        | inl none_found ↦ rw none_found (
          Reviewing-emit (dependency_scan found) none db r,
          (
            (
              record {
                attempt = k.attempt;
                status = k.status;
                not_failed = k.not_failed;
                told = Memᴰ.tail k.told;
              },
              Memᴰ.tail scanned,
            ),
            Memᴰ.head (ground arith),
          ),
        )
        | inr some_found ↦
            rw some_found (HasFailed-fail_run (vulnerable_dependencies found) _ r.run r.found)
      ]

  Post-note_published :
      (pushed : Option (Option Text)) (w : World E)
      → Reviewing w.db
      → IsSafe w.db
      → Post (λ _ v. Reviewing v.db × IsSafe v.db) Open (note_published pushed w)
  Post-note_published none w s safe = (s, safe)
  Post-note_published (some pr_url) w s safe =
      (Reviewing-emit branch_published none w.db s, IsSafe-emit branch_published w.db safe)

  HasCompleted-complete_run :
      (pr_url : Option Text) (db : Db)
      → Reviewing db
      → IsSafe db
      → HasCompleted (complete_run out pr_url db)
  HasCompleted-complete_run pr_url db s safe = subst HasCompleted same (record {
    run = ended;
    found = refl;
    at = refl;
    stamped = refl;
    findings = s.findings;
    approved = Memᴰ.tail (Memᴰ.tail s.approved);
    safe =
        IsSafe-emit (run_finished RunStatus.completed s.run.error) changed
          (IsSafe-emit (run_status_changed s.run.status RunStatus.completed) db safe);
  })
    where
      ended : AgentRun
      ended = record s.run { pr_url = pr_url; status = RunStatus.completed; finished_at = true }

      changed : Db
      changed = record (emit (run_status_changed s.run.status RunStatus.completed) none none db) {
        run = some ended;
      }

      same :
          emit (run_finished RunStatus.completed s.run.error) none none changed
          ≡ complete_run out pr_url db
      same = ground (arith, s.found)

  Post-finish_run :
      (repo : Repository) (w : World E)
      → Reviewing w.db
      → IsSafe w.db
      → Post (λ _ v. HasEnded v.db) Open (finish_run out repo w)
  unfolding finish_run publish
  Post-finish_run repo w s safe =
      Post-bind (λ _ v. Reviewing v.db × IsSafe v.db) (λ _ v. HasEnded v.db) Open _ _
        (Post-bind (λ _ v. Reviewing v.db × IsSafe v.db) (λ _ v. Reviewing v.db × IsSafe v.db) Open
          _ _
          (Post-outside (λ _ v. Reviewing v.db × IsSafe v.db) (out.pushed repo) w
            (λ a env. (s, safe)) s)
          (λ pushed w' (s', safe'). Post-note_published pushed w' s' safe'))
        λ pr_url w' (s', safe').
          Post-on_run (λ v. HasEnded v.db) (complete_run out pr_url) w' s'
            (inr (HasCompleted-complete_run pr_url w'.db s' safe'))

  Post-if_passed :
      (P : Db → Type 0) (gate : Run E Bool) (next : Run E (Unit {0})) (w : World E)
      → Post (λ passed v. Passed P passed v.db) Open (gate w)
      → ((v : World E) → Reviewing v.db → P v.db → Post (λ _ u. HasEnded u.db) Open (next v))
      → Post (λ _ v. HasEnded v.db) Open (if_passed gate next w)
  Post-if_passed P gate next w h k =
      Post-bind (λ passed v. Passed P passed v.db) (λ _ v. HasEnded v.db) Open (gate w)
        (λ passed v. let rest = next v in if passed then rest else (ok tt, v)) h split
    where
      split :
          (passed : Bool) (v : World E)
          → Passed P passed v.db
          → Post (λ _ u. HasEnded u.db) Open (if passed then next v else (ok tt, v))
      split true v (s, p) = k v s p
      split false v f = inl f

  -- From a run in review with an approving verdict, the gates end it, or an exception leaves it in
  -- review: it has failed with its reason, or it is completed, and then its timeline tells of that
  -- verdict, of a sandbox run whose tests did not fail, and of scans for secrets and for vulnerable
  -- dependencies without findings.
  pub gates-HasEnded :
      (ws : Workspace) (repo : Repository) (w : World E)
      → Reviewing w.db
      → Post (λ _ v. HasEnded v.db) Open (gates out ws repo w)
  unfolding gates
  gates-HasEnded ws repo w s =
      Post-if_passed IsTested (sandbox_gate out) _ w (Post-sandbox_gate out w s) λ v r tested.
        Post-if_passed IsClean (security_gate out ws) _ v (Post-security_gate ws v r tested)
          λ u q clean.
            Post-if_passed IsSafe (dependency_gate out ws) (finish_run out repo) u
              (Post-dependency_gate ws u q clean) (Post-finish_run repo)
