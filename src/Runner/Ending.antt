-- ===== src/Runner/Ending.antt =====
-- How the execution phase ends: every exception, and every way through it, ends the run.
use automated_software_engin.Prelude.{
  ℕ, ◌≡◌, refl, ◌∙◌, subst, inl, inr, Bool, true, false, Option, none, some, List, [], ◌∷◌, arith,
  Option-cases, if◌then◌else◌,
}
use automated_software_engin.Errors.{Exc, assertion_error, Reply, ok, raise}
use automated_software_engin.Enums.{RunStatus, is_executing}
use automated_software_engin.Store.{AgentRun, Db, crash, task_failure}
use automated_software_engin.Supervisor.{TaskState, SupervisorState, Failure}
use automated_software_engin.Runner.World.{
  Outside, World, Workspace, Repository, Run, pure, outside, fail_run,
}
use automated_software_engin.Runner.Phases.{
  or_empty, sync_task, sync_board, board_result, sync_run, repository_of, execute_run,
  execute_phase, guarded, execute_tasks, review_phase,
}
use automated_software_engin.Runner.Contracts.{IsAlive, Post, Post-bind}
use automated_software_engin.Runner.Outcome.{HasFailed, HasFailed-fail_run}
use automated_software_engin.Runner.Completion.{HasEnded}
use automated_software_engin.Runner.Review.{InReview, Post-wider, review_phase-HasEnded}
use automated_software_engin.Runner.Supervise.{Post-supervise}

module _ {E : Type 0} (out : Outside E) where
  abbrev Alive : World E → Type 0
  Alive w = IsAlive w.db

  sync_task-run : (t : TaskState) (db db' : Db) → sync_task out t db ≡ ok db' → db'.run ≡ db.run
  sync_task-run t db db' e = ground (arith, e)

  sync_board-run :
      (ts : List TaskState) (db db' : Db) → sync_board out ts db ≡ ok db' → db'.run ≡ db.run
  sync_board-run [] db db' e = ground arith
  sync_board-run (t ∷ ts) db db' e = go (λ d. sync_board-run ts d db') (sync_task out t db) refl
    where
      go :
          ((d : Db) → sync_board out ts d ≡ ok db' → db'.run ≡ d.run)
          → (r : Reply Db) → sync_task out t db ≡ r
          → db'.run ≡ db.run
      go later (raise x) h = absurd (ground (arith, h, e))
      go later (ok d) h = later d (ground (arith, h, e)) ∙ sync_task-run t db d h

  -- The board is clean and the run in review, or the run has failed.
  abbrev Synced : Bool → World E → Type 0
  Synced true w = InReview w.db
  Synced false w = HasFailed w.db

  Synced-board_result :
      (f : Option Failure) (w : World E) (db : Db) (run : AgentRun)
      → db.run ≡ some run
      → Synced (elim f [ none ↦ true | some _ ↦ false ]) (record w { db = board_result out f db })
  Synced-board_result none w db run h = record {
    run = record run { status = RunStatus.reviewing };
    found = ground (arith, h);
    at = refl;
  }
  Synced-board_result (some f) w db run h = HasFailed-fail_run (task_failure f) db run h

  Post-sync_run :
      (final : SupervisorState) (w : World E) → Alive w → Post Synced Alive (sync_run out final w)
  Post-sync_run final w s = go (sync_board out final.tasks w.db) refl
    where
      stopped :
          (e : Exc)
          → sync_board out final.tasks w.db ≡ raise e
          → (raise e, w) ≡ sync_run out final w
      stopped e h = ground (arith, s.found, h)

      synced :
          (db : Db)
          → sync_board out final.tasks w.db ≡ ok db
          → (
            ok (elim final.failure as (λ _. Bool) [ none ↦ true | some _ ↦ false ]),
            record w { db = board_result out final.failure db },
          )
            ≡ sync_run out final w
      synced db h = ground (arith, s.found, h)

      go :
          (r : Reply Db)
          → sync_board out final.tasks w.db ≡ r
          → Post Synced Alive (sync_run out final w)
      go (raise e) h = subst (Post Synced Alive) (stopped e h) s
      go (ok db) h = subst (Post Synced Alive) (synced db h) (
          Synced-board_result final.failure w db s.run
            (sync_board-run final.tasks w.db db h ∙ s.found))

  Post-repository_of :
      (run : AgentRun) (w : World E) → Alive w → Post (λ _. Alive) Alive (repository_of out run w)
  Post-repository_of run w s = go run.repository_id refl
    where
      nowhere : run.repository_id ≡ none → (raise assertion_error, w) ≡ repository_of out run w
      nowhere h = ground (arith, h)

      missing :
          (i : ℕ)
          → run.repository_id ≡ some i
          → out.repository i w.env ≡ none
          → (raise assertion_error, w) ≡ repository_of out run w
      missing i h k = ground (arith, h, k)

      there :
          (i : ℕ) (repo : Repository)
          → run.repository_id ≡ some i
          → out.repository i w.env ≡ some repo
          → (ok (i, repo), w) ≡ repository_of out run w
      there i repo h k = ground (arith, h, k)

      go :
          (o : Option ℕ) → run.repository_id ≡ o → Post (λ _. Alive) Alive (repository_of out run w)
      go none h = subst (Post (λ _. Alive) Alive) (nowhere h) s
      go (some i) h = elim (Option-cases (out.repository i w.env)) [
        | inl k ↦ subst (Post (λ _. Alive) Alive) (missing i h k) s
        | inr (repo, k) ↦ subst (Post (λ _. Alive) Alive) (there i repo h k) s
      ]

  Post-load :
      {A : Type 0} (f : E → Reply A × E) (w : World E)
      → Alive w
      → Post (λ _. Alive) Alive (outside f w)
  Post-load f w s = go (f w.env) refl
    where
      go : (r : Reply _ × E) → f w.env ≡ r → Post (λ _. Alive) Alive (outside f w)
      go (ok a, env) h = rw h s
      go (raise e, env) h = rw h s

  Post-execute_run :
      (run : AgentRun) (w : World E)
      → Alive w
      → Post (λ _ v. HasEnded v.db) Alive (execute_run out run w)
  unfolding execute_run
  Post-execute_run run w s =
      Post-bind (λ _. Alive) (λ _ v. HasEnded v.db) Alive _ _ (Post-repository_of run w s)
        λ (i, repo) w' s'.
          Post-bind (λ _. Alive) (λ _ v. HasEnded v.db) Alive _ _
            (Post-load
              (out.load_workspace (or_empty out run.branch_name) (or_empty out run.base_sha)) w' s')
            λ ws u a.
              Post-bind (λ _. Alive) (λ _ v. HasEnded v.db) Alive _ _
                (Post-supervise out run.request u a)
                λ final w'' s''.
                  Post-bind Synced (λ _ v. HasEnded v.db) Alive _ _ (Post-sync_run final w'' s'')
                    λ clean v h. after ws clean repo v h
    where
      after :
          (ws : Workspace) (clean : Bool) (repo : Repository) (v : World E)
          → Synced clean v
          → Post
              (λ _ u. HasEnded u.db)
              Alive
              ((if clean then review_phase out run.request ws repo else pure tt) v)
      after ws false repo v h = inl h
      after ws true repo v h =
          Post-wider (λ _ u. HasEnded u.db) (λ u. InReview u.db) Alive
            (review_phase out run.request ws repo v)
            (λ u o. record { run = o.run; found = o.found })
            (review_phase-HasEnded out run.request ws repo v h)

  guarded-HasEnded :
      (work : Run E (Unit {0})) (w : World E)
      → Post (λ _ v. HasEnded v.db) Alive (work w)
      → HasEnded (guarded out work w).db
  guarded-HasEnded work w h = go (work w) refl h
    where
      failed :
          (x : Exc) (v : World E)
          → work w ≡ (raise x, v)
          → record v { db = fail_run (crash x) v.db } ≡ guarded out work w
      failed x v e = ground (arith, e)

      passed : (a : Unit {0}) (v : World E) → work w ≡ (ok a, v) → v ≡ guarded out work w
      passed a v e = ground (arith, e)

      go :
          (r : Reply (Unit {0}) × World E)
          → work w ≡ r
          → Post (λ _ v. HasEnded v.db) Alive r
          → HasEnded (guarded out work w).db
      go (ok a, v) e p = subst (λ (u : World E). HasEnded u.db) (passed a v e) p
      go (raise x, v) e p =
          subst (λ (u : World E). HasEnded u.db) (failed x v e)
            (inl (HasFailed-fail_run (crash x) v.db p.run p.found))

  -- Executing an approved run always ends it, whatever the model, the tools, the tests and the
  -- hosts do, raising included: it has failed with its reason, or it is completed, and then its
  -- timeline tells of an approving verdict, of a sandbox run whose tests did not fail, and of scans
  -- for secrets and for vulnerable dependencies without findings.
  pub execute_tasks-HasEnded :
      (w : World E) (run : AgentRun)
      → w.db.run ≡ some run
      → is_executing run.status ≡ true
      → HasEnded (execute_tasks out w).db
  unfolding execute_tasks execute_phase
  execute_tasks-HasEnded w run found executing = guarded-HasEnded (execute_phase out) w (
      subst (Post (λ _ v. HasEnded v.db) Alive) same
        (Post-execute_run run w (record { run = run; found = found })))
    where
      same : execute_run out run w ≡ execute_phase out w
      same = ground (arith, found, executing)
