-- ===== src/Recovery/Redelivery.antt =====
-- What the redelivery of an interrupted run comes to: `execute_tasks_job` of
-- apps/engine/src/engine/worker.py and `recover_interrupted_runs` of
-- apps/engine/src/engine/agents/recovery.py.
use automated_software_engin.Prelude.{◌≡◌, sym, subst, true, false, some, arith}
use automated_software_engin.Store.{AgentRun, Db}
use automated_software_engin.Runner.World.{Outside, World}
use automated_software_engin.Runner.Phases.{execute_tasks}
use automated_software_engin.Runner.Completion.{HasEnded}
use automated_software_engin.Runner.Ending.{execute_tasks-HasEnded}
use automated_software_engin.Recovery.{
  is_resume, IsResumed, reset_interrupted_execution, reset_interrupted_execution-IsResumed,
  execute_tasks_job, recover_run, resume_run,
}

module _ {E : Type 0} (out : Outside E) where
  resumed-HasEnded :
      (before db : Db) (w : World E)
      → IsResumed before db
      → HasEnded (execute_tasks out (record w { db = db })).db
  resumed-HasEnded before db w r =
      execute_tasks-HasEnded out (record w { db = db }) r.run r.found (ground (arith, r.executing))

  -- Each delivery of the execution job ends a run that was interrupted while it executed or was in
  -- review: it fails with its reason, or it is completed behind an approving verdict and the gates.
  pub execute_tasks_job-HasEnded :
      (w : World E) (run : AgentRun)
      → w.db.run ≡ some run
      → is_resume run.status ≡ true
      → HasEnded (execute_tasks_job out w).db
  unfolding execute_tasks_job
  execute_tasks_job-HasEnded w run found resumes =
      resumed-HasEnded w.db (reset_interrupted_execution true w.db).1 w
        (reset_interrupted_execution-IsResumed true w.db run found resumes).1

  resumed_run :
      (w : World E) (run : AgentRun)
      → w.db.run ≡ some run
      → is_resume run.status ≡ true
      → (reset_interrupted_execution false w.db).0 ≡ true
      → recover_run out w
        ≡ execute_tasks out (record w { db = (reset_interrupted_execution false w.db).1 })
  unfolding recover_run resume_run
  resumed_run w run found resumes reset = ground (arith, found, resumes, reset)

  -- After a restart, the recovery of a run that was interrupted while it executed or was in review
  -- ends it, whatever the model, the tools, the tests and the hosts do: it fails with its reason,
  -- or it is completed behind an approving verdict and the gates.
  pub recover_run-HasEnded :
      (w : World E) (run : AgentRun)
      → w.db.run ≡ some run
      → is_resume run.status ≡ true
      → HasEnded (recover_run out w).db
  unfolding recover_run resume_run
  recover_run-HasEnded w run found resumes =
      let (reset, board) = reset_interrupted_execution-IsResumed false w.db run found resumes in
      let ended = resumed-HasEnded w.db (reset_interrupted_execution false w.db).1 w board in
      subst (λ (v : World E). HasEnded v.db) (sym (resumed_run w run found resumes reset)) ended
