-- ===== src/Recovery.antt =====
-- apps/engine/src/engine/agents/recovery.py and the re-entrant jobs of
-- apps/engine/src/engine/worker.py: an interrupted run goes back to where it can start again.
pub mod Redelivery
use automated_software_engin.Prelude.{
  ◌≡◌, refl, ◌⊎◌, inl, inr, Bool, true, false, not, ◌&&◌, ◌||◌, none, some, List, [], ◌∷◌, map,
  arith, filter_by, any_of, if◌then◌else◌,
}
use automated_software_engin.Enums.{
  RunStatus, TaskStatus, is_queued, is_planning, is_executing, is_reviewing, is_in_progress,
  is_done,
}
use automated_software_engin.Store.{AgentRun, AgentTask, Db, emit, run_recovered}
use automated_software_engin.Tools.{row_ids}
use automated_software_engin.Runner.World.{Outside, World}
use automated_software_engin.Runner.Phases.{plan_run, execute_tasks}

-- `_REPLAN_STATES` and `_RESUME_STATES`
abbrev pub is_replan : RunStatus → Bool
is_replan s = is_queued s || is_planning s

abbrev pub is_resume : RunStatus → Bool
is_resume s = is_executing s || is_reviewing s

replan : AgentRun → Db → Db
replan run db =
    emit run_recovered none none
      (record db { run = some (record run { plan = none; status = RunStatus.queued }); tasks = [] })

-- `reset_interrupted_planning`
unfoldable pub reset_interrupted_planning : (include_queued : Bool) → Db → Bool × Db
unfolding replan
reset_interrupted_planning include_queued db = elim db.run [
  | none ↦ (false, db)
  | some run ↦
      if (if include_queued then is_replan run.status else is_planning run.status)
      then (true, replan run db)
      else (false, db)
]

abbrev pub put_back : AgentTask → AgentTask
put_back t = if is_in_progress t.status then record t { status = TaskStatus.pending } else t

abbrev pub any_in_progress : List AgentTask → Bool
any_in_progress rows = any_of (λ t. is_in_progress t.status) rows

resume : AgentRun → Db → Db
resume run db = emit run_recovered none none (record db {
  run = some (record run { status = RunStatus.executing });
  tasks = map put_back db.tasks;
})

-- `reset_interrupted_execution`
unfoldable pub reset_interrupted_execution : (quiet_when_clean : Bool) → Db → Bool × Db
unfolding resume
reset_interrupted_execution quiet_when_clean db = elim db.run [
  | none ↦ (false, db)
  | some run ↦
      if not (is_resume run.status)
      then (false, db)
      else if quiet_when_clean && is_executing run.status && not (any_in_progress db.tasks)
      then (true, db)
      else (true, resume run db)
]

module _ {E : Type 0} (out : Outside E) where
  -- `plan_run_job`
  unfoldable pub plan_run_job : World E → World E
  plan_run_job w =
      let (was_reset, db) = reset_interrupted_planning false w.db in
      plan_run out (record w { db = db })

  -- `execute_tasks_job`
  unfoldable pub execute_tasks_job : World E → World E
  execute_tasks_job w =
      let (was_reset, db) = reset_interrupted_execution true w.db in
      execute_tasks out (record w { db = db })

  replan_run : World E → World E
  replan_run w =
      let (was_reset, db) = reset_interrupted_planning true w.db in
      let w' = record w { db = db } in let rest = plan_run out w' in if was_reset then rest else w'

  resume_run : World E → World E
  resume_run w =
      let (was_reset, db) = reset_interrupted_execution false w.db in
      let w' = record w { db = db } in
      let rest = execute_tasks out w' in if was_reset then rest else w'

  -- One round of the loop of `recover_interrupted_runs`, for the run of the world.
  unfoldable pub recover_run : World E → World E
  unfolding replan_run resume_run
  recover_run w = elim w.db.run [
    | none ↦ w
    | some run ↦
        let planned = replan_run w in
        let resumed = resume_run w in
        if is_replan run.status then planned else if is_resume run.status then resumed else w
  ]

-- A board that can be resumed: the run executes, and no task is left in progress.
pub record IsResumed (before after : Db) : Type 0 where
  pub run : AgentRun
  pub found : after.run ≡ some run
  pub executing : run.status ≡ RunStatus.executing
  pub clean : any_in_progress after.tasks ≡ false
  pub same_board : row_ids after.tasks ≡ row_ids before.tasks
  pub same_done :
      row_ids (filter_by (λ t. is_done t.status) after.tasks)
      ≡ row_ids (filter_by (λ t. is_done t.status) before.tasks)

clean-put_back : (rows : List AgentTask) → any_in_progress (map put_back rows) ≡ false
clean-put_back [] = refl
clean-put_back (t ∷ ts) = ground (arith, clean-put_back ts)

ids-put_back : (rows : List AgentTask) → row_ids (map put_back rows) ≡ row_ids rows
ids-put_back [] = refl
ids-put_back (t ∷ ts) = ground (arith, ids-put_back ts)

done-put_back :
    (rows : List AgentTask)
    → row_ids (filter_by (λ t. is_done t.status) (map put_back rows))
      ≡ row_ids (filter_by (λ t. is_done t.status) rows)
done-put_back [] = refl
done-put_back (t ∷ ts) = ground (arith, done-put_back ts)

IsResumed-resume : (run : AgentRun) (db : Db) → IsResumed db (resume run db)
unfolding resume
IsResumed-resume run db = record {
  run = record run { status = RunStatus.executing };
  found = refl;
  executing = refl;
  clean = clean-put_back db.tasks;
  same_board = ids-put_back db.tasks;
  same_done = done-put_back db.tasks;
}

-- What a reset of an interrupted run does, in either mode.
reset-cases :
    (quiet : Bool) (db : Db) (run : AgentRun)
    → db.run ≡ some run
    → is_resume run.status ≡ true
    → (((reset_interrupted_execution quiet db) ≡ (true, db))
        × (is_executing run.status ≡ true)
        × (any_in_progress db.tasks ≡ false))
      ⊎ (reset_interrupted_execution quiet db ≡ (true, resume run db))
unfolding reset_interrupted_execution
reset-cases quiet db run found resumes = ground (arith, found, resumes)

-- An interrupted execution is always resumable: afterwards the run executes, no task is left in
-- progress, and neither a task nor a finished task is lost.
pub reset_interrupted_execution-IsResumed :
    (quiet : Bool) (db : Db) (run : AgentRun)
    → db.run ≡ some run
    → is_resume run.status ≡ true
    → ((reset_interrupted_execution quiet db).0 ≡ true)
      × IsResumed db (reset_interrupted_execution quiet db).1
reset_interrupted_execution-IsResumed quiet db run found resumes =
    elim (reset-cases quiet db run found resumes) [
      | inl (same, e, c) ↦ rw same (
        refl,
        record {
          run = run;
          found = found;
          executing = ground (arith, e);
          clean = c;
          same_board = refl;
          same_done = refl;
        },
      )
      | inr same ↦ rw same (refl, IsResumed-resume run db)
    ]

-- The reset of the execution job, done again before anything else happens to the run, finds
-- nothing left to reset and changes nothing.
pub reset_interrupted_execution-again :
    (db : Db) (run : AgentRun)
    → db.run ≡ some run
    → is_resume run.status ≡ true
    → let db' = (reset_interrupted_execution true db).1 in
      reset_interrupted_execution true db' ≡ (true, db')
unfolding reset_interrupted_execution
reset_interrupted_execution-again db run found resumes =
    let after = (reset_interrupted_execution-IsResumed true db run found resumes).1 in
    still (reset_interrupted_execution true db).1 after
  where
    quiet :
        (d : Db) (r : AgentRun)
        → d.run ≡ some r
        → r.status ≡ RunStatus.executing
        → any_in_progress d.tasks ≡ false
        → reset_interrupted_execution true d ≡ (true, d)
    quiet d r f e c = ground (arith, f, e, c)

    still : (d : Db) → IsResumed db d → reset_interrupted_execution true d ≡ (true, d)
    still d h = quiet d h.run h.found h.executing h.clean
