-- ===== src/Runner/Phases.antt =====
-- The two phases of a run: `_plan_run`, `_execute_tasks`, `_guarded` and their entry points in
-- apps/engine/src/engine/agents/runner.py.
use automated_software_engin.Prelude.{
  ℕ, zero, suc, ◌+◌, ◌-◌, Bool, true, false, Option, none, some, List, [], ◌∷◌, ◌++◌, map, ◌==◌,
  if◌then◌else◌, Text, elem, get_elem?,
}
use automated_software_engin.Errors.{
  assertion_error, index_error, key_error, stop_iteration, integrity_error, graph_recursion_error,
  Reply, ok, raise,
}
use automated_software_engin.Enums.{
  AgentRole, RunStatus, TaskStatus, product_manager, is_queued, is_executing, task_status_eq,
  role_eq,
}
use automated_software_engin.Store.{
  AgentRun, AgentTask, Db, RunError, crash, task_failure, not_approved, emit, update_run,
  update_row, to_task_state, by_sequence, run_started, plan_created, memory_recalled,
  task_status_changed, run_finished,
}
use automated_software_engin.Supervisor.{
  TaskState, SupervisorState, Failure, finished, crashed, out_of_steps, schedule_node, run_graph,
}
use automated_software_engin.Tools.{row_ids}
use automated_software_engin.Runner.World.{
  Outside, World, Workspace, Repository, Plan, PlanTask, Verdict, Finding, LlmUsage, Run, pure,
  ◌>>=◌, ◌>>◌, on_run, outside, session_of, apply_usage, set_run_status, fail_run,
}
use automated_software_engin.Runner.Executor.{find_row, task_executor}
use automated_software_engin.Runner.Gates.{
  if_passed, review, revise, sandbox_gate, security_gate, dependency_gate, publish,
}

-- `tasks[dep - 1]` on the tasks that are there already; Python's -1 is the last one.
abbrev pub last? : List AgentTask → Option AgentTask
last? [] = none
last? (t ∷ []) = some t
last? (t ∷ u ∷ ts) = last? (u ∷ ts)

abbrev pub dependency_row : List AgentTask → ℕ → Option AgentTask
dependency_row rows dep = if dep == 0 then last? rows else get_elem? rows (dep - 1)

unfoldable pub dependency_ids : List AgentTask → List ℕ → Reply (List ℕ)
dependency_ids rows [] = ok []
dependency_ids rows (dep ∷ deps) = elim (dependency_row rows dep) [
  | none ↦ raise index_error
  | some t ↦ elim (dependency_ids rows deps) [ raise e ↦ raise e | ok ids ↦ ok (t.id ∷ ids) ]
]

abbrev pub planned_row : (key sequence : ℕ) → PlanTask → List ℕ → AgentTask
planned_row key sequence item deps = record {
  id = key;
  sequence = sequence;
  role = item.role;
  title = item.title;
  description = some item.description;
  status = TaskStatus.pending;
  depends_on = deps;
  attempts = 0;
  result = none;
  started_at = false;
  finished_at = false;
}

-- The loop of `_plan_run` that saves the board: `rows` are saved, `sequence` is the next number,
-- `keys` the keys that the database session generates.
unfoldable pub save_tasks :
    (ℕ → ℕ) → (sequence : ℕ) → List AgentTask → List PlanTask → Reply (List AgentTask)
unfolding dependency_ids
save_tasks keys sequence rows [] = ok rows
save_tasks keys sequence rows (item ∷ items) =
    if elem (keys sequence) (row_ids rows)
    then raise integrity_error
    else elim (dependency_ids rows item.depends_on) [
      | raise e ↦ raise e
      | ok deps ↦
          save_tasks keys (sequence + 1)
            (rows ++ planned_row (keys sequence) sequence item deps ∷ []) items
    ]

module _ {E : Type 0} (out : Outside E) where
  -- `_recall_for_planning`: a recall that raises is logged and planning goes on.
  unfoldable pub recall_for_planning : ℕ → Text → Run E (Unit {0})
  recall_for_planning repository_id request w =
      let (r, env') = out.recall repository_id request w.env in
      let w' = record w { env = env' } in
      elim r [
        | raise e ↦ (ok tt, w')
        | ok zero ↦ (ok tt, w')
        | ok (suc n) ↦ (
          ok tt,
          record w' { db = emit (memory_recalled (suc n)) (some product_manager) none w.db },
        )
      ]

  -- The first block of `_plan_run`.
  abbrev pub begin_planning : Db → Db
  begin_planning db =
      set_run_status RunStatus.planning
        (emit run_started none none (update_run (λ run. record run { started_at = true }) db))

  -- The last block of `_plan_run`: the rows of the board, the plan, the cost, the approval gate.
  abbrev pub finish_planning : Workspace → Plan → LlmUsage → List AgentTask → Db → Db
  finish_planning ws plan usage rows db = set_run_status RunStatus.awaiting_approval (
      emit plan_created (some product_manager) none (
        apply_usage usage (
          update_run
            (λ run. record run {
              branch_name = some ws.branch;
              base_sha = some ws.base_sha;
              plan = some (record { summary = plan.summary; titles = map (λ t. t.title) rows });
            })
            (record db { tasks = db.tasks ++ rows }))))

  save_plan : Workspace → Plan → LlmUsage → Run E (Unit {0})
  unfolding save_tasks
  save_plan ws plan usage w = elim (save_tasks (λ n. out.task_key n w.env) 1 [] plan.tasks) [
    | raise e ↦ (raise e, w)
    | ok rows ↦ on_run (finish_planning ws plan usage rows) w
  ]

  abbrev pub repository_of : AgentRun → Run E (ℕ × Repository)
  repository_of run w = elim run.repository_id [
    | none ↦ (raise assertion_error, w)
    | some i ↦ elim (out.repository i w.env) [
      | none ↦ (raise assertion_error, w)
      | some repo ↦ (ok (i, repo), w)
    ]
  ]

  plan_queued : AgentRun → Run E (Unit {0})
  unfolding save_plan recall_for_planning
  plan_queued run = do
    (repository_id, repo) ← repository_of run
    on_run begin_planning
    recall_for_planning repository_id run.request
    ws ← outside (out.open_workspace repo.url)
    (usage, plan) ← session_of product_manager (out.create_plan run.request)
    save_plan ws plan usage

  -- `_plan_run`
  unfoldable pub plan_phase : Run E (Unit {0})
  unfolding plan_queued
  plan_phase w = elim w.db.run [
    | none ↦ (ok tt, w)
    | some run ↦ if is_queued run.status then plan_queued run w else (ok tt, w)
  ]

  -- One task of the final board, written back to its row.
  abbrev pub sync_task : TaskState → Db → Reply Db
  sync_task t db = elim (find_row t.id db.tasks) [
    | none ↦ raise key_error
    | some row ↦ ok (
        if task_status_eq row.status t.status
        then db
        else emit (task_status_changed row.status t.status) none (some row.id) (record db {
          tasks =
              update_row t.id (λ r. record r { status = t.status; attempts = t.attempts }) db.tasks;
        }))
  ]

  abbrev pub sync_board : List TaskState → Db → Reply Db
  sync_board [] db = ok db
  sync_board (t ∷ ts) db = elim (sync_task t db) [ raise e ↦ raise e | ok db' ↦ sync_board ts db' ]

  -- The board is synced and the run goes to review, or ends with the supervisor's failure.
  abbrev pub board_result : Option Failure → Db → Db
  board_result none = set_run_status RunStatus.reviewing
  board_result (some f) = fail_run (task_failure f)

  abbrev pub sync_run : SupervisorState → Run E Bool
  sync_run final w = elim w.db.run [
    | none ↦ (raise assertion_error, w)
    | some _ ↦ elim (sync_board final.tasks w.db) [
      | raise e ↦ (raise e, w)
      | ok db ↦ (
        ok (elim final.failure [ none ↦ true | some _ ↦ false ]),
        record w { db = board_result final.failure db },
      )
    ]
  ]

  -- The supervisor's graph over the board.
  unfoldable pub supervise : Text → Run E SupervisorState
  unfolding task_executor
  supervise request w =
      let board = map to_task_state (by_sequence w.db.tasks) in
      let state : SupervisorState = record {
        tasks = board;
        current_task_id = none;
        failure = none;
      } in
      elim (run_graph (task_executor out request) out.graph_steps schedule_node state
        (record w { known_ids = row_ids w.db.tasks })) [
          | finished s w' ↦ (ok s, w')
          | crashed w' ↦ (raise stop_iteration, w')
          | out_of_steps s w' ↦ (raise graph_recursion_error, w')
        ]

  -- `findings_by_role`, in the order in which the roles first appear.
  abbrev pub add_finding : Finding → List (AgentRole × List Text) → List (AgentRole × List Text)
  add_finding f [] = (f.role, f.issue ∷ []) ∷ []
  add_finding f ((r, issues) ∷ rest) =
      let others = add_finding f rest in
      if role_eq f.role r then (r, issues ++ f.issue ∷ []) ∷ rest else (r, issues) ∷ others

  abbrev pub findings_by_role :
      List (AgentRole × List Text) → List Finding → List (AgentRole × List Text)
  findings_by_role groups [] = groups
  findings_by_role groups (f ∷ fs) = findings_by_role (add_finding f groups) fs

  unfoldable pub revise_all : Text → List (AgentRole × List Text) → Run E (Unit {0})
  revise_all request [] = pure tt
  revise_all request ((role, issues) ∷ rest) = do
    revise out request role issues
    revise_all request rest

  -- One revision round, then the second verdict.
  unfoldable pub second_review : Text → Verdict → Run E Verdict
  unfolding revise_all
  second_review request verdict =
      if verdict.approve
      then pure verdict
      else (do revise_all request (findings_by_role [] verdict.findings); review out request)

  -- `run.error`
  abbrev pub error_of : Option AgentRun → Option RunError
  error_of none = none
  error_of (some run) = run.error

  -- `run.pr_url = …` and the end of the run.
  abbrev pub complete_run : Option Text → Db → Db
  complete_run pr_url db = emit (run_finished RunStatus.completed (error_of db.run)) none none (
      update_run (λ run. record run { finished_at = true })
        (set_run_status RunStatus.completed
          (update_run (λ run. record run { pr_url = pr_url }) db)))

  -- The publication and the end of the run.
  unfoldable pub finish_run : Repository → Run E (Unit {0})
  finish_run repo = do pr_url ← publish out repo; on_run (complete_run pr_url)

  -- From an approved verdict on: the three gates, and the publication behind them.
  unfoldable pub gates : Workspace → Repository → Run E (Unit {0})
  gates ws repo =
      if_passed (sandbox_gate out)
        (if_passed (security_gate out ws) (if_passed (dependency_gate out ws) (finish_run repo)))

  unfoldable pub review_phase : Text → Workspace → Repository → Run E (Unit {0})
  unfolding second_review gates
  review_phase request ws repo = do
    first ← review out request
    verdict ← second_review request first
    if verdict.approve then gates ws repo else on_run (fail_run not_approved)

  abbrev pub or_empty : Option Text → Text
  or_empty none = []
  or_empty (some s) = s

  unfoldable pub execute_run : AgentRun → Run E (Unit {0})
  unfolding review_phase supervise
  execute_run run = do
    (repository_id, repo) ← repository_of run
    ws ← outside (out.load_workspace (or_empty run.branch_name) (or_empty run.base_sha))
    final ← supervise run.request
    clean ← sync_run final
    if clean then review_phase run.request ws repo else pure tt

  -- `_execute_tasks`
  unfoldable pub execute_phase : Run E (Unit {0})
  unfolding execute_run
  execute_phase w = elim w.db.run [
    | none ↦ (ok tt, w)
    | some run ↦ if is_executing run.status then execute_run run w else (ok tt, w)
  ]

  -- `_guarded`: an exception becomes a failed run.
  abbrev pub guarded : Run E (Unit {0}) → World E → World E
  guarded work w =
      let (r, w') = work w in
      elim r [ ok _ ↦ w' | raise e ↦ record w' { db = fail_run (crash e) w'.db } ]

  -- `plan_run` and `execute_tasks`
  unfoldable pub plan_run : World E → World E
  unfolding plan_phase
  plan_run w = guarded plan_phase w

  unfoldable pub execute_tasks : World E → World E
  unfolding execute_phase
  execute_tasks w = guarded execute_phase w
