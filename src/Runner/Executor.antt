-- ===== src/Runner/Executor.antt =====
-- `_make_task_executor` of apps/engine/src/engine/agents/runner.py: an engineer's attempt at one
-- task with the bookkeeping of the task board around it.
use automated_software_engin.Prelude.{
  ℕ, true, not, Option, none, some, List, ◌++◌, map, ◌==◌, Text, elem, filter_by, find_by,
}
use automated_software_engin.Errors.{Exc, assertion_error, Reply, ok, raise}
use automated_software_engin.Enums.{TaskStatus, is_skipped}
use automated_software_engin.Store.{
  AgentRun, AgentTask, Db, emit, update_row, to_task_state, task_status_changed,
  task_attempt_failed,
}
use automated_software_engin.Supervisor.{TaskState, ExecutionOutcome, Attempt, raised, outcome}
use automated_software_engin.Tools.{row_ids}
use automated_software_engin.Runner.World.{
  LlmUsage, Outside, World, apply_usage, check_budget, converse,
}

abbrev pub find_row : ℕ → List AgentTask → Option AgentTask
find_row i rows = find_by (λ r. r.id == i) rows

-- `assert row is not None and run is not None`
abbrev pub loaded : ℕ → Db → Option AgentRun
loaded i db = elim (find_row i db.tasks) [ none ↦ none | some _ ↦ db.run ]

-- The first block: the attempt starts.
abbrev pub begin_task : TaskState → Db → Db
begin_task t db =
    emit (task_status_changed TaskStatus.pending TaskStatus.in_progress) (some t.role) (some t.id)
      (record db {
        tasks =
            update_row t.id
              (λ r. record r {
                status = TaskStatus.in_progress;
                attempts = t.attempts;
                started_at = true;
              })
              db.tasks;
      })

-- The block of the `except`: the row is pending again, and the supervisor decides.
abbrev pub return_task : TaskState → LlmUsage → Exc → Db → Db
return_task t usage e db = emit (task_attempt_failed t.attempts e) (some t.role) (some t.id) (
    apply_usage usage (record db {
      tasks = update_row t.id (λ r. record r { status = TaskStatus.pending }) db.tasks;
    }))

-- The last block: the row is done.
abbrev pub finish_task : TaskState → LlmUsage → Text → Db → Db
finish_task t usage result db =
    emit (task_status_changed TaskStatus.in_progress TaskStatus.done) (some t.role) (some t.id) (
      apply_usage usage (record db {
        tasks =
            update_row t.id
              (λ r. record r { status = TaskStatus.done; result = some result; finished_at = true })
              db.tasks;
      }))

-- The rows that the supervisor has not heard of.
abbrev pub unreported : List ℕ → List AgentTask → List AgentTask
unreported known rows = filter_by (λ r. not (elem r.id known)) rows

abbrev pub board_changes : List ℕ → Text → List AgentTask → ExecutionOutcome
board_changes known result rows = record {
  result = result;
  new_tasks = map to_task_state (unreported known rows);
  skipped_task_ids = row_ids (filter_by (λ r. is_skipped r.status) rows);
}

module _ {E : Type 0} where
  -- What follows the engineer's session.
  unfoldable pub settle : TaskState → LlmUsage → Reply Text → World E → Attempt × World E
  settle t usage reply w = elim (loaded t.id w.db) [
    | none ↦ (raised assertion_error, w)
    | some _ ↦ elim reply [
      | raise e ↦ (raised e, record w { db = return_task t usage e w.db })
      | ok result ↦
          let db = finish_task t usage result w.db in
          (
            outcome (board_changes w.known_ids result db.tasks),
            record w { db = db; known_ids = w.known_ids ++ row_ids db.tasks },
          )
    ]
  ]

  unfoldable pub start : Outside E → Text → TaskState → AgentRun → World E → Attempt × World E
  start out request t run w = elim (check_budget run) [
    | some e ↦ (raised e, w)
    | none ↦
        let ((usage, reply), w') =
          converse t.role (some t.id) (out.execute_task t request)
            (record w { db = begin_task t w.db }) in
        settle t usage reply w'
  ]

  unfoldable pub task_executor : Outside E → Text → TaskState → World E → Attempt × World E
  unfolding start settle
  task_executor out request t w = elim (loaded t.id w.db) [
    | none ↦ (raised assertion_error, w)
    | some run ↦ start out request t run w
  ]
