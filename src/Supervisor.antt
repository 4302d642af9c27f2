-- ===== src/Supervisor.antt =====
-- apps/engine/src/engine/agents/supervisor.py: the graph that routes approved tasks.
pub mod Choice
pub mod Deadlock
pub mod Board
pub mod Absorb
pub mod Invariant
pub mod Progress
use automated_software_engin.Prelude.{
  ℕ, zero, suc, ◌+◌, Bool, not, ◌&&◌, ◌||◌, Option, none, some, List, [], ◌∷◌, ◌++◌, map, ltb, leb,
  ◌==◌, if◌then◌else◌, Text, elem, subset, filter_by, all_of, find_by,
}
use automated_software_engin.Errors.{Exc}
use automated_software_engin.Enums.{AgentRole, TaskStatus, is_pending, is_done, is_skipped}

-- A task may be retried at most twice.
abbrev pub max_retries : ℕ
max_retries = 2

pub record TaskState : Type 0 where
  pub id : ℕ
  pub sequence : ℕ
  pub role : AgentRole
  pub title : Text
  pub description : Option Text
  pub status : TaskStatus
  pub depends_on : List ℕ
  pub attempts : ℕ
  pub result : Option Text

-- The failure texts, kept as the values that they print.
pub data Failure : Type 0 where
  deadlock : (stuck : List ℕ) → Failure
  gave_up : (sequence : ℕ) (title : Text) (attempts : ℕ) (exc : Exc) → Failure

pub record SupervisorState : Type 0 where
  pub tasks : List TaskState
  pub current_task_id : Option ℕ
  pub failure : Option Failure

pub record ExecutionOutcome : Type 0 where
  pub result : Text
  pub new_tasks : List TaskState
  pub skipped_task_ids : List ℕ

-- What an awaited executor does: it raises, or returns a string or an `ExecutionOutcome`.
pub data Attempt : Type 0 where
  raised : (exc : Exc) → Attempt
  plain : (result : Text) → Attempt
  outcome : ExecutionOutcome → Attempt

abbrev pub is_finished : TaskStatus → Bool
is_finished s = is_done s || is_skipped s

-- `{t["id"] for t in tasks if t["status"] == TaskStatus.DONE}`
abbrev pub done_ids : List TaskState → List ℕ
done_ids tasks = map (λ t. t.id) (filter_by (λ t. is_done t.status) tasks)

abbrev pub is_eligible : List ℕ → TaskState → Bool
is_eligible done t = is_pending t.status && subset t.depends_on done

unfoldable pub eligible_tasks : List TaskState → List TaskState
eligible_tasks tasks = filter_by (is_eligible (done_ids tasks)) tasks

-- `min(best ∷ rest, key=sequence)`: the first of the least.
pub min_sequence : TaskState → List TaskState → TaskState
min_sequence best [] = best
min_sequence best (t ∷ rest) = min_sequence (if ltb t.sequence best.sequence then t else best) rest

insert_sorted : ℕ → List ℕ → List ℕ
insert_sorted n [] = n ∷ []
insert_sorted n (m ∷ ms) = let rest = insert_sorted n ms in if leb n m then n ∷ m ∷ ms else m ∷ rest

-- `sorted` of numbers.
sorted : List ℕ → List ℕ
unfolding insert_sorted
sorted [] = []
sorted (n ∷ ns) = insert_sorted n (sorted ns)

pub pending_sequences : List TaskState → List ℕ
unfolding sorted
pending_sequences tasks =
    sorted (map (λ t. t.sequence) (filter_by (λ t. is_pending t.status) tasks))

-- The node with no eligible task: the end of the run, or a deadlock.
schedule_none : SupervisorState → SupervisorState
schedule_none s =
    if all_of (λ t. is_finished t.status) s.tasks
    then record s { current_task_id = none }
    else record s { current_task_id = none; failure = some (deadlock (pending_sequences s.tasks)) }

schedule_from : List TaskState → SupervisorState → SupervisorState
unfolding schedule_none min_sequence
schedule_from [] s = schedule_none s
schedule_from (t ∷ rest) s = record s { current_task_id = some (min_sequence t rest).id }

schedule_by : Option Failure → SupervisorState → SupervisorState
unfolding schedule_from eligible_tasks
schedule_by (some _) s = record s { current_task_id = none }
schedule_by none s = schedule_from (eligible_tasks s.tasks) s

-- `_schedule`; the graph merges the returned fields into the state.
unfoldable pub schedule : SupervisorState → SupervisorState
unfolding schedule_by
schedule s = schedule_by s.failure s

pub data Node : Type 0 where
  schedule_node execute_node finalize_node end_node : Node

-- `_after_schedule`
abbrev pub after_schedule : SupervisorState → Node
after_schedule s = elim s.current_task_id [
  | some _ ↦ execute_node
  | none ↦ elim s.failure [ some _ ↦ finalize_node | none ↦ end_node ]
]

abbrev pub skip_pending : TaskState → TaskState
skip_pending t = if is_pending t.status then record t { status = TaskStatus.skipped } else t

-- `_finalize`
unfoldable pub finalize : SupervisorState → SupervisorState
finalize s = record s { tasks = map skip_pending s.tasks }

-- The mutation of the first task with an identifier: `next(t for t in tasks if t["id"] == i)`.
pub update_task : ℕ → (TaskState → TaskState) → List TaskState → List TaskState
update_task i f [] = []
update_task i f (t ∷ ts) = let rest = update_task i f ts in if t.id == i then f t ∷ ts else t ∷ rest

-- The task as the executor sees it.
abbrev pub started : TaskState → TaskState
started t = record t { status = TaskStatus.in_progress; attempts = t.attempts + 1 }

-- `result if isinstance(result, ExecutionOutcome) else ExecutionOutcome(result)`
abbrev pub outcome_of : Text → ExecutionOutcome
outcome_of result = record { result = result; new_tasks = []; skipped_task_ids = [] }

abbrev pub skip_reported : List ℕ → TaskState → TaskState
skip_reported ids t = if elem t.id ids then skip_pending t else t

-- The board changes that agents made while the task ran join the board.
abbrev pub merge : ExecutionOutcome → List TaskState → List TaskState
merge o tasks =
    let known = map (λ t. t.id) tasks in
    map (skip_reported o.skipped_task_ids)
      (tasks ++ filter_by (λ t. not (elem t.id known)) o.new_tasks)

abbrev pub complete_with : TaskState → ExecutionOutcome → SupervisorState → SupervisorState
complete_with task o s = record s {
  tasks = merge o (
      update_task task.id (λ _. record task { status = TaskStatus.done; result = some o.result })
        s.tasks);
}

abbrev pub fail_with : TaskState → Exc → SupervisorState → SupervisorState
fail_with task exc s =
    if ltb max_retries task.attempts
    then record s {
      tasks = update_task task.id (λ _. record task { status = TaskStatus.failed }) s.tasks;
      failure = some (gave_up task.sequence task.title task.attempts exc);
    }
    else record s {
      tasks = update_task task.id (λ _. record task { status = TaskStatus.pending }) s.tasks;
    }

-- What `_execute` returns once the executor is done with the started task.
unfoldable pub absorb : TaskState → Attempt → SupervisorState → SupervisorState
unfolding update_task
absorb task (raised exc) s = fail_with task exc s
absorb task (plain result) s = complete_with task (outcome_of result) s
absorb task (outcome o) s = complete_with task o s

abbrev pub current_task : SupervisorState → Option TaskState
current_task s = elim s.current_task_id [ none ↦ none | some i ↦ find_by (λ t. t.id == i) s.tasks ]

-- How an invocation ends: at the end node, with a crash, or with no step left.
pub data Ending (W : Type 0) : Type 0 where
  finished : SupervisorState → W → Ending W
  crashed : W → Ending W
  out_of_steps : SupervisorState → W → Ending W

-- The graph around an injected executor. The executor acts on a world of its own.
module _ {W : Type 0} (executor : TaskState → W → Attempt × W) where
  -- `_execute`; `none` is the StopIteration of a board without the current task.
  unfoldable pub execute : SupervisorState → W → Option (SupervisorState × W)
  unfolding absorb
  execute s w = elim (current_task s) [
    | none ↦ none
    | some t ↦ let (attempt, w') = executor (started t) w in some (absorb (started t) attempt s, w')
  ]

  -- `build_supervisor_graph` and its invocation, which runs at most `steps` nodes.
  unfoldable pub run_graph : (steps : ℕ) → Node → SupervisorState → W → Ending W
  run_graph zero end_node s w = finished s w
  run_graph zero _ s w = out_of_steps s w
  run_graph (suc n) end_node s w = finished s w
  run_graph (suc n) schedule_node s w = let s' = schedule s in run_graph n (after_schedule s') s' w
  run_graph (suc n) finalize_node s w = run_graph n end_node (finalize s) w
  run_graph (suc n) execute_node s w = elim (execute s w) [
    | none ↦ crashed w
    | some (s', w') ↦ run_graph n schedule_node s' w'
  ]
