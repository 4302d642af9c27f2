-- ===== src/Tools.antt =====
-- apps/engine/src/engine/agents/tools.py: the task-board tools and the dispatcher. What the other
-- tools do to the workspace is not modelled; a call of one only says whether it succeeded.
pub mod Changes
pub mod Board
use automated_software_engin.Prelude.{
  ℕ, suc, ◌+◌, Bool, true, false, not, ◌&&◌, ◌||◌, Option, none, some, List, [], ◌∷◌, ◌++◌, map,
  ltb, leb, ◌==◌, if◌then◌else◌, Text, strip, elem, is_empty, take, length, filter_by, find_by,
  any_of,
}
use automated_software_engin.Errors.{Exc, integrity_error, Reply, ok, raise}
use automated_software_engin.Enums.{
  AgentRole, backend, frontend, devops, TaskStatus, is_pending, is_skipped,
}
use automated_software_engin.Store.{
  AgentTask, Db, emit, task_created, task_status_changed, update_row,
}
use automated_software_engin.Registry.{
  ToolName, add_task as add_task_name, update_task_status as update_task_status_name, is_allowed,
  is_engineer,
}

-- An argument of an agent's call that should be a member of an enumeration.
pub data RoleArg : Type 0 where
  known_role : AgentRole → RoleArg
  unknown_role : Text → RoleArg

pub data StatusArg : Type 0 where
  known_status : TaskStatus → StatusArg
  unknown_status : Text → StatusArg

-- The messages of ToolError, as the values that they print.
pub data ToolError : Type 0 where
  not_available title_empty other_error : ToolError
  role_refused : RoleArg → ToolError
  board_full : (count : ℕ) → ToolError
  status_refused : StatusArg → ToolError
  no_task : (sequence : ℕ) → ToolError
  not_pending : (sequence : ℕ) (now : TaskStatus) → ToolError
  has_dependents : (sequence : ℕ) (waiting : List ℕ) → ToolError

pub data ToolReply : Type 0 where
  added : (sequence : ℕ) → ToolReply
  skipped_task : (sequence : ℕ) → ToolReply
  other_reply : ToolReply
  error : ToolError → ToolReply

abbrev pub max_board_tasks : ℕ
max_board_tasks = 30

-- `role not in _TASK_ROLES`
abbrev pub task_role : RoleArg → Option AgentRole
task_role (known_role r) = if is_engineer r then some r else none
task_role (unknown_role _) = none

-- `func.max(AgentTask.sequence)`, with `or 0` for an empty board.
abbrev pub max_sequence : List AgentTask → ℕ
max_sequence [] = 0
max_sequence (t ∷ ts) = let m = max_sequence ts in if ltb m t.sequence then t.sequence else m

abbrev pub or_none : Text → Option Text
or_none [] = none
or_none (c ∷ s) = some (c ∷ s)

pub new_task : (id sequence : ℕ) → AgentRole → (title description : Text) → AgentTask
new_task id sequence role title description = record {
  id = id;
  sequence = sequence;
  role = role;
  title = take 256 title;
  description = or_none (strip description);
  status = TaskStatus.pending;
  depends_on = [];
  attempts = 0;
  result = none;
  started_at = false;
  finished_at = false;
}

abbrev pub row_ids : List AgentTask → List ℕ
row_ids rows = map (λ t. t.id) rows

-- The insertion: `id` is the key that the database session generates, and a key that is taken
-- fails the commit. The event is built before the key exists, so it names no task.
pub insert_task : ℕ → AgentRole → (title description : Text) → Db → Reply (ToolReply × Db)
unfolding new_task
insert_task id r title description db =
    let next = max_sequence db.tasks + 1 in
    if elem id (row_ids db.tasks)
    then raise integrity_error
    else ok (
      added next,
      emit (task_created next) (some r) none
          (record db { tasks = db.tasks ++ new_task id next r title description ∷ [] }),
    )

-- `add_task`
unfoldable pub add_task : ℕ → (title description : Text) → RoleArg → Db → Reply (ToolReply × Db)
unfolding insert_task
add_task id title description r db =
    if is_empty (strip title) then ok (error title_empty, db) else elim (task_role r) [
      | none ↦ ok (error (role_refused r), db)
      | some known ↦
          if leb max_board_tasks (length db.tasks)
          then ok (error (board_full (length db.tasks)), db)
          else insert_task id known (strip title) description db
    ]

abbrev pub is_unfinished : TaskStatus → Bool
is_unfinished TaskStatus.pending = true
is_unfinished TaskStatus.in_progress = true
is_unfinished TaskStatus.blocked = true
is_unfinished _ = false

-- The unfinished tasks that depend on a task.
abbrev pub dependents : ℕ → List AgentTask → List AgentTask
dependents id rows = filter_by (λ t. elem id t.depends_on && is_unfinished t.status) rows

abbrev pub skip_row : Text → AgentTask → AgentTask
skip_row reason t = record t { status = TaskStatus.skipped; result = or_none (strip reason) }

pub skip_found : AgentTask → Text → Db → ToolReply × Db
skip_found t reason db =
    if not (is_pending t.status)
    then (error (not_pending t.sequence t.status), db)
    else if not (is_empty (dependents t.id db.tasks))
    then (error (has_dependents t.sequence (map (λ d. d.sequence) (dependents t.id db.tasks))), db)
    else (
      skipped_task t.sequence,
      emit (task_status_changed TaskStatus.pending TaskStatus.skipped) none (some t.id)
          (record db { tasks = update_row t.id (skip_row reason) db.tasks }),
    )

pub skip_sequence : ℕ → Text → Db → ToolReply × Db
unfolding skip_found
skip_sequence sequence reason db = elim (find_by (λ t. t.sequence == sequence) db.tasks) [
  | none ↦ (error (no_task sequence), db)
  | some t ↦ skip_found t reason db
]

abbrev pub asks_skip : StatusArg → Bool
asks_skip (known_status s) = is_skipped s
asks_skip (unknown_status _) = false

-- `update_task_status`
unfoldable pub update_task_status : ℕ → StatusArg → Text → Db → ToolReply × Db
unfolding skip_sequence
update_task_status sequence s reason db =
    if not (asks_skip s) then (error (status_refused s), db) else skip_sequence sequence reason db

-- One call that a model asked for.
pub data ToolCall : Type 0 where
  add : (id : ℕ) (title description : Text) → RoleArg → ToolCall
  set_status : (sequence : ℕ) → StatusArg → (reason : Text) → ToolCall
  other : ToolName → (succeeds : Bool) → ToolCall
  unknown_tool : Text → ToolCall

pub run_allowed : ToolCall → Db → Reply (ToolReply × Db)
unfolding add_task update_task_status
run_allowed (add id title description r) db = add_task id title description r db
run_allowed (set_status sequence s reason) db = ok (update_task_status sequence s reason db)
run_allowed (other _ succeeds) db = ok (if succeeds then other_reply else error other_error, db)
run_allowed (unknown_tool _) db = ok (error not_available, db)

abbrev pub permits : List ToolName → ToolCall → Bool
permits allowed (add _ _ _ _) = is_allowed add_task_name allowed
permits allowed (set_status _ _ _) = is_allowed update_task_status_name allowed
permits allowed (other name _) = is_allowed name allowed
permits allowed (unknown_tool _) = false

-- `call_tool`: a call off the allow-list, or of no tool, is answered with an error.
unfoldable pub call_tool : List ToolName → ToolCall → Db → Reply (ToolReply × Db)
unfolding run_allowed
call_tool allowed call db =
    if permits allowed call then run_allowed call db else ok (error not_available, db)
