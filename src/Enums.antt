-- ===== src/Enums.antt =====
-- apps/engine/src/engine/db/enums.py: the status and role vocabularies of the agent runtime, and
-- the tests that the runtime makes on them.
use automated_software_engin.Prelude.{ℕ, Bool, true, false, ◌==◌}

pub data RunStatus : Type 0 where
  queued planning awaiting_approval executing reviewing completed failed cancelled : RunStatus

pub data TaskStatus : Type 0 where
  pending blocked in_progress done failed skipped : TaskStatus

pub data AgentRole : Type 0 where
  supervisor product_manager backend frontend devops reviewer qa scrum_master technical_writer :
      AgentRole

-- The tests `status == TaskStatus.…` that the source makes.
abbrev pub is_pending : TaskStatus → Bool
is_pending TaskStatus.pending = true
is_pending _ = false

abbrev pub is_done : TaskStatus → Bool
is_done TaskStatus.done = true
is_done _ = false

abbrev pub is_skipped : TaskStatus → Bool
is_skipped TaskStatus.skipped = true
is_skipped _ = false

abbrev pub is_in_progress : TaskStatus → Bool
is_in_progress TaskStatus.in_progress = true
is_in_progress _ = false

abbrev pub task_status_eq : TaskStatus → TaskStatus → Bool
task_status_eq TaskStatus.pending TaskStatus.pending = true
task_status_eq TaskStatus.blocked TaskStatus.blocked = true
task_status_eq TaskStatus.in_progress TaskStatus.in_progress = true
task_status_eq TaskStatus.done TaskStatus.done = true
task_status_eq TaskStatus.failed TaskStatus.failed = true
task_status_eq TaskStatus.skipped TaskStatus.skipped = true
task_status_eq _ _ = false

-- The tests `run.status == RunStatus.…` and `run.status in …` that the source makes.
abbrev pub is_queued : RunStatus → Bool
is_queued RunStatus.queued = true
is_queued _ = false

abbrev pub is_planning : RunStatus → Bool
is_planning RunStatus.planning = true
is_planning _ = false

abbrev pub is_awaiting : RunStatus → Bool
is_awaiting RunStatus.awaiting_approval = true
is_awaiting _ = false

abbrev pub is_executing : RunStatus → Bool
is_executing RunStatus.executing = true
is_executing _ = false

abbrev pub is_reviewing : RunStatus → Bool
is_reviewing RunStatus.reviewing = true
is_reviewing _ = false

-- `_TERMINAL_STATUSES` of api/runs.py.
abbrev pub is_terminal : RunStatus → Bool
is_terminal RunStatus.completed = true
is_terminal RunStatus.failed = true
is_terminal RunStatus.cancelled = true
is_terminal _ = false

abbrev pub role_number : AgentRole → ℕ
role_number supervisor = 0
role_number product_manager = 1
role_number backend = 2
role_number frontend = 3
role_number devops = 4
role_number reviewer = 5
role_number qa = 6
role_number scrum_master = 7
role_number technical_writer = 8

abbrev pub role_eq : AgentRole → AgentRole → Bool
role_eq a b = role_number a == role_number b
