-- ===== src/Store.antt =====
-- apps/engine/src/engine/db/models.py, as far as one run uses it: its row, the rows of its task
-- board and its timeline. Costs are counted in micro-dollars, the unit of the columns.
use automated_software_engin.Prelude.{
  ℕ, Bool, Option, none, some, List, [], ◌∷◌, ◌==◌, leb, if◌then◌else◌, Text,
}
use automated_software_engin.Errors.{Exc}
use automated_software_engin.Enums.{AgentRole, RunStatus, TaskStatus}
use automated_software_engin.Supervisor.{TaskState, Failure}

pub data SandboxStatus : Type 0 where
  passed failed skipped : SandboxStatus

-- Why a run failed: the texts of runner.py, as the values that they print.
pub data RunError : Type 0 where
  crash : Exc → RunError
  task_failure : Failure → RunError
  not_approved : RunError
  tests_failing : (attempts : ℕ) (reason : Text) → RunError
  secrets_found : (findings : ℕ) → RunError
  vulnerable_dependencies : (findings : ℕ) → RunError

pub data EventKind : Type 0 where
  run_started run_recovered plan_created plan_approved plan_rejected branch_published : EventKind
  run_status_changed : (from to : RunStatus) → EventKind
  run_finished : (status : RunStatus) (error : Option RunError) → EventKind
  memory_recalled : (count : ℕ) → EventKind
  task_created : (sequence : ℕ) → EventKind
  task_status_changed : (from to : TaskStatus) → EventKind
  task_attempt_failed : (attempt : ℕ) (error : Exc) → EventKind
  tool_called : (ok : Bool) → EventKind
  agent_reasoning : EventKind
  review_verdict : (approved : Bool) (findings : ℕ) → EventKind
  review_revision : (findings : ℕ) → EventKind
  sandbox_run : (attempt : ℕ) (status : SandboxStatus) → EventKind
  qa_attempt : (attempt : ℕ) → EventKind
  security_scan : (findings : ℕ) → EventKind
  dependency_scan : (findings : ℕ) → EventKind
  plan_edited : (edited dropped : ℕ) → EventKind

pub record AgentEvent : Type 0 where
  pub kind : EventKind
  pub agent : Option AgentRole
  pub task_id : Option ℕ

pub record RunPlan : Type 0 where
  pub summary : Text
  pub titles : List Text

pub record AgentRun : Type 0 where
  pub repository_id : Option ℕ
  pub request : Text
  pub status : RunStatus
  pub plan : Option RunPlan
  pub branch_name : Option Text
  pub base_sha : Option Text
  pub pr_url : Option Text
  pub error : Option RunError
  pub started_at : Bool
  pub finished_at : Bool
  pub total_input_tokens : ℕ
  pub total_output_tokens : ℕ
  pub total_cost_usd : ℕ
  pub max_cost_usd : Option ℕ

pub record AgentTask : Type 0 where
  pub id : ℕ
  pub sequence : ℕ
  pub role : AgentRole
  pub title : Text
  pub description : Option Text
  pub status : TaskStatus
  pub depends_on : List ℕ
  pub attempts : ℕ
  pub result : Option Text
  pub started_at : Bool
  pub finished_at : Bool

-- The rows of one run. The timeline is kept newest first.
pub record Db : Type 0 where
  pub run : Option AgentRun
  pub tasks : List AgentTask
  pub events : List AgentEvent

-- `_emit`
abbrev pub emit : EventKind → Option AgentRole → Option ℕ → Db → Db
emit kind agent task_id db = record db {
  events = record { kind = kind; agent = agent; task_id = task_id } ∷ db.events;
}

-- A change of the run's row.
abbrev pub update_run : (AgentRun → AgentRun) → Db → Db
update_run f db = elim db.run [ none ↦ db | some run ↦ record db { run = some (f run) } ]

-- A change of one row of the board.
abbrev pub update_row : ℕ → (AgentTask → AgentTask) → List AgentTask → List AgentTask
update_row i f [] = []
update_row i f (t ∷ ts) = (if t.id == i then f t else t) ∷ update_row i f ts

-- `_to_task_state`
unfoldable pub to_task_state : AgentTask → TaskState
to_task_state t = record {
  id = t.id;
  sequence = t.sequence;
  role = t.role;
  title = t.title;
  description = t.description;
  status = t.status;
  depends_on = t.depends_on;
  attempts = t.attempts;
  result = t.result;
}

insert_row : AgentTask → List AgentTask → List AgentTask
insert_row t [] = t ∷ []
insert_row t (u ∷ us) =
    let rest = insert_row t us in if leb t.sequence u.sequence then t ∷ u ∷ us else u ∷ rest

-- `.order_by(AgentTask.sequence)`
pub by_sequence : List AgentTask → List AgentTask
unfolding insert_row
by_sequence [] = []
by_sequence (t ∷ ts) = insert_row t (by_sequence ts)
