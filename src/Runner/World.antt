-- ===== src/Runner/World.antt =====
-- What a run acts on: the rows of the run, the task ids that the executor has reported, and the
-- world outside the engine (the model, git, Docker, source hosts), which is a parameter.
use automated_software_engin.Prelude.{
  ℕ, ◌+◌, Bool, true, false, Option, none, some, List, [], ◌∷◌, leb, if◌then◌else◌, Text,
}
use automated_software_engin.Errors.{Exc, budget_exceeded, assertion_error, Reply, ok, raise}
use automated_software_engin.Enums.{AgentRole, RunStatus}
use automated_software_engin.Store.{
  RunError, AgentRun, Db, SandboxStatus, emit, update_run, run_status_changed, run_finished,
  tool_called, agent_reasoning,
}
use automated_software_engin.Supervisor.{TaskState}
use automated_software_engin.Tools.{ToolCall, ToolReply, error, call_tool}
use automated_software_engin.Registry.{get_agent_spec}

-- LlmUsage of loop.py, in tokens and micro-dollars.
pub record LlmUsage : Type 0 where
  pub input_tokens : ℕ
  pub output_tokens : ℕ
  pub cost_usd : ℕ

-- What an agent does: a tool call, or a turn that says why it calls.
pub data AgentAct : Type 0 where
  called : ToolCall → AgentAct
  reasoned : AgentAct

-- One agent at work: what it does, what it costs, and how it ends.
pub record Session (A : Type 0) : Type 0 where
  pub acts : List AgentAct
  pub usage : LlmUsage
  pub reply : Reply A

pub record Repository : Type 0 where
  pub url : Text
  pub default_branch : Text

pub record Workspace : Type 0 where
  pub branch : Text
  pub base_sha : Text

pub record PlanTask : Type 0 where
  pub title : Text
  pub role : AgentRole
  pub description : Text
  pub depends_on : List ℕ

pub record Plan : Type 0 where
  pub summary : Text
  pub tasks : List PlanTask

pub record Finding : Type 0 where
  pub role : AgentRole
  pub issue : Text

pub record Verdict : Type 0 where
  pub approve : Bool
  pub findings : List Finding

pub record SandboxResult : Type 0 where
  pub status : SandboxStatus
  pub reason : Text
  pub output : Text

-- What the runner calls and this module does not define. `pushed` is none where the push fails,
-- and some request, if one was opened, where it succeeds; a scan counts its findings.
pub record Outside (E : Type 0) : Type 0 where
  pub repository : ℕ → E → Option Repository
  pub recall : ℕ → Text → E → Reply ℕ × E
  pub open_workspace : Text → E → Reply Workspace × E
  pub load_workspace : (branch base_sha : Text) → E → Reply Workspace × E
  pub task_key : ℕ → E → ℕ
  pub create_plan : Text → E → Session Plan × E
  pub execute_task : TaskState → Text → E → Session Text × E
  pub review_run : Text → E → Session Verdict × E
  pub execute_revision : AgentRole → List Text → Text → E → Session Text × E
  pub fix_failing_tests : Text → ℕ → E → Session Text × E
  pub run_sandbox : E → Reply SandboxResult × E
  pub diff : Text → E → Reply Text × E
  pub scan_secrets : Text → ℕ
  pub scan_dependencies : Text → ℕ
  pub pushed : Repository → E → Reply (Option (Option Text)) × E
  pub qa_max_attempts : ℕ
  pub graph_steps : ℕ

pub record World (E : Type 0) : Type 0 where
  pub db : Db
  pub known_ids : List ℕ
  pub env : E

-- `_set_run_status`
abbrev pub set_run_status : RunStatus → Db → Db
set_run_status status db = elim db.run [
  | none ↦ db
  | some run ↦
      emit (run_status_changed run.status status) none none
        (record db { run = some (record run { status = status }) })
]

-- `_fail_run`
abbrev pub fail_run : RunError → Db → Db
fail_run e db = elim db.run [
  | none ↦ db
  | some run ↦ emit (run_finished RunStatus.failed (some e)) none none (
      emit (run_status_changed run.status RunStatus.failed) none none (record db {
        run = some (record run { status = RunStatus.failed; error = some e; finished_at = true });
      }))
]

-- `_apply_usage`
abbrev pub apply_usage : LlmUsage → Db → Db
apply_usage u = update_run λ run. record run {
  total_input_tokens = run.total_input_tokens + u.input_tokens;
  total_output_tokens = run.total_output_tokens + u.output_tokens;
  total_cost_usd = run.total_cost_usd + u.cost_usd;
}

-- `_check_budget`
abbrev pub check_budget : AgentRun → Option Exc
check_budget run = elim run.max_cost_usd [
  | none ↦ none
  | some cap ↦
      if leb cap run.total_cost_usd then some (budget_exceeded cap run.total_cost_usd) else none
]

abbrev pub is_fine : ToolReply → Bool
is_fine (error _) = false
is_fine _ = true

-- An agent's tool calls, each answered by the dispatcher and recorded by `_tool_observer`, and its
-- reasoning, recorded by `_reasoning_observer`. An exception that is no ToolError ends the agent.
unfoldable pub perform : AgentRole → Option ℕ → List AgentAct → Db → Option Exc × Db
perform role task [] db = (none, db)
perform role task (reasoned ∷ acts) db =
    perform role task acts (emit agent_reasoning (some role) task db)
perform role task (called call ∷ acts) db = elim (call_tool (get_agent_spec role).tools call db) [
  | raise e ↦ (some e, db)
  | ok (reply, db') ↦
      perform role task acts (emit (tool_called (is_fine reply)) (some role) task db')
]

abbrev pub or_raise : {A : Type 0} → Option Exc → Reply A → Reply A
or_raise none r = r
or_raise (some e) r = raise e

module _ {E : Type 0} where
  -- An agent's session: what it cost, how it ended and what it left.
  unfoldable pub converse :
      {A : Type 0}
      → AgentRole
      → Option ℕ
      → (E → Session A × E)
      → World E
      → (LlmUsage × Reply A) × World E
  converse role task agent w =
      let (session, env') = agent w.env in
      let (failure, db') = perform role task session.acts w.db in
      ((session.usage, or_raise failure session.reply), record w { db = db'; env = env' })

-- A piece of the run that may raise. What was committed before stays.
abbrev pub Run : Type 0 → Type 0 → Type 0
Run E A = World E → Reply A × World E

module _ {E : Type 0} where
  abbrev pub pure : {A : Type 0} → A → Run E A
  pure a w = (ok a, w)

  abbrev pub and_then : {A B : Type 0} → Reply A × World E → (A → Run E B) → Reply B × World E
  and_then (ok a, w) f = f a w
  and_then (raise e, w) f = (raise e, w)

  infixl 5 ◌>>=◌ ◌>>◌
  abbrev pub ◌>>=◌ : {A B : Type 0} → Run E A → (A → Run E B) → Run E B
  ◌>>=◌ m f w = and_then (m w) f

  abbrev pub ◌>>◌ : {A B : Type 0} → Run E A → Run E B → Run E B
  m >> k = m >>= λ _. k

  -- A session block that loads the run, asserts that it is there, and commits.
  abbrev pub on_run : (Db → Db) → Run E (Unit {0})
  on_run f w = elim w.db.run [
    | none ↦ (raise assertion_error, w)
    | some _ ↦ (ok tt, record w { db = f w.db })
  ]

  abbrev pub outside : {A : Type 0} → (E → Reply A × E) → Run E A
  outside f w = let (r, env') = f w.env in (r, record w { env = env' })

  abbrev pub session_end :
      {A : Type 0} → (LlmUsage × Reply A) × World E → Reply (LlmUsage × A) × World E
  session_end ((usage, ok a), w) = (ok (usage, a), w)
  session_end ((usage, raise e), w) = (raise e, w)

  -- A session whose cost is lost where it raises.
  abbrev pub session_of : {A : Type 0} → AgentRole → (E → Session A × E) → Run E (LlmUsage × A)
  session_of role agent w = session_end (converse role none agent w)
