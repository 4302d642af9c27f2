-- ===== src/Tests.antt =====
-- The theorems at concrete boards, executors, calls and plans.
mod Plans
mod Services
mod Guards
mod Api
use Prim.Native.String.{String}
use automated_software_engin.Prelude.{
  ℕ, zero, suc, ◌+◌, ◌*◌, ◌≤◌, ◌≡◌, refl, Bool, true, false, Option, none, some, List, [], ◌∷◌, map,
  Text, codes, strip, lstrip, is_space, Memᴰ, arith, length,
}
use automated_software_engin.Errors.{Exc, Reply, external, integrity_error, ok, raise}
use automated_software_engin.Enums.{
  AgentRole, TaskStatus, RunStatus, backend, frontend, reviewer, qa, devops,
}
use automated_software_engin.Supervisor.{
  TaskState, SupervisorState, ExecutionOutcome, Attempt, raised, plain, outcome, schedule,
  schedule_node, started, absorb, run_graph, Ending, Node,
}
use automated_software_engin.Supervisor.Choice.{Scheduled, schedule-Scheduled}
use automated_software_engin.Supervisor.Board.{IsBoard, IsNew, IsSound, IsNew-IsSound}
use automated_software_engin.Supervisor.Absorb.{IsHonest, HonestAttempt, absorb-IsBoard}
use automated_software_engin.Supervisor.Invariant.{Contract, IsPicked, Ends, run_graph-Ends}
use automated_software_engin.Supervisor.Progress.{
  HasCredit, IsFinished, new_tasks_of, run_graph-IsFinished,
}
use automated_software_engin.Supervisor.Deadlock.{schedule-failure}
use automated_software_engin.Store.{AgentTask, AgentRun, Db, to_task_state}
use automated_software_engin.Registry.{
  ToolName, write_file, write_tools, apply_patch, git_commit, add_task, update_task_status, may_use,
  is_engineer, is_qa, is_supervisor,
}
use automated_software_engin.Tools.{
  ToolCall, add, set_status, other, unknown_tool, known_role, unknown_role, known_status,
}
use automated_software_engin.Tools.Board.{IsTaskBoard}
use automated_software_engin.Runner.World.{AgentAct, called, reasoned, perform, PlanTask, Plan}
use automated_software_engin.Runner.Agents.{perform-IsTaskBoard, perform-tasks}
use automated_software_engin.Runner.Contracts.{Grows, perform-Grows}
use automated_software_engin.Runner.Planning.{AreFresh, save_tasks-IsOpen}
use automated_software_engin.Runner.Phases.{save_tasks}
use automated_software_engin.Supervisor.Deadlock.{IsOpen}
use automated_software_engin.Answers.{
  Json, Fields, get, role_test, engineer_named, str, int, list, object, item, no_items, field,
  no_fields, null, valid,
}
use automated_software_engin.Loop.Parsing.{parse_json_object, unfenced}
use automated_software_engin.ProductManager.Session.{Rejection, create_plan, create_plan-IsPlan}
use automated_software_engin.ProductManager.{
  IsPlan, ArePlanTasks, validate_plan, validate_plan-IsPlan,
}

-- A board with two tasks, the second waiting for the first, and an executor whose first attempt
-- fails, whose second reports a third task, and which then succeeds.
abbrev waiting : (id : ℕ) (deps : List ℕ) → TaskState
waiting id deps = record {
  id = id;
  sequence = id;
  role = backend;
  title = codes "add a login page";
  description = none;
  status = TaskStatus.pending;
  depends_on = deps;
  attempts = 0;
  result = none;
}

abbrev two_tasks : SupervisorState
two_tasks = record {
  tasks = waiting 1 [] ∷ waiting 2 (1 ∷ []) ∷ [];
  current_task_id = none;
  failure = none;
}

abbrev flaky : TaskState → ℕ → Attempt × ℕ
flaky t zero = (plain (codes "done"), zero)
flaky t (suc zero) = (
  outcome (record { result = codes "done"; new_tasks = waiting 3 [] ∷ []; skipped_task_ids = [] }),
  zero,
)
flaky t (suc (suc n)) = (raised (external []), suc n)

abbrev NoLink : List TaskState → ℕ → Type 0
NoLink _ _ = Unit

flaky-honest : (t : TaskState) (w : ℕ) → HonestAttempt (flaky t w).0
flaky-honest t zero = tt
flaky-honest t (suc zero) = record {
  new = (record { fresh = refl; not_done = refl }, tt);
  distinct = (refl, tt);
}
flaky-honest t (suc (suc n)) = tt

flaky-Contract : Contract flaky NoLink
flaky-Contract = record {
  honest = λ s w p _ _. flaky-honest (started p.task) w;
  keeps = λ _ _ _ _ _. tt;
  finalizes = λ _ _ _. tt;
}

flaky-paid :
    (t : TaskState) (w : ℕ) → 3 * length (new_tasks_of (flaky t w).0) + 3 * (flaky t w).1 ≤ 3 * w
flaky-paid t zero = omega arith
flaky-paid t (suc zero) = omega arith
flaky-paid t (suc (suc n)) = omega arith

two_tasks-IsBoard : IsBoard two_tasks.tasks
two_tasks-IsBoard = record {
  distinct = (refl, (refl, tt));
  sound = (new 1 [], (new 2 (1 ∷ []), tt));
}
  where
    new : (id : ℕ) (deps : List ℕ) → IsSound [] (waiting id deps)
    new id deps = IsNew-IsSound [] (waiting id deps) (record { fresh = refl; not_done = refl })

run_graph-Ends_example : Ends flaky NoLink (run_graph flaky 40 schedule_node two_tasks 2)
run_graph-Ends_example =
    run_graph-Ends flaky NoLink flaky-Contract 40 schedule_node two_tasks 2 two_tasks-IsBoard tt

run_graph-IsFinished_example :
    IsFinished flaky NoLink (λ w. 3 * w) (run_graph flaky 26 schedule_node two_tasks 2)
run_graph-IsFinished_example =
    run_graph-IsFinished flaky NoLink (λ w. 3 * w) flaky-Contract
      (λ s w p _. flaky-paid (started p.task) w) 26 schedule_node two_tasks 2 two_tasks-IsBoard tt
      (omega arith)

schedule-failure_example : (schedule two_tasks).failure ≡ none
schedule-failure_example =
    schedule-failure two_tasks refl (refl, (λ _. refl), (refl, (λ _. refl), tt))

schedule-Scheduled_example : Scheduled two_tasks (schedule two_tasks)
schedule-Scheduled_example = schedule-Scheduled two_tasks

absorb-IsBoard_example :
    IsBoard (absorb (started (waiting 1 [])) (flaky (waiting 1 []) 1).0 two_tasks).tasks
absorb-IsBoard_example =
    absorb-IsBoard two_tasks (waiting 1 []) (flaky (waiting 1 []) 1).0 two_tasks-IsBoard
      (Memᴰ.head refl) refl refl refl (flaky-honest (waiting 1 []) 1)

-- A saved board of two rows, and a session of calls that the tools take and refuse.
abbrev row : (id : ℕ) → TaskStatus → (deps : List ℕ) → AgentTask
row id status deps = record {
  id = id;
  sequence = id;
  role = backend;
  title = codes "add a login page";
  description = none;
  status = status;
  depends_on = deps;
  attempts = 0;
  result = none;
  started_at = false;
  finished_at = false;
}

abbrev two_rows : Db
two_rows = record {
  run = none;
  tasks = row 1 TaskStatus.pending [] ∷ row 2 TaskStatus.pending (1 ∷ []) ∷ [];
  events = [];
}

abbrev some_acts : List AgentAct
some_acts =
    reasoned
    ∷ called (add 3 (codes "test it") (codes "with care") (known_role devops))
    ∷ called (set_status 1 (known_status TaskStatus.skipped) (codes "done already"))
    ∷ called (set_status 2 (known_status TaskStatus.skipped) (codes "done already"))
    ∷ called (other write_file true)
    ∷ called (unknown_tool (codes "rm"))
    ∷ []

two_rows-IsTaskBoard : IsTaskBoard two_rows.tasks
two_rows-IsTaskBoard = record {
  bounded = omega arith;
  distinct = (refl, (refl, tt));
  numbered = (refl, (refl, tt));
  reachable = ((λ h. cc), ((λ h. cc), tt));
}

perform-IsTaskBoard_example : IsTaskBoard (perform backend none some_acts two_rows).1.tasks
perform-IsTaskBoard_example =
    perform-IsTaskBoard backend none some_acts two_rows two_rows-IsTaskBoard

perform-tasks_example : (perform qa none some_acts two_rows).1.tasks ≡ two_rows.tasks
perform-tasks_example = perform-tasks qa none some_acts two_rows refl

perform-Grows_example : Grows two_rows (perform backend none some_acts two_rows).1
perform-Grows_example = perform-Grows backend none some_acts two_rows

-- A plan of two tasks as the model writes it.
abbrev task_answer : String → Json → Json
task_answer title deps = object (
    field (codes "title") (str (codes title))
      (field (codes "role") (str (codes "backend")) (field (codes "depends_on") deps no_fields)))

abbrev plan_answer : Fields
plan_answer =
    field (codes "tasks")
      (list (
        item (task_answer "add a page" null)
          (item (task_answer "link it" (list (item (int 1) no_items))) no_items)))
      no_fields

abbrev planned : String → List ℕ → PlanTask
planned title deps = record {
  title = codes title;
  role = backend;
  description = [];
  depends_on = deps;
}

abbrev clean_plan : Plan
clean_plan = record {
  summary = codes "a login page";
  tasks = planned "add a page" [] ∷ planned "link it" (1 ∷ []) ∷ [];
}

plan_answer-valid : validate_plan (λ _. []) (codes "a login page") plan_answer ≡ valid clean_plan
unfolding validate_plan get role_test engineer_named strip lstrip is_space
plan_answer-valid = refl

-- A model whose first reply is no JSON, and whose second is the plan.
abbrev loads : Text → Option Json
loads [] = none
loads (c ∷ t) = some (object (field (codes "summary") (str (codes "a login page")) plan_answer))

abbrev second_try : Option Rejection → ℕ → Reply Text × ℕ
second_try none n = (ok [], n)
second_try (some e) n = (ok (codes "x"), n + 1)

abbrev no_text : Json → Text
no_text j = []

abbrev as_is : Text → Text
as_is t = t

plan_created :
    (create_plan no_text as_is loads second_try false no_fields 0).0 ≡ ok (valid clean_plan)
unfolding create_plan parse_json_object unfenced validate_plan get role_test engineer_named strip
    lstrip is_space
plan_created = refl

create_plan-IsPlan_example : IsPlan clean_plan
create_plan-IsPlan_example =
    create_plan-IsPlan no_text as_is loads second_try false no_fields 0 clean_plan plan_created

key-AreFresh : AreFresh (λ n. n) 1 []
key-AreFresh = record { new = λ n h. refl; apart = λ m n e. e }

save_tasks-IsOpen_example :
    (saved : List AgentTask) × (save_tasks (λ n. n) 1 [] clean_plan.tasks ≡ ok saved)
    × IsOpen [] (map to_task_state saved)
    × (length saved ≡ 2)
save_tasks-IsOpen_example =
    save_tasks-IsOpen (λ n. n) clean_plan.tasks
      (validate_plan-IsPlan (λ _. []) (codes "a login page") plan_answer clean_plan
        plan_answer-valid).tasks
      key-AreFresh
