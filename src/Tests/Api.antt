-- ===== src/Tests/Api.antt =====
-- The theorems on the approval gate, on recovery, on verdicts and on backlogs at concrete inputs.
use automated_software_engin.Loop.{AssistantTurn, Took, tool_loop, tool_loop-Took}
use automated_software_engin.Runner.Phases.{execute_tasks}
use automated_software_engin.Runner.Completion.{HasEnded}
use automated_software_engin.Runner.Ending.{execute_tasks-HasEnded}
use automated_software_engin.Recovery.{execute_tasks_job}
use automated_software_engin.Recovery.Redelivery.{execute_tasks_job-HasEnded, recover_run-HasEnded}
use automated_software_engin.Prelude.{
  ℕ, zero, suc, ◌≡◌, refl, true, false, none, some, List, [], ◌∷◌, codes, strip, lstrip, is_space,
}
use automated_software_engin.Enums.{RunStatus, TaskStatus, frontend}
use automated_software_engin.Store.{AgentRun, Db, to_task_state}
use automated_software_engin.Answers.{
  Fields, get, role_test, engineer_named, str, list, object, item, no_items, field, no_fields,
}
use automated_software_engin.Reviewer.{
  IsVerdict, validate_verdict, check_finding, validate_verdict-IsVerdict,
}
use automated_software_engin.Recovery.{
  IsResumed, reset_interrupted_execution, reset_interrupted_execution-IsResumed,
  reset_interrupted_execution-again, recover_run,
}
use automated_software_engin.Runs.{PlanTaskEdit, http_error, not_waiting, edit_plan, decide_run}
use automated_software_engin.Runs.Gate.{IsRunnable, edit_plan-IsRunnable, decide_run-once}
use automated_software_engin.Insights.{plan_insights, IsRecommended, plan_insights-IsRecommended}
use automated_software_engin.Backlog.{
  WorkItem, WorkItemKind, WorkItemStatus, Priority, low, high, pos,
}
use automated_software_engin.Runner.World.{LlmUsage, Outside, World, Verdict, Session}
use automated_software_engin.Errors.{Reply, ok}
use automated_software_engin.Store.{passed}
use automated_software_engin.Tests.{row}

abbrev run_in : RunStatus → AgentRun
run_in status = record {
  repository_id = some 1;
  request = codes "a login page";
  status = status;
  plan = none;
  branch_name = some (codes "b");
  base_sha = some (codes "c");
  pr_url = none;
  error = none;
  started_at = true;
  finished_at = false;
  total_input_tokens = 0;
  total_output_tokens = 0;
  total_cost_usd = 0;
  max_cost_usd = some 100;
}

abbrev board : RunStatus → TaskStatus → Db
board status first = record {
  run = some (run_in status);
  tasks = row 1 first [] ∷ row 2 TaskStatus.pending (1 ∷ []) ∷ [];
  events = [];
}

abbrev a_cost : LlmUsage
a_cost = record { input_tokens = 10; output_tokens = 5; cost_usd = 2 }

-- A world outside in which every call succeeds at once.
abbrev said : {A : Type 0} → A → Session A
said a = record {
  acts = [];
  usage = record { input_tokens = 10; output_tokens = 5; cost_usd = 2 };
  reply = ok a;
}

abbrev fine : Outside (Unit {0})
fine = record {
  repository = λ _ _. some (record { url = []; default_branch = codes "main" });
  recall = λ _ _ w. (ok 0, w);
  load_workspace = λ branch sha w. (ok (record { branch = branch; base_sha = sha }), w);
  open_workspace = λ _ w. (ok (record { branch = codes "b"; base_sha = codes "c" }), w);
  task_key = λ n _. n;
  create_plan = λ _ w. (said (record { summary = codes "s"; tasks = [] }), w);
  execute_task = λ _ _ w. (said (codes "done"), w);
  review_run = λ _ w. (said (record { approve = true; findings = [] }), w);
  execute_revision = λ _ _ _ w. (said (codes "done"), w);
  fix_failing_tests = λ _ _ w. (said (codes "done"), w);
  run_sandbox = λ w. (ok (record { status = passed; reason = []; output = [] }), w);
  diff = λ _ w. (ok [], w);
  scan_secrets = λ _. 0;
  scan_dependencies = λ _. 0;
  pushed = λ _ w. (ok (some none), w);
  qa_max_attempts = 2;
  graph_steps = 100;
}

abbrev world : Db → World (Unit {0})
world db = record { db = db; known_ids = []; env = tt }

abbrev interrupted : Db
interrupted = board RunStatus.reviewing TaskStatus.in_progress

reset_interrupted_execution-IsResumed_example :
    ((reset_interrupted_execution true interrupted).0 ≡ true)
    × IsResumed interrupted (reset_interrupted_execution true interrupted).1
reset_interrupted_execution-IsResumed_example =
    reset_interrupted_execution-IsResumed true interrupted (run_in RunStatus.reviewing) refl refl

reset_interrupted_execution-again_example :
    reset_interrupted_execution true (reset_interrupted_execution true interrupted).1
    ≡ (true, (reset_interrupted_execution true interrupted).1)
reset_interrupted_execution-again_example =
    reset_interrupted_execution-again interrupted (run_in RunStatus.reviewing) refl refl

abbrev at_gate : Db
at_gate = board RunStatus.awaiting_approval TaskStatus.pending

abbrev drop_first : List PlanTaskEdit
drop_first =
    record { id = 1; title = codes "unused"; description = none; drop = true }
    ∷ record { id = 2; title = codes "new title"; description = some []; drop = false }
    ∷ []

at_gate-IsRunnable : IsRunnable [] at_gate.tasks
unfolding to_task_state
at_gate-IsRunnable = (refl, (λ _. refl), (refl, (λ _. refl), tt))

edit_plan-IsRunnable_example :
    IsRunnable [] (edit_plan drop_first (run_in RunStatus.awaiting_approval) at_gate).1.tasks
edit_plan-IsRunnable_example =
    edit_plan-IsRunnable drop_first (run_in RunStatus.awaiting_approval) at_gate at_gate-IsRunnable

decide_run-once_example :
    decide_run true
      (run_in RunStatus.executing)
      (decide_run true (run_in RunStatus.awaiting_approval) at_gate).1
    ≡ (http_error not_waiting, (decide_run true (run_in RunStatus.awaiting_approval) at_gate).1)
unfolding decide_run
decide_run-once_example =
    decide_run-once true true (run_in RunStatus.awaiting_approval) (run_in RunStatus.executing)
      at_gate refl refl refl

abbrev verdict_answer : Fields
verdict_answer = field (codes "verdict") (str (codes "request_changes")) (
    field (codes "findings")
      (list (
        item
          (object (
            field (codes "role") (str (codes "frontend"))
              (field (codes "issue") (str (codes "no test")) no_fields)))
          no_items))
      no_fields)

abbrev clean_verdict : Verdict
clean_verdict = record {
  approve = false;
  findings = record { role = frontend; issue = codes "no test" } ∷ [];
}

validate_verdict-IsVerdict_example : IsVerdict clean_verdict
unfolding validate_verdict check_finding get role_test engineer_named strip lstrip is_space
validate_verdict-IsVerdict_example = validate_verdict-IsVerdict verdict_answer clean_verdict refl

abbrev an_item : (id : ℕ) → WorkItemStatus → Priority → List ℕ → WorkItem
an_item id status priority depends_on = record {
  id = id;
  repository_id = 1;
  title = codes "a page";
  description = none;
  kind = WorkItemKind.feature;
  status = status;
  estimate = none;
  priority = priority;
  milestone = none;
  depends_on = depends_on;
  rationale = none;
  position = pos 0;
  implemented_by_run_id = none;
  external_issue_url = none;
  external_issue_key = none;
  created_at = id;
}

abbrev backlog : List WorkItem
backlog =
    an_item 1 WorkItemStatus.ready low [] ∷ an_item 2 WorkItemStatus.proposed high (1 ∷ []) ∷ []

plan_insights-IsRecommended_example : IsRecommended backlog 1
unfolding plan_insights
plan_insights-IsRecommended_example = plan_insights-IsRecommended backlog 1 refl

-- A model that asks for a tool once and then ends.
abbrev two_turns : ℕ → Reply (AssistantTurn ℕ) × ℕ
two_turns zero = (ok (record { tool_calls = 7 ∷ []; content = []; cost = a_cost }), 1)
two_turns (suc n) = (ok (record { tool_calls = []; content = codes "done"; cost = a_cost }), suc n)

tool_loop-Took_example :
    Took two_turns
      (λ _ n. (ok tt, n))
      24
      0
      a_cost
      (tool_loop two_turns (λ _ n. (ok tt, n)) 24 0 a_cost)
tool_loop-Took_example = tool_loop-Took two_turns (λ _ n. (ok tt, n)) 24 0 a_cost

execute_tasks-HasEnded_example :
    HasEnded (execute_tasks fine (world (board RunStatus.executing TaskStatus.pending))).db
execute_tasks-HasEnded_example =
    execute_tasks-HasEnded fine (world (board RunStatus.executing TaskStatus.pending))
      (run_in RunStatus.executing) refl refl

execute_tasks_job-HasEnded_example : HasEnded (execute_tasks_job fine (world interrupted)).db
execute_tasks_job-HasEnded_example =
    execute_tasks_job-HasEnded fine (world interrupted) (run_in RunStatus.reviewing) refl refl

recover_run-HasEnded_example : HasEnded (recover_run fine (world interrupted)).db
recover_run-HasEnded_example =
    recover_run-HasEnded fine (world interrupted) (run_in RunStatus.reviewing) refl refl
