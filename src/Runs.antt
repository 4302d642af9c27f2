-- ===== src/Runs.antt =====
-- What a user may do to a run: `edit_plan`, `decide_run` and `delete_run` of
-- apps/engine/src/engine/api/runs.py, for the run that the path names and that the user sees.
pub mod Gate
use automated_software_engin.Prelude.{
  ℕ, ◌+◌, ◌≡◌, refl, sym, subst, inl, inr, Bool, true, false, not, ◌&&◌, ◌||◌, Option, none, some,
  List, [], ◌∷◌, map, arith, All, filter_by, is_empty, find_by, if◌then◌else◌, Bool-cases,
  Option-cases, Text, text_eq, strip, elem, subset, length, leb, ◌==◌,
}
use automated_software_engin.Enums.{
  RunStatus, TaskStatus, is_queued, is_planning, is_awaiting, is_executing, is_reviewing,
  is_pending, is_skipped,
}
use automated_software_engin.Store.{
  AgentRun, AgentTask, RunPlan, Db, emit, update_row, by_sequence, to_task_state, plan_edited,
  plan_approved, plan_rejected, run_status_changed, run_finished,
}
use automated_software_engin.Tools.{row_ids, or_none}

-- The errors of the handlers, as the values that they print.
pub data HttpError : Type 0 where
  not_editable not_waiting still_working nothing_left not_connected : HttpError
  unknown_tasks : (ids : List ℕ) → HttpError

pub data Answer {ℓ} (A : Type ℓ) : Type ℓ where
  answered : A → Answer A
  http_error : HttpError → Answer A

-- PlanTaskEdit, after its validation.
pub record PlanTaskEdit : Type 0 where
  pub id : ℕ
  pub title : Text
  pub description : Option Text
  pub drop : Bool

-- The set `{edit.id for edit in body.tasks if edit.drop}`.
abbrev pub add_id : ℕ → List ℕ → List ℕ
add_id i ids = if elem i ids then ids else i ∷ ids

abbrev pub dropped_ids : List PlanTaskEdit → List ℕ
dropped_ids [] = []
dropped_ids (e ∷ es) = let rest = dropped_ids es in if e.drop then add_id e.id rest else rest

abbrev pub optional_eq : Option Text → Option Text → Bool
optional_eq none none = true
optional_eq (some s) (some t) = text_eq s t
optional_eq _ _ = false

abbrev pub new_description : PlanTaskEdit → AgentTask → Option Text
new_description e r = elim e.description [ none ↦ r.description | some d ↦ or_none (strip d) ]

abbrev pub changes : PlanTaskEdit → AgentTask → Bool
changes e r = not (text_eq r.title e.title) || not (optional_eq r.description (new_description e r))

abbrev pub edit_row : PlanTaskEdit → AgentTask → AgentTask
edit_row e r = record r { title = e.title; description = new_description e r }

-- One round of the loop over the edits, with the number of changed rows.
abbrev pub apply_edit : PlanTaskEdit → ℕ × List AgentTask → ℕ × List AgentTask
apply_edit e (edited, rows) =
    if e.drop then (edited, rows) else elim (find_by (λ r. r.id == e.id) rows) [
      | none ↦ (edited, rows)
      | some r ↦
          if changes e r then (edited + 1, update_row e.id (edit_row e) rows) else (edited, rows)
    ]

abbrev pub apply_edits : List PlanTaskEdit → ℕ × List AgentTask → ℕ × List AgentTask
apply_edits [] p = p
apply_edits (e ∷ es) p = apply_edits es (apply_edit e p)

-- A dropped task vanishes from what the survivors depend on.
abbrev pub forget : List ℕ → AgentTask → AgentTask
forget dropped r = record r { depends_on = filter_by (λ dep. not (elem dep dropped)) r.depends_on }

abbrev pub survivors : List ℕ → List AgentTask → List AgentTask
survivors dropped rows = map (forget dropped) (filter_by (λ r. not (elem r.id dropped)) rows)

abbrev pub summary_of : Option RunPlan → Text
summary_of none = []
summary_of (some p) = p.summary

save_edit : List ℕ → ℕ → List AgentTask → AgentRun → Db → Db
save_edit dropped edited rows run db =
    let kept = survivors dropped rows in
    emit (plan_edited edited (length dropped)) none none (record db {
      tasks = kept;
      run = some (record run {
        plan = some (record {
          summary = summary_of run.plan;
          titles = map (λ t. t.title) (by_sequence kept);
        });
      });
    })

edit_board : List PlanTaskEdit → AgentRun → Db → Answer (ℕ × ℕ) × Db
unfolding save_edit
edit_board edits run db =
    let dropped = dropped_ids edits in
    let unknown = filter_by (λ i. not (elem i (row_ids db.tasks))) (map (λ e. e.id) edits) in
    let (edited, rows) = apply_edits edits (0, db.tasks) in
    if not (is_empty unknown)
    then (http_error (unknown_tasks unknown), db)
    else if leb (length db.tasks) (length dropped)
    then (http_error nothing_left, db)
    else (answered (edited, length dropped), save_edit dropped edited rows run db)

-- `edit_plan`
unfoldable pub edit_plan : List PlanTaskEdit → AgentRun → Db → Answer (ℕ × ℕ) × Db
unfolding edit_board
edit_plan edits run db =
    if not (is_awaiting run.status) then (http_error not_editable, db) else edit_board edits run db

-- The plan is rejected, so nothing of it will run.
abbrev skip_task : AgentTask → AgentTask
skip_task t = record t { status = TaskStatus.skipped }

abbrev approve : AgentRun → Db → Db
approve run db =
    emit (run_status_changed RunStatus.awaiting_approval RunStatus.executing) none none (
      emit plan_approved none none
        (record db { run = some (record run { status = RunStatus.executing }) }))

abbrev reject : AgentRun → Db → Db
reject run db = emit (run_finished RunStatus.cancelled none) none none (
    emit plan_rejected none none (record db {
      run = some (record run { status = RunStatus.cancelled; finished_at = true });
      tasks = map skip_task db.tasks;
    }))

-- `decide_run`: the claim is one atomic update of a row that waits for approval.
unfoldable pub decide_run : (approved : Bool) → AgentRun → Db → Answer Bool × Db
decide_run approved run db =
    if is_awaiting run.status
    then (answered approved, if approved then approve run db else reject run db)
    else (http_error not_waiting, db)

-- `_ACTIVE_RUN_STATUSES`
abbrev pub is_active : RunStatus → Bool
is_active s = is_queued s || is_planning s || is_executing s || is_reviewing s

-- `delete_run`: the rows of the run go with it.
unfoldable pub delete_run : AgentRun → Db → Answer (Unit {0}) × Db
delete_run run db =
    if is_active run.status
    then (http_error still_working, db)
    else (answered tt, record db { run = none; tasks = []; events = [] })

-- The row of a new run.
abbrev queued_run : (repository_id : ℕ) → Text → Option ℕ → AgentRun
queued_run repository_id request max_cost_usd = record {
  repository_id = some repository_id;
  request = request;
  status = RunStatus.queued;
  plan = none;
  branch_name = none;
  base_sha = none;
  pr_url = none;
  error = none;
  started_at = false;
  finished_at = false;
  total_input_tokens = 0;
  total_output_tokens = 0;
  total_cost_usd = 0;
  max_cost_usd = max_cost_usd;
}

abbrev fresh : AgentRun → Db
fresh run = record { run = some run; tasks = []; events = [] }

-- `rerun_run`: the rows of the new run; `is_connected` says which repositories are still there.
unfoldable pub rerun_run : (is_connected : ℕ → Bool) → AgentRun → Answer Db
rerun_run is_connected source = elim source.repository_id [
  | none ↦ http_error not_connected
  | some i ↦
      if is_connected i
      then answered (fresh (queued_run i source.request source.max_cost_usd))
      else http_error not_connected
]
