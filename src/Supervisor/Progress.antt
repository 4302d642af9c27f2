-- ===== src/Supervisor/Progress.antt =====
-- Enough steps bring the graph to its end.
use automated_software_engin.Prelude.{
  ℕ, zero, suc, ◌+◌, ◌-◌, ◌*◌, ◌≤◌, ◌≡◌, refl, sym, subst, Bool, true, not, some, List, [], ◌∷◌,
  ◌++◌, map, arith, ◌==◌, elem, filter_by, find_by, All-mem, if◌then◌else◌, length,
}
use automated_software_engin.Enums.{TaskStatus, is_pending}
use automated_software_engin.Supervisor.{
  TaskState, SupervisorState, Attempt, ExecutionOutcome, raised, plain, outcome, outcome_of,
  done_ids, skip_reported, started, max_retries, merge, absorb, update_task, schedule,
  after_schedule, finalize, Node, schedule_node, execute_node, finalize_node, end_node, Ending,
  finished, run_graph,
}
use automated_software_engin.Supervisor.Choice.{schedule-Scheduled, tasks-schedule}
use automated_software_engin.Supervisor.Board.{ids, IsSound}
use automated_software_engin.Supervisor.Absorb.{absorb-IsBoard}
use automated_software_engin.Supervisor.Invariant.{
  IsPicked, Enters, Enters-schedule, Enters-finalize, Contract, Link-schedule, Link-finalize,
  run_graph-picked, found_by_id,
}

-- How many more attempts a task may take.
abbrev pub attempts_left : TaskState → ℕ
attempts_left t = if is_pending t.status then max_retries + 1 - t.attempts else 0

abbrev pub work : List TaskState → ℕ
work [] = 0
work (t ∷ ts) = attempts_left t + work ts

abbrev pub new_tasks_of : Attempt → List TaskState
new_tasks_of (outcome o) = o.new_tasks
new_tasks_of _ = []

work-append : (xs ys : List TaskState) → work (xs ++ ys) ≡ work xs + work ys
work-append [] ys = omega arith
work-append (x ∷ xs) ys = omega (arith, work-append xs ys)

work-skip_reported :
    (skipped : List ℕ) (ts : List TaskState) → work (map (skip_reported skipped) ts) ≤ work ts
work-skip_reported skipped [] = omega arith
work-skip_reported skipped (t ∷ ts) = ground (arith, work-skip_reported skipped ts)

work-filter_by-le :
    (p : TaskState → Bool) (ts : List TaskState) → work (filter_by p ts) ≤ 3 * length ts
work-filter_by-le p [] = omega arith
work-filter_by-le p (t ∷ ts) = ground (arith, work-filter_by-le p ts)

work-merge-le :
    (o : ExecutionOutcome) (ts : List TaskState)
    → work (merge o ts) ≤ work ts + 3 * length o.new_tasks
work-merge-le o ts =
    let fresh = filter_by (λ t. not (elem t.id (ids ts))) o.new_tasks in
    omega (
      arith,
      work-skip_reported o.skipped_task_ids (ts ++ fresh),
      work-append ts fresh,
      work-filter_by-le (λ t. not (elem t.id (ids ts))) o.new_tasks,
    )

work-update_task :
    (i : ℕ) (u t : TaskState) (ts : List TaskState)
    → find_by (λ v. v.id == i) ts ≡ some t
    → work (update_task i (λ _. u) ts) + attempts_left t ≡ work ts + attempts_left u
unfolding update_task
work-update_task i u t [] f = cc
work-update_task i u t (v ∷ ts) f = ground (arith, work-update_task i u t ts)

-- Each attempt uses up work, up to what its new tasks bring.
work-absorb :
    (s : SupervisorState) (t : TaskState) (attempt : Attempt)
    → find_by (λ v. v.id == t.id) s.tasks ≡ some t
    → is_pending t.status ≡ true
    → t.attempts ≤ max_retries
    → work (absorb (started t) attempt s).tasks + 1
      ≤ work s.tasks + 3 * length (new_tasks_of attempt)
unfolding absorb
work-absorb s t (raised exc) f p a =
    let left =
      work-update_task t.id (record (started t) { status = TaskStatus.failed }) t s.tasks f in
    let again =
      work-update_task t.id (record (started t) { status = TaskStatus.pending }) t s.tasks f in
    ground arith
work-absorb s t (plain result) f p a =
    let u : TaskState = record (started t) { status = TaskStatus.done; result = some result } in
    ground (
      arith,
      work-update_task t.id u t s.tasks f,
      work-merge-le (outcome_of result) (update_task t.id (λ _. u) s.tasks),
    )
work-absorb s t (outcome o) f p a =
    let u : TaskState = record (started t) { status = TaskStatus.done; result = some o.result } in
    ground (
      arith,
      work-update_task t.id u t s.tasks f,
      work-merge-le o (update_task t.id (λ _. u) s.tasks),
    )

module _ {W : Type 0} (executor : TaskState → W → Attempt × W) (Link : List TaskState → W → Type 0)
    (credit : W → ℕ) where
  -- Each call's new tasks are paid for from a credit that the world holds.
  abbrev pub HasCredit : Type 0
  HasCredit =
      (s : SupervisorState) (w : W) (p : IsPicked s)
      → Link s.tasks w
      → let (attempt, w') = executor (started p.task) w in
        3 * length (new_tasks_of attempt) + credit w' ≤ credit w

  abbrev pub steps_needed : Node → SupervisorState → W → ℕ
  steps_needed schedule_node s w = 2 * (work s.tasks + credit w) + 2
  steps_needed execute_node s w = 2 * (work s.tasks + credit w) + 1
  steps_needed finalize_node s w = 1
  steps_needed end_node s w = 0

  abbrev pub IsFinished : Ending W → Type 0
  IsFinished e = (s : SupervisorState) × (w : W) × (e ≡ finished s w)

  needed-after_schedule :
      (k : ℕ) (s : SupervisorState) (w : W)
      → 2 * (work s.tasks + credit w) + 2 ≤ suc k
      → steps_needed (after_schedule (schedule s)) (schedule s) w ≤ k
  needed-after_schedule k s w h = ground (arith, tasks-schedule s)

  -- From a well-formed board the graph comes to its end if it may run two nodes for each attempt
  -- that the tasks on the board, and those that the world can still add, have left, and two more.
  pub run_graph-IsFinished :
      Contract executor Link
      → HasCredit
      → (steps : ℕ) (n : Node) (s : SupervisorState) (w : W) → Enters n s
      → Link s.tasks w
      → steps_needed n s w ≤ steps
      → IsFinished (run_graph executor steps n s w)
  unfolding run_graph
  run_graph-IsFinished c paid zero schedule_node s w h l k = absurd (omega arith)
  run_graph-IsFinished c paid zero execute_node s w h l k = absurd (omega arith)
  run_graph-IsFinished c paid zero finalize_node s w h l k = absurd (omega arith)
  run_graph-IsFinished c paid zero end_node s w h l k = (s, w, refl)
  run_graph-IsFinished c paid (suc n) end_node s w h l k = (s, w, refl)
  run_graph-IsFinished c paid (suc n) finalize_node s w h l k =
      run_graph-IsFinished c paid n end_node (finalize s) w (Enters-finalize s h)
        (Link-finalize executor Link c s w l) (omega arith)
  run_graph-IsFinished c paid (suc n) schedule_node s w h l k =
      run_graph-IsFinished c paid n (after_schedule (schedule s)) (schedule s) w
        (Enters-schedule s (schedule s) h (schedule-Scheduled s))
        (Link-schedule executor Link s w l) (needed-after_schedule n s w k)
  run_graph-IsFinished c paid (suc n) execute_node s w (b, p) l k =
      let t = started p.task in
      let (attempt, w') = executor t w in
      let sound = All-mem (IsSound (done_ids s.tasks)) p.listed b.sound in
      let found = found_by_id s p b in
      subst IsFinished (sym (run_graph-picked executor n s w p)) (
        run_graph-IsFinished c paid n schedule_node (absorb t attempt s) w'
          (absorb-IsBoard s p.task attempt b p.listed found p.pending p.ready (c.honest s w p b l))
          (c.keeps s w p b l)
          (omega (
            arith,
            paid s w p l,
            work-absorb s p.task attempt found p.pending (sound.retriable p.pending),
          )))
