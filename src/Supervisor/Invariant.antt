-- ===== src/Supervisor/Invariant.antt =====
-- What holds through a whole invocation of the graph.
use automated_software_engin.Prelude.{
  ℕ, zero, suc, ◌≡◌, refl, sym, ap, subst, true, false, none, some, List, [], ◌∷◌, map, Memᴰ, arith,
  ◌==◌, elem, subset, Distinct, find_by, All, all_of,
}
use automated_software_engin.Enums.{is_pending}
use automated_software_engin.Supervisor.{
  Failure, TaskState, SupervisorState, Attempt, is_finished, done_ids, skip_pending, started,
  current_task, absorb, schedule, after_schedule, finalize, Node, schedule_node, execute_node,
  finalize_node, end_node, Ending, finished, crashed, out_of_steps, execute, run_graph,
}
use automated_software_engin.Supervisor.Choice.{
  Scheduled, picked, settled, stuck, failing, schedule-Scheduled, tasks-schedule,
}
use automated_software_engin.Supervisor.Board.{ids, IsSound, IsBoard}
use automated_software_engin.Supervisor.Absorb.{HonestAttempt, absorb-IsBoard}

-- The task that the execute node is about to start.
pub record IsPicked (s : SupervisorState) : Type 0 where
  pub task : TaskState
  pub found : current_task s ≡ some task
  pub listed : Memᴰ task s.tasks
  pub pending : is_pending task.status ≡ true
  pub ready : subset task.depends_on (done_ids s.tasks) ≡ true

-- An ended run: without a failure every task is done or skipped, and with one none is pending.
pub record IsSettled (s : SupervisorState) : Type 0 where
  pub complete : s.failure ≡ none → all_of (λ t. is_finished t.status) s.tasks ≡ true
  pub stopped : (f : Failure) → s.failure ≡ some f → All (λ t. is_pending t.status ≡ false) s.tasks

abbrev pub IsFailing : SupervisorState → Type 0
IsFailing s = (f : Failure) × (s.failure ≡ some f)

-- What holds when a node is entered.
abbrev pub Enters : Node → SupervisorState → Type 0
Enters schedule_node s = IsBoard s.tasks
Enters execute_node s = IsBoard s.tasks × IsPicked s
Enters finalize_node s = IsBoard s.tasks × IsFailing s
Enters end_node s = IsBoard s.tasks × IsSettled s

mem-id : {t : TaskState} {ts : List TaskState} → Memᴰ t ts → elem t.id (ids ts) ≡ true
mem-id (Memᴰ.head e) = ground (arith, ap (λ (v : TaskState). v.id) e)
mem-id (Memᴰ.tail m) = ground (arith, mem-id m)

find-mem :
    (t : TaskState) (ts : List TaskState)
    → Distinct (ids ts)
    → Memᴰ t ts
    → find_by (λ v. v.id == t.id) ts ≡ some t
find-mem t [] d m = elim m [ ]
find-mem t (v ∷ ts) d (Memᴰ.head e) = rw e (ground arith)
find-mem t (v ∷ ts) d (Memᴰ.tail m) = ground (arith, find-mem t ts d.1 m, mem-id m, d.0)

Enters-stop :
    (s s' : SupervisorState) (n : Node)
    → s' ≡ record s { current_task_id = none }
    → after_schedule (record s { current_task_id = none }) ≡ n
    → Enters n (record s { current_task_id = none })
    → Enters (after_schedule s') s'
Enters-stop s s' n e node h =
    subst (λ x. Enters (after_schedule x) x) (sym e)
      (subst (λ k. Enters k (record s { current_task_id = none })) (sym node) h)

pub Enters-schedule :
    (s s' : SupervisorState) → IsBoard s.tasks → Scheduled s s' → Enters (after_schedule s') s'
Enters-schedule s s' b (picked t f next e) =
    subst (λ x. Enters (after_schedule x) x) (sym e)
      (
        b,
        record {
          task = t;
          found = find-mem t s.tasks b.distinct next.listed;
          listed = next.listed;
          pending = next.pending;
          ready = next.ready;
        },
      )
Enters-schedule s s' b (settled f all e) =
    Enters-stop s s' end_node e (ground arith)
      (b, record { complete = λ _. all; stopped = λ g h. cc f })
Enters-schedule s s' b (stuck f _ _ _ e) =
    subst (λ x. Enters (after_schedule x) x) (sym e) (b, (f, refl))
Enters-schedule s s' b (failing f h e) = Enters-stop s s' finalize_node e (ground arith) (b, (f, h))

IsSound-skip_pending :
    (done : List ℕ) (ts : List TaskState)
    → All (IsSound done) ts
    → All (IsSound done) (map skip_pending ts)
IsSound-skip_pending done [] h = tt
IsSound-skip_pending done (t ∷ ts) h = (ground (arith, h.0), IsSound-skip_pending done ts h.1)

ids-skip_pending : (ts : List TaskState) → ids (map skip_pending ts) ≡ ids ts
ids-skip_pending [] = refl
ids-skip_pending (t ∷ ts) = ground (arith, ids-skip_pending ts)

done_ids-skip_pending : (ts : List TaskState) → done_ids (map skip_pending ts) ≡ done_ids ts
done_ids-skip_pending [] = refl
done_ids-skip_pending (t ∷ ts) = ground (arith, done_ids-skip_pending ts)

none_pending : (ts : List TaskState) → All (λ t. is_pending t.status ≡ false) (map skip_pending ts)
none_pending [] = tt
none_pending (t ∷ ts) = (ground arith, none_pending ts)

pub Enters-finalize : (s : SupervisorState) → Enters finalize_node s → Enters end_node (finalize s)
unfolding finalize
Enters-finalize s (b, (f, h)) = (
  record {
    distinct = rw (ids-skip_pending s.tasks) b.distinct;
    sound =
        rw (done_ids-skip_pending s.tasks)
          (IsSound-skip_pending (done_ids s.tasks) s.tasks b.sound);
  },
  record { complete = λ e. cc (h, e); stopped = λ _ _. none_pending s.tasks },
)

module _ {W : Type 0} (executor : TaskState → W → Attempt × W) where
  execute_picked :
      (s : SupervisorState) (w : W) (p : IsPicked s)
      → execute executor s w
        ≡ some (
          absorb (started p.task) (executor (started p.task) w).0 s,
          (executor (started p.task) w).1,
        )
  unfolding execute
  execute_picked s w p = ground (arith, p.found)

  -- One round through the execute node.
  pub run_graph-picked :
      (k : ℕ) (s : SupervisorState) (w : W) (p : IsPicked s)
      → run_graph executor (suc k) execute_node s w
        ≡ run_graph executor k schedule_node
            (absorb (started p.task) (executor (started p.task) w).0 s)
            (executor (started p.task) w).1
  unfolding run_graph
  run_graph-picked k s w p = rw (execute_picked s w p, run_graph)

pub found_by_id :
    (s : SupervisorState) (p : IsPicked s)
    → IsBoard s.tasks
    → find_by (λ v. v.id == p.task.id) s.tasks ≡ some p.task
found_by_id s p b = find-mem p.task s.tasks b.distinct p.listed

-- What the executor, its world and the board owe one another: called on the picked task, the
-- executor reports as new only tasks that are new, and it keeps what links the board to the world.
pub record Contract {W : Type 0} (executor : TaskState → W → Attempt × W)
    (Link : List TaskState → W → Type 0) : Type 0 where
  pub honest :
      (s : SupervisorState) (w : W) (p : IsPicked s)
      → IsBoard s.tasks
      → Link s.tasks w
      → HonestAttempt (executor (started p.task) w).0
  pub keeps :
      (s : SupervisorState) (w : W) (p : IsPicked s)
      → IsBoard s.tasks
      → Link s.tasks w
      → Link
          (absorb (started p.task) (executor (started p.task) w).0 s).tasks
          (executor (started p.task) w).1
  pub finalizes : (ts : List TaskState) (w : W) → Link ts w → Link (map skip_pending ts) w

module _ {W : Type 0} (executor : TaskState → W → Attempt × W)
    (Link : List TaskState → W → Type 0) where
  -- What holds when the graph stops: it never crashes.
  abbrev pub Ends : Ending W → Type 0
  Ends (finished s w) = IsBoard s.tasks × IsSettled s × Link s.tasks w
  Ends (crashed w) = ⊥
  Ends (out_of_steps s w) = IsBoard s.tasks × Link s.tasks w

  pub Link-schedule : (s : SupervisorState) (w : W) → Link s.tasks w → Link (schedule s).tasks w
  Link-schedule s w h = rw (tasks-schedule s) h

  pub Link-finalize :
      Contract executor Link
      → (s : SupervisorState) (w : W) → Link s.tasks w
      → Link (finalize s).tasks w
  unfolding finalize
  Link-finalize c s w h = c.finalizes s.tasks w h

  -- From a well-formed board, and with an executor that keeps its contract, the graph never
  -- crashes. Where it ends, the board is well formed and linked to the world; with no failure every
  -- task is done or skipped, and with a failure no task is left pending.
  pub run_graph-Ends :
      Contract executor Link
      → (steps : ℕ) (n : Node) (s : SupervisorState) (w : W) → Enters n s
      → Link s.tasks w
      → Ends (run_graph executor steps n s w)
  unfolding run_graph
  run_graph-Ends c zero schedule_node s w h l = (h, l)
  run_graph-Ends c zero execute_node s w h l = (h.0, l)
  run_graph-Ends c zero finalize_node s w h l = (h.0, l)
  run_graph-Ends c zero end_node s w h l = (h.0, h.1, l)
  run_graph-Ends c (suc k) end_node s w h l = (h.0, h.1, l)
  run_graph-Ends c (suc k) finalize_node s w h l =
      run_graph-Ends c k end_node (finalize s) w (Enters-finalize s h) (Link-finalize c s w l)
  run_graph-Ends c (suc k) schedule_node s w h l =
      run_graph-Ends c k (after_schedule (schedule s)) (schedule s) w
        (Enters-schedule s (schedule s) h (schedule-Scheduled s)) (Link-schedule s w l)
  run_graph-Ends c (suc k) execute_node s w (b, p) l =
      let t = started p.task in
      let (attempt, w') = executor t w in
      subst Ends (sym (run_graph-picked executor k s w p)) (
        run_graph-Ends c k schedule_node (absorb t attempt s) w'
          (absorb-IsBoard s p.task attempt b p.listed (found_by_id s p b) p.pending p.ready
            (c.honest s w p b l))
          (c.keeps s w p b l))
