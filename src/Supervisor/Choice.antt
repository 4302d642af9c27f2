-- ===== src/Supervisor/Choice.antt =====
-- Which task `_schedule` picks.
use automated_software_engin.Prelude.{
  ◌≤◌, ◌≡◌, refl, inl, inr, true, false, none, some, List, [], ◌∷◌, Memᴰ, arith, ltb, subset, All,
  Bool-cases, Option, if◌then◌else◌, All-mem, mem-filter_by, mem-filter_by_of_mem, and_parts,
  all_of,
}
use automated_software_engin.Enums.{is_pending}
use automated_software_engin.Supervisor.{
  Failure, deadlock, pending_sequences, TaskState, SupervisorState, done_ids, is_eligible,
  is_finished, eligible_tasks, min_sequence, schedule_from, schedule_by, schedule,
}

pub tasks-schedule : (s : SupervisorState) → (schedule s).tasks ≡ s.tasks
unfolding schedule
tasks-schedule s = ground arith

min_sequence-mem :
    (best : TaskState) (rest : List TaskState) → Memᴰ (min_sequence best rest) (best ∷ rest)
unfolding min_sequence
min_sequence-mem best [] = Memᴰ.head refl
min_sequence-mem best (t ∷ rest) = elim (Bool-cases (ltb t.sequence best.sequence)) [
  | inl e ↦ rw e (Memᴰ.tail (min_sequence-mem t rest))
  | inr e ↦ rw e (skip (min_sequence-mem best rest))
]
  where
    skip : {u : TaskState} → Memᴰ u (best ∷ rest) → Memᴰ u (best ∷ t ∷ rest)
    skip (Memᴰ.head e) = Memᴰ.head e
    skip (Memᴰ.tail m) = Memᴰ.tail (Memᴰ.tail m)

min_sequence-le :
    (best : TaskState) (rest : List TaskState) (m : TaskState)
    → min_sequence best rest ≡ m
    → All (λ u. m.sequence ≤ u.sequence) (best ∷ rest)
unfolding min_sequence
min_sequence-le best [] m e = (rw e (omega arith), tt)
min_sequence-le best (t ∷ rest) m e =
    let (h, all) = min_sequence-le (if ltb t.sequence best.sequence then t else best) rest m e in
    (ground arith, (ground arith, all))

-- The task that the supervisor should run next: it is pending, all of its dependencies are done,
-- and no other such task has a lower sequence number.
pub record IsNext (tasks : List TaskState) (task : TaskState) : Type 0 where
  pub listed : Memᴰ task tasks
  pub pending : is_pending task.status ≡ true
  pub ready : subset task.depends_on (done_ids tasks) ≡ true
  pub least :
      (u : TaskState)
      → Memᴰ u tasks
      → is_eligible (done_ids tasks) u ≡ true
      → task.sequence ≤ u.sequence

IsNext-min :
    (tasks : List TaskState) (t : TaskState) (rest : List TaskState)
    → eligible_tasks tasks ≡ t ∷ rest
    → IsNext tasks (min_sequence t rest)
unfolding eligible_tasks
IsNext-min tasks t rest e =
    let test = is_eligible (done_ids tasks) in
    let (listed, passes) = mem-filter_by test tasks (rw e (min_sequence-mem t rest)) in
    record {
      listed = listed;
      pending = (and_parts _ _ passes).0;
      ready = (and_parts _ _ passes).1;
      least = λ u m h.
          All-mem (λ v. (min_sequence t rest).sequence ≤ v.sequence)
            (rw e at (mem-filter_by_of_mem test m h)) (min_sequence-le t rest _ refl);
    }

-- What a scheduling step can do.
pub data Scheduled (s : SupervisorState) : SupervisorState → Type 0 where
  picked :
      {s' : SupervisorState} (task : TaskState)
      → s.failure ≡ none
      → IsNext s.tasks task
      → s' ≡ record s { current_task_id = some task.id }
      → Scheduled s s'
  settled :
      {s' : SupervisorState}
      → s.failure ≡ none
      → all_of (λ t. is_finished t.status) s.tasks ≡ true
      → s' ≡ record s { current_task_id = none }
      → Scheduled s s'
  stuck :
      {s' : SupervisorState} (f : Failure)
      → f ≡ deadlock (pending_sequences s.tasks)
      → eligible_tasks s.tasks ≡ []
      → all_of (λ t. is_finished t.status) s.tasks ≡ false
      → s' ≡ record s { current_task_id = none; failure = some f }
      → Scheduled s s'
  failing :
      {s' : SupervisorState} (f : Failure)
      → s.failure ≡ some f
      → s' ≡ record s { current_task_id = none }
      → Scheduled s s'

Scheduled-from :
    (s : SupervisorState) (eligible : List TaskState)
    → s.failure ≡ none
    → eligible_tasks s.tasks ≡ eligible
    → Scheduled s (schedule_from eligible s)
unfolding schedule_from
Scheduled-from s (t ∷ rest) f e = picked (min_sequence t rest) f (IsNext-min s.tasks t rest e) refl
Scheduled-from s [] f e = elim (Bool-cases (all_of (λ t. is_finished t.status) s.tasks)) [
  | inl all ↦ rw all (settled f all refl)
  | inr some_left ↦ rw some_left (stuck _ refl e some_left refl)
]

Scheduled-by :
    (s : SupervisorState) (o : Option Failure) → s.failure ≡ o → Scheduled s (schedule_by o s)
unfolding schedule_by
Scheduled-by s none f = Scheduled-from s (eligible_tasks s.tasks) f refl
Scheduled-by s (some e) f = failing e f refl

-- A scheduling step picks a pending task whose dependencies are done and whose sequence number is
-- least among such tasks, or settles with every task finished, or names the deadlock of an
-- unfinished board without such a task, or passes on the failure that is there.
pub schedule-Scheduled : (s : SupervisorState) → Scheduled s (schedule s)
unfolding schedule
schedule-Scheduled s = Scheduled-by s s.failure refl
