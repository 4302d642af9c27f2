-- ===== src/Supervisor/Absorb.antt =====
-- The board stays well formed when the supervisor takes in what an executor did.
use automated_software_engin.Prelude.{
  ℕ, ◌+◌, ◌≤◌, ◌≡◌, refl, sym, subst, inl, inr, Bool, true, false, not, some, List, [], ◌∷◌, ◌++◌,
  Memᴰ, arith, ◌==◌, ltb, elem, subset, Distinct, Kept, subset-Kept, elem-append_left,
  Distinct-append, filter_by, find_by, All, All-map, All-append, All-filter_by, All-mem, Bool-cases,
  Text,
}
use automated_software_engin.Enums.{TaskStatus, is_pending, is_done}
use automated_software_engin.Supervisor.{
  TaskState, SupervisorState, Attempt, ExecutionOutcome, raised, plain, outcome, max_retries,
  done_ids, update_task, started, outcome_of, merge, absorb,
}
use automated_software_engin.Supervisor.Board.{
  ids, IsSound, IsBoard, IsSound-Kept, IsNew, IsNew-IsSound, ids-skip_reported,
  done_ids-skip_reported, All-skip_reported, done_ids-append, ids-append,
}

-- The tasks that an outcome reports as new.
pub record IsHonest (o : ExecutionOutcome) : Type 0 where
  pub new : All IsNew o.new_tasks
  pub distinct : Distinct (ids o.new_tasks)

abbrev unknown_to : List ℕ → TaskState → Bool
unknown_to known t = not (elem t.id known)

not-elem_filtered :
    (j : ℕ) (known : List ℕ) (ts : List TaskState)
    → elem j (ids ts) ≡ false
    → elem j (ids (filter_by (unknown_to known) ts)) ≡ false
not-elem_filtered j known [] h = refl
not-elem_filtered j known (t ∷ ts) h = ground (arith, not-elem_filtered j known ts)

Distinct-filtered :
    (known : List ℕ) (ts : List TaskState)
    → Distinct (ids ts)
    → Distinct (ids (filter_by (unknown_to known) ts))
Distinct-filtered known [] h = tt
Distinct-filtered known (t ∷ ts) h = elim (Bool-cases (unknown_to known t)) [
  | inl e ↦ rw e (not-elem_filtered t.id known ts h.0, Distinct-filtered known ts h.1)
  | inr e ↦ rw e (Distinct-filtered known ts h.1)
]

filtered_apart :
    (j : ℕ) (known : List ℕ) (ts : List TaskState)
    → elem j known ≡ true
    → elem j (ids (filter_by (unknown_to known) ts)) ≡ false
filtered_apart j known [] h = refl
filtered_apart j known (t ∷ ts) h = ground (arith, filtered_apart j known ts h)

-- Merging the changes that agents reported keeps the board well formed.
merge-IsBoard :
    (o : ExecutionOutcome) (ts : List TaskState) → IsHonest o → IsBoard ts → IsBoard (merge o ts)
merge-IsBoard o ts honest b =
    let known = ids ts in
    let added = filter_by (unknown_to known) o.new_tasks in
    let board = ts ++ added in
    let new = All-filter_by IsNew (unknown_to known) o.new_tasks honest.new in
    let wider : Kept (done_ids ts) (done_ids board) =
      λ j h. rw (done_ids-append ts added) (elem-append_left j (done_ids ts) (done_ids added) h) in
    record {
      distinct = rw (ids-skip_reported o.skipped_task_ids board) (
          rw (ids-append ts added) (
            Distinct-append known (ids added) b.distinct
              (Distinct-filtered known o.new_tasks honest.distinct)
              (λ j h. filtered_apart j known o.new_tasks h)));
      sound = rw (done_ids-skip_reported o.skipped_task_ids board) (
          All-skip_reported (done_ids board) o.skipped_task_ids board (
            All-append (IsSound (done_ids board)) ts added
              (All-map (λ t. IsSound-Kept (done_ids ts) (done_ids board) t wider) ts b.sound)
              (All-map (IsNew-IsSound (done_ids board)) added new)));
    }

module _ (i : ℕ) (u : TaskState) (named : u.id ≡ i) where
  ids-update_task : (ts : List TaskState) → ids (update_task i (λ _. u) ts) ≡ ids ts
  unfolding update_task
  ids-update_task [] = refl
  ids-update_task (t ∷ ts) = ground (arith, ids-update_task ts)

  -- The done tasks stay done: the task that is replaced was not done.
  Kept-update_task :
      (ts : List TaskState) (t : TaskState) (j : ℕ)
      → find_by (λ v. v.id == i) ts ≡ some t
      → is_done t.status ≡ false
      → elem j (done_ids ts) ≡ true
      → elem j (done_ids (update_task i (λ _. u) ts)) ≡ true
  unfolding update_task
  Kept-update_task [] t j f d h = cc
  Kept-update_task (v ∷ ts) t j f d h = ground (arith, Kept-update_task ts t j)

All-update_task :
    (P : TaskState → Type 0) (i : ℕ) (u : TaskState) (ts : List TaskState)
    → P u
    → All P ts
    → All P (update_task i (λ _. u) ts)
unfolding update_task
All-update_task P i u [] p h = tt
All-update_task P i u (t ∷ ts) p h = elim (Bool-cases (t.id == i)) [
  | inl e ↦ rw e (p, h.1)
  | inr e ↦ rw e (h.0, All-update_task P i u ts p h.1)
]

-- The started task as it comes back, on each branch.
module _ (ts : List TaskState) (t : TaskState) (b : IsBoard ts)
    (found : find_by (λ v. v.id == t.id) ts ≡ some t) (waits : is_pending t.status ≡ true)
    (ready : subset t.depends_on (done_ids ts) ≡ true) (sound : IsSound (done_ids ts) t) where
  update-IsBoard :
      (u : TaskState)
      → u.id ≡ t.id
      → u.depends_on ≡ t.depends_on
      → u.attempts ≡ t.attempts + 1
      → (is_pending u.status ≡ true → u.attempts ≤ max_retries)
      → IsBoard (update_task t.id (λ _. u) ts)
  update-IsBoard u same_id same_deps more fits =
      let board = update_task t.id (λ _. u) ts in
      let wider : Kept (done_ids ts) (done_ids board) =
        λ j. Kept-update_task t.id u same_id ts t j found (ground arith) in
      let u_sound : IsSound (done_ids board) u = record {
        waited = λ _.
            subst (λ ds. subset ds (done_ids board) ≡ true) (sym same_deps)
              (subset-Kept t.depends_on (done_ids ts) (done_ids board) wider ready);
        attempted = λ _. omega (arith, more);
        bounded = omega (arith, more, sound.retriable waits);
        retriable = fits;
      } in
      record {
        distinct = rw (ids-update_task t.id u same_id ts) b.distinct;
        sound =
            All-update_task (IsSound (done_ids board)) t.id u ts u_sound
              (All-map (λ v. IsSound-Kept (done_ids ts) (done_ids board) v wider) ts b.sound);
      }

-- What is asked of an executor: the tasks that it reports as new are new.
abbrev pub HonestAttempt : Attempt → Type 0
HonestAttempt (raised _) = Unit
HonestAttempt (plain _) = Unit
HonestAttempt (outcome o) = IsHonest o

outcome_of-IsHonest : (result : Text) → IsHonest (outcome_of result)
outcome_of-IsHonest result = record { new = tt; distinct = tt }

-- Whatever the executor did with the task that was handed to it, the board stays well formed.
pub absorb-IsBoard :
    (s : SupervisorState) (t : TaskState) (attempt : Attempt)
    → IsBoard s.tasks
    → Memᴰ t s.tasks
    → find_by (λ v. v.id == t.id) s.tasks ≡ some t
    → is_pending t.status ≡ true
    → subset t.depends_on (done_ids s.tasks) ≡ true
    → HonestAttempt attempt
    → IsBoard (absorb (started t) attempt s).tasks
unfolding absorb
absorb-IsBoard s t (raised exc) b m f p r h =
    let keep = update-IsBoard s.tasks t b f p r (All-mem (IsSound (done_ids s.tasks)) m b.sound) in
    elim (Bool-cases (ltb max_retries (t.attempts + 1))) [
      | inl last ↦
          rw last
            (keep (record (started t) { status = TaskStatus.failed }) refl refl refl (λ e. cc))
      | inr again ↦ rw again (
          keep (record (started t) { status = TaskStatus.pending }) refl refl refl
            (λ _. ground arith))
    ]
absorb-IsBoard s t (plain result) b m f p r h =
    let keep = update-IsBoard s.tasks t b f p r (All-mem (IsSound (done_ids s.tasks)) m b.sound) in
    merge-IsBoard (outcome_of result) _ (outcome_of-IsHonest result) (
      keep (record (started t) { status = TaskStatus.done; result = some result }) refl refl refl
        (λ e. cc))
absorb-IsBoard s t (outcome o) b m f p r h =
    let keep = update-IsBoard s.tasks t b f p r (All-mem (IsSound (done_ids s.tasks)) m b.sound) in
    merge-IsBoard o _ h (
      keep (record (started t) { status = TaskStatus.done; result = some o.result }) refl refl refl
        (λ e. cc))
