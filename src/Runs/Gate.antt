-- ===== src/Runs/Gate.antt =====
-- What the approval gate keeps: an edited plan can still be run, and a run is decided once.
use automated_software_engin.Prelude.{
  ℕ, ◌≡◌, refl, inl, inr, Bool, true, false, not, some, List, [], ◌∷◌, map, arith, filter_by,
  if◌then◌else◌, Bool-cases, elem, subset, ◌==◌,
}
use automated_software_engin.Enums.{is_skipped}
use automated_software_engin.Store.{AgentRun, AgentTask, Db, update_row, to_task_state}
use automated_software_engin.Supervisor.Deadlock.{IsOpen}
use automated_software_engin.Runs.{
  not_waiting, answered, http_error, PlanTaskEdit, dropped_ids, edit_row, apply_edit, apply_edits,
  survivors, save_edit, edit_board, edit_plan, decide_run,
}

-- A saved board in the order of its dependencies.
abbrev pub IsRunnable : List ℕ → List AgentTask → Type 0
IsRunnable seen rows = IsOpen seen (map to_task_state rows)

IsRunnable-edit_row :
    (i : ℕ) (e : PlanTaskEdit) (rows : List AgentTask) (seen : List ℕ)
    → IsRunnable seen rows
    → IsRunnable seen (update_row i (edit_row e) rows)
unfolding to_task_state
IsRunnable-edit_row i e [] seen o = tt
IsRunnable-edit_row i e (t ∷ ts) seen o =
    let rest = IsRunnable-edit_row i e ts (if is_skipped t.status then seen else t.id ∷ seen) o.2 in
    elim (Bool-cases (t.id == i)) [ inl h ↦ rw h (o.0, o.1, rest) | inr h ↦ rw h (o.0, o.1, rest) ]

IsRunnable-apply_edit :
    (e : PlanTaskEdit) (p : ℕ × List AgentTask)
    → IsRunnable [] p.1
    → IsRunnable [] (apply_edit e p).1
IsRunnable-apply_edit e (edited, rows) o =
    let changed = IsRunnable-edit_row e.id e rows [] o in ground (arith, changed, o)

IsRunnable-apply_edits :
    (es : List PlanTaskEdit) (p : ℕ × List AgentTask)
    → IsRunnable [] p.1
    → IsRunnable [] (apply_edits es p).1
IsRunnable-apply_edits [] p o = o
IsRunnable-apply_edits (e ∷ es) p o =
    IsRunnable-apply_edits es (apply_edit e p) (IsRunnable-apply_edit e p o)

subset-forget :
    (dropped deps seen kept : List ℕ)
    → ((j : ℕ) → elem j seen ≡ true → elem j dropped ≡ false → elem j kept ≡ true)
    → subset deps seen ≡ true
    → subset (filter_by (λ dep. not (elem dep dropped)) deps) kept ≡ true
subset-forget dropped [] seen kept k h = refl
subset-forget dropped (d ∷ ds) seen kept k h =
    ground (arith, k d, subset-forget dropped ds seen kept k)

IsRunnable-survivors :
    (dropped : List ℕ) (rows : List AgentTask) (seen kept : List ℕ)
    → ((j : ℕ) → elem j seen ≡ true → elem j dropped ≡ false → elem j kept ≡ true)
    → IsRunnable seen rows
    → IsRunnable kept (survivors dropped rows)
unfolding to_task_state
IsRunnable-survivors dropped [] seen kept k o = tt
IsRunnable-survivors dropped (t ∷ ts) seen kept k o = elim (Bool-cases (elem t.id dropped)) [
  | inl gone ↦ rw gone (
      IsRunnable-survivors dropped ts (if is_skipped t.status then seen else t.id ∷ seen) kept
        (λ j h away. ground (arith, k j)) o.2)
  | inr stays ↦ rw stays (
    o.0,
    (λ p. subset-forget dropped t.depends_on seen kept k (o.1 p)),
    IsRunnable-survivors dropped ts (if is_skipped t.status then seen else t.id ∷ seen)
        (if is_skipped t.status then kept else t.id ∷ kept) (λ j h away. ground (arith, k j)) o.2,
  )
]

-- Whatever edits a user makes at the approval gate, a board in the order of its dependencies stays
-- one: nothing that is left waits for a dropped task.
pub edit_plan-IsRunnable :
    (edits : List PlanTaskEdit) (run : AgentRun) (db : Db)
    → IsRunnable [] db.tasks
    → IsRunnable [] (edit_plan edits run db).1.tasks
unfolding edit_plan edit_board save_edit
edit_plan-IsRunnable edits run db o =
    let rows = (apply_edits edits (0, db.tasks)).1 in
    let kept =
      IsRunnable-survivors (dropped_ids edits) rows [] [] (λ j h _. h)
        (IsRunnable-apply_edits edits (0, db.tasks) o) in
    ground (arith, kept, o)

-- Once a decision is taken, each later decision is refused and changes nothing, so two decisions
-- never both pass the gate.
pub decide_run-once :
    (first second : Bool) (run run' : AgentRun) (db : Db)
    → db.run ≡ some run
    → (decide_run first run db).0 ≡ answered first
    → (decide_run first run db).1.run ≡ some run'
    → decide_run second run' (decide_run first run db).1
      ≡ (http_error not_waiting, (decide_run first run db).1)
unfolding decide_run
decide_run-once first second run run' db found passed after = ground (arith, passed, after)
