-- ===== src/Runner/Planning.antt =====
-- The board that `_plan_run` saves from a plan that passed the Product Manager's check.
use automated_software_engin.Prelude.{
  ℕ, zero, suc, ◌+◌, ◌-◌, ◌≤◌, ◌<◌, ◌≡◌, refl, subst, true, false, ◌||◌, some, List, [], ◌∷◌, ◌++◌,
  map, arith, elem, subset, elem-subset, All, All-append, length, length-append, get_elem?,
}
use automated_software_engin.Errors.{ok}
use automated_software_engin.Enums.{TaskStatus}
use automated_software_engin.Store.{AgentTask, to_task_state}
use automated_software_engin.Supervisor.Deadlock.{IsOpen}
use automated_software_engin.Tools.{row_ids}
use automated_software_engin.ProductManager.{ArePlanTasks}
use automated_software_engin.Runner.World.{PlanTask}
use automated_software_engin.Runner.Phases.{dependency_ids, planned_row, save_tasks}

elem-get :
    (rows : List AgentTask) (n : ℕ)
    → n < length rows
    → (t : AgentTask) × (get_elem? rows n ≡ some t) × (elem t.id (row_ids rows) ≡ true)
elem-get [] n h = absurd (omega arith)
elem-get (r ∷ rs) zero h = (r, refl, ground arith)
elem-get (r ∷ rs) (suc n) h =
    let (t, found, known) = elem-get rs n (omega arith) in (t, found, ground arith)

-- Numbers of saved rows are looked up without an error.
dependency_ids-ok :
    (rows : List AgentTask) (deps : List ℕ)
    → All (λ dep. (1 ≤ dep) × (dep < length rows + 1)) deps
    → (ids : List ℕ) × (dependency_ids rows deps ≡ ok ids) × (subset ids (row_ids rows) ≡ true)
unfolding dependency_ids
dependency_ids-ok rows [] h = ([], refl, refl)
dependency_ids-ok rows (dep ∷ deps) h =
    let (t, found, known) = elem-get rows (dep - 1) (omega (arith, h.0)) in
    let (ids, rest, all) = dependency_ids-ok rows deps h.1 in
    (t.id ∷ ids, ground (arith, h.0.0), ground arith)

abbrev AllPending : List AgentTask → Type 0
AllPending rows = All (λ r. r.status ≡ TaskStatus.pending) rows

subset_of :
    (ds seen : List ℕ) → ((j : ℕ) → elem j ds ≡ true → elem j seen ≡ true) → subset ds seen ≡ true
subset_of [] seen h = refl
subset_of (d ∷ ds) seen h =
    ground (arith, h d (ground arith), subset_of ds seen (λ j e. h j (ground arith)))

-- A pending task at the end of an open board, depending on tasks of the board.
IsOpen-snoc :
    (rows : List AgentTask) (t : AgentTask) (seen : List ℕ)
    → AllPending rows
    → t.status ≡ TaskStatus.pending
    → ((j : ℕ) → elem j t.depends_on ≡ true → elem j (row_ids rows) || elem j seen ≡ true)
    → IsOpen seen (map to_task_state rows)
    → IsOpen seen (map to_task_state (rows ++ t ∷ []))
unfolding to_task_state
IsOpen-snoc [] t seen p q known o =
    (ground (arith, q), (λ _. subset_of t.depends_on seen known), tt)
IsOpen-snoc (r ∷ rs) t seen p q known o = (
  o.0,
  o.1,
  rw p.0 (IsOpen-snoc rs t (r.id ∷ seen) p.1 q (λ j e. ground (arith, known j e)) (rw p.0 at o.2)),
)

module _ (keys : ℕ → ℕ) where
  -- The keys from a sequence number on are new and distinct.
  pub record AreFresh (sequence : ℕ) (rows : List AgentTask) : Type 0 where
    pub new : (n : ℕ) → sequence ≤ n → elem (keys n) (row_ids rows) ≡ false
    pub apart : (m n : ℕ) → keys m ≡ keys n → m ≡ n

  AreFresh-next :
      (sequence : ℕ) (rows : List AgentTask) (t : AgentTask)
      → t.id ≡ keys sequence
      → AreFresh sequence rows
      → AreFresh (sequence + 1) (rows ++ t ∷ [])
  AreFresh-next sequence rows t named f = record {
    new = λ n h. free n h rows (f.new n (omega arith));
    apart = f.apart;
  }
    where
      free :
          (n : ℕ)
          → sequence + 1 ≤ n
          → (rs : List AgentTask) → elem (keys n) (row_ids rs) ≡ false
          → elem (keys n) (row_ids (rs ++ t ∷ [])) ≡ false
      free n h [] e = ground (arith, f.apart n sequence)
      free n h (r ∷ rs) e = ground (arith, free n h rs)

  -- From the rows that are saved already on, the loop saves the whole plan.
  save_tasks-from :
      (items : List PlanTask) (sequence : ℕ) (rows : List AgentTask)
      → sequence ≡ length rows + 1
      → ArePlanTasks sequence items
      → AreFresh sequence rows
      → AllPending rows
      → IsOpen [] (map to_task_state rows)
      → (saved : List AgentTask) × (save_tasks keys sequence rows items ≡ ok saved)
        × IsOpen [] (map to_task_state saved)
        × (length saved ≡ length rows + length items)
  unfolding save_tasks
  save_tasks-from [] sequence rows n plan f p o = (rows, refl, o, omega arith)
  save_tasks-from (item ∷ items) sequence rows n plan f p o =
      let deps_fit =
        subst (λ k. All (λ dep. (1 ≤ dep) × (dep < k)) item.depends_on) n plan.0.backwards in
      let (deps, found, inside) = dependency_ids-ok rows item.depends_on deps_fit in
      let t = planned_row (keys sequence) sequence item deps in
      let (saved, done, in_order, long) =
        save_tasks-from items (sequence + 1) (rows ++ t ∷ [])
          (omega (arith, length-append rows (t ∷ []), n)) plan.1
          (AreFresh-next sequence rows t refl f)
          (All-append (λ r. r.status ≡ TaskStatus.pending) rows (t ∷ []) p (refl, tt))
          (IsOpen-snoc rows t [] p refl
            (λ j e. ground (arith, elem-subset deps (row_ids rows) j inside e)) o) in
      (
        saved,
        ground (arith, found, done, f.new sequence),
        in_order,
        omega (arith, long, length-append rows (t ∷ [])),
      )

  -- With fresh keys, the board of every plan that passed the check is saved, with a row for each
  -- task, all of whose dependencies stand before it.
  pub save_tasks-IsOpen :
      (items : List PlanTask)
      → ArePlanTasks 1 items
      → AreFresh 1 []
      → (saved : List AgentTask) × (save_tasks keys 1 [] items ≡ ok saved)
        × IsOpen [] (map to_task_state saved)
        × (length saved ≡ length items)
  save_tasks-IsOpen items plan f =
      let (saved, done, in_order, long) = save_tasks-from items 1 [] refl plan f tt tt in
      (saved, done, in_order, omega (arith, long))
