-- ===== src/Backlog/Sound.antt =====
-- The handlers of the backlog keep its dependencies inside the repository and without a cycle.
use automated_software_engin.Prelude.{
  ℕ, ◌+◌, ◌≡◌, ◌≢◌, refl, sym, subst, fun_ext, inl, inr, true, false, not, Option, none, some, List,
  [], ◌∷◌, arith, filter_by, is_empty, elem, subset, length, ◌==◌, Bool-cases, All,
}
use automated_software_engin.Backlog.{WorkItem, items_of, dependencies}
use automated_software_engin.Backlog.Walk.{
  Verdict, closes_cycle, no_cycle, out_of_fuel, walk, extend, elem-extend, length-extend,
  walk-no_cycle, Leads,
}
use automated_software_engin.Backlog.Acyclic.{IsAcyclic, IsAcyclic-after}
use automated_software_engin.Backlog.Bounds.{left_over, walk-ends}
use automated_software_engin.Backlog.Items.{
  answer, endless, item_ids, is_this, reject_dependency_cycles, validate_dependencies, update_item,
}

-- The backlog of a repository: each dependency is one of its items, and none waits for itself.
pub record IsSound (rows : List WorkItem) : Type 0 where
  pub known : All (λ t. subset t.depends_on (item_ids rows) ≡ true) rows
  pub acyclic : IsAcyclic (dependencies rows)

-- Dependencies that an item may have.
pub record AreFit (rows : List WorkItem) (i : ℕ) (deps : List ℕ) : Type 0 where
  pub known : subset deps (item_ids rows) ≡ true
  pub away : (d : ℕ) → elem d deps ≡ true → (d == i ≡ false) × ¬ Leads (dependencies rows) d i

pub subset-none_missing :
    (known ds : List ℕ) → filter_by (λ d. not (elem d known)) ds ≡ [] → subset ds known ≡ true
subset-none_missing known [] h = refl
subset-none_missing known (d ∷ ds) h = ground (arith, subset-none_missing known ds)

reject-AreFit :
    (rows : List WorkItem) (i : ℕ) (ids deps : List ℕ)
    → reject_dependency_cycles rows i ids ≡ answer deps
    → (deps ≡ ids)
      × ((d : ℕ) → elem d ids ≡ true → (d == i ≡ false) × ¬ Leads (dependencies rows) d i)
unfolding reject_dependency_cycles
reject-AreFit rows i ids deps e = go (walk (dependencies rows) i fuel (extend [] ids) []) refl
  where
    fuel : ℕ
    fuel = length ids + left_over [] rows

    go :
        (v : Verdict)
        → walk (dependencies rows) i fuel (extend [] ids) [] ≡ v
        → (deps ≡ ids)
          × ((d : ℕ) → elem d ids ≡ true → (d == i ≡ false) × ¬ Leads (dependencies rows) d i)
    go closes_cycle h = absurd (ground (arith, h, e))
    go out_of_fuel h = absurd (ground (arith, h, e))
    go no_cycle h = (
      ground (arith, h, e),
      (λ d m.
          walk-no_cycle (dependencies rows) i fuel (extend [] ids) h d
            (ground (arith, elem-extend d [] ids, m))),
    )

-- Dependencies that pass the check for an item are fit for it.
pub validate_dependencies-AreFit :
    (rows : List WorkItem) (depends_on : List ℕ) (i : ℕ) (deps : List ℕ)
    → validate_dependencies rows depends_on (some i) ≡ answer deps
    → AreFit rows i deps
unfolding validate_dependencies
validate_dependencies-AreFit rows depends_on i deps e = elim (Bool-cases (is_empty ids)) [
  | inl h ↦ subst (AreFit rows i) (empty h) (record { known = refl; away = nothing })
  | inr h ↦ elim (Bool-cases (is_empty missing)) [
    | inr k ↦ absurd (ground (arith, h, k, e))
    | inl k ↦
        let (same, away) = reject-AreFit rows i ids deps (ground (arith, h, k, e)) in
        subst (AreFit rows i) (sym same) (record {
          known = subset-none_missing (item_ids rows) ids (ground (arith, k));
          away = away;
        })
  ]
]
  where
    nothing : (d : ℕ) → elem d [] ≡ true → (d == i ≡ false) × ¬ Leads (dependencies rows) d i
    nothing d m = absurd (cc m)

    ids : List ℕ
    ids = filter_by (λ d. not (is_this (some i) d)) depends_on

    empty : is_empty ids ≡ true → [] ≡ deps
    empty h = ground (arith, h, e)

    missing : List ℕ
    missing = filter_by (λ d. not (elem d (item_ids rows))) ids

-- The check of an item's dependencies always ends: the walk along the dependencies of any
-- backlog, a cyclic one too, never runs out of its fuel.
pub validate_dependencies-ends :
    (rows : List WorkItem) (depends_on : List ℕ) (this_id : Option ℕ)
    → validate_dependencies rows depends_on this_id ≢ endless
unfolding validate_dependencies reject_dependency_cycles
validate_dependencies-ends rows depends_on none e = ground (arith, e)
validate_dependencies-ends rows depends_on (some i) e =
    let ids = filter_by (λ d. not (is_this (some i) d)) depends_on in
    let ends =
      walk-ends rows i (length ids + left_over [] rows) (extend [] ids) []
        (omega (arith, length-extend [] ids)) in
    ground (arith, e, ends)

module _ (i : ℕ) (f : WorkItem → WorkItem) (same_id : (t : WorkItem) → (f t).id ≡ t.id) where
  pub ids-update_item : (rows : List WorkItem) → item_ids (update_item i f rows) ≡ item_ids rows
  ids-update_item [] = refl
  ids-update_item (t ∷ ts) = ground (arith, ids-update_item ts, same_id t)

  pub items_of-update_item :
      ((t : WorkItem) → (f t).repository_id ≡ t.repository_id)
      → (r : ℕ) (items : List WorkItem)
      → items_of r (update_item i f items) ≡ update_item i f (items_of r items)
  items_of-update_item same r [] = refl
  items_of-update_item same r (t ∷ ts) =
      ground (arith, items_of-update_item same r ts, same t, same_id t)

  dependencies_other :
      (rows : List WorkItem) (u : ℕ)
      → u == i ≡ false
      → dependencies (update_item i f rows) u ≡ dependencies rows u
  dependencies_other [] u h = refl
  dependencies_other (t ∷ ts) u h = ground (arith, dependencies_other ts u h, same_id t, h)

  dependencies_here :
      (deps : List ℕ)
      → ((t : WorkItem) → (f t).depends_on ≡ deps)
      → (rows : List WorkItem) (d : ℕ) → elem d (dependencies (update_item i f rows) i) ≡ true
      → elem d deps ≡ true
  dependencies_here deps sets [] d h = cc
  dependencies_here deps sets (t ∷ ts) d h =
      ground (arith, dependencies_here deps sets ts d, same_id t, sets t, h)

  dependencies_kept :
      ((t : WorkItem) → (f t).depends_on ≡ t.depends_on)
      → (rows : List WorkItem) (u : ℕ) → dependencies (update_item i f rows) u ≡ dependencies rows u
  dependencies_kept keeps [] u = refl
  dependencies_kept keeps (t ∷ ts) u =
      ground (arith, dependencies_kept keeps ts u, same_id t, keeps t)

  All-update_item :
      (P : WorkItem → Type 0)
      → ((t : WorkItem) → P t → P (f t))
      → (rows : List WorkItem) → All P rows
      → All P (update_item i f rows)
  All-update_item P keep [] h = tt
  All-update_item P keep (t ∷ ts) h = elim (Bool-cases (t.id == i)) [
    | inl e ↦ rw e (keep t h.0, All-update_item P keep ts h.1)
    | inr e ↦ rw e (h.0, All-update_item P keep ts h.1)
  ]

  -- A change that leaves the dependencies alone.
  pub IsSound-kept :
      ((t : WorkItem) → (f t).depends_on ≡ t.depends_on)
      → (rows : List WorkItem) → IsSound rows
      → IsSound (update_item i f rows)
  IsSound-kept keeps rows s = record {
    known = rw (ids-update_item rows) (
        All-update_item (λ t. subset t.depends_on (item_ids rows) ≡ true)
          (λ t h. subst (λ ds. subset ds (item_ids rows) ≡ true) (sym (keeps t)) h) rows s.known);
    acyclic = subst IsAcyclic (fun_ext (λ u. sym (dependencies_kept keeps rows u))) s.acyclic;
  }

  -- A change that gives an item fit dependencies.
  pub IsSound-given :
      (deps : List ℕ)
      → ((t : WorkItem) → (f t).depends_on ≡ deps)
      → (rows : List WorkItem) → AreFit rows i deps
      → IsSound rows
      → IsSound (update_item i f rows)
  IsSound-given deps sets rows fit s = record {
    known = rw (ids-update_item rows) (
        All-update_item (λ t. subset t.depends_on (item_ids rows) ≡ true)
          (λ t h. subst (λ ds. subset ds (item_ids rows) ≡ true) (sym (sets t)) fit.known) rows
          s.known);
    acyclic =
        IsAcyclic-after (dependencies rows) (dependencies (update_item i f rows)) i
          (λ u h. dependencies_other rows u h)
          (λ d h. fit.away d (dependencies_here deps sets rows d h)) s.acyclic;
  }
