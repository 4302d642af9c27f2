-- ===== src/Backlog/Kept.antt =====
-- Each handler of the backlog keeps it sound.
use automated_software_engin.Prelude.{
  ℕ, ◌≡◌, refl, sym, subst, inl, inr, Option, none, some, List, arith, Bool-cases,
}
use automated_software_engin.Backlog.{WorkItem, Principal, Backlog, items_of}
use automated_software_engin.Backlog.Items.{
  Response, answer, refuse, crash, endless, WorkItemUpdate, Change, unset, to, or_empty,
  checked_dependencies, owned_work_item, is_complete, with_changes, save_changes, update_item,
  update_work_item,
}
use automated_software_engin.Backlog.Sound.{
  IsSound, AreFit, validate_dependencies-AreFit, items_of-update_item, IsSound-kept, IsSound-given,
}

module _ (r : ℕ) where
  abbrev SoundIn : Backlog → Type 0
  SoundIn b = IsSound (items_of r b.items)

  -- What an update may do to the dependencies of an item.
  abbrev AreChecked : List WorkItem → ℕ → Option (List ℕ) → Type 0
  AreChecked rows i none = Unit
  AreChecked rows i (some deps) = AreFit rows i deps

  checked-AreChecked :
      (rows : List WorkItem) (i : ℕ) (c : Change (List ℕ)) (deps : Option (List ℕ))
      → checked_dependencies rows i c ≡ answer deps
      → AreChecked rows i deps
  checked-AreChecked rows i c none e = tt
  checked-AreChecked rows i unset (some ds) e = absurd (ground (arith, e))
  checked-AreChecked rows i (to o) (some ds) e =
      validate_dependencies-AreFit rows (or_empty o) i ds (ground (arith, e))

  save_changes-SoundIn :
      (i : ℕ) (u : WorkItemUpdate) (deps : Option (List ℕ)) (t : WorkItem) (b : Backlog)
      → AreChecked (items_of r b.items) i deps
      → SoundIn b
      → SoundIn (save_changes i u deps t b).1
  save_changes-SoundIn i u deps t b checked s = elim (Bool-cases (is_complete u)) [
    | inr e ↦ rw e s
    | inl e ↦ rw e (
        subst IsSound
          (sym (items_of-update_item i (with_changes u deps) (λ v. refl) (λ v. refl) r b.items))
          (rows deps checked))
  ]
    where
      rows :
          (ds : Option (List ℕ))
          → AreChecked (items_of r b.items) i ds
          → IsSound (update_item i (with_changes u ds) (items_of r b.items))
      rows none c =
          IsSound-kept i (with_changes u none) (λ v. refl) (λ v. refl) (items_of r b.items) s
      rows (some ds) c =
          IsSound-given i (with_changes u (some ds)) (λ v. refl) ds (λ v. refl) (items_of r b.items)
            c s

  -- Whatever a partial update changes, the backlog of the repository stays sound: each dependency
  -- is one of its items, and no item waits for itself through any number of others.
  pub update_work_item-IsSound :
      (p : Principal) (item_id : ℕ) (u : WorkItemUpdate) (b : Backlog)
      → IsSound (items_of r b.items)
      → IsSound (items_of r (update_work_item p r item_id u b).1.items)
  unfolding update_work_item
  update_work_item-IsSound p item_id u b s = go (owned_work_item p r item_id b) refl
    where
      apply :
          (t : WorkItem) (c : Response (Option (List ℕ)))
          → checked_dependencies (items_of r b.items) item_id u.depends_on ≡ c
          → owned_work_item p r item_id b ≡ answer t
          → SoundIn (update_work_item p r item_id u b).1
      apply t (refuse x) k h = rw (h, update_work_item) (rw k s)
      apply t (crash x) k h = rw (h, update_work_item) (rw k s)
      apply t endless k h = rw (h, update_work_item) (rw k s)
      apply t (answer deps) k h =
          rw (h, update_work_item)
            (rw k (
              save_changes-SoundIn item_id u deps t b
                (checked-AreChecked (items_of r b.items) item_id u.depends_on deps k) s))

      go :
          (o : Response WorkItem)
          → owned_work_item p r item_id b ≡ o
          → SoundIn (update_work_item p r item_id u b).1
      go (refuse x) h = rw (h, update_work_item) s
      go (crash x) h = rw (h, update_work_item) s
      go endless h = rw (h, update_work_item) s
      go (answer t) h =
          apply t (checked_dependencies (items_of r b.items) item_id u.depends_on) refl h
