-- ===== src/Backlog/Reordered.antt =====
-- What `reorder_work_items` of apps/engine/src/engine/api/work_items.py makes of the board.
use automated_software_engin.Prelude.{
  ℕ, ◌+◌, ◌≡◌, refl, sym, ap, subst, ◌∙◌, inl, inr, Bool, true, false, not, Option, none, some,
  List, [], ◌∷◌, map, arith, filter_by, elem, subset, ◌==◌, ==_refl, if◌then◌else◌, Bool-cases,
}
use automated_software_engin.Backlog.{WorkItem, Principal, Backlog, items_of, in_board_order, pos}
use automated_software_engin.Backlog.Sound.{subset-none_missing}
use automated_software_engin.Backlog.Items.{
  Response, answer, refuse, repository_not_found, unknown_items, item_ids, is_visible, update_item,
  set_positions, reorder_work_items,
}

-- The last place of an id in the order, counted from a number on.
abbrev pub place : ℕ → List ℕ → (id : ℕ) → Option ℕ
place n [] id = none
place n (i ∷ is) id = elim (place (n + 1) is id) [
  | some k ↦ some k
  | none ↦ if id == i then some n else none
]

abbrev pub put_at : Option ℕ → WorkItem → WorkItem
put_at none t = t
put_at (some k) t = record t { position = pos k }

-- The board in a new order: each item that is named stands at its place, the others where they
-- stood.
abbrev pub placed : ℕ → List ℕ → List WorkItem → List WorkItem
placed n order items = map (λ (t : WorkItem). put_at (place n order t.id) t) items

-- How a reorder ends: refused without a change, or with the board in the new order.
pub data IsReordered (p : Principal) (r : ℕ) (order : List ℕ) (b : Backlog)
    : Response (List WorkItem) × Backlog → Type 0 where
  hidden : is_visible p r b ≡ false → IsReordered p r order b (refuse repository_not_found, b)
  unknown :
      (i : ℕ) (ids : List ℕ)
      → is_visible p r b ≡ true
      → elem i order ≡ true
      → elem i (item_ids (items_of r b.items)) ≡ false
      → IsReordered p r order b (refuse (unknown_items (i ∷ ids)), b)
  reordered :
      is_visible p r b ≡ true
      → subset order (item_ids (items_of r b.items)) ≡ true
      → IsReordered p r order b (
        answer (in_board_order (items_of r (placed 0 order b.items))),
        record b { items = placed 0 order b.items },
      )

-- One round of the loop, for one item.
put_one :
    (n i : ℕ) (o : Option ℕ) (t : WorkItem)
    → put_at o (if t.id == i then record t { position = pos n } else t)
      ≡ put_at (elim o [ some k ↦ some k | none ↦ if t.id == i then some n else none ]) t
put_one n i none t = elim (Bool-cases (t.id == i)) [ inl e ↦ rw e refl | inr e ↦ rw e refl ]
put_one n i (some k) t = elim (Bool-cases (t.id == i)) [ inl e ↦ rw e refl | inr e ↦ rw e refl ]

same_id :
    (n i : ℕ) (t : WorkItem) → (if t.id == i then record t { position = pos n } else t).id ≡ t.id
same_id n i t = elim (Bool-cases (t.id == i)) [ inl e ↦ rw e refl | inr e ↦ rw e refl ]

placed-nil : (n : ℕ) (items : List WorkItem) → items ≡ placed n [] items
placed-nil n [] = refl
placed-nil n (t ∷ ts) = ap (λ us. t ∷ us) (placed-nil n ts)

placed-cons :
    (n i : ℕ) (is : List ℕ) (items : List WorkItem)
    → placed (n + 1) is (update_item i (λ t. record t { position = pos n }) items)
      ≡ placed n (i ∷ is) items
placed-cons n i is [] = refl
placed-cons n i is (t ∷ ts) =
    let moved = if t.id == i then record t { position = pos n } else t in
    let head : put_at (place (n + 1) is moved.id) moved ≡ put_at (place n (i ∷ is) t.id) t =
      ap (λ j. put_at (place (n + 1) is j) moved) (same_id n i t)
      ∙ put_one n i (place (n + 1) is t.id) t in
    ap (λ u. u ∷ placed (n + 1) is (update_item i (λ t. record t { position = pos n }) ts)) head
    ∙ ap (λ us. put_at (place n (i ∷ is) t.id) t ∷ us) (placed-cons n i is ts)

-- The loop places each item once, at the last of its places.
set_positions-placed :
    (n : ℕ) (order : List ℕ) (items : List WorkItem)
    → set_positions n order items ≡ placed n order items
set_positions-placed n [] items = placed-nil n items
set_positions-placed n (i ∷ is) items =
    set_positions-placed (n + 1) is (update_item i (λ t. record t { position = pos n }) items)
    ∙ placed-cons n i is items

-- The first element that a filter leaves is one of the list and passes the test.
filter_by-head :
    (test : ℕ → Bool) (xs : List ℕ) (i : ℕ) (ids : List ℕ)
    → filter_by test xs ≡ i ∷ ids
    → (test i ≡ true) × (elem i xs ≡ true)
filter_by-head test [] i ids e = cc
filter_by-head test (x ∷ xs) i ids e = elim (Bool-cases (test x)) [
  | inl h ↦
      let first : x ≡ i = ground (arith, e, h) in
      (subst (λ j. test j ≡ true) first h, ground (arith, first, ==_refl i))
  | inr h ↦
      let (passes, listed) = filter_by-head test xs i ids (ground (arith, e, h)) in
      (passes, ground (arith, listed))
]

module _ (p : Principal) (r : ℕ) (order : List ℕ) (b : Backlog) where
  known : List ℕ
  known = item_ids (items_of r b.items)

  missing : List ℕ
  missing = filter_by (λ i. not (elem i known)) order

  reorder-hidden :
      is_visible p r b ≡ false → reorder_work_items p r order b ≡ (refuse repository_not_found, b)
  unfolding reorder_work_items
  reorder-hidden h = rw h refl

  reorder-unknown :
      (i : ℕ) (ids : List ℕ)
      → is_visible p r b ≡ true
      → missing ≡ i ∷ ids
      → reorder_work_items p r order b ≡ (refuse (unknown_items (i ∷ ids)), b)
  unfolding reorder_work_items missing known
  reorder-unknown i ids h k = rw h (rw k refl)

  reorder-known :
      is_visible p r b ≡ true
      → missing ≡ []
      → reorder_work_items p r order b ≡ (
        answer (in_board_order (items_of r (placed 0 order b.items))),
        record b { items = placed 0 order b.items },
      )
  unfolding reorder_work_items missing known
  reorder-known h k = rw h (
      rw k (
        ap
          (λ (ts : List WorkItem).
            (answer (in_board_order (items_of r ts)), record b { items = ts }))
          (set_positions-placed 0 order b.items)))

  -- A reorder of the board is refused without a change where the caller may not see the repository
  -- or an id is not one of its items; else each item that is named stands at the last of its
  -- places in the order, all else is as it was, and the board is answered in that order.
  pub reorder_work_items-IsReordered : IsReordered p r order b (reorder_work_items p r order b)
  unfolding missing known
  reorder_work_items-IsReordered = elim (Bool-cases (is_visible p r b)) [
    | inr h ↦ subst (IsReordered p r order b) (sym (reorder-hidden h)) (hidden h)
    | inl h ↦ go h missing refl
  ]
    where
      go :
          is_visible p r b ≡ true
          → (ids : List ℕ) → missing ≡ ids
          → IsReordered p r order b (reorder_work_items p r order b)
      go h [] k =
          subst (IsReordered p r order b) (sym (reorder-known h k))
            (reordered h (subset-none_missing known order (rw k refl)))
      go h (i ∷ ids) k =
          let (absent, listed) = filter_by-head (λ i. not (elem i known)) order i ids k in
          subst (IsReordered p r order b) (sym (reorder-unknown i ids h k))
            (unknown i ids h listed (ground (arith, absent)))
