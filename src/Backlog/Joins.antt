-- ===== src/Backlog/Joins.antt =====
-- A new item keeps the backlog sound.
use automated_software_engin.Prelude.{
  ℕ, ◌≡◌, refl, sym, subst, inl, inr, true, false, not, none, List, [], ◌∷◌, ◌++◌, arith, filter_by,
  is_empty, elem, subset, ◌==◌, ==_refl, Bool-cases, All, All-append, All-map, subset-Kept,
  elem-append_left, elem-subset,
}
use automated_software_engin.Backlog.{WorkItem, Principal, Backlog, items_of, dependencies}
use automated_software_engin.Backlog.Walk.{Leads, edge, step}
use automated_software_engin.Backlog.Acyclic.{IsAcyclic-after}
use automated_software_engin.Backlog.Items.{
  Response, answer, refuse, crash, endless, item_ids, is_this, validate_dependencies, WorkItemIn,
  created, insert, is_visible, create_work_item,
}
use automated_software_engin.Backlog.Sound.{IsSound, subset-none_missing}

elem-dependencies :
    (known : List ℕ) (rows : List WorkItem) (u d : ℕ)
    → All (λ t. subset t.depends_on known ≡ true) rows
    → elem d (dependencies rows u) ≡ true
    → elem d known ≡ true
elem-dependencies known [] u d h e = cc
elem-dependencies known (t ∷ ts) u d h e = elim (Bool-cases (t.id == u)) [
  | inl here ↦ elem-subset t.depends_on known d h.0 (ground (arith, here, e))
  | inr there ↦ elem-dependencies known ts u d h.1 (ground (arith, there, e))
]

module _ (t : WorkItem) where
  dependencies-other :
      (rows : List WorkItem) (u : ℕ)
      → u == t.id ≡ false
      → dependencies (rows ++ t ∷ []) u ≡ dependencies rows u
  dependencies-other [] u h = ground (arith, h)
  dependencies-other (v ∷ vs) u h = ground (arith, dependencies-other vs u h)

  dependencies-new :
      (rows : List WorkItem)
      → elem t.id (item_ids rows) ≡ false
      → dependencies (rows ++ t ∷ []) t.id ≡ t.depends_on
  dependencies-new [] h = ground (arith, ==_refl t.id)
  dependencies-new (v ∷ vs) h = ground (arith, dependencies-new vs, h)

  pub ids-append : (rows : List WorkItem) → item_ids (rows ++ t ∷ []) ≡ item_ids rows ++ t.id ∷ []
  ids-append [] = refl
  ids-append (v ∷ vs) = ground (arith, ids-append vs)

  -- An item with a new key that depends on items of the backlog.
  pub IsSound-append :
      (rows : List WorkItem)
      → elem t.id (item_ids rows) ≡ false
      → subset t.depends_on (item_ids rows) ≡ true
      → IsSound rows
      → IsSound (rows ++ t ∷ [])
  IsSound-append rows new fit s = record {
    known = rw (ids-append rows) (
        All-append (λ v. subset v.depends_on (item_ids rows ++ t.id ∷ []) ≡ true) rows (t ∷ [])
          (All-map (λ v h. wider v.depends_on h) rows s.known) (wider t.depends_on fit, tt));
    acyclic =
        IsAcyclic-after (dependencies rows) (dependencies (rows ++ t ∷ [])) t.id
          (dependencies-other rows)
          (λ d h.
            let here = subst (λ ds. elem d ds ≡ true) (dependencies-new rows new) h in
            let known = elem-subset t.depends_on (item_ids rows) d fit here in
            (apart d known, nowhere d))
          s.acyclic;
  }
    where
      wider :
          (ds : List ℕ)
          → subset ds (item_ids rows) ≡ true
          → subset ds (item_ids rows ++ t.id ∷ []) ≡ true
      wider ds h =
          subset-Kept ds (item_ids rows) (item_ids rows ++ t.id ∷ [])
            (λ j. elem-append_left j (item_ids rows) (t.id ∷ [])) h

      apart : (d : ℕ) → elem d (item_ids rows) ≡ true → d == t.id ≡ false
      apart d h = elim (Bool-cases (d == t.id)) [
        | inl e ↦ absurd (ground (arith, e, h, new))
        | inr e ↦ e
      ]

      nowhere : (d : ℕ) → ¬ Leads (dependencies rows) d t.id
      nowhere d (edge h) = cc (elem-dependencies (item_ids rows) rows d t.id s.known h, new)
      nowhere d (step w h p) = nowhere w p

pub items_of-append :
    (r : ℕ) (t : WorkItem) (items : List WorkItem)
    → t.repository_id ≡ r
    → items_of r (items ++ t ∷ []) ≡ items_of r items ++ t ∷ []
items_of-append r t [] h = ground (arith, h, ==_refl r)
items_of-append r t (v ∷ vs) h = ground (arith, items_of-append r t vs h)

pub new_in :
    (r i : ℕ) (items : List WorkItem)
    → elem i (item_ids items) ≡ false
    → elem i (item_ids (items_of r items)) ≡ false
new_in r i [] h = refl
new_in r i (v ∷ vs) h = ground (arith, new_in r i vs)

insert-IsSound :
    (r : ℕ) (t : WorkItem) (b : Backlog)
    → t.repository_id ≡ r
    → subset t.depends_on (item_ids (items_of r b.items)) ≡ true
    → IsSound (items_of r b.items)
    → IsSound (items_of r (insert t b).1.items)
insert-IsSound r t b here fit s = elim (Bool-cases (elem t.id (item_ids b.items))) [
  | inl taken ↦ rw taken s
  | inr free ↦ rw free (
      subst IsSound (sym (items_of-append r t b.items here))
        (IsSound-append t (items_of r b.items) (new_in r t.id b.items free) fit s))
]

validate_dependencies-known :
    (rows : List WorkItem) (ds deps : List ℕ)
    → validate_dependencies rows ds none ≡ answer deps
    → subset deps (item_ids rows) ≡ true
unfolding validate_dependencies
validate_dependencies-known rows ds deps e =
    let ids = filter_by (λ d. not (is_this none d)) ds in
    let missing = filter_by (λ d. not (elem d (item_ids rows))) ids in
    elim (Bool-cases (is_empty ids)) [
      | inl h ↦ ground (arith, h, e)
      | inr h ↦ elim (Bool-cases (is_empty missing)) [
        | inr k ↦ absurd (ground (arith, h, k, e))
        | inl k ↦
            let known = subset-none_missing (item_ids rows) ids (ground (arith, k)) in
            ground (arith, h, k, e, known)
      ]
    ]

-- Whatever item is created, the backlog of the repository stays sound: each dependency is one of
-- its items, and no item waits for itself through any number of others.
pub create_work_item-IsSound :
    (r : ℕ) (id created_at : ℕ) (p : Principal) (body : WorkItemIn) (b : Backlog)
    → IsSound (items_of r b.items)
    → IsSound (items_of r (create_work_item id created_at p r body b).1.items)
unfolding create_work_item
create_work_item-IsSound r id created_at p body b s = elim (Bool-cases (is_visible p r b)) [
  | inr hidden ↦ rw hidden s
  | inl visible ↦ go visible (validate_dependencies (items_of r b.items) body.depends_on none) refl
]
  where
    go :
        is_visible p r b ≡ true
        → (c : Response (List ℕ))
        → validate_dependencies (items_of r b.items) body.depends_on none ≡ c
        → IsSound (items_of r (create_work_item id created_at p r body b).1.items)
    go visible (refuse x) h = rw visible (rw h s)
    go visible (crash x) h = rw visible (rw h s)
    go visible endless h = rw visible (rw h s)
    go visible (answer deps) h = rw visible (
        rw h (
          insert-IsSound r (created id created_at r body deps) b refl
            (validate_dependencies-known (items_of r b.items) body.depends_on deps h) s))
