-- ===== src/ScrumMaster/Saved.antt =====
-- A roadmap that passes the check is saved, and keeps the backlog sound.
use automated_software_engin.Prelude.{
  ℕ, zero, suc, ◌+◌, ◌-◌, ◌≤◌, ◌<◌, ◌≡◌, refl, sym, subst, ap, ◌∙◌, inl, inr, true, false, some,
  List, [], ◌∷◌, ◌++◌, map, arith, ◌==◌, ==_refl, length, length-take, is_empty, elem, subset,
  get_elem?, All, Bool-cases, Option-cases, Text, elem-append_left, elem-append_right,
}
use mathlib.Core.List.{append-nil, append_assoc}
use automated_software_engin.Errors.{ok}
use automated_software_engin.Answers.{
  Json, null, bool, int, other_number, str, list, object, Fields, get_field, list_of, list_or_empty,
  valid,
}
use automated_software_engin.ProductManager.{earlier_numbers, earlier_numbers-All, title_of}
use automated_software_engin.Backlog.{WorkItem, Backlog, items_of}
use automated_software_engin.Backlog.Items.{item_ids}
use automated_software_engin.Backlog.Sound.{IsSound}
use automated_software_engin.Backlog.Joins.{IsSound-append, items_of-append, new_in, ids-append}
use automated_software_engin.ScrumMaster.{
  RoadmapItem, max_roadmap_items, clean_item, check_fields, check_item, check_items,
  validate_roadmap, wired, wired_rows, backlog_row, created_ids, any_taken, persist_roadmap,
}

-- An item of a roadmap at a place, from 1.
pub record IsPlaced (sequence : ℕ) (t : RoadmapItem) : Type 0 where
  pub titled : 1 ≤ length t.title
  pub short : length t.title ≤ 256
  pub backwards : All (λ dep. (1 ≤ dep) × (dep < sequence)) t.depends_on

abbrev pub ArePlaced : ℕ → List RoadmapItem → Type 0
ArePlaced sequence [] = Unit
ArePlaced sequence (t ∷ ts) = IsPlaced sequence t × ArePlaced (sequence + 1) ts

module _ (str_of : Json → Text) where
  check_fields-IsPlaced :
      (sequence : ℕ) (title : Text) (item : Fields) (t : RoadmapItem)
      → 1 ≤ length title
      → check_fields str_of sequence title item ≡ valid t
      → IsPlaced sequence t
  unfolding check_fields clean_item
  check_fields-IsPlaced sequence title item t n e =
      elim (Option-cases (list_or_empty (get_field "depends_on" item))) [
        | inl h ↦ absurd (ground (arith, h, e))
        | inr (deps, h) ↦ elim (Option-cases (earlier_numbers sequence deps)) [
          | inl k ↦ absurd (ground (arith, h, k, e))
          | inr (ns, k) ↦ subst (IsPlaced sequence) (built deps ns h k) (record {
            titled = omega (arith, length-take 256 title);
            short = omega (arith, length-take 256 title);
            backwards = earlier_numbers-All sequence deps ns k;
          })
        ]
      ]
    where
      built :
          (deps : List Json) (ns : List ℕ)
          → list_or_empty (get_field "depends_on" item) ≡ some deps
          → earlier_numbers sequence deps ≡ some ns
          → clean_item str_of title item ns ≡ t
      built deps ns h k = ground (arith, h, k, e)

  check_item-IsPlaced :
      (sequence : ℕ) (j : Json) (t : RoadmapItem)
      → check_item str_of sequence j ≡ valid t
      → IsPlaced sequence t
  unfolding check_item
  check_item-IsPlaced sequence (object item) t e =
      let title = title_of (get_field "title" item) in
      elim (Bool-cases (is_empty title)) [
        | inl h ↦ absurd (ground (arith, h, e))
        | inr h ↦
            check_fields-IsPlaced sequence title item t (ground (arith, h)) (ground (arith, h, e))
      ]
  check_item-IsPlaced sequence null t e = cc
  check_item-IsPlaced sequence (bool _) t e = cc
  check_item-IsPlaced sequence (int _) t e = cc
  check_item-IsPlaced sequence other_number t e = cc
  check_item-IsPlaced sequence (str _) t e = cc
  check_item-IsPlaced sequence (list _) t e = cc

  check_items-ArePlaced :
      (sequence : ℕ) (js : List Json) (ts : List RoadmapItem)
      → check_items str_of sequence js ≡ valid ts
      → ArePlaced sequence ts × (length ts ≡ length js)
  unfolding check_items
  check_items-ArePlaced sequence [] [] e = (tt, refl)
  check_items-ArePlaced sequence [] (t ∷ ts) e = cc
  check_items-ArePlaced sequence (j ∷ js) [] e = absurd (ground arith)
  check_items-ArePlaced sequence (j ∷ js) (t ∷ ts) e =
      let (rest, same) = check_items-ArePlaced (sequence + 1) js ts (ground arith) in
      ((check_item-IsPlaced sequence j t (ground arith), rest), omega (arith, same))

  -- A roadmap that the check accepts has between one and twenty items, each with a title of 1 to
  -- 256 characters and with dependencies on earlier items only.
  pub validate_roadmap-ArePlaced :
      (roadmap : Fields) (items : List RoadmapItem)
      → validate_roadmap str_of roadmap ≡ valid items
      → ArePlaced 1 items × (1 ≤ length items) × (length items ≤ max_roadmap_items)
  unfolding validate_roadmap
  validate_roadmap-ArePlaced roadmap items e =
      elim (Option-cases (list_of (get_field "items" roadmap))) [
        | inl h ↦ absurd (ground (arith, h, e))
        | inr (js, h) ↦
            let (placed, same) = check_items-ArePlaced 1 js items (ground (arith, h, e)) in
            (placed, ground (arith, h, e, same), ground (arith, h, e, same))
      ]

module _ (keys : ℕ → ℕ) (created_at r : ℕ) where
  created_ids-get :
      (items : List RoadmapItem) (position m : ℕ)
      → m < length items
      → get_elem? (created_ids keys position items) m ≡ some (keys (position + m))
  created_ids-get [] position m h = absurd (omega arith)
  created_ids-get (t ∷ ts) position zero h = ap (λ n. some (keys n)) (omega arith)
  created_ids-get (t ∷ ts) position (suc m) h =
      created_ids-get ts (position + 1) m (omega arith) ∙ ap (λ n. some (keys n)) (omega arith)

  -- Dependencies on earlier places become keys of earlier rows.
  wired-known :
      (items : List RoadmapItem) (known : List ℕ) (position : ℕ) (deps : List ℕ)
      → position ≤ length items
      → ((m : ℕ) → m < position → elem (keys m) known ≡ true)
      → All (λ dep. (1 ≤ dep) × (dep < position + 1)) deps
      → (wired (created_ids keys 0 items) deps ≡ some (map (λ dep. keys (dep - 1)) deps))
        × (subset (map (λ dep. keys (dep - 1)) deps) known ≡ true)
  unfolding wired
  wired-known items known position [] fits have h = (refl, refl)
  wired-known items known position (dep ∷ deps) fits have h =
      let shift : 0 + (dep - 1) ≡ dep - 1 = omega arith in
      let found : get_elem? (created_ids keys 0 items) (dep - 1) ≡ some (keys (dep - 1)) =
        created_ids-get items 0 (dep - 1) (omega (arith, h.0, fits))
        ∙ ap (λ n. some (keys n)) shift in
      let (rest, all) = wired-known items known position deps fits have h.1 in
      let here = have (dep - 1) (omega (arith, h.0)) in
      (ground (arith, found, rest, h.0.0), ground (arith, here, all))

  -- The keys from a position on are new and distinct.
  pub record AreNew (position : ℕ) (items : List WorkItem) : Type 0 where
    pub new : (n : ℕ) → position ≤ n → elem (keys n) (item_ids items) ≡ false
    pub apart : (m n : ℕ) → keys m ≡ keys n → m ≡ n

  AreNew-append :
      (position : ℕ) (t : WorkItem) (items : List WorkItem)
      → t.id ≡ keys position
      → AreNew position items
      → AreNew (position + 1) (items ++ t ∷ [])
  AreNew-append position t items named f = record {
    new = λ n h. free n h items (f.new n (omega arith));
    apart = f.apart;
  }
    where
      free :
          (n : ℕ)
          → position + 1 ≤ n
          → (ts : List WorkItem) → elem (keys n) (item_ids ts) ≡ false
          → elem (keys n) (item_ids (ts ++ t ∷ [])) ≡ false
      free n h [] e = ground (arith, f.apart n position, named, h)
      free n h (v ∷ vs) e = ground (arith, free n h vs, e)

  any_taken-new :
      (items : List RoadmapItem) (position : ℕ) (taken : List ℕ)
      → ((n : ℕ) → position ≤ n → elem (keys n) taken ≡ false)
      → ((m n : ℕ) → keys m ≡ keys n → m ≡ n)
      → any_taken keys created_at r taken (created_ids keys position items) ≡ false
  any_taken-new [] position taken new apart = refl
  any_taken-new (t ∷ ts) position taken new apart =
      let rest =
        any_taken-new ts (position + 1) (keys position ∷ taken)
          (λ n h. ground (arith, new n (omega arith), apart n position)) apart in
      ground (arith, rest, new position (omega arith))

  -- The keys of the places before a position are those of rows.
  abbrev Placed : ℕ → List WorkItem → Type 0
  Placed position items =
      (m : ℕ) → m < position → elem (keys m) (item_ids (items_of r items)) ≡ true

  Placed-append :
      (position : ℕ) (t : WorkItem) (items : List WorkItem)
      → t.id ≡ keys position
      → t.repository_id ≡ r
      → Placed position items
      → Placed (position + 1) (items ++ t ∷ [])
  Placed-append position t items named here have m h = rw (items_of-append r t items here) (
      rw (ids-append t (items_of r items)) (elim (Bool-cases (m == position)) [
        | inl e ↦
            elem-append_right (keys m) (item_ids (items_of r items)) (t.id ∷ [])
              (ground (arith, e, named, ==_refl (keys m)))
        | inr e ↦
            elem-append_left (keys m) (item_ids (items_of r items)) (t.id ∷ [])
              (have m (ground (arith, e, h)))
      ]))

  -- The rows of a roadmap, from a position on: each item with its fields, and for each place that
  -- it depends on the key of the row there.
  abbrev pub planned_rows : (position : ℕ) → List RoadmapItem → List WorkItem
  planned_rows position [] = []
  planned_rows position (item ∷ items) =
      backlog_row keys created_at r position item (map (λ dep. keys (dep - 1)) item.depends_on)
      ∷ planned_rows (position + 1) items

  length-planned_rows :
      (position : ℕ) (items : List RoadmapItem)
      → length (planned_rows position items) ≡ length items
  length-planned_rows position [] = refl
  length-planned_rows position (item ∷ items) =
      omega (arith, length-planned_rows (position + 1) items)

  -- From a position on, the rows are wired and join the backlog.
  wired_rows-IsSound :
      (whole items : List RoadmapItem) (position : ℕ) (before : List WorkItem)
      → position + length items ≡ length whole
      → ArePlaced (position + 1) items
      → AreNew position before
      → Placed position before
      → IsSound (items_of r before)
      → (wired_rows keys created_at r (created_ids keys 0 whole) position items
          ≡ some (planned_rows position items))
        × IsSound (items_of r (before ++ planned_rows position items))
  unfolding wired_rows
  wired_rows-IsSound whole [] position before n placed new have s = (refl, rw (append-nil before) s)
  wired_rows-IsSound whole (item ∷ items) position before n placed new have s =
      let (found, fit) =
        wired-known whole (item_ids (items_of r before)) position item.depends_on (omega (arith, n))
          have placed.0.backwards in
      let deps = map (λ dep. keys (dep - 1)) item.depends_on in
      let t = backlog_row keys created_at r position item deps in
      let rows = planned_rows (position + 1) items in
      let joined = subst IsSound (sym (items_of-append r t before refl)) (
        IsSound-append t (items_of r before)
          (new_in r (keys position) before (new.new position (omega arith))) fit s) in
      let (done, sound) =
        wired_rows-IsSound whole items (position + 1) (before ++ t ∷ []) (omega (arith, n)) placed.1
          (AreNew-append position t before refl new)
          (Placed-append position t before refl refl have) joined in
      (
        ground (arith, found, done),
        subst (λ ts. IsSound (items_of r ts)) (append_assoc before (t ∷ []) rows) sound,
      )

  -- With fresh keys, every roadmap that passed the check is saved, with a row for each item, and
  -- the backlog stays sound.
  pub persist_roadmap-IsSound :
      (items : List RoadmapItem) (b : Backlog)
      → ArePlaced 1 items
      → AreNew 0 b.items
      → IsSound (items_of r b.items)
      → (persist_roadmap keys created_at r items b
          ≡ (ok (planned_rows 0 items), record b { items = b.items ++ planned_rows 0 items }))
        × IsSound (items_of r (b.items ++ planned_rows 0 items))
  unfolding persist_roadmap
  persist_roadmap-IsSound items b placed new s =
      let (done, sound) =
        wired_rows-IsSound items items 0 b.items (omega arith) placed new
          (λ m h. absurd (omega arith)) s in
      let free = any_taken-new items 0 (item_ids b.items) new.new new.apart in
      (ground (arith, free, done), sound)
