-- ===== src/ScrumMaster.antt =====
-- `validate_roadmap` and `persist_roadmap` of apps/engine/src/engine/agents/scrum_master.py.
-- Python's `str` of a JSON value is a parameter.
pub mod Saved
pub mod Roadmap
use automated_software_engin.Prelude.{
  ℕ, zero, suc, ◌+◌, ◌-◌, ◌≤◌, ◌<◌, ◌≡◌, refl, sym, subst, inl, inr, Bool, true, false, ◌&&◌, ◌||◌,
  Option, none, some, List, [], ◌∷◌, ◌++◌, map, leb, ltb, ◌==◌, if◌then◌else◌, Text, strip, take,
  length, length-take, is_empty, elem, get_elem?, codes, text_eq, All, Bool-cases, Option-cases,
  arith,
}
use automated_software_engin.Errors.{Exc, index_error, integrity_error, Reply, ok, raise}
use automated_software_engin.Loop.Parsing.{ReplyError}
use automated_software_engin.Answers.{
  Json, null, bool, int, other_number, str, list, object, Fields, get_field, list_of, list_or_empty,
  Checked, valid, refused, type_error, is_true,
}
use automated_software_engin.ProductManager.{earlier_numbers, earlier_numbers-All, title_of}
use automated_software_engin.Backlog.{
  WorkItemKind, feature, bug, chore, spike, Estimate, small, medium, large, Priority, low, high,
  critical, WorkItem, WorkItemStatus, pos, Backlog,
}
use automated_software_engin.Backlog.Items.{item_ids}

abbrev pub max_roadmap_items : ℕ
max_roadmap_items = 20

-- The messages of RoadmapError, as the values that they print.
pub data RoadmapError : Type 0 where
  no_item_list : RoadmapError
  -- the reply holds no JSON object
  unreadable : ReplyError → RoadmapError
  not_an_object needs_title bad_dependencies : (sequence : ℕ) → RoadmapError

pub record RoadmapItem : Type 0 where
  pub title : Text
  pub milestone : Option Text
  pub kind : WorkItemKind
  pub estimate : Option Estimate
  pub priority : Priority
  pub description : Option Text
  pub rationale : Option Text
  pub depends_on : List ℕ

-- `_one_of`, for each of the three labels.
abbrev pub kind_of : Json → WorkItemKind
kind_of (str s) =
    if text_eq s (codes "bug")
    then bug
    else if text_eq s (codes "chore")
    then chore
    else if text_eq s (codes "spike")
    then spike
    else feature
kind_of _ = feature

abbrev pub estimate_of : Json → Option Estimate
estimate_of (str s) =
    if text_eq s (codes "small")
    then some small
    else if text_eq s (codes "medium")
    then some Estimate.medium
    else if text_eq s (codes "large")
    then some large
    else none
estimate_of _ = none

abbrev pub priority_of : Json → Priority
priority_of (str s) =
    if text_eq s (codes "low")
    then low
    else if text_eq s (codes "high")
    then high
    else if text_eq s (codes "critical")
    then critical
    else Priority.medium
priority_of _ = Priority.medium

abbrev pub milestone_of : Json → Option Text
milestone_of (str s) = some (take 128 (strip s))
milestone_of _ = none

abbrev pub text_or_none : Text → Option Text
text_or_none [] = none
text_or_none (c ∷ s) = some (c ∷ s)

module _ (str_of : Json → Text) where
  -- `str(value or "").strip() or None`
  abbrev prose_of : Json → Option Text
  prose_of j = text_or_none (if is_true j then strip (str_of j) else [])

  clean_item : Text → Fields → List ℕ → RoadmapItem
  clean_item title item deps = record {
    title = take 256 title;
    milestone = milestone_of (get_field "milestone" item);
    kind = kind_of (get_field "kind" item);
    estimate = estimate_of (get_field "estimate" item);
    priority = priority_of (get_field "priority" item);
    description = prose_of (get_field "description" item);
    rationale = prose_of (get_field "rationale" item);
    depends_on = deps;
  }

  check_fields : ℕ → Text → Fields → Checked RoadmapError RoadmapItem
  unfolding clean_item
  check_fields sequence title item = elim (list_or_empty (get_field "depends_on" item)) [
    | none ↦ refused (bad_dependencies sequence)
    | some deps ↦ elim (earlier_numbers sequence deps) [
      | none ↦ refused (bad_dependencies sequence)
      | some ns ↦ valid (clean_item title item ns)
    ]
  ]

  -- One round of the loop.
  pub check_item : ℕ → Json → Checked RoadmapError RoadmapItem
  unfolding check_fields
  check_item sequence (object item) =
      let title = title_of (get_field "title" item) in
      if is_empty title then refused (needs_title sequence) else check_fields sequence title item
  check_item sequence _ = refused (not_an_object sequence)

  pub check_items : ℕ → List Json → Checked RoadmapError (List RoadmapItem)
  unfolding check_item
  check_items sequence [] = valid []
  check_items sequence (j ∷ js) = elim (check_item sequence j) [
    | refused e ↦ refused e
    | type_error ↦ type_error
    | valid t ↦ elim (check_items (sequence + 1) js) [
      | refused e ↦ refused e
      | type_error ↦ type_error
      | valid ts ↦ valid (t ∷ ts)
    ]
  ]

  -- `validate_roadmap`
  unfoldable pub validate_roadmap : Fields → Checked RoadmapError (List RoadmapItem)
  unfolding check_items
  validate_roadmap roadmap = elim (list_of (get_field "items" roadmap)) [
    | none ↦ refused no_item_list
    | some items ↦
        if leb 1 (length items) && leb (length items) max_roadmap_items
        then check_items 1 items
        else refused no_item_list
  ]

-- `created[dep - 1].id`; Python's -1 is the last one.
abbrev pub last_id : List ℕ → Option ℕ
last_id [] = none
last_id (i ∷ []) = some i
last_id (i ∷ j ∷ is) = last_id (j ∷ is)

abbrev pub created_id : List ℕ → ℕ → Option ℕ
created_id ids dep = if dep == 0 then last_id ids else get_elem? ids (dep - 1)

pub wired : List ℕ → List ℕ → Option (List ℕ)
wired ids [] = some []
wired ids (dep ∷ deps) = elim (created_id ids dep) [
  | none ↦ none
  | some i ↦ elim (wired ids deps) [ none ↦ none | some is ↦ some (i ∷ is) ]
]

abbrev pub backlog_row :
    (keys : ℕ → ℕ) → (created_at repository_id position : ℕ) → RoadmapItem → List ℕ → WorkItem
backlog_row keys created_at repository_id position item deps = record {
  id = keys position;
  repository_id = repository_id;
  title = item.title;
  description = item.description;
  kind = item.kind;
  status = WorkItemStatus.proposed;
  estimate = item.estimate;
  priority = item.priority;
  milestone = item.milestone;
  depends_on = deps;
  rationale = item.rationale;
  position = pos position;
  implemented_by_run_id = none;
  external_issue_url = none;
  external_issue_key = none;
  created_at = created_at;
}

-- The keys of the created rows, from a position on.
abbrev pub created_ids : (keys : ℕ → ℕ) → (position : ℕ) → List RoadmapItem → List ℕ
created_ids keys position [] = []
created_ids keys position (_ ∷ items) = keys position ∷ created_ids keys (position + 1) items

module _ (keys : ℕ → ℕ) (created_at repository_id : ℕ) where
  -- The second loop: the rows with their dependencies.
  pub wired_rows : (ids : List ℕ) → (position : ℕ) → List RoadmapItem → Option (List WorkItem)
  unfolding wired
  wired_rows ids position [] = some []
  wired_rows ids position (item ∷ items) = elim (wired ids item.depends_on) [
    | none ↦ none
    | some deps ↦ elim (wired_rows ids (position + 1) items) [
      | none ↦ none
      | some rows ↦ some (backlog_row keys created_at repository_id position item deps ∷ rows)
    ]
  ]

  -- The keys that the database generates are new, or the flush fails.
  abbrev pub any_taken : List ℕ → List ℕ → Bool
  any_taken taken [] = false
  any_taken taken (i ∷ is) = elem i taken || any_taken (i ∷ taken) is

  -- `persist_roadmap`
  unfoldable pub persist_roadmap : List RoadmapItem → Backlog → Reply (List WorkItem) × Backlog
  unfolding wired_rows
  persist_roadmap items b =
      let ids = created_ids keys 0 items in
      if any_taken (item_ids b.items) ids
      then (raise integrity_error, b)
      else elim (wired_rows ids 0 items) [
        | none ↦ (raise index_error, b)
        | some rows ↦ (ok rows, record b { items = b.items ++ rows })
      ]
