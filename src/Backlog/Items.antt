-- ===== src/Backlog/Items.antt =====
-- The handlers of apps/engine/src/engine/api/work_items.py that change the backlog. The key and
-- the time of a new row are arguments; the issue trackers are a parameter.
use automated_software_engin.Prelude.{
  ℕ, ◌+◌, Bool, true, false, not, ◌&&◌, Option, none, some, List, [], ◌∷◌, ◌++◌, map, filter_by,
  find_by, is_empty, is_some, elem, length, ◌==◌, if◌then◌else◌, Text,
}
use automated_software_engin.Errors.{Exc, integrity_error}
use automated_software_engin.Backlog.{
  WorkItemKind, WorkItemStatus, Estimate, Priority, ℤ, pos, WorkItem, Principal, Backlog,
  can_access, items_of, dependencies, in_board_order,
}
use automated_software_engin.Backlog.Walk.{closes_cycle, no_cycle, out_of_fuel, extend, walk}
use automated_software_engin.Backlog.Bounds.{left_over}

-- The refusals of the handlers, as the values that they print.
pub data Refusal : Type 0 where
  repository_not_found item_not_found would_cycle not_connected not_a_tracker : Refusal
  unknown_dependencies unknown_items : (ids : List ℕ) → Refusal
  tracker_failed : Text → Refusal

-- `endless` stands for a walk that does not end; no handler answers it.
pub data Response {ℓ} (A : Type ℓ) : Type ℓ where
  answer : A → Response A
  refuse : Refusal → Response A
  crash : Exc → Response A
  endless : Response A

-- `_visible_repository`
abbrev pub is_visible : Principal → ℕ → Backlog → Bool
is_visible p repository_id b = elim (find_by (λ r. r.id == repository_id) b.repositories) [
  | none ↦ false
  | some r ↦ can_access p r.owner_id r.org_id
]

-- `_owned_work_item`
abbrev pub owned_work_item : Principal → (repository_id item_id : ℕ) → Backlog → Response WorkItem
owned_work_item p repository_id item_id b =
    if is_visible p repository_id b
    then elim (find_by (λ t. t.id == item_id) b.items) [
      | none ↦ refuse item_not_found
      | some t ↦ if t.repository_id == repository_id then answer t else refuse item_not_found
    ]
    else refuse repository_not_found

abbrev pub item_ids : List WorkItem → List ℕ
item_ids items = map (λ t. t.id) items

-- `_reject_dependency_cycles`
unfoldable pub reject_dependency_cycles : List WorkItem → (this_id : ℕ) → List ℕ → Response (List ℕ)
reject_dependency_cycles items this_id new_deps =
    elim (walk (dependencies items) this_id (length new_deps + left_over [] items)
      (extend [] new_deps) []) [
        | closes_cycle ↦ refuse would_cycle
        | no_cycle ↦ answer new_deps
        | out_of_fuel ↦ endless
      ]

abbrev pub is_this : Option ℕ → ℕ → Bool
is_this none d = false
is_this (some this_id) d = d == this_id

-- `_validate_dependencies`, among the items of the repository.
unfoldable pub validate_dependencies :
    List WorkItem → (depends_on : List ℕ) → (this_id : Option ℕ) → Response (List ℕ)
unfolding reject_dependency_cycles
validate_dependencies items depends_on this_id =
    let ids = filter_by (λ d. not (is_this this_id d)) depends_on in
    let missing = filter_by (λ d. not (elem d (item_ids items))) ids in
    if is_empty ids
    then answer []
    else if not (is_empty missing)
    then refuse (unknown_dependencies missing)
    else elim this_id [ none ↦ answer ids | some i ↦ reject_dependency_cycles items i ids ]

-- WorkItemIn, after its validation.
pub record WorkItemIn : Type 0 where
  pub title : Text
  pub description : Option Text
  pub kind : WorkItemKind
  pub priority : Priority
  pub estimate : Option Estimate
  pub milestone : Option Text
  pub depends_on : List ℕ

abbrev pub created : (id created_at repository_id : ℕ) → WorkItemIn → List ℕ → WorkItem
created id created_at repository_id body depends_on = record {
  id = id;
  repository_id = repository_id;
  title = body.title;
  description = body.description;
  kind = body.kind;
  status = WorkItemStatus.proposed;
  estimate = body.estimate;
  priority = body.priority;
  milestone = body.milestone;
  depends_on = depends_on;
  rationale = none;
  position = pos 0;
  implemented_by_run_id = none;
  external_issue_url = none;
  external_issue_key = none;
  created_at = created_at;
}

-- A row that joins the table; a key that is taken fails the commit.
abbrev pub insert : WorkItem → Backlog → Response WorkItem × Backlog
insert t b =
    if elem t.id (item_ids b.items)
    then (crash integrity_error, b)
    else (answer t, record b { items = b.items ++ t ∷ [] })

-- `create_work_item`
unfoldable pub create_work_item :
    (id created_at : ℕ)
    → Principal
    → (repository_id : ℕ) → WorkItemIn
    → Backlog
    → Response WorkItem × Backlog
unfolding validate_dependencies
create_work_item id created_at p repository_id body b =
    if is_visible p repository_id b
    then elim (validate_dependencies (items_of repository_id b.items) body.depends_on none) [
      | answer deps ↦ insert (created id created_at repository_id body deps) b
      | refuse r ↦ (refuse r, b)
      | crash e ↦ (crash e, b)
      | endless ↦ (endless, b)
    ]
    else (refuse repository_not_found, b)

-- A field of a partial update: left out, or sent, as null too.
pub data Change {ℓ} (A : Type ℓ) : Type ℓ where
  unset : Change A
  to : Option A → Change A

pub record WorkItemUpdate : Type 0 where
  pub title : Change Text
  pub description : Change Text
  pub kind : Change WorkItemKind
  pub status : Change WorkItemStatus
  pub priority : Change Priority
  pub estimate : Change Estimate
  pub milestone : Change Text
  pub depends_on : Change (List ℕ)
  pub rationale : Change Text
  pub position : Change ℤ

-- Whether a column that may not be null is not set to null.
abbrev pub is_kept {ℓ} : {A : Type ℓ} → Change A → Bool
is_kept unset = true
is_kept (to o) = is_some o

abbrev pub required {ℓ} : {A : Type ℓ} → Change A → A → A
required unset a = a
required (to none) a = a
required (to (some b)) a = b

abbrev pub nullable {ℓ} : {A : Type ℓ} → Change A → Option A → Option A
nullable unset o = o
nullable (to o') o = o'

-- The commit goes through: no column that may not be null is set to null.
abbrev pub is_complete : WorkItemUpdate → Bool
is_complete u =
    is_kept u.title
    && is_kept u.kind
    && is_kept u.status
    && is_kept u.priority
    && is_kept u.position

-- The `setattr` loop, with the dependencies as they were validated.
abbrev pub with_changes : WorkItemUpdate → Option (List ℕ) → WorkItem → WorkItem
with_changes u deps t = record t {
  title = required u.title t.title;
  description = nullable u.description t.description;
  kind = required u.kind t.kind;
  status = required u.status t.status;
  priority = required u.priority t.priority;
  estimate = nullable u.estimate t.estimate;
  milestone = nullable u.milestone t.milestone;
  depends_on = elim deps [ none ↦ t.depends_on | some ds ↦ ds ];
  rationale = nullable u.rationale t.rationale;
  position = required u.position t.position;
}

abbrev pub update_item : ℕ → (WorkItem → WorkItem) → List WorkItem → List WorkItem
update_item i f [] = []
update_item i f (t ∷ ts) = (if t.id == i then f t else t) ∷ update_item i f ts

abbrev pub or_empty : Option (List ℕ) → List ℕ
or_empty none = []
or_empty (some ds) = ds

-- The dependencies of an update: none where they are left out.
abbrev pub checked_dependencies : List WorkItem → ℕ → Change (List ℕ) → Response (Option (List ℕ))
checked_dependencies items item_id unset = answer none
checked_dependencies items item_id (to o) =
    elim (validate_dependencies items (or_empty o) (some item_id)) [
      | answer deps ↦ answer (some deps)
      | refuse r ↦ refuse r
      | crash e ↦ crash e
      | endless ↦ endless
    ]

abbrev pub save_changes :
    (item_id : ℕ)
    → WorkItemUpdate
    → Option (List ℕ)
    → WorkItem
    → Backlog
    → Response WorkItem × Backlog
save_changes item_id u deps t b =
    if is_complete u
    then (
      answer (with_changes u deps t),
      record b { items = update_item item_id (with_changes u deps) b.items },
    )
    else (crash integrity_error, b)

-- `update_work_item`
unfoldable pub update_work_item :
    Principal → (repository_id item_id : ℕ) → WorkItemUpdate → Backlog → Response WorkItem × Backlog
update_work_item p repository_id item_id u b = elim (owned_work_item p repository_id item_id b) [
  | refuse r ↦ (refuse r, b)
  | crash e ↦ (crash e, b)
  | endless ↦ (endless, b)
  | answer t ↦ elim (checked_dependencies (items_of repository_id b.items) item_id u.depends_on) [
    | refuse r ↦ (refuse r, b)
    | crash e ↦ (crash e, b)
    | endless ↦ (endless, b)
    | answer deps ↦ save_changes item_id u deps t b
  ]
]

-- The loop of `reorder_work_items`: `enumerate(body.ordered_ids)`, from a position on.
abbrev pub set_positions : (position : ℕ) → List ℕ → List WorkItem → List WorkItem
set_positions position [] items = items
set_positions position (i ∷ is) items =
    set_positions (position + 1) is
      (update_item i (λ t. record t { position = pos position }) items)

-- `reorder_work_items`
unfoldable pub reorder_work_items :
    Principal
    → (repository_id : ℕ) → (ordered_ids : List ℕ) → Backlog
    → Response (List WorkItem) × Backlog
unfolding in_board_order
reorder_work_items p repository_id ordered_ids b =
    let unknown =
      filter_by (λ i. not (elem i (item_ids (items_of repository_id b.items)))) ordered_ids in
    let b' = record b { items = set_positions 0 ordered_ids b.items } in
    if is_visible p repository_id b
    then (if is_empty unknown
        then (answer (in_board_order (items_of repository_id b'.items)), b')
        else (refuse (unknown_items unknown), b))
    else (refuse repository_not_found, b)

-- `push_work_item`: `connection` says whether the tracker is connected, `create_issue` answers the
-- issue's address and key, or the tracker's error.
unfoldable pub push_work_item :
    (is_tracker connection : Bool)
    → (create_issue : Text → Option Text → Response (Text × Text)) → Principal
    → (repository_id item_id : ℕ) → Backlog
    → Response WorkItem × Backlog
push_work_item is_tracker connection create_issue p repository_id item_id b =
    if not is_tracker
    then (refuse not_a_tracker, b)
    else elim (owned_work_item p repository_id item_id b) [
      | refuse r ↦ (refuse r, b)
      | crash e ↦ (crash e, b)
      | endless ↦ (endless, b)
      | answer t ↦
          if not connection
          then (refuse not_connected, b)
          else elim (create_issue t.title t.description) [
            | refuse r ↦ (refuse r, b)
            | crash e ↦ (crash e, b)
            | endless ↦ (endless, b)
            | answer issue ↦
                let link = λ (v : WorkItem). record v {
                  external_issue_url = some issue.0;
                  external_issue_key = some issue.1;
                } in
                (answer (link t), record b { items = update_item t.id link b.items })
          ]
    ]
