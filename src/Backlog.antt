-- ===== src/Backlog.antt =====
-- The backlog of a repository: WorkItem of apps/engine/src/engine/db/models.py, and who may see
-- it, by apps/engine/src/engine/db/visibility.py.
pub mod Walk
pub mod Acyclic
pub mod Bounds
pub mod Items
pub mod Sound
pub mod Kept
pub mod Reordered
pub mod Joins
pub mod Reads
pub use automated_software_engin.Prelude.{ℤ, pos, negsuc}
use automated_software_engin.Prelude.{
  leb_int, ℕ, Bool, true, false, ◌&&◌, ◌||◌, Option, none, some, List, [], ◌∷◌, filter_by, find_by,
  leb, ltb, ◌==◌, if◌then◌else◌, Text,
}

pub data WorkItemKind : Type 0 where
  feature bug chore spike : WorkItemKind

pub data WorkItemStatus : Type 0 where
  proposed ready in_progress blocked done cancelled : WorkItemStatus

pub data Estimate : Type 0 where
  small medium large : Estimate

-- A priority label; the column is text, so it can hold a label that the table does not rank.
pub data Priority : Type 0 where
  low medium high critical : Priority
  unranked : Text → Priority

pub record WorkItem : Type 0 where
  pub id : ℕ
  pub repository_id : ℕ
  pub title : Text
  pub description : Option Text
  pub kind : WorkItemKind
  pub status : WorkItemStatus
  pub estimate : Option Estimate
  pub priority : Priority
  pub milestone : Option Text
  pub depends_on : List ℕ
  pub rationale : Option Text
  -- a user may send a negative one
  pub position : ℤ
  pub implemented_by_run_id : Option ℕ
  pub external_issue_url : Option Text
  pub external_issue_key : Option Text
  pub created_at : ℕ

-- The caller, by the claims of the service token.
pub record Principal : Type 0 where
  pub user_id : ℕ
  pub org_id : Option ℕ

pub record RepositoryRow : Type 0 where
  pub id : ℕ
  pub owner_id : ℕ
  pub org_id : Option ℕ

abbrev pub same_org : Option ℕ → Option ℕ → Bool
same_org (some a) (some b) = a == b
same_org _ _ = false

-- `can_access`
abbrev pub can_access : Principal → (owner_id : ℕ) → (org_id : Option ℕ) → Bool
can_access p owner_id org_id = if owner_id == p.user_id then true else same_org org_id p.org_id

pub record Backlog : Type 0 where
  pub repositories : List RepositoryRow
  pub items : List WorkItem

-- `where(WorkItem.repository_id == repository_id)`
abbrev pub items_of : ℕ → List WorkItem → List WorkItem
items_of repository_id items = filter_by (λ t. t.repository_id == repository_id) items

-- What an item waits for; `graph.get(node, [])`.
abbrev pub dependencies : List WorkItem → ℕ → List ℕ
dependencies items i = elim (find_by (λ t. t.id == i) items) [ none ↦ [] | some t ↦ t.depends_on ]

-- `.order_by(WorkItem.position, WorkItem.created_at)`
abbrev pub comes_first : WorkItem → WorkItem → Bool
comes_first t u =
    if leb_int t.position u.position
    then (if leb_int u.position t.position then leb t.created_at u.created_at else true)
    else false

insert_item : WorkItem → List WorkItem → List WorkItem
insert_item t [] = t ∷ []
insert_item t (u ∷ us) =
    let rest = insert_item t us in if comes_first t u then t ∷ u ∷ us else u ∷ rest

pub in_board_order : List WorkItem → List WorkItem
unfolding insert_item
in_board_order [] = []
in_board_order (t ∷ ts) = insert_item t (in_board_order ts)
