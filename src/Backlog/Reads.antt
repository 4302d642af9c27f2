-- ===== src/Backlog/Reads.antt =====
-- The handlers of apps/engine/src/engine/api/work_items.py that only read, and the check of a
-- title that they share with the others.
use automated_software_engin.Prelude.{
  ℕ, Option, none, some, List, find_by, is_empty, ◌==◌, if◌then◌else◌, Text, strip,
}
use automated_software_engin.Backlog.{WorkItem, Principal, Backlog, items_of, in_board_order}
use automated_software_engin.Backlog.Items.{
  Response, answer, refuse, repository_not_found, is_visible,
}
use automated_software_engin.Insights.{BlockedItem, plan_insights}

-- What the validation of a title gives: no title, a clean one, or the error that it is blank.
pub data Title : Type 0 where
  absent blank : Title
  clean : Text → Title

-- `_stripped_title`
unfoldable pub stripped_title : Option Text → Title
stripped_title none = absent
stripped_title (some value) =
    let stripped = strip value in if is_empty stripped then blank else clean stripped

-- `list_work_items`
unfoldable pub list_work_items :
    Principal → (repository_id : ℕ) → Backlog → Response (List WorkItem)
list_work_items p repository_id b =
    if is_visible p repository_id b
    then answer (in_board_order (items_of repository_id b.items))
    else refuse repository_not_found

pub record PlanInsightsOut : Type 0 where
  pub blocked : List BlockedItem
  pub recommended : Option WorkItem

-- `by_id.get(insights.recommended_id)`
abbrev pub recommended_item : List WorkItem → Option ℕ → Option WorkItem
recommended_item items none = none
recommended_item items (some i) = find_by (λ t. t.id == i) items

-- `work_item_insights`
unfoldable pub work_item_insights :
    Principal → (repository_id : ℕ) → Backlog → Response PlanInsightsOut
work_item_insights p repository_id b =
    let items = in_board_order (items_of repository_id b.items) in
    let insights = plan_insights items in
    if is_visible p repository_id b
    then answer (record {
      blocked = insights.blocked;
      recommended = recommended_item items insights.recommended_id;
    })
    else refuse repository_not_found
