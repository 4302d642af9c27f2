-- ===== src/Tests/Plans.antt =====
-- The theorems on the backlog and on roadmaps at concrete inputs.
use automated_software_engin.Prelude.{
  ℕ, suc, ◌+◌, ◌<◌, ◌≡◌, ◌≢◌, refl, true, Option, none, some, List, [], ◌∷◌, Text, codes, arith,
  elem,
}
use automated_software_engin.Errors.{Reply, ok}
use automated_software_engin.Answers.{
  Json, Fields, str, list, object, item, no_items, field, no_fields, valid,
}
use automated_software_engin.Loop.Parsing.{fenced, parse_json_object, parse_json_object-fenced}
use automated_software_engin.Backlog.{
  WorkItem, WorkItemKind, WorkItemStatus, Priority, pos, Backlog, Principal, items_of, dependencies,
}
use automated_software_engin.Backlog.Walk.{Leads, edge, step}
use automated_software_engin.Backlog.Items.{
  WorkItemIn, WorkItemUpdate, unset, to, create_work_item, update_work_item, reorder_work_items,
  validate_dependencies, endless,
}
use automated_software_engin.Backlog.Sound.{IsSound, validate_dependencies-ends}
use automated_software_engin.Backlog.Reordered.{IsReordered, reorder_work_items-IsReordered}
use automated_software_engin.Backlog.Kept.{update_work_item-IsSound}
use automated_software_engin.Backlog.Joins.{create_work_item-IsSound}
use automated_software_engin.ScrumMaster.{RoadmapError}

abbrev an_item : (id : ℕ) → List ℕ → WorkItem
an_item id depends_on = record {
  id = id;
  repository_id = 1;
  title = codes "a page";
  description = none;
  kind = WorkItemKind.feature;
  status = WorkItemStatus.ready;
  estimate = none;
  priority = Priority.high;
  milestone = none;
  depends_on = depends_on;
  rationale = none;
  position = pos 0;
  implemented_by_run_id = none;
  external_issue_url = none;
  external_issue_key = none;
  created_at = id;
}

abbrev board : Backlog
board = record {
  repositories = record { id = 1; owner_id = 5; org_id = none } ∷ [];
  items = an_item 1 [] ∷ an_item 2 (1 ∷ []) ∷ [];
}

abbrev owner : Principal
owner = record { user_id = 5; org_id = none }

depends_down : (u v : ℕ) → elem v (dependencies board.items u) ≡ true → v < u
depends_down u v h = ground arith

way_down : {u v : ℕ} → Leads (dependencies board.items) u v → v < u
way_down {u} {v} (edge d) = depends_down u v d
way_down {u} {v} (step w d p) = omega (arith, depends_down u w d, way_down p)

board-IsSound : IsSound (items_of 1 board.items)
board-IsSound = record { known = (refl, (refl, tt)); acyclic = λ u p. omega (arith, way_down p) }

abbrev no_change : WorkItemUpdate
no_change = record {
  title = unset;
  description = unset;
  kind = unset;
  status = unset;
  priority = unset;
  estimate = unset;
  milestone = unset;
  depends_on = unset;
  rationale = unset;
  position = unset;
}

-- A change that would close a cycle.
abbrev back : WorkItemUpdate
back = record no_change { depends_on = to (some (2 ∷ [])) }

update_work_item-IsSound_example :
    IsSound (items_of 1 (update_work_item owner 1 1 back board).1.items)
update_work_item-IsSound_example = update_work_item-IsSound 1 owner 1 back board board-IsSound

reorder_work_items-IsReordered_example :
    IsReordered owner 1 (2 ∷ 1 ∷ []) board (reorder_work_items owner 1 (2 ∷ 1 ∷ []) board)
reorder_work_items-IsReordered_example = reorder_work_items-IsReordered owner 1 (2 ∷ 1 ∷ []) board

abbrev new_item : WorkItemIn
new_item = record {
  title = codes "its tests";
  description = none;
  kind = WorkItemKind.chore;
  priority = Priority.low;
  estimate = none;
  milestone = none;
  depends_on = 2 ∷ [];
}

create_work_item-IsSound_example :
    IsSound (items_of 1 (create_work_item 3 9 owner 1 new_item board).1.items)
create_work_item-IsSound_example = create_work_item-IsSound 1 3 9 owner new_item board board-IsSound

validate_dependencies-ends_example :
    validate_dependencies board.items (2 ∷ 1 ∷ []) (some 1) ≢ endless
validate_dependencies-ends_example = validate_dependencies-ends board.items (2 ∷ 1 ∷ []) (some 1)

abbrev two_fields : Fields
two_fields =
    field (codes "items")
      (list (item (object (field (codes "title") (str (codes "a page")) no_fields)) no_items))
      no_fields

abbrev loads : Text → Option Json
loads text = some (object two_fields)

parse_json_object-fenced_example :
    parse_json_object loads (fenced (codes "json") (codes "{}")) ≡ valid two_fields
parse_json_object-fenced_example =
    parse_json_object-fenced loads (codes "json") (codes "{}") two_fields refl refl

abbrev str_of : Json → Text
str_of j = []

-- A model that answers at once.
abbrev complete : Option RoadmapError → ℕ → Reply Text × ℕ
complete e n = (ok (codes "{}"), suc n)

abbrev keys : ℕ → ℕ
keys n = n + 10
