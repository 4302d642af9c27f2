-- ===== src/Insights.antt =====
-- apps/engine/src/engine/planning/insights.py: the blocked items of a backlog and the item to
-- start next.
use automated_software_engin.Backlog.{
  WorkItemStatus, Priority, low, medium, high, critical, unranked, WorkItem,
}
use automated_software_engin.Prelude.{
  ℕ, ◌≤◌, ◌≡◌, refl, inl, inr, Bool, true, false, not, ◌&&◌, Option, none, some, List, [], ◌∷◌,
  arith, Memᴰ, All, All-mem, filter_by, is_empty, if◌then◌else◌, Bool-cases, Text, leb, ◌==◌,
  mem-filter_by, mem-filter_by_of_mem,
}

pub record BlockedItem : Type 0 where
  pub item_id : ℕ
  pub title : Text
  pub waiting_on : List ℕ

pub record PlanInsights : Type 0 where
  pub blocked : List BlockedItem
  pub recommended_id : Option ℕ

-- `_PRIORITY_RANK.get(priority, default_rank)`
abbrev pub priority_rank : Priority → ℕ
priority_rank critical = 0
priority_rank high = 1
priority_rank medium = 2
priority_rank low = 3
priority_rank (unranked _) = 2

-- `_SETTLED`
abbrev pub is_settled : WorkItemStatus → Bool
is_settled WorkItemStatus.done = true
is_settled WorkItemStatus.cancelled = true
is_settled _ = false

-- `_STARTABLE`
abbrev pub is_startable : WorkItemStatus → Bool
is_startable WorkItemStatus.proposed = true
is_startable WorkItemStatus.ready = true
is_startable WorkItemStatus.blocked = true
is_startable _ = false

abbrev pub is_done_item : WorkItemStatus → Bool
is_done_item WorkItemStatus.done = true
is_done_item _ = false

-- `by_id`: a later item with the same identifier replaces an earlier one.
abbrev pub by_id : ℕ → List WorkItem → Option WorkItem
by_id i [] = none
by_id i (t ∷ ts) = elim (by_id i ts) [ some u ↦ some u | none ↦ if t.id == i then some t else none ]

-- `dep in by_id and by_id[dep].status != DONE`
abbrev pub is_unmet : List WorkItem → ℕ → Bool
is_unmet items dep = elim (by_id dep items) [ none ↦ false | some t ↦ not (is_done_item t.status) ]

abbrev pub waiting_on : List WorkItem → WorkItem → List ℕ
waiting_on items t = filter_by (is_unmet items) t.depends_on

abbrev pub is_blocked : List WorkItem → WorkItem → Bool
is_blocked items t = not (is_settled t.status) && not (is_empty (waiting_on items t))

abbrev pub is_candidate : List WorkItem → WorkItem → Bool
is_candidate items t =
    not (is_settled t.status) && (is_empty (waiting_on items t) && is_startable t.status)

-- The loop: the blocked items and the candidates, each in board order.
abbrev pub collect : List WorkItem → List WorkItem → List BlockedItem × List WorkItem
collect items [] = ([], [])
collect items (t ∷ ts) =
    let (waiting, candidates) = collect items ts in
    if is_settled t.status
    then (waiting, candidates)
    else if not (is_empty (waiting_on items t))
    then (
      record { item_id = t.id; title = t.title; waiting_on = waiting_on items t } ∷ waiting,
      candidates,
    )
    else if is_startable t.status
    then (waiting, t ∷ candidates)
    else (waiting, candidates)

insert_by_rank : WorkItem → List WorkItem → List WorkItem
insert_by_rank t [] = t ∷ []
insert_by_rank t (u ∷ us) =
    let rest = insert_by_rank t us in
    if leb (priority_rank t.priority) (priority_rank u.priority) then t ∷ u ∷ us else u ∷ rest

-- The stable sort of the candidates by rank.
by_rank : List WorkItem → List WorkItem
unfolding insert_by_rank
by_rank [] = []
by_rank (t ∷ ts) = insert_by_rank t (by_rank ts)

abbrev pub first_id : List WorkItem → Option ℕ
first_id [] = none
first_id (t ∷ _) = some t.id

-- `plan_insights`
unfoldable pub plan_insights : List WorkItem → PlanInsights
unfolding by_rank
plan_insights items =
    let (waiting, candidates) = collect items items in
    record { blocked = waiting; recommended_id = first_id (by_rank candidates) }

collect-candidates :
    (items ts : List WorkItem) → (collect items ts).1 ≡ filter_by (is_candidate items) ts
collect-candidates items [] = refl
collect-candidates items (t ∷ ts) = ground (arith, collect-candidates items ts)

-- The head of the sorted candidates is one of them and none is more urgent.
pub record IsFirst (ts : List WorkItem) (first : WorkItem) : Type 0 where
  pub listed : Memᴰ first ts
  pub most_urgent : All (λ u. priority_rank first.priority ≤ priority_rank u.priority) ts

by_rank-IsFirst :
    (t : WorkItem) (ts : List WorkItem)
    → (first : WorkItem) × (rest : List WorkItem) × (by_rank (t ∷ ts) ≡ first ∷ rest)
      × IsFirst (t ∷ ts) first
unfolding by_rank insert_by_rank
by_rank-IsFirst t [] =
    (t, [], refl, record { listed = Memᴰ.head refl; most_urgent = (omega arith, tt) })
by_rank-IsFirst t (u ∷ us) =
    let (first, rest, e, least) = by_rank-IsFirst u us in
    elim (Bool-cases (leb (priority_rank t.priority) (priority_rank first.priority))) [
      | inl h ↦ (
        t,
        first ∷ rest,
        rw e (rw h refl),
        record {
          listed = Memᴰ.head refl;
          most_urgent = (omega arith, lower first (ground arith) (u ∷ us) least.most_urgent);
        },
      )
      | inr h ↦ (
        first,
        insert_by_rank t rest,
        rw e (rw h refl),
        record { listed = Memᴰ.tail least.listed; most_urgent = (ground arith, least.most_urgent) },
      )
    ]
  where
    lower :
        (first : WorkItem)
        → priority_rank t.priority ≤ priority_rank first.priority
        → (vs : List WorkItem)
        → All (λ v. priority_rank first.priority ≤ priority_rank v.priority) vs
        → All (λ v. priority_rank t.priority ≤ priority_rank v.priority) vs
    lower first h [] a = tt
    lower first h (v ∷ vs) a = (omega (arith, h, a.0), lower first h vs a.1)

-- The item to start next: startable, waiting for nothing, and no more urgent item is.
pub record IsRecommended (items : List WorkItem) (id : ℕ) : Type 0 where
  pub first : WorkItem
  pub named : first.id ≡ id
  pub listed : Memᴰ first items
  pub free : is_candidate items first ≡ true
  pub urgent :
      (u : WorkItem)
      → Memᴰ u items
      → is_candidate items u ≡ true
      → priority_rank first.priority ≤ priority_rank u.priority

-- The recommended item is one of the backlog that can be started and waits for nothing, and no
-- such item is more urgent.
pub plan_insights-IsRecommended :
    (items : List WorkItem) (id : ℕ)
    → (plan_insights items).recommended_id ≡ some id
    → IsRecommended items id
unfolding plan_insights
plan_insights-IsRecommended items id e = go (filter_by (is_candidate items) items) refl
  where
    go : (ts : List WorkItem) → filter_by (is_candidate items) items ≡ ts → IsRecommended items id
    go [] h = absurd (ground (arith, collect-candidates items items, h, e))
    go (t ∷ ts) h =
        let (first, rest, sorted_as, least) = by_rank-IsFirst t ts in
        let member : Memᴰ first items × (is_candidate items first ≡ true) =
          mem-filter_by (is_candidate items) items (rw h least.listed) in
        record {
          first = first;
          named = ground (arith, collect-candidates items items, h, e, sorted_as);
          listed = member.0;
          free = member.1;
          urgent = λ u m c.
              All-mem (λ v. priority_rank first.priority ≤ priority_rank v.priority)
                (rw h at (mem-filter_by_of_mem (is_candidate items) m c)) least.most_urgent;
        }
