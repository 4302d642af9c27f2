-- ===== src/ScrumMaster/Roadmap.antt =====
-- `generate_roadmap` of apps/engine/src/engine/agents/scrum_master.py and the handler
-- `generate_repository_roadmap` of api/work_items.py. The model is a parameter: it is asked with
-- the error of its first reply, if there was one, and answers or raises.
use automated_software_engin.Prelude.{
  ℕ, ◌≡◌, Bool, Option, none, some, List, ◌++◌, length, ◌≤◌, if◌then◌else◌, Text, ◌≢◌,
}
use automated_software_engin.Errors.{Exc, Reply, ok, raise}
use automated_software_engin.Answers.{Json, Fields, Checked, valid, refused, type_error}
use automated_software_engin.Loop.Parsing.{parse_json_object}
use automated_software_engin.Backlog.{WorkItem, Principal, Backlog, items_of}
use automated_software_engin.Backlog.Items.{is_visible}
use automated_software_engin.Backlog.Sound.{IsSound}
use automated_software_engin.ScrumMaster.{
  max_roadmap_items, RoadmapItem, RoadmapError, unreadable, validate_roadmap, persist_roadmap,
}
use automated_software_engin.ScrumMaster.Saved.{ArePlaced, planned_rows}

-- What the handler answers; the last three are errors of the server.
pub data Outcome : Type 0 where
  created : List WorkItem → Outcome
  not_found : Outcome
  rejected : RoadmapError → Outcome
  mistyped : Outcome
  raised : Exc → Outcome

-- `[_work_item_out(item) for item in created]`
abbrev pub answered : Reply (List WorkItem) × Backlog → Outcome × Backlog
answered (raise x, b) = (raised x, b)
answered (ok rows, b) = (created rows, b)

module _ (str_of : Json → Text) (loads : Text → Option Json) where
  -- `validate_roadmap(_parse(reply))`
  pub read_roadmap : Text → Checked RoadmapError (List RoadmapItem)
  read_roadmap reply = elim (parse_json_object loads reply) [
    | refused message ↦ refused (unreadable message)
    | type_error ↦ type_error
    | valid fields ↦ validate_roadmap str_of fields
  ]

  module _ {S : Type 0} (complete : Option RoadmapError → S → Reply Text × S) where
    -- The corrective round.
    pub ask_again : RoadmapError → S → Reply (Checked RoadmapError (List RoadmapItem)) × S
    unfolding read_roadmap
    ask_again e s =
        let (reply, s') = complete (some e) s in
        elim reply [ raise x ↦ (raise x, s') | ok text ↦ (ok (read_roadmap text), s') ]

    -- `generate_roadmap`; `offline` is the fixed roadmap of the offline mode.
    pub generate_roadmap :
        (llm_fake : Bool)
        → (offline : Fields) → S
        → Reply (Checked RoadmapError (List RoadmapItem)) × S
    unfolding ask_again
    generate_roadmap llm_fake offline s =
        let (reply, s') = complete none s in
        if llm_fake then (ok (validate_roadmap str_of offline), s) else elim reply [
          | raise x ↦ (raise x, s')
          | ok text ↦ elim (read_roadmap text) [
            | refused e ↦ ask_again e s'
            | type_error ↦ (ok type_error, s')
            | valid items ↦ (ok (valid items), s')
          ]
        ]

    module _ (keys : ℕ → ℕ) (created_at : ℕ) where
      pub save_roadmap :
          (repository_id : ℕ)
          → Reply (Checked RoadmapError (List RoadmapItem))
          → Backlog
          → Outcome × Backlog
      save_roadmap repository_id (raise x) b = (raised x, b)
      save_roadmap repository_id (ok (refused e)) b = (rejected e, b)
      save_roadmap repository_id (ok type_error) b = (mistyped, b)
      save_roadmap repository_id (ok (valid items)) b =
          answered (persist_roadmap keys created_at repository_id items b)

      -- `generate_repository_roadmap`
      unfoldable pub generate_repository_roadmap :
          (llm_fake : Bool)
          → (offline : Fields) → Principal
          → (repository_id : ℕ) → Backlog
          → S
          → (Outcome × Backlog) × S
      unfolding generate_roadmap save_roadmap
      generate_repository_roadmap llm_fake offline p repository_id b s =
          let (roadmap, s') = generate_roadmap llm_fake offline s in
          if is_visible p repository_id b
          then (save_roadmap repository_id roadmap b, s')
          else ((not_found, b), s)

module _ (str_of : Json → Text) (loads : Text → Option Json) {S : Type 0}
    (complete : Option RoadmapError → S → Reply Text × S) (keys : ℕ → ℕ) (created_at : ℕ) where
  -- A roadmap that the check accepted.
  abbrev IsChecked : Checked RoadmapError (List RoadmapItem) → Type 0
  IsChecked (valid items) =
      ArePlaced 1 items × (1 ≤ length items) × (length items ≤ max_roadmap_items)
  IsChecked (refused e) = Unit
  IsChecked type_error = Unit

  abbrev AnswersChecked : Reply (Checked RoadmapError (List RoadmapItem)) → Type 0
  AnswersChecked (raise x) = Unit
  AnswersChecked (ok c) = IsChecked c

  -- What a call of the handler may leave, by the roadmap that was generated: a sound backlog and,
  -- where items were created, the rows of all items of the roadmap at its end, between one and
  -- twenty of them.
  pub record IsPlanned (r : ℕ) (roadmap : Reply (Checked RoadmapError (List RoadmapItem)))
      (b : Backlog) (answer : Outcome × Backlog) : Type 0 where
    pub sound : IsSound (items_of r answer.1.items)
    pub rows :
        (ts : List WorkItem)
        → answer.0 ≡ created ts
        → (items : List RoadmapItem) × (roadmap ≡ ok (valid items))
          × (ts ≡ planned_rows keys created_at r 0 items)
          × (answer.1.items ≡ b.items ++ ts)
          × (1 ≤ length items)
          × (length items ≤ max_roadmap_items)
    pub unchanged : ((ts : List WorkItem) → answer.0 ≢ created ts) → answer.1 ≡ b
