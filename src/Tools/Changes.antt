-- ===== src/Tools/Changes.antt =====
-- What the task-board tools of apps/engine/src/engine/agents/tools.py do to the rows of the board.
use automated_software_engin.Prelude.{
  Option, Option-cases, strip, is_empty, ℕ, ◌+◌, ◌<◌, ◌≡◌, refl, subst, sym, ◌⊎◌, inl, inr, true,
  false, none, some, List, [], ◌∷◌, ◌++◌, arith, leb, ◌==◌, Text, elem, length, Bool-cases, find_by,
}
use automated_software_engin.Errors.{ok}
use automated_software_engin.Enums.{TaskStatus, AgentRole}
use automated_software_engin.Store.{AgentTask, Db, update_row}
use automated_software_engin.Registry.{ToolName}
use automated_software_engin.Tools.{
  StatusArg, RoleArg, ToolReply, ToolCall, add, set_status, other, unknown_tool, max_board_tasks,
  row_ids, max_sequence, new_task, add_task, insert_task, skip_found, skip_sequence, task_role,
  asks_skip, permits, dependents, skip_row, update_task_status, call_tool,
}

-- A task that joins the board.
pub record IsAdded (rows : List AgentTask) (t : AgentTask) : Type 0 where
  pub room : length rows < max_board_tasks
  pub new : elem t.id (row_ids rows) ≡ false
  pub next : t.sequence ≡ max_sequence rows + 1
  pub waits : t.status ≡ TaskStatus.pending
  pub untried : t.attempts ≡ 0
  pub alone : t.depends_on ≡ []

-- What holds of the board whatever agents do to it.
pub record IsKept (P : List AgentTask → Type 0) : Type 0 where
  pub added : (rows : List AgentTask) (t : AgentTask) → IsAdded rows t → P rows → P (rows ++ t ∷ [])
  pub skipped :
      (rows : List AgentTask) (i : ℕ) (reason : Text)
      → dependents i rows ≡ []
      → P rows
      → P (update_row i (skip_row reason) rows)

module _ (P : List AgentTask → Type 0) (keeps : IsKept P) where
  insert_task_keeps :
      (id : ℕ) (r : AgentRole) (title description : Text) (db db' : Db) (reply : ToolReply)
      → length db.tasks < max_board_tasks
      → insert_task id r title description db ≡ ok (reply, db')
      → P db.tasks
      → P db'.tasks
  unfolding insert_task new_task
  insert_task_keeps id r title description db db' reply room e b =
      let t = new_task id (max_sequence db.tasks + 1) r title description in
      elim (Bool-cases (elem id (row_ids db.tasks))) [
        | inl taken ↦ cc
        | inr free ↦ subst P (after free) (
            keeps.added db.tasks t
              (record {
                room = room;
                new = free;
                next = refl;
                waits = refl;
                untried = refl;
                alone = refl;
              })
              b)
      ]
    where
      after :
          elem id (row_ids db.tasks) ≡ false
          → db.tasks ++ new_task id (max_sequence db.tasks + 1) r title description ∷ [] ≡ db'.tasks
      after free = ground arith

  add_task_keeps :
      (id : ℕ) (title description : Text) (r : RoleArg) (db db' : Db) (reply : ToolReply)
      → add_task id title description r db ≡ ok (reply, db')
      → P db.tasks
      → P db'.tasks
  unfolding add_task
  add_task_keeps id title description r db db' reply e b =
      elim (cases (task_role r) (Bool-cases (leb max_board_tasks (length db.tasks))) refl) [
        | inl same ↦ subst P (sym same) b
        | inr (known, room, made) ↦
            insert_task_keeps id known (strip title) description db db' reply room made b
      ]
    where
      cases :
          (o : Option AgentRole)
          → (leb max_board_tasks (length db.tasks) ≡ true)
            ⊎ (leb max_board_tasks (length db.tasks) ≡ false)
          → task_role r ≡ o
          → (db'.tasks ≡ db.tasks)
            ⊎ ((known : AgentRole) × (length db.tasks < max_board_tasks)
                × (insert_task id known (strip title) description db ≡ ok (reply, db')))
      cases none _ h = inl (ground arith)
      cases (some known) (inl full) h = inl (ground arith)
      cases (some known) (inr room) h = elim (Bool-cases (is_empty (strip title))) [
        | inl none_left ↦ inl (ground arith)
        | inr titled ↦ inr (known, ground arith, ground arith)
      ]

  skip_found-board :
      (t : AgentTask) (reason : Text) (db : Db)
      → ((skip_found t reason db).1.tasks ≡ db.tasks)
        ⊎ ((dependents t.id db.tasks ≡ [])
            × ((skip_found t reason db).1.tasks ≡ update_row t.id (skip_row reason) db.tasks))
  unfolding skip_found
  skip_found-board t reason db = ground arith

  skip_found_keeps :
      (t : AgentTask) (reason : Text) (db : Db) → P db.tasks → P (skip_found t reason db).1.tasks
  skip_found_keeps t reason db b = elim (skip_found-board t reason db) [
    | inl same ↦ subst P (sym same) b
    | inr (free, rows) ↦ subst P (sym rows) (keeps.skipped db.tasks t.id reason free b)
  ]

  skip_sequence_keeps :
      (sequence : ℕ) (reason : Text) (db : Db)
      → P db.tasks
      → P (skip_sequence sequence reason db).1.tasks
  unfolding skip_sequence
  skip_sequence_keeps sequence reason db b =
      elim (Option-cases (find_by (λ t. t.sequence == sequence) db.tasks)) [
        | inl e ↦ rw (e, skip_sequence) b
        | inr (t, e) ↦ rw (e, skip_sequence) (skip_found_keeps t reason db b)
      ]

  update_task_status_keeps :
      (sequence : ℕ) (s : StatusArg) (reason : Text) (db : Db)
      → P db.tasks
      → P (update_task_status sequence s reason db).1.tasks
  unfolding update_task_status
  update_task_status_keeps sequence s reason db b = elim (Bool-cases (asks_skip s)) [
    | inl e ↦ rw (e, update_task_status) (skip_sequence_keeps sequence reason db b)
    | inr e ↦ rw (e, update_task_status) b
  ]

  -- What a new task and a skip keep of the board, each answered tool call keeps.
  pub call_tool_keeps :
      (allowed : List ToolName) (call : ToolCall) (db db' : Db) (reply : ToolReply)
      → call_tool allowed call db ≡ ok (reply, db')
      → P db.tasks
      → P db'.tasks
  unfolding call_tool
  call_tool_keeps allowed (add id title description r) db db' reply e b =
      elim (Bool-cases (permits allowed (add id title description r))) [
        | inl p ↦ add_task_keeps id title description r db db' reply (ground arith) b
        | inr p ↦ subst P (ground arith) b
      ]
  call_tool_keeps allowed (set_status sequence s reason) db db' reply e b =
      elim (Bool-cases (permits allowed (set_status sequence s reason))) [
        | inl p ↦ subst P (ground arith) (update_task_status_keeps sequence s reason db b)
        | inr p ↦ subst P (ground arith) b
      ]
  call_tool_keeps allowed (other name succeeds) db db' reply e b = subst P (ground arith) b
  call_tool_keeps allowed (unknown_tool name) db db' reply e b = subst P (ground arith) b
