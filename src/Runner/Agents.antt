-- ===== src/Runner/Agents.antt =====
-- What an agent at work can do to the task board, whatever tools it calls.
use automated_software_engin.Prelude.{
  ℕ, ◌≡◌, refl, ◌∙◌, false, ◌||◌, Option, some, List, [], ◌∷◌, arith,
}
use automated_software_engin.Errors.{Reply, ok, raise}
use automated_software_engin.Enums.{AgentRole}
use automated_software_engin.Store.{AgentTask, Db, emit, tool_called, agent_reasoning}
use automated_software_engin.Registry.{get_agent_spec, is_engineer, is_supervisor, writers_only}
use automated_software_engin.Tools.{
  ToolCall, ToolReply, add, set_status, other, unknown_tool, call_tool,
}
use automated_software_engin.Tools.Board.{IsTaskBoard, IsTaskBoard-IsKept}
use automated_software_engin.Tools.Changes.{IsKept, call_tool_keeps}
use automated_software_engin.Runner.World.{AgentAct, called, reasoned, perform, is_fine}

-- What each answered call keeps of the board, the whole session keeps.
module _ (role : AgentRole) (Keeps : List AgentTask → Type 0)
    (kept : (call : ToolCall) (db db' : Db) (reply : ToolReply)
      → call_tool (get_agent_spec role).tools call db ≡ ok (reply, db')
      → Keeps db.tasks
      → Keeps db'.tasks) where
  perform-Keeps :
      (task : Option ℕ) (acts : List AgentAct) (db : Db)
      → Keeps db.tasks
      → Keeps (perform role task acts db).1.tasks
  unfolding perform
  perform-Keeps task [] db b = b
  perform-Keeps task (reasoned ∷ acts) db b =
      perform-Keeps task acts (emit agent_reasoning (some role) task db) b
  perform-Keeps task (called call ∷ acts) db b =
      go (perform-Keeps task acts) (call_tool (get_agent_spec role).tools call db) refl
    where
      go :
          ((d : Db) → Keeps d.tasks → Keeps (perform role task acts d).1.tasks)
          → (r : Reply (ToolReply × Db)) → call_tool (get_agent_spec role).tools call db ≡ r
          → Keeps (perform role task (called call ∷ acts) db).1.tasks
      go later (raise e) h = rw (h, perform) b
      go later (ok (reply, db')) h =
          rw (h, perform)
            (later (emit (tool_called (is_fine reply)) (some role) task db')
              (kept call db db' reply h b))

pub perform-IsKept :
    (role : AgentRole) (P : List AgentTask → Type 0)
    → IsKept P
    → (task : Option ℕ) (acts : List AgentAct) (db : Db) → P db.tasks
    → P (perform role task acts db).1.tasks
perform-IsKept role P keeps task acts db b =
    perform-Keeps role P (call_tool_keeps P keeps (get_agent_spec role).tools) task acts db b

-- From a sound board, an agent in any role leaves a sound board, whatever tools it calls and
-- wherever its session breaks off.
pub perform-IsTaskBoard :
    (role : AgentRole) (task : Option ℕ) (acts : List AgentAct) (db : Db)
    → IsTaskBoard db.tasks
    → IsTaskBoard (perform role task acts db).1.tasks
perform-IsTaskBoard role task acts db b =
    perform-IsKept role IsTaskBoard IsTaskBoard-IsKept task acts db b

call_tool-tasks :
    (role : AgentRole) (call : ToolCall) (db db' : Db) (reply : ToolReply)
    → is_engineer role || is_supervisor role ≡ false
    → call_tool (get_agent_spec role).tools call db ≡ ok (reply, db')
    → db'.tasks ≡ db.tasks
unfolding call_tool
call_tool-tasks role (add id title description r) db db' reply h e =
    let allowed = (writers_only role).3 in ground arith
call_tool-tasks role (set_status sequence s reason) db db' reply h e =
    let allowed = (writers_only role).4 in ground arith
call_tool-tasks role (other name succeeds) db db' reply h e = ground arith
call_tool-tasks role (unknown_tool name) db db' reply h e = ground arith

-- An agent that is neither an engineer nor the supervisor leaves the task board as it was,
-- whatever tools it asks for.
pub perform-tasks :
    (role : AgentRole) (task : Option ℕ) (acts : List AgentAct) (db : Db)
    → is_engineer role || is_supervisor role ≡ false
    → (perform role task acts db).1.tasks ≡ db.tasks
perform-tasks role task acts db h =
    perform-Keeps role (λ rows. rows ≡ db.tasks)
      (λ call d d' reply e same. call_tool-tasks role call d d' reply h e ∙ same) task acts db refl
