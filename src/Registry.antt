-- ===== src/Registry.antt =====
-- apps/engine/src/engine/agents/registry.py: each role's model tier, tool policy and prompt.
use Prim.Native.String.{String}
use automated_software_engin.Prelude.{
  ◌≡◌, refl, Bool, true, false, ◌||◌, List, [], ◌∷◌, ◌++◌, any_of,
}
use automated_software_engin.Enums.{
  AgentRole, supervisor, product_manager, backend, frontend, devops, reviewer, qa, scrum_master,
  technical_writer,
}

pub data ToolName : Type 0 where
  list_dir read_file search search_code apply_patch write_file git_commit git_diff : ToolName
  add_task update_task_status : ToolName

pub data Tier : Type 0 where
  planner coder cheap : Tier

pub record AgentSpec : Type 0 where
  pub role : AgentRole
  pub model_tier : Tier
  pub tools : List ToolName
  pub prompt_file : String

abbrev pub read_tools : List ToolName
read_tools = list_dir ∷ read_file ∷ search ∷ search_code ∷ []

abbrev pub write_tools : List ToolName
write_tools = apply_patch ∷ write_file ∷ []

abbrev pub git_tools : List ToolName
git_tools = git_commit ∷ git_diff ∷ []

abbrev pub board_tools : List ToolName
board_tools = add_task ∷ update_task_status ∷ []

abbrev pub engineer_tools : List ToolName
engineer_tools = read_tools ++ write_tools ++ git_tools ++ board_tools

abbrev spec : AgentRole → Tier → List ToolName → String → AgentSpec
spec role tier tools prompt = record {
  role = role;
  model_tier = tier;
  tools = tools;
  prompt_file = prompt;
}

-- The table `_REGISTRY`, looked up by role.
unfoldable pub get_agent_spec : AgentRole → AgentSpec
get_agent_spec supervisor = spec supervisor cheap (update_task_status ∷ []) "supervisor.md"
get_agent_spec product_manager = spec product_manager planner read_tools "product_manager.md"
get_agent_spec backend = spec backend coder engineer_tools "backend.md"
get_agent_spec frontend = spec frontend coder engineer_tools "frontend.md"
get_agent_spec devops = spec devops coder engineer_tools "devops.md"
get_agent_spec reviewer = spec reviewer planner (read_tools ++ git_diff ∷ []) "reviewer.md"
get_agent_spec qa = spec qa coder (read_tools ++ write_tools ++ git_tools) "qa.md"
get_agent_spec scrum_master = spec scrum_master planner read_tools "scrum_master.md"
get_agent_spec technical_writer = spec technical_writer planner read_tools "technical_writer.md"

abbrev pub tool_eq : ToolName → ToolName → Bool
tool_eq list_dir list_dir = true
tool_eq read_file read_file = true
tool_eq search search = true
tool_eq search_code search_code = true
tool_eq apply_patch apply_patch = true
tool_eq write_file write_file = true
tool_eq git_commit git_commit = true
tool_eq git_diff git_diff = true
tool_eq add_task add_task = true
tool_eq update_task_status update_task_status = true
tool_eq _ _ = false

-- `name in allowed`
abbrev pub is_allowed : ToolName → List ToolName → Bool
is_allowed name allowed = any_of (tool_eq name) allowed

abbrev pub may_use : AgentRole → ToolName → Bool
may_use role name = is_allowed name (get_agent_spec role).tools

abbrev pub is_engineer : AgentRole → Bool
is_engineer backend = true
is_engineer frontend = true
is_engineer devops = true
is_engineer _ = false

abbrev pub is_qa : AgentRole → Bool
is_qa qa = true
is_qa _ = false

abbrev pub is_supervisor : AgentRole → Bool
is_supervisor supervisor = true
is_supervisor _ = false

-- Who may change the workspace: exactly the engineers and QA write files, patch them or commit,
-- exactly the engineers add tasks to the board, and exactly they and the supervisor may skip one.
pub writers_only :
    (role : AgentRole)
    → (may_use role write_file ≡ is_engineer role || is_qa role)
      × (may_use role apply_patch ≡ is_engineer role || is_qa role)
      × (may_use role git_commit ≡ is_engineer role || is_qa role)
      × (may_use role add_task ≡ is_engineer role)
      × (may_use role update_task_status ≡ is_engineer role || is_supervisor role)
unfolding get_agent_spec
writers_only supervisor = (refl, refl, refl, refl, refl)
writers_only _ = (refl, refl, refl, refl, refl)
