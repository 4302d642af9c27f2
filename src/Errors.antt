-- ===== src/Errors.antt =====
-- The exceptions that can end a piece of a run: apps/engine/src/engine/agents/runner.py,
-- supervisor.py and tools.py. A message built from values is kept as those values.
use automated_software_engin.Prelude.{ℕ, Text}

pub data Exc : Type 0 where
  -- BudgetExceeded of runner.py, with the cap and the spent micro-dollars
  budget_exceeded : (cap spent : ℕ) → Exc
  -- `assert`, `[]` on a list or a dictionary, a violated key of the database
  assertion_error index_error key_error integrity_error : Exc
  -- `next` of the supervisor's execute node on a board without the task
  stop_iteration : Exc
  -- the step limit of the supervisor's graph
  graph_recursion_error : Exc
  -- an agent that took all of its turns
  agent_loop_error : Exc
  -- what code outside the engine raised: the model, git, Docker, a source host
  external : Text → Exc

pub data Reply {ℓ} (A : Type ℓ) : Type ℓ where
  ok : A → Reply A
  raise : Exc → Reply A
