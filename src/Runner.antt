-- ===== src/Runner.antt =====
-- apps/engine/src/engine/agents/runner.py: one run from its plan to its pull request.
pub mod World
pub mod Executor
pub mod Gates
pub mod Phases
pub mod Contracts
pub mod Outcome
pub mod Completion
pub mod Review
pub mod Supervise
pub mod Ending
pub mod Agents
pub mod Planning
