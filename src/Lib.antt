-- ===== src/Lib.antt =====
-- The agent runtime of the automated software engineering team: a user asks for a change, a
-- Product Manager plans it, the user approves the plan, a supervisor routes its tasks to
-- engineers, a reviewer reads the result, three gates test and scan it, and a pull request is
-- opened. All of it stands under apps/engine/src/engine.
--
-- Which file models which part:
--   Prelude            shared lists, Boolean tests, text and sets of identifiers
--   Errors, Enums      the exceptions, and db/enums.py
--   Store              the rows of a run in db/models.py: run, task board, timeline (newest first)
--   Supervisor         agents/supervisor.py: schedule, execute, finalize and the graph of them. The
--                      executor is an argument that acts on a world of its own, and the contract
--                      that it keeps is a record in Supervisor/Invariant. Choice, Board, Absorb,
--                      Deadlock and Progress are about the pick, the board, one attempt, open
--                      boards and the end of the graph
--   Registry, Tools    agents/registry.py and agents/tools.py: who may call what, the task-board
--                      tools and the dispatcher; Tools/Board is about a sound board
--   Answers            the JSON values of a final answer
--   ProductManager     agents/product_manager.py: the check of a plan; Session is the rounds of it
--   Reviewer           validate_verdict of agents/reviewer.py
--   Runner             agents/runner.py: World (the state and the outside world), Executor
--                      (_make_task_executor), Gates (_review, _sandbox_gate, _security_gate,
--                      _dependency_gate, _publish), Phases (_plan_run, _execute_tasks, _guarded);
--                      Contracts, Agents, Planning, Outcome, Completion, Review, Supervise and
--                      Ending are about them
--   Recovery           agents/recovery.py and the run jobs of worker.py
--   Runs               plan editing, the decision and the deletion of api/runs.py
--   Loop               agents/loop.py: run_tool_loop; Loop/Parsing is parse_json_object
--   Backlog            the work items of db/models.py and db/visibility.py; Backlog/Items and Reads
--                      are the handlers of api/work_items.py, Walk the search for a cycle;
--                      Acyclic, Bounds, Sound, Kept, Joins and Reordered are about them
--   Insights           planning/insights.py
--   ScrumMaster        agents/scrum_master.py: the check and the save of a roadmap; Roadmap adds
--                      the call of the model and the handler, Saved is about the rows
--   Indexing           indexing/chunker.py (Chunker, with Blank, Cover and Cuts about it) and
--                      indexing/indexer.py (Indexer, with ByPath, Rebuild and Refine about it)
--   RateLimit          ratelimit.py: the buckets, the in-process limiter and the middleware;
--                      Shared is the limiter in Redis; Table, Bound and Retry are about them
--   Sandbox            sandbox/runner.py; Unplugged and Search are about it
--   Llm                the retries of llm/router.py, with Retries about them; Llm/Keys is llm/keys.py
--   Security           security/secrets_scanner.py (Secrets, with Diff about the walk over a diff)
--                      and security/dependency_scanner.py (Dependencies, with Pins about it); Lines
--                      is the split of a text into lines that both rest on
--   Tests              the theorems at concrete inputs
--
-- How they interact: Runner.Phases runs Supervisor's graph over the saved board with
-- Runner.Executor as its executor; an agent's session is the list of tool calls that it makes,
-- answered by Tools.call_tool under the policy of Registry; Recovery and Runs prepare the rows
-- that the phases start from. ScrumMaster reads its answers with Loop.Parsing and writes to the
-- rows of Backlog, which Insights reads. The runner meets the sandbox and the scans through the
-- fields of Runner.World.Outside, whose answers are those of Sandbox and Security.
--
-- State is passed explicitly: a Db holds the rows of one run, a World adds the executor's known
-- task ids and the outside world. Each committed session block is one function on the Db, so what
-- was committed before an exception stays. Identifiers are numbers, text is a list of code points,
-- money is in micro-dollars.
--
-- Bounds and fuel: the graph runs on the number of nodes that LangGraph's recursion limit allows,
-- and Supervisor.Progress gives the number that is enough. The walk for a cycle has the number of
-- proposed dependencies and of edges of the backlog as fuel, the search for test files the number
-- of folders, a window loop the lines of its segment, the embedding a round for each text, a call
-- with retries one call more than there are delays; that each is enough is part of a theorem
-- below. Every other loop is structural.
--
-- Not modelled: the model, git, Docker, Redis, the JWT and syntax-tree libraries, source hosts and
-- the regular expressions of the scanners, which are fields of Runner.World.Outside or arguments;
-- audit-log rows, logging, pings and report artifacts; the web application; retrieval, the import
-- graph, integrations and operations. RateLimit counts time in ticks and tokens in parts where the
-- source has floats, so their rounding is left out; that of Retry-After is not.
mod Prelude
pub mod Errors
pub mod Enums
pub mod Supervisor
pub mod Store
pub mod Registry
pub mod Tools
pub mod Answers
pub mod ProductManager
pub mod Runner
pub mod Recovery
pub mod Runs
pub mod Loop
pub mod Reviewer
pub mod Backlog
pub mod ScrumMaster
pub mod Insights
pub mod Indexing
pub mod RateLimit
pub mod Sandbox
pub mod Llm
pub mod Security
pub mod Tests
