-- ===== src/Sandbox.antt =====
-- apps/engine/src/engine/sandbox/runner.py: the container in which a run's tests execute. Docker is
-- a parameter that answers each command by what was done before; the files of the workspace are
-- arguments, and so are the parsers of pyproject.toml and package.json.
pub mod Unplugged
pub mod Search
use automated_software_engin.Prelude.{
  ℕ, zero, suc, ◌+◌, ◌-◌, Bool, true, false, not, ◌&&◌, ◌||◌, Option, none, some, List, [], ◌∷◌,
  ◌++◌, length, drop, is_empty, any_of, leb, ◌==◌, if◌then◌else◌, Text, codes, text_eq, strip,
  has_prefix, has_suffix, ℤ, pos, negsuc, is_int,
}
use Prim.Native.String.{String}

pub data SandboxStatus : Type 0 where
  passed failed skipped : SandboxStatus

pub record SandboxPlan : Type 0 where
  pub image : Text
  pub install : Option Text
  pub test : Text

-- The reasons, as the values that they print.
pub data Reason : Type 0 where
  no_reason disabled no_tests_found docker_required docker_missing no_container no_copy : Reason
  install_failed not_unplugged timed_out none_collected : Reason
  tests_failed : ℤ → Reason

pub record SandboxResult : Type 0 where
  pub status : SandboxStatus
  pub reason : Reason
  pub output : Text
  pub exit_code : Option ℤ
  pub plan : Option SandboxPlan

-- `text[-_OUTPUT_TAIL:]`
abbrev pub tail : Text → Text
tail text = drop (length text - 4000) text

-- A folder of the workspace; `unreadable` is one that `iterdir` fails on.
mutual
  pub data Entry : Type 0 where
    folder : Text → Entries → Entry
    unreadable : Text → Entry
    plain_file : Text → Entry

  pub data Entries : Type 0 where
    no_entries : Entries
    entry : Entry → Entries → Entries

-- _SKIP_DIRS
abbrev pub is_skipped : Text → Bool
is_skipped name =
    any_of (λ d. text_eq name (codes d))
      (".git" ∷ "node_modules" ∷ ".venv" ∷ "venv" ∷ "__pycache__" ∷ ".tox" ∷ "dist" ∷ "build" ∷ [])

-- `entry.name not in _SKIP_DIRS and not entry.name.startswith(".")`
abbrev pub is_searched : Text → Bool
is_searched name = not (is_skipped name) && not (has_prefix (codes ".") name)

abbrev pub is_test_name : Text → Bool
is_test_name name = has_prefix (codes "test_") name && has_suffix (codes ".py") name

-- The loop over the entries of one folder: `none` is `return True`, else the stack.
unfoldable pub look : Entries → List Entries → Option (List Entries)
look no_entries stack = some stack
look (entry (folder name es) rest) stack =
    look rest (if is_searched name then es ∷ stack else stack)
look (entry (unreadable name) rest) stack = look rest stack
look (entry (plain_file name) rest) stack =
    let on = look rest stack in if is_test_name name then none else on

-- The `while` loop of `_has_bare_python_tests`, on fuel.
unfoldable pub search_folders : ℕ → List Entries → Bool
search_folders fuel [] = false
search_folders zero (es ∷ stack) = false
search_folders (suc fuel) (es ∷ stack) = elim (look es stack) [
  | none ↦ true
  | some stack' ↦ search_folders fuel stack'
]

-- How many folders there are.
unfoldable mutual
  pub folders : Entries → ℕ
  folders no_entries = 0
  folders (entry e rest) = folders_of e + folders rest

  pub folders_of : Entry → ℕ
  folders_of (folder name es) = suc (folders es)
  folders_of (unreadable name) = 0
  folders_of (plain_file name) = 0

-- The files at the root of the workspace, and what the parsers read of two of them: whether
-- pyproject.toml declares a package, whether package.json has a test script; false on an error.
pub record Workspace : Type 0 where
  pub is_file : String → Bool
  pub pyproject_is_installable : Bool
  pub package_json_has_test_script : Bool
  pub entries : Entries

abbrev pub python_plan : String → SandboxPlan
python_plan install = record {
  image = codes "python:3.12-slim";
  install = some (codes install);
  test = codes "python -m pytest -q";
}

abbrev pub node_plan : String → SandboxPlan
node_plan install = record {
  image = codes "node:20-slim";
  install = some (codes install);
  test = codes "npm test";
}

-- `_has_bare_python_tests`: each folder is looked at once.
unfoldable pub has_bare_python_tests : Entries → Bool
unfolding search_folders folders
has_bare_python_tests root = search_folders (suc (folders root)) (root ∷ [])

-- `detect_plan`
unfoldable pub detect_plan : Workspace → Option SandboxPlan
unfolding has_bare_python_tests
detect_plan w =
    if w.is_file "requirements.txt"
    then some (python_plan "pip install -q -r requirements.txt pytest")
    else if w.is_file "pyproject.toml"
    then some (
        python_plan (
          if w.pyproject_is_installable
          then "pip install -q . pytest"
          else "pip install -q pytest"))
    else if w.is_file "package.json"
    then (if w.package_json_has_test_script
        then some (node_plan (if w.is_file "package-lock.json" then "npm ci" else "npm install"))
        else none)
    else if has_bare_python_tests w.entries
    then some (python_plan "pip install -q pytest")
    else none

-- The docker commands: `run` with its limits and hardening, `cp`, `exec` of a shell command,
-- `network disconnect bridge`, `rm -f`.
pub data Command : Type 0 where
  version copy_in disconnect remove : Command
  start : (image : Text) → Command
  exec : (shell : Text) → Command

-- What was done, the newest first, with the exit codes.
abbrev pub History : Type 0
History = List (Command × ℤ)

-- The exit code and the output, by what was done before.
abbrev pub Docker : Type 0
Docker = History → Command → ℤ × Text

pub record Settings : Type 0 where
  pub sandbox_enabled : Bool
  pub sandbox_required : Bool

abbrev pub finished : SandboxStatus → Reason → Text → Option ℤ → Option SandboxPlan → SandboxResult
finished status reason output exit_code plan = record {
  status = status;
  reason = reason;
  output = output;
  exit_code = exit_code;
  plan = plan;
}

-- What the exit code of the tests says; `"pytest" in plan.test` is a parameter of the text.
unfoldable pub judge : (names_pytest : Text → Bool) → SandboxPlan → ℤ → Text → SandboxResult
judge names_pytest plan code output =
    if is_int code (negsuc 0)
    then finished failed timed_out output none (some plan)
    else if is_int code (pos 5) && names_pytest plan.test
    then finished skipped none_collected output (some code) (some plan)
    else if not (is_int code (pos 0))
    then finished failed (tests_failed code) output (some code) (some plan)
    else finished passed no_reason output (some (pos 0)) (some plan)

module _ (docker : Docker) where
  -- The history after a command.
  abbrev pub then_done : Command → History → History
  then_done command h = (command, (docker h command).0) ∷ h

  -- Whether `_docker` answers 0.
  abbrev pub succeeds : Command → History → Bool
  succeeds command h = is_int (docker h command).0 (pos 0)

  abbrev pub says : Command → History → Text
  says command h = (docker h command).1

  -- `finally`: the container is removed.
  abbrev pub and_remove : SandboxResult × History → SandboxResult × History
  and_remove (result, h) = (result, then_done remove h)

module _ (docker : Docker) (names_pytest : Text → Bool) where
  -- The end of `_execute`: the network is unplugged, and the tests run.
  unfoldable pub run_tests : SandboxPlan → (install_out : Text) → History → SandboxResult × History
  unfolding judge
  run_tests plan install_out h =
      let unplugged = then_done docker disconnect h in
      let output = tail (strip (install_out ++ 10 ∷ says docker (exec plan.test) unplugged)) in
      if succeeds docker disconnect h
      then (
        judge names_pytest plan (docker unplugged (exec plan.test)).0 output,
        then_done docker (exec plan.test) unplugged,
      )
      else (
        finished failed not_unplugged (tail (says docker disconnect h)) none (some plan),
        unplugged,
      )

  unfoldable pub run_install : SandboxPlan → Option Text → History → SandboxResult × History
  unfolding run_tests
  run_install plan none h = run_tests plan [] h
  run_install plan (some install) h =
      if succeeds docker (exec install) h
      then run_tests plan (says docker (exec install) h) (then_done docker (exec install) h)
      else (
        finished failed install_failed (tail (says docker (exec install) h)) none (some plan),
        then_done docker (exec install) h,
      )

  -- `_execute`
  unfoldable pub execute : SandboxPlan → History → SandboxResult × History
  unfolding run_install
  execute plan h =
      let started = then_done docker (start plan.image) h in
      if succeeds docker (start plan.image) h
      then (if succeeds docker copy_in started
          then run_install plan plan.install (then_done docker copy_in started)
          else (
            finished failed no_copy (tail (says docker copy_in started)) none (some plan),
            then_done docker copy_in started,
          ))
      else (
        finished failed no_container (tail (says docker (start plan.image) h)) none (some plan),
        started,
      )

  -- `run_sandbox`, once there is a plan.
  unfoldable pub run_plan :
      (sandbox_required : Bool) → SandboxPlan → History → SandboxResult × History
  unfolding execute
  run_plan sandbox_required plan h =
      if succeeds docker version h
      then and_remove docker (execute plan (then_done docker version h))
      else if sandbox_required
      then (finished failed docker_required [] none (some plan), then_done docker version h)
      else (finished skipped docker_missing [] none (some plan), then_done docker version h)

  -- `run_sandbox`
  unfoldable pub run_sandbox : Settings → Workspace → History → SandboxResult × History
  unfolding run_plan
  run_sandbox s w h =
      if s.sandbox_enabled
      then elim (detect_plan w) [
        | none ↦ (finished skipped no_tests_found [] none none, h)
        | some plan ↦ run_plan s.sandbox_required plan h
      ]
      else (finished skipped disabled [] none none, h)
