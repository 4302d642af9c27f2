-- ===== src/ProductManager.antt =====
-- `validate_plan` of apps/engine/src/engine/agents/product_manager.py. The summary is taken as
-- `_coerce_summary` returns it, and Python's `str` of a JSON value is a parameter.
pub mod Session
use automated_software_engin.Prelude.{
  ℕ, ◌+◌, ◌≤◌, ◌<◌, ◌≡◌, refl, inl, inr, Bool, true, false, ◌&&◌, Option, none, some, List, [], ◌∷◌,
  ltb, leb, if◌then◌else◌, Text, strip, take, length, is_empty, All, Bool-cases, Option-cases,
  subst, sym, length-take, arith,
}
use automated_software_engin.Enums.{AgentRole}
use automated_software_engin.Answers.{
  Json, null, bool, int, other_number, str, list, object, Fields, get_field, number_of, list_of,
  list_or_empty, RoleTest, engineer, no_engineer, unhashable, role_test, Checked, valid, refused,
  type_error, is_true, role_test-engineer,
}
use automated_software_engin.Registry.{is_engineer}
use automated_software_engin.Runner.World.{PlanTask, Plan}

abbrev pub max_plan_tasks : ℕ
max_plan_tasks = 8

-- The messages of PlanError, as the values that they print.
pub data PlanError : Type 0 where
  no_summary no_task_list : PlanError
  not_an_object needs_title bad_role bad_dependencies : (sequence : ℕ) → PlanError

-- `isinstance(dep, int) and 1 <= dep < sequence`
abbrev pub is_earlier : ℕ → Json → Bool
is_earlier sequence j = elim (number_of j) [ none ↦ false | some n ↦ leb 1 n && ltb n sequence ]

-- The dependencies, where each is the number of an earlier task.
pub earlier_numbers : ℕ → List Json → Option (List ℕ)
earlier_numbers sequence [] = some []
earlier_numbers sequence (j ∷ js) = elim (number_of j) [
  | none ↦ none
  | some n ↦
      if leb 1 n && ltb n sequence
      then elim (earlier_numbers sequence js) [ none ↦ none | some ns ↦ some (n ∷ ns) ]
      else none
]

-- `isinstance(title, str)`, and the stripped title.
abbrev pub title_of : Json → Text
title_of (str s) = strip s
title_of _ = []

module _ (str_of : Json → Text) where
  -- `str(task.get("description") or "").strip()`
  abbrev description_of : Json → Text
  description_of j = if is_true j then strip (str_of j) else []

  -- What is left to check once the role is known.
  check_dependencies : ℕ → Text → AgentRole → Fields → Checked PlanError PlanTask
  unfolding earlier_numbers
  check_dependencies sequence title role task = elim (list_or_empty (get_field "depends_on" task)) [
    | none ↦ refused (bad_dependencies sequence)
    | some deps ↦ elim (earlier_numbers sequence deps) [
      | none ↦ refused (bad_dependencies sequence)
      | some ns ↦ valid (record {
        title = take 256 title;
        role = role;
        description = description_of (get_field "description" task);
        depends_on = ns;
      })
    ]
  ]

  check_role : ℕ → Text → RoleTest → Fields → Checked PlanError PlanTask
  unfolding check_dependencies
  check_role sequence title (engineer role) task = check_dependencies sequence title role task
  check_role sequence title no_engineer task = refused (bad_role sequence)
  check_role sequence title unhashable task = type_error

  -- One round of the loop.
  pub check_task : ℕ → Json → Checked PlanError PlanTask
  unfolding check_role
  check_task sequence (object task) =
      let title = title_of (get_field "title" task) in
      if is_empty title
      then refused (needs_title sequence)
      else check_role sequence title (role_test (get_field "role" task)) task
  check_task sequence _ = refused (not_an_object sequence)

  pub check_tasks : ℕ → List Json → Checked PlanError (List PlanTask)
  unfolding check_task
  check_tasks sequence [] = valid []
  check_tasks sequence (j ∷ js) = elim (check_task sequence j) [
    | refused e ↦ refused e
    | type_error ↦ type_error
    | valid t ↦ elim (check_tasks (sequence + 1) js) [
      | refused e ↦ refused e
      | type_error ↦ type_error
      | valid ts ↦ valid (t ∷ ts)
    ]
  ]

  check_list : Text → List Json → Checked PlanError Plan
  unfolding check_tasks
  check_list summary tasks =
      if leb 1 (length tasks) && leb (length tasks) max_plan_tasks
      then elim (check_tasks 1 tasks) [
        | refused e ↦ refused e
        | type_error ↦ type_error
        | valid ts ↦ valid (record { summary = summary; tasks = ts })
      ]
      else refused no_task_list

  -- `validate_plan`
  unfoldable pub validate_plan : (summary : Text) → Fields → Checked PlanError Plan
  unfolding check_list
  validate_plan summary plan =
      if is_empty summary then refused no_summary else elim (list_of (get_field "tasks" plan)) [
        | none ↦ refused no_task_list
        | some tasks ↦ check_list summary tasks
      ]

-- A task that the board can take: `sequence` is its place in the plan, from 1.
pub record IsPlanTask (sequence : ℕ) (t : PlanTask) : Type 0 where
  pub engineer_role : is_engineer t.role ≡ true
  pub titled : 1 ≤ length t.title
  pub short : length t.title ≤ 256
  pub backwards : All (λ dep. (1 ≤ dep) × (dep < sequence)) t.depends_on

abbrev pub ArePlanTasks : ℕ → List PlanTask → Type 0
ArePlanTasks sequence [] = Unit
ArePlanTasks sequence (t ∷ ts) = IsPlanTask sequence t × ArePlanTasks (sequence + 1) ts

pub record IsPlan (plan : Plan) : Type 0 where
  pub some_task : 1 ≤ length plan.tasks
  pub few_tasks : length plan.tasks ≤ max_plan_tasks
  pub summarized : 1 ≤ length plan.summary
  pub tasks : ArePlanTasks 1 plan.tasks

pub earlier_numbers-All :
    (sequence : ℕ) (js : List Json) (ns : List ℕ)
    → earlier_numbers sequence js ≡ some ns
    → All (λ dep. (1 ≤ dep) × (dep < sequence)) ns
unfolding earlier_numbers
earlier_numbers-All sequence [] [] e = tt
earlier_numbers-All sequence [] (n ∷ ns) e = cc
earlier_numbers-All sequence (j ∷ js) [] e = tt
earlier_numbers-All sequence (j ∷ js) (n ∷ ns) e =
    (ground arith, earlier_numbers-All sequence js ns (ground arith))

module _ (str_of : Json → Text) where
  check_dependencies-IsPlanTask :
      (sequence : ℕ) (title : Text) (role : AgentRole) (task : Fields) (t : PlanTask)
      → is_engineer role ≡ true
      → 1 ≤ length title
      → check_dependencies str_of sequence title role task ≡ valid t
      → IsPlanTask sequence t
  unfolding check_dependencies
  check_dependencies-IsPlanTask sequence title role task t r n e =
      elim (Option-cases (list_or_empty (get_field "depends_on" task))) [
        | inl h ↦ absurd (ground arith)
        | inr (deps, h) ↦ elim (Option-cases (earlier_numbers sequence deps)) [
          | inl k ↦ absurd (ground arith)
          | inr (ns, k) ↦ subst (IsPlanTask sequence) (built deps ns h k) (record {
            engineer_role = r;
            titled = omega (arith, length-take 256 title);
            short = omega (arith, length-take 256 title);
            backwards = earlier_numbers-All sequence deps ns k;
          })
        ]
      ]
    where
      built :
          (deps : List Json) (ns : List ℕ)
          → list_or_empty (get_field "depends_on" task) ≡ some deps
          → earlier_numbers sequence deps ≡ some ns
          → record {
            title = take 256 title;
            role = role;
            description = description_of str_of (get_field "description" task);
            depends_on = ns;
          }
            ≡ t
      built deps ns h k = ground arith

  check_role-IsPlanTask :
      (sequence : ℕ) (title : Text) (j : Json) (task : Fields) (t : PlanTask)
      → 1 ≤ length title
      → check_role str_of sequence title (role_test j) task ≡ valid t
      → IsPlanTask sequence t
  unfolding check_role
  check_role-IsPlanTask sequence title j task t n e = go (role_test j) refl
    where
      go : (r : RoleTest) → role_test j ≡ r → IsPlanTask sequence t
      go (engineer role) h =
          check_dependencies-IsPlanTask sequence title role task t (role_test-engineer j role h) n
            (ground arith)
      go no_engineer h = absurd (ground arith)
      go unhashable h = absurd (ground arith)

  check_task-IsPlanTask :
      (sequence : ℕ) (j : Json) (t : PlanTask)
      → check_task str_of sequence j ≡ valid t
      → IsPlanTask sequence t
  unfolding check_task
  check_task-IsPlanTask sequence (object task) t e =
      let title = title_of (get_field "title" task) in
      elim (Bool-cases (is_empty title)) [
        | inl h ↦ absurd (ground arith)
        | inr h ↦
            check_role-IsPlanTask sequence title (get_field "role" task) task t (ground arith)
              (ground arith)
      ]
  check_task-IsPlanTask sequence null t e = cc
  check_task-IsPlanTask sequence (bool _) t e = cc
  check_task-IsPlanTask sequence (int _) t e = cc
  check_task-IsPlanTask sequence other_number t e = cc
  check_task-IsPlanTask sequence (str _) t e = cc
  check_task-IsPlanTask sequence (list _) t e = cc

  check_tasks-ArePlanTasks :
      (sequence : ℕ) (js : List Json) (ts : List PlanTask)
      → check_tasks str_of sequence js ≡ valid ts
      → ArePlanTasks sequence ts × (length ts ≡ length js)
  unfolding check_tasks
  check_tasks-ArePlanTasks sequence [] [] e = (tt, refl)
  check_tasks-ArePlanTasks sequence [] (t ∷ ts) e = cc
  check_tasks-ArePlanTasks sequence (j ∷ js) [] e = absurd (ground arith)
  check_tasks-ArePlanTasks sequence (j ∷ js) (t ∷ ts) e =
      let (rest, same) = check_tasks-ArePlanTasks (sequence + 1) js ts (ground arith) in
      ((check_task-IsPlanTask sequence j t (ground arith), rest), omega (arith, same))

  check_list-IsPlan :
      (summary : Text) (js : List Json) (plan : Plan)
      → 1 ≤ length summary
      → check_list str_of summary js ≡ valid plan
      → IsPlan plan
  unfolding check_list
  check_list-IsPlan summary js plan n e =
      let (least, most, tasks, same) = parts in
      let (all, long) = check_tasks-ArePlanTasks 1 js plan.tasks tasks in
      record {
        some_task = omega (arith, long, least);
        few_tasks = omega (arith, long, most);
        summarized = subst (λ s. 1 ≤ length s) (sym same) n;
        tasks = all;
      }
    where
      parts :
          (1 ≤ length js)
          × (length js ≤ max_plan_tasks)
          × (check_tasks str_of 1 js ≡ valid plan.tasks)
          × (plan.summary ≡ summary)
      parts = ground arith

  -- A plan that the check accepts has a summary and between one and eight tasks, each for an
  -- engineer, with a title of at most 256 characters, and with dependencies on earlier tasks only.
  pub validate_plan-IsPlan :
      (summary : Text) (payload : Fields) (plan : Plan)
      → validate_plan str_of summary payload ≡ valid plan
      → IsPlan plan
  unfolding validate_plan
  validate_plan-IsPlan summary payload plan e =
      elim (Option-cases (list_of (get_field "tasks" payload))) [
        | inl h ↦ absurd (ground arith)
        | inr (js, h) ↦ check_list-IsPlan summary js plan (ground arith) (ground arith)
      ]
