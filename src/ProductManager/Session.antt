-- ===== src/ProductManager/Session.antt =====
-- `create_plan`, `parse_plan` and `_coerce_summary` of
-- apps/engine/src/engine/agents/product_manager.py. The tool loop is a parameter: it is given the
-- error of the first reply, if there was one, and answers a text or raises. So is
-- `str.capitalize`.
use automated_software_engin.Prelude.{
  ◌≡◌, refl, subst, Bool, true, false, Option, none, some, List, [], ◌∷◌, ◌++◌, map, is_empty, ◌==◌,
  if◌then◌else◌, Text, codes, strip,
}
use automated_software_engin.Errors.{Reply, ok, raise}
use automated_software_engin.Answers.{
  Json, str, list, object, Fields, no_fields, field, items_of, get_field, Checked, valid, refused,
  type_error,
}
use automated_software_engin.Loop.Parsing.{ReplyError, parse_json_object}
use automated_software_engin.Runner.World.{Plan}
use automated_software_engin.ProductManager.{PlanError, validate_plan, IsPlan, validate_plan-IsPlan}

-- `separator.join(parts)`
abbrev pub join : (separator : Text) → List Text → Text
join separator [] = []
join separator (t ∷ ts) =
    let rest = join separator ts in if is_empty ts then t else t ++ separator ++ rest

-- Why a reply is no plan: it cannot be read, or it breaks the contract.
pub data Rejection : Type 0 where
  unreadable : ReplyError → Rejection
  bad_plan : PlanError → Rejection

module _ (str_of : Json → Text) (capitalize : Text → Text) where
  -- One value of a structured summary.
  abbrev pub summary_value : Json → Text
  summary_value (list js) = join (codes "; ") (map str_of (items_of js))
  summary_value j = str_of j

  abbrev pub summary_lines : Fields → List Text
  summary_lines no_fields = []
  summary_lines (field key value rest) =
      (capitalize (map (λ c. if c == 95 then 32 else c) key) ++ codes ": " ++ summary_value value)
      ∷ summary_lines rest

  -- `_coerce_summary`
  abbrev pub coerce_summary : Json → Text
  coerce_summary (str s) = strip s
  coerce_summary (object fields) = strip (join (codes "\n") (summary_lines fields))
  coerce_summary _ = []

  abbrev pub as_rejected : Checked PlanError Plan → Checked Rejection Plan
  as_rejected (valid plan) = valid plan
  as_rejected (refused e) = refused (bad_plan e)
  as_rejected type_error = type_error

  abbrev pub check_plan : Fields → Checked Rejection Plan
  check_plan fields =
      as_rejected (validate_plan str_of (coerce_summary (get_field "summary" fields)) fields)

  module _ (loads : Text → Option Json) where
    -- `validate_plan(parse_plan(reply))`
    pub read_plan : Text → Checked Rejection Plan
    read_plan reply = elim (parse_json_object loads reply) [
      | refused message ↦ refused (unreadable message)
      | type_error ↦ type_error
      | valid fields ↦ check_plan fields
    ]

    module _ {S : Type 0} (run_tool_loop : Option Rejection → S → Reply Text × S) where
      -- The corrective round.
      pub ask_plan_again : Rejection → S → Reply (Checked Rejection Plan) × S
      unfolding read_plan
      ask_plan_again e s =
          let (reply, s') = run_tool_loop (some e) s in
          elim reply [ raise x ↦ (raise x, s') | ok text ↦ (ok (read_plan text), s') ]

      -- `create_plan`; `offline` is the fixed plan of the offline mode.
      unfoldable pub create_plan :
          (llm_fake : Bool) → (offline : Fields) → S → Reply (Checked Rejection Plan) × S
      unfolding ask_plan_again
      create_plan llm_fake offline s =
          let (reply, s') = run_tool_loop none s in
          if llm_fake then (ok (check_plan offline), s) else elim reply [
            | raise x ↦ (raise x, s')
            | ok text ↦ elim (read_plan text) [
              | refused e ↦ ask_plan_again e s'
              | type_error ↦ (ok type_error, s')
              | valid plan ↦ (ok (valid plan), s')
            ]
          ]

-- A plan that was accepted.
abbrev IsChecked : Checked Rejection Plan → Type 0
IsChecked (valid plan) = IsPlan plan
IsChecked (refused e) = Unit
IsChecked type_error = Unit

abbrev AnswersChecked : Reply (Checked Rejection Plan) → Type 0
AnswersChecked (raise x) = Unit
AnswersChecked (ok c) = IsChecked c

module _ (str_of : Json → Text) (capitalize : Text → Text) (loads : Text → Option Json) where
  check_plan-IsChecked : (fields : Fields) → IsChecked (check_plan str_of capitalize fields)
  check_plan-IsChecked fields =
      go
        (validate_plan str_of (coerce_summary str_of capitalize (get_field "summary" fields))
          fields)
        refl
    where
      go :
          (c : Checked PlanError Plan)
          → validate_plan str_of
              (coerce_summary str_of capitalize (get_field "summary" fields))
              fields
            ≡ c
          → IsChecked (as_rejected str_of capitalize c)
      go (refused e) h = tt
      go type_error h = tt
      go (valid plan) h =
          validate_plan-IsPlan str_of
            (coerce_summary str_of capitalize (get_field "summary" fields)) fields plan h

  read_plan-IsChecked : (reply : Text) → IsChecked (read_plan str_of capitalize loads reply)
  unfolding read_plan
  read_plan-IsChecked reply = go (parse_json_object loads reply) refl
    where
      go :
          (c : Checked ReplyError Fields)
          → parse_json_object loads reply ≡ c
          → IsChecked (read_plan str_of capitalize loads reply)
      go (refused e) h = rw (h, IsChecked) tt
      go type_error h = rw (h, IsChecked) tt
      go (valid fields) h = rw (h, IsChecked) (check_plan-IsChecked fields)

  module _ {S : Type 0} (run_tool_loop : Option Rejection → S → Reply Text × S) where
    ask_plan_again-AnswersChecked :
        (e : Rejection) (s : S)
        → AnswersChecked (ask_plan_again str_of capitalize loads run_tool_loop e s).0
    unfolding ask_plan_again
    ask_plan_again-AnswersChecked e s = go (run_tool_loop (some e) s).0 refl
      where
        go :
            (r : Reply Text)
            → (run_tool_loop (some e) s).0 ≡ r
            → AnswersChecked (ask_plan_again str_of capitalize loads run_tool_loop e s).0
        go (raise x) h = rw (h, AnswersChecked) tt
        go (ok text) h = rw (h, AnswersChecked) (read_plan-IsChecked text)

    create_plan-AnswersChecked :
        (llm_fake : Bool) (offline : Fields) (s : S)
        → AnswersChecked (create_plan str_of capitalize loads run_tool_loop llm_fake offline s).0
    unfolding create_plan
    create_plan-AnswersChecked true offline s = check_plan-IsChecked offline
    create_plan-AnswersChecked false offline s = go (run_tool_loop none s).0 refl
      where
        read :
            (text : Text) (c : Checked Rejection Plan)
            → read_plan str_of capitalize loads text ≡ c
            → (run_tool_loop none s).0 ≡ ok text
            → AnswersChecked (create_plan str_of capitalize loads run_tool_loop false offline s).0
        read text (refused e) k h =
            rw h (rw k (ask_plan_again-AnswersChecked e (run_tool_loop none s).1))
        read text type_error k h = rw h (rw k tt)
        read text (valid plan) k h = rw h (rw k (rw k at (read_plan-IsChecked text)))

        go :
            (r : Reply Text)
            → (run_tool_loop none s).0 ≡ r
            → AnswersChecked (create_plan str_of capitalize loads run_tool_loop false offline s).0
        go (raise x) h = rw h tt
        go (ok text) h = read text (read_plan str_of capitalize loads text) refl h

    -- Whatever the model replies in its two rounds, and whatever tools it calls: a plan that
    -- `create_plan` answers has a summary and between one and eight tasks, each for an engineer,
    -- with a title of 1 to 256 characters and with dependencies on earlier tasks only.
    pub create_plan-IsPlan :
        (llm_fake : Bool) (offline : Fields) (s : S) (plan : Plan)
        → (create_plan str_of capitalize loads run_tool_loop llm_fake offline s).0 ≡ ok (valid plan)
        → IsPlan plan
    create_plan-IsPlan llm_fake offline s plan e =
        subst AnswersChecked e (create_plan-AnswersChecked llm_fake offline s)
