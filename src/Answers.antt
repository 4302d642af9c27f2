-- ===== src/Answers.antt =====
-- The JSON values of an agent's final answer, as the contract checks of
-- apps/engine/src/engine/agents/product_manager.py and reviewer.py read them.
use Prim.Native.String.{String}
use automated_software_engin.Prelude.{
  ℕ, Bool, true, false, Option, none, some, List, [], ◌∷◌, ◌==◌, if◌then◌else◌, Text, codes,
  text_eq, not, is_empty, ◌≡◌, arith,
}
use automated_software_engin.Enums.{AgentRole, backend, frontend, devops}
use automated_software_engin.Registry.{is_engineer}

mutual
  pub data Json : Type 0 where
    null : Json
    bool : Bool → Json
    int : ℕ → Json
    -- a negative or a fractional number; the float 0.0, which is false, is left out
    other_number : Json
    str : Text → Json
    list : Items → Json
    object : Fields → Json

  pub data Items : Type 0 where
    no_items : Items
    item : Json → Items → Items

  pub data Fields : Type 0 where
    no_fields : Fields
    field : Text → Json → Fields → Fields

-- `payload.get(name)`; a missing key reads as None.
unfoldable pub get : Text → Fields → Json
get name no_fields = null
get name (field key value rest) =
    let later = get name rest in if text_eq name key then value else later

-- `payload.get("…")`
abbrev pub get_field : String → Fields → Json
get_field name fields = get (codes name) fields

abbrev pub items_of : Items → List Json
items_of no_items = []
items_of (item j js) = j ∷ items_of js

-- Python's truth of a value.
abbrev pub is_true : Json → Bool
is_true null = false
is_true (bool b) = b
is_true (int n) = not (n == 0)
is_true other_number = true
is_true (str s) = not (is_empty s)
is_true (list js) = not (is_empty (items_of js))
is_true (object no_fields) = false
is_true (object (field _ _ _)) = true

-- A value as a whole number that is not negative: `isinstance(value, int)` holds of a bool.
abbrev pub number_of : Json → Option ℕ
number_of (int n) = some n
number_of (bool b) = some (if b then 1 else 0)
number_of _ = none

-- `isinstance(value, list)`
abbrev pub list_of : Json → Option (List Json)
list_of (list js) = some (items_of js)
list_of _ = none

-- `isinstance(value, list)` of `value or []`
abbrev pub list_or_empty : Json → Option (List Json)
list_or_empty j = if is_true j then list_of j else some []

-- ENGINEER_ROLES, by name.
unfoldable pub engineer_named : Text → Option AgentRole
engineer_named name =
    if text_eq name (codes "backend")
    then some backend
    else if text_eq name (codes "frontend")
    then some frontend
    else if text_eq name (codes "devops")
    then some devops
    else none

-- `role in ENGINEER_ROLES`: a list or an object cannot be hashed.
pub data RoleTest : Type 0 where
  engineer : AgentRole → RoleTest
  no_engineer unhashable : RoleTest

unfoldable pub role_test : Json → RoleTest
unfolding engineer_named
role_test (str name) = elim (engineer_named name) [ none ↦ no_engineer | some r ↦ engineer r ]
role_test (list _) = unhashable
role_test (object _) = unhashable
role_test _ = no_engineer

-- What a contract check answers: the clean value, the refusal of the contract's own error type,
-- or Python's TypeError.
pub data Checked {ℓ} (R A : Type ℓ) : Type ℓ where
  valid : A → Checked R A
  refused : R → Checked R A
  type_error : Checked R A

pub role_test-engineer :
    (j : Json) (r : AgentRole) → role_test j ≡ engineer r → is_engineer r ≡ true
unfolding role_test engineer_named
role_test-engineer j r e = ground arith
