-- ===== src/Loop.antt =====
-- `run_tool_loop` of apps/engine/src/engine/agents/loop.py: model turns and tool calls until a
-- turn asks for no tool. The model and the tools are parameters that act on a state of their own.
pub mod Parsing
use automated_software_engin.Prelude.{
  ℕ, zero, suc, ◌+◌, ◌≤◌, ◌≡◌, refl, sym, ap, subst, inl, inr, false, List, [], ◌∷◌, arith, length,
  is_empty, if◌then◌else◌, Text, Bool-cases,
}
use automated_software_engin.Errors.{agent_loop_error, Reply, ok, raise}
use automated_software_engin.Runner.World.{LlmUsage}

-- MAX_TURNS
abbrev pub max_turns : ℕ
max_turns = 24

-- One model turn: the tools that it asks for, what it says and what it costs.
pub record AssistantTurn (C : Type 0) : Type 0 where
  pub tool_calls : List C
  pub content : Text
  pub cost : LlmUsage

-- `usage.add(turn)`
abbrev pub add_usage : LlmUsage → LlmUsage → LlmUsage
add_usage u c = record {
  input_tokens = u.input_tokens + c.input_tokens;
  output_tokens = u.output_tokens + c.output_tokens;
  cost_usd = u.cost_usd + c.cost_usd;
}

module _ {S C : Type 0} (model : S → Reply (AssistantTurn C) × S)
    (use_tool : C → S → Reply (Unit {0}) × S) where
  -- The tool calls of one turn, in order.
  unfoldable pub use_tools : List C → S → Reply (Unit {0}) × S
  use_tools [] s = (ok tt, s)
  use_tools (c ∷ cs) s =
      let (answer, s') = use_tool c s in
      elim answer [ raise e ↦ (raise e, s') | ok _ ↦ use_tools cs s' ]

  -- The `for`, with `left` turns left.
  unfoldable pub tool_loop : (left : ℕ) → S → LlmUsage → Reply Text × LlmUsage × S
  unfolding use_tools
  tool_loop zero s u = (raise agent_loop_error, u, s)
  tool_loop (suc left) s u =
      let (reply, s') = model s in
      elim reply [
        | raise e ↦ (raise e, u, s')
        | ok turn ↦
            if is_empty turn.tool_calls
            then (ok turn.content, add_usage u turn.cost, s')
            else let (answer, s'') = use_tools turn.tool_calls s' in
              elim answer [
                | raise e ↦ (raise e, add_usage u turn.cost, s'')
                | ok _ ↦ tool_loop left s'' (add_usage u turn.cost)
              ]
      ]

  -- `run_tool_loop`
  unfoldable pub run_tool_loop : S → LlmUsage → Reply Text × LlmUsage × S
  unfolding tool_loop
  run_tool_loop s u = tool_loop max_turns s u

abbrev pub add_all : {C : Type 0} → LlmUsage → List (AssistantTurn C) → LlmUsage
add_all u [] = u
add_all u (t ∷ ts) = add_all (add_usage u t.cost) ts

-- The turns of a loop: each but the last asked for a tool, and the last one ends with its text
-- only where it asks for none.
abbrev pub Says : {C : Type 0} → List (AssistantTurn C) → Text → Type 0
Says [] text = ⊥
Says (t ∷ []) text = (t.tool_calls ≡ []) × (t.content ≡ text)
Says (t ∷ u ∷ us) text = (is_empty t.tool_calls ≡ false) × Says (u ∷ us) text

module _ {S C : Type 0} (model : S → Reply (AssistantTurn C) × S)
    (use_tool : C → S → Reply (Unit {0}) × S) where
  -- Turns that the model makes one after the other, the first in a given state and each next one
  -- in the state that the tools of the one before leave.
  pub data Turns : S → List (AssistantTurn C) → Type 0 where
    no_turn : {s : S} → Turns s []
    next_turn :
        {s : S} (t : AssistantTurn C) (s' : S) (ts : List (AssistantTurn C))
        → model s ≡ (ok t, s')
        → Turns (use_tools model use_tool t.tool_calls s').1 ts
        → Turns s (t ∷ ts)

  -- How a loop of at most `turns` turns went.
  pub record Took (turns : ℕ) (s : S) (before : LlmUsage) (after : Reply Text × LlmUsage × S)
      : Type 0 where
    pub made : List (AssistantTurn C)
    pub by_model : Turns s made
    pub few : length made ≤ turns
    pub paid : after.1 ≡ add_all before made
    pub said : (text : Text) → after.0 ≡ ok text → Says made text

  Took-later :
      (n : ℕ) (s : S) (u : LlmUsage) (t : AssistantTurn C) (s' : S)
      (after : Reply Text × LlmUsage × S)
      → model s ≡ (ok t, s')
      → is_empty t.tool_calls ≡ false
      → Took n (use_tools model use_tool t.tool_calls s').1 (add_usage u t.cost) after
      → Took (suc n) s u after
  Took-later n s u t s' after turn busy r = record {
    made = t ∷ r.made;
    by_model = next_turn t s' r.made turn r.by_model;
    few = omega (arith, r.few);
    paid = r.paid;
    said = λ text e. longer text r.made (r.said text e);
  }
    where
      longer : (text : Text) (ts : List (AssistantTurn C)) → Says ts text → Says (t ∷ ts) text
      longer text [] h = absurd h
      longer text (v ∷ vs) h = (busy, h)

  Took-last :
      (n : ℕ) (s : S) (u : LlmUsage) (t : AssistantTurn C) (s' : S) (r : Reply Text) (s'' : S)
      → model s ≡ (ok t, s')
      → ((text : Text) → r ≡ ok text → (t.tool_calls ≡ []) × (t.content ≡ text))
      → Took (suc n) s u (r, add_usage u t.cost, s'')
  Took-last n s u t s' r s'' turn h = record {
    made = t ∷ [];
    by_model = next_turn t s' [] turn no_turn;
    few = omega arith;
    paid = refl;
    said = h;
  }

  -- The turns of a loop are those of the model, from its first state on, and at most as many as
  -- the loop may take; its usage is what it had before and the cost of each of them; and where it
  -- returns a text, that is what the last turn says, the only one that asked for no tool.
  pub tool_loop-Took :
      (left : ℕ) (s : S) (u : LlmUsage) → Took left s u (tool_loop model use_tool left s u)
  unfolding tool_loop
  tool_loop-Took zero s u = record {
    made = [];
    by_model = no_turn;
    few = omega arith;
    paid = refl;
    said = λ text e. cc;
  }
  tool_loop-Took (suc n) s u = go (tool_loop-Took n) (model s) refl
    where
      tools :
          ((s'' : S) (v : LlmUsage) → Took n s'' v (tool_loop model use_tool n s'' v))
          → (turn : AssistantTurn C) (s' : S) (r : Reply (Unit {0}) × S) → model s ≡ (ok turn, s')
          → is_empty turn.tool_calls ≡ false
          → use_tools model use_tool turn.tool_calls s' ≡ r
          → Took (suc n) s u (tool_loop model use_tool (suc n) s u)
      tools later turn s' (raise e, s'') h busy k =
          subst (Took (suc n) s u) (ground (arith, h, busy, k))
            (Took-last n s u turn s' (raise e) s'' h (λ text d. cc))
      tools later turn s' (ok _, s'') h busy k =
          subst (Took (suc n) s u) (ground (arith, h, busy, k)) (
            Took-later n s u turn s' (tool_loop model use_tool n s'' (add_usage u turn.cost)) h busy
              (subst
                (λ v.
                  Took n v (add_usage u turn.cost)
                    (tool_loop model use_tool n s'' (add_usage u turn.cost)))
                (ap (λ (r : Reply (Unit {0}) × S). r.1) (sym k))
                (later s'' (add_usage u turn.cost))))

      go :
          ((s'' : S) (v : LlmUsage) → Took n s'' v (tool_loop model use_tool n s'' v))
          → (r : Reply (AssistantTurn C) × S) → model s ≡ r
          → Took (suc n) s u (tool_loop model use_tool (suc n) s u)
      go later (raise e, s') h =
          rw (h, tool_loop)
            (record {
              made = [];
              by_model = no_turn;
              few = omega arith;
              paid = refl;
              said = λ text d. cc;
            })
      go later (ok turn, s') h = elim (Bool-cases (is_empty turn.tool_calls)) [
        | inl idle ↦ subst (Took (suc n) s u) (ground (arith, h, idle)) (
            Took-last n s u turn s' (ok turn.content) s' h (λ text e. (ground arith, ground arith)))
        | inr busy ↦ tools later turn s' (use_tools model use_tool turn.tool_calls s') h busy refl
      ]
