-- ===== src/Loop/Parsing.antt =====
-- `parse_json_object` of apps/engine/src/engine/agents/loop.py: an agent's final answer, with a
-- Markdown fence around it or without. `json.loads` is a parameter.
use Prim.Native.Nat.{ℕ}
use automated_software_engin.Prelude.{
  ◌≡◌, refl, sym, ap, ◌∙◌, Bool, false, ◌&&◌, Option, none, some, [], ◌∷◌, ◌++◌, elem, ◌==◌,
  if◌then◌else◌, Text, strip, lstrip, is_space, arith,
}
use mathlib.Core.List.{reverse, reverse-append, reverse-reverse, append_assoc}
use automated_software_engin.Answers.{Json, Fields, object, Checked, valid, refused}

-- The messages of the ValueError, as the values that they print.
pub data ReplyError : Type 0 where
  not_json not_an_object : ReplyError

-- `"\n"` and the backtick.
abbrev pub newline : ℕ
newline = 10

abbrev pub backtick : ℕ
backtick = 96

abbrev pub fence : Text
fence = backtick ∷ backtick ∷ backtick ∷ []

-- `text.startswith("```")`
abbrev pub starts_with_fence : Text → Bool
starts_with_fence (a ∷ b ∷ c ∷ s) = a == backtick && b == backtick && c == backtick
starts_with_fence _ = false

-- `text.split("\n", 1)[1] if "\n" in text else ""`
abbrev pub after_newline : Text → Text
after_newline [] = []
after_newline (c ∷ s) = let rest = after_newline s in if c == newline then s else rest

abbrev after_fence : Text → Text
after_fence (a ∷ b ∷ c ∷ s) = s
after_fence _ = []

-- What stands behind the first fence, if there is one.
abbrev pub behind_fence : Text → Option Text
behind_fence [] = none
behind_fence (c ∷ s) =
    let rest = behind_fence s in
    if starts_with_fence (c ∷ s) then some (after_fence (c ∷ s)) else rest

-- `text.rsplit("```", 1)[0]`: a fence reads the same from its end.
unfoldable pub before_last_fence : Text → Text
before_last_fence text = elim (behind_fence (reverse text)) [
  | none ↦ text
  | some rest ↦ reverse rest
]

-- The text without a fence round it.
unfoldable pub unfenced : Text → Text
unfolding before_last_fence
unfenced reply =
    let text = strip reply in
    if starts_with_fence text then before_last_fence (after_newline text) else text

unfoldable pub parse_json_object : (loads : Text → Option Json) → Text → Checked ReplyError Fields
unfolding unfenced
parse_json_object loads reply = elim (loads (unfenced reply)) [
  | none ↦ refused not_json
  | some j ↦ elim j [ object fields ↦ valid fields | _ ↦ refused not_an_object ]
]

after_newline-append :
    (label body : Text)
    → elem newline label ≡ false
    → after_newline (label ++ newline ∷ body) ≡ body
after_newline-append [] body h = refl
after_newline-append (c ∷ s) body h = ground (arith, after_newline-append s body)

before_last_fence-append : (body : Text) → before_last_fence (body ++ fence) ≡ body
unfolding before_last_fence
before_last_fence-append body =
    rw (reverse-append body fence, before_last_fence) (reverse-reverse body)

-- The text of a fenced answer.
abbrev pub fenced : (label body : Text) → Text
fenced label body = fence ++ ((label ++ newline ∷ body) ++ fence)

strip_fenced : (s : Text) → strip (fence ++ (s ++ fence)) ≡ fence ++ (s ++ fence)
unfolding strip lstrip is_space
strip_fenced s =
    let flipped = reverse-append (fence ++ s) fence in
    ap (λ v. reverse (lstrip v)) flipped
    ∙ (sym (ap reverse flipped) ∙ reverse-reverse (fence ++ (s ++ fence)))

unfenced-fenced :
    (label body : Text) → elem newline label ≡ false → unfenced (fenced label body) ≡ body
unfolding unfenced
unfenced-fenced label body h =
    rw (strip_fenced (label ++ newline ∷ body), unfenced)
      (rw (append_assoc label (newline ∷ body) fence)
        (rw (after_newline-append label (body ++ fence) h) (before_last_fence-append body)))

-- A fenced answer reads as what stands inside the fence: whatever the label behind the opening
-- fence, a line of its own, and whatever the body, the body is what `json.loads` is given.
pub parse_json_object-fenced :
    (loads : Text → Option Json) (label body : Text) (payload : Fields)
    → elem newline label ≡ false
    → loads body ≡ some (object payload)
    → parse_json_object loads (fenced label body) ≡ valid payload
unfolding parse_json_object
parse_json_object-fenced loads label body payload h e =
    rw (unfenced-fenced label body h, parse_json_object) (rw e)
