-- ===== src/Security/Lines.antt =====
-- Python's `str.splitlines`, and a text whose lines it gives back.
use automated_software_engin.Prelude.{
  ℕ, ◌≡◌, refl, ap, ◌∙◌, Bool, false, ◌&&◌, ◌||◌, List, [], ◌∷◌, ◌++◌, arith, any_of, leb, ◌==◌,
  if◌then◌else◌, Text, has_prefix, All,
}

-- The characters at which a line ends.
abbrev pub is_break : ℕ → Bool
is_break c = leb 10 c && leb c 13 || leb 28 c && leb c 30 || c == 0x85 || c == 0x2028 || c == 0x2029

-- A character in front of the first line.
abbrev pub onto_first : ℕ → List Text → List Text
onto_first c [] = (c ∷ []) ∷ []
onto_first c (l ∷ ls) = (c ∷ l) ∷ ls

-- A carriage return and a line feed after it are one break.
unfoldable pub splitlines : Text → List Text
splitlines [] = []
splitlines (c ∷ s) =
    let rest = splitlines s in
    if c == 13 && has_prefix (10 ∷ []) s
    then rest
    else if is_break c
    then [] ∷ rest
    else onto_first c rest

-- Lines, each with a line feed behind it.
abbrev pub with_line_feeds : List Text → Text
with_line_feeds [] = []
with_line_feeds (l ∷ ls) = l ++ 10 ∷ with_line_feeds ls

-- A line without a break in it.
abbrev pub IsUnbroken : Text → Type 0
IsUnbroken line = any_of is_break line ≡ false

splitlines-line :
    (line rest : Text) → IsUnbroken line → splitlines (line ++ 10 ∷ rest) ≡ line ∷ splitlines rest
unfolding splitlines
splitlines-line [] rest h = refl
splitlines-line (c ∷ s) rest h =
    let inside : is_break c ≡ false = ground (arith, h) in
    let no_return : c == 13 ≡ false = ground (arith, inside) in
    let later = splitlines-line s rest (ground (arith, h)) in
    rw no_return (rw inside (ap (onto_first c) later))

-- The lines of a text come back, where none has a break in it.
pub splitlines-with_line_feeds :
    (ls : List Text) → All IsUnbroken ls → splitlines (with_line_feeds ls) ≡ ls
unfolding splitlines
splitlines-with_line_feeds [] h = refl
splitlines-with_line_feeds (l ∷ ls) h =
    splitlines-line l (with_line_feeds ls) h.0
    ∙ ap (λ rest. l ∷ rest) (splitlines-with_line_feeds ls h.1)
