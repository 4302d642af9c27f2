-- ===== src/Indexing/Chunker/Blank.antt =====
-- Blank text and the lines of a file: what stripping, joining and slicing leave.
use Prim.Native.Nat.{min}
use automated_software_engin.Prelude.{
  ℕ, zero, suc, ◌+◌, ◌-◌, ◌<◌, ◌≡◌, refl, sym, ap, ◌∙◌, true, ◌&&◌, Bool, some, List, [], ◌∷◌, ◌++◌,
  length, take, drop, get_elem?, all_of, Text, strip, lstrip, is_space, arith,
}
use mathlib.Core.List.{reverse, reverse-cons, reverse-reverse}
use automated_software_engin.Indexing.Chunker.{join_lines}

abbrev pub is_blank : Text → Bool
is_blank text = all_of is_space text

all_of-append :
    {A : Type 0} (p : A → Bool) (xs ys : List A) → all_of p (xs ++ ys) ≡ all_of p xs && all_of p ys
all_of-append p [] ys = refl
all_of-append p (x ∷ xs) ys = ground (arith, all_of-append p xs ys)

all_of-reverse : {A : Type 0} (p : A → Bool) (xs : List A) → all_of p (reverse xs) ≡ all_of p xs
all_of-reverse p [] = refl
all_of-reverse p (x ∷ xs) =
    rw (reverse-cons x xs)
      (ground (arith, all_of-append p (reverse xs) (x ∷ []), all_of-reverse p xs))

blank-lstrip : (s : Text) → is_blank (lstrip s) ≡ is_blank s
unfolding lstrip
blank-lstrip [] = refl
blank-lstrip (c ∷ s) = ground (arith, blank-lstrip s)

lstrip-nil : (s : Text) → lstrip s ≡ [] → is_blank s ≡ true
lstrip-nil s h = sym (blank-lstrip s) ∙ ap is_blank h

-- Text that is empty once it is stripped holds spaces alone.
pub strip-nil : (s : Text) → strip s ≡ [] → is_blank s ≡ true
unfolding strip
strip-nil s h =
    let inner : lstrip (reverse (lstrip s)) ≡ [] =
      sym (reverse-reverse (lstrip (reverse (lstrip s)))) ∙ ap reverse h in
    sym (blank-lstrip s)
    ∙ (sym (all_of-reverse is_space (lstrip s)) ∙ lstrip-nil (reverse (lstrip s)) inner)

-- In blank text each line is blank.
pub join_lines-blank :
    (ls : List Text) (i : ℕ) (line : Text)
    → is_blank (join_lines ls) ≡ true
    → get_elem? ls i ≡ some line
    → is_blank line ≡ true
unfolding join_lines
join_lines-blank [] i line h e = cc
join_lines-blank (l ∷ []) zero line h e = ground arith
join_lines-blank (l ∷ []) (suc i) line h e = cc
join_lines-blank (l ∷ m ∷ ms) zero line h e =
    ground (arith, all_of-append is_space l (10 ∷ join_lines (m ∷ ms)))
join_lines-blank (l ∷ m ∷ ms) (suc i) line h e =
    join_lines-blank (m ∷ ms) i line
      (ground (arith, all_of-append is_space l (10 ∷ join_lines (m ∷ ms)))) e

pub take-nil : {A : Type 0} (n : ℕ) → take {A = A} n [] ≡ []
take-nil zero = refl
take-nil (suc n) = refl

pub get_elem?-drop :
    {A : Type 0} (n : ℕ) (xs : List A) (i : ℕ) → get_elem? (drop n xs) i ≡ get_elem? xs (n + i)
get_elem?-drop zero xs i = let moved : i ≡ 0 + i = omega arith in ap (get_elem? xs) moved
get_elem?-drop (suc n) [] i = refl
get_elem?-drop (suc n) (x ∷ xs) i =
    let moved : suc (n + i) ≡ suc n + i = omega arith in
    get_elem?-drop n xs i ∙ ap (get_elem? (x ∷ xs)) moved

pub get_elem?-take :
    {A : Type 0} (n : ℕ) (xs : List A) (i : ℕ) → i < n → get_elem? (take n xs) i ≡ get_elem? xs i
get_elem?-take zero xs i h = absurd (omega arith)
get_elem?-take (suc n) [] i h = refl
get_elem?-take (suc n) (x ∷ xs) zero h = refl
get_elem?-take (suc n) (x ∷ xs) (suc i) h = get_elem?-take n xs i (omega arith)

pub get_elem?-lt :
    {A : Type 0} (xs : List A) (i : ℕ) {x : A} → get_elem? xs i ≡ some x → i < length xs
get_elem?-lt [] i h = cc
get_elem?-lt (x ∷ xs) zero h = omega arith
get_elem?-lt (x ∷ xs) (suc i) h = omega (arith, get_elem?-lt xs i h)

pub drop-take : {A : Type 0} (n m : ℕ) (xs : List A) → drop n (take m xs) ≡ take (m - n) (drop n xs)
drop-take zero m xs = let same : m ≡ m - 0 = omega arith in ap (λ k. take k xs) same
drop-take (suc n) zero xs =
    let none_left : 0 ≡ 0 - suc n = omega arith in ap (λ k. take k (drop (suc n) xs)) none_left
drop-take (suc n) (suc m) [] = sym (take-nil (suc m - suc n))
drop-take (suc n) (suc m) (x ∷ xs) =
    let same : m - n ≡ suc m - suc n = omega arith in
    drop-take n m xs ∙ ap (λ k. take k (drop n xs)) same

pub drop-drop : {A : Type 0} (n m : ℕ) (xs : List A) → drop n (drop m xs) ≡ drop (m + n) xs
drop-drop n zero xs = let same : n ≡ 0 + n = omega arith in ap (λ k. drop k xs) same
drop-drop zero (suc m) [] = let same : suc m ≡ suc m + 0 = omega arith in ap (λ k. drop k []) same
drop-drop (suc n) (suc m) [] =
    let same : suc (m + suc n) ≡ suc m + suc n = omega arith in ap (λ k. drop k []) same
drop-drop n (suc m) (x ∷ xs) =
    let same : suc (m + n) ≡ suc m + n = omega arith in
    drop-drop n m xs ∙ ap (λ k. drop k (x ∷ xs)) same

-- To take as many items as there are of a prefix is to take the prefix.
pub take-length-take : {A : Type 0} (n : ℕ) (xs : List A) → take (length (take n xs)) xs ≡ take n xs
take-length-take zero xs = refl
take-length-take (suc n) [] = refl
take-length-take (suc n) (x ∷ xs) = ap (λ ys. x ∷ ys) (take-length-take n xs)

pub take-take : {A : Type 0} (n m : ℕ) (xs : List A) → take n (take m xs) ≡ take (min n m) xs
take-take zero m xs = let same : 0 ≡ min 0 m = omega arith in ap (λ k. take k xs) same
take-take (suc n) zero xs = let same : 0 ≡ min (suc n) 0 = omega arith in ap (λ k. take k xs) same
take-take (suc n) (suc m) [] = sym (take-nil (min (suc n) (suc m)))
take-take (suc n) (suc m) (x ∷ xs) =
    let same : suc (min n m) ≡ min (suc n) (suc m) = omega arith in
    ap (λ ys. x ∷ ys) (take-take n m xs) ∙ ap (λ k. take k (x ∷ xs)) same
