-- ===== src/Prelude/Ids.antt =====
-- Sets of identifiers: inclusion of one list of identifiers in another, and distinct identifiers.
use Prim.Native.Nat.{ℕ}
use mathlib.Core.Path.{◌≡◌, refl}
use mathlib.Core.Bool.{true, false}
use mathlib.Core.List.{List, [], ◌∷◌, ◌++◌, Memᴰ}
use native.Mathlib.Omega.{arith}
use automated_software_engin.Prelude.Tests.{==_refl}
use automated_software_engin.Prelude.Lists.{elem, subset, Distinct}

-- Every identifier of the one list is in the other.
abbrev pub Kept : List ℕ → List ℕ → Type 0
Kept xs ys = (j : ℕ) → elem j xs ≡ true → elem j ys ≡ true

pub subset-Kept : (ds xs ys : List ℕ) → Kept xs ys → subset ds xs ≡ true → subset ds ys ≡ true
subset-Kept [] xs ys k h = refl
subset-Kept (d ∷ ds) xs ys k h = ground (arith, k d, subset-Kept ds xs ys k)

pub elem-append_left : (j : ℕ) (xs ys : List ℕ) → elem j xs ≡ true → elem j (xs ++ ys) ≡ true
elem-append_left j [] ys h = cc
elem-append_left j (x ∷ xs) ys h = ground (arith, elem-append_left j xs ys)

pub elem-append_right : (j : ℕ) (xs ys : List ℕ) → elem j ys ≡ true → elem j (xs ++ ys) ≡ true
elem-append_right j [] ys h = h
elem-append_right j (x ∷ xs) ys h = ground (arith, elem-append_right j xs ys)

pub elem-append_false :
    (j : ℕ) (xs ys : List ℕ) → elem j xs ≡ false → elem j ys ≡ false → elem j (xs ++ ys) ≡ false
elem-append_false j [] ys h k = k
elem-append_false j (x ∷ xs) ys h k = ground (arith, elem-append_false j xs ys)

pub mem-elem : {j : ℕ} {xs : List ℕ} → Memᴰ j xs → elem j xs ≡ true
mem-elem (Memᴰ.head e) = ground arith
mem-elem (Memᴰ.tail m) = ground (arith, mem-elem m)

-- Appending identifiers that are new and distinct keeps all distinct.
pub Distinct-append :
    (xs ys : List ℕ)
    → Distinct xs
    → Distinct ys
    → ((j : ℕ) → elem j xs ≡ true → elem j ys ≡ false)
    → Distinct (xs ++ ys)
Distinct-append [] ys dx dy apart = dy
Distinct-append (x ∷ xs) ys dx dy apart = (
  elem-append_false x xs ys dx.0 (apart x (ground (arith, ==_refl x))),
  Distinct-append xs ys dx.1 dy (λ j h. apart j (ground arith)),
)

pub elem-subset :
    (ds xs : List ℕ) (j : ℕ) → subset ds xs ≡ true → elem j ds ≡ true → elem j xs ≡ true
elem-subset [] xs j h e = cc
elem-subset (d ∷ ds) xs j h e = ground (arith, elem-subset ds xs j)
