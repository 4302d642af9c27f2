-- ===== src/Backlog/Bounds.antt =====
-- The walk for a cycle ends: no node is looked through twice.
use automated_software_engin.Prelude.{
  ℕ, zero, suc, ◌+◌, ◌≤◌, ◌≡◌, ◌≢◌, inl, inr, false, List, [], ◌∷◌, arith, elem, length, ◌==◌,
  Bool-cases, if◌then◌else◌,
}
use automated_software_engin.Backlog.{WorkItem, dependencies}
use automated_software_engin.Backlog.Walk.{out_of_fuel, walk, extend, length-extend}

-- The dependencies of the items that the walk has not looked through.
abbrev pub left_over : (seen : List ℕ) → List WorkItem → ℕ
left_over seen [] = 0
left_over seen (t ∷ ts) = (if elem t.id seen then 0 else length t.depends_on) + left_over seen ts

left_over-le :
    (node : ℕ) (seen : List ℕ) (items : List WorkItem)
    → left_over (node ∷ seen) items ≤ left_over seen items
left_over-le node seen [] = omega arith
left_over-le node seen (t ∷ ts) = ground (arith, left_over-le node seen ts)

left_over-seen :
    (node : ℕ) (seen : List ℕ) (items : List WorkItem)
    → elem node seen ≡ false
    → length (dependencies items node) + left_over (node ∷ seen) items ≤ left_over seen items
left_over-seen node seen [] new = omega arith
left_over-seen node seen (t ∷ ts) new =
    ground (arith, left_over-seen node seen ts new, left_over-le node seen ts)

-- The walk ends within one round for each dependency that it can meet.
pub walk-ends :
    (items : List WorkItem) (this_id fuel : ℕ) (stack seen : List ℕ)
    → length stack + left_over seen items ≤ fuel
    → walk (dependencies items) this_id fuel stack seen ≢ out_of_fuel
unfolding walk
walk-ends items this_id fuel [] seen h e = cc
walk-ends items this_id zero (node ∷ stack) seen h e = absurd (omega arith)
walk-ends items this_id (suc fuel) (node ∷ stack) seen h e = elim (Bool-cases (node == this_id)) [
  | inl found ↦ ground (arith, found, e)
  | inr other ↦ elim (Bool-cases (elem node seen)) [
    | inl known ↦
        walk-ends items this_id fuel stack seen (omega arith) (ground (arith, other, known, e))
    | inr new ↦
        walk-ends items this_id fuel (extend stack (dependencies items node)) (node ∷ seen)
          (omega (
            arith,
            left_over-seen node seen items new,
            length-extend stack (dependencies items node),
          ))
          (ground (arith, other, new, e))
  ]
]
