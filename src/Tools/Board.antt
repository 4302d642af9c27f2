-- ===== src/Tools/Board.antt =====
-- What the tools of apps/engine/src/engine/agents/tools.py keep true of the task board.
use automated_software_engin.Prelude.{
  ℕ, ◌+◌, ◌≤◌, ◌<◌, ◌≡◌, refl, ◌⊎◌, inl, inr, true, false, List, [], ◌∷◌, ◌++◌, map, arith, ◌==◌,
  Text, elem, length, Distinct, Distinct-append, All, All-append, All-map, Bool-cases,
}
use automated_software_engin.Enums.{is_skipped}
use automated_software_engin.Store.{AgentTask, update_row}
use automated_software_engin.Tools.Changes.{IsKept}
use automated_software_engin.Tools.{max_board_tasks, row_ids, max_sequence, dependents, skip_row}

abbrev pub sequences : List AgentTask → List ℕ
sequences rows = map (λ t. t.sequence) rows

-- A board that no agent has spoiled: at most thirty tasks, no identifier and no sequence number
-- taken twice, and no unfinished task that waits for a skipped one.
pub record IsTaskBoard (rows : List AgentTask) : Type 0 where
  pub bounded : length rows ≤ max_board_tasks
  pub distinct : Distinct (row_ids rows)
  pub numbered : Distinct (sequences rows)
  pub reachable : All (λ t. is_skipped t.status ≡ true → dependents t.id rows ≡ []) rows

ids-skip :
    (i : ℕ) (reason : Text) (rows : List AgentTask)
    → row_ids (update_row i (skip_row reason) rows) ≡ row_ids rows
ids-skip i reason [] = refl
ids-skip i reason (t ∷ ts) = ground (arith, ids-skip i reason ts)

sequences-skip :
    (i : ℕ) (reason : Text) (rows : List AgentTask)
    → sequences (update_row i (skip_row reason) rows) ≡ sequences rows
sequences-skip i reason [] = refl
sequences-skip i reason (t ∷ ts) = ground (arith, sequences-skip i reason ts)

length-skip :
    (i : ℕ) (reason : Text) (rows : List AgentTask)
    → length (update_row i (skip_row reason) rows) ≡ length rows
length-skip i reason [] = refl
length-skip i reason (t ∷ ts) = ground (arith, length-skip i reason ts)

-- A skip makes nobody wait.
dependents-skip :
    (j i : ℕ) (reason : Text) (rows : List AgentTask)
    → dependents j rows ≡ []
    → dependents j (update_row i (skip_row reason) rows) ≡ []
dependents-skip j i reason [] h = refl
dependents-skip j i reason (t ∷ ts) h = ground (arith, dependents-skip j i reason ts)

-- The rows of a board after a skip of a task that nobody waits for.
reachable-skip :
    (i : ℕ) (reason : Text) (whole rows : List AgentTask)
    → dependents i whole ≡ []
    → All (λ t. is_skipped t.status ≡ true → dependents t.id whole ≡ []) rows
    → All
        (λ t.
          is_skipped t.status ≡ true → dependents t.id (update_row i (skip_row reason) whole) ≡ [])
        (update_row i (skip_row reason) rows)
reachable-skip i reason whole [] free h = tt
reachable-skip i reason whole (t ∷ ts) free h =
    let rest = reachable-skip i reason whole ts free h.1 in
    elim (Bool-cases (t.id == i)) [
      | inl e ↦ rw e ((λ _. ground (arith, dependents-skip i i reason whole free)), rest)
      | inr e ↦ rw e ((λ s. dependents-skip t.id i reason whole (h.0 s)), rest)
    ]

IsTaskBoard-skip :
    (i : ℕ) (reason : Text) (rows : List AgentTask)
    → dependents i rows ≡ []
    → IsTaskBoard rows
    → IsTaskBoard (update_row i (skip_row reason) rows)
IsTaskBoard-skip i reason rows free b = record {
  bounded = omega (arith, length-skip i reason rows, b.bounded);
  distinct = rw (ids-skip i reason rows) b.distinct;
  numbered = rw (sequences-skip i reason rows) b.numbered;
  reachable = reachable-skip i reason rows rows free b.reachable;
}

-- The largest sequence number is at least each of them.
max_sequence-le :
    (j : ℕ) (rows : List AgentTask) → elem j (sequences rows) ≡ true → j ≤ max_sequence rows
max_sequence-le j [] h = cc
max_sequence-le j (t ∷ ts) h = ground (arith, max_sequence-le j ts)

Distinct-snoc : (x : ℕ) (xs : List ℕ) → Distinct xs → elem x xs ≡ false → Distinct (xs ++ x ∷ [])
Distinct-snoc x xs d new =
    Distinct-append xs (x ∷ []) d (refl, tt) (λ j h. apart j h (Bool-cases (x == j)))
  where
    apart :
        (j : ℕ) → elem j xs ≡ true → (x == j ≡ true) ⊎ (x == j ≡ false) → elem j (x ∷ []) ≡ false
    apart j h (inl e) = ground arith
    apart j h (inr e) = ground arith

module _ (t : AgentTask) (alone : t.depends_on ≡ []) where
  dependents-append :
      (j : ℕ) (rows : List AgentTask) → dependents j rows ≡ [] → dependents j (rows ++ t ∷ []) ≡ []
  dependents-append j [] h = ground (arith, alone)
  dependents-append j (u ∷ us) h = ground (arith, dependents-append j us)

  ids-snoc : (rows : List AgentTask) → row_ids (rows ++ t ∷ []) ≡ row_ids rows ++ t.id ∷ []
  ids-snoc [] = refl
  ids-snoc (u ∷ us) = ground (arith, ids-snoc us)

  sequences-snoc :
      (rows : List AgentTask) → sequences (rows ++ t ∷ []) ≡ sequences rows ++ t.sequence ∷ []
  sequences-snoc [] = refl
  sequences-snoc (u ∷ us) = ground (arith, sequences-snoc us)

  length-snoc : (rows : List AgentTask) → length (rows ++ t ∷ []) ≡ length rows + 1
  length-snoc [] = refl
  length-snoc (u ∷ us) = ground (arith, length-snoc us)

  IsTaskBoard-add :
      (rows : List AgentTask)
      → length rows < max_board_tasks
      → elem t.id (row_ids rows) ≡ false
      → t.sequence ≡ max_sequence rows + 1
      → is_skipped t.status ≡ false
      → IsTaskBoard rows
      → IsTaskBoard (rows ++ t ∷ [])
  IsTaskBoard-add rows room new next waits b = record {
    bounded = omega (arith, length-snoc rows, room);
    distinct = rw (ids-snoc rows) (Distinct-snoc t.id (row_ids rows) b.distinct new);
    numbered =
        rw (sequences-snoc rows) (Distinct-snoc t.sequence (sequences rows) b.numbered above);
    reachable =
        All-append _ rows (t ∷ [])
          (All-map (λ u h s. dependents-append u.id rows (h s)) rows b.reachable)
          ((λ s. cc waits), tt);
  }
    where
      above : elem t.sequence (sequences rows) ≡ false
      above = ground (arith, max_sequence-le t.sequence rows, next)

pub IsTaskBoard-IsKept : IsKept IsTaskBoard
IsTaskBoard-IsKept = record {
  added =
      λ rows t a b. IsTaskBoard-add t a.alone rows a.room a.new a.next (ground (arith, a.waits)) b;
  skipped = λ rows i reason free b. IsTaskBoard-skip i reason rows free b;
}
