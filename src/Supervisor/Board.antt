-- ===== src/Supervisor/Board.antt =====
-- What holds of the task board while the supervisor works on it.
use automated_software_engin.Prelude.{
  ℕ, ◌+◌, ◌≤◌, ◌<◌, ◌≡◌, refl, true, false, List, [], ◌∷◌, ◌++◌, map, arith, subset, Distinct, Kept,
  subset-Kept, All,
}
use automated_software_engin.Enums.{is_pending, is_done}
use automated_software_engin.Supervisor.{TaskState, max_retries, done_ids, skip_reported}

abbrev pub ids : List TaskState → List ℕ
ids tasks = map (λ t. t.id) tasks

-- A task that was ever attempted waited for its dependencies, a finished one was attempted, and
-- a task is tried three times at most.
pub record IsSound (done : List ℕ) (t : TaskState) : Type 0 where
  pub waited : 0 < t.attempts → subset t.depends_on done ≡ true
  pub attempted : is_done t.status ≡ true → 0 < t.attempts
  pub bounded : t.attempts ≤ max_retries + 1
  pub retriable : is_pending t.status ≡ true → t.attempts ≤ max_retries

pub record IsBoard (tasks : List TaskState) : Type 0 where
  pub distinct : Distinct (ids tasks)
  pub sound : All (IsSound (done_ids tasks)) tasks

pub IsSound-Kept : (xs ys : List ℕ) (t : TaskState) → Kept xs ys → IsSound xs t → IsSound ys t
IsSound-Kept xs ys t k h = record {
  waited = λ a. subset-Kept t.depends_on xs ys k (h.waited a);
  attempted = h.attempted;
  bounded = h.bounded;
  retriable = h.retriable;
}

-- A task that joins the board: never attempted, and not done.
pub record IsNew (t : TaskState) : Type 0 where
  pub fresh : t.attempts ≡ 0
  pub not_done : is_done t.status ≡ false

pub IsNew-IsSound : (done : List ℕ) (t : TaskState) → IsNew t → IsSound done t
IsNew-IsSound done t n = record {
  waited = λ a. absurd (omega (arith, n.fresh));
  attempted = λ d. cc n.not_done;
  bounded = omega (arith, n.fresh);
  retriable = λ _. omega (arith, n.fresh);
}

-- `skip_reported` and `skip_pending` change a status from pending to skipped, and nothing else.
IsSound-skip_reported :
    (done : List ℕ) (skipped : List ℕ) (t : TaskState)
    → IsSound done t
    → IsSound done (skip_reported skipped t)
IsSound-skip_reported done skipped t h = ground arith

pub ids-skip_reported :
    (skipped : List ℕ) (ts : List TaskState) → ids (map (skip_reported skipped) ts) ≡ ids ts
ids-skip_reported skipped [] = refl
ids-skip_reported skipped (t ∷ ts) = ground (arith, ids-skip_reported skipped ts)

pub done_ids-skip_reported :
    (skipped : List ℕ) (ts : List TaskState)
    → done_ids (map (skip_reported skipped) ts) ≡ done_ids ts
done_ids-skip_reported skipped [] = refl
done_ids-skip_reported skipped (t ∷ ts) = ground (arith, done_ids-skip_reported skipped ts)

pub All-skip_reported :
    (done : List ℕ) (skipped : List ℕ) (ts : List TaskState)
    → All (IsSound done) ts
    → All (IsSound done) (map (skip_reported skipped) ts)
All-skip_reported done skipped [] h = tt
All-skip_reported done skipped (t ∷ ts) h =
    (IsSound-skip_reported done skipped t h.0, All-skip_reported done skipped ts h.1)

pub done_ids-append : (xs ys : List TaskState) → done_ids (xs ++ ys) ≡ done_ids xs ++ done_ids ys
done_ids-append [] ys = refl
done_ids-append (x ∷ xs) ys = ground (arith, done_ids-append xs ys)

pub ids-append : (xs ys : List TaskState) → ids (xs ++ ys) ≡ ids xs ++ ids ys
ids-append [] ys = refl
ids-append (x ∷ xs) ys = ground (arith, ids-append xs ys)
