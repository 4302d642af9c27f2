-- ===== src/Supervisor/Deadlock.antt =====
-- Why the supervisor finds no deadlock on a board in the order of its dependencies.
use automated_software_engin.Prelude.{
  ℕ, ◌≡◌, refl, subst, ap, ◌∙◌, inl, inr, true, false, ◌||◌, none, List, [], ◌∷◌, arith, subset,
  Kept, subset-Kept, Bool-cases, filter_by, all_of, if◌then◌else◌,
}
use automated_software_engin.Enums.{is_pending, is_skipped}
use automated_software_engin.Supervisor.{
  TaskState, SupervisorState, done_ids, is_eligible, is_finished, eligible_tasks, schedule,
}
use automated_software_engin.Supervisor.Choice.{
  Scheduled, picked, settled, stuck, failing, schedule-Scheduled,
}

-- A board in the order of its dependencies: every task is pending, done or skipped, and a pending
-- one depends only on tasks that stand before it and are not skipped. `seen` are those so far.
abbrev pub IsOpen : List ℕ → List TaskState → Type 0
IsOpen seen [] = Unit
IsOpen seen (t ∷ ts) =
    (is_pending t.status || is_finished t.status ≡ true)
    × (is_pending t.status ≡ true → subset t.depends_on seen ≡ true)
    × IsOpen (if is_skipped t.status then seen else t.id ∷ seen) ts

finished_if_idle :
    (done : List ℕ) (ts : List TaskState) (seen : List ℕ)
    → IsOpen seen ts
    → Kept seen done
    → Kept (done_ids ts) done
    → filter_by (is_eligible done) ts ≡ []
    → all_of (λ t. is_finished t.status) ts ≡ true
finished_if_idle done [] seen o k d e = refl
finished_if_idle done (t ∷ ts) seen (fine, waits, o) k d e =
    elim (Bool-cases (is_pending t.status)) [
      | inl p ↦ absurd (ground (arith, p, e, subset-Kept t.depends_on seen done k (waits p)))
      | inr p ↦ elim (Bool-cases (is_skipped t.status)) [
        | inl s ↦ ground (
          arith,
          p,
          s,
          finished_if_idle done ts seen
              (subst (λ b. IsOpen (if b then seen else t.id ∷ seen) ts) s o) k (later p s) (idle p),
        )
        | inr s ↦ ground (
          arith,
          p,
          s,
          fine,
          finished_if_idle done ts (t.id ∷ seen)
              (subst (λ b. IsOpen (if b then seen else t.id ∷ seen) ts) s o) (wider p s)
              (λ j h. d j (ground (arith, h))) (idle p),
        )
      ]
    ]
  where
    idle : is_pending t.status ≡ false → filter_by (is_eligible done) ts ≡ []
    idle p = ground (arith, p, e)

    later : is_pending t.status ≡ false → is_skipped t.status ≡ true → Kept (done_ids ts) done
    later p s j h = d j (ground (arith, h))

    wider : is_pending t.status ≡ false → is_skipped t.status ≡ false → Kept (t.id ∷ seen) done
    wider p s j h = ground (arith, p, s, fine, h, d j, k j)

-- From a board in the order of its dependencies and no failure, the supervisor declares no deadlock
-- in its next step.
pub schedule-failure :
    (s : SupervisorState) → s.failure ≡ none → IsOpen [] s.tasks → (schedule s).failure ≡ none
unfolding eligible_tasks
schedule-failure s f o = go (schedule s) (schedule-Scheduled s)
  where
    go : (s' : SupervisorState) → Scheduled s s' → s'.failure ≡ none
    go s' (picked t g next e) = ap (λ (x : SupervisorState). x.failure) e ∙ f
    go s' (settled g all e) = ap (λ (x : SupervisorState). x.failure) e ∙ f
    go s' (failing g h e) = cc f
    go s' (stuck g _ idle left e) =
        let all = finished_if_idle (done_ids s.tasks) s.tasks [] o (λ j h. cc) (λ j h. h) idle in
        cc (all, left)
