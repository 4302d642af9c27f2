-- ===== src/Runner/Review.antt =====
-- How the review leads to the gates: only an approving verdict does.
use automated_software_engin.Prelude.{
  ℕ, ◌+◌, ◌≡◌, sym, subst, inl, inr, true, none, some, List, [], ◌∷◌, Memᴰ, arith, Text, Bool-cases,
  length,
}
use automated_software_engin.Errors.{Reply, ok, raise}
use automated_software_engin.Enums.{AgentRole, RunStatus, reviewer}
use automated_software_engin.Store.{AgentRun, Db, not_approved}
use automated_software_engin.Runner.World.{
  Outside, World, Workspace, Repository, Verdict, LlmUsage, Session, pure, on_run, converse,
  session_of, fail_run,
}
use automated_software_engin.Runner.Gates.{review, revise, note_verdict, note_revision}
use automated_software_engin.Runner.Phases.{
  revise_all, second_review, findings_by_role, gates, review_phase,
}
use automated_software_engin.Runner.Contracts.{
  Stage, Grows-Stage, Post, Post-bind, Post-session, converse-Grows,
}
use automated_software_engin.Runner.Outcome.{HasFailed-fail_run, Reviewing, Open}
use automated_software_engin.Runner.Completion.{HasEnded, gates-HasEnded}

abbrev pub InReview : Db → Type 0
InReview db = Stage RunStatus.reviewing db

paid : (u : LlmUsage) (run : AgentRun) → AgentRun
paid u run = record run {
  total_input_tokens = run.total_input_tokens + u.input_tokens;
  total_output_tokens = run.total_output_tokens + u.output_tokens;
  total_cost_usd = run.total_cost_usd + u.cost_usd;
}

InReview-note_revision :
    (role : AgentRole) (n : ℕ) (u : LlmUsage) (db : Db)
    → InReview db
    → InReview (note_revision role n u db)
unfolding paid
InReview-note_revision role n u db s = record {
  run = paid u s.run;
  found = ground (arith, s.found);
  at = s.at;
}

-- What a verdict leaves: an approving one is on the timeline.
abbrev Judged : Verdict → Db → Type 0
Judged v db = InReview db × (v.approve ≡ true → Reviewing db)

Judged-note_verdict :
    (v : Verdict) (u : LlmUsage) (db : Db) → InReview db → Judged v (note_verdict v u db)
unfolding paid
Judged-note_verdict v u db s = (
  record { run = paid u s.run; found = found; at = s.at },
  (λ said. record {
    run = paid u s.run;
    found = found;
    at = s.at;
    findings = length v.findings;
    approved = Memᴰ.head (ground (arith, said));
  }),
)
  where
    found : (note_verdict v u db).run ≡ some (paid u s.run)
    found = ground (arith, s.found)

module _ {E : Type 0} where
  abbrev pub Alive : World E → Type 0
  Alive w = InReview w.db

  Post-on_run :
      (Q : World E → Type 0) (f : Db → Db) (w : World E)
      → InReview w.db
      → Q (record w { db = f w.db })
      → Post (λ _. Q) Alive (on_run f w)
  Post-on_run Q f w s q = subst (Post (λ _. Q) Alive) (sym same) q
    where
      same : on_run f w ≡ (ok tt, record w { db = f w.db })
      same = ground (arith, s.found)

  Post-agent :
      {A : Type 0} (role : AgentRole) (agent : E → Session A × E) (w : World E)
      → InReview w.db
      → Post (λ _. Alive) Alive (session_of role agent w)
  Post-agent role agent w s =
      let after = converse role none agent w in
      let kept = Grows-Stage w.db after.1.db (converse-Grows role none agent w) s in
      Post-session Alive Alive after kept kept

  -- A weaker postcondition of the exceptions.
  pub Post-wider :
      {A : Type 0} (Q : A → World E → Type 0) (X Y : World E → Type 0) (r : Reply A × World E)
      → ((w : World E) → X w → Y w)
      → Post Q X r
      → Post Q Y r
  Post-wider Q X Y (ok a, w) h q = q
  Post-wider Q X Y (raise e, w) h x = h w x

  module _ (out : Outside E) where
    abbrev JudgedBy : Verdict → World E → Type 0
    JudgedBy v w = Judged v w.db

    Post-review :
        (request : Text) (w : World E) → InReview w.db → Post JudgedBy Alive (review out request w)
    unfolding review
    Post-review request w s =
        Post-bind (λ _. Alive) JudgedBy Alive _ _ (Post-agent reviewer (out.review_run request) w s)
          λ (usage, verdict) w' s'.
            Post-bind (λ _. JudgedBy verdict) JudgedBy Alive _ (λ _. pure verdict)
              (Post-on_run (JudgedBy verdict) (note_verdict verdict usage) w' s'
                (Judged-note_verdict verdict usage w'.db s'))
              (λ _ w'' h. h)

    Post-revise :
        (request : Text) (role : AgentRole) (issues : List Text) (w : World E)
        → InReview w.db
        → Post (λ _. Alive) Alive (revise out request role issues w)
    unfolding revise
    Post-revise request role issues w s =
        Post-bind (λ _. Alive) (λ _. Alive) Alive _ _
          (Post-agent role (out.execute_revision role issues request) w s)
          λ (usage, summary) w' s'.
            Post-on_run Alive (note_revision role (length issues) usage) w' s'
              (InReview-note_revision role (length issues) usage w'.db s')

    Post-revise_all :
        (request : Text) (groups : List (AgentRole × List Text)) (w : World E)
        → InReview w.db
        → Post (λ _. Alive) Alive (revise_all out request groups w)
    unfolding revise_all
    Post-revise_all request [] w s = s
    Post-revise_all request ((role, issues) ∷ rest) w s =
        Post-bind (λ _. Alive) (λ _. Alive) Alive _ _ (Post-revise request role issues w s)
          (λ _ w' s'. Post-revise_all request rest w' s')

    Post-second_review :
        (request : Text) (v : Verdict) (w : World E)
        → Judged v w.db
        → Post JudgedBy Alive (second_review out request v w)
    unfolding second_review
    Post-second_review request v w (s, judged) = elim (Bool-cases v.approve) [
      | inl approved ↦ rw approved (s, (λ _. judged approved))
      | inr refused ↦ rw refused (
          Post-bind (λ _. Alive) JudgedBy Alive _ _
            (Post-revise_all request (findings_by_role out [] v.findings) w s)
            (λ _ w' s'. Post-review request w' s'))
    ]

    -- From a run in review, the review ends the run, or an exception leaves it in review: without
    -- an approving verdict, the first or the second, the run fails; with one, the gates decide.
    pub review_phase-HasEnded :
        (request : Text) (ws : Workspace) (repo : Repository) (w : World E)
        → InReview w.db
        → Post (λ _ v. HasEnded v.db) Alive (review_phase out request ws repo w)
    unfolding review_phase
    review_phase-HasEnded request ws repo w s =
        Post-bind JudgedBy (λ _ v. HasEnded v.db) Alive _ _ (Post-review request w s)
          λ first w' j.
            Post-bind JudgedBy (λ _ v. HasEnded v.db) Alive _ _
              (Post-second_review request first w' j)
              λ verdict w'' (r, judged). elim (Bool-cases verdict.approve) [
                | inl approved ↦ rw approved (
                    Post-wider (λ _ v. HasEnded v.db) Open Alive (gates out ws repo w'')
                      (λ v o. record { run = o.run; found = o.found; at = o.at })
                      (gates-HasEnded out ws repo w'' (judged approved)))
                | inr refused ↦ rw refused (
                    Post-on_run (λ v. HasEnded v.db) (fail_run not_approved) w'' r
                      (inl (HasFailed-fail_run not_approved w''.db r.run r.found)))
              ]
