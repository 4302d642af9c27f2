-- ===== src/Runner/Contracts.antt =====
-- Postconditions of the pieces of a run, and what agents at work leave alone.
use automated_software_engin.Prelude.{
  ℕ, ◌≡◌, refl, sym, ◌∙◌, subst, ◌⊎◌, inl, inr, true, Option, some, List, [], ◌∷◌, ◌++◌, ap, map,
  Memᴰ, arith,
}
use mathlib.Core.List.{append_assoc}
use automated_software_engin.Errors.{Reply, ok, raise}
use automated_software_engin.Enums.{AgentRole, RunStatus}
use automated_software_engin.Store.{
  AgentRun, AgentEvent, EventKind, Db, emit, review_verdict, tool_called, agent_reasoning,
}
use automated_software_engin.Tools.{
  ToolCall, ToolReply, add, set_status, other, unknown_tool, call_tool,
}
use automated_software_engin.Registry.{ToolName, get_agent_spec}
use automated_software_engin.Runner.World.{
  World, LlmUsage, Session, Run, AgentAct, called, reasoned, and_then, perform, converse,
  session_end, is_fine,
}

-- The run's row is there, with a given status.
pub record Stage (status : RunStatus) (db : Db) : Type 0 where
  pub run : AgentRun
  pub found : db.run ≡ some run
  pub at : run.status ≡ status

pub record IsAlive (db : Db) : Type 0 where
  pub run : AgentRun
  pub found : db.run ≡ some run

abbrev pub kinds : Db → List EventKind
kinds db = map (λ (e : AgentEvent). e.kind) db.events

-- The reviewer approved the changes at some point of the timeline.
pub record IsApproved (db : Db) : Type 0 where
  pub findings : ℕ
  pub noted : Memᴰ (review_verdict true findings) (kinds db)

-- A piece of work that leaves the run's row alone and only adds to the timeline, which is kept
-- newest first.
pub record Grows (before after : Db) : Type 0 where
  pub same_run : after.run ≡ before.run
  pub added : List AgentEvent
  pub extended : after.events ≡ added ++ before.events

mem-append :
    (k : EventKind) (es fs : List AgentEvent)
    → Memᴰ k (map (λ (e : AgentEvent). e.kind) fs)
    → Memᴰ k (map (λ (e : AgentEvent). e.kind) (es ++ fs))
mem-append k [] fs m = m
mem-append k (e ∷ es) fs m = Memᴰ.tail (mem-append k es fs m)

-- What the timeline told before, it tells after.
pub Grows-keeps : (a b : Db) → Grows a b → (k : EventKind) → Memᴰ k (kinds a) → Memᴰ k (kinds b)
Grows-keeps a b g k m =
    subst (λ es. Memᴰ k (map (λ (e : AgentEvent). e.kind) es)) (sym g.extended)
      (mem-append k g.added a.events m)

pub Grows-refl : (db : Db) → Grows db db
Grows-refl db = record { same_run = refl; added = []; extended = refl }

pub Grows-trans : (a b c : Db) → Grows a b → Grows b c → Grows a c
Grows-trans a b c g h = record {
  same_run = h.same_run ∙ g.same_run;
  added = h.added ++ g.added;
  extended =
      h.extended
      ∙ ap (λ es. h.added ++ es) g.extended
      ∙ sym (append_assoc h.added g.added a.events);
}

pub Grows-Stage : {st : RunStatus} (a b : Db) → Grows a b → Stage st a → Stage st b
Grows-Stage a b g s = record { run = s.run; found = g.same_run ∙ s.found; at = s.at }

abbrev rest : List AgentEvent → List AgentEvent
rest [] = []
rest (e ∷ es) = es

-- The run's row is the same, and at most one event is new.
abbrev AddsOne : Db → Db → Type 0
AddsOne before after =
    (after.run ≡ before.run)
    × ((after.events ≡ before.events) ⊎ (rest after.events ≡ before.events))

rest-extends :
    (es before : List AgentEvent)
    → rest es ≡ before
    → (added : List AgentEvent) × (es ≡ added ++ before)
rest-extends [] before h = ([], h)
rest-extends (e ∷ es) before h = (e ∷ [], ap (λ fs. e ∷ fs) h)

AddsOne-Grows : (a b : Db) → AddsOne a b → Grows a b
AddsOne-Grows a b (same, inl h) = record { same_run = same; added = []; extended = h }
AddsOne-Grows a b (same, inr h) =
    let (added, extended) = rest-extends b.events a.events h in
    record { same_run = same; added = added; extended = extended }

call_tool-AddsOne :
    (allowed : List ToolName) (call : ToolCall) (db db' : Db) (reply : ToolReply)
    → call_tool allowed call db ≡ ok (reply, db')
    → AddsOne db db'
unfolding call_tool
call_tool-AddsOne allowed (add id title description r) db db' reply e = ground arith
call_tool-AddsOne allowed (set_status sequence s reason) db db' reply e = ground arith
call_tool-AddsOne allowed (other name succeeds) db db' reply e = ground arith
call_tool-AddsOne allowed (unknown_tool name) db db' reply e = ground arith

emit-Grows :
    (k : EventKind) (role : Option AgentRole) (task : Option ℕ) (db : Db)
    → Grows db (emit k role task db)
emit-Grows k role task db = record {
  same_run = refl;
  added = record { kind = k; agent = role; task_id = task } ∷ [];
  extended = refl;
}

-- Whatever an agent does, and whatever its tools answer, the run's row stays as it was, and the
-- timeline is what it was with new events added after it.
pub perform-Grows :
    (role : AgentRole) (task : Option ℕ) (acts : List AgentAct) (db : Db)
    → Grows db (perform role task acts db).1
unfolding perform
perform-Grows role task [] db = Grows-refl db
perform-Grows role task (reasoned ∷ acts) db =
    let noted = emit agent_reasoning (some role) task db in
    Grows-trans db noted (perform role task acts noted).1
      (emit-Grows agent_reasoning (some role) task db) (perform-Grows role task acts noted)
perform-Grows role task (called call ∷ acts) db =
    go (perform-Grows role task acts) (call_tool (get_agent_spec role).tools call db) refl
  where
    go :
        ((d : Db) → Grows d (perform role task acts d).1)
        → (r : Reply (ToolReply × Db)) → call_tool (get_agent_spec role).tools call db ≡ r
        → Grows db (perform role task (called call ∷ acts) db).1
    go later (raise e) h = rw (h, perform) (Grows-refl db)
    go later (ok (reply, db')) h =
        let noted = emit (tool_called (is_fine reply)) (some role) task db' in
        rw (h, perform)
          (Grows-trans db db' (perform role task acts noted).1
            (AddsOne-Grows db db'
              (call_tool-AddsOne (get_agent_spec role).tools call db db' reply h))
            (Grows-trans db' noted (perform role task acts noted).1
              (emit-Grows (tool_called (is_fine reply)) (some role) task db') (later noted)))

-- A postcondition: `Q` of a result, `X` where an exception was raised.
abbrev pub Post :
    {E A : Type 0} → (A → World E → Type 0) → (World E → Type 0) → Reply A × World E → Type 0
Post Q X (ok a, w) = Q a w
Post Q X (raise e, w) = X w

module _ {E : Type 0} where
  pub converse-Grows :
      {A : Type 0} (role : AgentRole) (task : Option ℕ) (agent : E → Session A × E) (w : World E)
      → Grows w.db (converse role task agent w).1.db
  unfolding converse
  converse-Grows role task agent w = perform-Grows role task (agent w.env).0.acts w.db

  -- The rule for two pieces in a row.
  pub Post-bind :
      {A B : Type 0} (Q : A → World E → Type 0) (R : B → World E → Type 0) (X : World E → Type 0)
      (r : Reply A × World E) (f : A → Run E B)
      → Post Q X r
      → ((a : A) (w : World E) → Q a w → Post R X (f a w))
      → Post R X (and_then r f)
  Post-bind Q R X (ok a, w) f h k = k a w h
  Post-bind Q R X (raise e, w) f h k = h

  pub Post-session :
      {A : Type 0} (Q X : World E → Type 0) (p : (LlmUsage × Reply A) × World E)
      → Q p.1
      → X p.1
      → Post (λ _. Q) X (session_end p)
  Post-session Q X ((u, ok a), w) q x = q
  Post-session Q X ((u, raise e), w) q x = x
