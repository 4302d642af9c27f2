-- ===== src/Runner/Supervise.antt =====
-- What the executor and the supervisor's graph leave of a run.
use automated_software_engin.Prelude.{
  ℕ, zero, suc, ◌+◌, ◌≡◌, refl, sym, ◌∙◌, subst, inl, inr, Option, none, some, map, arith, Text,
  Option-cases,
}
use automated_software_engin.Errors.{Exc, Reply, ok, raise}
use automated_software_engin.Store.{AgentRun, Db, by_sequence, to_task_state}
use automated_software_engin.Supervisor.{
  TaskState, SupervisorState, Attempt, Ending, finished, crashed, out_of_steps, Node, schedule_node,
  execute_node, finalize_node, end_node, schedule, after_schedule, finalize, current_task, started,
  absorb, execute, run_graph,
}
use automated_software_engin.Tools.{row_ids}
use automated_software_engin.Runner.World.{Outside, World, LlmUsage, converse, check_budget}
use automated_software_engin.Runner.Executor.{
  loaded, begin_task, return_task, finish_task, settle, start, task_executor,
}
use automated_software_engin.Runner.Phases.{supervise}
use automated_software_engin.Runner.Contracts.{IsAlive, Post, converse-Grows}

-- What each call of the executor keeps of its world, the graph keeps.
module _ {W : Type 0} (executor : TaskState → W → Attempt × W) (P : W → Type 0)
    (kept : (t : TaskState) (w : W) → P w → P (executor t w).1) where
  abbrev Holds : Ending W → Type 0
  Holds (finished s w) = P w
  Holds (crashed w) = P w
  Holds (out_of_steps s w) = P w

  run_graph-none :
      (n : ℕ) (s : SupervisorState) (w : W)
      → current_task s ≡ none
      → run_graph executor (suc n) execute_node s w ≡ crashed w
  unfolding run_graph execute
  run_graph-none n s w h = ground (arith, h)

  run_graph-some :
      (n : ℕ) (s : SupervisorState) (w : W) (t : TaskState)
      → current_task s ≡ some t
      → run_graph executor (suc n) execute_node s w
        ≡ run_graph executor n schedule_node
            (absorb (started t) (executor (started t) w).0 s)
            (executor (started t) w).1
  unfolding run_graph execute
  run_graph-some n s w t h = ground (arith, h)

  run_graph-Holds :
      (n : ℕ) (node : Node) (s : SupervisorState) (w : W)
      → P w
      → Holds (run_graph executor n node s w)
  unfolding run_graph execute
  run_graph-Holds zero schedule_node s w p = p
  run_graph-Holds zero execute_node s w p = p
  run_graph-Holds zero finalize_node s w p = p
  run_graph-Holds zero end_node s w p = p
  run_graph-Holds (suc n) end_node s w p = p
  run_graph-Holds (suc n) finalize_node s w p = run_graph-Holds n end_node (finalize s) w p
  run_graph-Holds (suc n) schedule_node s w p =
      run_graph-Holds n (after_schedule (schedule s)) (schedule s) w p
  run_graph-Holds (suc n) execute_node s w p = elim (Option-cases (current_task s)) [
    | inl none_there ↦ subst Holds (sym (run_graph-none n s w none_there)) p
    | inr (t, found) ↦ subst Holds (sym (run_graph-some n s w t found)) (
        run_graph-Holds n schedule_node (absorb (started t) (executor (started t) w).0 s)
          (executor (started t) w).1 (kept (started t) w p))
  ]

IsAlive-return_task :
    (t : TaskState) (u : LlmUsage) (e : Exc) (db : Db) → IsAlive db → IsAlive (return_task t u e db)
IsAlive-return_task t u e db s = record {
  run = record s.run {
    total_input_tokens = s.run.total_input_tokens + u.input_tokens;
    total_output_tokens = s.run.total_output_tokens + u.output_tokens;
    total_cost_usd = s.run.total_cost_usd + u.cost_usd;
  };
  found = ground (arith, s.found);
}

IsAlive-finish_task :
    (t : TaskState) (u : LlmUsage) (result : Text) (db : Db)
    → IsAlive db
    → IsAlive (finish_task t u result db)
IsAlive-finish_task t u result db s = record {
  run = record s.run {
    total_input_tokens = s.run.total_input_tokens + u.input_tokens;
    total_output_tokens = s.run.total_output_tokens + u.output_tokens;
    total_cost_usd = s.run.total_cost_usd + u.cost_usd;
  };
  found = ground (arith, s.found);
}

module _ {E : Type 0} (out : Outside E) where
  abbrev pub Alive : World E → Type 0
  Alive w = IsAlive w.db

  Alive-settled :
      (t : TaskState) (u : LlmUsage) (reply : Reply Text) (w : World E) (o : Option AgentRun)
      → loaded t.id w.db ≡ o
      → Alive w
      → Alive (settle t u reply w).1
  unfolding settle
  Alive-settled t u reply w none h s = rw (h, settle) s
  Alive-settled t u (ok result) w (some run) h s =
      rw (h, settle) (IsAlive-finish_task t u result w.db s)
  Alive-settled t u (raise e) w (some run) h s = rw (h, settle) (IsAlive-return_task t u e w.db s)

  Alive-started :
      (request : Text) (t : TaskState) (run : AgentRun) (w : World E) (o : Option Exc)
      → check_budget run ≡ o
      → Alive w
      → Alive (start out request t run w).1
  unfolding start
  Alive-started request t run w (some e) h s = rw (h, start) s
  Alive-started request t run w none h s =
      let begun = record w { db = begin_task t w.db } in
      let after = converse t.role (some t.id) (out.execute_task t request) begun in
      let g = converse-Grows t.role (some t.id) (out.execute_task t request) begun in
      rw (h, start)
        (Alive-settled t after.0.0 after.0.1 after.1 (loaded t.id after.1.db) refl
          (record { run = s.run; found = g.same_run ∙ s.found }))

  Alive-task_executor :
      (request : Text) (t : TaskState) (w : World E)
      → Alive w
      → Alive (task_executor out request t w).1
  unfolding task_executor
  Alive-task_executor request t w s = go (loaded t.id w.db) refl
    where
      go : (o : Option AgentRun) → loaded t.id w.db ≡ o → Alive (task_executor out request t w).1
      go none h = rw (h, task_executor) s
      go (some run) h =
          rw (h, task_executor) (Alive-started request t run w (check_budget run) refl s)

  pub Post-supervise :
      (request : Text) (w : World E) → Alive w → Post (λ _. Alive) Alive (supervise out request w)
  unfolding supervise
  Post-supervise request w s =
      go (run_graph (task_executor out request) out.graph_steps schedule_node board known) refl (
        run_graph-Holds (task_executor out request) Alive (Alive-task_executor request)
          out.graph_steps schedule_node board known (record { run = s.run; found = s.found }))
    where
      board : SupervisorState
      board = record {
        tasks = map to_task_state (by_sequence w.db.tasks);
        current_task_id = none;
        failure = none;
      }

      known : World E
      known = record w { known_ids = row_ids w.db.tasks }

      go :
          (e : Ending (World E))
          → run_graph (task_executor out request) out.graph_steps schedule_node board known ≡ e
          → Holds (task_executor out request) Alive (Alive-task_executor request) e
          → Post (λ _. Alive) Alive (supervise out request w)
      go (finished f v) h p = rw (h, supervise) p
      go (crashed v) h p = rw (h, supervise) p
      go (out_of_steps f v) h p = rw (h, supervise) p
