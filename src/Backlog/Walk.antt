-- ===== src/Backlog/Walk.antt =====
-- `_reject_dependency_cycles` of apps/engine/src/engine/api/work_items.py: the walk along the
-- dependencies that looks for a cycle.
use automated_software_engin.Prelude.{
  ℕ, zero, suc, ◌+◌, ◌≡◌, subst, inl, inr, true, false, ◌||◌, List, [], ◌∷◌, arith, elem, length,
  ◌==◌, ==_refl, if◌then◌else◌, Bool-cases,
}

pub data Verdict : Type 0 where
  closes_cycle no_cycle out_of_fuel : Verdict

-- The stack of the walk, its top first: `extend` pushes each element.
abbrev pub extend : List ℕ → List ℕ → List ℕ
extend stack [] = stack
extend stack (d ∷ ds) = extend (d ∷ stack) ds

module _ (graph : ℕ → List ℕ) (this_id : ℕ) where
  -- The `while` loop, on fuel.
  unfoldable pub walk : (fuel : ℕ) → (stack seen : List ℕ) → Verdict
  walk fuel [] seen = no_cycle
  walk zero (node ∷ stack) seen = out_of_fuel
  walk (suc fuel) (node ∷ stack) seen =
      let again = walk fuel stack seen in
      let onward = walk fuel (extend stack (graph node)) (node ∷ seen) in
      if node == this_id then closes_cycle else if elem node seen then again else onward

-- A way along one dependency or more.
pub data Leads (graph : ℕ → List ℕ) : ℕ → ℕ → Type 0 where
  edge : {u v : ℕ} → elem v (graph u) ≡ true → Leads graph u v
  step : {u v : ℕ} (w : ℕ) → elem w (graph u) ≡ true → Leads graph w v → Leads graph u v

pub elem-extend : (j : ℕ) (stack ds : List ℕ) → elem j (extend stack ds) ≡ elem j stack || elem j ds
elem-extend j stack [] = ground arith
elem-extend j stack (d ∷ ds) = ground (arith, elem-extend j (d ∷ stack) ds)

pub length-extend : (stack ds : List ℕ) → length (extend stack ds) ≡ length stack + length ds
length-extend stack [] = omega arith
length-extend stack (d ∷ ds) = omega (arith, length-extend (d ∷ stack) ds)

module _ (graph : ℕ → List ℕ) (this_id : ℕ) where
  -- A set of nodes that the walk has looked through: each is another node, and what it depends on
  -- has been seen or waits on the stack.
  pub record IsExplored (seen stack : List ℕ) : Type 0 where
    pub others : (u : ℕ) → elem u seen ≡ true → u == this_id ≡ false
    pub onward :
        (u v : ℕ)
        → elem u seen ≡ true
        → elem v (graph u) ≡ true
        → elem v seen || elem v stack ≡ true

  -- A set that holds the stack and is closed under dependencies, without the node looked for.
  pub record IsClosed (stack : List ℕ) : Type 0 where
    pub nodes : List ℕ
    pub holds : (u : ℕ) → elem u stack ≡ true → elem u nodes ≡ true
    pub explored : IsExplored nodes []

  IsExplored-known :
      (node : ℕ) (stack seen : List ℕ)
      → elem node seen ≡ true
      → IsExplored seen (node ∷ stack)
      → IsExplored seen stack
  IsExplored-known node stack seen known x = record {
    others = x.others;
    onward = λ u v h d. ground (arith, x.onward u v h d, known);
  }

  IsExplored-new :
      (node : ℕ) (stack seen : List ℕ)
      → node == this_id ≡ false
      → IsExplored seen (node ∷ stack)
      → IsExplored (node ∷ seen) (extend stack (graph node))
  IsExplored-new node stack seen other x = record {
    others = λ u h. ground (arith, x.others u, h, other);
    onward = λ u v h d. ground (arith, x.onward u v, h, d, elem-extend v stack (graph node));
  }

  pub walk-IsClosed :
      (fuel : ℕ) (stack seen : List ℕ)
      → walk graph this_id fuel stack seen ≡ no_cycle
      → IsExplored seen stack
      → (c : IsClosed stack) × ((u : ℕ) → elem u seen ≡ true → elem u c.nodes ≡ true)
  unfolding walk
  walk-IsClosed fuel [] seen e x =
      (record { nodes = seen; holds = λ u h. cc; explored = x }, λ u h. h)
  walk-IsClosed zero (node ∷ stack) seen e x = cc
  walk-IsClosed (suc fuel) (node ∷ stack) seen e x = elim (Bool-cases (node == this_id)) [
    | inl found ↦ absurd (ground (arith, found, e))
    | inr other ↦ elim (Bool-cases (elem node seen)) [
      | inl known ↦
          let (c, wider) =
            walk-IsClosed fuel stack seen (ground (arith, other, known, e))
              (IsExplored-known node stack seen known x) in
          (
            record {
              nodes = c.nodes;
              holds = λ u h. ground (arith, c.holds u, wider u, known, h);
              explored = c.explored;
            },
            wider,
          )
      | inr new ↦
          let (c, wider) =
            walk-IsClosed fuel (extend stack (graph node)) (node ∷ seen)
              (ground (arith, other, new, e)) (IsExplored-new node stack seen other x) in
          (
            record {
              nodes = c.nodes;
              holds =
                  λ u h. ground (arith, c.holds u, wider u, elem-extend u stack (graph node), h);
              explored = c.explored;
            },
            (λ u h. wider u (ground (arith, h))),
          )
    ]
  ]

  -- No way leads out of a closed set.
  Leads-closed :
      (stack : List ℕ) (c : IsClosed stack) (u v : ℕ)
      → elem u c.nodes ≡ true
      → Leads graph u v
      → v == this_id ≡ false
  Leads-closed stack c u v h (edge d) =
      c.explored.others v (ground (arith, c.explored.onward u v h d))
  Leads-closed stack c u v h (step w d p) =
      Leads-closed stack c w v (ground (arith, c.explored.onward u w h d)) p

  -- Where the walk finds no cycle, no way leads from the stack to the node.
  pub walk-no_cycle :
      (fuel : ℕ) (stack : List ℕ)
      → walk graph this_id fuel stack [] ≡ no_cycle
      → (d : ℕ) → elem d stack ≡ true
      → (d == this_id ≡ false) × ¬ Leads graph d this_id
  walk-no_cycle fuel stack e d h =
      let start : IsExplored [] stack = record { others = λ u k. cc; onward = λ u v k j. cc } in
      let c = (walk-IsClosed fuel stack [] e start).0 in
      (
        c.explored.others d (c.holds d h),
        (λ p.
            let away = Leads-closed stack c d this_id (c.holds d h) p in
            cc (==_refl this_id, away)),
      )

  -- Where it refuses, a way does: what holds of the stack and along the dependencies holds of the
  -- node.
  pub walk-closes_cycle :
      (P : ℕ → Type 0)
      → ((u v : ℕ) → P u → elem v (graph u) ≡ true → P v)
      → (fuel : ℕ) (stack seen : List ℕ) → ((u : ℕ) → elem u stack ≡ true → P u)
      → walk graph this_id fuel stack seen ≡ closes_cycle
      → P this_id
  unfolding walk
  walk-closes_cycle P along fuel [] seen from e = cc
  walk-closes_cycle P along zero (node ∷ stack) seen from e = cc
  walk-closes_cycle P along (suc fuel) (node ∷ stack) seen from e =
      elim (Bool-cases (node == this_id)) [
        | inl found ↦ subst P (same found) (from node (ground (arith, ==_refl node)))
        | inr other ↦ elim (Bool-cases (elem node seen)) [
          | inl known ↦
              walk-closes_cycle P along fuel stack seen (λ u h. from u (ground (arith, h)))
                (ground (arith, other, known, e))
          | inr new ↦
              walk-closes_cycle P along fuel (extend stack (graph node)) (node ∷ seen) onward
                (ground (arith, other, new, e))
        ]
      ]
    where
      same : node == this_id ≡ true → node ≡ this_id
      same found = ground (arith, found)

      onward : (u : ℕ) → elem u (extend stack (graph node)) ≡ true → P u
      onward u h = elim (Bool-cases (elem u stack)) [
        | inl waiting ↦ from u (ground (arith, waiting))
        | inr pushed ↦
            along node u (from node (ground (arith, ==_refl node)))
              (ground (arith, h, pushed, elem-extend u stack (graph node)))
      ]
