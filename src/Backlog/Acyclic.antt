-- ===== src/Backlog/Acyclic.antt =====
-- New dependencies of one item, where none of them leads back to it, close no cycle.
use automated_software_engin.Prelude.{
  ℕ, ◌≡◌, refl, subst, ◌⊎◌, inl, inr, true, false, List, arith, elem, ◌==◌, ==_refl, Bool-cases,
}
use automated_software_engin.Backlog.Walk.{Leads, edge, step}

-- No item waits for itself, through any number of others.
abbrev pub IsAcyclic : (ℕ → List ℕ) → Type 0
IsAcyclic graph = (u : ℕ) → ¬ Leads graph u u

pub Leads-trans :
    {graph : ℕ → List ℕ} {u v w : ℕ} → Leads graph u v → Leads graph v w → Leads graph u w
Leads-trans (edge d) q = step _ d q
Leads-trans (step x d p) q = step x d (Leads-trans p q)

-- Two graphs with the same dependencies but at one node, and new dependencies there, none of which
-- is the node or leads to it.
module _ (before after : ℕ → List ℕ) (this_id : ℕ)
    (same : (u : ℕ) → u == this_id ≡ false → after u ≡ before u)
    (away : (d : ℕ)
      → elem d (after this_id) ≡ true
      → (d == this_id ≡ false) × ¬ Leads before d this_id) where
  -- A way from another node stays in the old graph, up to the node if it comes there.
  Leads-before :
      {u v : ℕ}
      → u == this_id ≡ false
      → Leads after u v
      → Leads before u v ⊎ (Leads before u this_id × Leads after this_id v)
  Leads-before {u} {v} other (edge d) = inl (edge (subst (λ ds. elem v ds ≡ true) (same u other) d))
  Leads-before {u} {v} other (step w d p) =
      let d' = subst (λ ds. elem w ds ≡ true) (same u other) d in
      elim (Bool-cases (w == this_id)) [
        | inl here ↦
            let at_this : w ≡ this_id = ground (arith, here) in
            inr (
              edge (subst (λ x. elem x (before u) ≡ true) at_this d'),
              subst (λ x. Leads after x v) at_this p,
            )
        | inr there ↦ elim (Leads-before there p) [
          | inl q ↦ inl (step w d' q)
          | inr (q, r) ↦ inr (step w d' q, r)
        ]
      ]

  -- No way leaves the node and comes to where a way back to it begins.
  never_back : {v : ℕ} → ((v ≡ this_id) ⊎ Leads before v this_id) → ¬ Leads after this_id v
  never_back {v} back (edge d) = elim back [
    | inl e ↦ cc (e, (away v d).0, ==_refl this_id)
    | inr q ↦ (away v d).1 q
  ]
  never_back {v} back (step w d p) = elim (Leads-before (away w d).0 p) [
    | inl q ↦ elim back [
      | inl e ↦ (away w d).1 (subst (Leads before w) e q)
      | inr r ↦ (away w d).1 (Leads-trans q r)
    ]
    | inr (q, _) ↦ (away w d).1 q
  ]

  pub IsAcyclic-after : IsAcyclic before → IsAcyclic after
  IsAcyclic-after acyclic u p = elim (Bool-cases (u == this_id)) [
    | inl here ↦
        let at_this : u ≡ this_id = ground (arith, here) in
        never_back (inl refl) (subst (λ x. Leads after x x) at_this p)
    | inr there ↦ elim (Leads-before there p) [
      | inl q ↦ acyclic u q
      | inr (q, r) ↦ never_back (inr q) r
    ]
  ]
