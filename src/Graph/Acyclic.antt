-- ===== src/Graph/Acyclic.antt =====
-- One more edge makes a cycle exactly if the old edges lead back from its parent to its child.
use workforce_platform.Base.{
  ℕ, true, false, ◌&&◌, ◌||◌, [], ◌∷◌, ◌++◌, ◌==◌, ◌≡◌, refl, sym, subst, ◌⊎◌, inl, inr, arith,
  Bool-cases, ==-refl, ◌∙◌, ◌≢◌,
}
use workforce_platform.Graph.{Edges, has_edge, Walk, one, more, IsAcyclic}

pub has_edge-append :
    (es : Edges) (c p u v : ℕ)
    → has_edge (es ++ (c, p) ∷ []) u v ≡ (has_edge es u v || (c == u && p == v))
unfolding has_edge
has_edge-append [] c p u v = ground arith
has_edge-append ((a, b) ∷ es) c p u v = ground (arith, has_edge-append es c p u v)

-- A walk, or none at all.
abbrev WalkOrStay : Edges → ℕ → ℕ → Type 0
WalkOrStay es u v = (u ≡ v) ⊎ Walk es u v

Walk-on : {es : Edges} {u v w : ℕ} → WalkOrStay es u v → has_edge es v w ≡ true → Walk es u w
Walk-on {es} {w = w} (inl e) h = one (subst (λ k. has_edge es k w ≡ true) (sym e) h)
Walk-on (inr r) h = more r h

Walk-join : {es : Edges} {u v w : ℕ} → Walk es u v → Walk es v w → Walk es u w
Walk-join r (one h) = more r h
Walk-join r (more s h) = more (Walk-join r s) h

pub no-Walk : {u v : ℕ} → ¬ Walk [] u v
unfolding has_edge
no-Walk (one h) = cc
no-Walk (more r h) = cc

pub nil-IsAcyclic : IsAcyclic []
nil-IsAcyclic v = no-Walk

module _ (es : Edges) (c p : ℕ) where
  abbrev added : Edges
  added = es ++ (c, p) ∷ []

  -- A walk over the new edges is one over the old, or comes to `c` and goes on from `p`.
  abbrev Splits : ℕ → ℕ → Type 0
  Splits u v = Walk es u v ⊎ (WalkOrStay es u c × WalkOrStay es p v)

  last_step : (u v w : ℕ) → Splits u v ⊎ (u ≡ v) → has_edge added v w ≡ true → Splits u w
  last_step u v w s h = elim (Bool-cases (has_edge es v w)) [
    | inl old ↦ elim s [
      | inl (inl r) ↦ inl (more r old)
      | inl (inr (to_c, from_p)) ↦ inr (to_c, inr (Walk-on from_p old))
      | inr here ↦ inl (Walk-on (inl here) old)
    ]
    | inr new ↦
        let (from_c, to_p) = the_edge new in
        inr (
          elim s [
            | inl (inl r) ↦ inr (subst (Walk es u) from_c r)
            | inl (inr (to_c, _)) ↦ to_c
            | inr here ↦ inl (here ∙ from_c)
          ],
          inl (sym to_p),
        )
  ]
    where
      the_edge : has_edge es v w ≡ false → (v ≡ c) × (w ≡ p)
      the_edge new = ground (arith, has_edge-append es c p v w)

  splits : {u v : ℕ} → Walk added u v → Splits u v
  splits {u} (one {v} h) = last_step u u v (inr refl) h
  splits {u} (more {v} {w} r h) = last_step u v w (inl (splits r)) h

  -- Without a walk back from `p` to `c`, the new edge keeps the graph acyclic.
  pub IsAcyclic-added : c ≢ p → ¬ Walk es p c → IsAcyclic es → IsAcyclic added
  IsAcyclic-added differ no_way acyclic v r = elim (splits r) [
    | inl old ↦ acyclic v old
    | inr (inl at_c, inl at_p) ↦ differ (sym at_c ∙ sym at_p)
    | inr (inl at_c, inr from_p) ↦ no_way (subst (Walk es p) at_c from_p)
    | inr (inr to_c, inl at_p) ↦ no_way (subst (λ k. Walk es k c) (sym at_p) to_c)
    | inr (inr to_c, inr from_p) ↦ no_way (Walk-join from_p to_c)
  ]

  Walk-grows : {u v : ℕ} → Walk es u v → Walk added u v
  Walk-grows {u} (one {v} h) = one (ground (arith, has_edge-append es c p u v))
  Walk-grows (more {v} {w} r h) = more (Walk-grows r) (ground (arith, has_edge-append es c p v w))

  -- With one, it closes a cycle.
  pub cycle_added : Walk es p c → Walk added c c
  cycle_added r = Walk-join (one new) (Walk-grows r)
    where
      new : has_edge added c p ≡ true
      new = ground (arith, has_edge-append es c p c p, ==-refl c, ==-refl p)
