-- ===== src/Graph/Closure.antt =====
-- The query ends, and finds exactly the nodes that a walk leads to.
use workforce_platform.Base.{
  ◌↔◌, ◌⊎◌, ℕ, zero, suc, ◌+◌, ◌≤◌, ◌<◌, true, false, not, ◌&&◌, ◌||◌, some, List, [], ◌∷◌, ◌++◌,
  ◌==◌, ◌≡◌, refl, subst, ◌↔◌, ◌⊎◌, inl, inr, arith, if◌then◌else◌, Bool-cases, ==-refl,
}
use workforce_platform.Base.Rows.{length}
use workforce_platform.Graph.{Edges, mem, has_edge, new_parents, closure, reach, Walk, one, more}

pub mem-append : (a : ℕ) (xs ys : List ℕ) → mem a (xs ++ ys) ≡ (mem a xs || mem a ys)
unfolding mem
mem-append a [] ys = refl
mem-append a (x ∷ xs) ys = ground (arith, mem-append a xs ys)

-- A parent is new exactly if an edge from the last round leads to it and it was not listed.
new_parents_sound :
    (es : Edges) (working result : List ℕ) (v : ℕ)
    → mem v (new_parents es working result) ≡ true
    → (mem v result ≡ false) × (u : ℕ) × (mem u working ≡ true) × (has_edge es u v ≡ true)
unfolding new_parents mem has_edge
new_parents_sound [] working result v h = cc
new_parents_sound ((c, p) ∷ es) working result v h =
    let rest = new_parents es working result in
    elim (Bool-cases (p == v && (mem c working && (not (mem p result) && not (mem p rest))))) [
      | inl here ↦ (ground arith, c, ground arith, ground arith)
      | inr other ↦
          let (fresh, u, listed, edge) = new_parents_sound es working result v (ground arith) in
          (fresh, u, listed, ground arith)
    ]

new_parents_complete :
    (es : Edges) (working result : List ℕ) (u v : ℕ)
    → mem u working ≡ true
    → has_edge es u v ≡ true
    → (mem v result ≡ true) ⊎ (mem v (new_parents es working result) ≡ true)
unfolding new_parents mem has_edge
new_parents_complete [] working result u v m e = cc
new_parents_complete ((c, p) ∷ es) working result u v m e =
    ground (arith, new_parents_complete es working result u v m)

-- The edges whose parent is not listed yet: the measure of the rounds.
unlisted : Edges → List ℕ → ℕ
unlisted [] result = 0
unlisted ((c, p) ∷ es) result =
    if mem p result then unlisted es result else suc (unlisted es result)

unlisted-le : (es : Edges) (result : List ℕ) → unlisted es result ≤ length es
unfolding unlisted
unlisted-le [] result = omega arith
unlisted-le ((c, p) ∷ es) result = ground (arith, unlisted-le es result)

unlisted_mono :
    (es : Edges) (new result : List ℕ) → unlisted es (new ++ result) ≤ unlisted es result
unfolding unlisted
unlisted_mono [] new result = omega arith
unlisted_mono ((c, p) ∷ es) new result =
    ground (arith, unlisted_mono es new result, mem-append p new result)

unlisted_falls :
    (es : Edges) (new result : List ℕ) (u v : ℕ)
    → has_edge es u v ≡ true
    → mem v new ≡ true
    → mem v result ≡ false
    → unlisted es (new ++ result) < unlisted es result
unfolding unlisted has_edge
unlisted_falls [] new result u v e m l = cc
unlisted_falls ((c, p) ∷ es) new result u v e m l =
    ground (
      arith,
      unlisted_falls es new result u v,
      unlisted_mono es new result,
      mem-append p new result,
    )

-- What every round keeps: the listed nodes are reached from `src`, the last round's are listed, and
-- each edge out of a listed node leads to a listed one or waits in the last round.
record Inv (es : Edges) (src : ℕ) (working result : List ℕ) : Type 0 where
  listed : (v : ℕ) → mem v working ≡ true → mem v result ≡ true
  sound : (v : ℕ) → mem v result ≡ true → Walk es src v
  first : (v : ℕ) → has_edge es src v ≡ true → mem v result ≡ true
  closed :
      (u v : ℕ)
      → mem u result ≡ true
      → has_edge es u v ≡ true
      → (mem u working ≡ true) ⊎ (mem v result ≡ true)

module _ (es : Edges) (src : ℕ) where
  Inv-round :
      (working result : List ℕ)
      → Inv es src working result
      → let new = new_parents es working result in Inv es src new (new ++ result)
  Inv-round working result i =
      let new = new_parents es working result in
      let in_next = λ (v : ℕ). mem-append v new result in
      record {
        listed = λ v m. ground (arith, in_next v);
        sound = λ v m. elim (Bool-cases (mem v new)) [
          | inl fresh ↦
              let (_, u, w, e) = new_parents_sound es working result v fresh in
              more (i.sound u (i.listed u w)) e
          | inr old ↦ i.sound v (ground (arith, in_next v))
        ];
        first = λ v e. ground (arith, in_next v, i.first v);
        closed = λ u v m e.
            ground (
              arith,
              in_next u,
              in_next v,
              i.closed u v,
              new_parents_complete es working result u v,
            );
      }

  Inv-start : let first = new_parents es (src ∷ []) [] in Inv es src first first
  unfolding mem
  Inv-start = record {
    listed = λ v m. m;
    sound = λ v m.
        let (_, u, w, e) = new_parents_sound es (src ∷ []) [] v m in
        one (subst (λ k. has_edge es k v ≡ true) (ground arith) e);
    first = λ v e. ground (arith, new_parents_complete es (src ∷ []) [] src v, ==-refl src);
    closed = λ u v m e. inl m;
  }

  closure-Inv :
      (fuel : ℕ) (working result r : List ℕ)
      → Inv es src working result
      → closure es fuel working result ≡ some r
      → Inv es src [] r
  unfolding closure
  closure-Inv zero working result r i e = cc
  closure-Inv (suc fuel) [] result r i e = subst (Inv es src []) (ground arith) i
  closure-Inv (suc fuel) (w ∷ ws) result r i e =
      let new = new_parents es (w ∷ ws) result in
      closure-Inv fuel new (new ++ result) r (Inv-round (w ∷ ws) result i) e

  closed_lem : (r : List ℕ) (v : ℕ) → Inv es src [] r → Walk es src v → mem v r ≡ true
  unfolding mem
  closed_lem r v i (one e) = i.first v e
  closed_lem r v i (more {v = m} w e) = ground (arith, i.closed m v, closed_lem r m i w)

  -- What the query returns has `v` in it exactly if a walk of one edge or more leads there.
  pub reach-Walk : (r : List ℕ) (v : ℕ) → reach es src ≡ some r → Walk es src v ↔ (mem v r ≡ true)
  unfolding reach
  reach-Walk r v e =
      let i = closure-Inv (length es + 2) _ _ r Inv-start e in (closed_lem r v i, i.sound v)

  closure_done : (fuel : ℕ) (result : List ℕ) → 0 < fuel → closure es fuel [] result ≡ some result
  unfolding closure
  closure_done zero result h = absurd (omega arith)
  closure_done (suc fuel) result h = refl

  round_ends :
      (fuel : ℕ) (working result new : List ℕ)
      → ((rs : List ℕ)
          → unlisted es rs + 1 < fuel
          → (r : List ℕ) × (closure es fuel new rs ≡ some r))
      → unlisted es result < fuel
      → new_parents es working result ≡ new
      → (r : List ℕ) × (closure es fuel new (new ++ result) ≡ some r)
  unfolding mem
  round_ends fuel working result [] again h e = (result, closure_done fuel result (omega arith))
  round_ends fuel working result (x ∷ xs) again h e =
      let (fresh, u, _, edge) =
        new_parents_sound es working result x (rw e (ground (arith, ==-refl x))) in
      again ((x ∷ xs) ++ result) (
        omega (arith, unlisted_falls es (x ∷ xs) result u x edge (ground (arith, ==-refl x)) fresh))

  closure_ends :
      (fuel : ℕ) (working result : List ℕ)
      → unlisted es result + 1 < fuel
      → (r : List ℕ) × (closure es fuel working result ≡ some r)
  unfolding closure
  closure_ends zero working result h = absurd (omega arith)
  closure_ends (suc fuel) [] result h = (result, refl)
  closure_ends (suc fuel) (w ∷ ws) result h =
      let new = new_parents es (w ∷ ws) result in
      round_ends fuel (w ∷ ws) result new (closure_ends fuel new) (omega arith) refl

  -- The fuel is enough: the query always returns.
  pub reach_returns : (r : List ℕ) × (reach es src ≡ some r)
  unfolding reach
  reach_returns =
      closure_ends (length es + 2) _ _
        (omega (arith, unlisted-le es (new_parents es (src ∷ []) [])))
