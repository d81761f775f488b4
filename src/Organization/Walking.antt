-- ===== src/Organization/Walking.antt =====
-- The walk of detectManagementCycle finds everyone above a person, as far up as it goes.
use workforce_platform.Base.{
  ℕ, zero, suc, true, List, [], ◌∷◌, leb, ◌≡◌, refl, sym, subst, arith, ==-refl, Bool-cases, inl,
  inr,
}
use workforce_platform.Graph.{Edges, mem, has_edge, Walk, one, more}
use workforce_platform.Organization.{next_level, in_chain}

-- The number of edges of a walk.
unfoldable pub steps : {es : Edges} {u v : ℕ} → Walk es u v → ℕ
steps (one h) = 1
steps (more r h) = suc (steps r)

-- The persons `n` levels above `level`.
unfoldable level_at : Edges → ℕ → List ℕ → List ℕ
level_at es zero level = level
level_at es (suc n) level = next_level es (level_at es n level)

mem-next_level :
    (es : Edges) (level : List ℕ) (c p : ℕ)
    → mem c level ≡ true
    → has_edge es c p ≡ true
    → mem p (next_level es level) ≡ true
unfolding has_edge next_level mem
mem-next_level [] level c p m h = cc
mem-next_level ((a, b) ∷ es) level c p m h = elim (Bool-cases (has_edge es c p)) [
  | inl old ↦ ground (arith, mem-next_level es level c p m old)
  | inr new ↦ ground (arith, h, new, m, ==-refl p)
]

module _ (es es' : Edges)
    (grows : (u v : ℕ) → has_edge es u v ≡ true → has_edge es' u v ≡ true) where
  mem-level_at :
      {u v : ℕ} (level : List ℕ) (r : Walk es u v)
      → mem u level ≡ true
      → mem v (level_at es' (steps r) level) ≡ true
  unfolding steps level_at
  mem-level_at {u} level (one {v} h) m = mem-next_level es' level u v m (grows u v h)
  mem-level_at level (more {v} {w} r h) m =
      mem-next_level es' (level_at es' (steps r) level) v w (mem-level_at level r m) (grows v w h)

level_at-next_level :
    (es : Edges) (n : ℕ) (level : List ℕ)
    → level_at es n (next_level es level) ≡ level_at es (suc n) level
unfolding level_at
level_at-next_level es zero level = refl
level_at-next_level es (suc n) level = rw (level_at-next_level es n level) refl

in_chain-level_at :
    (es : Edges) (n m : ℕ) (level : List ℕ) (v : ℕ)
    → leb (suc n) m ≡ true
    → mem v (level_at es (suc n) level) ≡ true
    → in_chain es m level v ≡ true
unfolding in_chain level_at
in_chain-level_at es n zero level v le h = ground arith
in_chain-level_at es zero (suc m) level v le h = rw h refl
in_chain-level_at es (suc n) (suc m) level v le h = ground (
  arith,
  in_chain-level_at es n m (next_level es level) v (ground (arith, le))
      (subst (λ l. mem v (next_level es l) ≡ true) (sym (level_at-next_level es n level)) h),
)

-- Whoever a walk of at most `n` edges leads up to from `u` is found, in a graph that has those edges.
pub in_chain-Walk :
    (es es' : Edges)
    → ((u v : ℕ) → has_edge es u v ≡ true → has_edge es' u v ≡ true)
    → {u v : ℕ} → (r : Walk es u v) (n : ℕ) → leb (steps r) n ≡ true
    → in_chain es' n (u ∷ []) v ≡ true
unfolding steps mem
in_chain-Walk es es' grows {u} (one h) n le =
    in_chain-level_at es' 0 n (u ∷ []) _ le
      (mem-level_at es es' grows (u ∷ []) (one h) (ground (arith, ==-refl u)))
in_chain-Walk es es' grows {u} (more r h) n le =
    in_chain-level_at es' (steps r) n (u ∷ []) _ le
      (mem-level_at es es' grows (u ∷ []) (more r h) (ground (arith, ==-refl u)))
