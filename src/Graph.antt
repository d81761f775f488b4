-- ===== src/Graph.antt =====
-- The recursive query by which internal/store/store.go (AddDependency) and
-- internal/store/milestones.go (AddMilestoneDependency) look for a cycle:
--   with recursive reach(id) as (select parent_id ... where task_id = src
--     union select d.parent_id from ... d join reach r on d.task_id = r.id)
-- Each round takes the parents of the rows that the last round added and keeps those that are new.
pub mod Closure
pub mod Acyclic
pub mod Query
use workforce_platform.Base.{
  ℕ, zero, suc, ◌+◌, Bool, true, false, not, ◌&&◌, ◌||◌, Option, none, some, List, [], ◌∷◌, ◌++◌,
  ◌==◌, ◌≡◌, if◌then◌else◌,
}
use workforce_platform.Base.Rows.{length}

-- A child and its parent.
abbrev pub Edges : Type 0
Edges = List (ℕ × ℕ)

unfoldable pub mem : ℕ → List ℕ → Bool
mem a [] = false
mem a (x ∷ xs) = a == x || mem a xs

unfoldable pub has_edge : Edges → ℕ → ℕ → Bool
has_edge [] u v = false
has_edge ((c, p) ∷ es) u v = (c == u && p == v) || has_edge es u v

-- The parents of `working` that are not yet in `result`, each once.
unfoldable pub new_parents : Edges → List ℕ → List ℕ → List ℕ
new_parents [] working result = []
new_parents ((c, p) ∷ es) working result =
    let rest = new_parents es working result in
    if mem c working && (not (mem p result) && not (mem p rest)) then p ∷ rest else rest

-- The rounds of the recursive query; `none` if the fuel runs out.
unfoldable pub closure : Edges → ℕ → List ℕ → List ℕ → Option (List ℕ)
closure es zero working result = none
closure es (suc fuel) [] result = some result
closure es (suc fuel) (w ∷ ws) result =
    let new = new_parents es (w ∷ ws) result in closure es fuel new (new ++ result)

unfoldable pub reach : Edges → ℕ → Option (List ℕ)
reach es src = let first = new_parents es (src ∷ []) [] in closure es (length es + 2) first first

-- A walk of one edge or more.
pub data Walk (es : Edges) (u : ℕ) : ℕ → Type 0 where
  one : {v : ℕ} → has_edge es u v ≡ true → Walk es u v
  more : {v w : ℕ} → Walk es u v → has_edge es v w ≡ true → Walk es u w

abbrev pub IsAcyclic : Edges → Type 0
IsAcyclic es = (v : ℕ) → ¬ Walk es v v
