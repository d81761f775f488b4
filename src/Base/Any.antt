-- ===== src/Base/Any.antt =====
-- A row with a property, and the query that looks for one.
use mathlib.Core.Path.{◌≡◌, refl}
use mathlib.Core.Logic.{◌⊎◌, inl, inr}
use mathlib.Core.Bool.{Bool, true}
use mathlib.Core.List.{List, [], ◌∷◌}
use native.Mathlib.Omega.{arith}
use workforce_platform.Base.Tests.{Bool-cases}
use workforce_platform.Base.Rows.{exists_where}

-- A row of the list that has a property.
abbrev pub Any : {A : Type 0} → (A → Type 0) → List A → Type 0
Any P [] = ⊥
Any P (x ∷ xs) = P x ⊎ Any P xs

module _ {A : Type 0} (q : A → Bool) (P : A → Type 0) where
  pub Any-exists :
      ((x : A) → q x ≡ true → P x) → (xs : List A) → exists_where q xs ≡ true → Any P xs
  unfolding exists_where
  Any-exists k [] e = absurd (ground (arith, e))
  Any-exists k (x ∷ xs) e = elim (Bool-cases (q x)) [
    | inl hit ↦ inl (k x hit)
    | inr miss ↦ inr (Any-exists k xs (ground (arith, miss, e)))
  ]

  pub exists-Any :
      ((x : A) → P x → q x ≡ true) → (xs : List A) → Any P xs → exists_where q xs ≡ true
  unfolding exists_where
  exists-Any k [] h = absurd h
  exists-Any k (x ∷ xs) (inl p) = rw (k x p) refl
  exists-Any k (x ∷ xs) (inr h) = ground (arith, exists-Any k xs h)
