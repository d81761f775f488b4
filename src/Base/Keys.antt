-- ===== src/Base/Keys.antt =====
-- Tables with a unique primary key: one row of it is read or written at a time.
use Prim.Native.Nat.{ℕ, ◌+◌}
use mathlib.Core.Path.{◌≡◌, refl, sym, subst, ap, ◌∙◌}
use mathlib.Core.Logic.{◌≢◌, inl, inr}
use mathlib.Core.Bool.{Bool, true, false, ◌&&◌}
use mathlib.Core.Option
use mathlib.Core.Option.{none, some}
use mathlib.Core.List.{List, [], ◌∷◌, map}
use native.Mathlib.Omega.{arith}
use workforce_platform.Base.Tests.{◌==◌, if◌then◌else◌, Bool-cases}
use workforce_platform.Base.Rows.{
  All, find_where, find_row, set_row, count_where, exists_where, IsKeyed, set_row_missing,
  update_if, find_row-map, find_row-key,
}

module _ {ℓ} {A : Type ℓ} (key : A → ℕ) where
  -- An update by key writes one row only, so it may be described by its effect on that row.
  pub set_row_at :
      (k : ℕ) (f g : A → A) (xs : List A) (x : A)
      → IsKeyed key xs
      → find_row key k xs ≡ some x
      → f x ≡ g x
      → set_row key k f xs ≡ set_row key k g xs
  unfolding find_where
  set_row_at k f g [] x u e same = refl
  set_row_at k f g (y ∷ xs) x u e same =
      ground
        (arith, set_row_at k f g xs x u.1, set_row_missing key k f xs, set_row_missing key k g xs)

  -- A count changes by what the update does to that row.
  pub count_where-set_row :
      (p : A → Bool) (k : ℕ) (f : A → A) (xs : List A) (x : A)
      → IsKeyed key xs
      → find_row key k xs ≡ some x
      → count_where p (set_row key k f xs) + (if p x then 1 else 0)
        ≡ count_where p xs + (if p (f x) then 1 else 0)
  unfolding find_where count_where
  count_where-set_row p k f [] x u e = ground arith
  count_where-set_row p k f (y ∷ xs) x u e =
      ground (arith, count_where-set_row p k f xs x u.1, set_row_missing key k f xs)

  pub find_where_missing :
      (k : ℕ) (q : A → Bool) (xs : List A)
      → find_row key k xs ≡ none
      → find_where (λ x. key x == k && q x) xs ≡ none
  unfolding find_where
  find_where_missing k q [] e = refl
  find_where_missing k q (y ∷ xs) e = ground (arith, find_where_missing k q xs)

  -- A query by key and a further condition finds the row of that key.
  pub find_where_row :
      (k : ℕ) (q : A → Bool) (xs : List A) (x : A)
      → IsKeyed key xs
      → find_where (λ x. key x == k && q x) xs ≡ some x
      → (find_row key k xs ≡ some x) × (q x ≡ true)
  unfolding find_where
  find_where_row k q [] x u e = ground arith
  find_where_row k q (y ∷ xs) x u e =
      ground (arith, find_where_row k q xs x u.1, find_where_missing k q xs)

  -- The other way round: the row of the key, if it meets the condition.
  pub find_where_key :
      (k : ℕ) (q : A → Bool) (xs : List A) (x : A)
      → IsKeyed key xs
      → find_row key k xs ≡ some x
      → find_where (λ x. key x == k && q x) xs ≡ (if q x then some x else none)
  unfolding find_where
  find_where_key k q [] x u e = ground arith
  find_where_key k q (y ∷ xs) x u e =
      ground (arith, find_where_key k q xs x u.1, find_where_missing k q xs)

  exists_where_missing :
      (k : ℕ) (q : A → Bool) (xs : List A)
      → find_row key k xs ≡ none
      → exists_where (λ x. key x == k && q x) xs ≡ false
  unfolding find_where exists_where
  exists_where_missing k q [] e = refl
  exists_where_missing k q (y ∷ xs) e = ground (arith, exists_where_missing k q xs)

  pub exists_where_key :
      (k : ℕ) (q : A → Bool) (xs : List A) (x : A)
      → IsKeyed key xs
      → find_row key k xs ≡ some x
      → exists_where (λ x. key x == k && q x) xs ≡ q x
  unfolding find_where exists_where
  exists_where_key k q [] x u e = ground arith
  exists_where_key k q (y ∷ xs) x u e =
      ground (arith, exists_where_key k q xs x u.1, exists_where_missing k q xs)

module _ {ℓ κ} {A : Type ℓ} (key : A → ℕ) (R : A → A → Type κ) where
  -- An update by key, seen through the key: the row of the key changes, the others do not.
  pub set_row_related :
      (k : ℕ) (f : A → A) (xs : List A) (x : A)
      → ((y : A) → R y y)
      → ((y : A) → key (f y) ≡ key y)
      → find_row key k xs ≡ some x
      → R x (f x)
      → (n : ℕ) (y : A) → find_row key n xs ≡ some y
      → (z : A) × (find_row key n (set_row key k f xs) ≡ some z) × R y z
  set_row_related k f xs x R_refl keeps found related n y at = (
    change y,
    find_row-map key n change keeps' xs ∙ ap (Option.map change) at,
    by_test (key y == k) refl,
  )
    where
      change : A → A
      change = update_if (λ y. key y == k) f

      keeps' : (y : A) → key (change y) ≡ key y
      keeps' y = ground (arith, keeps y)

      is_x : (key y == k) ≡ true → x ≡ y
      is_x hit = ground (arith, found, at, find_row-key key n xs y at)

      by_test : (b : Bool) → (key y == k) ≡ b → R y (if b then f y else y)
      by_test true hit = subst (λ z. R z (f z)) (is_x hit) related
      by_test false miss = R_refl y

module _ {ℓ κ μ} {A : Type ℓ} (key : A → ℕ) (P : A → Type κ) (Q : A → Type μ) where
  -- A change of every row, by one argument for the row of the key and another for the rest.
  pub All-row :
      (k : ℕ) (g : A → A) (xs : List A) (x : A)
      → IsKeyed key xs
      → find_row key k xs ≡ some x
      → ((y : A) → (key y == k) ≡ false → P y → Q (g y))
      → (P x → Q (g x))
      → All P xs
      → All Q (map g xs)
  unfolding find_where
  All-row k g [] x u e others this h = tt
  All-row k g (y ∷ xs) x u e others this h = elim (Bool-cases (key y == k)) [
    | inl hit ↦ (
      subst (λ z. P z → Q (g z)) (sym (at_head hit)) this h.0,
      All-missing xs (subst (λ n. find_row key n xs ≡ none) (at_key hit) u.0) h.1,
    )
    | inr miss ↦ (others y miss h.0, All-row k g xs x u.1 (ground arith) others this h.1)
  ]
    where
      at_key : (key y == k) ≡ true → key y ≡ k
      at_key hit = ground arith

      at_head : (key y == k) ≡ true → y ≡ x
      at_head hit = ground arith

      All-missing : (zs : List A) → find_row key k zs ≡ none → All P zs → All Q (map g zs)
      All-missing [] e h = tt
      All-missing (z ∷ zs) e h = (others z (ground arith) h.0, All-missing zs (ground arith) h.1)

-- An update by key leaves the rows of the other keys.
pub set_row_other {ℓ} :
    {A : Type ℓ} (key : A → ℕ) (i k : ℕ) (f : A → A) (xs : List A)
    → ((x : A) → key (f x) ≡ key x)
    → k ≢ i
    → find_row key k (set_row key i f xs) ≡ find_row key k xs
unfolding find_where
set_row_other key i k f [] keeps differ = refl
set_row_other key i k f (x ∷ xs) keeps differ =
    let rest = set_row_other key i k f xs keeps differ in
    elim (Bool-cases (key x == i)) [
      | inl here ↦
          let not_k : (key x == k) ≡ false = ground (arith, here, differ) in
          rw (here, keeps x, not_k, rest) refl
      | inr other ↦ rw (other, rest) refl
    ]
