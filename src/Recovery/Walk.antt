-- ===== src/Recovery/Walk.antt =====
-- The rotating cursor of the sweep comes to every organization.
use workforce_platform.Base.{
  ℕ, zero, suc, ◌+◌, ◌<◌, ◌≤◌, false, List, [], ◌∷◌, ◌++◌, ◌==◌, ltb, ◌≡◌, refl, sym, ap, ◌∙◌,
  subst, inl, inr, arith, Bool-cases,
}
use workforce_platform.Base.Rows.{length, select_where}
use workforce_platform.Schema.{Ident}
use workforce_platform.Recovery.{take, limit_or, sweep_batch, orgs_after, last, next_cursor, sweeps}

-- Strictly ascending, and above a bound.
abbrev pub IsAscending : ℕ → List ℕ → Type 0
IsAscending c [] = Unit
IsAscending c (x ∷ xs) = (c < x) × IsAscending x xs

drop : ℕ → List ℕ → List ℕ
drop zero xs = xs
drop (suc n) [] = []
drop (suc n) (x ∷ xs) = drop n xs

take-drop : (n : ℕ) (xs : List ℕ) → take n xs ++ drop n xs ≡ xs
unfolding take drop
take-drop zero xs = refl
take-drop (suc n) [] = refl
take-drop (suc n) (x ∷ xs) = ap (λ ys. x ∷ ys) (take-drop n xs)

take_all : (n : ℕ) (xs : List ℕ) → length (take n xs) < n → take n xs ≡ xs
unfolding take
take_all zero xs h = ground arith
take_all (suc n) [] h = refl
take_all (suc n) (x ∷ xs) h = ap (λ ys. x ∷ ys) (take_all n xs (ground arith))

length-drop : (n : ℕ) (xs : List ℕ) → length (drop n xs) + length (take n xs) ≡ length xs
unfolding take drop
length-drop zero xs = ground arith
length-drop (suc n) [] = refl
length-drop (suc n) (x ∷ xs) = ground (arith, length-drop n xs)

length-take-le : (n : ℕ) (xs : List ℕ) → length (take n xs) ≤ n
unfolding take
length-take-le zero xs = ground arith
length-take-le (suc n) [] = ground arith
length-take-le (suc n) (x ∷ xs) = ground (arith, length-take-le n xs)

select_above : (c e : ℕ) (xs : List ℕ) → c ≤ e → IsAscending e xs → select_where (ltb c) xs ≡ xs
unfolding select_where
select_above c e [] h a = refl
select_above c e (x ∷ xs) h a =
    ground (arith, h, a.0, select_above c x xs (ground (arith, h, a.0)) a.1)

-- After a page, what lies above its last entry is what the page leaves.
record IsSplit (n c : ℕ) (xs : List ℕ) : Type 0 where
  above : select_where (ltb (last c (take n xs))) xs ≡ drop n xs
  ascending : IsAscending (last c (take n xs)) (drop n xs)
  higher : c ≤ last c (take n xs)

page_splits : (n c : ℕ) (xs : List ℕ) → IsAscending c xs → IsSplit n c xs
unfolding take drop last select_where
page_splits zero c xs a = record {
  above = select_above c c xs (ground arith) a;
  ascending = a;
  higher = ground arith;
}
page_splits (suc n) c [] a = record { above = refl; ascending = tt; higher = ground arith }
page_splits (suc n) c (x ∷ xs) a =
    let s = page_splits n x xs a.1 in
    record {
      above = ground (arith, s.above, s.higher);
      ascending = s.ascending;
      higher = ground (arith, s.higher, a.0);
    }

select_twice :
    (c l : ℕ) (xs : List ℕ)
    → c ≤ l
    → select_where (ltb l) xs ≡ select_where (ltb l) (select_where (ltb c) xs)
unfolding select_where
select_twice c l [] h = refl
select_twice c l (x ∷ xs) h = ground (arith, h, select_twice c l xs h)

last_any : (a b : ℕ) (xs : List ℕ) → 0 < length xs → last a xs ≡ last b xs
unfolding last
last_any a b [] h = ground arith
last_any a b (x ∷ xs) h = refl

last_higher :
    (n c : ℕ) (xs : List ℕ) → IsAscending c xs → 0 < length (take n xs) → c < last c (take n xs)
unfolding take last
last_higher zero c xs a h = ground arith
last_higher (suc n) c [] a h = ground arith
last_higher (suc n) c (x ∷ xs) a h = ground (arith, a.0, (page_splits n x xs a.1).higher)

module _ (limit : ℕ) (orgs : List Ident) where
  page_size : ℕ
  page_size = limit_or sweep_batch limit

  page_size_lem : 0 < page_size
  unfolding page_size
  page_size_lem = ground arith

  sweeps_from :
      (fuel c : ℕ) (rest : List ℕ)
      → select_where (ltb c) orgs ≡ rest
      → IsAscending c rest
      → length rest < fuel
      → sweeps limit orgs fuel c ≡ rest
  unfolding sweeps orgs_after next_cursor page_size
  sweeps_from zero c rest e a h = ground arith
  sweeps_from (suc fuel) c rest e a h =
      elim (Bool-cases (ltb (length (take page_size rest)) page_size)) [
        | inl short ↦ rw (e, short) (take_all page_size rest (ground (arith, short)))
        | inr full ↦
            rw (e, full)
              (rw (not_last full) (
                ap (λ ys. take page_size rest ++ ys)
                  (onward full (λ c rest. sweeps_from fuel c rest))
                ∙ take-drop page_size rest))
      ]
    where
      filled :
          ltb (length (take page_size rest)) page_size ≡ false → 0 < length (take page_size rest)
      filled full = ground (arith, full, page_size_lem)

      cursor :
          ltb (length (take page_size rest)) page_size ≡ false
          → last 0 (take page_size rest) ≡ last c (take page_size rest)
      cursor full = last_any 0 c (take page_size rest) (filled full)

      not_last :
          ltb (length (take page_size rest)) page_size ≡ false
          → (last 0 (take page_size rest) == 0) ≡ false
      not_last full = ground (arith, cursor full, last_higher page_size c rest a (filled full))

      onward :
          ltb (length (take page_size rest)) page_size ≡ false
          → ((c : ℕ) (rest : List ℕ)
              → select_where (ltb c) orgs ≡ rest
              → IsAscending c rest
              → length rest < fuel
              → sweeps limit orgs fuel c ≡ rest)
          → sweeps limit orgs fuel (last 0 (take page_size rest)) ≡ drop page_size rest
      onward full hypothesis =
          subst (λ l. sweeps limit orgs fuel l ≡ drop page_size rest) (sym (cursor full))
            (let s = page_splits page_size c rest a in
              hypothesis (last c (take page_size rest)) (drop page_size rest)
                (select_twice c (last c (take page_size rest)) orgs s.higher
                  ∙ ap (select_where (ltb (last c (take page_size rest)))) e
                  ∙ s.above)
                s.ascending (ground (arith, h, filled full, length-drop page_size rest)))

  -- The sweeps from the cursor 0 until the walk wraps around examine every organization once, in order,
  -- whatever the page size, and the walk does wrap around: one more sweep than there are organizations is
  -- enough.
  pub sweeps_all :
      (fuel : ℕ) → IsAscending 0 orgs → length orgs < fuel → sweeps limit orgs fuel 0 ≡ orgs
  sweeps_all fuel a h = sweeps_from fuel 0 orgs (select_above 0 0 orgs (ground arith) a) a h
