-- ===== src/Strings/Sets.antt =====
-- Lists of strings as sets: equality of strings, and what sorting and filtering do to membership.
use workforce_platform.Base.{
  true, false, List, [], ◌∷◌, ◌≡◌, refl, inl, inr, arith, Bool-cases, ==-refl,
}
use workforce_platform.Base.Rows.{All, All-mono}
use workforce_platform.Strings.{Str, same, precedes, insert_sorted, sort_strings}

pub same_refl : (a : Str) → same a a ≡ true
unfolding same
same_refl [] = refl
same_refl (c ∷ cs) = ground (arith, same_refl cs, ==-refl c)

pub same_≡ : (a b : Str) → same a b ≡ true → a ≡ b
unfolding same
same_≡ [] [] e = refl
same_≡ [] (c ∷ cs) e = ground (arith, e)
same_≡ (a ∷ xs) [] e = ground (arith, e)
same_≡ (a ∷ xs) (c ∷ cs) e = ground (arith, e, same_≡ xs cs)

pub precedes_total : (a b : Str) → precedes a b ≡ false → precedes b a ≡ true
unfolding precedes
precedes_total [] b e = ground (arith, e)
precedes_total (a ∷ xs) [] e = refl
precedes_total (a ∷ xs) (b ∷ ys) e = ground (arith, e, precedes_total xs ys)

pub precedes_trans : (a b c : Str) → precedes a b ≡ true → precedes b c ≡ true → precedes a c ≡ true
unfolding precedes
precedes_trans [] b c e f = refl
precedes_trans (a ∷ xs) [] c e f = ground (arith, e)
precedes_trans (a ∷ xs) (b ∷ ys) [] e f = ground (arith, f)
precedes_trans (a ∷ xs) (b ∷ ys) (c ∷ zs) e f = ground (arith, e, f, precedes_trans xs ys zs)

-- Each string comes before all that follow it.
abbrev pub IsSorted : List Str → Type 0
IsSorted [] = Unit
IsSorted (x ∷ xs) = All (λ y. precedes x y ≡ true) xs × IsSorted xs

All-insert :
    (P : Str → Type 0) (s : Str) (xs : List Str) → P s → All P xs → All P (insert_sorted s xs)
unfolding insert_sorted
All-insert P s [] p h = (p, tt)
All-insert P s (x ∷ xs) p h = elim (Bool-cases (precedes s x)) [
  | inl before ↦ rw before (p, h)
  | inr after ↦ rw after (h.0, All-insert P s xs p h.1)
]

insert-IsSorted : (s : Str) (xs : List Str) → IsSorted xs → IsSorted (insert_sorted s xs)
unfolding insert_sorted
insert-IsSorted s [] h = (tt, tt)
insert-IsSorted s (x ∷ xs) h = elim (Bool-cases (precedes s x)) [
  | inl before ↦ rw before ((before, All-mono _ _ (λ y e. precedes_trans s x y before e) xs h.0), h)
  | inr after ↦ rw after (
    All-insert (λ y. precedes x y ≡ true) s xs (precedes_total s x after) h.0,
    insert-IsSorted s xs h.1,
  )
]

pub sort-IsSorted : (xs : List Str) → IsSorted (sort_strings xs)
unfolding sort_strings
sort-IsSorted [] = tt
sort-IsSorted (x ∷ xs) = insert-IsSorted x (sort_strings xs) (sort-IsSorted xs)

-- What comes before all of a list is put in front of it.
pub insert_least :
    (s : Str) (xs : List Str) → All (λ y. precedes s y ≡ true) xs → insert_sorted s xs ≡ s ∷ xs
unfolding insert_sorted
insert_least s [] h = refl
insert_least s (x ∷ xs) h = rw h.0 refl
