-- ===== src/Recovery/Picking.antt =====
-- The query of reclaimInOrg: the rows that it picks, in what order and how many.
use workforce_platform.Base.{
  ℕ, zero, suc, ◌+◌, ◌≤◌, Bool, true, false, some, List, [], ◌∷◌, ◌++◌, map, ◌==◌, ◌||◌, ◌≡◌, ◌⊎◌,
  refl, sym, ap, ◌∙◌, subst, inl, inr, arith, Bool-cases, ==-refl,
}
use workforce_platform.Base.Rows.{
  All, length, find_row, find_where, exists_where, select_where, IsKeyed, All-mono,
}
use workforce_platform.Schema.{Ident, AgentRun, Job, agent_run_job}
use workforce_platform.Recovery.{take, comes_before, insert_ordered, ordered}

module _ {ℓ κ} {A : Type ℓ} (P : A → Type κ) where
  pub All-take : (n : ℕ) (xs : List A) → All P xs → All P (take n xs)
  unfolding take
  All-take zero xs h = tt
  All-take (suc n) [] h = tt
  All-take (suc n) (x ∷ xs) h = (h.0, All-take n xs h.1)

  -- A row that a test finds in a list has what every row has.
  pub pick :
      (q : A → Bool) (xs : List A)
      → All P xs
      → exists_where q xs ≡ true
      → (x : A) × P x × (q x ≡ true)
  unfolding exists_where
  pick q [] h e = absurd (ground arith)
  pick q (x ∷ xs) h e = elim (Bool-cases (q x)) [
    | inl hit ↦ (x, h.0, hit)
    | inr miss ↦ pick q xs h.1 (ground (arith, miss, e))
  ]

  pub All-select :
      (q : A → Bool) (xs : List A) → All P xs → All (λ x. P x × (q x ≡ true)) (select_where q xs)
  unfolding select_where
  All-select q [] h = tt
  All-select q (x ∷ xs) h = elim (Bool-cases (q x)) [
    | inl hit ↦ rw hit ((h.0, hit), All-select q xs h.1)
    | inr miss ↦ rw miss (All-select q xs h.1)
  ]

module _ {κ} (P : AgentRun → Type κ) where
  All-insert_ordered :
      (r : AgentRun) (rs : List AgentRun) → P r → All P rs → All P (insert_ordered r rs)
  unfolding insert_ordered
  All-insert_ordered r [] p h = (p, tt)
  All-insert_ordered r (s ∷ rest) p h = elim (Bool-cases (comes_before r s)) [
    | inl first ↦ rw first (p, h)
    | inr later ↦ rw later (h.0, All-insert_ordered r rest p h.1)
  ]

  pub All-ordered : (rs : List AgentRun) → All P rs → All P (ordered rs)
  unfolding ordered
  All-ordered [] h = tt
  All-ordered (r ∷ rs) h = All-insert_ordered r (ordered rs) h.0 (All-ordered rs h.1)

module _ {ℓ} {A : Type ℓ} (key : A → ℕ) where
  -- With unique keys every row is the row of its key.
  pub All-found : (xs : List A) → IsKeyed key xs → All (λ x. find_row key (key x) xs ≡ some x) xs
  unfolding find_where
  All-found [] u = tt
  All-found (x ∷ xs) u = (
    rw (==-refl (key x)) refl,
    All-mono (λ y. find_row key (key y) xs ≡ some y) (λ y. find_row key (key y) (x ∷ xs) ≡ some y)
        (λ y f. elim (Bool-cases (key x == key y)) [
          | inl same ↦ absurd (clash y f same)
          | inr other ↦ rw other f
        ])
        xs (All-found xs u.1),
  )
    where
      clash : (y : A) → find_row key (key y) xs ≡ some y → ¬ ((key x == key y) ≡ true)
      clash y f same =
          let at_x : find_row key (key x) xs ≡ some y =
            subst (λ k. find_row key k xs ≡ some y) (sym (ground (arith, same))) f in
          ground (arith, at_x, u.0)

abbrev pub is_job_of : Ident → Job → Bool
is_job_of id (agent_run_job run) = run == id
is_job_of id _ = false

pub exists_job :
    (id : Ident) (chosen : List AgentRun) (jobs : List Job)
    → exists_where (λ c. c.id == id) chosen ≡ true
    → exists_where (is_job_of id) (jobs ++ map (λ r. agent_run_job r.id) chosen) ≡ true
unfolding exists_where
exists_job id [] [] e = ground arith
exists_job id (c ∷ cs) [] e = ground (arith, exists_job id cs [], e)
exists_job id chosen (j ∷ js) e = ground (arith, exists_job id chosen js e)

pub length-take-le_limit {ℓ} : {A : Type ℓ} (n : ℕ) (xs : List A) → length (take n xs) ≤ n
unfolding take
length-take-le_limit zero xs = ground arith
length-take-le_limit (suc n) [] = ground arith
length-take-le_limit (suc n) (x ∷ xs) = ground (arith, length-take-le_limit n xs)

pub length-append_map {ℓ κ} :
    {A : Type ℓ} {B : Type κ} (f : A → B) (ys : List B) (xs : List A)
    → length (ys ++ map f xs) ≡ length ys + length xs
length-append_map f [] [] = refl
length-append_map f [] (x ∷ xs) = ground (arith, length-append_map f [] xs)
length-append_map f (y ∷ ys) xs = ground (arith, length-append_map f ys xs)

-- The first `n` rows of a list have what the list has, or there are `n` of them.
pub exists_where-take {ℓ} :
    {A : Type ℓ} (q : A → Bool) (n : ℕ) (xs : List A)
    → exists_where q xs ≡ true
    → (exists_where q (take n xs) ≡ true) ⊎ (length (take n xs) ≡ n)
unfolding exists_where take
exists_where-take q zero xs e = inr refl
exists_where-take q (suc n) [] e = absurd (ground (arith, e))
exists_where-take q (suc n) (x ∷ xs) e = elim (Bool-cases (q x)) [
  | inl hit ↦ inl (ground (arith, hit))
  | inr miss ↦ elim (exists_where-take q n xs (ground (arith, miss, e))) [
    | inl there ↦ inl (ground (arith, there))
    | inr full ↦ inr (ap suc full)
  ]
]

exists_where-insert_ordered :
    (q : AgentRun → Bool) (r : AgentRun) (rs : List AgentRun)
    → exists_where q (insert_ordered r rs) ≡ (q r || exists_where q rs)
unfolding exists_where insert_ordered
exists_where-insert_ordered q r [] = refl
exists_where-insert_ordered q r (s ∷ rest) = elim (Bool-cases (comes_before r s)) [
  | inl first ↦ rw first refl
  | inr later ↦ rw (later, exists_where-insert_ordered q r rest) (ground arith)
]

pub exists_where-ordered :
    (q : AgentRun → Bool) (rs : List AgentRun) → exists_where q (ordered rs) ≡ exists_where q rs
unfolding exists_where ordered
exists_where-ordered q [] = refl
exists_where-ordered q (r ∷ rs) =
    exists_where-insert_ordered q r (ordered rs) ∙ ap (λ b. q r || b) (exists_where-ordered q rs)

-- A query keeps the row of a key that passes its test.
pub exists_where-select {ℓ} :
    {A : Type ℓ} (key : A → ℕ) (k : ℕ) (p : A → Bool) (xs : List A) (x : A)
    → find_row key k xs ≡ some x
    → p x ≡ true
    → exists_where (λ y. key y == k) (select_where p xs) ≡ true
unfolding exists_where select_where find_where
exists_where-select key k p [] x f h = absurd (ground (arith, f))
exists_where-select key k p (y ∷ ys) x f h = elim (Bool-cases (key y == k)) [
  | inl here ↦
      let is_x : y ≡ x = ground (arith, here, f) in
      rw (subst (λ z. p z ≡ true) (sym is_x) h, here) refl
  | inr other ↦
      let rest = exists_where-select key k p ys x (ground (arith, other, f)) h in
      elim (Bool-cases (p y)) [
        | inl kept ↦ rw (kept, other, rest) refl
        | inr dropped ↦ rw (dropped, rest) refl
      ]
]
