-- ===== src/Registry/Grants.antt =====
-- What the operations on lists of capabilities do to membership.
use workforce_platform.Base.{
  true, ◌||◌, List, [], ◌∷◌, ◌++◌, ◌≡◌, refl, ap, ◌∙◌, subst, inl, inr, arith, Bool-cases,
}
use workforce_platform.Base.Rows.{All, All-mono}
use workforce_platform.Strings.{Str, same, insert_sorted, sort_strings}
use workforce_platform.Strings.Sets.{same_refl, same_≡}
use workforce_platform.Schema.{Release, ReleaseState}
use workforce_platform.Registry.{contains_cap, distinct_caps, merge_caps, grants_of}

pub contains-append :
    (xs ys : List Str) (c : Str)
    → contains_cap (xs ++ ys) c ≡ (contains_cap xs c || contains_cap ys c)
unfolding contains_cap
contains-append [] ys c = refl
contains-append (x ∷ xs) ys c = ground (arith, contains-append xs ys c)

contains-insert :
    (s : Str) (xs : List Str) (c : Str)
    → contains_cap (insert_sorted s xs) c ≡ (same s c || contains_cap xs c)
unfolding contains_cap insert_sorted
contains-insert s [] c = refl
contains-insert s (x ∷ xs) c = ground (arith, contains-insert s xs c)

pub contains-sort : (xs : List Str) (c : Str) → contains_cap (sort_strings xs) c ≡ contains_cap xs c
unfolding contains_cap sort_strings
contains-sort [] c = refl
contains-sort (x ∷ xs) c =
    contains-insert x (sort_strings xs) c ∙ ap (λ b. same x c || b) (contains-sort xs c)

-- A string that is equal to a member is one.
contains-same :
    (xs : List Str) (x c : Str)
    → contains_cap xs x ≡ true
    → same x c ≡ true
    → contains_cap xs c ≡ true
contains-same xs x c e s = subst (λ y. contains_cap xs y ≡ true) (same_≡ x c s) e

pub contains-distinct :
    (xs : List Str) (c : Str) → contains_cap (distinct_caps xs) c ≡ contains_cap xs c
unfolding contains_cap distinct_caps
contains-distinct [] c = refl
contains-distinct (x ∷ xs) c =
    ground (arith, contains-distinct xs c, contains-same (distinct_caps xs) x c)

merge-grows :
    (merged cs : List Str) (c : Str)
    → contains_cap merged c ≡ true
    → contains_cap (merge_caps merged cs) c ≡ true
unfolding contains_cap merge_caps
merge-grows merged [] c e = e
merge-grows merged (x ∷ xs) c e = elim (Bool-cases (contains_cap merged x)) [
  | inl there ↦ rw there (merge-grows merged xs c e)
  | inr new ↦
      rw new
        (merge-grows (merged ++ x ∷ []) xs c (ground (arith, contains-append merged (x ∷ []) c, e)))
]

-- Every member of the first list is one of the second.
abbrev pub Within : List Str → List Str → Type 0
Within xs ys = All (λ c. contains_cap ys c ≡ true) xs

Within-weaken :
    (xs ys : List Str) (zs : List Str)
    → ((c : Str) → contains_cap ys c ≡ true → contains_cap zs c ≡ true)
    → Within xs ys
    → Within xs zs
Within-weaken xs ys zs f = All-mono _ _ f xs

pub Within-refl : (xs : List Str) → Within xs xs
unfolding contains_cap
Within-refl [] = tt
Within-refl (x ∷ xs) = (
  ground (arith, same_refl x),
  Within-weaken xs xs (x ∷ xs) (λ c e. ground (arith, e)) (Within-refl xs),
)

pub Within-contains :
    (xs ys : List Str) (c : Str)
    → Within xs ys
    → contains_cap xs c ≡ true
    → contains_cap ys c ≡ true
unfolding contains_cap
Within-contains [] ys c w e = absurd (ground (arith, e))
Within-contains (x ∷ xs) ys c w e = elim (Bool-cases (same x c)) [
  | inl hit ↦ contains-same ys x c w.0 hit
  | inr miss ↦ Within-contains xs ys c w.1 (ground (arith, miss, e))
]

pub Within-trans : (xs ys zs : List Str) → Within xs ys → Within ys zs → Within xs zs
Within-trans xs ys zs v w = Within-weaken xs ys zs (λ c. Within-contains ys zs c w) v

pub Within-granted :
    (granted caps : List Str) → Within granted (sort_strings (merge_caps granted caps))
Within-granted granted caps =
    Within-weaken granted granted (sort_strings (merge_caps granted caps))
      (λ c e. contains-sort (merge_caps granted caps) c ∙ merge-grows granted caps c e)
      (Within-refl granted)

active-Within : (r : Release) → Within r.granted_capabilities (grants_of ReleaseState.active r)
active-Within r =
    Within-weaken r.granted_capabilities r.granted_capabilities (grants_of ReleaseState.active r)
      (λ c e.
        contains-distinct (r.requested_capabilities ++ r.granted_capabilities) c
        ∙ contains-append r.requested_capabilities r.granted_capabilities c
        ∙ ground (arith, e))
      (Within-refl r.granted_capabilities)

-- No move takes a grant away.
pub move-Within : (to : ReleaseState) (r : Release) → Within r.granted_capabilities (grants_of to r)
move-Within ReleaseState.active r = active-Within r
move-Within _ r = Within-refl r.granted_capabilities
