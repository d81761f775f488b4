-- ===== src/Strings.antt =====
-- What the code uses of Go's package strings and of the order of strings. A text is the list of its
-- characters, by their code points; bytewise order of UTF-8 is the order of code points.
pub mod Sets
use workforce_platform.Base.{
  ℕ, zero, suc, Bool, true, false, not, ◌&&◌, ◌||◌, List, [], ◌∷◌, ◌++◌, ◌==◌, ltb, leb, ◌+◌,
  if◌then◌else◌,
}

abbrev pub Str : Type 0
Str = List ℕ

-- The empty string is 0 characters long.
abbrev pub is_empty : Str → Bool
is_empty [] = true
is_empty (c ∷ cs) = false

unfoldable pub same : Str → Str → Bool
same [] [] = true
same [] (c ∷ cs) = false
same (a ∷ xs) [] = false
same (a ∷ xs) (c ∷ cs) = a == c && same xs cs

-- a <= b
unfoldable pub precedes : Str → Str → Bool
precedes [] b = true
precedes (a ∷ xs) [] = false
precedes (a ∷ xs) (b ∷ ys) = ltb a b || a == b && precedes xs ys

-- unicode.IsSpace
abbrev pub is_space : ℕ → Bool
is_space c =
    leb 9 c && leb c 13
    || (c == 32
        || (c == 133
            || (c == 160
                || (c == 5760
                    || (leb 8192 c && leb c 8202
                        || (c == 8232
                            || (c == 8233 || (c == 8239 || (c == 8287 || c == 12288)))))))))

unfoldable pub trim_left : Str → Str
trim_left [] = []
trim_left (c ∷ cs) = if is_space c then trim_left cs else c ∷ cs

-- What is left of a text after the spaces at its end.
unfoldable pub trim_right : Str → Str
trim_right [] = []
trim_right (c ∷ cs) =
    let rest = trim_right cs in if is_empty rest && is_space c then [] else c ∷ rest

unfoldable pub trim_space : Str → Str
trim_space s = trim_right (trim_left s)

-- TrimSpace(s) == ""
abbrev pub is_blank : Str → Bool
is_blank s = is_empty (trim_space s)

unfoldable pub has_prefix : Str → Str → Bool
has_prefix s [] = true
has_prefix [] (p ∷ ps) = false
has_prefix (c ∷ cs) (p ∷ ps) = c == p && has_prefix cs ps

unfoldable pub contains : Str → Str → Bool
contains [] part = is_empty part
contains (c ∷ cs) part = has_prefix (c ∷ cs) part || contains cs part

-- unicode.ToLower, on ASCII and the two other characters whose lower case is in ASCII, U+0130 and U+212A;
-- the case of the rest, which the code looks for in no text that it lowers, is kept.
abbrev pub lower : ℕ → ℕ
lower c =
    if leb b'A' c && leb c b'Z'
    then c + 32
    else if c == 304
    then b'i'
    else if c == 8490
    then b'k'
    else c

unfoldable pub to_lower : Str → Str
to_lower [] = []
to_lower (c ∷ cs) = lower c ∷ to_lower cs

-- sort.Strings
unfoldable pub insert_sorted : Str → List Str → List Str
insert_sorted s [] = s ∷ []
insert_sorted s (x ∷ xs) = if precedes s x then s ∷ x ∷ xs else x ∷ insert_sorted s xs

unfoldable pub sort_strings : List Str → List Str
sort_strings [] = []
sort_strings (s ∷ ss) = insert_sorted s (sort_strings ss)
