-- ===== src/Runners/Escaping.antt =====
-- Any words can be written down so that splitWords reads them back: with a backslash before each rune.
use workforce_platform.Base.{Bool, true, false, List, [], ◌∷◌, ◌++◌, ◌≡◌, refl, sym, ap, ◌∙◌, arith}
use workforce_platform.Base.Rows.{All, exists_where}
use workforce_platform.Strings.{Str, is_empty}
use workforce_platform.Errors.{ok}
use workforce_platform.Runners.Words.{Scanner, plain, step, scan, finish, split_words}

abbrev pub escape : Str → Str
escape [] = []
escape (r ∷ rs) = b'\\' ∷ r ∷ escape rs

-- The words of a command, a space after each.
abbrev pub command_line : List Str → Str
command_line [] = []
command_line (w ∷ ws) = escape w ++ 32 ∷ command_line ws

append_assoc : {A : Type 0} → (xs ys zs : List A) → (xs ++ ys) ++ zs ≡ xs ++ (ys ++ zs)
append_assoc [] ys zs = refl
append_assoc (x ∷ xs) ys zs = ap (λ l. x ∷ l) (append_assoc xs ys zs)

append_nil : {A : Type 0} → (xs : List A) → xs ++ [] ≡ xs
append_nil [] = refl
append_nil (x ∷ xs) = ap (λ l. x ∷ l) (append_nil xs)

abbrev reading : List Str → Str → Bool → Scanner
reading words cur in_word = record { words = words; cur = cur; in_word = in_word; mode = plain }

-- The rest of a word, already begun.
scan-escape :
    (words : List Str) (cur w rest : Str)
    → scan (reading words cur true) (escape w ++ rest) ≡ scan (reading words (cur ++ w) true) rest
unfolding scan step
scan-escape words cur [] rest = ap (λ c. scan (reading words c true) rest) (sym (append_nil cur))
scan-escape words cur (r ∷ rs) rest =
    scan-escape words (cur ++ r ∷ []) rs rest
    ∙ ap (λ c. scan (reading words c true) rest) (append_assoc cur (r ∷ []) rs)

scan-word :
    (words : List Str) (w rest : Str)
    → is_empty w ≡ false
    → scan (reading words [] false) (escape w ++ 32 ∷ rest)
      ≡ scan (reading (words ++ w ∷ []) [] false) rest
unfolding scan step
scan-word words [] rest e = absurd (ground (arith, e))
scan-word words (r ∷ rs) rest e = scan-escape words (r ∷ []) rs (32 ∷ rest)

scan-line :
    (words ws : List Str)
    → All (λ w. is_empty w ≡ false) ws
    → scan (reading words [] false) (command_line ws) ≡ reading (words ++ ws) [] false
unfolding scan
scan-line words [] h = ap (λ l. reading l [] false) (sym (append_nil words))
scan-line words (w ∷ ws) h =
    scan-word words w (command_line ws) h.0
    ∙ scan-line (words ++ w ∷ []) ws h.1
    ∙ ap (λ l. reading l [] false) (append_assoc words (w ∷ []) ws)

none_empty : (ws : List Str) → All (λ w. is_empty w ≡ false) ws → exists_where is_empty ws ≡ false
unfolding exists_where
none_empty [] h = refl
none_empty (w ∷ ws) h = ground (arith, h.0, none_empty ws h.1)

-- Words that are not empty, written with a backslash before each rune and a space after each word, are
-- what splitWords makes of that text, whatever the runes are.
pub split-command_line :
    (ws : List Str) → All (λ w. is_empty w ≡ false) ws → split_words (command_line ws) ≡ ok ws
unfolding split_words finish
split-command_line ws h = ap (λ s. finish s) (scan-line [] ws h) ∙ rw (none_empty ws h) refl
