-- ===== src/Runners/Words.antt =====
-- splitList and splitWords of internal/runner/cli.go: what the operator writes into the environment,
-- split without any expansion.
use workforce_platform.Base.{ℕ, Bool, true, false, ◌||◌, List, [], ◌∷◌, ◌++◌, ◌==◌, if◌then◌else◌}
use workforce_platform.Base.Rows.{exists_where}
use workforce_platform.Strings.{Str, is_empty, trim_space}
use workforce_platform.Errors.{Result, ok, err, trailing_backslash, unbalanced_quote, empty_word}

-- strings.Split at commas, with the part that is being read.
unfoldable pub split_commas : Str → Str → List Str
split_commas part [] = part ∷ []
split_commas part (c ∷ cs) =
    let next = split_commas (if c == b',' then [] else part ++ c ∷ []) cs in
    if c == b',' then part ∷ next else next

unfoldable pub trimmed_parts : List Str → List Str
trimmed_parts [] = []
trimmed_parts (p ∷ ps) =
    let rest = trimmed_parts ps in if is_empty (trim_space p) then rest else trim_space p ∷ rest

unfoldable pub split_list : Str → List Str
split_list s = trimmed_parts (split_commas [] s)

-- Outside quotes, inside the quotes that a rune opened, or behind a backslash.
pub data Mode : Type 0 where
  plain : Mode
  quoted : ℕ → Mode
  escaped : Mode

-- The variables of the loop of splitWords.
pub record Scanner : Type 0 where
  pub words : List Str
  pub cur : Str
  pub in_word : Bool
  pub mode : Mode

abbrev pub write : ℕ → Scanner → Scanner
write r s = record s { cur = s.cur ++ r ∷ [] }

abbrev pub end_word : Scanner → Scanner
end_word s =
    if s.in_word then record s { words = s.words ++ s.cur ∷ []; cur = []; in_word = false } else s

abbrev pub is_quote : ℕ → Bool
is_quote r = r == b'\'' || r == b'"'

abbrev pub is_blank_rune : ℕ → Bool
is_blank_rune r = r == 32 || (r == 9 || r == 10)

abbrev pub step_plain : ℕ → Scanner → Scanner
step_plain r s =
    if r == b'\\'
    then record s { mode = escaped }
    else if is_quote r
    then record s { mode = quoted r; in_word = true }
    else if is_blank_rune r
    then end_word s
    else record (write r s) { in_word = true }

abbrev pub step_in : Mode → ℕ → Scanner → Scanner
step_in plain r s = step_plain r s
step_in (quoted q) r s = if r == q then record s { mode = plain } else write r s
step_in escaped r s = record (write r s) { in_word = true; mode = plain }

-- One round of the loop.
unfoldable pub step : Scanner → ℕ → Scanner
step s r = step_in s.mode r s

unfoldable pub scan : Scanner → Str → Scanner
scan s [] = s
scan s (r ∷ rs) = scan (step s r) rs

-- What follows the loop; a backslash at the end has left it before.
abbrev pub finish_in : Mode → Scanner → Result (List Str)
finish_in plain s =
    let words = (end_word s).words in
    if exists_where is_empty words then err empty_word else ok words
finish_in (quoted q) s = err unbalanced_quote
finish_in escaped s = err trailing_backslash

unfoldable pub finish : Scanner → Result (List Str)
finish s = finish_in s.mode s

abbrev pub start : Scanner
start = record { words = []; cur = []; in_word = false; mode = plain }

unfoldable pub split_words : Str → Result (List Str)
split_words s = finish (scan start s)
