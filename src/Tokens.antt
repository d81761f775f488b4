-- ===== src/Tokens.antt =====
-- internal/platform/tokens.go, without the hashes: code verifiers of PKCE, and the destination after a
-- login. A text is the list of its bytes.
pub mod Verifiers
pub mod Destinations
use Prim.Native.Nat.{◌%◌}
use workforce_platform.Base.{
  ℕ, zero, suc, ◌+◌, Bool, true, false, not, ◌||◌, List, [], ◌∷◌, ◌++◌, map, ◌==◌, ltb,
  if◌then◌else◌,
}
use workforce_platform.Base.Rows.{length, exists_where}
use workforce_platform.Strings.{Str, is_empty, has_prefix, contains, to_lower}
use workforce_platform.Errors.{Result, ok, err, verifier_length, verifier_character}

-- `n` characters from `c` on.
abbrev pub characters : ℕ → ℕ → Str
characters c zero = []
characters c (suc n) = c ∷ characters (suc c) n

unfoldable pub pkce_unreserved : Str
pkce_unreserved =
    characters b'A' 26 ++ characters b'a' 26 ++ characters b'0' 10 ++ b'-' ∷ b'.' ∷ b'_' ∷ b'~' ∷ []

-- pkceUnreserved[i]; 0 out of range, which the remainder never is.
unfoldable pub char_at : ℕ → Str → ℕ
char_at i [] = 0
char_at zero (c ∷ cs) = c
char_at (suc i) (c ∷ cs) = char_at i cs

-- NewPKCEVerifier on the bytes that crypto/rand returned.
unfoldable pub new_pkce_verifier : List ℕ → Str
new_pkce_verifier bytes = map (λ v. char_at (v % 66) pkce_unreserved) bytes

abbrev pub is_unreserved : ℕ → Bool
is_unreserved c = exists_where (λ x. x == c) pkce_unreserved

unfoldable pub all_unreserved : Str → Bool
all_unreserved [] = true
all_unreserved (c ∷ cs) = if is_unreserved c then all_unreserved cs else false

unfoldable pub validate_pkce_verifier : Str → Result (Unit {0})
validate_pkce_verifier v =
    if ltb (length v) 43 || ltb 128 (length v)
    then err verifier_length
    else if all_unreserved v
    then ok tt
    else err verifier_character

abbrev pub root : Str
root = b'/' ∷ []

abbrev pub backslash : Str
backslash = b'\\' ∷ []

abbrev pub is_control : ℕ → Bool
is_control c = ltb c 32 || c == 127

-- raw[1] is a slash or a backslash.
abbrev pub names_host : Str → Bool
names_host (a ∷ b ∷ cs) = b == b'/' || b == b'\\'
names_host _ = false

abbrev pub scheme_end : Str
scheme_end = b':' ∷ b'/' ∷ b'/' ∷ []

abbrev pub encoded_slash : Str
encoded_slash = b'%' ∷ b'2' ∷ b'f' ∷ []

abbrev pub encoded_backslash : Str
encoded_backslash = b'%' ∷ b'5' ∷ b'c' ∷ []

unfoldable pub safe_return_to : Str → Str
safe_return_to raw =
    if is_empty raw
    then root
    else if exists_where is_control raw
    then root
    else if not (has_prefix raw root)
    then root
    else if names_host raw
    then root
    else if contains raw backslash || contains raw scheme_end
    then root
    else if contains (to_lower raw) encoded_slash || contains (to_lower raw) encoded_backslash
    then root
    else raw
