-- ===== src/Tokens/Verifiers.antt =====
-- Every verifier that NewPKCEVerifier of internal/platform/tokens.go makes passes ValidatePKCEVerifier.
use Prim.Native.Nat.{◌%◌}
use workforce_platform.Base.{
  ℕ, ◌≤◌, zero, suc, true, List, [], ◌∷◌, ◌==◌, ltb, ◌≡◌, refl, arith, ==-refl, ap,
}
use workforce_platform.Base.Rows.{length, exists_where}
use workforce_platform.Strings.{Str}
use workforce_platform.Errors.{ok}
use workforce_platform.Tokens.{
  pkce_unreserved, char_at, new_pkce_verifier, all_unreserved, validate_pkce_verifier,
}

char_at-is_unreserved :
    (i : ℕ) (cs : Str) → ltb i (length cs) ≡ true → exists_where (λ x. x == char_at i cs) cs ≡ true
unfolding char_at exists_where
char_at-is_unreserved i [] h = ground (arith, h)
char_at-is_unreserved zero (c ∷ cs) h = ground (arith, ==-refl c)
char_at-is_unreserved (suc i) (c ∷ cs) h =
    ground (arith, char_at-is_unreserved i cs (ground (arith, h)))

new-all_unreserved : (bytes : List ℕ) → all_unreserved (new_pkce_verifier bytes) ≡ true
unfolding all_unreserved new_pkce_verifier pkce_unreserved
new-all_unreserved [] = refl
new-all_unreserved (v ∷ vs) =
    rw (char_at-is_unreserved (v % 66) pkce_unreserved below) (new-all_unreserved vs)
  where
    below : ltb (v % 66) (length pkce_unreserved) ≡ true
    below = ground arith

length-new : (bytes : List ℕ) → length (new_pkce_verifier bytes) ≡ length bytes
unfolding new_pkce_verifier
length-new [] = refl
length-new (v ∷ vs) = ap suc (length-new vs)

-- Of as many bytes as ValidatePKCEVerifier takes characters, NewPKCEVerifier makes a verifier that
-- ValidatePKCEVerifier takes; it reads 128 bytes.
pub new_pkce_verifier_validates :
    (bytes : List ℕ)
    → 43 ≤ length bytes
    → length bytes ≤ 128
    → validate_pkce_verifier (new_pkce_verifier bytes) ≡ ok tt
unfolding validate_pkce_verifier
new_pkce_verifier_validates bytes low high =
    ground (arith, low, high, new-all_unreserved bytes, length-new bytes)
