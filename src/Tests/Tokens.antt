-- ===== src/Tests/Tokens.antt =====
-- Destinations and code verifiers, run and witnessed.
use workforce_platform.Base.{[], ◌∷◌, ◌≡◌, refl, ◌↔◌}
use workforce_platform.Base.Rows.{exists_where}
use workforce_platform.Strings.{Str, has_prefix, contains, to_lower}
use workforce_platform.Tokens.{root, safe_return_to, new_pkce_verifier, char_at, pkce_unreserved}
use workforce_platform.Tokens.Destinations.{IsLocal, safe_return_to_decides}

-- "/a/b"
abbrev inner : Str
inner = b'/' ∷ b'a' ∷ b'/' ∷ b'b' ∷ []

test_inner : safe_return_to inner ≡ inner
unfolding safe_return_to exists_where has_prefix contains to_lower
test_inner = refl

-- "/\e" names a host to a browser.
test_backslash : safe_return_to (b'/' ∷ b'\\' ∷ b'e' ∷ []) ≡ root
unfolding safe_return_to exists_where has_prefix contains to_lower
test_backslash = refl

-- "/a%2Fb"
test_encoded : safe_return_to (b'/' ∷ b'a' ∷ b'%' ∷ b'2' ∷ b'F' ∷ b'b' ∷ []) ≡ root
unfolding safe_return_to exists_where has_prefix contains to_lower
test_encoded = refl

test_verifier : new_pkce_verifier (0 ∷ 26 ∷ 65 ∷ 66 ∷ []) ≡ b'A' ∷ b'a' ∷ b'~' ∷ b'A' ∷ []
unfolding new_pkce_verifier char_at pkce_unreserved
test_verifier = refl

safe_return_to_decides_example :
    IsLocal (safe_return_to inner) × ((safe_return_to inner ≡ inner) ↔ IsLocal inner)
safe_return_to_decides_example = safe_return_to_decides inner
