-- ===== src/Tokens/Destinations.antt =====
-- Where a login may lead: what SafeReturnTo of internal/platform/tokens.go lets through.
use workforce_platform.Base.{
  Bool, true, false, not, ◌||◌, ◌≡◌, refl, subst, ◌↔◌, arith, if◌then◌else◌, [], ◌∷◌,
}
use workforce_platform.Base.Rows.{exists_where}
use workforce_platform.Strings.{Str, is_empty, has_prefix, contains, to_lower}
use workforce_platform.Tokens.{
  root, backslash, is_control, names_host, scheme_end, encoded_slash, encoded_backslash,
  safe_return_to,
}

-- A path of the site's own: it begins with one slash, and has no control character, no backslash, no
-- scheme and no slash or backslash in an encoded form.
abbrev pub IsLocal : Str → Type 0
IsLocal s =
    (has_prefix s root ≡ true)
    × (names_host s ≡ false)
    × (exists_where is_control s ≡ false)
    × (contains s backslash ≡ false)
    × (contains s scheme_end ≡ false)
    × (contains (to_lower s) encoded_slash ≡ false)
    × (contains (to_lower s) encoded_backslash ≡ false)

root-IsLocal : IsLocal root
unfolding exists_where has_prefix contains to_lower
root-IsLocal = (refl, refl, refl, refl, refl, refl, refl)

-- A test that falls back to the root.
fallback :
    (P : Str → Type 0) (b : Bool) (s : Str) → P root → (b ≡ false → P s) → P (if b then root else s)
fallback P true s r k = r
fallback P false s r k = k refl

passed-IsLocal :
    (s : Str)
    → exists_where is_control s ≡ false
    → not (has_prefix s root) ≡ false
    → names_host s ≡ false
    → (contains s backslash || contains s scheme_end) ≡ false
    → (contains (to_lower s) encoded_slash || contains (to_lower s) encoded_backslash) ≡ false
    → IsLocal s
passed-IsLocal s plain slash path whole decoded = (
  ground (arith, slash),
  path,
  plain,
  ground (arith, whole),
  ground (arith, whole),
  ground (arith, decoded),
  ground (arith, decoded),
)

safe_return_to-IsLocal : (raw : Str) → IsLocal (safe_return_to raw)
unfolding safe_return_to
safe_return_to-IsLocal raw = fallback IsLocal (is_empty raw) _ root-IsLocal λ _.
    fallback IsLocal (exists_where is_control raw) _ root-IsLocal λ plain.
      fallback IsLocal (not (has_prefix raw root)) _ root-IsLocal λ slash.
        fallback IsLocal (names_host raw) _ root-IsLocal λ path.
          fallback IsLocal (contains raw backslash || contains raw scheme_end) _ root-IsLocal
            λ whole.
              fallback IsLocal _ raw root-IsLocal
                λ decoded. passed-IsLocal raw plain slash path whole decoded

local_kept : (s : Str) → IsLocal s → safe_return_to s ≡ s
unfolding safe_return_to has_prefix
local_kept [] (slash, _, _, _, _, _, _) = ground (arith, slash)
local_kept (c ∷ cs) (slash, path, plain, one, whole, encoded, decoded) =
    rw (plain, slash, path, one, whole, encoded, decoded) refl

-- SafeReturnTo returns a path of the site's own, whatever it is given, and exactly such a path as it is: one that
-- begins with a slash, not followed by another or by a backslash, and has no control character, no
-- backslash, no "://" and no slash or backslash in an encoded form.
pub safe_return_to_decides :
    (raw : Str) → IsLocal (safe_return_to raw) × ((safe_return_to raw ≡ raw) ↔ IsLocal raw)
safe_return_to_decides raw = (
  safe_return_to-IsLocal raw,
  (λ e. subst IsLocal e (safe_return_to-IsLocal raw), local_kept raw),
)
