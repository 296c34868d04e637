-- ===== src/Prelude/Fold.antt =====
-- strings.EqualFold and strings.ToLower, compared with ASCII texts in lower case. Among the letters
-- outside ASCII, the Kelvin sign and the long s fold to an ASCII letter, and the Kelvin sign and
-- the dotted capital I lower to one.
use Prim.Native.Nat.{ℕ, ◌+◌}
use Prim.Native.Char.{code}
use Prim.Native.String.{String}
use mathlib.Core.Path.{◌≡◌, refl}
use mathlib.Core.Bool.{Bool, true, false, ◌&&◌, ◌||◌}
use one_llm_router.Prelude.Tests.{◌==◌, leb, if◌then◌else◌}

abbrev ascii_lower : ℕ → ℕ
ascii_lower c = if leb b'A' c && leb c b'Z' then c + 32 else c

abbrev fold_code : ℕ → ℕ
fold_code c = if c == 0x212a then b'k' else if c == 0x17f then b's' else ascii_lower c

abbrev lower_code : ℕ → ℕ
lower_code c = if c == 0x212a then b'k' else if c == 0x130 then b'i' else ascii_lower c

-- strings.EqualFold(s, t)
unfoldable pub equal_fold : String → String → Bool
equal_fold String.[] String.[] = true
equal_fold (String.◌∷◌ c s) (String.◌∷◌ d t) = fold_code (code c) == code d && equal_fold s t
equal_fold _ _ = false

-- strings.HasPrefix(strings.ToLower(s), prefix)
unfoldable pub lower_has_prefix : String → String → Bool
lower_has_prefix s String.[] = true
lower_has_prefix String.[] (String.◌∷◌ d p) = false
lower_has_prefix (String.◌∷◌ c s) (String.◌∷◌ d p) =
    lower_code (code c) == code d && lower_has_prefix s p

-- strings.Contains(strings.ToLower(s), t)
unfoldable pub lower_contains : String → String → Bool
lower_contains String.[] t = lower_has_prefix String.[] t
lower_contains (String.◌∷◌ c s) t = lower_has_prefix (String.◌∷◌ c s) t || lower_contains s t

-- strings.ToLower(s) == t
unfoldable pub lower_equals : String → String → Bool
lower_equals String.[] String.[] = true
lower_equals (String.◌∷◌ c s) (String.◌∷◌ d t) = lower_code (code c) == code d && lower_equals s t
lower_equals _ _ = false

tests :
    (equal_fold "faST" "fast" ≡ true)
    × (lower_contains "X-API_Key" "api_key" ≡ true)
    × (lower_contains "keyed" "token" ≡ false)
    × (lower_equals "Token" "token" ≡ true)
unfolding equal_fold lower_has_prefix lower_contains lower_equals
tests = (refl, refl, refl, refl)
