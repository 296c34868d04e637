-- ===== src/Prelude/TextOrder.antt =====
-- Go's `<` on strings. The order of the bytes of UTF-8 is that of the code points.
use Prim.Native.Char.{Char, code}
use Prim.Native.String.{String}
use mathlib.Core.Path.{◌≡◌, refl, ap, ◌∙◌}
use mathlib.Core.Bool.{Bool, true, false}
use native.Mathlib.Omega.{arith}
use text.Mathlib.TextEquality.{Char-path}
use one_llm_router.Prelude.Tests.{◌==◌, ltb, if◌then◌else◌}

unfoldable pub text_before : String → String → Bool
text_before s String.[] = false
text_before String.[] (String.◌∷◌ d t) = true
text_before (String.◌∷◌ c s) (String.◌∷◌ d t) =
    let later = text_before s t in
    if ltb (code c) (code d) then true else if code c == code d then later else false

pub text_before_trans :
    (r s t : String) → text_before r s ≡ true → text_before s t ≡ true → text_before r t ≡ true
unfolding text_before
text_before_trans r s String.[] p q = cc
text_before_trans r String.[] (String.◌∷◌ e t) p q = cc
text_before_trans String.[] (String.◌∷◌ d s) (String.◌∷◌ e t) p q = refl
text_before_trans (String.◌∷◌ c r) (String.◌∷◌ d s) (String.◌∷◌ e t) p q =
    ground (arith, text_before_trans r s t)

pub text_before_asymm : (s t : String) → text_before s t ≡ true → text_before t s ≡ false
unfolding text_before
text_before_asymm s String.[] p = cc
text_before_asymm String.[] (String.◌∷◌ d t) p = refl
text_before_asymm (String.◌∷◌ c s) (String.◌∷◌ d t) p = ground (arith, text_before_asymm s t)

-- Texts neither of which comes before the other start alike.
neither_first :
    (c d : Char) (s t : String)
    → text_before (String.◌∷◌ c s) (String.◌∷◌ d t) ≡ false
    → text_before (String.◌∷◌ d t) (String.◌∷◌ c s) ≡ false
    → (code c ≡ code d) × (text_before s t ≡ false) × (text_before t s ≡ false)
unfolding text_before
neither_first c d s t p q = ground (arith, p, q)

pub text_before_total : (s t : String) → text_before s t ≡ false → text_before t s ≡ false → s ≡ t
unfolding text_before
text_before_total String.[] String.[] p q = refl
text_before_total String.[] (String.◌∷◌ d t) p q = cc
text_before_total (String.◌∷◌ c s) String.[] p q = cc
text_before_total (String.◌∷◌ c s) (String.◌∷◌ d t) p q =
    let (e, f, g) = neither_first c d s t p q in
    ap (λ a. String.◌∷◌ a s) (Char-path c d e) ∙ ap (String.◌∷◌ d) (text_before_total s t f g)
