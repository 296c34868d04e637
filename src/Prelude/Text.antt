-- ===== src/Prelude/Text.antt =====
-- Texts compared whole, and the operations of Go's `strings` that the program calls on them.
use Prim.Native.Nat.{ℕ, ◌+◌}
use Prim.Native.Char.{code}
use Prim.Native.String.{String}
use mathlib.Core.Path.{◌≡◌, refl, subst}
use mathlib.Core.Logic.{inl, inr}
use mathlib.Core.Bool.{Bool, true, false, ◌&&◌, ◌||◌}
use mathlib.Core.List.{List, [], ◌∷◌}
use native.Mathlib.Omega.{arith}
use text.Mathlib.Text.{◌==◌}
use text.Mathlib.TextEquality.{eq_iff}
use one_llm_router.Prelude.Tests.{◌==◌ as nat_eq, leb, if◌then◌else◌, Bool-cases}
use one_llm_router.Prelude.Lists.{any, all, In}

abbrev pub str_eq : String → String → Bool
str_eq s t = s == t

-- slices.Contains(list, s)
abbrev pub contains : List String → String → Bool
contains list s = any (λ t. str_eq t s) list

pub contains-In : (list : List String) (s : String) → contains list s ≡ true → In s list
contains-In [] s h = cc
contains-In (t ∷ list) s h = ground (arith, eq_iff t s, contains-In list s)

pub In-contains : (list : List String) (s : String) → In s list → contains list s ≡ true
In-contains [] s h = elim h [ ]
In-contains (t ∷ list) s h = ground (arith, eq_iff t s, In-contains list s)

pub all-In :
    (p : String → Bool) (list : List String) (s : String)
    → all p list ≡ true
    → In s list
    → p s ≡ true
all-In p (t ∷ list) s h (inl e) = ground (arith, e)
all-In p (t ∷ list) s h (inr later) = ground (arith, all-In p list s)
all-In p [] s h later = elim later [ ]

-- Texts that a test tells apart differ.
pub told_apart :
    (test : String → Bool) (s t : String) → test s ≡ true → test t ≡ false → str_eq s t ≡ false
told_apart test s t passes fails = elim (Bool-cases (str_eq s t)) [
  | inl same ↦ cc (fails, subst (λ u. test u ≡ true) ((eq_iff s t).0 same) passes)
  | inr differ ↦ differ
]

-- strings.HasPrefix(s, prefix)
unfoldable pub has_prefix : String → String → Bool
has_prefix s String.[] = true
has_prefix String.[] (String.◌∷◌ c p) = false
has_prefix (String.◌∷◌ d s) (String.◌∷◌ c p) = nat_eq (code d) (code c) && has_prefix s p

-- unicode.IsSpace
abbrev pub is_space : ℕ → Bool
is_space c =
    (leb 9 c && leb c 13)
    || nat_eq c 32
    || nat_eq c 0x85
    || nat_eq c 0xa0
    || nat_eq c 0x1680
    || (leb 0x2000 c && leb c 0x200a)
    || nat_eq c 0x2028
    || nat_eq c 0x2029
    || nat_eq c 0x202f
    || nat_eq c 0x205f
    || nat_eq c 0x3000

-- strings.TrimSpace(s)
trim_left : String → String
trim_left String.[] = ""
trim_left (String.◌∷◌ c s) =
    let rest = trim_left s in if is_space (code c) then rest else String.◌∷◌ c s

trim_right : String → String
trim_right String.[] = ""
trim_right (String.◌∷◌ c s) =
    let rest = trim_right s in if is_space (code c) && rest == "" then "" else String.◌∷◌ c rest

unfoldable pub trim_space : String → String
unfolding trim_left trim_right
trim_space s = trim_left (trim_right s)

abbrev lower_code : ℕ → ℕ
lower_code c = if leb b'A' c && leb c b'Z' then c + 32 else c

-- strings.ToLower(s) == t, for an ASCII text t of lower-case letters other than i and k
-- (the only ones that a letter outside ASCII lowers to)
unfoldable pub lower_eq : String → String → Bool
lower_eq String.[] String.[] = true
lower_eq (String.◌∷◌ c s) (String.◌∷◌ d t) = nat_eq (lower_code (code c)) (code d) && lower_eq s t
lower_eq _ _ = false

tests :
    (trim_space "  a b " ≡ "a b")
    × (has_prefix "/v1/x" "/v1/" ≡ true)
    × (lower_eq "HtTP" "http" ≡ true)
unfolding trim_space has_prefix lower_eq
tests = (refl, refl, refl)
