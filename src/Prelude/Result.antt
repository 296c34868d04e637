-- ===== src/Prelude/Result.antt =====
-- The two results of a fallible Go call, `(value, nil)` and `(zero, err)`.
use mathlib.Core.Path.{◌≡◌, refl, subst}
use mathlib.Core.Bool.{Bool, true, false, not}
use one_llm_router.Prelude.Tests.{if◌then◌else◌}
use native.Mathlib.Omega.{arith}

pub data Result (E A : Type 0) : Type 0 where
  err : E → Result E A
  ok : A → Result E A

-- `v, err := first(); if err != nil { return err }; then(v)`
infixl 5 ◌>>=◌
abbrev pub ◌>>=◌ : {E B V : Type 0} → Result E V → (V → Result E B) → Result E B
err failure >>= continue = err failure
ok value >>= continue = continue value

-- the same where the call returns nothing but its error
infixl 5 ◌>>◌
abbrev pub ◌>>◌ : {E B : Type 0} → Result E (Unit {0}) → Result E B → Result E B
check >> continue = check >>= λ done. continue

-- if err != nil { return wrap(err) }
abbrev pub map_err : {E F A : Type 0} → (E → F) → Result E A → Result F A
map_err f (ok a) = ok a
map_err f (err e) = err (f e)

-- If both calls succeeded, so did the first, with the value that the second was given.
pub >>=-eq-ok :
    {E V B : Type 0} (first : Result E V) (next : V → Result E B) {last : B}
    → (first >>= next) ≡ ok last
    → (value : V) × (first ≡ ok value) × (next value ≡ ok last)
>>=-eq-ok (err failure) next h = cc
>>=-eq-ok (ok value) next h = (value, refl, h)

pub map_err-eq-ok :
    {E F A : Type 0} (g : E → F) (r : Result E A) {a : A} → map_err g r ≡ ok a → r ≡ ok a
map_err-eq-ok g (ok a) h = ground arith
map_err-eq-ok g (err e) h = cc

pub ok-eq : {E A : Type 0} {a b : A} → ◌≡◌ {A = Result E A} (ok a) (ok b) → a ≡ b
ok-eq h = ground (arith, h)

-- `if test { return err }` in front of a result that is there
pub guard-eq-ok :
    {E A : Type 0} (test : Bool) (e : E) {r : Result E A} {a : A}
    → (if test then err e else r) ≡ ok a
    → (test ≡ false) × (r ≡ ok a)
guard-eq-ok true e h = cc
guard-eq-ok false e h = (refl, h)

not-true : (b : Bool) → not b ≡ false → b ≡ true
not-true true h = refl
not-true false h = cc

pub guard_not-eq-ok :
    {E A : Type 0} (test : Bool) (e : E) {r : Result E A} {a : A}
    → (if not test then err e else r) ≡ ok a
    → (test ≡ true) × (r ≡ ok a)
guard_not-eq-ok test e h =
    let (passed, rest) = guard-eq-ok (not test) e h in (not-true test passed, rest)

-- The value of a call, where it has one, satisfies P.
module _ {E : Type 0} where
  abbrev pub Yields : {A : Type 0} → (A → Type 0) → Result E A → Type 0
  Yields P (err e) = Unit
  Yields P (ok a) = P a

  module _ {A : Type 0} (P : A → Type 0) where
    pub >>=-Yields :
        {V : Type 0} (r : Result E V) (next : V → Result E A)
        → ((v : V) → r ≡ ok v → Yields P (next v))
        → Yields P (r >>= next)
    >>=-Yields (err e) next h = tt
    >>=-Yields (ok v) next h = h v refl

    pub Yields-eq : (r : Result E A) (a : A) → Yields P r → r ≡ ok a → P a
    Yields-eq (ok b) a h e = subst P (ground (arith, e)) h
    Yields-eq (err b) a h e = cc
