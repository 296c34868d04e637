-- ===== src/Store/Rows.antt =====
-- Rows of a table under an update.
use one_llm_router.Prelude.{
  ◌≡◌, ◌≢◌, inl, inr, refl, sym, ap, ◌∙◌, subst, some-eq, true, false, some, List, [], ◌∷◌, arith,
  In, Bool-cases, if_intro, if◌then◌else◌, ◌⊎◌,
}
use one_llm_router.Domain.Account.{UpstreamAccount}
use one_llm_router.Store.Engine.{Where, Set, first_row, update_rows, count_rows}

pub count-update_rows :
    (w w' : Where) (f : Set)
    → ((a : UpstreamAccount) → w a ≡ true → w' (f a) ≡ false)
    → ((a : UpstreamAccount) → w a ≡ false → w' a ≡ false)
    → (rows : List UpstreamAccount) → count_rows w' (update_rows w f rows) ≡ 0
count-update_rows w w' f hit miss [] = refl
count-update_rows w w' f hit miss (a ∷ rows) =
    let rest = count-update_rows w w' f hit miss rows in
    elim (Bool-cases (w a)) [
      | inl t ↦ ground (arith, rest, hit a t)
      | inr n ↦ ground (arith, rest, miss a n)
    ]

-- A row after an update is a row of before, as it was or as the update writes it.
pub In-update_rows :
    (w : Where) (f : Set) (rows : List UpstreamAccount) (b : UpstreamAccount)
    → In b (update_rows w f rows)
    → (a : UpstreamAccount) × In a rows × (((w a ≡ true) × (b ≡ f a)) ⊎ ((w a ≡ false) × (b ≡ a)))
In-update_rows w f [] b i = absurd i
In-update_rows w f (a ∷ rows) b i = elim (Bool-cases (w a)) [
  | inl t ↦
      elim (subst (λ c. In b (if c then f a ∷ update_rows w f rows else a ∷ update_rows w f rows)) t
        i) [
          | inl e ↦ (a, inl refl, inl (t, e))
          | inr later ↦ let (x, at, how) = In-update_rows w f rows b later in (x, inr at, how)
        ]
  | inr n ↦
      elim (subst (λ c. In b (if c then f a ∷ update_rows w f rows else a ∷ update_rows w f rows)) n
        i) [
          | inl e ↦ (a, inl refl, inr (n, e))
          | inr later ↦ let (x, at, how) = In-update_rows w f rows b later in (x, inr at, how)
        ]
]

-- The row that an update makes of a row.
abbrev pub row_after : Where → Set → UpstreamAccount → UpstreamAccount
row_after w f a = if w a then f a else a

pub row_of-update_rows :
    (w : Where) (f : Set) (rows : List UpstreamAccount) (b : UpstreamAccount)
    → In b (update_rows w f rows)
    → (a : UpstreamAccount) × In a rows × (b ≡ row_after w f a)
row_of-update_rows w f rows b i =
    let (a, at, how) = In-update_rows w f rows b i in
    (a, at, elim how [ inl (hit, e) ↦ rw hit e | inr (miss, e) ↦ rw miss e ])

pub first_row-In :
    (w : Where) (rows : List UpstreamAccount) (a : UpstreamAccount)
    → first_row w rows ≡ some a
    → In a rows × (w a ≡ true)
first_row-In w [] a h = ground arith
first_row-In w (b ∷ rows) a h = elim (Bool-cases (w b)) [
  | inl t ↦
      let e = some-eq (subst (λ c. (if c then some b else first_row w rows) ≡ some a) t h) in
      (inl (sym e), ap w (sym e) ∙ t)
  | inr n ↦
      let (at, t) =
        first_row-In w rows a
          (subst (λ c. (if c then some b else first_row w rows) ≡ some a) n h) in
      (inr at, t)
]

-- An update that counts some row matches one.
pub count_rows-positive :
    (w : Where) (rows : List UpstreamAccount)
    → count_rows w rows ≢ 0
    → (a : UpstreamAccount) × In a rows × (w a ≡ true)
count_rows-positive w [] h = absurd (h refl)
count_rows-positive w (b ∷ rows) h = elim (Bool-cases (w b)) [
  | inl t ↦ (b, inl refl, t)
  | inr n ↦ let (a, at, t) = count_rows-positive w rows (λ z. h (rw n z)) in (a, inr at, t)
]

pub update_rows-In :
    (w : Where) (f : Set) (rows : List UpstreamAccount) (a : UpstreamAccount)
    → In a rows
    → w a ≡ true
    → In (f a) (update_rows w f rows)
update_rows-In w f (b ∷ rows) a (inl e) t =
    subst (λ c. In (f a) (if c then f b ∷ update_rows w f rows else b ∷ update_rows w f rows))
      (sym (ap w (sym e) ∙ t)) (inl (ap f e))
update_rows-In w f (b ∷ rows) a (inr i) t =
    let rest = update_rows-In w f rows a i t in
    if_intro (λ (l : List UpstreamAccount). In (f a) l) (w b) (λ t. inr rest) (λ n. inr rest)
update_rows-In w f [] a i t = absurd i
