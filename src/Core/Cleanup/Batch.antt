-- ===== src/Core/Cleanup/Batch.antt =====
-- internal/store/records.go: what one batch deletes.
use one_llm_router.Prelude.{
  ℕ, zero, suc, ◌+◌, ◌-◌, ◌≡◌, refl, ap, sym, ◌∙◌, Bool, true, false, not, List, [], ◌∷◌, arith,
  length, take, filter, min, Bool-cases, inl, inr, if◌then◌else◌,
}
use one_llm_router.Prelude.Int.{ℤ, eq_ℤ_iff}
use one_llm_router.Core.Cleanup.{RequestRecord, is_old, old_ids, has_id, delete_ids, delete_before}

abbrev pub ids_of : List RequestRecord → List ℤ
ids_of [] = []
ids_of (r ∷ rows) = r.id ∷ ids_of rows

-- The primary key: no id twice.
abbrev pub HasDistinctIds : List RequestRecord → Type 0
HasDistinctIds [] = Unit
HasDistinctIds (r ∷ rows) = (has_id r.id (ids_of rows) ≡ false) × HasDistinctIds rows

-- A deletion by other ids.
delete_ids-other :
    (i : ℤ) (ids : List ℤ) (rows : List RequestRecord)
    → has_id i (ids_of rows) ≡ false
    → delete_ids (i ∷ ids) rows ≡ delete_ids ids rows
delete_ids-other i ids [] h = refl
delete_ids-other i ids (r ∷ rows) h =
    ground (arith, delete_ids-other i ids rows, eq_ℤ_iff i r.id, eq_ℤ_iff r.id i)

delete_ids-nil : (rows : List RequestRecord) → delete_ids [] rows ≡ rows
delete_ids-nil [] = refl
delete_ids-nil (r ∷ rows) = ap (λ t. r ∷ t) (delete_ids-nil rows)

has_id-take :
    (id : ℤ) (n : ℕ) (ids : List ℤ) → has_id id ids ≡ false → has_id id (take n ids) ≡ false
has_id-take id zero ids h = refl
has_id-take id (suc n) [] h = refl
has_id-take id (suc n) (i ∷ ids) h = ground (arith, has_id-take id n ids)

module _ (before : ℕ) where
  has_id-old_ids :
      (id : ℤ) (rows : List RequestRecord)
      → has_id id (ids_of rows) ≡ false
      → has_id id (old_ids before rows) ≡ false
  has_id-old_ids id [] h = refl
  has_id-old_ids id (r ∷ rows) h = ground (arith, has_id-old_ids id rows)

  -- The rows without the first `n` old ones.
  abbrev pub drop_old : ℕ → List RequestRecord → List RequestRecord
  drop_old zero rows = rows
  drop_old (suc n) [] = []
  drop_old (suc n) (r ∷ rows) =
      let fewer = drop_old n rows in
      let rest = drop_old (suc n) rows in if is_old before r then fewer else r ∷ rest

  module _ (r : RequestRecord) (rows : List RequestRecord) where
    old_ids-old : is_old before r ≡ true → old_ids before (r ∷ rows) ≡ r.id ∷ old_ids before rows
    old_ids-old t = ap (λ b. if b then r.id ∷ old_ids before rows else old_ids before rows) t

    old_ids-recent : is_old before r ≡ false → old_ids before (r ∷ rows) ≡ old_ids before rows
    old_ids-recent f = ap (λ b. if b then r.id ∷ old_ids before rows else old_ids before rows) f

    drop_old-old : (n : ℕ) → is_old before r ≡ true → drop_old (suc n) (r ∷ rows) ≡ drop_old n rows
    drop_old-old n t = ap (λ b. if b then drop_old n rows else r ∷ drop_old (suc n) rows) t

    drop_old-kept :
        (n : ℕ) → is_old before r ≡ false → drop_old (suc n) (r ∷ rows) ≡ r ∷ drop_old (suc n) rows
    drop_old-kept n f = ap (λ b. if b then drop_old n rows else r ∷ drop_old (suc n) rows) f

    delete_ids-cons :
        (ids : List ℤ) (b : Bool)
        → has_id r.id ids ≡ b
        → delete_ids ids (r ∷ rows) ≡ (if b then delete_ids ids rows else r ∷ delete_ids ids rows)
    delete_ids-cons ids b h = ap (λ b. if b then delete_ids ids rows else r ∷ delete_ids ids rows) h

    own_id : (ids : List ℤ) → has_id r.id (r.id ∷ ids) ≡ true
    own_id ids = ground (arith, eq_ℤ_iff r.id r.id)

  -- Where ids are distinct, a batch deletes the first rows among the old ones.
  pub delete_ids-drop_old :
      (n : ℕ) (rows : List RequestRecord)
      → HasDistinctIds rows
      → delete_ids (take n (old_ids before rows)) rows ≡ drop_old n rows
  delete_ids-drop_old zero rows h = delete_ids-nil rows
  delete_ids-drop_old (suc n) [] h = refl
  delete_ids-drop_old (suc n) (r ∷ rows) (fresh, h) = elim (Bool-cases (is_old before r)) [
    | inl t ↦
        ap (λ ids. delete_ids (take (suc n) ids) (r ∷ rows)) (old_ids-old r rows t)
        ∙ delete_ids-cons r rows (r.id ∷ take n (old_ids before rows)) true (own_id r rows _)
        ∙ delete_ids-other r.id (take n (old_ids before rows)) rows fresh
        ∙ delete_ids-drop_old n rows h
        ∙ sym (drop_old-old r rows n t)
    | inr f ↦
        ap (λ ids. delete_ids (take (suc n) ids) (r ∷ rows)) (old_ids-recent r rows f)
        ∙ delete_ids-cons r rows (take (suc n) (old_ids before rows)) false
            (has_id-take r.id (suc n) (old_ids before rows) (has_id-old_ids r.id rows fresh))
        ∙ ap (λ l. r ∷ l) (delete_ids-drop_old (suc n) rows h)
        ∙ sym (drop_old-kept r rows n f)
  ]

  abbrev pub recent : List RequestRecord → List RequestRecord
  recent rows = filter (λ r. not (is_old before r)) rows

  abbrev pub count_old : List RequestRecord → ℕ
  count_old [] = 0
  count_old (r ∷ rows) = (if is_old before r then 1 else 0) + count_old rows

  pub drop_old-recent : (n : ℕ) (rows : List RequestRecord) → recent (drop_old n rows) ≡ recent rows
  drop_old-recent zero rows = refl
  drop_old-recent (suc n) [] = refl
  drop_old-recent (suc n) (r ∷ rows) =
      ground (arith, drop_old-recent n rows, drop_old-recent (suc n) rows)

  pub count_old-drop_old :
      (n : ℕ) (rows : List RequestRecord) → count_old (drop_old n rows) ≡ count_old rows - n
  count_old-drop_old zero rows = omega arith
  count_old-drop_old (suc n) [] = omega arith
  count_old-drop_old (suc n) (r ∷ rows) =
      ground (arith, count_old-drop_old n rows, count_old-drop_old (suc n) rows)

  pub length-drop_old :
      (n : ℕ) (rows : List RequestRecord)
      → length (drop_old n rows) + min n (count_old rows) ≡ length rows
  length-drop_old zero rows = omega arith
  length-drop_old (suc n) [] = omega arith
  length-drop_old (suc n) (r ∷ rows) =
      ground (arith, length-drop_old n rows, length-drop_old (suc n) rows)

  has_id-drop_old :
      (id : ℤ) (n : ℕ) (rows : List RequestRecord)
      → has_id id (ids_of rows) ≡ false
      → has_id id (ids_of (drop_old n rows)) ≡ false
  has_id-drop_old id zero rows h = h
  has_id-drop_old id (suc n) [] h = refl
  has_id-drop_old id (suc n) (r ∷ rows) h =
      ground (arith, has_id-drop_old id n rows, has_id-drop_old id (suc n) rows)

  pub drop_old-HasDistinctIds :
      (n : ℕ) (rows : List RequestRecord) → HasDistinctIds rows → HasDistinctIds (drop_old n rows)
  drop_old-HasDistinctIds zero rows h = h
  drop_old-HasDistinctIds (suc n) [] h = tt
  drop_old-HasDistinctIds (suc n) (r ∷ rows) (fresh, h) = elim (Bool-cases (is_old before r)) [
    | inl t ↦ rw t (drop_old-HasDistinctIds n rows h)
    | inr f ↦ rw f (has_id-drop_old r.id (suc n) rows fresh, drop_old-HasDistinctIds (suc n) rows h)
  ]

  -- A batch that succeeds leaves the rows without the first 1000 old ones, and reports how many
  -- those were.
  pub delete_before_lem :
      (rows : List RequestRecord)
      → HasDistinctIds rows
      → delete_before before rows ≡ (drop_old 1000 rows, min 1000 (count_old rows))
  unfolding delete_before
  delete_before_lem rows h =
      ap (λ left. (left, length rows - length left)) (delete_ids-drop_old 1000 rows h)
      ∙ ap (λ n. (drop_old 1000 rows, n)) (omega (arith, length-drop_old 1000 rows))
