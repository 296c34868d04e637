-- ===== src/Core/Selector/Compact.antt =====
-- internal/core/account_selector.go: the filter that writes into the slice it reads, as in `pick`.
use mathlib.Core.List.{append-nil, append_assoc}
use one_llm_router.Prelude.{
  ℕ, suc, ◌+◌, ◌≡◌, refl, sym, ap, ◌∙◌, Bool, some, List, [], ◌∷◌, ◌++◌, arith, length, get_elem?,
  set, take, filter, length-append, Bool-cases, inl, inr,
}
use one_llm_router.Core.Selector.{compact, filter_in_place}

module _ {A : Type 0} where
  get_elem?-append :
      (xs : List A) (y : A) (ys : List A) → get_elem? (xs ++ y ∷ ys) (length xs) ≡ some y
  get_elem?-append [] y ys = refl
  get_elem?-append (x ∷ xs) y ys = get_elem?-append xs y ys

  set-append :
      (xs : List A) (y v : A) (ys : List A) → set (xs ++ y ∷ ys) (length xs) v ≡ xs ++ v ∷ ys
  set-append [] y v ys = refl
  set-append (x ∷ xs) y v ys = ap (λ t. x ∷ t) (set-append xs y v ys)

  take-append : (xs ys : List A) → take (length xs) (xs ++ ys) ≡ xs
  take-append [] ys = refl
  take-append (x ∷ xs) ys = ap (λ t. x ∷ t) (take-append xs ys)

  -- Writing `a` behind what was kept, while `a` is the next unread element.
  set-shift :
      (a : A) (kept junk unread : List A)
      → (junk' : List A) × (set (kept ++ (junk ++ a ∷ unread)) (length kept) a
          ≡ (kept ++ a ∷ []) ++ (junk' ++ unread))
        × (length junk' ≡ length junk)
  set-shift a kept [] unread = ([], rw append_assoc (set-append kept a a unread), refl)
  set-shift a kept (b ∷ junk) unread = (
    junk ++ a ∷ [],
    simp append_assoc (set-append kept b a (junk ++ a ∷ unread)),
    omega (arith, length-append junk (a ∷ [])),
  )

  -- The array is what was kept, what was read and is overwritten next, and what is unread.
  compact_inv :
      (p : A → Bool) (unread kept junk array : List A) (i j : ℕ)
      → array ≡ kept ++ (junk ++ unread)
      → i ≡ length kept + length junk
      → j ≡ length kept
      → compact p (length unread) i j array ≡ kept ++ filter p unread
  unfolding compact
  compact_inv p [] kept junk array i j e ei ej = rw (e, ej, take-append) (sym (append-nil kept))
  compact_inv p (a ∷ unread) kept junk array i j e ei ej = elim (Bool-cases (p a)) [
    | inl t ↦
        let (junk', written, same) = set-shift a kept junk unread in
        rw (elem, compact, t)
          (compact_inv p unread (kept ++ a ∷ []) junk' (set array j a) (suc i) (suc j)
              (rw (e, ej) written) (omega (arith, same, length-append kept (a ∷ [])))
              (omega (arith, length-append kept (a ∷ [])))
            ∙ append_assoc kept (a ∷ []) (filter p unread))
    | inr f ↦
        rw (elem, compact, f)
          (compact_inv p unread kept (junk ++ a ∷ []) array (suc i) j (e ∙ simp append_assoc)
            (omega (arith, length-append junk (a ∷ []))) ej)
  ]
    where
      elem : get_elem? array i ≡ some a
      elem = rw (e, ei, ← length-append, ← append_assoc) (get_elem?-append (kept ++ junk) a unread)

  -- The loop that writes into the array it reads leaves the elements that pass the test, in order.
  pub filter_in_place-eq-filter :
      (p : A → Bool) (active : List A) → filter_in_place p active ≡ filter p active
  unfolding filter_in_place
  filter_in_place-eq-filter p active = compact_inv p active [] [] active 0 0 refl refl refl
