-- ===== src/Core/HashRing/Owner.antt =====
-- Which point of the ring owns a key: the next one round the circle, however ties were ordered.
use one_llm_router.Prelude.{
  ℕ, zero, suc, ◌≤◌, ◌<◌, ◌≡◌, sym, ◌∙◌, true, some, List, [], ◌∷◌, arith, ltb, ltb→lt, leb, leb→gt,
  leb→le, length, get_elem?, get_elem?_of_lt, In, In_get_elem?, Bool-cases, ◌⊎◌, inl, inr,
}
use one_llm_router.Core.HashRing.{HashEntry, IsOrdered, search, at_or_after, find_index}
use one_llm_router.Core.HashRing.Search.{IsFirst, search-IsFirst}

-- `e` is the first point at or after `key`, or the first point of all where none is.
abbrev pub Owns : List HashEntry → ℕ → HashEntry → Type 0
Owns ring key e =
    In e ring
    × (((key ≤ e.hash) × ((d : HashEntry) → In d ring → key ≤ d.hash → e.hash ≤ d.hash))
        ⊎ (((d : HashEntry) → In d ring → d.hash < key)
            × ((d : HashEntry) → In d ring → e.hash ≤ d.hash)))

module _ {A : Type 0} where
  pub index_of : (a : A) (l : List A) → In a l → (i : ℕ) × (get_elem? l i ≡ some a) × (i < length l)
  index_of a [] h = elim h [ ]
  index_of a (x ∷ l) (inl e) = (0, ground arith, omega arith)
  index_of a (x ∷ l) (inr h) =
      let (i, found, inside) = index_of a l h in (suc i, found, omega arith)

  pub lt_of_get_elem? : (l : List A) (i : ℕ) (a : A) → get_elem? l i ≡ some a → i < length l
  lt_of_get_elem? [] i a h = cc
  lt_of_get_elem? (x ∷ l) zero a h = omega arith
  lt_of_get_elem? (x ∷ l) (suc i) a h = omega (arith, lt_of_get_elem? l i a h)

pub at_or_after_mono :
    (key : ℕ) (ring : List HashEntry)
    → IsOrdered ring
    → (i j : ℕ) → i ≤ j
    → j < length ring
    → at_or_after key ring i ≡ true
    → at_or_after key ring j ≡ true
at_or_after_mono key ring ordered i j le inside t =
    let (d, here) = get_elem?_of_lt ring i (omega arith) in
    let (e, there) = get_elem?_of_lt ring j inside in ground (arith, ordered i j d e le here there)

at_or_after_lem :
    (key : ℕ) (ring : List HashEntry) (i : ℕ) (e : HashEntry)
    → get_elem? ring i ≡ some e
    → at_or_after key ring i ≡ leb key e.hash
at_or_after_lem key ring i e h = ground arith

module _ (key : ℕ) (ring : List HashEntry) (ordered : IsOrdered ring)
    (some_point : 0 < length ring) where
  first : ℕ
  first = search (at_or_after key ring) (length ring) 0 (length ring)

  first_lem : IsFirst (at_or_after key ring) (length ring) first
  unfolding first
  first_lem =
      search-IsFirst (at_or_after key ring) (length ring) (at_or_after_mono key ring ordered)

  find_index_past : length ring ≤ first → find_index key ring ≡ 0
  unfolding find_index first
  find_index_past h = ground arith

  find_index_within : first < length ring → find_index key ring ≡ first
  unfolding find_index first
  find_index_within h = ground arith

  reaches : (e : HashEntry) → first < length ring → get_elem? ring first ≡ some e → key ≤ e.hash
  reaches e within found =
      leb→le key e.hash
        (sym (at_or_after_lem key ring first e found) ∙ first_lem.after first (omega arith) within)

  least :
      (e d : HashEntry) → get_elem? ring first ≡ some e → In d ring → key ≤ d.hash → e.hash ≤ d.hash
  least e d found member above =
      let (m, there, inside) = index_of d ring member in
      elim (Bool-cases (ltb m first)) [
        | inr from ↦ ordered first m e d (ground arith) found there
        | inl earlier ↦
            let fails =
              sym (at_or_after_lem key ring m d there)
              ∙ first_lem.before m (ltb→lt m first earlier) in
            absurd (omega (arith, leb→gt key d.hash fails))
      ]

  all_before : (d : HashEntry) → length ring ≤ first → In d ring → d.hash < key
  all_before d past member =
      let (m, there, inside) = index_of d ring member in
      leb→gt key d.hash
        (sym (at_or_after_lem key ring m d there) ∙ first_lem.before m (omega arith))

  -- On an ordered ring that is not empty the index leads to the point that owns the key.
  pub find_index-Owns :
      (e : HashEntry) × (get_elem? ring (find_index key ring) ≡ some e) × Owns ring key e
  find_index-Owns = elim (Bool-cases (ltb first (length ring))) [
    | inl within ↦
        let (e, found) = get_elem?_of_lt ring first (ltb→lt first (length ring) within) in
        (
          e,
          rw (find_index_within (ltb→lt first (length ring) within)) found,
          (
            In_get_elem? e ring first found,
            inl (reaches e (ltb→lt first (length ring) within) found, λ d. least e d found),
          ),
        )
    | inr past ↦
        let (e, found) = get_elem?_of_lt ring 0 some_point in
        (
          e,
          rw (find_index_past (ground arith)) found,
          (
            In_get_elem? e ring 0 found,
            inr (
              λ d. all_before d (ground arith),
              λ d member.
                  let (m, there, inside) = index_of d ring member in
                  ordered 0 m e d (omega arith) found there,
            ),
          ),
        )
  ]
