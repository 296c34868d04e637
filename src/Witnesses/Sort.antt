-- ===== src/Witnesses/Sort.antt =====
-- A sort by hash that meets what the ring relies on.
use one_llm_router.Prelude.{
  ℕ, zero, suc, ◌≤◌, ◌≡◌, ap, some, List, [], ◌∷◌, arith, leb, leb→le, leb→gt, In, In_get_elem?,
  Bool-cases, inl, inr, ◌⊎◌, if◌then◌else◌,
}
use one_llm_router.Core.HashRing.{HashEntry, IsOrdered, SortsByHash}

abbrev hash_of : HashEntry → ℕ
hash_of e = e.hash

first : {x d : HashEntry} → some x ≡ some d → x ≡ d
first h = ground arith

abbrev insert : HashEntry → List HashEntry → List HashEntry
insert e [] = e ∷ []
insert e (d ∷ ring) =
    let rest = insert e ring in if leb e.hash d.hash then e ∷ d ∷ ring else d ∷ rest

abbrev pub sort_by_hash : List HashEntry → List HashEntry
sort_by_hash [] = []
sort_by_hash (e ∷ ring) = insert e (sort_by_hash ring)

insert-In : (e d : HashEntry) (ring : List HashEntry) → In d (insert e ring) → (d ≡ e) ⊎ In d ring
insert-In e d [] h = h
insert-In e d (x ∷ ring) h = elim (Bool-cases (leb e.hash x.hash)) [
  | inl t ↦ rw t at h
  | inr f ↦ elim (rw f at h) [
    | inl same ↦ inr (inl same)
    | inr there ↦ elim (insert-In e d ring there) [
      | inl same ↦ inl same
      | inr deep ↦ inr (inr deep)
    ]
  ]
]

In-insert : (e d : HashEntry) (ring : List HashEntry) → (d ≡ e) ⊎ In d ring → In d (insert e ring)
In-insert e d [] h = h
In-insert e d (x ∷ ring) h = elim (Bool-cases (leb e.hash x.hash)) [
  | inl t ↦ rw t h
  | inr f ↦ rw f (elim h [
    | inl same ↦ inr (In-insert e d ring (inl same))
    | inr (inl same) ↦ inl same
    | inr (inr there) ↦ inr (In-insert e d ring (inr there))
  ])
]

-- Each entry is at most any later one.
abbrev Ascending : List HashEntry → Type 0
Ascending [] = Unit
Ascending (e ∷ ring) = ((d : HashEntry) → In d ring → e.hash ≤ d.hash) × Ascending ring

insert-Ascending :
    (e : HashEntry) (ring : List HashEntry) → Ascending ring → Ascending (insert e ring)
insert-Ascending e [] h = (λ d i. elim i [ ], tt)
insert-Ascending e (x ∷ ring) (least, rest) = elim (Bool-cases (leb e.hash x.hash)) [
  | inl t ↦ rw t (
    λ d i. elim i [
      | inl same ↦ omega (arith, leb→le e.hash x.hash t, ap hash_of same)
      | inr there ↦ omega (arith, leb→le e.hash x.hash t, least d there)
    ],
    (least, rest),
  )
  | inr f ↦ rw f (
    λ d i. elim (insert-In e d ring i) [
      | inl same ↦ omega (arith, leb→gt e.hash x.hash f, ap hash_of same)
      | inr there ↦ least d there
    ],
    insert-Ascending e ring rest,
  )
]

sort-Ascending : (ring : List HashEntry) → Ascending (sort_by_hash ring)
sort-Ascending [] = tt
sort-Ascending (e ∷ ring) = insert-Ascending e (sort_by_hash ring) (sort-Ascending ring)

Ascending-IsOrdered : (ring : List HashEntry) → Ascending ring → IsOrdered ring
Ascending-IsOrdered [] h i j d e le p q = ground arith
Ascending-IsOrdered (x ∷ ring) (least, rest) zero zero d e le p q =
    omega (arith, ap hash_of (first p), ap hash_of (first q))
Ascending-IsOrdered (x ∷ ring) (least, rest) zero (suc j) d e le p q =
    omega (arith, ap hash_of (first p), least e (In_get_elem? e ring j q))
Ascending-IsOrdered (x ∷ ring) (least, rest) (suc i) zero d e le p q = absurd (omega arith)
Ascending-IsOrdered (x ∷ ring) (least, rest) (suc i) (suc j) d e le p q =
    Ascending-IsOrdered ring rest i j d e (omega arith) p q

sort_keeps : (ring : List HashEntry) (e : HashEntry) → In e ring → In e (sort_by_hash ring)
sort_keeps [] e h = h
sort_keeps (x ∷ ring) e (inl h) = In-insert x e (sort_by_hash ring) (inl h)
sort_keeps (x ∷ ring) e (inr h) = In-insert x e (sort_by_hash ring) (inr (sort_keeps ring e h))

sort_adds_nothing : (ring : List HashEntry) (e : HashEntry) → In e (sort_by_hash ring) → In e ring
sort_adds_nothing [] e h = h
sort_adds_nothing (x ∷ ring) e h = elim (insert-In x e (sort_by_hash ring) h) [
  | inl same ↦ inl same
  | inr there ↦ inr (sort_adds_nothing ring e there)
]

pub sort-SortsByHash : SortsByHash sort_by_hash
sort-SortsByHash = record {
  keeps = sort_keeps;
  adds_nothing = sort_adds_nothing;
  orders = λ ring. Ascending-IsOrdered (sort_by_hash ring) (sort-Ascending ring);
}
