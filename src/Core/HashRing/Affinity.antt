-- ===== src/Core/HashRing/Affinity.antt =====
-- internal/core/session_router.go: where a session goes, and that it stays there while its account
-- stays, whichever other accounts come or go.
use one_llm_router.Prelude.{
  ℕ, zero, suc, String, ◌≡◌, refl, sym, ap, subst, ◌∙◌, some, List, [], ◌∷◌, arith, ◌≢◌, get_elem?,
  In, In-append_left, In-append_right, In-append, Option-cases, ◌⊎◌, inl, inr,
}
use one_llm_router.Prelude.Int.{ℤ, eq_ℤ_iff}
use one_llm_router.Prelude.Result.{Result, ok}
use one_llm_router.Domain.Account.{UpstreamAccount}
use one_llm_router.Core.Selector.{SelectError}
use one_llm_router.Core.HashRing.{
  or_panic, HashEntry, SortsByHash, account_map, points_from, ring_of, find_index, owner_account,
  lookup_ring, route,
}
use one_llm_router.Core.HashRing.Owner.{Owns, index_of, find_index-Owns}

account_map_sound :
    (l : List UpstreamAccount) (id : ℤ) (b : UpstreamAccount)
    → account_map l id ≡ some b
    → In b l × (b.id ≡ id)
unfolding account_map
account_map_sound [] id b h = cc
account_map_sound (x ∷ l) id b h = elim (Option-cases (account_map l id)) [
  | inr (c, found) ↦
      let (member, same) = account_map_sound l id b (found ∙ (rw found at h)) in (inr member, same)
  | inl gone ↦ let here = rw gone at h in (inl (ground arith), ground (arith, eq_ℤ_iff x.id id))
]

account_map_total :
    (l : List UpstreamAccount) (a : UpstreamAccount)
    → In a l
    → (b : UpstreamAccount) × (account_map l a.id ≡ some b)
unfolding account_map
account_map_total [] a h = elim h [ ]
account_map_total (x ∷ l) a h = elim (Option-cases (account_map l a.id)) [
  | inr (c, found) ↦ (c, rw found refl)
  | inl gone ↦ elim h [
    | inl e ↦
        (x, rw gone (ground (arith, eq_ℤ_iff x.id a.id, ap (λ (t : UpstreamAccount). t.id) e)))
    | inr member ↦ absurd (let (b, found) = account_map_total l a member in cc (gone, found))
  ]
]

module _ (crc32_point : ℤ → ℕ → ℕ) where
  abbrev pub ring : ℕ → List UpstreamAccount → List HashEntry
  ring = ring_of crc32_point

  abbrev points : ℤ → ℕ → ℕ → List HashEntry
  points = points_from crc32_point

  points-id : (id : ℤ) (i left : ℕ) (e : HashEntry) → In e (points id i left) → e.account_id ≡ id
  unfolding points_from
  points-id id i zero e h = elim h [ ]
  points-id id i (suc left) e (inl p) = ap (λ (t : HashEntry). t.account_id) p
  points-id id i (suc left) e (inr h) = points-id id (suc i) left e h

  ring-In :
      (n : ℕ) (l : List UpstreamAccount) (e : HashEntry)
      → In e (ring n l)
      → (a : UpstreamAccount) × In a l × In e (points a.id 0 n)
  unfolding ring_of
  ring-In n [] e h = elim h [ ]
  ring-In n (a ∷ l) e h = elim (In-append e (points a.id 0 n) (ring n l) h) [
    | inl here ↦ (a, inl refl, here)
    | inr there ↦ let (b, member, point) = ring-In n l e there in (b, inr member, point)
  ]

  In-ring :
      (n : ℕ) (l : List UpstreamAccount) (a : UpstreamAccount) (e : HashEntry)
      → In a l
      → In e (points a.id 0 n)
      → In e (ring n l)
  unfolding ring_of
  In-ring n [] a e h k = elim h [ ]
  In-ring n (x ∷ l) a e (inl p) k =
      In-append_left e (points x.id 0 n) (ring n l)
        (subst (λ (t : UpstreamAccount). In e (points t.id 0 n)) p k)
  In-ring n (x ∷ l) a e (inr h) k =
      In-append_right e (points x.id 0 n) (ring n l) (In-ring n l a e h k)

  ring-ne-nil :
      (n : ℕ) (a : UpstreamAccount) (l : List UpstreamAccount)
      → (e : HashEntry) × In e (ring (suc n) (a ∷ l))
  unfolding ring_of points_from
  ring-ne-nil n a l = (record { hash = crc32_point a.id 0; account_id = a.id }, inl refl)

  module _ (sort : List HashEntry → List HashEntry) (sorts : SortsByHash sort) where
    Owns-sort : (l : List HashEntry) (key : ℕ) (e : HashEntry) → Owns (sort l) key e → Owns l key e
    Owns-sort l key e (member, inl (above, least)) =
        (sorts.adds_nothing l e member, inl (above, λ d i. least d (sorts.keeps l d i)))
    Owns-sort l key e (member, inr (below, least)) = (
      sorts.adds_nothing l e member,
      inr (λ d i. below d (sorts.keeps l d i), λ d i. least d (sorts.keeps l d i)),
    )

    lookup_ring_at :
        (key : ℕ) (l : List UpstreamAccount) (r : List HashEntry) (e : HashEntry)
        (c : UpstreamAccount)
        → get_elem? r (find_index key r) ≡ some e
        → account_map l e.account_id ≡ some c
        → lookup_ring key l r ≡ some c
    unfolding lookup_ring owner_account
    lookup_ring_at key l r e c found mapped = rw (found, mapped)

    -- A route over the ring goes to a listed account that has the point owning the key.
    lookup_ring_lem :
        (n key : ℕ) (a : UpstreamAccount) (l : List UpstreamAccount)
        → (c : UpstreamAccount) × (lookup_ring key (a ∷ l) (sort (ring (suc n) (a ∷ l))) ≡ some c)
          × In c (a ∷ l)
          × (e : HashEntry) × Owns (ring (suc n) (a ∷ l)) key e
          × (c.id ≡ e.account_id)
    lookup_ring_lem n key a l =
        let (d, point) = ring-ne-nil n a l in
        let sorted = sort (ring (suc n) (a ∷ l)) in
        let (i, there, inside) = index_of d sorted (sorts.keeps _ d point) in
        let (e, found, owns) = find_index-Owns key sorted (sorts.orders _) (omega arith) in
        let owned = Owns-sort (ring (suc n) (a ∷ l)) key e owns in
        let (b, member, from) = ring-In (suc n) (a ∷ l) e owned.0 in
        let same = points-id b.id 0 (suc n) e from in
        let (c, mapped) = account_map_total (a ∷ l) b member in
        let (listed, id) = account_map_sound (a ∷ l) b.id c mapped in
        (
          c,
          lookup_ring_at key (a ∷ l) sorted e c found
              (subst (λ (t : ℤ). account_map (a ∷ l) t ≡ some c) (sym same) mapped),
          listed,
          e,
          owned,
          id ∙ sym same,
        )

    module _ (crc32_key : String → ℕ) (n : ℕ) (key : String) where
      -- The session's account: listed, and alone or with the point that owns the key.
      abbrev Serves : List UpstreamAccount → UpstreamAccount → Type 0
      Serves l c =
          In c l
          × (((b : UpstreamAccount) → In b l → b ≡ c)
              ⊎ ((e : HashEntry) × Owns (ring (suc n) l) (crc32_key key) e × (c.id ≡ e.account_id)))

      abbrev send : List UpstreamAccount → Result SelectError UpstreamAccount
      send = route crc32_point crc32_key sort (suc n) key

      send-Serves :
          (a : UpstreamAccount) (l : List UpstreamAccount)
          → (c : UpstreamAccount) × (send (a ∷ l) ≡ ok c) × Serves (a ∷ l) c
      unfolding route
      send-Serves a [] =
          (a, refl, (inl refl, inl (λ b h. elim h [ inl e ↦ e | inr no_more ↦ absurd no_more ])))
      send-Serves a (b ∷ l) =
          let (c, found, listed, e, owned, id) = lookup_ring_lem n (crc32_key key) a (b ∷ l) in
          (c, ap or_panic found, (listed, inr (e, owned, id)))

      send_lem : (l : List UpstreamAccount) (c : UpstreamAccount) → send l ≡ ok c → Serves l c
      unfolding route
      send_lem [] c h = cc
      send_lem (a ∷ l) c h =
          let (d, found, serves) = send-Serves a l in
          subst (Serves (a ∷ l)) {x = d} (ground arith) serves

      -- With at least one point for each account, a session is always routed, and to a listed account.
      pub route_total :
          (l : List UpstreamAccount)
          → l ≢ []
          → (c : UpstreamAccount) × (route crc32_point crc32_key sort (suc n) key l ≡ ok c) × In c l
      route_total [] h = absurd (h refl)
      route_total (a ∷ l) h = let (c, found, serves) = send-Serves a l in (c, found, serves.0)

-- Points of different accounts never share a hash.
abbrev pub NoCollision : List HashEntry → Type 0
NoCollision r = (d e : HashEntry) → In d r → In e r → d.hash ≡ e.hash → d.account_id ≡ e.account_id

-- The primary key of the table.
abbrev pub HasUniqueIds : List UpstreamAccount → Type 0
HasUniqueIds l = (a b : UpstreamAccount) → In a l → In b l → a.id ≡ b.id → a ≡ b

abbrev pub Within : List UpstreamAccount → List UpstreamAccount → Type 0
Within l' l = (a : UpstreamAccount) → In a l' → In a l

Owns-unique :
    (r : List HashEntry) (key : ℕ) (d e : HashEntry) → Owns r key d → Owns r key e → d.hash ≡ e.hash
Owns-unique r key d e (di, inl (da, dl)) (ei, inl (ea, el)) = omega (arith, dl e ei ea, el d di da)
Owns-unique r key d e (di, inl (da, dl)) (ei, inr (eb, el)) = absurd (omega (arith, eb d di))
Owns-unique r key d e (di, inr (db, dl)) (ei, inl (ea, el)) = absurd (omega (arith, db e ei))
Owns-unique r key d e (di, inr (db, dl)) (ei, inr (eb, el)) = omega (arith, dl e ei, el d di)

Owns-within :
    (r r' : List HashEntry) (key : ℕ) (e : HashEntry)
    → ((d : HashEntry) → In d r' → In d r)
    → In e r'
    → Owns r key e
    → Owns r' key e
Owns-within r r' key e sub here (there, inl (above, least)) =
    (here, inl (above, λ d i. least d (sub d i)))
Owns-within r r' key e sub here (there, inr (below, least)) =
    (here, inr (λ d i. below d (sub d i), λ d i. least d (sub d i)))

module _ (crc32_point : ℤ → ℕ → ℕ) (n : ℕ) (l l' : List UpstreamAccount)
    (within : Within l' l) where
  ring-Within : (e : HashEntry) → In e (ring crc32_point n l') → In e (ring crc32_point n l)
  ring-Within e h =
      let (a, member, from) = ring-In crc32_point n l' e h in
      In-ring crc32_point n l a e (within a member) from

  -- The point that owns the key stays on the ring as long as its account stays.
  Owns-kept :
      (key : ℕ) (c : UpstreamAccount) (e : HashEntry)
      → In c l'
      → c.id ≡ e.account_id
      → Owns (ring crc32_point n l) key e
      → Owns (ring crc32_point n l') key e
  Owns-kept key c e kept same owns =
      let (a, member, from) = ring-In crc32_point n l e owns.0 in
      let id = same ∙ points-id crc32_point a.id 0 n e from in
      Owns-within _ _ key e ring-Within
        (In-ring crc32_point n l' c e kept
          (subst (λ (t : ℤ). In e (points_from crc32_point t 0 n)) (sym id) from))
        owns

module _ (crc32_point : ℤ → ℕ → ℕ) (sort : List HashEntry → List HashEntry)
    (sorts : SortsByHash sort) (crc32_key : String → ℕ) (n : ℕ) (key : String) where
  -- When the listed accounts change from `l` to a part `l'` of it, a
  -- session that is routed to an account of both lists stays with it, if the ids of `l` are unique
  -- and no points of two of its accounts share a hash; each account has at least one point.
  pub route_affinity :
      (l l' : List UpstreamAccount) (c : UpstreamAccount)
      → Within l' l
      → HasUniqueIds l
      → NoCollision (ring_of crc32_point (suc n) l)
      → In c l'
      → route crc32_point crc32_key sort (suc n) key l ≡ ok c
      → route crc32_point crc32_key sort (suc n) key l' ≡ ok c
  route_affinity l [] c within unique apart kept h = elim kept [ ]
  route_affinity l (a ∷ l') c within unique apart kept h =
      let (d, found, serves') = send-Serves crc32_point sort sorts crc32_key n key a l' in
      let serves = send_lem crc32_point sort sorts crc32_key n key l c h in
      found ∙ ap ok (same d serves serves')
    where
      same :
          (d : UpstreamAccount)
          → Serves crc32_point sort sorts crc32_key n key l c
          → Serves crc32_point sort sorts crc32_key n key (a ∷ l') d
          → d ≡ c
      same d (ci, inl alone) (di, r) = alone d (within d di)
      same d (ci, r) (di, inl alone) = sym (alone c kept)
      same d (ci, inr (e, owns, id)) (di, inr (e', owns', id')) =
          let still =
            Owns-kept crc32_point (suc n) l (a ∷ l') within (crc32_key key) c e kept id owns in
          let hashes = Owns-unique _ (crc32_key key) e e' still owns' in
          let sub = ring-Within crc32_point (suc n) l (a ∷ l') within in
          unique d c (within d di) ci
            (id' ∙ sym (apart e e' owns.0 (sub e' owns'.0) hashes) ∙ sym id)
