-- ===== src/Witnesses/Routing.antt =====
-- Three accounts with one point each, and a session whose key hashes to 15.
use one_llm_router.Prelude.{
  ℕ, ◌+◌, ◌*◌, ◌≡◌, ◌≢◌, ◌≤◌, ◌<◌, refl, ap, sym, ◌∙◌, subst, map, ◌/◌, String, List, [], ◌∷◌, In,
  some, leb, inl, inr, get_elem?, length, arith, true,
}
use one_llm_router.Prelude.Int.{ℤ, pos, negsuc}
use one_llm_router.Prelude.Result.{ok}
use one_llm_router.Domain.Account.{UpstreamAccount}
use one_llm_router.Core.HashRing.{
  HashEntry, route, ring_of, points_from, search, find_index, lookup_ring, owner_account,
  account_map,
}
use one_llm_router.Core.HashRing.Search.{IsFirst, search-IsFirst}
use one_llm_router.Core.HashRing.Owner.{Owns, find_index-Owns}
use one_llm_router.Core.HashRing.Affinity.{
  route_total, route_affinity, Within, HasUniqueIds, NoCollision,
}
use one_llm_router.Witnesses.{key_account}
use one_llm_router.Witnesses.Sort.{sort_by_hash, sort-SortsByHash}

abbrev point : ℤ → ℕ → ℕ
point (pos k) i = k * 10 + i
point (negsuc k) i = 0

abbrev key_hash : String → ℕ
key_hash key = 15

abbrev three_ids : List ℤ
three_ids = pos 3 ∷ pos 2 ∷ pos 1 ∷ []

abbrev id_of : UpstreamAccount → ℤ
id_of a = a.id

abbrev three : List UpstreamAccount
three = key_account (pos 3) ∷ key_account (pos 2) ∷ key_account (pos 1) ∷ []

abbrev two : List UpstreamAccount
two = key_account (pos 2) ∷ key_account (pos 1) ∷ []

two-Within : Within two three
two-Within a h = inr h

key_account_of :
    (known : List ℤ) (a : UpstreamAccount) → In a (map key_account known) → a ≡ key_account a.id
key_account_of [] a h = elim h [ ]
key_account_of (x ∷ known) a (inl e) = e ∙ ap key_account (sym (ap id_of e))
key_account_of (x ∷ known) a (inr h) = key_account_of known a h

three-HasUniqueIds : HasUniqueIds three
three-HasUniqueIds a b i j e =
    key_account_of three_ids a i ∙ ap key_account e ∙ sym (key_account_of three_ids b j)

-- The account of a point can be read off its hash.
abbrev Tells : HashEntry → Type 0
Tells e = e.account_id ≡ pos (e.hash / 10)

three_tell : (e : HashEntry) → In e (ring_of point 1 three) → Tells e
unfolding ring_of points_from
three_tell e (inl p) = subst Tells (sym p) refl
three_tell e (inr (inl p)) = subst Tells (sym p) refl
three_tell e (inr (inr (inl p))) = subst Tells (sym p) refl
three_tell e (inr (inr (inr h))) = elim h [ ]

three-NoCollision : NoCollision (ring_of point 1 three)
three-NoCollision d e i j h = three_tell d i ∙ ap (λ n. pos (n / 10)) h ∙ sym (three_tell e j)

three_routed : route point key_hash sort_by_hash 1 "session" three ≡ ok (key_account (pos 2))
unfolding route lookup_ring find_index owner_account account_map ring_of points_from search
three_routed = refl

route_affinity_example :
    route point key_hash sort_by_hash 1 "session" two ≡ ok (key_account (pos 2))
route_affinity_example =
    route_affinity point sort_by_hash sort-SortsByHash key_hash 0 "session" three two
      (key_account (pos 2)) two-Within three-HasUniqueIds three-NoCollision (inl refl) three_routed

three_listed : three ≢ []
three_listed h = ground arith

route_total_example :
    (c : UpstreamAccount) × (route point key_hash sort_by_hash 1 "session" three ≡ ok c)
    × In c three
route_total_example =
    route_total point sort_by_hash sort-SortsByHash key_hash 0 "session" three three_listed

some_point : 0 < length (sort_by_hash (ring_of point 1 three))
unfolding ring_of points_from
some_point = omega arith

find_index-Owns_example :
    (e : HashEntry) × (get_elem?
        (sort_by_hash (ring_of point 1 three))
        (find_index 15 (sort_by_hash (ring_of point 1 three)))
      ≡ some e)
    × Owns (sort_by_hash (ring_of point 1 three)) 15 e
find_index-Owns_example =
    find_index-Owns 15 (sort_by_hash (ring_of point 1 three))
      (sort-SortsByHash.orders (ring_of point 1 three)) some_point

leb_mono : (i j : ℕ) → i ≤ j → j < 10 → leb 4 i ≡ true → leb 4 j ≡ true
leb_mono i j h k t = ground arith

search-IsFirst_example : IsFirst (leb 4) 10 (search (leb 4) 10 0 10)
search-IsFirst_example = search-IsFirst (leb 4) 10 leb_mono
