-- ===== src/Core/HashRing.antt =====
-- internal/core/session_router.go: sessions are kept on accounts by a ring of hash points.
pub mod Search
pub mod Owner
pub mod Affinity
use one_llm_router.Prelude.{
  ℕ, zero, suc, ◌+◌, ◌/◌, ◌≤◌, String, ◌≡◌, Bool, true, false, Option, none, some, List, [], ◌∷◌,
  ◌++◌, length, get_elem?, In, ltb, leb, if◌then◌else◌,
}
use one_llm_router.Prelude.Int.{ℤ, pos, eq_ℤ}
use one_llm_router.Prelude.Result.{Result, ok, err}
use one_llm_router.Domain.Account.{UpstreamAccount, Status, AuthMethod}
use one_llm_router.Core.Selector.{SelectError, no_capacity}

pub record HashEntry : Type 0 where
  pub hash : ℕ
  pub account_id : ℤ

-- What a map of accounts returns for a key that it does not have: the zero row.
abbrev pub zero_account : UpstreamAccount
zero_account = record {
  id = pos 0;
  name = "";
  provider = "";
  api_key = "";
  base_url = none;
  status = Status.other "";
  created_at = 0;
  updated_at = 0;
  auth_method = AuthMethod.unknown "";
  access_token = none;
  refresh_token = none;
  id_token = none;
  last_refresh = none;
  access_expires_at = none;
  email = none;
  plan_type = none;
  chatgpt_account_id = none;
  use_proxy = false;
  capabilities = [];
  primary_used_percent = none;
  secondary_used_percent = none;
  usage_updated_at = none;
  primary_reset_at = none;
  secondary_reset_at = none;
  primary_window_seconds = none;
  secondary_window_seconds = none;
}

-- accountMap[id] after `accountMap[acct.ID] = acct` for each account: the last row with that id
unfoldable pub account_map : List UpstreamAccount → ℤ → Option UpstreamAccount
account_map [] id = none
account_map (a ∷ l) id = elim (account_map l id) [
  | some b ↦ some b
  | none ↦ if eq_ℤ a.id id then some a else none
]

abbrev pub or_zero : Option UpstreamAccount → UpstreamAccount
or_zero none = zero_account
or_zero (some a) = a

-- sort.Search(n, f): the binary search of Go's library, with fuel
unfoldable pub search : (ℕ → Bool) → ℕ → ℕ → ℕ → ℕ
search f zero i j = i
search f (suc fuel) i j =
    let h = (i + j) / 2 in
    let lower = search f fuel i h in
    let upper = search f fuel (suc h) j in if ltb i j then (if f h then lower else upper) else i

-- The order that sort.Slice leaves the ring in.
abbrev pub IsOrdered : List HashEntry → Type 0
IsOrdered ring =
    (i j : ℕ) (d e : HashEntry)
    → i ≤ j
    → get_elem? ring i ≡ some d
    → get_elem? ring j ≡ some e
    → d.hash ≤ e.hash

-- sort.Slice by hash: it keeps the entries and orders them; nothing is said of equal hashes.
pub record SortsByHash (sort : List HashEntry → List HashEntry) : Type 0 where
  pub keeps : (ring : List HashEntry) (e : HashEntry) → In e ring → In e (sort ring)
  pub adds_nothing : (ring : List HashEntry) (e : HashEntry) → In e (sort ring) → In e ring
  pub orders : (ring : List HashEntry) → IsOrdered (sort ring)

abbrev pub at_or_after : ℕ → List HashEntry → ℕ → Bool
at_or_after key ring i = elim (get_elem? ring i) [ none ↦ true | some e ↦ leb key e.hash ]

-- the index that the search finds, or 0 past the end
unfoldable pub find_index : ℕ → List HashEntry → ℕ
find_index key ring =
    let idx = search (at_or_after key ring) (length ring) 0 (length ring) in
    if leb (length ring) idx then 0 else idx

unfoldable pub owner_account : List UpstreamAccount → Option HashEntry → Option UpstreamAccount
owner_account l none = none
owner_account l (some e) = some (or_zero (account_map l e.account_id))

unfoldable pub lookup_ring : ℕ → List UpstreamAccount → List HashEntry → Option UpstreamAccount
lookup_ring key l ring = owner_account l (get_elem? ring (find_index key ring))

abbrev pub or_panic : Option UpstreamAccount → Result SelectError UpstreamAccount
or_panic none = err SelectError.index_out_of_range
or_panic (some a) = ok a

-- `crc32_point id i` is the checksum of the text "<id>#<i>".
module _ (crc32_point : ℤ → ℕ → ℕ) where
  unfoldable pub points_from : ℤ → ℕ → ℕ → List HashEntry
  points_from id i zero = []
  points_from id i (suc left) =
      record { hash = crc32_point id i; account_id = id } ∷ points_from id (suc i) left

  unfoldable pub ring_of : ℕ → List UpstreamAccount → List HashEntry
  ring_of virtual_nodes [] = []
  ring_of virtual_nodes (a ∷ l) = points_from a.id 0 virtual_nodes ++ ring_of virtual_nodes l

  -- Route; `crc32_key` is the checksum of a session key, `sort` is sort.Slice by hash, and
  -- `index_out_of_range` is the panic on an empty ring
  unfoldable pub route :
      (crc32_key : String → ℕ) (sort : List HashEntry → List HashEntry) (virtual_nodes : ℕ)
      → String
      → List UpstreamAccount
      → Result SelectError UpstreamAccount
  route crc32_key sort virtual_nodes key [] = err no_capacity
  route crc32_key sort virtual_nodes key (a ∷ []) = ok a
  route crc32_key sort virtual_nodes key (a ∷ b ∷ l) =
      or_panic (lookup_ring (crc32_key key) (a ∷ b ∷ l) (sort (ring_of virtual_nodes (a ∷ b ∷ l))))

-- defaultVirtualNodes
abbrev pub default_virtual_nodes : ℕ
default_virtual_nodes = 150
