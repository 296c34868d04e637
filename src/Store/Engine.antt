-- ===== src/Store/Engine.antt =====
-- The database engine that internal/store/accounts.go runs its statements on: a state of its own,
-- three kinds of statement, and what they are documented to do to the rows. A statement that fails
-- leaves the state as it is, so it returns none. The count of an update is that of the rows matched, or
-- on MySQL that of the rows changed. The engine sets both instants of a new row by itself.
use one_llm_router.Prelude.{
  ℕ, ◌+◌, ◌≤◌, ◌≡◌, ◌≢◌, In, Bool, Option, none, some, List, [], ◌∷◌, ◌++◌, if◌then◌else◌,
}
use one_llm_router.Prelude.Int.{ℤ}
use one_llm_router.Prelude.Result.{Result, ok}
use one_llm_router.Domain.Account.{UpstreamAccount}

pub data DbError : Type 0 where
  statement_failed : DbError

-- a WHERE clause, and the columns that an UPDATE writes
abbrev pub Where : Type 0
Where = UpstreamAccount → Bool

abbrev pub Set : Type 0
Set = UpstreamAccount → UpstreamAccount

abbrev pub first_row : Where → List UpstreamAccount → Option UpstreamAccount
first_row w [] = none
first_row w (a ∷ rows) = let rest = first_row w rows in if w a then some a else rest

abbrev pub update_rows : Where → Set → List UpstreamAccount → List UpstreamAccount
update_rows w f [] = []
update_rows w f (a ∷ rows) = let rest = update_rows w f rows in if w a then f a ∷ rest else a ∷ rest

abbrev pub count_rows : Where → List UpstreamAccount → ℕ
count_rows w [] = 0
count_rows w (a ∷ rows) = let rest = count_rows w rows in if w a then 1 + rest else rest

abbrev pub stamped : (ℕ → ℕ) → Option ℕ → Option ℕ
stamped stamp none = none
stamped stamp (some t) = some (stamp t)

-- A row as it is inserted: with its new id, the instants that the engine sets, and those of the
-- tokens as the database keeps them.
abbrev pub stored_row : (ℕ → ℕ) → ℤ → ℕ → ℕ → UpstreamAccount → UpstreamAccount
stored_row stamp id created updated a = record a {
  id = id;
  created_at = created;
  updated_at = updated;
  last_refresh = stamped stamp a.last_refresh;
  access_expires_at = stamped stamp a.access_expires_at;
}

pub record Engine (S : Type 0) : Type 0 where
  pub find : Where → S → Result DbError (Option UpstreamAccount)
  pub update : Where → Set → S → Result DbError (ℕ × S)
  -- the row without its id; the engine gives it one
  pub insert : UpstreamAccount → S → Result DbError (ℤ × S)
  -- how the database keeps an instant
  pub stamp : ℕ → ℕ

pub record EngineLaws {S : Type 0} (e : Engine S) (rows : S → List UpstreamAccount) : Type 0 where
  pub found :
      (w : Where) (s : S) (o : Option UpstreamAccount)
      → e.find w s ≡ ok o
      → o ≡ first_row w (rows s)
  pub updated :
      (w : Where) (f : Set) (s s' : S) (n : ℕ)
      → e.update w f s ≡ ok (n, s')
      → (rows s' ≡ update_rows w f (rows s))
        × (n ≤ count_rows w (rows s))
        × (n ≡ 0 → rows s' ≡ rows s)
  pub inserted :
      (a : UpstreamAccount) (s s' : S) (id : ℤ)
      → e.insert a s ≡ ok (id, s')
      → (created : ℕ) × (updated : ℕ) × (rows s'
          ≡ rows s ++ stored_row e.stamp id created updated a ∷ [])
  -- the id of a new row is that of no row
  pub fresh :
      (a : UpstreamAccount) (s s' : S) (id : ℤ)
      → e.insert a s ≡ ok (id, s')
      → (b : UpstreamAccount) → In b (rows s)
      → b.id ≢ id
