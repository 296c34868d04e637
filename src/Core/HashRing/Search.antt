-- ===== src/Core/HashRing/Search.antt =====
-- sort.Search finds the first index at which a monotone test passes.
use one_llm_router.Prelude.{
  ℕ, zero, suc, ◌+◌, ◌-◌, ◌/◌, ◌≤◌, ◌<◌, ◌≡◌, Bool, true, false, arith, ltb, Bool-cases, inl, inr,
}
use one_llm_router.Core.HashRing.{search}

-- All before `r` fail the test, all from `r` on, below `n`, pass it.
pub record IsFirst (f : ℕ → Bool) (n r : ℕ) : Type 0 where
  pub inside : r ≤ n
  pub before : (m : ℕ) → m < r → f m ≡ false
  pub after : (m : ℕ) → r ≤ m → m < n → f m ≡ true

module _ (f : ℕ → Bool) (n : ℕ) (mono : (i j : ℕ) → i ≤ j → j < n → f i ≡ true → f j ≡ true) where
  not_before : (h m : ℕ) → m < suc h → f h ≡ false → h < n → f m ≡ false
  not_before h m b e k = elim (Bool-cases (f m)) [
    | inl t ↦ absurd (cc (mono m h (omega arith) k t))
    | inr no_pass ↦ no_pass
  ]

  search_between :
      (fuel i j : ℕ)
      → i ≤ j
      → j ≤ n
      → j - i ≤ fuel
      → ((m : ℕ) → m < i → f m ≡ false)
      → ((m : ℕ) → j ≤ m → m < n → f m ≡ true)
      → IsFirst f n (search f fuel i j)
  unfolding search
  search_between zero i j le top enough before after = record {
    inside = omega arith;
    before = before;
    after = λ m h k. after m (omega arith) k;
  }
  search_between (suc fuel) i j le top enough before after = elim (Bool-cases (ltb i j)) [
    | inr stop ↦ rw stop (record {
      inside = omega arith;
      before = before;
      after = λ m h k. after m (ground arith) k;
    })
    | inl go ↦
        let h = (i + j) / 2 in
        elim (Bool-cases (f h)) [
          | inl t ↦
              rw (go, t)
                (search_between fuel i h (ground arith) (ground arith) (ground arith) before
                  (λ m b k. mono h m b k t))
          | inr e ↦
              rw (go, e)
                (search_between fuel (suc h) j (ground arith) top (ground arith)
                  (λ m b. not_before h m b e (ground arith)) after)
        ]
  ]

  -- From a monotone test the search returns the first index that passes, or `n` if none does.
  pub search-IsFirst : IsFirst f n (search f n 0 n)
  search-IsFirst =
      search_between n 0 n (omega arith) (omega arith) (omega arith) (λ m h. absurd (omega arith))
        (λ m h k. absurd (omega arith))
