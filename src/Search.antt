-- ===== src/Search.antt =====
-- sort.Search of the Go standard library, which the buffer calls on its items: the smallest index
-- of [0, n) at which a monotone test holds, or n.
use scopecache.Prelude.{
  ℕ, zero, suc, ◌+◌, ◌/◌, ◌≤◌, ◌<◌, ◌≡◌, Bool, true, false, ltb, arith, Bool-cases, inl, inr,
}

-- The loop `for i < j`. The interval at least halves, so fuel j - i is enough.
unfoldable pub search_loop : ℕ → (ℕ → Bool) → ℕ → ℕ → ℕ
search_loop zero test i j = i
search_loop (suc fuel) test i j = elim (ltb i j) [
  | false ↦ i
  | true ↦ elim (test ((i + j) / 2)) [
    | true ↦ search_loop fuel test i ((i + j) / 2)
    | false ↦ search_loop fuel test ((i + j) / 2 + 1) j
  ]
]

unfoldable pub search : ℕ → (ℕ → Bool) → ℕ
unfolding search_loop
search n test = search_loop n test 0 n

-- A test that never turns false again on [0, n).
abbrev pub Monotone : ℕ → (ℕ → Bool) → Type 0
Monotone n test = (i j : ℕ) → i ≤ j → j < n → test i ≡ true → test j ≡ true

-- What the loop knows of its bounds.
pub record Bounds (n : ℕ) (test : ℕ → Bool) (i j : ℕ) : Type 0 where
  pub low_high : i ≤ j
  pub high_in : j ≤ n
  pub below : (k : ℕ) → k < i → test k ≡ false
  pub above : (k : ℕ) → j ≤ k → k < n → test k ≡ true

search_loop-Bounds :
    (n : ℕ) (test : ℕ → Bool)
    → Monotone n test
    → (fuel i j : ℕ) → j ≤ i + fuel
    → Bounds n test i j
    → Bounds n test (search_loop fuel test i j) (search_loop fuel test i j)
unfolding search_loop
search_loop-Bounds n test mono zero i j enough b = record {
  low_high = omega arith;
  high_in = omega arith;
  below = b.below;
  above = λ k h lt. b.above k (omega arith) lt;
}
search_loop-Bounds n test mono (suc fuel) i j enough b = elim (Bool-cases (ltb i j)) [
  | inl more ↦ elim (Bool-cases (test ((i + j) / 2))) [
    | inl hit ↦
        rw (more, hit, search_loop)
          (search_loop-Bounds n test mono fuel i ((i + j) / 2) (ground arith) (record {
            low_high = ground arith;
            high_in = ground arith;
            below = b.below;
            above = λ k h lt. mono ((i + j) / 2) k h lt hit;
          }))
    | inr miss ↦
        rw (more, miss, search_loop)
          (search_loop-Bounds n test mono fuel ((i + j) / 2 + 1) j (ground arith) (record {
            low_high = ground arith;
            high_in = b.high_in;
            below = λ k h. elim (Bool-cases (test k)) [
              | inl e ↦ cc (mono k ((i + j) / 2) (omega arith) (ground arith) e)
              | inr e ↦ e
            ];
            above = b.above;
          }))
  ]
  | inr done ↦
      rw (done, search_loop)
        (record {
          low_high = omega arith;
          high_in = ground arith;
          below = b.below;
          above = λ k h lt. b.above k (ground arith) lt;
        })
]

-- A monotone test is false below the result and true from the result on.
pub search-Bounds :
    (n : ℕ) (test : ℕ → Bool)
    → Monotone n test
    → (search n test ≤ n)
      × ((k : ℕ) → k < search n test → test k ≡ false)
      × ((k : ℕ) → search n test ≤ k → k < n → test k ≡ true)
unfolding search
search-Bounds n test mono = (b.high_in, b.below, b.above)
  where
    b : Bounds n test (search_loop n test 0 n) (search_loop n test 0 n)
    b = search_loop-Bounds n test mono n 0 n (omega arith) (record {
      low_high = omega arith;
      high_in = omega arith;
      below = λ k h. absurd (omega arith);
      above = λ k h lt. absurd (omega arith);
    })
