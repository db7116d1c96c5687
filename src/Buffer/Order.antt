-- ===== src/Buffer/Order.antt =====
-- The order of a scope's items: they ascend by sequence number, so that the binary search finds the
-- one index of a sequence number.
use scopecache.Prelude.{
  ℕ, zero, suc, ◌+◌, ◌≤◌, ◌<◌, ◌≡◌, ◌≢◌, Bool, leb, ltb, List, [], ◌∷◌, ◌++◌, some, length,
  get_elem?, get_or, erase_idx, drop, All, sum_by, All-append, All-erase_idx, All-get, get_elem?-lt,
  sum_by-ext, arith, dec_lt, ℕ_discrete,
}
use scopecache.Search.{search, search-Bounds}
use scopecache.Buffer.{Ptr, ScopeBuffer}
use scopecache.Buffer.Locked.{item_at, index_by_seq}

abbrev pub Ascending : (Ptr → ℕ) → List Ptr → Type 0
Ascending f [] = Unit {0}
Ascending f (p ∷ ps) = All (λ q. f p < f q) ps × Ascending f ps

-- Two numberings that agree on the list order it alike.
pub Ascending-ext :
    (f g : Ptr → ℕ) (xs : List Ptr) → All (λ q. f q ≡ g q) xs → Ascending f xs → Ascending g xs
Ascending-ext f g [] h a = tt
Ascending-ext f g (x ∷ xs) h a = (above xs h.1 a.0, Ascending-ext f g xs h.1 a.1)
  where
    above :
        (ys : List Ptr)
        → All (λ q. f q ≡ g q) ys
        → All (λ q. f x < f q) ys
        → All (λ q. g x < g q) ys
    above [] e b = tt
    above (y ∷ ys) e b = (omega (arith, h.0, e.0, b.0), above ys e.1 b.1)

module _ (f : Ptr → ℕ) where
  pub Ascending-append :
      (xs : List Ptr) (p : Ptr) (n : ℕ)
      → Ascending f xs
      → All (λ q. f q ≤ n) xs
      → n < f p
      → Ascending f (xs ++ (p ∷ []))
  Ascending-append [] p n a b h = (tt, tt)
  Ascending-append (x ∷ xs) p n a b h = (
    All-append (λ q. f x < f q) xs (p ∷ []) a.0 (omega arith, tt),
    Ascending-append xs p n a.1 b.1 h,
  )

  pub Ascending-erase_idx : (xs : List Ptr) (i : ℕ) → Ascending f xs → Ascending f (erase_idx xs i)
  Ascending-erase_idx [] i a = a
  Ascending-erase_idx (x ∷ xs) zero a = a.1
  Ascending-erase_idx (x ∷ xs) (suc i) a =
      (All-erase_idx (λ q. f x < f q) xs i a.0, Ascending-erase_idx xs i a.1)

  pub Ascending-drop : (n : ℕ) (xs : List Ptr) → Ascending f xs → Ascending f (drop n xs)
  Ascending-drop zero xs a = a
  Ascending-drop (suc n) [] a = a
  Ascending-drop (suc n) (x ∷ xs) a = Ascending-drop n xs a.1

  -- An earlier item has the smaller number.
  pub Ascending-lt :
      (xs : List Ptr) (i j : ℕ)
      → Ascending f xs
      → i < j
      → j < length xs
      → f (get_or xs i 0) < f (get_or xs j 0)
  Ascending-lt [] i j a h k = absurd (omega arith)
  Ascending-lt (x ∷ xs) zero zero a h k = absurd (omega arith)
  Ascending-lt (x ∷ xs) zero (suc j) a h k = all_lt xs j a.0 (omega arith)
    where
      all_lt :
          (ys : List Ptr) (j : ℕ)
          → All (λ q. f x < f q) ys
          → j < length ys
          → f x < f (get_or ys j 0)
      all_lt [] j a k = absurd (omega arith)
      all_lt (y ∷ ys) zero a k = a.0
      all_lt (y ∷ ys) (suc j) a k = all_lt ys j a.1 (omega arith)
  Ascending-lt (x ∷ xs) (suc i) zero a h k = absurd (omega arith)
  Ascending-lt (x ∷ xs) (suc i) (suc j) a h k = Ascending-lt xs i j a.1 (omega arith) (omega arith)

  pub others-unchanged :
      {A : Type 0} (g h : Ptr → A) {x p : Ptr} (ys : List Ptr)
      → ((q : Ptr) → q ≢ p → h q ≡ g q)
      → x ≡ p
      → All (λ q. f x < f q) ys
      → All (λ q. h q ≡ g q) ys
  others-unchanged g h [] same e b = tt
  others-unchanged g h {x} {p} (y ∷ ys) same e b =
      (same y (λ r. absurd (ground arith)), others-unchanged g h ys same e b.1)

  -- A measure that changes at one pointer of the list changes the sum by as much.
  pub sum_by-change :
      (g h : Ptr → ℕ) (xs : List Ptr) (i : ℕ) {p : Ptr}
      → ((q : Ptr) → q ≢ p → h q ≡ g q)
      → Ascending f xs
      → get_elem? xs i ≡ some p
      → sum_by h xs + g p ≡ sum_by g xs + h p
  sum_by-change g h [] i same a e = cc
  sum_by-change g h (x ∷ xs) zero {p} same a e =
      ground (arith, sum_by-ext h g xs (others-unchanged g h {x = x} xs same (cc) a.0))
  sum_by-change g h (x ∷ xs) (suc i) {p} same a e =
      ground (arith, sum_by-change g h xs i same a.1 e, All-get (λ q. f x < f q) xs i a.0 e, same x)

pub get_or_of_get : (xs : List Ptr) (i : ℕ) {p : Ptr} → get_elem? xs i ≡ some p → get_or xs i 0 ≡ p
get_or_of_get [] i e = cc
get_or_of_get (x ∷ xs) zero e = ground arith
get_or_of_get (x ∷ xs) (suc i) e = get_or_of_get xs i e

abbrev pub seq_of : ScopeBuffer → Ptr → ℕ
seq_of b p = (b.heap p).seq

module _ (b : ScopeBuffer) (a : Ascending (seq_of b) b.items) where
  seq_le : (i j : ℕ) → i ≤ j → j < length b.items → (item_at b i).seq ≤ (item_at b j).seq
  seq_le i j h k = elim (ℕ_discrete i j) [
    | yes e ↦ ground arith
    | no e ↦ omega (arith, Ascending-lt (seq_of b) b.items i j a (omega arith) k)
  ]

  -- The test of the binary search for a number.
  abbrev reaches : ℕ → ℕ → Bool
  reaches seq k = leb seq (item_at b k).seq

  search-index :
      (i : ℕ) → i < length b.items → search (length b.items) (reaches (item_at b i).seq) ≡ i
  search-index i h =
      let seq = (item_at b i).seq in
      let (in_range, below, above) =
        search-Bounds (length b.items) (reaches seq)
          (λ j k p q t. ground (arith, seq_le j k p q)) in
      let s = search (length b.items) (reaches seq) in
      elim (dec_lt s i) [
        | yes p ↦ absurd (
            ground (
              arith,
              above s (omega arith) (omega arith),
              Ascending-lt (seq_of b) b.items s i a p h,
            ))
        | no p ↦ elim (dec_lt i s) [
          | yes q ↦ absurd (ground (arith, below i q))
          | no q ↦ omega arith
        ]
      ]

  -- The search by a sequence number ends at the index of the item that has it.
  pub index_by_seq_of_get :
      (i : ℕ) {p : Ptr} → get_elem? b.items i ≡ some p → index_by_seq (b.heap p).seq b ≡ some i
  unfolding index_by_seq
  index_by_seq_of_get i {p} e =
      let at : get_or b.items i 0 ≡ p = get_or_of_get b.items i e in
      let here : search (length b.items) (reaches (b.heap p).seq) ≡ i =
        rw (← at) (search-index i (get_elem?-lt b.items i e)) in
      ground (arith, here, get_elem?-lt b.items i e)

  -- The search for a boundary splits the items: up to it below the result, past it from there on.
  pub boundary-Bounds :
      (max_seq : ℕ)
      → let n = search (length b.items) (λ k. ltb max_seq (item_at b k).seq) in
        (n ≤ length b.items)
        × ((k : ℕ) → k < n → (item_at b k).seq ≤ max_seq)
        × ((k : ℕ) → n ≤ k → k < length b.items → max_seq < (item_at b k).seq)
  boundary-Bounds max_seq =
      let (in_range, below, above) =
        search-Bounds (length b.items) (λ k. ltb max_seq (item_at b k).seq)
          (λ j k p q t. ground (arith, seq_le j k p q)) in
      (in_range, λ k h. ground (arith, below k h), λ k h p. ground (arith, above k h p))
