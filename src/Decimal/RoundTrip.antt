-- ===== src/Decimal/RoundTrip.antt =====
-- A rendered int64 reads back as itself: what /get shows of a counter, a later promote can parse.
use scopecache.Prelude.{
  ℕ, zero, suc, ◌+◌, ◌-◌, ◌*◌, ◌/◌, ◌%◌, ◌^◌, ◌≤◌, ◌<◌, ◌≡◌, refl, sym, ◌∙◌, ap, ltb, some, List,
  [], ◌∷◌, arith, subst, if_intro, Bool-cases, inl, inr,
}
use scopecache.Word.{word, half, nonneg}
use scopecache.Decimal.{
  digits_loop, append_int, parse_digits, parse_unsigned, parse_int, in_range, negate,
}

pow_suc : (f : ℕ) → 10 ^ (suc f) ≡ 10 * 10 ^ f
pow_suc f = omega arith

parse_digits-digit :
    (d : ℕ) (cs : List ℕ) (n : ℕ)
    → d < 10
    → parse_digits ((b'0' + d) ∷ cs) n ≡ parse_digits cs (n * 10 + d)
unfolding parse_digits
parse_digits-digit d cs n h = ground arith

-- The digits of n in front of a text are read as n.
parse_digits-digits_loop :
    (fuel n : ℕ) (acc : List ℕ)
    → n < 10 ^ (suc fuel)
    → parse_digits (digits_loop (suc fuel) n acc) 0 ≡ parse_digits acc n
unfolding digits_loop
parse_digits-digits_loop zero n acc h =
    if_intro (λ xs. parse_digits xs 0 ≡ parse_digits acc n) (ltb n 10)
      (λ t. parse_digits-digit n acc 0 (omega arith) ∙ ap (parse_digits acc) (omega arith))
      (λ f. absurd (ground arith))
parse_digits-digits_loop (suc fuel) n acc h =
    if_intro (λ xs. parse_digits xs 0 ≡ parse_digits acc n) (ltb n 10)
      (λ t. parse_digits-digit n acc 0 (ground arith) ∙ ap (parse_digits acc) (omega arith))
      (λ f.
        parse_digits-digits_loop fuel (n / 10) ((b'0' + n % 10) ∷ acc)
          (omega (arith, pow_suc (suc fuel)))
        ∙ parse_digits-digit (n % 10) acc (n / 10) (omega arith)
        ∙ ap (parse_digits acc) (omega arith))

-- They start with a digit.
digits_loop-head :
    (fuel n : ℕ) (acc : List ℕ)
    → (c : ℕ) × (cs : List ℕ) × (digits_loop (suc fuel) n acc ≡ c ∷ cs) × (b'0' ≤ c)
unfolding digits_loop
digits_loop-head zero n acc = elim (Bool-cases (ltb n 10)) [
  | inl h ↦ (b'0' + n, acc, rw (h, digits_loop) refl, omega arith)
  | inr h ↦ (b'0' + n % 10, acc, rw (h, digits_loop) refl, omega arith)
]
digits_loop-head (suc fuel) n acc = elim (Bool-cases (ltb n 10)) [
  | inl h ↦ (b'0' + n, acc, rw (h, digits_loop) refl, omega arith)
  | inr h ↦
      let (c, cs, e, d) = digits_loop-head fuel (n / 10) ((b'0' + n % 10) ∷ acc) in
      (c, cs, rw (h, digits_loop) e, d)
]

-- A number of at most 20 digits is read back without a sign.
parse_unsigned-digits_loop : (n : ℕ) → n < 10 ^ 20 → parse_unsigned (digits_loop 20 n []) ≡ some n
unfolding parse_unsigned parse_digits
parse_unsigned-digits_loop n h =
    let (c, cs, e, d) = digits_loop-head 19 n [] in
    rw (e, parse_unsigned)
      (ap (λ xs. parse_digits xs 0) (sym e) ∙ parse_digits-digits_loop 19 n [] h)

parse_int-negative :
    (xs : List ℕ) (n : ℕ)
    → parse_unsigned xs ≡ some n
    → n ≤ half
    → parse_int (b'-' ∷ xs) ≡ some ((word - n) % word)
unfolding parse_int in_range negate
parse_int-negative xs n e h = ground arith

parse_int-plain :
    (c : ℕ) (cs : List ℕ) (n : ℕ)
    → parse_unsigned (c ∷ cs) ≡ some n
    → b'0' ≤ c
    → n < half
    → parse_int (c ∷ cs) ≡ some n
unfolding parse_int in_range
parse_int-plain c cs n e d h = ground arith

parse_int-digits_loop : (n : ℕ) → n < half → parse_int (digits_loop 20 n []) ≡ some n
parse_int-digits_loop n h =
    let (c, cs, e, d) = digits_loop-head 19 n [] in
    subst (λ xs. parse_int xs ≡ some n) (sym e)
      (parse_int-plain c cs n
        (ap parse_unsigned (sym e) ∙ parse_unsigned-digits_loop n (omega arith)) d h)

-- The decimal text of an int64 is read as the same int64.
pub parse_int-append_int : (v : ℕ) → v < word → parse_int (append_int v) ≡ some v
unfolding append_int
parse_int-append_int v h =
    if_intro (λ xs. parse_int xs ≡ some v) (nonneg v) (λ t. parse_int-digits_loop v (ground arith))
      (λ f.
        parse_int-negative (digits_loop 20 (word - v) []) (word - v)
          (parse_unsigned-digits_loop (word - v) (omega arith)) (ground arith)
        ∙ ap some (ground arith))
