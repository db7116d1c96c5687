-- ===== src/Decimal/Bounds.antt =====
-- The bounds of what ParseInt reads.
use scopecache.Prelude.{
  ℕ, ◌<◌, ◌≡◌, subst, ◌+◌, ◌==◌, ltb, List, [], ◌∷◌, Option, none, some, arith, if_intro,
}
use scopecache.Word.{word, half}
use scopecache.Decimal.{parse_int, parse_unsigned, in_range, negate}

abbrev IsWord : Option ℕ → Type 0
IsWord none = Unit
IsWord (some n) = n < word

in_range-IsWord : (limit : ℕ) (o : Option ℕ) → limit < word → IsWord (in_range limit o)
unfolding in_range
in_range-IsWord limit none h = tt
in_range-IsWord limit (some n) h = if_intro IsWord (ltb n limit) (λ below. ground arith) (λ _. tt)

negate-IsWord : (o : Option ℕ) → IsWord (negate o)
unfolding negate
negate-IsWord none = tt
negate-IsWord (some n) = omega arith

parse_int-IsWord : (text : List ℕ) → IsWord (parse_int text)
unfolding parse_int
parse_int-IsWord [] = tt
parse_int-IsWord (c ∷ cs) =
    if_intro IsWord (c == b'-') (λ _. negate-IsWord (in_range (half + 1) (parse_unsigned cs)))
      (λ _.
        if_intro IsWord (c == b'+') (λ _. in_range-IsWord half (parse_unsigned cs) (omega arith))
          (λ _. in_range-IsWord half (parse_unsigned (c ∷ cs)) (omega arith)))

pub parse_int-word : (text : List ℕ) (n : ℕ) → parse_int text ≡ some n → n < word
parse_int-word text n e = subst IsWord e (parse_int-IsWord text)
