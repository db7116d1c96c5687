-- ===== src/Decimal.antt =====
-- The decimal conversions of strconv that the counter uses: AppendInt and ParseInt at base 10.
pub mod RoundTrip
pub mod Bounds
use scopecache.Prelude.{
  ℕ, zero, suc, ◌+◌, ◌-◌, ◌*◌, ◌/◌, ◌%◌, ltb, leb, ◌==◌, if◌then◌else◌, ◌&&◌, Option, none, some,
  List, [], ◌∷◌,
}
use scopecache.Word.{word, half, nonneg}

-- The digits of n in front of a text; 20 rounds are enough for a number below 2 ^ 64.
unfoldable pub digits_loop : ℕ → ℕ → List ℕ → List ℕ
digits_loop zero n acc = acc
digits_loop (suc fuel) n acc =
    let rest = digits_loop fuel (n / 10) ((b'0' + n % 10) ∷ acc) in
    if ltb n 10 then (b'0' + n) ∷ acc else rest

unfoldable pub append_int : ℕ → List ℕ
unfolding digits_loop
append_int v = if nonneg v then digits_loop 20 v [] else b'-' ∷ digits_loop 20 (word - v) []

-- The value of a text of digits after those already read.
unfoldable pub parse_digits : List ℕ → ℕ → Option ℕ
parse_digits [] n = some n
parse_digits (c ∷ cs) n =
    let rest = parse_digits cs (n * 10 + (c - b'0')) in
    if leb b'0' c && leb c b'9' then rest else none

unfoldable pub parse_unsigned : List ℕ → Option ℕ
unfolding parse_digits
parse_unsigned [] = none
parse_unsigned (c ∷ cs) = parse_digits (c ∷ cs) 0

unfoldable in_range : ℕ → Option ℕ → Option ℕ
in_range limit none = none
in_range limit (some n) = if ltb n limit then some n else none

unfoldable negate : Option ℕ → Option ℕ
negate none = none
negate (some n) = some ((word - n) % word)

-- Out of the range of int64 it is an error.
unfoldable pub parse_int : List ℕ → Option ℕ
unfolding parse_unsigned in_range negate
parse_int [] = none
parse_int (c ∷ cs) =
    if c == b'-'
    then negate (in_range (half + 1) (parse_unsigned cs))
    else if c == b'+'
    then in_range half (parse_unsigned cs)
    else in_range half (parse_unsigned (c ∷ cs))
