-- ===== src/Word.antt =====
-- The 64-bit integers of the Go code. An int64 and a uint64 are a bit pattern below 2 ^ 64; sums and
-- differences wrap, and an int64 is compared by its sign.
use scopecache.Prelude.{ℕ, ◌+◌, ◌-◌, ◌%◌, ◌^◌, Bool, ltb, leb}

abbrev pub word : ℕ
word = 2 ^ 64

abbrev pub half : ℕ
half = 2 ^ 63

-- a + b and a - b, of either signedness; the operands are below 2 ^ 64.
abbrev pub add64 : ℕ → ℕ → ℕ
add64 a b = (a + b) % word

abbrev pub sub64 : ℕ → ℕ → ℕ
sub64 a b = (a + (word - b % word)) % word

-- The order of int64: patterns from 2 ^ 63 on are negative.
abbrev pub bias : ℕ → ℕ
bias a = (a + half) % word

abbrev pub slt : ℕ → ℕ → Bool
slt a b = ltb (bias a) (bias b)

abbrev pub sle : ℕ → ℕ → Bool
sle a b = leb (bias a) (bias b)

-- An int64 that is not negative.
abbrev pub nonneg : ℕ → Bool
nonneg a = ltb a half
