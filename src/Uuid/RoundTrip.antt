-- ===== src/Uuid/RoundTrip.antt =====
-- The text form of a uuid and its parse.
use scopecache.Prelude.{
  ℕ, zero, suc, ◌+◌, ◌*◌, ◌/◌, ◌%◌, ◌<◌, ◌≡◌, refl, sym, ◌∙◌, ap, subst, true, false, ltb,
  if◌then◌else◌, [], ◌∷◌, ◌++◌, some, length, length-append, get_or, drop, All, arith, Bool-cases,
  inl, inr,
}
use scopecache.Item.{Bytes, Uuid}
use scopecache.Uuid.{
  hex_digit, hex_val, is_valid_v7, hyphen_before, hex_loop, format_uuid, is_hyphen_index,
  parse_byte, parse_loop, check_shape, parse_uuid_v7,
}

-- Sixteen bytes.
pub record IsUuid (u : Uuid) : Type 0 where
  pub bytes : All (λ b. b < 256) u
  pub sixteen : length u ≡ 16

hex_val-hex_digit : (n : ℕ) → n < 16 → hex_val (hex_digit n) ≡ some n
unfolding hex_val hex_digit
hex_val-hex_digit n h = ground arith

suc_add : (m k : ℕ) → suc m + k ≡ suc (m + k)
suc_add m k = omega arith

get_or-append : (pre xs : Bytes) (k : ℕ) → get_or (pre ++ xs) (length pre + k) 0 ≡ get_or xs k 0
get_or-append [] xs k = ap (λ n. get_or xs n 0) (omega arith)
get_or-append (p ∷ pre) xs k =
    ap (λ n. get_or (p ∷ (pre ++ xs)) n 0) (suc_add (length pre) k) ∙ get_or-append pre xs k

append_assoc : (xs ys zs : Bytes) → (xs ++ ys) ++ zs ≡ xs ++ (ys ++ zs)
append_assoc [] ys zs = refl
append_assoc (x ∷ xs) ys zs = ap (◌∷◌ x) (append_assoc xs ys zs)

parse_byte-hex :
    (pre rest : Bytes) (b : ℕ)
    → b < 256
    → parse_byte (length pre) (pre ++ (hex_digit (b / 16) ∷ hex_digit (b % 16) ∷ rest)) ≡ some b
unfolding parse_byte
parse_byte-hex pre rest b h =
    let text = hex_digit (b / 16) ∷ hex_digit (b % 16) ∷ rest in
    let high = get_or-append pre text 0 in
    let low = get_or-append pre text 1 in
    ground (
      arith,
      high,
      low,
      hex_val-hex_digit (b / 16) (omega arith),
      hex_val-hex_digit (b % 16) (omega arith),
    )

parse_byte-hex_hyphen :
    (pre rest : Bytes) (b : ℕ)
    → b < 256
    → parse_byte (length pre + 1) (pre ++ (b'-' ∷ hex_digit (b / 16) ∷ hex_digit (b % 16) ∷ rest))
      ≡ some b
unfolding parse_byte
parse_byte-hex_hyphen pre rest b h =
    let text = b'-' ∷ hex_digit (b / 16) ∷ hex_digit (b % 16) ∷ rest in
    let high = get_or-append pre text 1 in
    let low : get_or (pre ++ text) (length pre + 1 + 1) 0 ≡ hex_digit (b % 16) =
      ap (λ n. get_or (pre ++ text) n 0) (omega arith) ∙ get_or-append pre text 2 in
    ground (
      arith,
      high,
      low,
      hex_val-hex_digit (b / 16) (omega arith),
      hex_val-hex_digit (b % 16) (omega arith),
    )

-- Where the digits of byte `i` stand, or the hyphen before them.
abbrev start : ℕ → ℕ
start i =
    2 * i
    + (if ltb 4 i then 1 else 0)
    + (if ltb 6 i then 1 else 0)
    + (if ltb 8 i then 1 else 0)
    + (if ltb 10 i then 1 else 0)

hyphen-start : (i src : ℕ) → src ≡ start i → is_hyphen_index src ≡ hyphen_before i
unfolding is_hyphen_index hyphen_before
hyphen-start i src h = ground arith

parse_loop-plain :
    (n src b : ℕ) (s : Bytes) (bs : Uuid)
    → is_hyphen_index src ≡ false
    → parse_byte src s ≡ some b
    → parse_loop n (src + 2) s ≡ some bs
    → parse_loop (suc n) src s ≡ some (b ∷ bs)
unfolding parse_loop
parse_loop-plain n src b s bs plain first rest = rw (plain, parse_loop, first, rest) refl

parse_loop-hyphen :
    (n src b : ℕ) (s : Bytes) (bs : Uuid)
    → is_hyphen_index src ≡ true
    → parse_byte (src + 1) s ≡ some b
    → parse_loop n (src + 1 + 2) s ≡ some bs
    → parse_loop (suc n) src s ≡ some (b ∷ bs)
unfolding parse_loop
parse_loop-hyphen n src b s bs hyphen first rest = rw (hyphen, parse_loop, first, rest) refl

abbrev digits : ℕ → Bytes
digits b = hex_digit (b / 16) ∷ hex_digit (b % 16) ∷ []

hex_loop-plain :
    (i b : ℕ) (bs : Uuid)
    → hyphen_before i ≡ false
    → hex_loop i (b ∷ bs) ≡ digits b ++ hex_loop (i + 1) bs
unfolding hex_loop
hex_loop-plain i b bs h = rw (h, hex_loop) refl

hex_loop-hyphen :
    (i b : ℕ) (bs : Uuid)
    → hyphen_before i ≡ true
    → hex_loop i (b ∷ bs) ≡ b'-' ∷ (digits b ++ hex_loop (i + 1) bs)
unfolding hex_loop
hex_loop-hyphen i b bs h = rw (h, hex_loop) refl

start-plain : (i : ℕ) → hyphen_before i ≡ false → start (i + 1) ≡ start i + 2
unfolding hyphen_before
start-plain i h = ground arith

start-hyphen : (i : ℕ) → hyphen_before i ≡ true → start (i + 1) ≡ start i + 3
unfolding hyphen_before
start-hyphen i h = ground arith

parse_loop-hex_loop :
    (i : ℕ) (bs : Uuid) (pre : Bytes)
    → length pre ≡ start i
    → All (λ b. b < 256) bs
    → parse_loop (length bs) (length pre) (pre ++ hex_loop i bs) ≡ some bs
unfolding parse_loop
parse_loop-hex_loop i [] pre h a = refl
parse_loop-hex_loop i (b ∷ bs) pre h a = elim (Bool-cases (hyphen_before i)) [
  | inr plain ↦
      let later =
        parse_loop-hex_loop (i + 1) bs (pre ++ digits b)
          (omega (arith, length-append pre (digits b), start-plain i plain, h)) a.1 in
      rw (hex_loop-plain i b bs plain) (
        parse_loop-plain (length bs) (length pre) b _ bs (hyphen-start i (length pre) h ∙ plain)
          (parse_byte-hex pre (hex_loop (i + 1) bs) b a.0)
          (subst
            (λ n. parse_loop (length bs) n (pre ++ (digits b ++ hex_loop (i + 1) bs)) ≡ some bs)
            (length-append pre (digits b))
            (subst (λ s. parse_loop (length bs) (length (pre ++ digits b)) s ≡ some bs)
              (append_assoc pre (digits b) (hex_loop (i + 1) bs)) later)))
  | inl hyphen ↦
      let later =
        parse_loop-hex_loop (i + 1) bs (pre ++ (b'-' ∷ digits b))
          (omega (arith, length-append pre (b'-' ∷ digits b), start-hyphen i hyphen, h)) a.1 in
      rw (hex_loop-hyphen i b bs hyphen) (
        parse_loop-hyphen (length bs) (length pre) b _ bs (hyphen-start i (length pre) h ∙ hyphen)
          (parse_byte-hex_hyphen pre (hex_loop (i + 1) bs) b a.0)
          (subst
            (λ n.
              parse_loop (length bs) n (pre ++ (b'-' ∷ (digits b ++ hex_loop (i + 1) bs)))
              ≡ some bs)
            (length-append pre (b'-' ∷ digits b) ∙ omega arith)
            (subst (λ s. parse_loop (length bs) (length (pre ++ (b'-' ∷ digits b))) s ≡ some bs)
              (append_assoc pre (b'-' ∷ digits b) (hex_loop (i + 1) bs)) later)))
]

abbrev entries : ℕ → Bytes → Bytes
entries zero s = []
entries (suc n) s = get_or s 0 0 ∷ entries n (drop 1 s)

entries-eq : (s : Bytes) → entries (length s) s ≡ s
entries-eq [] = refl
entries-eq (c ∷ s) = ap (◌∷◌ c) (entries-eq s)

-- The text of sixteen bytes has the canonical length, and the hyphens where the parse looks for them.
pub record IsCanonical (s : Bytes) : Type 0 where
  pub long : length s ≡ 36
  pub at_8 : get_or s 8 0 ≡ b'-'
  pub at_13 : get_or s 13 0 ≡ b'-'
  pub at_18 : get_or s 18 0 ≡ b'-'
  pub at_23 : get_or s 23 0 ≡ b'-'

hex_loop-IsCanonical : (u : Uuid) → length u ≡ 16 → IsCanonical (hex_loop 0 u)
unfolding hex_loop hyphen_before
hex_loop-IsCanonical u h =
    subst (λ v. IsCanonical (hex_loop 0 v)) (ap (λ n. entries n u) (sym h) ∙ entries-eq u)
      (record { long = refl; at_8 = refl; at_13 = refl; at_18 = refl; at_23 = refl })

check_shape-IsCanonical :
    (s : Bytes) (u : Uuid) → IsCanonical s → is_valid_v7 u ≡ true → check_shape s (some u) ≡ some u
unfolding check_shape
check_shape-IsCanonical s u c valid =
    rw (c.long, c.at_8, c.at_13, c.at_18, c.at_23, check_shape, valid) refl

format_uuid-eq : (u : Uuid) → format_uuid u ≡ hex_loop 0 u
unfolding format_uuid
format_uuid-eq u = refl

parse_uuid_v7-eq : (s : Bytes) → parse_uuid_v7 s ≡ check_shape s (parse_loop 16 0 s)
unfolding parse_uuid_v7
parse_uuid_v7-eq s = refl

parse_loop-16 : (u : Uuid) → IsUuid u → parse_loop 16 0 (hex_loop 0 u) ≡ some u
parse_loop-16 u sized =
    subst (λ n. parse_loop n 0 (hex_loop 0 u) ≡ some u) sized.sixteen
      (parse_loop-hex_loop 0 u [] refl sized.bytes)

-- The text that formatUUID writes for sixteen bytes with the version and variant bits of a UUIDv7
-- is parsed by parseUUIDv7 as those bytes.
pub parse_uuid_v7-format_uuid :
    (u : Uuid) → IsUuid u → is_valid_v7 u ≡ true → parse_uuid_v7 (format_uuid u) ≡ some u
parse_uuid_v7-format_uuid u sized valid =
    ap parse_uuid_v7 (format_uuid-eq u)
    ∙ parse_uuid_v7-eq (hex_loop 0 u)
    ∙ ap (check_shape (hex_loop 0 u)) (parse_loop-16 u sized)
    ∙ check_shape-IsCanonical (hex_loop 0 u) u (hex_loop-IsCanonical u sized.sixteen) valid
