-- ===== src/Uuid.antt =====
-- The text form of UUIDv7 and the mint (uuid.go). A uuid is a list of 16 bytes; a shift or a mask of a
-- byte is a division or a remainder, and `|` of disjoint bits is a sum.
pub mod RoundTrip
pub mod Minted
use scopecache.Prelude.{
  ℕ, zero, suc, ◌+◌, ◌-◌, ◌*◌, ◌/◌, ◌%◌, ◌^◌, Bool, true, false, not, leb, ◌==◌, if◌then◌else◌,
  ◌&&◌, ◌||◌, List, [], ◌∷◌, ◌++◌, Option, none, some, length, get_or, take, drop,
}
use scopecache.Item.{Bytes, Uuid, zero_uuid, is_zero, same_bytes, uuid_string_len}

-- `hexDigits[n]`
unfoldable pub hex_digit : ℕ → ℕ
hex_digit n = if leb n 9 then b'0' + n else b'a' + (n - 10)

unfoldable pub hex_val : ℕ → Option ℕ
hex_val c =
    if leb b'0' c && leb c b'9'
    then some (c - b'0')
    else if leb b'a' c && leb c b'f'
    then some (c - b'a' + 10)
    else none

-- `newUUIDv7`: the millisecond of the clock and two random words.
unfoldable pub new_uuid_v7 : ℕ → ℕ → ℕ → Uuid
new_uuid_v7 ms rand_a rand_b =
    (ms / 2 ^ 40 % 256)
    ∷ (ms / 2 ^ 32 % 256)
    ∷ (ms / 2 ^ 24 % 256)
    ∷ (ms / 2 ^ 16 % 256)
    ∷ (ms / 2 ^ 8 % 256)
    ∷ (ms % 256)
    ∷ (0x70 + rand_a / 2 ^ 8 % 16)
    ∷ (rand_a % 256)
    ∷ (0x80 + rand_b / 2 ^ 56 % 64)
    ∷ (rand_b / 2 ^ 48 % 256)
    ∷ (rand_b / 2 ^ 40 % 256)
    ∷ (rand_b / 2 ^ 32 % 256)
    ∷ (rand_b / 2 ^ 24 % 256)
    ∷ (rand_b / 2 ^ 16 % 256)
    ∷ (rand_b / 2 ^ 8 % 256)
    ∷ (rand_b % 256)
    ∷ []

-- Version 7 and variant 0b10.
unfoldable pub is_valid_v7 : Uuid → Bool
is_valid_v7 u = (get_or u 6 0 / 16 == 7) && (get_or u 8 0 / 64 == 2)

-- `i == 4 || i == 6 || i == 8 || i == 10`
unfoldable pub hyphen_before : ℕ → Bool
hyphen_before i = i == 4 || i == 6 || i == 8 || i == 10

-- The loop of `appendUUIDHex` from index `i` on.
unfoldable pub hex_loop : ℕ → Uuid → Bytes
unfolding hex_digit hyphen_before
hex_loop i [] = []
hex_loop i (b ∷ bs) =
    let rest = hex_digit (b / 16) ∷ hex_digit (b % 16) ∷ hex_loop (i + 1) bs in
    if hyphen_before i then b'-' ∷ rest else rest

unfoldable pub append_uuid_hex : Bytes → Uuid → Bytes
unfolding hex_loop
append_uuid_hex dst u = dst ++ hex_loop 0 u

unfoldable pub format_uuid : Uuid → Bytes
unfolding append_uuid_hex
format_uuid u = append_uuid_hex [] u

unfoldable pub append_uuid_json : Bytes → Uuid → Bytes
unfolding append_uuid_hex
append_uuid_json dst u =
    if is_zero u
    then dst ++ (b'"' ∷ b'"' ∷ [])
    else append_uuid_hex (dst ++ (b'"' ∷ [])) u ++ (b'"' ∷ [])

unfoldable pub wire_uuid : Uuid → Bytes
unfolding format_uuid
wire_uuid u = if is_zero u then [] else format_uuid u

-- `src == 8 || src == 13 || src == 18 || src == 23`
unfoldable pub is_hyphen_index : ℕ → Bool
is_hyphen_index src = src == 8 || src == 13 || src == 18 || src == 23

-- One byte of the two digits at `src`.
unfoldable pub parse_byte : ℕ → Bytes → Option ℕ
unfolding hex_val
parse_byte src s = elim (hex_val (get_or s src 0)) [
  | none ↦ none
  | some hi ↦ elim (hex_val (get_or s (src + 1) 0)) [ none ↦ none | some lo ↦ some (hi * 16 + lo) ]
]

abbrev pub cons_parsed : Option ℕ → Option Uuid → Option Uuid
cons_parsed none rest = none
cons_parsed (some b) none = none
cons_parsed (some b) (some bs) = some (b ∷ bs)

-- The loop of `parseUUIDv7` for the last `count` bytes.
unfoldable pub parse_loop : ℕ → ℕ → Bytes → Option Uuid
unfolding is_hyphen_index parse_byte
parse_loop zero src s = some []
parse_loop (suc count) src s =
    let at = if is_hyphen_index src then src + 1 else src in
    cons_parsed (parse_byte at s) (parse_loop count (at + 2) s)

-- The version and variant of what was parsed.
unfoldable pub check_v7 : Option Uuid → Option Uuid
unfolding is_valid_v7
check_v7 none = none
check_v7 (some u) = if is_valid_v7 u then some u else none

-- What the loop parses counts where the text has the canonical length and hyphens, and the bytes the
-- version and variant of UUIDv7.
unfoldable pub check_shape : Bytes → Option Uuid → Option Uuid
unfolding check_v7
check_shape s parsed =
    if not (length s == uuid_string_len)
    then none
    else if not (
        get_or s 8 0 == b'-'
        && get_or s 13 0 == b'-'
        && get_or s 18 0 == b'-'
        && get_or s 23 0 == b'-')
    then none
    else check_v7 parsed

-- `none` is errInvalidUUIDv7.
unfoldable pub parse_uuid_v7 : Bytes → Option Uuid
unfolding parse_loop check_shape
parse_uuid_v7 s = check_shape s (parse_loop 16 0 s)

unfoldable pub is_valid_uuid_v7 : Bytes → Bool
unfolding parse_uuid_v7
is_valid_uuid_v7 s = elim (parse_uuid_v7 s) [ none ↦ false | some u ↦ true ]

-- The text between the first and the last byte.
abbrev pub inner : Bytes → Bytes
inner text = take (length text - 2) (drop 1 text)

abbrev pub null_text : Bytes
null_text = b'n' ∷ b'u' ∷ b'l' ∷ b'l' ∷ []

-- `UUID.UnmarshalJSON` into `u`; `none` is the error. `null` and `""` leave `u` as it was.
unfoldable pub unmarshal_json : Uuid → Bytes → Option Uuid
unfolding parse_uuid_v7
unmarshal_json u text =
    if same_bytes text null_text
    then some u
    else if not (leb 2 (length text))
        || not (get_or text 0 0 == b'"')
        || not (get_or text (length text - 1) 0 == b'"')
    then none
    else if length (inner text) == 0
    then some u
    else parse_uuid_v7 (inner text)
