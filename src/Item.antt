-- ===== src/Item.antt =====
-- Cached items (types.go) and the pure functions on them: the byte cost, the render shortcut, the
-- materialisation of counters, and the errors that the write paths return.
pub mod Sizes
use scopecache.Prelude.{
  ℕ, ◌+◌, ◌%◌, Bool, true, false, if◌then◌else◌, ◌==◌, ◌||◌, Option, none, some, List, [], ◌∷◌,
  length, map, ite, ℕ_discrete, ◌≡◌, refl, arith,
}
use scopecache.Word.{word}
use scopecache.Decimal.{append_int}

-- Go strings, json.RawMessage and []byte are lists of bytes.
abbrev pub Bytes : Type 0
Bytes = List ℕ

unfoldable pub Bytes-discrete : Discrete Bytes
Bytes-discrete = hlevel ℕ_discrete

-- `type UUID [16]byte`
abbrev pub Uuid : Type 0
Uuid = List ℕ

-- `UUID{}`
abbrev pub zero_uuid : Uuid
zero_uuid = 0 ∷ 0 ∷ 0 ∷ 0 ∷ 0 ∷ 0 ∷ 0 ∷ 0 ∷ 0 ∷ 0 ∷ 0 ∷ 0 ∷ 0 ∷ 0 ∷ 0 ∷ 0 ∷ []

-- `==` on strings, and on byte arrays
unfoldable pub same_bytes : Bytes → Bytes → Bool
same_bytes xs ys = ite (Bytes-discrete xs ys) true false

unfoldable pub is_zero : Uuid → Bool
is_zero u = ite (Bytes-discrete u zero_uuid) true false

abbrev pub is_empty : Bytes → Bool
is_empty [] = true
is_empty (c ∷ cs) = false

-- `counterCell`: the integer and the time of the last increment, both int64.
pub record CounterCell : Type 0 where
  pub value : ℕ
  pub ts : ℕ

-- `render_bytes` is `none` for a nil slice, which differs from an empty one. A cell is reached only
-- through its item, so it stands in it by value.
pub record Item : Type 0 where
  pub scope : Bytes
  pub id : Bytes
  pub seq : ℕ
  pub ts : ℕ
  pub uuid : Uuid
  pub payload : Bytes
  pub render_bytes : Option Bytes
  pub counter : Option CounterCell

-- `Item{}`
abbrev pub empty_item : Item
empty_item = record {
  scope = [];
  id = [];
  seq = 0;
  ts = 0;
  uuid = zero_uuid;
  payload = [];
  render_bytes = none;
  counter = none;
}

abbrev pub uuid_string_len : ℕ
uuid_string_len = 36

abbrev pub counter_cell_overhead : ℕ
counter_cell_overhead = 24 + 32

-- `len` of a slice that may be nil
abbrev pub slice_len : Option Bytes → ℕ
slice_len none = 0
slice_len (some bs) = length bs

-- The part of an item's cost that its payload or its counter makes up.
unfoldable pub payload_and_render_bytes : Item → ℕ
payload_and_render_bytes item = elim item.counter [
  | some _ ↦ counter_cell_overhead
  | none ↦ (length item.payload + slice_len item.render_bytes) % word
]

unfoldable pub uuid_cost : Uuid → ℕ
uuid_cost u = if is_zero u then 0 else uuid_string_len

-- An int64 sum; it wraps once at the end, as a sum that wraps at each step does.
unfoldable pub approx_item_size : Item → ℕ
unfolding uuid_cost
approx_item_size item =
    (32 + length item.scope + length item.id + uuid_cost item.uuid + 8 + 8 + elim item.counter [
      | some _ ↦ counter_cell_overhead
      | none ↦ length item.payload + slice_len item.render_bytes
    ])
    % word

-- What the cache takes from its JSON library: the text of a string literal, the text of a number
-- literal, and whether the bytes are one valid JSON value.
pub record Json : Type 0 where
  pub unmarshal_string : Bytes → Option Bytes
  pub unmarshal_number : Bytes → Option Bytes
  pub valid : Bytes → Bool

is_json_space : ℕ → Bool
is_json_space c = c == b' ' || c == 0x09 || c == 0x0d || c == 0x0a

-- `bytes.TrimLeft(payload, " \t\r\n")`
unfoldable pub trim_left : Bytes → Bytes
unfolding is_json_space
trim_left [] = []
trim_left (c ∷ cs) = let rest = trim_left cs in if is_json_space c then rest else c ∷ cs

starts_with_quote : Bytes → Bool
starts_with_quote [] = false
starts_with_quote (c ∷ cs) = c == b'"'

unfoldable pub precompute_render_bytes : Json → Bytes → Option Bytes
unfolding trim_left starts_with_quote
precompute_render_bytes json payload =
    if starts_with_quote (trim_left payload) then json.unmarshal_string payload else none

-- `if x == nil { x = precomputeRenderBytes(payload) }`
unfoldable pub render_or_precompute : Json → Option Bytes → Bytes → Option Bytes
render_or_precompute json (some bs) payload = some bs
render_or_precompute json none payload = precompute_render_bytes json payload

unfoldable pub render_counter_payload : CounterCell → Bytes
render_counter_payload cell = append_int cell.value

-- Readers get the counter's value of the moment as the payload, and its time.
unfoldable pub materialise_counter : Item → Item
unfolding render_counter_payload
materialise_counter item = elim item.counter [
  | none ↦ item
  | some cell ↦ record item { payload = render_counter_payload cell; ts = cell.ts }
]

unfoldable pub materialise_counters_in_place : List Item → List Item
unfolding materialise_counter
materialise_counters_in_place = map materialise_counter

-- The errors of the write paths, with the numbers that they carry.
pub data Error : Type 0 where
  scope_detached : Error
  scope_required : Error
  scope_full : ℕ → ℕ → Error
  store_full : ℕ → ℕ → ℕ → Error
  duplicate_id : Error
  duplicate_id_in_scope : Bytes → Error
  duplicate_uuid_in_scope : Uuid → Error
  item_too_large : ℕ → ℕ → Error
  invalid_input : Error
  not_a_number : Error
  not_an_integer : Error
  counter_out_of_range : Error
  counter_overflow : ℕ → ℕ → Error

pub data Result {ℓ} (A : Type ℓ) : Type ℓ where
  ok : A → Result A
  err : Error → Result A

-- What holds of both cases of a match on a result holds of the match.
pub result_intro {ℓ κ μ} :
    {B : Type μ} {A : Type ℓ} (P : A → Type κ) (r : Result B) {f : B → A} {g : Error → A}
    → ((e : Error) → r ≡ err e → P (g e))
    → ((b : B) → r ≡ ok b → P (f b))
    → P (elim r [ ok b ↦ f b | err e ↦ g e ])
result_intro P (ok b) g f = f b refl
result_intro P (err e) g f = g e refl
