-- ===== src/Validation.antt =====
-- The validators of validation.go, which every write passes before it reaches a scope. An error is the
-- reason of the refusal; all but those of the query parameters are wrapped in ErrInvalidInput.
pub mod Requests
pub mod Accepted
pub mod Sizes
pub mod Grouped
use scopecache.Prelude.{
  ℕ, ◌+◌, ◌-◌, ◌*◌, ◌/◌, ◌^◌, Bool, true, false, not, ltb, leb, ◌==◌, ◌&&◌, ◌||◌, if◌then◌else◌,
  List, [], ◌∷◌, Option, none, some, length,
}
use scopecache.Word.{slt, sle, add64}
use scopecache.Decimal.{parse_int}
use scopecache.Text.{trim_space, valid_utf8}
use scopecache.Item.{
  Bytes, same_bytes, is_empty, is_zero, Item, Json, render_or_precompute, approx_item_size,
  uuid_string_len,
}

pub data Endpoint : Type 0 where
  append_endpoint upsert_endpoint update_endpoint counter_add_endpoint delete_endpoint : Endpoint
  delete_scope_endpoint delete_up_to_endpoint warm_endpoint rebuild_endpoint : Endpoint

pub data Field : Type 0 where
  scope_field id_field payload_field by_field : Field

pub data Reason : Type 0 where
  field_required : Field → Reason
  field_too_long : Field → ℕ → Reason
  surrounding_space control_characters not_utf8 : Field → Reason
  not_json : Reason
  not_one_address : Endpoint → Reason
  uuid_malformed : Reason
  size_exceeded : ℕ → ℕ → Reason
  bad_limit bad_offset bad_hours hours_too_large : Reason
  seq_managed ts_managed uuid_managed : Endpoint → Reason
  reserved : Endpoint → Reason
  by_zero by_out_of_range : Reason

-- `if err := …; err != nil { return err }`, one check after another.
infixr 30 ◌or_else◌
abbrev pub ◌or_else◌ : Option Reason → Option Reason → Option Reason
some r or_else next = some r
none or_else next = next

abbrev pub refuse_if : Bool → Reason → Option Reason
refuse_if true r = some r
refuse_if false r = none

unfoldable pub is_control : ℕ → Bool
is_control c = ltb c 0x20 || c == 0x7f

-- The loop over the bytes of a key.
unfoldable pub has_control : Bytes → Bool
unfolding is_control
has_control [] = false
has_control (c ∷ cs) = let rest = has_control cs in is_control c || rest

unfoldable pub check_key_field : Field → Bytes → ℕ → Option Reason
unfolding has_control trim_space valid_utf8
check_key_field field value max_len =
    refuse_if (ltb max_len (length value)) (field_too_long field max_len)
    or_else refuse_if (not (same_bytes value (trim_space value))) (surrounding_space field)
    or_else refuse_if (has_control value) (control_characters field)
    or_else refuse_if (not (valid_utf8 value)) (not_utf8 field)

abbrev pub max_scope_bytes : ℕ
max_scope_bytes = 256

abbrev pub max_id_bytes : ℕ
max_id_bytes = 256

unfoldable pub validate_scope : Bytes → Option Reason
unfolding check_key_field
validate_scope scope =
    if is_empty scope
    then some (field_required scope_field)
    else check_key_field scope_field scope max_scope_bytes

unfoldable pub validate_id : Bytes → Option Reason
unfolding check_key_field
validate_id id = if is_empty id then none else check_key_field id_field id max_id_bytes

unfoldable pub require_id : Bytes → Option Reason
unfolding check_key_field
require_id id =
    if is_empty id then some (field_required id_field) else check_key_field id_field id max_id_bytes

abbrev pub tally : Bool → ℕ
tally b = if b then 1 else 0

-- `validateIDSeqUUID`: the number of the given address modes decides first.
unfoldable pub validate_id_seq_uuid : Endpoint → Bytes → ℕ → Bool → Bool → Option Reason
unfolding check_key_field
validate_id_seq_uuid endpoint id seq has_uuid uuid_valid =
    let has_id = not (is_empty id) in
    let n = tally has_id + tally (not (seq == 0)) + tally has_uuid in
    if not (n == 1)
    then some (not_one_address endpoint)
    else if has_id
    then check_key_field id_field id max_id_bytes
    else refuse_if (has_uuid && not uuid_valid) uuid_malformed

unfoldable pub null_text : Bytes
null_text = b'n' ∷ b'u' ∷ b'l' ∷ b'l' ∷ []

unfoldable pub validate_payload : Json → Bytes → Option Reason
unfolding null_text trim_space valid_utf8
validate_payload json p =
    refuse_if (is_empty p || same_bytes (trim_space p) null_text) (field_required payload_field)
    or_else refuse_if (not (json.valid p)) not_json
    or_else refuse_if (not (valid_utf8 p)) (not_utf8 payload_field)

-- The size that `checkItemSize` compares: an item that the cache mints a uuid for is charged for it.
unfoldable pub charged_size : Item → ℕ
charged_size item =
    if is_zero item.uuid
    then add64 (approx_item_size item) uuid_string_len
    else approx_item_size item

-- `item.renderBytes` is filled in on the way.
unfoldable pub with_render : Json → Item → Item
with_render json item = record item {
  render_bytes = render_or_precompute json item.render_bytes item.payload;
}

unfoldable pub check_item_size : Json → Item → ℕ → Option Reason
unfolding with_render charged_size
check_item_size json item max_item_bytes =
    let size = charged_size (with_render json item) in
    refuse_if (slt max_item_bytes size) (size_exceeded size max_item_bytes)

pub data Parsed : Type 0 where
  parsed : ℕ → Parsed
  refused : Reason → Parsed

abbrev pub default_limit : ℕ
default_limit = 1000

abbrev pub max_limit : ℕ
max_limit = 10000

unfoldable pub normalize_limit : Bytes → Parsed
normalize_limit raw = if is_empty raw then parsed default_limit else elim (parse_int raw) [
  | none ↦ refused bad_limit
  | some n ↦
      if sle n 0 then refused bad_limit else if slt max_limit n then parsed max_limit else parsed n
]

unfoldable pub normalize_offset : Bytes → Parsed
normalize_offset raw = if is_empty raw then parsed 0 else elim (parse_int raw) [
  | none ↦ refused bad_offset
  | some n ↦ if slt n 0 then refused bad_offset else parsed n
]

abbrev pub us_per_hour : ℕ
us_per_hour = 3600000000

unfoldable pub normalize_hours : Bytes → Parsed
normalize_hours raw = if is_empty raw then parsed 0 else elim (parse_int raw) [
  | none ↦ refused bad_hours
  | some n ↦
      if slt n 0
      then refused bad_hours
      else if slt ((2 ^ 63 - 1) / us_per_hour) n
      then refused hours_too_large
      else parsed n
]
