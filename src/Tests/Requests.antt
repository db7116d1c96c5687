-- ===== src/Tests/Requests.antt =====
-- Validated requests, and an append that the byte cap refuses.
use scopecache.Prelude.{
  ◌+◌, ◌<◌, ◌≤◌, ◌*◌, ◌≡◌, refl, true, false, [], ◌∷◌, none, some, arith, ℕ_discrete,
}
use scopecache.Word.{word, half}
use scopecache.Map.{lookup, insert}
use scopecache.Item.{Bytes-discrete, Uuid, same_bytes, is_zero}
use scopecache.Store.{get_scope, map_scope}
use scopecache.Store.Boot.{Config, new_store, with_defaults, empty_store}
use scopecache.Store.Scopes.{init_reserved_scopes, init_each, init_reserved_scope}
use scopecache.Store.Writes.{Env, append_one_trusted}
use scopecache.Store.Writes.Ends.{Returns, append_one_trusted-Returns}
use scopecache.Store.Writes.Rollback.{UndoneOnError, append_one_trusted-Undone}
use scopecache.Text.{
  trim_space, trim_with, leading_space, trailing_space, backwards, is_space_1, is_space_2,
  is_space_3, between, valid_utf8, utf8_from, lead_of, plain,
}
use scopecache.Uuid.{new_uuid_v7, format_uuid, parse_uuid_v7}
use scopecache.Uuid.Minted.{new_uuid_v7-IsUuid, new_uuid_v7_valid}
use scopecache.Uuid.RoundTrip.{parse_uuid_v7-format_uuid}
use scopecache.Buffer.Write.{append_item}
use scopecache.Validation.{
  append_endpoint, validate_scope, validate_id, check_key_field, has_control, is_control,
  validate_payload, null_text, check_item_size, with_render, charged_size, normalize_limit,
  normalize_hours, max_limit, us_per_hour,
}
use scopecache.Validation.Requests.{
  validate_write_item, reject_client_ts, check_write_uuid, reject_client_uuid, group_of,
  group_items_by_scope,
}
use scopecache.Validation.Accepted.{Holds, normalize_limit-Bounds, normalize_hours-Bounds}
use scopecache.Validation.Grouped.{in_scope, group_items_by_scope_lem}
use scopecache.Validation.Sizes.{IsWithinItemCap, append_item-validated}
use scopecache.Tests.{json, grow, nine, uuid, apple, pear, one, program}
use scopecache.Tests.Stores.{config}

abbrev env : Env
env = record {
  json = json;
  grow = grow;
  marshal = λ event. some nine;
  clock = λ depth. depth + 2;
  mint = λ depth. uuid (depth + 1);
}

append_one_trusted-Returns_example :
    Returns (append_one_trusted env 3 0 apple (new_store config 1))
    × (append_one_trusted env 3 0 apple (new_store config 1)
        ≡ append_one_trusted env 2 0 apple (new_store config 1))
append_one_trusted-Returns_example = append_one_trusted-Returns env 1 0 apple (new_store config 1)

-- Room for the scope of an item, and not for the item.
abbrev tight : Config
tight = record config { max_store_bytes = 3100 }

scope_absent : lookup Bytes-discrete apple.scope (new_store tight 1).scopes ≡ none
unfolding new_store empty_store with_defaults init_reserved_scopes init_each init_reserved_scope
    get_scope map_scope lookup insert Bytes-discrete ℕ_discrete
scope_absent = refl

counters_small :
    ((new_store tight 1).ledger.total_bytes < word)
    × ((new_store tight 1).ledger.scope_count < word)
unfolding new_store empty_store with_defaults init_reserved_scopes init_each init_reserved_scope
    get_scope map_scope lookup insert Bytes-discrete ℕ_discrete
counters_small = (omega arith, omega arith)

append_one_trusted-Undone_example :
    UndoneOnError (new_store tight 1) (append_one_trusted env 2 0 apple (new_store tight 1))
append_one_trusted-Undone_example =
    append_one_trusted-Undone env (new_store tight 1) 2 0 apple scope_absent counters_small.0
      counters_small.1

unfoldable pub validation_program : Unit {0}
unfolding validate_write_item validate_scope validate_id check_key_field has_control is_control
    trim_space trim_with leading_space trailing_space backwards is_space_1 is_space_2 is_space_3
    between valid_utf8 utf8_from lead_of plain validate_payload null_text reject_client_ts
    check_write_uuid reject_client_uuid check_item_size with_render charged_size same_bytes program
validation_program = tt

cherry_attached : one.buf.has_store ≡ true
unfolding program
cherry_attached = refl

minted_fresh : is_zero (uuid 2) ≡ false
unfolding is_zero Bytes-discrete ℕ_discrete
minted_fresh = refl

pear_accepted : (validate_write_item json pear append_endpoint one.buf.max_item_bytes).0 ≡ none
unfolding validation_program program
pear_accepted = refl

append_item-validated_example : IsWithinItemCap (
    append_item json grow
      (validate_write_item json pear append_endpoint one.buf.max_item_bytes).1
      6
      (uuid 2)
      one)
append_item-validated_example =
    append_item-validated json grow pear 6 (uuid 2) one cherry_attached refl minted_fresh
      pear_accepted

group_items_by_scope_lem_example :
    group_of apple.scope (group_items_by_scope (apple ∷ pear ∷ []))
    ≡ in_scope apple.scope (apple ∷ pear ∷ [])
group_items_by_scope_lem_example = group_items_by_scope_lem apple.scope (apple ∷ pear ∷ [])

normalize_limit-Bounds_example : Holds (λ n. (1 ≤ n) × (n ≤ max_limit)) (normalize_limit nine)
normalize_limit-Bounds_example = normalize_limit-Bounds nine

normalize_hours-Bounds_example : Holds (λ n. n * us_per_hour < half) (normalize_hours nine)
normalize_hours-Bounds_example = normalize_hours-Bounds nine

abbrev time_uuid : Uuid
time_uuid = new_uuid_v7 1700000000000 1234 5678901234

parse_uuid_v7-format_uuid_example : parse_uuid_v7 (format_uuid time_uuid) ≡ some time_uuid
parse_uuid_v7-format_uuid_example =
    parse_uuid_v7-format_uuid time_uuid (new_uuid_v7-IsUuid 1700000000000 1234 5678901234)
      (new_uuid_v7_valid 1700000000000 1234 5678901234)
