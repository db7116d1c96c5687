-- ===== src/Validation/Requests.antt =====
-- The validators of whole requests, and the grouping of a bulk input by scope.
use scopecache.Prelude.{
  ℕ, Bool, true, false, not, ◌==◌, ◌&&◌, if◌then◌else◌, List, [], ◌∷◌, ◌++◌, Option, none, some,
}
use scopecache.Word.{slt, add64}
use scopecache.Map.{lookup, insert}
use scopecache.Item.{
  Bytes, Bytes-discrete, same_bytes, is_empty, is_zero, Item, empty_item, Json, approx_item_size,
  uuid_string_len,
}
use scopecache.Uuid.{is_valid_v7, is_valid_uuid_v7}
use scopecache.Ledger.{events_scope_name, is_reserved_scope}
use scopecache.Buffer.Counter.{out_of_range}
use scopecache.Validation.{
  Endpoint, Reason, append_endpoint, upsert_endpoint, update_endpoint, counter_add_endpoint,
  delete_endpoint, delete_scope_endpoint, delete_up_to_endpoint, reserved, seq_managed, ts_managed,
  uuid_managed, uuid_malformed, field_required, by_field, by_zero, by_out_of_range, size_exceeded,
  not_one_address, ◌or_else◌, refuse_if, validate_scope, validate_id, require_id,
  validate_id_seq_uuid, validate_payload, check_item_size, with_render,
}

abbrev pub is_append : Endpoint → Bool
is_append append_endpoint = true
is_append _ = false

unfoldable pub reject_client_ts : Item → Endpoint → Option Reason
reject_client_ts item endpoint = refuse_if (not (item.ts == 0)) (ts_managed endpoint)

unfoldable pub reject_client_uuid : Item → Endpoint → Option Reason
reject_client_uuid item endpoint = refuse_if (not (is_zero item.uuid)) (uuid_managed endpoint)

-- Only the bulk endpoints accept an identity that the client supplies.
unfoldable pub check_write_uuid : Item → Endpoint → Option Reason
unfolding reject_client_uuid
check_write_uuid item endpoint =
    if is_append endpoint
    then reject_client_uuid item endpoint
    else refuse_if (not (is_zero item.uuid) && not (is_valid_v7 item.uuid)) uuid_malformed

-- The item comes back with its rendered bytes; callers use it only where nothing refuses it.
unfoldable pub validate_write_item : Json → Item → Endpoint → ℕ → Option Reason × Item
unfolding validate_scope validate_id validate_payload reject_client_ts check_write_uuid
    check_item_size with_render
validate_write_item json item endpoint max_item_bytes = (
  validate_scope item.scope
      or_else refuse_if (is_append endpoint && same_bytes item.scope events_scope_name)
          (reserved endpoint)
      or_else validate_id item.id
      or_else validate_payload json item.payload
      or_else refuse_if (not (item.seq == 0)) (seq_managed endpoint)
      or_else reject_client_ts item endpoint
      or_else check_write_uuid item endpoint
      or_else check_item_size json item max_item_bytes,
  with_render json item,
)

unfoldable pub validate_upsert_item : Json → Item → ℕ → Option Reason × Item
unfolding validate_scope require_id validate_payload reject_client_ts reject_client_uuid
    check_item_size with_render
validate_upsert_item json item max_item_bytes = (
  validate_scope item.scope
      or_else refuse_if (is_reserved_scope item.scope) (reserved upsert_endpoint)
      or_else require_id item.id
      or_else validate_payload json item.payload
      or_else refuse_if (not (item.seq == 0)) (seq_managed upsert_endpoint)
      or_else reject_client_ts item upsert_endpoint
      or_else reject_client_uuid item upsert_endpoint
      or_else check_item_size json item max_item_bytes,
  with_render json item,
)

unfoldable pub validate_update_item : Json → Item → ℕ → Option Reason × Item
unfolding validate_scope validate_id_seq_uuid validate_payload reject_client_ts check_item_size
    with_render
validate_update_item json item max_item_bytes = (
  validate_scope item.scope
      or_else refuse_if (is_reserved_scope item.scope) (reserved update_endpoint)
      or_else validate_id_seq_uuid update_endpoint item.id item.seq (not (is_zero item.uuid))
          (is_valid_v7 item.uuid)
      or_else validate_payload json item.payload
      or_else reject_client_ts item update_endpoint
      or_else check_item_size json item max_item_bytes,
  with_render json item,
)

-- The size of a counter at its creation, with the uuid that it will have.
unfoldable pub counter_item_size : Bytes → Bytes → ℕ
counter_item_size scope id =
    add64
      (approx_item_size (record empty_item {
        scope = scope;
        id = id;
        counter = some (record { value = 0; ts = 0 });
      }))
      uuid_string_len

-- `by` is `none` where the request has no such field; a cap of 0 or less is no cap.
unfoldable pub validate_counter_add_request : Bytes → Bytes → Option ℕ → ℕ → Option Reason
unfolding validate_scope require_id out_of_range counter_item_size
validate_counter_add_request scope id given max_item_bytes =
    let size = counter_item_size scope id in
    validate_scope scope
    or_else refuse_if (is_reserved_scope scope) (reserved counter_add_endpoint)
    or_else require_id id
    or_else elim given [
      | none ↦ some (field_required by_field)
      | some by ↦
          refuse_if (by == 0) by_zero
          or_else refuse_if (out_of_range by) by_out_of_range
          or_else refuse_if (slt 0 max_item_bytes && slt max_item_bytes size)
              (size_exceeded size max_item_bytes)
    ]

unfoldable pub validate_delete_request : Bytes → Bytes → ℕ → Bytes → Option Reason
unfolding validate_scope validate_id_seq_uuid
validate_delete_request scope id seq uuid =
    validate_scope scope
    or_else validate_id_seq_uuid delete_endpoint id seq (not (is_empty uuid))
        (is_valid_uuid_v7 uuid)

unfoldable pub validate_delete_scope_request : Bytes → Option Reason
unfolding validate_scope
validate_delete_scope_request scope =
    validate_scope scope
    or_else refuse_if (is_reserved_scope scope) (reserved delete_scope_endpoint)

same_bool : Bool → Bool → Bool
same_bool true b = b
same_bool false b = not b

unfoldable pub validate_delete_up_to_request : Bytes → ℕ → Bytes → Option Reason
unfolding validate_scope same_bool
validate_delete_up_to_request scope max_seq uuid =
    let has_seq = not (max_seq == 0) in
    let has_uuid = not (is_empty uuid) in
    validate_scope scope
    or_else refuse_if (same_bool has_seq has_uuid) (not_one_address delete_up_to_endpoint)
    or_else refuse_if (has_uuid && not (is_valid_uuid_v7 uuid)) uuid_malformed

-- `grouped[scope]`, where a missing key is the nil slice
abbrev pub group_of : Bytes → List (Bytes × List Item) → List Item
group_of scope grouped = elim (lookup Bytes-discrete scope grouped) [
  | none ↦ []
  | some items ↦ items
]

-- One turn of the loop of groupItemsByScope.
unfoldable pub add_to_group : Item → List (Bytes × List Item) → List (Bytes × List Item)
add_to_group item grouped =
    insert Bytes-discrete item.scope (group_of item.scope grouped ++ (item ∷ [])) grouped

unfoldable pub group_from : List Item → List (Bytes × List Item) → List (Bytes × List Item)
unfolding add_to_group
group_from [] grouped = grouped
group_from (item ∷ items) grouped = group_from items (add_to_group item grouped)

unfoldable pub group_items_by_scope : List Item → List (Bytes × List Item)
unfolding group_from
group_items_by_scope items = group_from items []
