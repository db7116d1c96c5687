-- ===== src/Buffer/Write.antt =====
-- The single-item write paths of buffer_write.go. Each result comes with the state left behind.
pub mod Keeps
pub mod Updates
use scopecache.Prelude.{
  ℕ, ◌+◌, ◌%◌, Bool, true, false, not, ◌==◌, if◌then◌else◌, ◌&&◌, List, Option, none, some, length,
  ℕ_discrete,
}
use scopecache.Word.{word, add64, sub64, slt}
use scopecache.Map.{lookup}
use scopecache.Item.{
  Bytes, Bytes-discrete, Uuid, Item, empty_item, is_empty, slice_len, Json, render_or_precompute,
  approx_item_size, payload_and_render_bytes, Error, Result, ok, err,
}
use scopecache.Ledger.{max_item_bytes_for}
use scopecache.Buffer.{Ptr, ScopeBuffer, State}
use scopecache.Buffer.Locked.{
  item_at, item_cap_exceeded, index_by_seq, reserve_payload_delta, replace_item_at_index,
  insert_new_item,
}

-- An id is taken: `if item.ID != "" { if _, exists := b.byID[item.ID]; exists … } }`
unfoldable pub id_exists : Bytes → ScopeBuffer → Bool
id_exists id b = elim (lookup Bytes-discrete id b.by_id) [
  | none ↦ false
  | some _ ↦ not (is_empty id)
]

unfoldable pub append_item : Json → (ℕ → ℕ → ℕ) → Item → ℕ → Uuid → State → Result Item × State
unfolding id_exists
append_item json grow item now minted s =
    if s.buf.detached
    then (err Error.scope_detached, s)
    else if item_cap_exceeded s.buf (length s.buf.items + 1)
    then (err (Error.scope_full (length s.buf.items) s.buf.max_items), s)
    else if id_exists item.id s.buf
    then (err Error.duplicate_id, s)
    else insert_new_item json grow item now minted s

-- The bytes of a payload with its rendered form, as an int64.
abbrev pub new_payload_bytes : Bytes → Option Bytes → ℕ
new_payload_bytes payload render = (length payload + slice_len render) % word

-- The end of the replacing paths, behind the reservation: find the index of the item, and write
-- through it. `none` stands for the defensive branch where the index is not found.
unfoldable pub finish_replace :
    ℕ → Bytes → Option Bytes → ℕ → Result ℕ × State → Result (Option ℕ) × State
finish_replace seq payload render now (err e, s) = (err e, s)
finish_replace seq payload render now (ok delta, s) = elim (index_by_seq seq s.buf) [
  | none ↦ (ok none, s)
  | some i ↦ (ok (some i), replace_item_at_index i payload now render delta s)
]

-- The tail that the replacing paths share: reserve the change in bytes, then write.
unfoldable pub replace_payload :
    Item → ℕ → Bytes → Option Bytes → ℕ → State → Result (Option ℕ) × State
unfolding finish_replace
replace_payload existing seq payload render now s =
    finish_replace seq payload render now (
      reserve_payload_delta (payload_and_render_bytes existing) (new_payload_bytes payload render)
        s)

-- The count that the update methods return: 1 where an item was written.
abbrev pub as_count : Result (Option ℕ) × State → Result ℕ × State
as_count (err e, s) = (err e, s)
as_count (ok none, s) = (ok 0, s)
as_count (ok (some i), s) = (ok 1, s)

-- The result of a replacing upsert: the item as stored, and that it was not created.
abbrev pub as_upserted : Result (Option ℕ) × State → Result (Item × Bool) × State
as_upserted (err e, s) = (err e, s)
as_upserted (ok none, s) = (ok (empty_item, false), s)
as_upserted (ok (some i), s) = (ok (item_at s.buf i, false), s)

abbrev pub as_created : Result Item × State → Result (Item × Bool) × State
as_created (err e, s) = (err e, s)
as_created (ok item, s) = (ok (item, true), s)

unfoldable pub upsert_by_id :
    Json → (ℕ → ℕ → ℕ) → Item → ℕ → Uuid → State → Result (Item × Bool) × State
unfolding replace_payload
upsert_by_id json grow item now minted s =
    if s.buf.detached
    then (err Error.scope_detached, s)
    else elim (lookup Bytes-discrete item.id s.buf.by_id) [
      | some p ↦ as_upserted (
          replace_payload (s.buf.heap p) (s.buf.heap p).seq item.payload
            (render_or_precompute json item.render_bytes item.payload) now s)
      | none ↦
          if item_cap_exceeded s.buf (length s.buf.items + 1)
          then (err (Error.scope_full (length s.buf.items) s.buf.max_items), s)
          else as_created (insert_new_item json grow item now minted s)
    ]

unfoldable pub update_by_id : Json → Bytes → Bytes → Option Bytes → ℕ → State → Result ℕ × State
unfolding replace_payload
update_by_id json id payload pre_render now s =
    if s.buf.detached
    then (err Error.scope_detached, s)
    else elim (lookup Bytes-discrete id s.buf.by_id) [
      | none ↦ (ok 0, s)
      | some p ↦ as_count (
          replace_payload (s.buf.heap p) (s.buf.heap p).seq payload
            (render_or_precompute json pre_render payload) now s)
    ]

-- The item as it would be stored, measured against the per-item cap of its scope.
unfoldable pub exceeds_item_cap : Item → Bytes → Option Bytes → State → Bool
exceeds_item_cap existing payload render s =
    let candidate = record empty_item {
      scope = existing.scope;
      id = existing.id;
      uuid = existing.uuid;
      payload = payload;
      render_bytes = render;
    } in
    s.buf.has_store && slt (max_item_bytes_for existing.scope s.ledger) (approx_item_size candidate)

-- The common body of updateBySeq and updateByUUID behind their lookups.
unfoldable pub update_checked :
    Json → Item → ℕ → Bytes → Option Bytes → ℕ → State → Result ℕ × State
unfolding exceeds_item_cap replace_payload
update_checked json existing seq payload pre_render now s =
    let render = render_or_precompute json pre_render payload in
    if exceeds_item_cap existing payload render s
    then (err Error.invalid_input, s)
    else as_count (replace_payload existing seq payload render now s)

unfoldable pub update_by_seq : Json → ℕ → Bytes → Option Bytes → ℕ → State → Result ℕ × State
unfolding update_checked
update_by_seq json seq payload pre_render now s =
    if s.buf.detached
    then (err Error.scope_detached, s)
    else elim (lookup ℕ_discrete seq s.buf.by_seq) [
      | none ↦ (ok 0, s)
      | some p ↦ update_checked json (s.buf.heap p) seq payload pre_render now s
    ]

unfoldable pub update_by_uuid : Json → Uuid → Bytes → Option Bytes → ℕ → State → Result ℕ × State
unfolding update_checked
update_by_uuid json u payload pre_render now s =
    if s.buf.detached
    then (err Error.scope_detached, s)
    else elim (lookup Bytes-discrete u s.buf.by_uuid) [
      | none ↦ (ok 0, s)
      | some p ↦ update_checked json (s.buf.heap p) (s.buf.heap p).seq payload pre_render now s
    ]
