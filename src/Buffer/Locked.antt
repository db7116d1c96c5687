-- ===== src/Buffer/Locked.antt =====
-- The helpers of buffer_locked.go that the write paths share, and the fresh insert of
-- buffer_write.go. All run under the scope's lock.
use scopecache.Prelude.{
  ℕ, ◌+◌, Bool, true, false, not, ltb, leb, ◌==◌, if◌then◌else◌, ◌&&◌, ◌||◌, [], ◌∷◌, ◌++◌, Option,
  none, some, length, get_or, ℕ_discrete,
}
use scopecache.Word.{add64, sub64, slt}
use scopecache.Map.Keeps.{record_key}
use scopecache.Search.{search}
use scopecache.Item.{
  Bytes, Bytes-discrete, Uuid, is_zero, Item, Json, render_or_precompute, approx_item_size, Error,
  Result, ok, err,
}
use scopecache.Ledger.{Ledger, Reservation, reserve_bytes, bump_last_write_ts}
use scopecache.Buffer.{Ptr, put_item, ScopeBuffer, State, id_tag, seq_tag, uuid_tag}

-- `b.items[i]`; every caller has an index in range.
abbrev pub ptr_at : ScopeBuffer → ℕ → Ptr
ptr_at b i = get_or b.items i 0

abbrev pub item_at : ScopeBuffer → ℕ → Item
item_at b i = b.heap (ptr_at b i)

-- `b.itemCapExceeded(proposed)`: a cap of 0 means no cap.
unfoldable pub item_cap_exceeded : ScopeBuffer → ℕ → Bool
item_cap_exceeded b proposed = slt 0 b.max_items && slt b.max_items proposed

-- The binary search over the ascending sequence numbers.
unfoldable pub index_by_seq : ℕ → ScopeBuffer → Option ℕ
index_by_seq seq b =
    let i = search (length b.items) (λ k. leb seq (item_at b k).seq) in
    if i == length b.items || not ((item_at b i).seq == seq) then none else some i

-- The reservation of a store-attached scope; without a store nothing is counted, and at a change
-- of 0 `or_skip` leaves the counters alone.
unfoldable pub reserve_if : Bool → ℕ → Ledger → Reservation
reserve_if true delta l = reserve_bytes delta l
reserve_if false delta l = record {
  granted = true;
  current = l.total_bytes;
  cap = l.max_store_bytes;
  ledger = l;
}

unfoldable pub touch_store : Bool → ℕ → Ledger → Ledger
touch_store true now l = bump_last_write_ts now l
touch_store false now l = l

-- `reservePayloadDeltaLocked`
unfoldable pub reserve_payload_delta : ℕ → ℕ → State → Result ℕ × State
unfolding reserve_if
reserve_payload_delta old_size new_size s =
    let delta = sub64 new_size old_size in
    let r = reserve_if (s.buf.has_store && not (delta == 0)) delta s.ledger in
    if r.granted
    then (ok delta, record s { ledger = r.ledger })
    else (err (Error.store_full r.current delta r.cap), record s { ledger = r.ledger })

-- `replaceItemAtIndexLocked`
unfoldable pub replace_item_at_index : ℕ → Bytes → ℕ → Option Bytes → ℕ → State → State
unfolding touch_store
replace_item_at_index i payload ts render_bytes delta s =
    let b = s.buf in
    let item = record (item_at b i) {
      payload = payload;
      ts = ts;
      render_bytes = render_bytes;
      counter = none;
    } in
    record s {
      buf = record b {
        heap = put_item (ptr_at b i) item b.heap;
        bytes = add64 b.bytes delta;
        last_write_ts = ts;
      };
      ledger = touch_store b.has_store ts s.ledger;
    }

-- `append` of one pointer: a full slice grows, by how much the runtime decides.
unfoldable pub grown_cap : (ℕ → ℕ → ℕ) → ScopeBuffer → ℕ
grown_cap grow b =
    if ltb (length b.items) b.items_cap then b.items_cap else grow b.items_cap (length b.items + 1)

-- `if b.firstUUID.IsZero() { b.firstUUID = item.UUID }`, under `!item.UUID.IsZero()`
unfoldable pub span_start : Uuid → Uuid → Uuid
span_start first u = if is_zero u then first else if is_zero first then u else first

unfoldable pub span_end : Uuid → Uuid → Uuid
span_end last u = if is_zero u then last else u

abbrev pub id_len : Item → ℕ
id_len item = length item.id

-- The new item goes to the heap, to the end of items, and into every map where it has a key. The
-- item carries its sequence number already.
unfoldable pub store_item : (ℕ → ℕ → ℕ) → Item → ℕ → ScopeBuffer → ScopeBuffer
unfolding grown_cap span_start span_end
store_item grow item size b = record b {
  heap = put_item b.next item b.heap;
  next = b.next + 1;
  items = b.items ++ (b.next ∷ []);
  items_cap = grown_cap grow b;
  by_seq = record_key ℕ_discrete (seq_tag item) b.next b.by_seq;
  by_id = record_key Bytes-discrete (id_tag item) b.next b.by_id;
  by_uuid = record_key Bytes-discrete (uuid_tag item) b.next b.by_uuid;
  last_seq = item.seq;
  first_uuid = span_start b.first_uuid item.uuid;
  last_uuid = span_end b.last_uuid item.uuid;
  bytes = add64 b.bytes size;
  id_key_bytes = add64 b.id_key_bytes (id_len item);
}

-- `totalItems.Add(n)` of a store-attached scope
unfoldable pub count_items : Bool → ℕ → Ledger → Ledger
count_items true n l = record l { total_items = add64 l.total_items n }
count_items false n l = l

-- An item without a uuid adopts the one minted for it, in a store-attached scope.
abbrev pub adopted_uuid : Item → Uuid → ScopeBuffer → Uuid
adopted_uuid item minted b = if b.has_store && is_zero item.uuid then minted else item.uuid

-- The item as `insertNewItemLocked` stores it, but for its sequence number.
unfoldable pub prepare_item : Json → Item → ℕ → Uuid → ScopeBuffer → Item
prepare_item json item now minted b = record item {
  counter = none;
  ts = now;
  render_bytes = render_or_precompute json item.render_bytes item.payload;
  uuid = adopted_uuid item minted b;
  seq = add64 b.last_seq 1;
}

-- `insertNewItemLocked`: nothing changes when a cap refuses the item.
unfoldable pub insert_new_item : Json → (ℕ → ℕ → ℕ) → Item → ℕ → Uuid → State → Result Item × State
unfolding prepare_item reserve_if store_item count_items touch_store
insert_new_item json grow given now minted s =
    let item = prepare_item json given now minted s.buf in
    let size = approx_item_size item in
    let r = reserve_if s.buf.has_store size s.ledger in
    if s.buf.has_store && slt s.buf.max_item_bytes size
    then (err (Error.item_too_large size s.buf.max_item_bytes), s)
    else if r.granted
    then (
      ok item,
      record s {
        buf = record (store_item grow item size s.buf) { last_write_ts = now };
        ledger = touch_store s.buf.has_store now (count_items s.buf.has_store 1 r.ledger);
      },
    )
    else (err (Error.store_full r.current size r.cap), record s { ledger = r.ledger })
