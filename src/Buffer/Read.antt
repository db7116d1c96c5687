-- ===== src/Buffer/Read.antt =====
-- The read paths of buffer_read.go, with the read bookkeeping and the statistics of a scope. A read
-- hands out copies of the items, counters materialised.
pub mod Window
use scopecache.Prelude.{
  ℕ, ◌+◌, ◌-◌, ◌*◌, ◌%◌, Bool, true, false, ltb, leb, if◌then◌else◌, ◌||◌, List, [], Option, none,
  some, length, take, drop, map, ℕ_discrete,
}
use scopecache.Word.{word, add64, sub64, slt, sle}
use scopecache.Map.{lookup}
use scopecache.Search.{search}
use scopecache.Item.{
  Bytes, Bytes-discrete, Uuid, Item, materialise_counter, materialise_counters_in_place,
}
use scopecache.Buffer.{Ptr, ScopeBuffer}
use scopecache.Buffer.Locked.{item_at}

-- Copies of the items of the window [from, to).
abbrev pub copy_window : ScopeBuffer → ℕ → ℕ → List Item
copy_window b from to =
    materialise_counters_in_place (map b.heap (take (to - from) (drop from b.items)))

-- `tailOffset`: limit, offset and the bounds are int64. The flag says that older items remain.
unfoldable pub tail_offset : ℕ → ℕ → ScopeBuffer → List Item × Bool
tail_offset limit offset b =
    let end = sub64 (length b.items) offset in
    let start = sub64 end limit in
    let from = if slt start 0 then 0 else start in
    if sle limit 0 || slt offset 0
    then ([], false)
    else if sle (length b.items) offset
    then ([], false)
    else if sle end from
    then ([], false)
    else (copy_window b from end, slt 0 start)

-- `sinceSeq`
unfoldable pub since_seq : ℕ → ℕ → ScopeBuffer → List Item × Bool
since_seq after_seq limit b =
    let idx = search (length b.items) (λ k. ltb after_seq (item_at b k).seq) in
    let available = length b.items - idx in
    if sle limit 0
    then ([], false)
    else if leb (length b.items) idx
    then ([], false)
    else if slt limit available
    then (copy_window b idx (idx + limit), true)
    else (copy_window b idx (idx + available), false)

abbrev pub read_ptr : ScopeBuffer → Option Ptr → Option Item
read_ptr b none = none
read_ptr b (some p) = some (materialise_counter (b.heap p))

unfoldable pub get_by_id : Bytes → ScopeBuffer → Option Item
get_by_id id b = read_ptr b (lookup Bytes-discrete id b.by_id)

unfoldable pub get_by_seq : ℕ → ScopeBuffer → Option Item
get_by_seq seq b = read_ptr b (lookup ℕ_discrete seq b.by_seq)

unfoldable pub get_by_uuid : Uuid → ScopeBuffer → Option Item
get_by_uuid u b = read_ptr b (lookup Bytes-discrete u b.by_uuid)

-- `recordRead` (buffer_heat.go)
unfoldable pub record_read : ℕ → ScopeBuffer → ScopeBuffer
record_read now b = record b { read_count_total = add64 b.read_count_total 1; last_access_ts = now }

-- `approxSizeBytesLocked` (buffer_stats.go)
unfoldable pub approx_size_bytes : ScopeBuffer → ℕ
approx_size_bytes b =
    (64
      + length b.items * 32
      + b.bytes
      + length b.by_id * 32
      + b.id_key_bytes
      + length b.by_seq * 16)
    % word

pub record ScopeStats : Type 0 where
  pub item_count : ℕ
  pub last_seq : ℕ
  pub first_uuid : Uuid
  pub last_uuid : Uuid
  pub approx_scope_bytes : ℕ
  pub created_ts : ℕ
  pub last_write_ts : ℕ
  pub last_access_ts : ℕ
  pub read_count_total : ℕ

unfoldable pub stats : ScopeBuffer → ScopeStats
unfolding approx_size_bytes
stats b = record {
  item_count = length b.items;
  last_seq = b.last_seq;
  first_uuid = b.first_uuid;
  last_uuid = b.last_uuid;
  approx_scope_bytes = approx_size_bytes b;
  created_ts = b.created_ts;
  last_write_ts = b.last_write_ts;
  last_access_ts = b.last_access_ts;
  read_count_total = b.read_count_total;
}
