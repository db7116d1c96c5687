-- ===== src/Buffer/Delete.antt =====
-- The delete paths of buffer_delete.go.
pub mod Keeps
use scopecache.Prelude.{
  ℕ, ◌*◌, ◌-◌, ◌%◌, ltb, leb, ◌==◌, if◌then◌else◌, List, [], ◌∷◌, Option, none, some, length,
  erase_idx, take, drop, sum_by, ℕ_discrete,
}
use scopecache.Word.{word, add64, sub64}
use scopecache.Map.{lookup}
use scopecache.Map.Keeps.{record_key, forget_key, forget_keys}
use scopecache.Search.{search}
use scopecache.Item.{Bytes, Bytes-discrete, Uuid, approx_item_size, Error, Result, ok, err}
use scopecache.Ledger.{Ledger, bump_last_write_ts}
use scopecache.Buffer.{Ptr, Heap, ScopeBuffer, State, id_tag, seq_tag, uuid_tag}
use scopecache.Buffer.Locked.{item_at, index_by_seq, id_len}

-- The maps over a list of pointers, written one after another.
unfoldable pub index_items :
    {K : Type 0} → Discrete K → (Ptr → Option K) → List Ptr → List (K × Ptr) → List (K × Ptr)
index_items dec tag [] m = m
index_items dec tag (p ∷ ps) m = index_items dec tag ps (record_key dec (tag p) p m)

abbrev pub shrink_min_cap : ℕ
shrink_min_cap = 1024

abbrev pub shrink_sparse_ratio : ℕ
shrink_sparse_ratio = 4

-- A sparse slice is copied, and the maps are rebuilt from the items that are left.
unfoldable pub shrink_if_sparse : ScopeBuffer → ScopeBuffer
unfolding index_items
shrink_if_sparse b =
    if leb b.items_cap shrink_min_cap
    then b
    else if leb b.items_cap (length b.items * shrink_sparse_ratio)
    then b
    else record b {
      items_cap = length b.items;
      by_seq = index_items ℕ_discrete (λ p. seq_tag (b.heap p)) b.items [];
      by_id = index_items Bytes-discrete (λ p. id_tag (b.heap p)) b.items [];
      by_uuid = index_items Bytes-discrete (λ p. uuid_tag (b.heap p)) b.items [];
    }

-- A drained scope drops its slice and its maps; the cursor and the uuid span stay.
unfoldable pub reset_if_empty : ScopeBuffer → ScopeBuffer
reset_if_empty b = elim b.items [
  | _ ∷ _ ↦ b
  | [] ↦ record b {
    items = [];
    items_cap = 0;
    by_seq = [];
    by_id = [];
    by_uuid = [];
    id_key_bytes = 0;
  }
]

-- The counters of a store-attached scope after `count` items of `size` bytes are gone.
abbrev pub release : ℕ → ℕ → ℕ → Ledger → Ledger
release size count now l =
    bump_last_write_ts now
      (record l { total_bytes = sub64 l.total_bytes size; total_items = sub64 l.total_items count })

-- `removed.ID` out of byID, and so for bySeq and byUUID; the rest moves down by one.
unfoldable pub remove_item : ℕ → ℕ → ScopeBuffer → ScopeBuffer
remove_item i now b =
    let removed = item_at b i in
    record b {
      items = erase_idx b.items i;
      by_seq = forget_key ℕ_discrete (seq_tag removed) b.by_seq;
      by_id = forget_key Bytes-discrete (id_tag removed) b.by_id;
      by_uuid = forget_key Bytes-discrete (uuid_tag removed) b.by_uuid;
      id_key_bytes = sub64 b.id_key_bytes (id_len removed);
      bytes = sub64 b.bytes (approx_item_size removed);
      last_write_ts = now;
    }

-- `deleteIndexLocked`; the index is valid.
unfoldable pub delete_index : ℕ → ℕ → State → State
unfolding remove_item shrink_if_sparse reset_if_empty
delete_index i now s =
    let size = approx_item_size (item_at s.buf i) in
    record s {
      buf = shrink_if_sparse (reset_if_empty (remove_item i now s.buf));
      ledger = if s.buf.has_store then release size 1 now s.ledger else s.ledger;
    }

-- The end of the single deletes: find the index of the sequence number, and delete there.
unfoldable pub delete_seq : ℕ → ℕ → State → Result ℕ × State
unfolding delete_index
delete_seq seq now s = elim (index_by_seq seq s.buf) [
  | none ↦ (ok 0, s)
  | some i ↦ (ok 1, delete_index i now s)
]

unfoldable pub delete_by_id : Bytes → ℕ → State → Result ℕ × State
unfolding delete_seq
delete_by_id id now s =
    if s.buf.detached
    then (err Error.scope_detached, s)
    else elim (lookup Bytes-discrete id s.buf.by_id) [
      | none ↦ (ok 0, s)
      | some p ↦ delete_seq (s.buf.heap p).seq now s
    ]

unfoldable pub delete_by_seq : ℕ → ℕ → State → Result ℕ × State
unfolding delete_seq
delete_by_seq seq now s =
    if s.buf.detached
    then (err Error.scope_detached, s)
    else elim (lookup ℕ_discrete seq s.buf.by_seq) [
      | none ↦ (ok 0, s)
      | some _ ↦ delete_seq seq now s
    ]

unfoldable pub delete_by_uuid : Uuid → ℕ → State → Result ℕ × State
unfolding delete_seq
delete_by_uuid u now s =
    if s.buf.detached
    then (err Error.scope_detached, s)
    else elim (lookup Bytes-discrete u s.buf.by_uuid) [
      | none ↦ (ok 0, s)
      | some p ↦ delete_seq (s.buf.heap p).seq now s
    ]

-- The index of the first item behind the boundary.
unfoldable pub cut_point : ℕ → ScopeBuffer → ℕ
cut_point max_seq b = search (length b.items) (λ k. ltb max_seq (item_at b k).seq)

-- The first `n` items go out of items and of every map.
unfoldable pub remove_prefix : ℕ → ℕ → ScopeBuffer → ScopeBuffer
remove_prefix n now b =
    let gone = take n b.items in
    record b {
      items = drop n b.items;
      items_cap = length b.items - n;
      by_seq = forget_keys ℕ_discrete (λ p. seq_tag (b.heap p)) gone b.by_seq;
      by_id = forget_keys Bytes-discrete (λ p. id_tag (b.heap p)) gone b.by_id;
      by_uuid = forget_keys Bytes-discrete (λ p. uuid_tag (b.heap p)) gone b.by_uuid;
      bytes = sub64 b.bytes (sum_by (λ p. approx_item_size (b.heap p)) gone % word);
      id_key_bytes = sub64 b.id_key_bytes (sum_by (λ p. id_len (b.heap p)) gone % word);
      last_write_ts = now;
    }

-- `deleteUpToSeqLocked`
unfoldable pub delete_up_to_seq_locked : ℕ → ℕ → State → ℕ × State
unfolding cut_point remove_prefix reset_if_empty
delete_up_to_seq_locked max_seq now s =
    let n = cut_point max_seq s.buf in
    let freed = sum_by (λ p. approx_item_size (s.buf.heap p)) (take n s.buf.items) % word in
    if n == 0 then (0, s) else (
      n,
      record s {
        buf = reset_if_empty (remove_prefix n now s.buf);
        ledger = if s.buf.has_store then release freed (n % word) now s.ledger else s.ledger;
      },
    )

abbrev pub as_ok : ℕ × State → Result ℕ × State
as_ok (n, s) = (ok n, s)

unfoldable pub delete_up_to_seq : ℕ → ℕ → State → Result ℕ × State
unfolding delete_up_to_seq_locked
delete_up_to_seq max_seq now s =
    if s.buf.detached
    then (err Error.scope_detached, s)
    else as_ok (delete_up_to_seq_locked max_seq now s)

unfoldable pub delete_up_to_uuid : Uuid → ℕ → State → Result ℕ × State
unfolding delete_up_to_seq_locked
delete_up_to_uuid u now s =
    if s.buf.detached
    then (err Error.scope_detached, s)
    else elim (lookup Bytes-discrete u s.buf.by_uuid) [
      | none ↦ (ok 0, s)
      | some p ↦ as_ok (delete_up_to_seq_locked (s.buf.heap p).seq now s)
    ]
