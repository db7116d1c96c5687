-- ===== src/Buffer.antt =====
-- One scope of the cache: the scopeBuffer of buffer.go. Its items live on a heap, and items, byID,
-- bySeq and byUUID hold pointers into it, so that a write through one index is seen by the others.
pub mod Locked
pub mod Write
pub mod Delete
pub mod Counter
pub mod Read
pub mod Replace
pub mod Order
pub mod Invariant
pub mod Insert
pub mod Remove
pub mod Kept
pub mod Contents
pub mod Effects
pub mod History
pub mod ScopeCount
pub mod Served
use scopecache.Prelude.{
  ℕ, Bool, true, false, if◌then◌else◌, ◌==◌, List, [], Option, none, some, ◌≡◌, ◌≢◌, refl, arith,
}
use scopecache.Item.{Bytes, Uuid, zero_uuid, Item, empty_item, is_empty, is_zero, Error, Result}
use scopecache.Ledger.{Ledger}

abbrev pub Ptr : Type 0
Ptr = ℕ

abbrev pub Heap : Type 0
Heap = Ptr → Item

-- `*p = item`
unfoldable pub put_item : Ptr → Item → Heap → Heap
put_item p item heap q = if q == p then item else heap q

-- `has_store` says that the store pointer is not nil; `heap` and `next` are the heap and its first
-- free pointer, and `items_cap` is the capacity of the items slice. The mutex is held by every
-- operation from its start to its end, and so has no field.
pub record ScopeBuffer : Type 0 where
  pub has_store : Bool
  pub detached : Bool
  pub heap : Heap
  pub next : Ptr
  pub items : List Ptr
  pub items_cap : ℕ
  pub by_id : List (Bytes × Ptr)
  pub by_seq : List (ℕ × Ptr)
  pub by_uuid : List (Uuid × Ptr)
  pub last_seq : ℕ
  pub first_uuid : Uuid
  pub last_uuid : Uuid
  pub max_items : ℕ
  pub max_item_bytes : ℕ
  pub bytes : ℕ
  pub id_key_bytes : ℕ
  pub created_ts : ℕ
  pub last_write_ts : ℕ
  pub last_access_ts : ℕ
  pub read_count_total : ℕ

-- `newscopeBuffer`, before a store takes it over
unfoldable pub new_scope_buffer : ℕ → ℕ → ScopeBuffer
new_scope_buffer max_items now = record {
  has_store = false;
  detached = false;
  heap = λ p. empty_item;
  next = 0;
  items = [];
  items_cap = 0;
  by_id = [];
  by_seq = [];
  by_uuid = [];
  last_seq = 0;
  first_uuid = zero_uuid;
  last_uuid = zero_uuid;
  max_items = max_items;
  max_item_bytes = 0;
  bytes = 0;
  id_key_bytes = 0;
  created_ts = now;
  last_write_ts = now;
  last_access_ts = 0;
  read_count_total = 0;
}

-- What an operation on a scope reads and writes: the store's counters and the buffer.
pub record State : Type 0 where
  pub ledger : Ledger
  pub buf : ScopeBuffer

-- The key of an item in each of the three maps; an item without an id or uuid is not in that map.
unfoldable pub id_tag : Item → Option Bytes
id_tag item = if is_empty item.id then none else some item.id

unfoldable pub seq_tag : Item → Option ℕ
seq_tag item = some item.seq

unfoldable pub uuid_tag : Item → Option Uuid
uuid_tag item = if is_zero item.uuid then none else some item.uuid

pub get-put_item_self : (p : Ptr) (item : Item) (heap : Heap) → put_item p item heap p ≡ item
unfolding put_item
get-put_item_self p item heap = ground arith

pub get-put_item_ne :
    (p q : Ptr) (item : Item) (heap : Heap) → q ≢ p → put_item p item heap q ≡ heap q
unfolding put_item
get-put_item_ne p q item heap h = ground arith
