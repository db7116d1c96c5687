-- ===== src/Ledger.antt =====
-- The store-wide state that the scope buffers share: the atomic counters of the store and its caps
-- (store.go). The compare-and-swap loops run to their end in one step here.
pub mod Steps
use scopecache.Prelude.{
  ℕ, ◌+◌, ◌-◌, ◌%◌, ◌^◌, Bool, true, false, if◌then◌else◌, ◌&&◌, ite, List, [], ◌∷◌,
}
use scopecache.Word.{word, half, add64, sub64, slt, sle}
use scopecache.Item.{Bytes, Bytes-discrete}

pub data EventsMode : Type 0 where
  events_off events_notify events_full : EventsMode

-- The counters are int64; the caps do not change after newStore.
pub record Ledger : Type 0 where
  pub total_bytes : ℕ
  pub total_items : ℕ
  pub scope_count : ℕ
  pub last_write_ts : ℕ
  pub events_drops_total : ℕ
  pub default_max_items : ℕ
  pub max_store_bytes : ℕ
  pub max_item_bytes : ℕ
  pub events_max_item_bytes : ℕ
  pub inbox_max_items : ℕ
  pub inbox_max_item_bytes : ℕ
  pub events_mode : EventsMode

-- What `reserveBytes` returns, and the counters that it leaves.
pub record Reservation : Type 0 where
  pub granted : Bool
  pub current : ℕ
  pub cap : ℕ
  pub ledger : Ledger

unfoldable pub reserve_bytes : ℕ → Ledger → Reservation
reserve_bytes delta l =
    let next = add64 l.total_bytes delta in
    let taken : Reservation = record {
      granted = true;
      current = next;
      cap = l.max_store_bytes;
      ledger = record l { total_bytes = next };
    } in
    if sle delta 0
    then taken
    else if slt (sub64 l.max_store_bytes l.total_bytes) delta
    then record { granted = false; current = l.total_bytes; cap = l.max_store_bytes; ledger = l }
    else taken

-- CAS-max: an older time changes nothing.
unfoldable pub bump_last_write_ts : ℕ → Ledger → Ledger
bump_last_write_ts now l = if sle now l.last_write_ts then l else record l { last_write_ts = now }

abbrev pub max_int64 : ℕ
max_int64 = 2 ^ 63 - 1

abbrev pub min_int64 : ℕ
min_int64 = 2 ^ 63

unfoldable pub add_clamped_int64 : ℕ → ℕ → ℕ
add_clamped_int64 a b =
    if slt 0 b && slt (sub64 max_int64 b) a
    then max_int64
    else if slt b 0 && slt a (sub64 min_int64 b)
    then min_int64
    else add64 a b

abbrev pub scope_buffer_overhead : ℕ
scope_buffer_overhead = 1024

-- `_events` and `_inbox`
abbrev pub events_scope_name : Bytes
events_scope_name = b'_' ∷ b'e' ∷ b'v' ∷ b'e' ∷ b'n' ∷ b't' ∷ b's' ∷ []

abbrev pub inbox_scope_name : Bytes
inbox_scope_name = b'_' ∷ b'i' ∷ b'n' ∷ b'b' ∷ b'o' ∷ b'x' ∷ []

unfoldable pub is_reserved_scope : Bytes → Bool
is_reserved_scope scope =
    ite (Bytes-discrete scope events_scope_name) true
      (ite (Bytes-discrete scope inbox_scope_name) true false)

unfoldable pub max_item_bytes_for : Bytes → Ledger → ℕ
max_item_bytes_for scope l =
    ite (Bytes-discrete scope events_scope_name) l.events_max_item_bytes
      (ite (Bytes-discrete scope inbox_scope_name) l.inbox_max_item_bytes l.max_item_bytes)

-- The sentinel for a scope without an item cap.
abbrev pub unbounded_scope_max_items : ℕ
unbounded_scope_max_items = 0

unfoldable pub max_items_for : Bytes → Ledger → ℕ
max_items_for scope l =
    ite (Bytes-discrete scope events_scope_name) unbounded_scope_max_items
      (ite (Bytes-discrete scope inbox_scope_name) l.inbox_max_items l.default_max_items)
