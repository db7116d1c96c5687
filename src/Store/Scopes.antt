-- ===== src/Store/Scopes.antt =====
-- The calls that make and empty a whole store: newStore, deleteScope (store.go) and wipe (bulk.go).
-- Each holds the locks of its shards and of the buffers that it detaches.
use scopecache.Prelude.{ℕ, ◌+◌, List, [], ◌∷◌, Option, none, some, length}
use scopecache.Word.{add64, sub64}
use scopecache.Map.{erase}
use scopecache.Item.{Bytes, Bytes-discrete}
use scopecache.Ledger.{
  Ledger, bump_last_write_ts, scope_buffer_overhead, events_scope_name, inbox_scope_name,
  max_items_for, max_item_bytes_for,
}
use scopecache.Buffer.{ScopeBuffer}
use scopecache.Bulk.{attached_scope_buffer}
use scopecache.Store.{Store, BufPtr, put_buf, get_scope, map_scope, detach}

-- `reservedScopeNames`
abbrev pub reserved_scope_names : List Bytes
reserved_scope_names = events_scope_name ∷ inbox_scope_name ∷ []

-- The buffer of a reserved scope, with the caps of its name.
unfoldable pub reserved_scope_buffer : Bytes → ℕ → ℕ → Ledger → ScopeBuffer
unfolding attached_scope_buffer max_items_for max_item_bytes_for
reserved_scope_buffer name now written l = record (attached_scope_buffer l now) {
  max_items = max_items_for name l;
  max_item_bytes = max_item_bytes_for name l;
  last_write_ts = written;
}

-- One turn of the loop of initReservedScopes, where `written` is the buffer's lastWriteTS.
unfoldable pub init_reserved_scope : ℕ → ℕ → Bytes → Store → Store
unfolding get_scope map_scope reserved_scope_buffer
init_reserved_scope now written name s = elim (get_scope name s) [
  | some p ↦ s
  | none ↦ map_scope name (reserved_scope_buffer name now written s.ledger) (record s {
    ledger = record (s.ledger) { total_bytes = add64 (s.ledger.total_bytes) scope_buffer_overhead };
  })
]

unfoldable pub init_each : ℕ → ℕ → List Bytes → Store → Store
unfolding init_reserved_scope
init_each now written [] s = s
init_each now written (name ∷ names) s =
    init_each now written names (init_reserved_scope now written name s)

-- At boot the buffers report no write.
unfoldable pub init_reserved_scopes : ℕ → Store → Store
unfolding init_each
init_reserved_scopes now s = init_each now 0 reserved_scope_names s

-- `initReservedScopesLocked` aligns the buffers with the store's last write.
unfoldable pub init_reserved_scopes_locked : ℕ → Store → Store
unfolding init_each
init_reserved_scopes_locked now s = init_each now s.ledger.last_write_ts reserved_scope_names s

-- The locked phase of deleteScope: the number of items that went, where the scope was there.
unfoldable pub remove_scope : Bytes → ℕ → Store → Option ℕ × Store
unfolding get_scope put_buf detach
remove_scope scope now s = elim (get_scope scope s) [
  | none ↦ (none, s)
  | some p ↦
      let b = s.bufs p in
      let freed = add64 b.bytes scope_buffer_overhead in
      (
        some (length b.items),
        record s {
          scopes = erase Bytes-discrete scope s.scopes;
          bufs = put_buf p (detach b) s.bufs;
          ledger = bump_last_write_ts now (record (s.ledger) {
            total_bytes = sub64 (s.ledger.total_bytes) freed;
            total_items = sub64 (s.ledger.total_items) (length b.items);
            scope_count = sub64 (s.ledger.scope_count) 1;
          });
        },
      )
]

-- The loop of wipe over the buffers of every shard.
unfoldable pub detach_all : List (Bytes × BufPtr) → (BufPtr → ScopeBuffer) → BufPtr → ScopeBuffer
unfolding put_buf detach
detach_all [] bufs = bufs
detach_all ((name, p) ∷ m) bufs = detach_all m (put_buf p (detach (bufs p)) bufs)

unfoldable pub count_all : List (Bytes × BufPtr) → (BufPtr → ScopeBuffer) → ℕ
count_all [] bufs = 0
count_all ((name, p) ∷ m) bufs = length (bufs p).items + count_all m bufs

-- What wipe returns: the scopes, the items and the bytes that went.
pub record Wiped : Type 0 where
  pub scope_count : ℕ
  pub total_items : ℕ
  pub freed_bytes : ℕ

unfoldable pub wipe : ℕ → Store → Wiped × Store
unfolding detach_all count_all init_reserved_scopes_locked
wipe now s = (
  record {
    scope_count = length s.scopes;
    total_items = count_all s.scopes s.bufs;
    freed_bytes = s.ledger.total_bytes;
  },
  init_reserved_scopes_locked now (record s {
    scopes = [];
    bufs = detach_all s.scopes s.bufs;
    ledger =
        bump_last_write_ts now
          (record (s.ledger) { total_bytes = 0; total_items = 0; scope_count = 0 });
  }),
)
