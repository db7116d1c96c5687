-- ===== src/Store.antt =====
-- The Store of store.go: the map from scope names to buffers, with the calls that create, look up and
-- remove scopes. The 32 shards of the map are one map here: every call takes the locks of the shards
-- that it uses for the whole of the section that is modelled as one step.
pub mod Scopes
pub mod Batch
pub mod Boot
pub mod Subscribe
pub mod Events
pub mod Writes
pub mod Calls
pub mod Reads
pub mod Warm
pub mod Rebuild
pub mod Accounts
pub mod Steps
pub mod Emptied
pub mod Moves
pub mod History
use scopecache.Prelude.{
  ℕ, ◌+◌, Bool, true, false, ◌&&◌, ◌==◌, if◌then◌else◌, List, [], ◌∷◌, Option, none, some,
}
use scopecache.Word.{add64, sub64, slt}
use scopecache.Map.{lookup, insert, erase}
use scopecache.Item.{Bytes, Bytes-discrete, is_empty, Error, Result, ok, err}
use scopecache.Ledger.{
  Ledger, reserve_bytes, bump_last_write_ts, scope_buffer_overhead, events_scope_name,
  inbox_scope_name, max_items_for, max_item_bytes_for,
}
use scopecache.Buffer.{ScopeBuffer, State}
use scopecache.Bulk.{attached_scope_buffer}

-- A `*scopeBuffer`. A goroutine may hold one whose scope has been removed since.
abbrev pub BufPtr : Type 0
BufPtr = ℕ

unfoldable pub put_buf : BufPtr → ScopeBuffer → (BufPtr → ScopeBuffer) → BufPtr → ScopeBuffer
put_buf p b bufs q = if q == p then b else bufs q

abbrev pub ChanPtr : Type 0
ChanPtr = ℕ

-- A `chan struct{}` with one slot: whether it is open, and whether a signal is in the slot.
pub record Channel : Type 0 where
  pub is_open : Bool
  pub signal : Bool

-- `bufs` and `next_buf` are the heap of the buffers and its first free pointer, and `chans` and
-- `next_chan` those of the subscribers' channels. `panicked` says that a goroutine sent on a closed
-- channel, or closed one.
pub record Store : Type 0 where
  pub ledger : Ledger
  pub bufs : BufPtr → ScopeBuffer
  pub next_buf : BufPtr
  pub scopes : List (Bytes × BufPtr)
  pub subscribers : List (Bytes × ChanPtr)
  pub chans : ChanPtr → Channel
  pub next_chan : ChanPtr
  pub panicked : Bool

-- An operation on a scope, through a pointer to its buffer.
unfoldable pub on_buf {ℓ} : {A : Type ℓ} → BufPtr → (State → A × State) → Store → A × Store
unfolding put_buf
on_buf p f s =
    let r = f (record { ledger = s.ledger; buf = s.bufs p }) in
    (r.0, record s { ledger = r.1.ledger; bufs = put_buf p r.1.buf s.bufs })

unfoldable pub get_scope : Bytes → Store → Option BufPtr
get_scope scope s = lookup Bytes-discrete scope s.scopes

-- `sh.scopes[scope] = buf; s.scopeCount.Add(1)` for a buffer that was just allocated
unfoldable pub map_scope : Bytes → ScopeBuffer → Store → Store
unfolding put_buf
map_scope scope b s = record s {
  bufs = put_buf s.next_buf b s.bufs;
  next_buf = s.next_buf + 1;
  scopes = insert Bytes-discrete scope s.next_buf s.scopes;
  ledger = record (s.ledger) { scope_count = add64 (s.ledger.scope_count) 1 };
}

-- `getOrCreateScopeTrackingCreated`: the pointer, and whether this call created the scope.
unfoldable pub get_or_create_scope_tracking_created :
    Bytes → ℕ → Store → Result (BufPtr × Bool) × Store
unfolding get_scope map_scope
get_or_create_scope_tracking_created scope now s =
    let r = reserve_bytes scope_buffer_overhead s.ledger in
    if is_empty scope then (err Error.scope_required, s) else elim (get_scope scope s) [
      | some p ↦ (ok (p, false), s)
      | none ↦
          if r.granted
          then (
            ok (s.next_buf, true),
            map_scope scope (attached_scope_buffer s.ledger now) (record s { ledger = r.ledger }),
          )
          else (err (Error.store_full r.current scope_buffer_overhead r.cap), s)
    ]

-- `buf.detached = true; buf.store = nil`
unfoldable pub detach : ScopeBuffer → ScopeBuffer
detach b = record b { detached = true; has_store = false }

unfoldable pub is_nil : List ℕ → Bool
is_nil [] = true
is_nil (x ∷ xs) = false

-- `cleanupIfEmptyAndUnused`: the rollback of a scope that was created for a write that failed.
unfoldable pub cleanup_if_empty_and_unused : Bytes → BufPtr → Store → Store
unfolding get_scope put_buf detach is_nil
cleanup_if_empty_and_unused scope p s = elim (get_scope scope s) [
  | none ↦ s
  | some cur ↦
      if (cur == p) && is_nil (s.bufs p).items
      then record s {
        scopes = erase Bytes-discrete scope s.scopes;
        bufs = put_buf p (detach (s.bufs p)) s.bufs;
        ledger = record (s.ledger) {
          total_bytes = sub64 (s.ledger.total_bytes) scope_buffer_overhead;
          scope_count = sub64 (s.ledger.scope_count) 1;
        };
      }
      else s
]

-- `s.bumpLastWriteTS(now)`
unfoldable pub tick : ℕ → Store → Store
tick now s = record s { ledger = bump_last_write_ts now s.ledger }

-- `ensureScope`; `none` where the cap has no room.
unfoldable pub ensure_scope : Bytes → ℕ → Store → Option BufPtr × Store
unfolding get_scope map_scope tick
ensure_scope scope now s =
    let r = reserve_bytes scope_buffer_overhead s.ledger in
    elim (get_scope scope s) [
      | some p ↦ (some p, s)
      | none ↦
          if r.granted
          then (
            some s.next_buf,
            tick now (
                map_scope scope (attached_scope_buffer s.ledger now)
                  (record s { ledger = r.ledger })),
          )
          else (none, s)
    ]
