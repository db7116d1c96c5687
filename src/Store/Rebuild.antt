-- ===== src/Store/Rebuild.antt =====
-- `/rebuild` (bulk.go): the input is prepared off the map, checked against the caps as a whole, and
-- swapped in under the locks of all shards.
use scopecache.Prelude.{ℕ, ◌+◌, if◌then◌else◌, List, [], ◌∷◌, length}
use scopecache.Word.{add64, slt}
use scopecache.Item.{Bytes, Uuid, Item, Json}
use scopecache.Ledger.{bump_last_write_ts, scope_buffer_overhead}
use scopecache.Bulk.{rebuilt_scope_buffer}
use scopecache.Validation.{rebuild_endpoint}
use scopecache.Store.{Store, put_buf}
use scopecache.Store.Boot.{reserved_scopes_overhead}
use scopecache.Store.Scopes.{detach_all, init_reserved_scopes_locked}
use scopecache.Store.Warm.{
  Plan, BulkResult, accepted, aborted, no_room, plan_all, plans_or_offenders,
}

-- The bytes of the new map: items and per-scope overhead.
unfoldable pub total_new_bytes : List Plan → ℕ
total_new_bytes [] = 0
total_new_bytes (p ∷ ps) = add64 (add64 p.new_bytes scope_buffer_overhead) (total_new_bytes ps)

unfoldable pub total_new_items : List Plan → ℕ
total_new_items [] = 0
total_new_items (p ∷ ps) = add64 (length p.replacement.items) (total_new_items ps)

-- The new buffers, allocated one after another, under their names.
unfoldable pub place_rebuilt : ℕ → List Plan → Store → Store
unfolding put_buf rebuilt_scope_buffer
place_rebuilt now [] s = s
place_rebuilt now (p ∷ ps) s = place_rebuilt now ps (record s {
  bufs = put_buf s.next_buf (rebuilt_scope_buffer p.replacement s.ledger now) s.bufs;
  next_buf = s.next_buf + 1;
  scopes = (p.scope, s.next_buf) ∷ s.scopes;
})

-- Phase 2: the old buffers are detached, the new map is swapped in and the counters are set.
unfoldable pub swap_in : ℕ → List Plan → Store → Store
unfolding detach_all place_rebuilt total_new_bytes total_new_items init_reserved_scopes_locked
swap_in now plans s = init_reserved_scopes_locked now (
    place_rebuilt now plans (record s {
      scopes = [];
      bufs = detach_all s.scopes s.bufs;
      ledger = bump_last_write_ts now (record (s.ledger) {
        total_bytes = total_new_bytes plans;
        total_items = total_new_items plans;
        scope_count = length plans;
      });
    }))

-- The numbers of scopes and items of the new store.
unfoldable pub rebuild_all :
    Json → (ℕ → ℕ → Uuid) → ℕ → List (Bytes × List Item) → Store → BulkResult (ℕ × ℕ) × Store
unfolding plan_all total_new_bytes total_new_items swap_in
rebuild_all json mints now grouped s =
    elim (plans_or_offenders (plan_all json mints now rebuild_endpoint s.ledger 0 grouped)) [
      | aborted e ↦ (aborted e, s)
      | accepted plans ↦
          let needed = add64 (total_new_bytes plans) reserved_scopes_overhead in
          if slt s.ledger.max_store_bytes needed
          then (aborted (no_room 0 needed s.ledger.max_store_bytes), s)
          else (accepted (length plans, total_new_items plans), swap_in now plans s)
    ]
