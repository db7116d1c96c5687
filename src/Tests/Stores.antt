-- ===== src/Tests/Stores.antt =====
-- A store that makes a scope, writes to it, rolls one back and is wiped.
use scopecache.Prelude.{◌%◌, ◌<◌, ◌≤◌, ◌≡◌, refl, [], ◌∷◌, length, arith}
use scopecache.Word.{word, half}
use scopecache.Item.{Bytes, Bytes-discrete}
use scopecache.Buffer.History.{Request, serve}
use scopecache.Bulk.{attached_scope_buffer}
use scopecache.Buffer.{new_scope_buffer}
use scopecache.Store.{
  get_scope, map_scope, put_buf, get_or_create_scope_tracking_created, is_nil, detach,
  cleanup_if_empty_and_unused, BufPtr,
}
use scopecache.Store.Accounts.{Accounts, IsOrphan, charge}
use scopecache.Store.Boot.{
  Config, new_store, with_defaults, empty_store, new_store-Bounds, reserved_scopes_overhead,
}
use scopecache.Store.Scopes.{
  init_reserved_scopes, init_each, init_reserved_scope, reserved_scope_buffer,
  init_reserved_scopes_locked, wipe, detach_all, count_all,
}
use scopecache.Store.Moves.{Move, Leads, Possible, run, serve_at}
use scopecache.Store.History.{new_store-Leads}
use scopecache.Map.Entries.{total}
use scopecache.Store.Emptied.{wipe-counts, new_store-Accounts}
use scopecache.Tests.{json, grow, uuid, apple, program}

abbrev pub config : Config
config = record {
  scope_max_items = 0;
  max_store_bytes = 8192;
  max_item_bytes = 512;
  events_mode = 2;
  inbox_max_items = 5;
  inbox_max_item_bytes = 256;
}

new_store-Bounds_example :
    ((new_store config 1).ledger.total_bytes ≡ reserved_scopes_overhead)
    × (reserved_scopes_overhead ≤ (new_store config 1).ledger.max_store_bytes)
    × ((new_store config 1).ledger.max_store_bytes < half)
new_store-Bounds_example = new_store-Bounds config 1 (omega arith)

abbrev fruits : Bytes
fruits = b'f' ∷ []

unfoldable pub store_program : Unit {0}
unfolding run serve_at new_store empty_store with_defaults init_reserved_scopes init_each
    init_reserved_scope reserved_scope_buffer get_scope map_scope put_buf
    get_or_create_scope_tracking_created attached_scope_buffer new_scope_buffer
    cleanup_if_empty_and_unused is_nil detach wipe detach_all count_all init_reserved_scopes_locked
    serve program
store_program = tt

made-Possible :
    Possible json grow
      (Move.request 2 (Request.append apple 3 (uuid 1)))
      (run json grow (Move.create fruits 2) (new_store config 1))
unfolding store_program program
made-Possible = (omega arith, λ _. (omega arith, refl))

stale-Possible : Possible json grow (Move.request 2 (Request.delete_seq_number 1 6)) (
    run json grow (Move.wipe_all 5) (
      run json grow (Move.cleanup fruits 2) (
        run json grow
          (Move.request 2 (Request.append apple 3 (uuid 1)))
          (run json grow (Move.create fruits 2) (new_store config 1)))))
unfolding store_program program
stale-Possible = (omega arith, λ _. tt)

moves : Leads json grow (new_store config 1) (
    run json grow (Move.request 2 (Request.delete_seq_number 1 6)) (
      run json grow (Move.wipe_all 5) (
        run json grow (Move.cleanup fruits 2) (
          run json grow
            (Move.request 2 (Request.append apple 3 (uuid 1)))
            (run json grow (Move.create fruits 2) (new_store config 1))))))
moves = Leads.then_run (Move.create fruits 2) tt (
    Leads.then_run (Move.request 2 (Request.append apple 3 (uuid 1))) made-Possible (
      Leads.then_run (Move.cleanup fruits 2) tt (
        Leads.then_run (Move.wipe_all 5) tt (
          Leads.then_run (Move.request 2 (Request.delete_seq_number 1 6)) stale-Possible
            Leads.rest))))

new_store-Leads_example : Accounts (
    run json grow (Move.request 2 (Request.delete_seq_number 1 6)) (
      run json grow (Move.wipe_all 5) (
        run json grow (Move.cleanup fruits 2) (
          run json grow
            (Move.request 2 (Request.append apple 3 (uuid 1)))
            (run json grow (Move.create fruits 2) (new_store config 1))))))
new_store-Leads_example =
    new_store-Leads json grow config 1
      (run json grow (Move.request 2 (Request.delete_seq_number 1 6)) (
        run json grow (Move.wipe_all 5) (
          run json grow (Move.cleanup fruits 2) (
            run json grow (Move.request 2 (Request.append apple 3 (uuid 1)))
              (run json grow (Move.create fruits 2) (new_store config 1))))))
      moves

wipe-counts_example :
    ((wipe 5 (new_store config 1)).0.scope_count ≡ length (new_store config 1).scopes)
    × ((wipe 5 (new_store config 1)).0.total_items % word
        ≡ (new_store config 1).ledger.total_items % word)
    × ((wipe 5 (new_store config 1)).0.freed_bytes % word
        ≡ total Bytes-discrete (charge (new_store config 1).bufs) (new_store config 1).scopes
          % word)
    × ((p : BufPtr)
        → p < (new_store config 1).next_buf
        → IsOrphan ((wipe 5 (new_store config 1)).1.bufs p))
wipe-counts_example = wipe-counts 5 (new_store config 1) (new_store-Accounts config 1)
