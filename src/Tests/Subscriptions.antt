-- ===== src/Tests/Subscriptions.antt =====
-- Subscriptions to the inbox of a fresh store.
use scopecache.Prelude.{◌<◌, ◌≡◌, refl, true, List, [], ◌∷◌, some, arith, ℕ_discrete}
use scopecache.Map.{lookup, insert}
use scopecache.Map.Entries.{name_of}
use scopecache.Item.{Bytes-discrete}
use scopecache.Ledger.{inbox_scope_name, is_reserved_scope}
use scopecache.Store.{Store, get_scope, map_scope}
use scopecache.Store.Boot.{new_store, with_defaults, empty_store}
use scopecache.Store.Scopes.{init_reserved_scopes, init_each, init_reserved_scope}
use scopecache.Store.Subscribe.{subscribe, notify_subscriber}
use scopecache.Store.Subscribe.Safe.{IsSafe, Call, perform, perform_all, perform_all-IsSafe}
use scopecache.Store.Subscribe.Wakeups.{perform_all-signal}
use scopecache.Tests.Stores.{config}

booted-IsSafe : IsSafe (new_store config 1)
unfolding new_store empty_store with_defaults init_reserved_scopes init_each init_reserved_scope
    get_scope map_scope lookup insert name_of Bytes-discrete ℕ_discrete
booted-IsSafe = record {
  unique = tt;
  allocated = tt;
  open_all = λ p name e. absurd (ground arith);
  no_panic = refl;
}

abbrev calls : List Call
calls =
    Call.subscribe_to inbox_scope_name
    ∷ Call.notify inbox_scope_name
    ∷ Call.unsubscribe_from inbox_scope_name
    ∷ Call.unsubscribe_from inbox_scope_name
    ∷ []

perform_all-IsSafe_example : IsSafe (perform_all calls (new_store config 1))
perform_all-IsSafe_example = perform_all-IsSafe calls (new_store config 1) booted-IsSafe

abbrev subscribed_store : Store
subscribed_store = perform (Call.subscribe_to inbox_scope_name) (new_store config 1)

subscribed-IsSafe : IsSafe subscribed_store
subscribed-IsSafe =
    perform_all-IsSafe (Call.subscribe_to inbox_scope_name ∷ []) (new_store config 1) booted-IsSafe

channel_allocated : 0 < subscribed_store.next_chan
unfolding perform subscribe new_store empty_store with_defaults init_reserved_scopes init_each
    init_reserved_scope get_scope map_scope lookup insert is_reserved_scope Bytes-discrete
    ℕ_discrete
channel_allocated = omega arith

channel_found : lookup Bytes-discrete inbox_scope_name subscribed_store.subscribers ≡ some 0
unfolding perform subscribe new_store empty_store with_defaults init_reserved_scopes init_each
    init_reserved_scope get_scope map_scope lookup insert is_reserved_scope Bytes-discrete
    ℕ_discrete
channel_found = refl

abbrev later_calls : List Call
later_calls =
    Call.notify inbox_scope_name ∷ Call.take_signal 1 ∷ Call.unsubscribe_from inbox_scope_name ∷ []

perform_all-signal_example :
    ((perform_all later_calls (notify_subscriber inbox_scope_name subscribed_store)).chans 0).signal
    ≡ true
perform_all-signal_example =
    perform_all-signal inbox_scope_name 0 subscribed_store later_calls subscribed-IsSafe
      channel_allocated channel_found (λ e. omega (arith, e), tt)
