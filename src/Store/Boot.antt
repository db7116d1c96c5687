-- ===== src/Store/Boot.antt =====
-- The configuration of a store (types.go) and its construction (newStore in store.go).
use scopecache.Prelude.{
  ℕ, zero, suc, leb, ◌*◌, ◌^◌, ◌<◌, ◌≤◌, ◌≡◌, refl, sym, subst, false, if◌then◌else◌, [], arith,
  ℕ_discrete,
}
use scopecache.Word.{word, half, slt, sle}
use scopecache.Map.{lookup, insert}
use scopecache.Item.{Bytes-discrete}
use scopecache.Ledger.{
  EventsMode, events_off, events_notify, events_full, add_clamped_int64, scope_buffer_overhead,
}
use scopecache.Buffer.{new_scope_buffer}
use scopecache.Store.{Store, get_scope, map_scope}
use scopecache.Store.Scopes.{init_reserved_scopes, init_each, init_reserved_scope}

-- The events mode is an int in Go, and a caller may pass any: `mode_of` reads the three constants.
pub record Config : Type 0 where
  pub scope_max_items : ℕ
  pub max_store_bytes : ℕ
  pub max_item_bytes : ℕ
  pub events_mode : ℕ
  pub inbox_max_items : ℕ
  pub inbox_max_item_bytes : ℕ

abbrev pub reserved_scopes_overhead : ℕ
reserved_scopes_overhead = 2 * scope_buffer_overhead

-- `if c.X <= 0 { c.X = … }`
abbrev or_default : ℕ → ℕ → ℕ
or_default given fallback = if sle given 0 then fallback else given

-- `switch c.Events.Mode`: a mode that is none of the three is off.
unfoldable clamp_mode : ℕ → ℕ
clamp_mode mode = if leb mode 2 then mode else 0

-- The constant that an int stands for; the code compares with Notify and with Off, and takes
-- anything else for Full.
unfoldable mode_of : ℕ → EventsMode
mode_of zero = events_off
mode_of (suc zero) = events_notify
mode_of (suc (suc n)) = events_full

unfoldable pub with_defaults : Config → Config
unfolding clamp_mode
with_defaults c =
    let store_bytes = or_default c.max_store_bytes (100 * 2 ^ 20) in
    let max_items = or_default c.scope_max_items 100000 in
    record {
      scope_max_items = max_items;
      max_store_bytes =
          if slt store_bytes reserved_scopes_overhead
          then reserved_scopes_overhead
          else store_bytes;
      max_item_bytes = or_default c.max_item_bytes (2 ^ 20);
      events_mode = clamp_mode c.events_mode;
      inbox_max_items = or_default c.inbox_max_items max_items;
      inbox_max_item_bytes = or_default c.inbox_max_item_bytes (64 * 2 ^ 10);
    }

abbrev events_item_envelope_overhead : ℕ
events_item_envelope_overhead = 1024

abbrev biggest_user_cap : Config → ℕ
biggest_user_cap c =
    if slt c.max_item_bytes c.inbox_max_item_bytes then c.inbox_max_item_bytes else c.max_item_bytes

-- The store without a scope that newStore starts from.
unfoldable pub empty_store : Config → Store
unfolding add_clamped_int64 new_scope_buffer mode_of
empty_store c = record {
  ledger = record {
    total_bytes = 0;
    total_items = 0;
    scope_count = 0;
    last_write_ts = 0;
    events_drops_total = 0;
    default_max_items = c.scope_max_items;
    max_store_bytes = c.max_store_bytes;
    max_item_bytes = c.max_item_bytes;
    events_max_item_bytes = add_clamped_int64 (biggest_user_cap c) events_item_envelope_overhead;
    inbox_max_items = c.inbox_max_items;
    inbox_max_item_bytes = c.inbox_max_item_bytes;
    events_mode = mode_of c.events_mode;
  };
  bufs = λ p. new_scope_buffer 0 0;
  next_buf = 0;
  scopes = [];
  subscribers = [];
  chans = λ p. record { is_open = false; signal = false };
  next_chan = 0;
  panicked = false;
}

unfoldable pub new_store : Config → ℕ → Store
unfolding with_defaults empty_store init_reserved_scopes
new_store c now = init_reserved_scopes now (empty_store (with_defaults c))

booted_total :
    (c : Config) (now : ℕ)
    → ((new_store c now).ledger.total_bytes ≡ reserved_scopes_overhead)
      × ((new_store c now).ledger.max_store_bytes ≡ (with_defaults c).max_store_bytes)
unfolding new_store empty_store init_reserved_scopes init_each init_reserved_scope get_scope
    map_scope lookup insert Bytes-discrete ℕ_discrete
booted_total c now = (refl, refl)

store_cap-Bounds :
    (c : Config)
    → c.max_store_bytes < word
    → (reserved_scopes_overhead ≤ (with_defaults c).max_store_bytes)
      × ((with_defaults c).max_store_bytes < half)
unfolding with_defaults
store_cap-Bounds c small = (ground arith, ground arith)

-- For a byte cap that is an int64, newStore charges the reserved scopes 2048 bytes, which the cap
-- that it settles on has room for, and that cap is positive as an int64.
pub new_store-Bounds :
    (c : Config) (now : ℕ)
    → c.max_store_bytes < word
    → ((new_store c now).ledger.total_bytes ≡ reserved_scopes_overhead)
      × (reserved_scopes_overhead ≤ (new_store c now).ledger.max_store_bytes)
      × ((new_store c now).ledger.max_store_bytes < half)
new_store-Bounds c now small =
    let (total, cap) = booted_total c now in
    let (low, high) = store_cap-Bounds c small in
    (
      total,
      subst (λ n. reserved_scopes_overhead ≤ n) (sym cap) low,
      subst (λ n. n < half) (sym cap) high,
    )
