-- ===== src/Store/Subscribe.antt =====
-- The subscriptions of subscribe.go: at most one channel for a reserved scope, with one slot that
-- coalesces the signals. The registry has a lock of its own, which each of the three calls holds.
pub mod Safe
pub mod Wakeups
use scopecache.Prelude.{ℕ, ◌+◌, Bool, true, false, ◌==◌, if◌then◌else◌, List, Option, none, some}
use scopecache.Map.{lookup, insert, erase}
use scopecache.Item.{Bytes, Bytes-discrete}
use scopecache.Ledger.{is_reserved_scope}
use scopecache.Store.{Store, Channel, ChanPtr}

pub data SubscribeError : Type 0 where
  invalid_subscribe_scope already_subscribed : SubscribeError

pub data Subscription : Type 0 where
  subscribed : ChanPtr → Subscription
  refused : SubscribeError → Subscription

unfoldable pub put_chan : ChanPtr → Channel → (ChanPtr → Channel) → ChanPtr → Channel
put_chan p c chans q = if q == p then c else chans q

unfoldable pub subscribe : Bytes → Store → Subscription × Store
unfolding put_chan
subscribe scope s =
    if is_reserved_scope scope
    then elim (lookup Bytes-discrete scope s.subscribers) [
      | some c ↦ (refused already_subscribed, s)
      | none ↦ (
        subscribed s.next_chan,
        record s {
          subscribers = insert Bytes-discrete scope s.next_chan s.subscribers;
          chans = put_chan s.next_chan (record { is_open = true; signal = false }) s.chans;
          next_chan = s.next_chan + 1;
        },
      )
    ]
    else (refused invalid_subscribe_scope, s)

-- `close(ch)`; a signal in the slot can still be received.
unfoldable pub close_chan : ChanPtr → Store → Store
unfolding put_chan
close_chan p s =
    if (s.chans p).is_open
    then record s { chans = put_chan p (record (s.chans p) { is_open = false }) s.chans }
    else record s { panicked = true }

-- `select { case ch <- struct{}{}: default: }`
unfoldable pub try_send : ChanPtr → Store → Store
unfolding put_chan
try_send p s =
    if (s.chans p).is_open
    then record s { chans = put_chan p (record (s.chans p) { signal = true }) s.chans }
    else record s { panicked = true }

unfoldable pub unsubscribe : Bytes → Store → Store
unfolding close_chan
unsubscribe scope s = elim (lookup Bytes-discrete scope s.subscribers) [
  | none ↦ s
  | some p ↦ close_chan p (record s { subscribers = erase Bytes-discrete scope s.subscribers })
]

unfoldable pub notify_subscriber : Bytes → Store → Store
unfolding try_send
notify_subscriber scope s = elim (lookup Bytes-discrete scope s.subscribers) [
  | none ↦ s
  | some p ↦ try_send p s
]

-- A receive of the subscriber: the slot is empty afterwards.
unfoldable pub receive : ChanPtr → Store → Store
unfolding put_chan
receive p s = record s { chans = put_chan p (record (s.chans p) { signal = false }) s.chans }
