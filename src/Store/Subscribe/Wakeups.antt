-- ===== src/Store/Subscribe/Wakeups.antt =====
-- The signal in the slot of a channel, through sequences of calls.
use scopecache.Prelude.{
  ◌<◌, ◌≡◌, ◌≢◌, refl, sym, ◌∙◌, ap, true, List, [], ◌∷◌, some, arith, if_intro, option_intro,
}
use mathlib.Core.Option.{some-injective}
use scopecache.Map.{lookup}
use scopecache.Map.Entries.{name_of-lookup}
use scopecache.Item.{Bytes, Bytes-discrete}
use scopecache.Ledger.{is_reserved_scope}
use scopecache.Store.{Store, Channel, ChanPtr}
use scopecache.Store.Subscribe.{
  subscribe, unsubscribe, notify_subscriber, receive, put_chan, close_chan, try_send,
}
use scopecache.Store.Subscribe.Safe.{
  IsSafe, Call, subscribe_to, unsubscribe_from, notify, take_signal, perform, perform_all,
  put_chan_own,
}

-- No call of the list takes the signal from the channel.
abbrev pub LeavesSlot : ChanPtr → List Call → Type 0
LeavesSlot p [] = Unit
LeavesSlot p (take_signal q ∷ cs) = (q ≢ p) × LeavesSlot p cs
LeavesSlot p (subscribe_to scope ∷ cs) = LeavesSlot p cs
LeavesSlot p (unsubscribe_from scope ∷ cs) = LeavesSlot p cs
LeavesSlot p (notify scope ∷ cs) = LeavesSlot p cs

-- The channel is allocated, with a signal in its slot.
record Pending (p : ChanPtr) (s : Store) : Type 0 where
  below : p < s.next_chan
  waiting : (s.chans p).signal ≡ true

abbrev PendingOf : ChanPtr → {A : Type 0} → A × Store → Type 0
PendingOf p r = Pending p r.1

put_chan-signal :
    (q : ChanPtr) (c : Channel) (chans : ChanPtr → Channel) (p : ChanPtr)
    → (q ≡ p → c.signal ≡ true)
    → (chans p).signal ≡ true
    → (put_chan q c chans p).signal ≡ true
unfolding put_chan
put_chan-signal q c chans p h k = ground (arith, h)

module _ (p : ChanPtr) (s : Store) (h : Pending p s) where
  subscribe-Pending : (scope : Bytes) → Pending p (subscribe scope s).1
  unfolding subscribe
  subscribe-Pending scope =
      if_intro (PendingOf p) (is_reserved_scope scope)
        (λ _.
          option_intro (PendingOf p) (lookup Bytes-discrete scope s.subscribers)
            (λ _. record {
              below = omega (arith, h.below);
              waiting =
                  put_chan-signal s.next_chan _ s.chans p (λ e. absurd (omega (arith, h.below, e)))
                    h.waiting;
            })
            (λ c _. h))
        (λ _. h)

  unsubscribe-Pending : (scope : Bytes) → Pending p (unsubscribe scope s)
  unfolding unsubscribe close_chan
  unsubscribe-Pending scope =
      option_intro (Pending p) (lookup Bytes-discrete scope s.subscribers) (λ _. h)
        (λ q _.
          if_intro (Pending p) (s.chans q).is_open
            (λ _. record {
              below = h.below;
              waiting =
                  put_chan-signal q _ s.chans p (λ e. ap (λ x. (s.chans x).signal) e ∙ h.waiting)
                    h.waiting;
            })
            (λ _. record { below = h.below; waiting = h.waiting }))

  notify_subscriber-Pending : (scope : Bytes) → Pending p (notify_subscriber scope s)
  unfolding notify_subscriber try_send
  notify_subscriber-Pending scope =
      option_intro (Pending p) (lookup Bytes-discrete scope s.subscribers) (λ _. h)
        (λ q _.
          if_intro (Pending p) (s.chans q).is_open
            (λ _. record {
              below = h.below;
              waiting = put_chan-signal q _ s.chans p (λ _. refl) h.waiting;
            })
            (λ _. record { below = h.below; waiting = h.waiting }))

  receive-Pending : (q : ChanPtr) → q ≢ p → Pending p (receive q s)
  unfolding receive
  receive-Pending q ne = record {
    below = h.below;
    waiting = put_chan-signal q _ s.chans p (λ e. absurd (ne e)) h.waiting;
  }

perform_all-Pending :
    (p : ChanPtr) (calls : List Call) (s : Store)
    → Pending p s
    → LeavesSlot p calls
    → Pending p (perform_all calls s)
unfolding perform
perform_all-Pending p [] s h leaves = h
perform_all-Pending p (subscribe_to scope ∷ cs) s h leaves =
    perform_all-Pending p cs _ (subscribe-Pending p s h scope) leaves
perform_all-Pending p (unsubscribe_from scope ∷ cs) s h leaves =
    perform_all-Pending p cs _ (unsubscribe-Pending p s h scope) leaves
perform_all-Pending p (notify scope ∷ cs) s h leaves =
    perform_all-Pending p cs _ (notify_subscriber-Pending p s h scope) leaves
perform_all-Pending p (take_signal q ∷ cs) s h leaves =
    perform_all-Pending p cs _ (receive-Pending p s h q leaves.0) leaves.1

notify-Pending :
    (scope : Bytes) (p : ChanPtr) (s : Store)
    → IsSafe s
    → p < s.next_chan
    → lookup Bytes-discrete scope s.subscribers ≡ some p
    → Pending p (notify_subscriber scope s)
unfolding notify_subscriber try_send
notify-Pending scope p s h below found =
    option_intro (Pending p) (lookup Bytes-discrete scope s.subscribers)
      (λ absent. absurd (ground (arith, absent, found)))
      (λ q there.
        let same : p ≡ q = some-injective p q (sym found ∙ there) in
        if_intro (Pending p) (s.chans q).is_open
          (λ _. record {
            below = below;
            waiting = ap (λ x. x.signal) (put_chan_own q _ s.chans p same);
          })
          (λ shut. absurd (
            ground (
              arith,
              shut,
              h.open_all q scope (name_of-lookup Bytes-discrete scope s.subscribers h.unique there),
            ))))

-- After a notification of a scope whose subscriber has a channel, in a store where the subscribed
-- channels are open and stand under one name each, the channel holds a signal through every later
-- sequence of subscriptions, unsubscriptions, notifications and receipts on other channels, until
-- it is received.
pub perform_all-signal :
    (scope : Bytes) (p : ChanPtr) (s : Store) (calls : List Call)
    → IsSafe s
    → p < s.next_chan
    → lookup Bytes-discrete scope s.subscribers ≡ some p
    → LeavesSlot p calls
    → ((perform_all calls (notify_subscriber scope s)).chans p).signal ≡ true
perform_all-signal scope p s calls h below found leaves =
    (perform_all-Pending p calls _ (notify-Pending scope p s h below found) leaves).waiting
