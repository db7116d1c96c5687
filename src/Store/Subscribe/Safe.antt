-- ===== src/Store/Subscribe/Safe.antt =====
-- Sequences of calls on the subscriptions, and the state of the channels through them.
use scopecache.Prelude.{
  ◌+◌, ◌<◌, ◌≡◌, refl, sym, ◌∙◌, ap, subst, true, false, ◌==◌, List, [], ◌∷◌, ◌++◌, none, some, All,
  All-append, arith, if_intro, option_intro, ℕ_discrete,
}
use scopecache.Map.{lookup, insert, erase}
use scopecache.Map.Entries.{
  Unique, name_of, insert_fresh, Unique-append, Unique-erase, All-erase, name_of-append,
  name_of-erase, name_of-lookup, All-weaken,
}
use scopecache.Item.{Bytes, Bytes-discrete}
use scopecache.Ledger.{is_reserved_scope}
use scopecache.Store.{Store, Channel, ChanPtr}
use scopecache.Store.Subscribe.{
  subscribe, unsubscribe, notify_subscriber, receive, put_chan, close_chan, try_send,
}

-- The channels of the registry are open, and each stands under one name.
pub record IsSafe (s : Store) : Type 0 where
  pub unique : Unique Bytes-discrete s.subscribers
  pub allocated : All (λ e. e.1 < s.next_chan) s.subscribers
  pub open_all :
      (p : ChanPtr) (name : Bytes)
      → name_of Bytes-discrete p s.subscribers ≡ some name
      → (s.chans p).is_open ≡ true
  pub no_panic : s.panicked ≡ false

pub data Call : Type 0 where
  subscribe_to : Bytes → Call
  unsubscribe_from : Bytes → Call
  notify : Bytes → Call
  take_signal : ChanPtr → Call

unfoldable pub perform : Call → Store → Store
unfolding subscribe unsubscribe notify_subscriber receive
perform (subscribe_to scope) s = (subscribe scope s).1
perform (unsubscribe_from scope) s = unsubscribe scope s
perform (notify scope) s = notify_subscriber scope s
perform (take_signal p) s = receive p s

abbrev pub perform_all : List Call → Store → Store
perform_all [] s = s
perform_all (c ∷ cs) s = perform_all cs (perform c s)

abbrev IsSafeOf : {A : Type 0} → A × Store → Type 0
IsSafeOf r = IsSafe r.1

put_chan_open :
    (p : ChanPtr) (c : Channel) (chans : ChanPtr → Channel) (q : ChanPtr)
    → c.is_open ≡ true
    → (chans q).is_open ≡ true
    → (put_chan p c chans q).is_open ≡ true
unfolding put_chan
put_chan_open p c chans q h k = ground arith

put_chan_other :
    (p : ChanPtr) (c : Channel) (chans : ChanPtr → Channel) (q : ChanPtr)
    → (q == p) ≡ false
    → put_chan p c chans q ≡ chans q
unfolding put_chan
put_chan_other p c chans q h = ground arith

pub put_chan_own :
    (p : ChanPtr) (c : Channel) (chans : ChanPtr → Channel) (q : ChanPtr)
    → q ≡ p
    → put_chan p c chans q ≡ c
unfolding put_chan
put_chan_own p c chans q h = ground arith

module _ (s : Store) (h : IsSafe s) where
  -- A write to a channel that leaves it as open as it was.
  put_chan-IsSafe :
      (p : ChanPtr) (c : Channel)
      → c.is_open ≡ (s.chans p).is_open
      → IsSafe (record s { chans = put_chan p c s.chans })
  put_chan-IsSafe p c same = record {
    unique = h.unique;
    allocated = h.allocated;
    open_all = λ q name e. elim (ℕ_discrete q p) [
      | yes own ↦
          ap (λ x. x.is_open) (put_chan_own p c s.chans q own)
          ∙ same
          ∙ ap (λ x. (s.chans x).is_open) (sym own)
          ∙ h.open_all q name e
      | no ne ↦
          ap (λ x. x.is_open) (put_chan_other p c s.chans q (ground arith)) ∙ h.open_all q name e
    ];
    no_panic = h.no_panic;
  }

  subscribe-IsSafe : (scope : Bytes) → IsSafe (subscribe scope s).1
  unfolding subscribe
  subscribe-IsSafe scope =
      if_intro IsSafeOf (is_reserved_scope scope)
        (λ _. option_intro IsSafeOf (lookup Bytes-discrete scope s.subscribers) fresh (λ c _. h))
        (λ _. h)
    where
      made : ChanPtr → Channel
      made = put_chan s.next_chan (record { is_open = true; signal = false }) s.chans

      grown :
          lookup Bytes-discrete scope s.subscribers ≡ none
          → insert Bytes-discrete scope s.next_chan s.subscribers
            ≡ s.subscribers ++ ((scope, s.next_chan) ∷ [])
      grown absent = insert_fresh Bytes-discrete scope s.next_chan s.subscribers absent

      fresh :
          lookup Bytes-discrete scope s.subscribers ≡ none
          → IsSafe (record s {
            subscribers = insert Bytes-discrete scope s.next_chan s.subscribers;
            chans = made;
            next_chan = s.next_chan + 1;
          })
      fresh absent = record {
        unique = subst (Unique Bytes-discrete) (sym (grown absent)) (
            Unique-append Bytes-discrete scope s.next_chan s.subscribers h.unique absent
              h.allocated);
        allocated = subst (All (λ e. e.1 < s.next_chan + 1)) (sym (grown absent)) (
            All-append (λ e. e.1 < s.next_chan + 1) s.subscribers ((scope, s.next_chan) ∷ [])
              (All-weaken s.next_chan s.subscribers h.allocated) (omega arith, tt));
        open_all = λ q name e.
            let e' = ap (name_of Bytes-discrete q) (sym (grown absent)) ∙ e in
            let which = name_of-append Bytes-discrete q s.next_chan scope s.subscribers in
            elim (ℕ_discrete q s.next_chan) [
              | yes own ↦ ap (λ x. x.is_open) (put_chan_own s.next_chan _ s.chans q own)
              | no ne ↦
                  ap (λ x. x.is_open) (put_chan_other s.next_chan _ s.chans q (ground arith))
                  ∙ h.open_all q name (ground (arith, e', which, ne))
            ];
        no_panic = h.no_panic;
      }

  unsubscribe-IsSafe : (scope : Bytes) → IsSafe (unsubscribe scope s)
  unfolding unsubscribe close_chan
  unsubscribe-IsSafe scope =
      option_intro IsSafe (lookup Bytes-discrete scope s.subscribers) (λ _. h)
        (λ p found.
          if_intro IsSafe (s.chans p).is_open (λ _. closed p found)
            (λ shut. absurd (
              ground (
                arith,
                shut,
                h.open_all p scope
                    (name_of-lookup Bytes-discrete scope s.subscribers h.unique found),
              ))))
    where
      closed :
          (p : ChanPtr)
          → lookup Bytes-discrete scope s.subscribers ≡ some p
          → IsSafe (record s {
            subscribers = erase Bytes-discrete scope s.subscribers;
            chans = put_chan p (record (s.chans p) { is_open = false }) s.chans;
          })
      closed p found = record {
        unique = Unique-erase Bytes-discrete scope s.subscribers h.unique;
        allocated =
            All-erase Bytes-discrete (λ e. e.1 < s.next_chan) scope s.subscribers h.allocated;
        open_all = λ q name e.
            let left = name_of-erase Bytes-discrete scope p q s.subscribers h.unique found in
            elim (ℕ_discrete q p) [
              | yes own ↦ absurd (ground (arith, left, e, own))
              | no ne ↦
                  ap (λ x. x.is_open) (put_chan_other p _ s.chans q (ground arith))
                  ∙ h.open_all q name (ground (arith, left, e, ne))
            ];
        no_panic = h.no_panic;
      }

  notify_subscriber-IsSafe : (scope : Bytes) → IsSafe (notify_subscriber scope s)
  unfolding notify_subscriber try_send
  notify_subscriber-IsSafe scope =
      option_intro IsSafe (lookup Bytes-discrete scope s.subscribers) (λ _. h)
        (λ p found.
          if_intro IsSafe (s.chans p).is_open
            (λ _. put_chan-IsSafe p (record (s.chans p) { signal = true }) refl)
            (λ shut. absurd (
              ground (
                arith,
                shut,
                h.open_all p scope
                    (name_of-lookup Bytes-discrete scope s.subscribers h.unique found),
              ))))

perform-IsSafe : (c : Call) (s : Store) → IsSafe s → IsSafe (perform c s)
unfolding perform receive
perform-IsSafe (subscribe_to scope) s h = subscribe-IsSafe s h scope
perform-IsSafe (unsubscribe_from scope) s h = unsubscribe-IsSafe s h scope
perform-IsSafe (notify scope) s h = notify_subscriber-IsSafe s h scope
perform-IsSafe (take_signal p) s h =
    put_chan-IsSafe s h p (record (s.chans p) { signal = false }) refl

-- From a store whose subscribed channels are open and stand under one name each, and that has not
-- panicked, any sequence of subscriptions, unsubscriptions, notifications and receipts leads to
-- such a store: no send meets a closed channel and no channel is closed twice.
pub perform_all-IsSafe : (calls : List Call) (s : Store) → IsSafe s → IsSafe (perform_all calls s)
perform_all-IsSafe [] s h = h
perform_all-IsSafe (c ∷ calls) s h = perform_all-IsSafe calls (perform c s) (perform-IsSafe c s h)
