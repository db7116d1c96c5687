-- ===== src/Buffer/Kept.antt =====
-- What every write operation of a scope keeps, on every branch: the invariant of the scope, and the
-- store's byte and item totals in step with the scope's own.
use scopecache.Prelude.{ℕ, ◌+◌, ◌%◌, ◌≡◌, refl, Bool, true, false, length}
use scopecache.Word.{word, add64}
use scopecache.Ledger.{Ledger}
use scopecache.Ledger.Steps.{total_bytes-bump, reserve_bytes-total}
use scopecache.Buffer.{ScopeBuffer, State}
use scopecache.Buffer.Locked.{reserve_if, touch_store, count_items}
use scopecache.Buffer.Invariant.{IsCoherent}

-- The scope stays attached or orphaned, and a store-attached scope moves the store's totals by as
-- much as its own (all are int64, so modulo 2 ^ 64).
pub record InStep (s t : State) : Type 0 where
  pub wired : t.buf.has_store ≡ s.buf.has_store
  pub alive : t.buf.detached ≡ s.buf.detached
  pub bytes_in_step :
      s.buf.has_store ≡ true
      → (t.ledger.total_bytes + s.buf.bytes) % word ≡ (s.ledger.total_bytes + t.buf.bytes) % word
  pub items_in_step :
      s.buf.has_store ≡ true
      → (t.ledger.total_items + length s.buf.items) % word
        ≡ (s.ledger.total_items + length t.buf.items) % word

pub record Kept {A : Type 0} (s : State) (r : A × State) : Type 0 where
  pub coherent : IsCoherent r.1.buf
  pub in_step : InStep s r.1

pub InStep-refl : (s : State) → InStep s s
InStep-refl s = record {
  wired = refl;
  alive = refl;
  bytes_in_step = λ h. refl;
  items_in_step = λ h. refl;
}

pub Kept-refl : {A : Type 0} (s : State) (a : A) → IsCoherent s.buf → Kept s (a, s)
Kept-refl s a c = record { coherent = c; in_step = InStep-refl s }

-- The time of the last write is no part of the invariant.
pub touched-IsCoherent :
    (b : ScopeBuffer) (now : ℕ) → IsCoherent b → IsCoherent (record b { last_write_ts = now })
touched-IsCoherent b now c = record {
  ids = c.ids;
  seqs = c.seqs;
  uuids = c.uuids;
  ascending = c.ascending;
  seq_range = c.seq_range;
  allocated = c.allocated;
  bytes_sum = c.bytes_sum;
  id_bytes_sum = c.id_bytes_sum;
  last_seq_word = c.last_seq_word;
}

-- What the reservation of a store-attached scope does to the totals.
pub reserve_if-granted :
    (b : Bool) (delta : ℕ) (l : Ledger)
    → b ≡ true
    → (reserve_if b delta l).granted ≡ true
    → (reserve_if b delta l).ledger.total_bytes ≡ add64 l.total_bytes delta
unfolding reserve_if
reserve_if-granted true delta l e g = (reserve_bytes-total delta l).0 g
reserve_if-granted false delta l e g = cc

-- Nothing is counted without a reservation.
pub reserve_if-skipped :
    (b : Bool) (delta : ℕ) (l : Ledger) → b ≡ false → (reserve_if b delta l).ledger ≡ l
unfolding reserve_if
reserve_if-skipped true delta l e = cc
reserve_if-skipped false delta l e = refl

pub reserve_if-items :
    (b : Bool) (delta : ℕ) (l : Ledger) → (reserve_if b delta l).ledger.total_items ≡ l.total_items
unfolding reserve_if
reserve_if-items true delta l = (reserve_bytes-total delta l).2
reserve_if-items false delta l = refl

-- A refused reservation leaves the counters as they were.
pub reserve_if-refused :
    (b : Bool) (delta : ℕ) (l : Ledger)
    → (reserve_if b delta l).granted ≡ false
    → (reserve_if b delta l).ledger ≡ l
unfolding reserve_if
reserve_if-refused true delta l g = (reserve_bytes-total delta l).1 g
reserve_if-refused false delta l g = refl

pub totals-touch_store :
    (b : Bool) (now : ℕ) (l : Ledger)
    → ((touch_store b now l).total_bytes ≡ l.total_bytes)
      × ((touch_store b now l).total_items ≡ l.total_items)
unfolding touch_store
totals-touch_store true now l = total_bytes-bump now l
totals-touch_store false now l = (refl, refl)

pub totals-count_items :
    (b : Bool) (n : ℕ) (l : Ledger)
    → b ≡ true
    → ((count_items b n l).total_bytes ≡ l.total_bytes)
      × ((count_items b n l).total_items ≡ add64 l.total_items n)
unfolding count_items
totals-count_items true n l e = (refl, refl)
totals-count_items false n l e = cc

-- A refused write: the state it leaves is the one it found.
pub Kept-refused :
    {A : Type 0} (s : State) (a : A) (b : Bool) (delta : ℕ)
    → IsCoherent s.buf
    → (reserve_if b delta s.ledger).granted ≡ false
    → Kept s (a, record s { ledger = (reserve_if b delta s.ledger).ledger })
Kept-refused s a b delta c refused =
    rw (reserve_if-refused b delta s.ledger refused) (Kept-refl s a c)
