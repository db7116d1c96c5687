-- ===== src/Ledger/Steps.antt =====
-- What the steps on the store's counters do to the byte total and the item total.
use scopecache.Prelude.{ℕ, ◌+◌, ◌≤◌, ◌<◌, ◌≡◌, true, false, arith}
use scopecache.Word.{half, add64}
use scopecache.Ledger.{Ledger, reserve_bytes, bump_last_write_ts}

pub total_bytes-bump :
    (now : ℕ) (l : Ledger)
    → ((bump_last_write_ts now l).total_bytes ≡ l.total_bytes)
      × ((bump_last_write_ts now l).total_items ≡ l.total_items)
unfolding bump_last_write_ts
total_bytes-bump now l = ground arith

pub scope_count-bump :
    (now : ℕ) (l : Ledger) → (bump_last_write_ts now l).scope_count ≡ l.scope_count
unfolding bump_last_write_ts
scope_count-bump now l = ground arith

-- A reservation counts the change if it is granted, and else changes nothing.
pub reserve_bytes-total :
    (delta : ℕ) (l : Ledger)
    → ((reserve_bytes delta l).granted ≡ true
        → (reserve_bytes delta l).ledger.total_bytes ≡ add64 l.total_bytes delta)
      × ((reserve_bytes delta l).granted ≡ false → (reserve_bytes delta l).ledger ≡ l)
      × ((reserve_bytes delta l).ledger.total_items ≡ l.total_items)
unfolding reserve_bytes
reserve_bytes-total delta l = (λ h. ground arith, λ h. ground arith, ground arith)

-- For a positive change and a cap below 2 ^ 63, with the byte total at most the cap, reserveBytes
-- grants the change exactly where the total and the change together are at most the cap, and the
-- total that it leaves is at most the cap.
pub reserve_bytes-granted_iff :
    (delta : ℕ) (l : Ledger)
    → 0 < delta
    → delta < half
    → l.max_store_bytes < half
    → l.total_bytes ≤ l.max_store_bytes
    → ((reserve_bytes delta l).granted ≡ true → l.total_bytes + delta ≤ l.max_store_bytes)
      × (l.total_bytes + delta ≤ l.max_store_bytes → (reserve_bytes delta l).granted ≡ true)
      × ((reserve_bytes delta l).ledger.total_bytes ≤ l.max_store_bytes)
unfolding reserve_bytes
reserve_bytes-granted_iff delta l pos small cap within =
    (λ h. ground arith, λ h. ground arith, ground arith)
