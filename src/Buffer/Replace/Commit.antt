-- ===== src/Buffer/Replace/Commit.antt =====
-- The swap of a replacement into a scope keeps the invariant of the scope, and the totals of the store
-- in step with it.
use scopecache.Prelude.{
  ℕ, ◌+◌, ◌%◌, ◌<◌, ◌≡◌, refl, if◌then◌else◌, ◌==◌, true, List, length, arith, if_intro,
}
use scopecache.Word.{word, add64, sub64}
use scopecache.Item.{Uuid, Item, Json, result_intro}
use scopecache.Buffer.{State}
use scopecache.Buffer.Replace.{
  ScopeReplacement, build_replacement_state, sum_item_bytes, adopt, swap_items, commit_replacement,
  commit_replacement_pre_reserved, replace_all,
}
use scopecache.Buffer.Invariant.{IsCoherent}
use scopecache.Buffer.Kept.{InStep, Kept, Kept-refl}
use scopecache.Buffer.Locked.{item_cap_exceeded}
use scopecache.Ledger.{Ledger, bump_last_write_ts}
use scopecache.Ledger.Steps.{total_bytes-bump}
use scopecache.Buffer.Replace.Keeps.{build_replacement_state-Adopted}

module _ (r : ScopeReplacement) (now : ℕ) (s : State) where
  -- Where a batch has reserved the difference between the new bytes and a snapshot of the scope's
  -- bytes on a total, commitReplacementPreReserved makes the store's byte total differ from that
  -- total by the new bytes less the bytes that the scope has at the commit, whatever other writes
  -- did to the scope since the snapshot, and the item total by the difference of the item counts,
  -- all modulo 2 ^ 64.
  pub commit_replacement_pre_reserved_lem :
      (new_bytes old_snapshot total : ℕ)
      → s.buf.has_store ≡ true
      → s.ledger.total_bytes ≡ add64 total (sub64 new_bytes old_snapshot)
      → let t = commit_replacement_pre_reserved r new_bytes old_snapshot now s in
        ((t.ledger.total_bytes + s.buf.bytes) % word ≡ (total + new_bytes) % word)
        × ((t.ledger.total_items + length s.buf.items) % word
            ≡ (s.ledger.total_items + length t.buf.items) % word)
  unfolding commit_replacement_pre_reserved adopt
  commit_replacement_pre_reserved_lem new_bytes old_snapshot total h reserved =
      (ground (arith, moved.0), ground (arith, moved.1))
    where
      drift : ℕ
      drift = sub64 s.buf.bytes old_snapshot

      l : Ledger
      l = swap_items r s.buf s.ledger

      moved :
          ((bump_last_write_ts now (
              if drift == 0
              then l
              else record l { total_bytes = sub64 l.total_bytes drift })).total_bytes
            ≡ (if drift == 0
                then l
                else record l { total_bytes = sub64 l.total_bytes drift }).total_bytes)
          × ((bump_last_write_ts now (
                if drift == 0
                then l
                else record l { total_bytes = sub64 l.total_bytes drift })).total_items
              ≡ (if drift == 0
                  then l
                  else record l { total_bytes = sub64 l.total_bytes drift }).total_items)
      moved = total_bytes-bump now _

  commit_replacement-InStep : (new_bytes : ℕ) → InStep s (commit_replacement r new_bytes now s)
  unfolding commit_replacement adopt
  commit_replacement-InStep new_bytes =
      let l = swap_items r s.buf s.ledger in
      let moved =
        total_bytes-bump now
          (record l { total_bytes = add64 l.total_bytes (sub64 new_bytes s.buf.bytes) }) in
      record {
        wired = refl;
        alive = refl;
        bytes_in_step = λ h. ground (arith, moved.0);
        items_in_step = λ h. ground (arith, moved.1);
      }

-- In a scope that satisfies its invariant, replaceAll with fewer than 2 ^ 64 items leaves a scope
-- that satisfies it, whether the batch is taken over or refused (for its size, or for an id or a
-- uuid that it has twice), and moves the byte and item totals of the store by as much, modulo 2 ^
-- 64, as the scope's own.
pub replace_all-Kept :
    (json : Json) (items : List Item) (mints : ℕ → Uuid) (now : ℕ) (s : State)
    → IsCoherent s.buf
    → length items < word
    → Kept s (replace_all json items mints now s)
unfolding replace_all
replace_all-Kept json items mints now s c short =
    if_intro (Kept s) (item_cap_exceeded s.buf (length items)) (λ _. Kept-refl s _ c)
      (λ _.
        result_intro (Kept s) (build_replacement_state json items s.buf.has_store mints now)
          (λ e _. Kept-refl s _ c)
          (λ r e. record {
            coherent =
                build_replacement_state-Adopted json s.buf.has_store mints now items r short e s.buf
                  now;
            in_step = commit_replacement-InStep r now s (sum_item_bytes r.heap r.items);
          }))
