-- ===== src/Buffer/Delete/Keeps.antt =====
-- The deletes keep the invariant of the scope and the totals of the store in step.
use scopecache.Prelude.{
  ℕ, ◌+◌, ◌*◌, ◌%◌, ◌≡◌, refl, ◌∙◌, ap, subst, ◌==◌, if◌then◌else◌, some, length, length-drop,
  length-erase_idx, get_elem?, get_elem?-lt, take, sum_by, List-cases, if_intro, option_intro, inl,
  inr, arith, ℕ_discrete, leb,
}
use scopecache.Word.{word, sub64}
use scopecache.Map.{lookup}
use scopecache.Item.{Bytes, Bytes-discrete, Uuid, approx_item_size}
use scopecache.Ledger.Steps.{total_bytes-bump}
use scopecache.Buffer.{Ptr, ScopeBuffer, State}
use scopecache.Buffer.Locked.{item_at}
use scopecache.Buffer.Delete.{
  shrink_if_sparse, shrink_min_cap, shrink_sparse_ratio, reset_if_empty, release, remove_item,
  delete_index, delete_seq, delete_by_id, delete_by_seq, delete_by_uuid, cut_point, remove_prefix,
  delete_up_to_seq_locked, as_ok, delete_up_to_seq, delete_up_to_uuid,
}
use scopecache.Buffer.Order.{boundary-Bounds}
use scopecache.Buffer.Invariant.{IsCoherent, Located, locate_id, locate_seq, locate_uuid}
use scopecache.Buffer.Remove.{
  remove_item-IsCoherent, remove_prefix-IsCoherent, reset_if_empty-IsCoherent,
  shrink_if_sparse-IsCoherent,
}
use scopecache.Buffer.Kept.{InStep, Kept, Kept-refl}

-- Two buffers that differ in storage only.
pub record SameTotals (b b' : ScopeBuffer) : Type 0 where
  pub same_items : b'.items ≡ b.items
  pub same_bytes : b'.bytes ≡ b.bytes
  pub same_store : b'.has_store ≡ b.has_store
  pub same_detached : b'.detached ≡ b.detached

pub reset_if_empty-SameTotals : (b : ScopeBuffer) → SameTotals b (reset_if_empty b)
unfolding reset_if_empty
reset_if_empty-SameTotals b = elim (List-cases b.items) [
  | inl e ↦
      rw (e, reset_if_empty)
        (record { same_items = refl; same_bytes = refl; same_store = refl; same_detached = refl })
  | inr (x, xs, e) ↦
      rw (e, reset_if_empty)
        (record { same_items = e; same_bytes = refl; same_store = refl; same_detached = refl })
]

pub shrink_if_sparse-SameTotals : (b : ScopeBuffer) → SameTotals b (shrink_if_sparse b)
unfolding shrink_if_sparse
shrink_if_sparse-SameTotals b =
    if_intro (SameTotals b) (leb b.items_cap shrink_min_cap)
      (λ _. record {
        same_items = refl;
        same_bytes = refl;
        same_store = refl;
        same_detached = refl;
      })
      (λ _.
        if_intro (SameTotals b) (leb b.items_cap (length b.items * shrink_sparse_ratio))
          (λ _. record {
            same_items = refl;
            same_bytes = refl;
            same_store = refl;
            same_detached = refl;
          })
          (λ _. record {
            same_items = refl;
            same_bytes = refl;
            same_store = refl;
            same_detached = refl;
          }))

-- Removing what the totals release keeps them in step.
release-InStep :
    (s : State) (b' : ScopeBuffer) (size count now : ℕ)
    → b'.has_store ≡ s.buf.has_store
    → b'.detached ≡ s.buf.detached
    → b'.bytes ≡ sub64 s.buf.bytes size
    → (length b'.items + count) % word ≡ length s.buf.items % word
    → InStep s (record {
      buf = b';
      ledger = if s.buf.has_store then release size count now s.ledger else s.ledger;
    })
release-InStep s b' size count now wired alive bytes items = record {
  wired = wired;
  alive = alive;
  bytes_in_step = λ h. rw h (omega (arith, bytes, (total_bytes-bump now _).0));
  items_in_step = λ h. rw h (omega (arith, items, (total_bytes-bump now _).1));
}

module _ (now : ℕ) (s : State) (c : IsCoherent s.buf) where
  delete_index-Kept :
      (i : ℕ) {p : Ptr} {A : Type 0} (a : A)
      → get_elem? s.buf.items i ≡ some p
      → Kept s (a, delete_index i now s)
  unfolding delete_index
  delete_index-Kept i {p} a stands =
      let removed = remove_item i now s.buf in
      let reset = reset_if_empty-SameTotals removed in
      let shrunk = shrink_if_sparse-SameTotals (reset_if_empty removed) in
      record {
        coherent =
            shrink_if_sparse-IsCoherent _
              (reset_if_empty-IsCoherent _ (remove_item-IsCoherent s.buf i now c stands));
        in_step =
            release-InStep s (shrink_if_sparse (reset_if_empty removed))
              (approx_item_size (item_at s.buf i)) 1 now (shrunk.same_store ∙ reset.same_store)
              (shrunk.same_detached ∙ reset.same_detached) (shrunk.same_bytes ∙ reset.same_bytes)
              (omega (
                arith,
                ap length (shrunk.same_items ∙ reset.same_items),
                length-erase_idx s.buf.items i (get_elem?-lt s.buf.items i stands),
              ));
      }

  delete_seq-Kept : {p : Ptr} → Located s.buf p → Kept s (delete_seq (s.buf.heap p).seq now s)
  unfolding delete_seq
  delete_seq-Kept at = rw (at.searched, delete_seq) (delete_index-Kept at.index _ at.stands)

  -- In a scope that satisfies its invariant, deleteByID leaves a scope that satisfies it, whether
  -- it deletes, misses or is refused, and moves the byte and item totals of the store by as much,
  -- modulo 2 ^ 64, as the scope's own.
  pub delete_by_id-Kept : (id : Bytes) → Kept s (delete_by_id id now s)
  unfolding delete_by_id
  delete_by_id-Kept id =
      if_intro (Kept s) s.buf.detached (λ _. Kept-refl s _ c)
        (λ _.
          option_intro (Kept s) (lookup Bytes-discrete id s.buf.by_id) (λ _. Kept-refl s _ c)
            (λ p e. delete_seq-Kept (locate_id s.buf c id e)))

  -- The same for `delete` by sequence number.
  pub delete_by_seq-Kept : (seq : ℕ) → Kept s (delete_by_seq seq now s)
  unfolding delete_by_seq
  delete_by_seq-Kept seq =
      if_intro (Kept s) s.buf.detached (λ _. Kept-refl s _ c)
        (λ _.
          option_intro (Kept s) (lookup ℕ_discrete seq s.buf.by_seq) (λ _. Kept-refl s _ c)
            (λ p e.
              let (at, same) = locate_seq s.buf c seq e in
              subst (λ n. Kept s (delete_seq n now s)) same (delete_seq-Kept at)))

  -- The same for `delete` by uuid.
  pub delete_by_uuid-Kept : (u : Uuid) → Kept s (delete_by_uuid u now s)
  unfolding delete_by_uuid
  delete_by_uuid-Kept u =
      if_intro (Kept s) s.buf.detached (λ _. Kept-refl s _ c)
        (λ _.
          option_intro (Kept s) (lookup Bytes-discrete u s.buf.by_uuid) (λ _. Kept-refl s _ c)
            (λ p e. delete_seq-Kept (locate_uuid s.buf c u e)))

  delete_up_to_seq_locked-Kept :
      (max_seq : ℕ) → Kept s (as_ok (delete_up_to_seq_locked max_seq now s))
  unfolding delete_up_to_seq_locked
  delete_up_to_seq_locked-Kept max_seq =
      let n = cut_point max_seq s.buf in
      let removed = remove_prefix n now s.buf in
      let reset = reset_if_empty-SameTotals removed in
      if_intro (λ r. Kept s (as_ok r)) (n == 0) (λ _. Kept-refl s _ c)
        (λ _. record {
          coherent = reset_if_empty-IsCoherent _ (remove_prefix-IsCoherent s.buf n now c);
          in_step =
              release-InStep s (reset_if_empty removed)
                (sum_by (λ p. approx_item_size (s.buf.heap p)) (take n s.buf.items) % word)
                (n % word) now reset.same_store reset.same_detached reset.same_bytes
                (omega (
                  arith,
                  ap length reset.same_items,
                  length-drop n s.buf.items,
                  (boundary-Bounds s.buf c.ascending max_seq).0,
                ));
        })

  -- A drain up to a sequence number keeps the invariant and the totals.
  pub delete_up_to_seq-Kept : (max_seq : ℕ) → Kept s (delete_up_to_seq max_seq now s)
  unfolding delete_up_to_seq
  delete_up_to_seq-Kept max_seq =
      if_intro (Kept s) s.buf.detached (λ _. Kept-refl s _ c)
        (λ _. delete_up_to_seq_locked-Kept max_seq)

  -- In a scope that satisfies its invariant, deleteUpToUUID leaves a scope that satisfies it,
  -- whether it drains, misses or is refused, and moves the byte and item totals of the store by as
  -- much, modulo 2 ^ 64, as the scope's own.
  pub delete_up_to_uuid-Kept : (u : Uuid) → Kept s (delete_up_to_uuid u now s)
  unfolding delete_up_to_uuid
  delete_up_to_uuid-Kept u =
      if_intro (Kept s) s.buf.detached (λ _. Kept-refl s _ c)
        (λ _.
          option_intro (Kept s) (lookup Bytes-discrete u s.buf.by_uuid) (λ _. Kept-refl s _ c)
            (λ p e. delete_up_to_seq_locked-Kept (s.buf.heap p).seq))
