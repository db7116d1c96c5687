-- ===== src/Buffer/Effects/Drain.antt =====
-- `/delete_up_to` keeps the items past a boundary.
use scopecache.Prelude.{
  ℕ, ◌+◌, ◌≡◌, refl, sym, ◌∙◌, ap, true, ◌==◌, Option, none, some, map, length, drop, length-drop,
  option_intro, if_intro, arith,
}
use scopecache.Map.{lookup}
use scopecache.Map.Index.{find}
use scopecache.Map.Keyed.{deref}
use scopecache.Item.{Bytes-discrete, Uuid, Item}
use scopecache.Buffer.{State, uuid_tag}
use scopecache.Buffer.Order.{boundary-Bounds}
use scopecache.Buffer.Delete.{
  cut_point, remove_prefix, delete_up_to_seq_locked, as_ok, delete_up_to_seq, delete_up_to_uuid,
}
use scopecache.Buffer.Invariant.{IsCoherent}
use scopecache.Buffer.Contents.{contents, find_uuid-contents}
use scopecache.Buffer.Read.Window.{after, cut-contents, length-map}
use scopecache.Buffer.Effects.{Effect, Effect-ok, Effect-err}
use scopecache.Buffer.Effects.Delete.{contents-reset_if_empty}

-- What is left is past the boundary, and `n` counts what is gone.
pub record Drained (seq : ℕ) (s : State) (n : ℕ) (t : State) : Type 0 where
  pub remaining : contents t.buf ≡ after seq (contents s.buf)
  pub counted : n + length (contents t.buf) ≡ length (contents s.buf)

-- The same up to the item that a lookup gives; without one nothing happens.
abbrev pub DrainedTo : Option Item → State → ℕ → State → Type 0
DrainedTo none s n t = (n ≡ 0) × (t ≡ s)
DrainedTo (some item) s n t = Drained item.seq s n t

module _ (now : ℕ) (s : State) (c : IsCoherent s.buf) where
  locked-Drained : (seq : ℕ) → Effect s (Drained seq s) (as_ok (delete_up_to_seq_locked seq now s))
  unfolding delete_up_to_seq_locked remove_prefix cut_point
  locked-Drained seq =
      if_intro (λ r. Effect s (Drained seq s) (as_ok r)) (n == 0)
        (λ none_below. Effect-ok 0 (record {
          remaining = sym (
              cut-contents s.buf c seq
              ∙ ap (λ k. map s.buf.heap (drop k s.buf.items)) (n_zero none_below));
          counted = omega arith;
        }))
        (λ some_below. Effect-ok n (record {
          remaining = contents-reset_if_empty _ ∙ sym (cut-contents s.buf c seq);
          counted = omega (
            arith,
            ap length (contents-reset_if_empty (remove_prefix n now s.buf)),
            length-map s.buf.heap (drop n s.buf.items),
            length-map s.buf.heap s.buf.items,
            length-drop n s.buf.items,
            (boundary-Bounds s.buf c.ascending seq).0,
          );
        }))
    where
      n : ℕ
      n = cut_point seq s.buf

      n_zero : (n == 0) ≡ true → n ≡ 0
      n_zero h = ground arith

  -- In a scope that satisfies its invariant, deleteUpToSeq either returns an error and leaves the
  -- state as it was, or leaves exactly the items whose sequence number is past the boundary, in
  -- their order, and returns the number of the others.
  pub delete_up_to_seq-Effect : (seq : ℕ) → Effect s (Drained seq s) (delete_up_to_seq seq now s)
  unfolding delete_up_to_seq
  delete_up_to_seq-Effect seq =
      if_intro (Effect s (Drained seq s)) s.buf.detached (λ _. Effect-err _)
        (λ _. locked-Drained seq)

  -- In a scope that satisfies its invariant, deleteUpToUUID either returns an error and leaves the
  -- state as it was; or no item has the uuid, it returns 0 and changes nothing; or it leaves
  -- exactly the items whose sequence number is past that of the item with the uuid, in their order,
  -- and returns the number of the others.
  pub delete_up_to_uuid-Effect :
      (u : Uuid)
      → Effect s
          (DrainedTo (find Bytes-discrete uuid_tag u (contents s.buf)) s)
          (delete_up_to_uuid u now s)
  unfolding delete_up_to_uuid
  delete_up_to_uuid-Effect u =
      let P = Effect s (DrainedTo (find Bytes-discrete uuid_tag u (contents s.buf)) s) in
      let found = find_uuid-contents s.buf c u in
      if_intro P s.buf.detached (λ _. Effect-err _)
        (λ _.
          option_intro P (lookup Bytes-discrete u s.buf.by_uuid)
            (λ e.
              rw (found ∙ ap (deref Bytes-discrete uuid_tag s.buf.heap) e)
                (Effect-ok 0 (refl, refl)))
            (λ p e.
              rw (found ∙ ap (deref Bytes-discrete uuid_tag s.buf.heap) e)
                ((locked-Drained (s.buf.heap p).seq))))
