-- ===== src/Buffer/Effects/Delete.antt =====
-- `/delete` takes the item of a key out of the scope's list and leaves the others in their order;
-- `/delete_up_to` takes out a prefix.
use scopecache.Prelude.{
  ℕ, ◌≡◌, refl, sym, ◌∙◌, ap, subst, Option, none, some, List, map, erase_idx, option_intro,
  if_intro, List-cases, inl, inr, arith, ℕ_discrete,
}
use scopecache.Map.{lookup}
use scopecache.Map.Index.{find, IsIndexed, get_of_find}
use scopecache.Map.Keyed.{without, without_absent, erase_idx-without, map-without, deref}
use scopecache.Item.{Bytes, Bytes-discrete, Uuid, Item, ok}
use scopecache.Buffer.{Ptr, ScopeBuffer, State, id_tag, seq_tag, uuid_tag}
use scopecache.Buffer.Delete.{
  shrink_if_sparse, reset_if_empty, remove_item, delete_index, delete_seq, delete_by_id,
  delete_by_seq, delete_by_uuid,
}
use scopecache.Buffer.Invariant.{IsCoherent, Located, locate_id, locate_seq, locate_uuid}
use scopecache.Buffer.Contents.{contents, find_id-contents, find_seq-contents, find_uuid-contents}
use scopecache.Buffer.Effects.{hits, Effect, Effect-ok, Effect-err}

-- The items of a key are gone, the others stay in order, and `n` tells whether there was one.
pub record Deleted {K : Type 0} (dec : Discrete K) (tag : Item → Option K) (k : K) (s : State)
    (n : ℕ) (t : State) : Type 0 where
  pub remaining : contents t.buf ≡ without dec tag k (contents s.buf)
  pub counted : n ≡ hits (find dec tag k (contents s.buf))

contents-shrink_if_sparse : (b : ScopeBuffer) → contents (shrink_if_sparse b) ≡ contents b
unfolding shrink_if_sparse
contents-shrink_if_sparse b = ground arith

pub contents-reset_if_empty : (b : ScopeBuffer) → contents (reset_if_empty b) ≡ contents b
unfolding reset_if_empty
contents-reset_if_empty b = elim (List-cases b.items) [
  | inl e ↦ rw (e, reset_if_empty) refl
  | inr (x, xs, e) ↦ rw (e, reset_if_empty) (ap (map b.heap) e)
]

contents-delete_index :
    (i now : ℕ) (s : State)
    → contents (delete_index i now s).buf ≡ map s.buf.heap (erase_idx s.buf.items i)
unfolding delete_index remove_item
contents-delete_index i now s =
    contents-shrink_if_sparse (reset_if_empty (remove_item i now s.buf))
    ∙ contents-reset_if_empty (remove_item i now s.buf)

module _ {K : Type 0} (dec : Discrete K) (tag : Item → Option K) (k : K) (now : ℕ) (s : State)
    (m : List (K × Ptr)) (indexed : IsIndexed dec (λ p. tag (s.buf.heap p)) s.buf.items m)
    (found : find dec tag k (contents s.buf) ≡ deref dec tag s.buf.heap (lookup dec k m)) where
  missed-Effect : lookup dec k m ≡ none → Effect s (Deleted dec tag k s) (ok 0, s)
  missed-Effect h = Effect-ok 0 (record {
    remaining =
        sym (without_absent dec tag k (contents s.buf) (found ∙ ap (deref dec tag s.buf.heap) h));
    counted = sym (ap hits (found ∙ ap (deref dec tag s.buf.heap) h));
  })

  delete_seq-Effect :
      {p : Ptr}
      → lookup dec k m ≡ some p
      → Located s.buf p
      → Effect s (Deleted dec tag k s) (delete_seq (s.buf.heap p).seq now s)
  unfolding delete_seq
  delete_seq-Effect {p} h at =
      let (i, stands, tagged) =
        get_of_find dec (λ p. tag (s.buf.heap p)) k s.buf.items (sym (indexed.found k) ∙ h) in
      rw (at.searched, delete_seq)
        (Effect-ok 1 (record {
          remaining =
              contents-delete_index at.index now s
              ∙ ap (map s.buf.heap) (
                  erase_idx-without dec (λ p. tag (s.buf.heap p)) k s.buf.items at.index
                    indexed.distinct at.stands tagged)
              ∙ map-without dec tag s.buf.heap k s.buf.items;
          counted = sym (ap hits (found ∙ ap (deref dec tag s.buf.heap) h));
        }))

module _ (now : ℕ) (s : State) (c : IsCoherent s.buf) where
  -- In a scope that satisfies its invariant, deleteByID either returns an error and leaves the
  -- state as it was, or takes the item of the id out of the list of items and leaves the others in
  -- their order; it returns 1 if there was an item of the id and 0 if not.
  pub delete_by_id-Effect :
      (id : Bytes) → Effect s (Deleted Bytes-discrete id_tag id s) (delete_by_id id now s)
  unfolding delete_by_id
  delete_by_id-Effect id =
      if_intro (Effect s (Deleted Bytes-discrete id_tag id s)) s.buf.detached (λ _. Effect-err _)
        (λ _.
          option_intro (Effect s (Deleted Bytes-discrete id_tag id s))
            (lookup Bytes-discrete id s.buf.by_id)
            (missed-Effect Bytes-discrete id_tag id now s s.buf.by_id c.ids
              (find_id-contents s.buf c id))
            (λ p e.
              delete_seq-Effect Bytes-discrete id_tag id now s s.buf.by_id c.ids
                (find_id-contents s.buf c id) e (locate_id s.buf c id e)))

  -- In a scope that satisfies its invariant, deleteByUUID either returns an error and leaves the
  -- state as it was, or takes the item of the uuid out of the list of items and leaves the others
  -- in their order; it returns 1 if there was such an item and 0 if not.
  pub delete_by_uuid-Effect :
      (u : Uuid) → Effect s (Deleted Bytes-discrete uuid_tag u s) (delete_by_uuid u now s)
  unfolding delete_by_uuid
  delete_by_uuid-Effect u =
      if_intro (Effect s (Deleted Bytes-discrete uuid_tag u s)) s.buf.detached (λ _. Effect-err _)
        (λ _.
          option_intro (Effect s (Deleted Bytes-discrete uuid_tag u s))
            (lookup Bytes-discrete u s.buf.by_uuid)
            (missed-Effect Bytes-discrete uuid_tag u now s s.buf.by_uuid c.uuids
              (find_uuid-contents s.buf c u))
            (λ p e.
              delete_seq-Effect Bytes-discrete uuid_tag u now s s.buf.by_uuid c.uuids
                (find_uuid-contents s.buf c u) e (locate_uuid s.buf c u e)))

  -- In a scope that satisfies its invariant, deleteBySeq either returns an error and leaves the
  -- state as it was, or takes the item of the sequence number out of the list of items and leaves
  -- the others in their order; it returns 1 if there was such an item and 0 if not.
  pub delete_by_seq-Effect :
      (seq : ℕ) → Effect s (Deleted ℕ_discrete seq_tag seq s) (delete_by_seq seq now s)
  unfolding delete_by_seq
  delete_by_seq-Effect seq =
      if_intro (Effect s (Deleted ℕ_discrete seq_tag seq s)) s.buf.detached (λ _. Effect-err _)
        (λ _.
          option_intro (Effect s (Deleted ℕ_discrete seq_tag seq s))
            (lookup ℕ_discrete seq s.buf.by_seq)
            (missed-Effect ℕ_discrete seq_tag seq now s s.buf.by_seq c.seqs
              (find_seq-contents s.buf c seq))
            (λ p e.
              let (at, same) = locate_seq s.buf c seq e in
              subst (λ n. Effect s (Deleted ℕ_discrete seq_tag seq s) (delete_seq n now s)) same
                (delete_seq-Effect ℕ_discrete seq_tag seq now s s.buf.by_seq c.seqs
                  (find_seq-contents s.buf c seq) e at)))
