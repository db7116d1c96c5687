-- ===== src/Buffer/Effects/Update.antt =====
-- `/update` gives the item of a key a new payload and leaves all else in the scope's list as it was.
use scopecache.Prelude.{
  ℕ, ◌≡◌, sym, ◌∙◌, ap, subst, Bool-cases, Option, none, some, List, get_elem?, option_intro,
  if_intro, inl, inr, ℕ_discrete,
}
use scopecache.Map.{lookup}
use scopecache.Map.Index.{find, IsIndexed, get_of_find}
use scopecache.Map.Keyed.{modify, modify_absent, deref}
use scopecache.Item.{
  Bytes, Bytes-discrete, Uuid, Item, Json, render_or_precompute, payload_and_render_bytes, ok,
}
use scopecache.Ledger.{Ledger}
use scopecache.Buffer.{Ptr, State, id_tag, seq_tag, uuid_tag, get-put_item_self, get-put_item_ne}
use scopecache.Buffer.Locked.{replace_item_at_index, ptr_at}
use scopecache.Buffer.Order.{get_or_of_get, seq_of}
use scopecache.Buffer.Write.{
  replace_payload, finish_replace, as_count, new_payload_bytes, update_by_id, update_checked,
  exceeds_item_cap, update_by_seq, update_by_uuid,
}
use scopecache.Buffer.Write.Updates.{
  delta_reservation, reserve_payload_delta-granted, reserve_payload_delta-refused,
}
use scopecache.Buffer.Invariant.{IsCoherent, Located, locate_id, locate_seq, locate_uuid}
use scopecache.Buffer.Contents.{
  contents, map-modify, find_id-contents, find_seq-contents, find_uuid-contents,
}
use scopecache.Buffer.Effects.{hits, Effect, Effect-ok, Effect-err}

-- The item with its payload replaced: the rendered form goes along, the counter goes, and the
-- scope, the id, the uuid and the sequence number stay.
abbrev pub with_payload : Bytes → Option Bytes → ℕ → Item → Item
with_payload payload render now item = record item {
  payload = payload;
  ts = now;
  render_bytes = render;
  counter = none;
}

-- The item of a key has the new payload, the others are as they were, and `n` tells whether there
-- was one.
pub record Updated {K : Type 0} (dec : Discrete K) (tag : Item → Option K) (k : K) (f : Item → Item)
    (s : State) (n : ℕ) (t : State) : Type 0 where
  pub changed : contents t.buf ≡ modify dec tag k f (contents s.buf)
  pub counted : n ≡ hits (find dec tag k (contents s.buf))

module _ {K : Type 0} (dec : Discrete K) (tag : Item → Option K) (k : K) (payload : Bytes)
    (render : Option Bytes) (now : ℕ) (s : State) (c : IsCoherent s.buf) (m : List (K × Ptr))
    (indexed : IsIndexed dec (λ p. tag (s.buf.heap p)) s.buf.items m)
    (found : find dec tag k (contents s.buf) ≡ deref dec tag s.buf.heap (lookup dec k m)) where
  abbrev Promise : ℕ → State → Type 0
  Promise = Updated dec tag k (with_payload payload render now) s

  missed-Effect : lookup dec k m ≡ none → Effect s Promise (ok 0, s)
  missed-Effect h = Effect-ok 0 (record {
    changed = sym (
        modify_absent dec tag k (with_payload payload render now) (contents s.buf)
          (found ∙ ap (deref dec tag s.buf.heap) h));
    counted = sym (ap hits (found ∙ ap (deref dec tag s.buf.heap) h));
  })

  contents-replace_item_at_index :
      (i delta : ℕ) {p : Ptr} (l : Ledger)
      → get_elem? s.buf.items i ≡ some p
      → tag (s.buf.heap p) ≡ some k
      → contents (replace_item_at_index i payload now render delta (record s { ledger = l })).buf
        ≡ modify dec tag k (with_payload payload render now) (contents s.buf)
  unfolding replace_item_at_index
  contents-replace_item_at_index i delta {p} l stands tagged =
      let at : ptr_at s.buf i ≡ p = get_or_of_get s.buf.items i stands in
      map-modify dec tag (seq_of s.buf) s.buf.heap _ (with_payload payload render now) k s.buf.items
        i (λ q ne. get-put_item_ne (ptr_at s.buf i) q _ s.buf.heap ne)
        (get-put_item_self (ptr_at s.buf i) _ s.buf.heap) c.ascending indexed.distinct
        (stands ∙ ap some (sym at)) (ap (λ q. tag (s.buf.heap q)) at ∙ tagged)

  replace_payload-Effect :
      {p : Ptr}
      → lookup dec k m ≡ some p
      → Located s.buf p
      → Effect s Promise
          (as_count (replace_payload (s.buf.heap p) (s.buf.heap p).seq payload render now s))
  unfolding replace_payload
  replace_payload-Effect {p} h at =
      let old_size = payload_and_render_bytes (s.buf.heap p) in
      let new_size = new_payload_bytes payload render in
      let (i, stands, tagged) =
        get_of_find dec (λ p. tag (s.buf.heap p)) k s.buf.items (sym (indexed.found k) ∙ h) in
      elim (Bool-cases (delta_reservation old_size new_size s).granted) [
        | inr refused ↦
            rw
              (
                reserve_payload_delta-refused old_size new_size s refused,
                replace_payload,
                finish_replace,
              )
              (Effect-err _)
        | inl granted ↦
            rw
              (
                reserve_payload_delta-granted old_size new_size s granted,
                at.searched,
                replace_payload,
                finish_replace,
              )
              (Effect-ok 1 (record {
                changed = contents-replace_item_at_index at.index _ _ at.stands tagged;
                counted = sym (ap hits (found ∙ ap (deref dec tag s.buf.heap) h));
              }))
      ]

-- The item as an update leaves it, its rendered form given or computed.
abbrev pub written : Json → Bytes → Option Bytes → ℕ → Item → Item
written json payload pre now = with_payload payload (render_or_precompute json pre payload) now

module _ (json : Json) (payload : Bytes) (pre : Option Bytes) (now : ℕ) (s : State)
    (c : IsCoherent s.buf) where
  -- In a scope that satisfies its invariant, updateByID either returns an error and leaves the
  -- state as it was, or gives the item of the id the new payload, its rendered form and the time,
  -- with no counter, and all other items and their order stay; it returns 1 if there is an item of
  -- the id and 0 if not.
  pub update_by_id-Effect :
      (id : Bytes)
      → Effect s
          (Updated Bytes-discrete id_tag id (written json payload pre now) s)
          (update_by_id json id payload pre now s)
  unfolding update_by_id
  update_by_id-Effect id =
      let P = Effect s (Updated Bytes-discrete id_tag id (written json payload pre now) s) in
      let found = find_id-contents s.buf c id in
      let render = render_or_precompute json pre payload in
      if_intro P s.buf.detached (λ _. Effect-err _)
        (λ _.
          option_intro P (lookup Bytes-discrete id s.buf.by_id)
            (missed-Effect Bytes-discrete id_tag id payload render now s c s.buf.by_id c.ids found)
            (λ p e.
              replace_payload-Effect Bytes-discrete id_tag id payload render now s c s.buf.by_id
                c.ids found e (locate_id s.buf c id e)))

  -- In a scope that satisfies its invariant, updateByUUID either returns an error and leaves the
  -- state as it was, or gives the item of the uuid the new payload, its rendered form and the time,
  -- with no counter, and all other items and their order stay; it returns 1 if there is such an
  -- item and 0 if not.
  pub update_by_uuid-Effect :
      (u : Uuid)
      → Effect s
          (Updated Bytes-discrete uuid_tag u (written json payload pre now) s)
          (update_by_uuid json u payload pre now s)
  unfolding update_by_uuid update_checked
  update_by_uuid-Effect u =
      let P = Effect s (Updated Bytes-discrete uuid_tag u (written json payload pre now) s) in
      let found = find_uuid-contents s.buf c u in
      let render = render_or_precompute json pre payload in
      if_intro P s.buf.detached (λ _. Effect-err _)
        (λ _.
          option_intro P (lookup Bytes-discrete u s.buf.by_uuid)
            (missed-Effect Bytes-discrete uuid_tag u payload render now s c s.buf.by_uuid c.uuids
              found)
            (λ p e.
              if_intro P (exceeds_item_cap (s.buf.heap p) payload render s) (λ _. Effect-err _)
                (λ _.
                  replace_payload-Effect Bytes-discrete uuid_tag u payload render now s c
                    s.buf.by_uuid c.uuids found e (locate_uuid s.buf c u e))))

  -- In a scope that satisfies its invariant, updateBySeq either returns an error and leaves the
  -- state as it was, or gives the item of the sequence number the new payload, its rendered form
  -- and the time, with no counter, and all other items and their order stay; it returns 1 if there
  -- is such an item and 0 if not.
  pub update_by_seq-Effect :
      (seq : ℕ)
      → Effect s
          (Updated ℕ_discrete seq_tag seq (written json payload pre now) s)
          (update_by_seq json seq payload pre now s)
  unfolding update_by_seq update_checked
  update_by_seq-Effect seq =
      let P = Effect s (Updated ℕ_discrete seq_tag seq (written json payload pre now) s) in
      let found = find_seq-contents s.buf c seq in
      let render = render_or_precompute json pre payload in
      if_intro P s.buf.detached (λ _. Effect-err _)
        (λ _.
          option_intro P (lookup ℕ_discrete seq s.buf.by_seq)
            (missed-Effect ℕ_discrete seq_tag seq payload render now s c s.buf.by_seq c.seqs found)
            (λ p e.
              let (at, same) = locate_seq s.buf c seq e in
              if_intro P (exceeds_item_cap (s.buf.heap p) payload render s) (λ _. Effect-err _)
                (λ _.
                  subst (λ n. P (as_count (replace_payload (s.buf.heap p) n payload render now s)))
                    same
                    (replace_payload-Effect ℕ_discrete seq_tag seq payload render now s c
                      s.buf.by_seq c.seqs found e at))))
