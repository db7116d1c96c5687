-- ===== src/Buffer/ScopeCount.antt =====
-- What the parts of a request do to the number of scopes that the store counts.
use scopecache.Prelude.{
  ℕ, ◌≡◌, refl, subst, Bool, true, false, arith, not, ◌&&◌, ◌==◌, ◌+◌, Option, none, some, length,
  ℕ_discrete, if_intro, option_intro,
}
use scopecache.Item.{
  Bytes, Uuid, Item, Json, Bytes-discrete, CounterCell, render_or_precompute, Result, ok, err,
  result_intro, approx_item_size, payload_and_render_bytes,
}
use scopecache.Ledger.{Ledger, reserve_bytes, bump_last_write_ts}
use scopecache.Buffer.{State}
use mathlib.Core.Option.{some-injective}
use scopecache.Word.{sub64, add64}
use scopecache.Map.{lookup}
use scopecache.Buffer.Delete.{delete_index, delete_seq, delete_up_to_seq_locked}
use scopecache.Buffer.Counter.{
  counter_add, counter_add_fast, counter_add_slow, create_counter, promote, add_to_cell,
  new_counter, parse_counter_value, promoted_item, store_cell, atomic_counter_add,
}
use scopecache.Buffer.Locked.{
  reserve_if, touch_store, count_items, reserve_payload_delta, replace_item_at_index,
  insert_new_item, prepare_item, index_by_seq, item_cap_exceeded,
}
use scopecache.Buffer.Write.{
  append_item, upsert_by_id, update_by_id, update_by_seq, update_by_uuid, update_checked,
  exceeds_item_cap, replace_payload, finish_replace, as_count, as_upserted, as_created,
  new_payload_bytes,
}

pub reserve_bytes-scope_count :
    (delta : ℕ) (l : Ledger) → (reserve_bytes delta l).ledger.scope_count ≡ l.scope_count
unfolding reserve_bytes
reserve_bytes-scope_count delta l = ground arith

reserve_if-scope_count :
    (b : Bool) (delta : ℕ) (l : Ledger) → (reserve_if b delta l).ledger.scope_count ≡ l.scope_count
unfolding reserve_if reserve_bytes
reserve_if-scope_count true delta l = ground arith
reserve_if-scope_count false delta l = refl

touch_store-scope_count :
    (b : Bool) (now : ℕ) (l : Ledger) → (touch_store b now l).scope_count ≡ l.scope_count
unfolding touch_store bump_last_write_ts
touch_store-scope_count true now l = ground arith
touch_store-scope_count false now l = refl

count_items-scope_count :
    (b : Bool) (n : ℕ) (l : Ledger) → (count_items b n l).scope_count ≡ l.scope_count
unfolding count_items
count_items-scope_count true n l = refl
count_items-scope_count false n l = refl

-- The store's number of scopes is as before.
unfoldable pub Counted : {A : Type 0} → State → A × State → Type 0
Counted s r = r.1.ledger.scope_count ≡ s.ledger.scope_count

module _ (s : State) (now : ℕ) where
  insert_new_item-Counted :
      (json : Json) (grow : ℕ → ℕ → ℕ) (item : Item) (minted : Uuid)
      → Counted s (insert_new_item json grow item now minted s)
  unfolding insert_new_item Counted
  insert_new_item-Counted json grow item minted =
      let size = approx_item_size (prepare_item json item now minted s.buf) in
      let reserved = reserve_if-scope_count s.buf.has_store size s.ledger in
      let l = (reserve_if s.buf.has_store size s.ledger).ledger in
      ground (
        arith,
        reserved,
        count_items-scope_count s.buf.has_store 1 l,
        touch_store-scope_count s.buf.has_store now (count_items s.buf.has_store 1 l),
      )

  create_counter-Counted :
      (grow : ℕ → ℕ → ℕ) (scope id : Bytes) (by : ℕ) (minted : Uuid)
      → Counted s (create_counter grow scope id by now minted s)
  unfolding create_counter Counted
  create_counter-Counted grow scope id by minted =
      let size = approx_item_size (new_counter scope id by now minted s.buf) in
      let l = (reserve_if s.buf.has_store size s.ledger).ledger in
      ground (
        arith,
        reserve_if-scope_count s.buf.has_store size s.ledger,
        count_items-scope_count s.buf.has_store 1 l,
      )

  replace_payload-Counted :
      (existing : Item) (seq : ℕ) (payload : Bytes) (render : Option Bytes)
      → Counted s (replace_payload existing seq payload render now s)
  unfolding replace_payload reserve_payload_delta finish_replace replace_item_at_index Counted
  replace_payload-Counted existing seq payload render =
      let delta = sub64 (new_payload_bytes payload render) (payload_and_render_bytes existing) in
      let b = s.buf.has_store && not (delta == 0) in
      ground (
        arith,
        reserve_if-scope_count b delta s.ledger,
        touch_store-scope_count s.buf.has_store now (reserve_if b delta s.ledger).ledger,
      )

  delete_index-Counted : (i : ℕ) → (delete_index i now s).ledger.scope_count ≡ s.ledger.scope_count
  unfolding delete_index bump_last_write_ts
  delete_index-Counted i = ground arith

  pub drain-Counted : (seq : ℕ) → Counted s (delete_up_to_seq_locked seq now s)
  unfolding delete_up_to_seq_locked bump_last_write_ts Counted
  drain-Counted seq = ground arith

  promote-Counted : (json : Json) (p : ℕ) (by : ℕ) → Counted s (promote json p by now s)
  unfolding promote Counted
  promote-Counted json p by =
      let existing = s.buf.heap p in
      result_intro (Counted s) (parse_counter_value json existing.payload) (λ e _. refl)
        (λ current _.
          let item = promoted_item existing (add64 current by) now in
          let delta = sub64 (approx_item_size item) (approx_item_size existing) in
          ground
            (arith, reserve_if-scope_count (s.buf.has_store && not (delta == 0)) delta s.ledger))

  add_to_cell-Counted :
      (p : ℕ) (cell : CounterCell) (by : ℕ) → Counted s (add_to_cell p cell by now s)
  unfolding add_to_cell store_cell atomic_counter_add Counted
  add_to_cell-Counted p cell by = ground arith

-- The results change under these, and the state does not.
Counted-as_count :
    (s : State) (r : Result (Option ℕ) × State) → Counted s r → Counted s (as_count r)
unfolding Counted
Counted-as_count s (err e, t) h = h
Counted-as_count s (ok none, t) h = h
Counted-as_count s (ok (some i), t) h = h

Counted-as_upserted :
    (s : State) (r : Result (Option ℕ) × State) → Counted s r → Counted s (as_upserted r)
unfolding Counted
Counted-as_upserted s (err e, t) h = h
Counted-as_upserted s (ok none, t) h = h
Counted-as_upserted s (ok (some i), t) h = h

Counted-as_created : (s : State) (r : Result Item × State) → Counted s r → Counted s (as_created r)
unfolding Counted
Counted-as_created s (err e, t) h = h
Counted-as_created s (ok item, t) h = h

module _ (json : Json) (grow : ℕ → ℕ → ℕ) (s : State) where
  pub append-Counted :
      (item : Item) (now : ℕ) (minted : Uuid) → Counted s (append_item json grow item now minted s)
  unfolding append_item Counted
  append-Counted item now minted =
      ground (arith, insert_new_item-Counted s now json grow item minted)

  pub upsert-Counted :
      (item : Item) (now : ℕ) (minted : Uuid) → Counted s (upsert_by_id json grow item now minted s)
  unfolding upsert_by_id Counted
  upsert-Counted item now minted =
      if_intro (Counted s) s.buf.detached (λ _. refl)
        (λ _.
          option_intro (Counted s) (lookup Bytes-discrete item.id s.buf.by_id)
            (λ _.
              if_intro (Counted s) (item_cap_exceeded s.buf (length s.buf.items + 1)) (λ _. refl)
                (λ _. Counted-as_created s _ (insert_new_item-Counted s now json grow item minted)))
            (λ p _. Counted-as_upserted s _ (
              replace_payload-Counted s now (s.buf.heap p) (s.buf.heap p).seq item.payload
                (render_or_precompute json item.render_bytes item.payload))))

  pub update_id-Counted :
      (id payload : Bytes) (pre : Option Bytes) (now : ℕ)
      → Counted s (update_by_id json id payload pre now s)
  unfolding update_by_id Counted
  update_id-Counted id payload pre now =
      if_intro (Counted s) s.buf.detached (λ _. refl)
        (λ _.
          option_intro (Counted s) (lookup Bytes-discrete id s.buf.by_id) (λ _. refl)
            (λ p _. Counted-as_count s _ (
              replace_payload-Counted s now (s.buf.heap p) (s.buf.heap p).seq payload
                (render_or_precompute json pre payload))))

  update_checked-Counted :
      (existing : Item) (seq : ℕ) (payload : Bytes) (pre : Option Bytes) (now : ℕ)
      → Counted s (update_checked json existing seq payload pre now s)
  unfolding update_checked Counted
  update_checked-Counted existing seq payload pre now =
      let render = render_or_precompute json pre payload in
      if_intro (Counted s) (exceeds_item_cap existing payload render s) (λ _. refl)
        (λ _. Counted-as_count s _ (replace_payload-Counted s now existing seq payload render))

  pub update_seq-Counted :
      (seq : ℕ) (payload : Bytes) (pre : Option Bytes) (now : ℕ)
      → Counted s (update_by_seq json seq payload pre now s)
  unfolding update_by_seq Counted
  update_seq-Counted seq payload pre now =
      if_intro (Counted s) s.buf.detached (λ _. refl)
        (λ _.
          option_intro (Counted s) (lookup ℕ_discrete seq s.buf.by_seq) (λ _. refl)
            (λ p _. update_checked-Counted (s.buf.heap p) seq payload pre now))

  pub update_uuid-Counted :
      (u : Uuid) (payload : Bytes) (pre : Option Bytes) (now : ℕ)
      → Counted s (update_by_uuid json u payload pre now s)
  unfolding update_by_uuid Counted
  update_uuid-Counted u payload pre now =
      if_intro (Counted s) s.buf.detached (λ _. refl)
        (λ _.
          option_intro (Counted s) (lookup Bytes-discrete u s.buf.by_uuid) (λ _. refl)
            (λ p _. update_checked-Counted (s.buf.heap p) (s.buf.heap p).seq payload pre now))

  counter_add_slow-Counted :
      (scope id : Bytes) (by now : ℕ) (minted : Uuid)
      → Counted s (counter_add_slow json grow scope id by now minted s)
  unfolding counter_add_slow Counted
  counter_add_slow-Counted scope id by now minted =
      if_intro (Counted s) s.buf.detached (λ _. refl)
        (λ _.
          option_intro (Counted s) (lookup Bytes-discrete id s.buf.by_id)
            (λ _. create_counter-Counted s now grow scope id by minted)
            (λ p _.
              option_intro (Counted s) (s.buf.heap p).counter (λ _. promote-Counted s now json p by)
                (λ cell _. add_to_cell-Counted s now p cell by)))

  abbrev CountedIf : Option (Result (ℕ × Bool) × State) → Type 0
  CountedIf o = (r : Result (ℕ × Bool) × State) → o ≡ some r → Counted s r

  counter_add_fast-Counted : (id : Bytes) (by now : ℕ) → CountedIf (counter_add_fast id by now s)
  unfolding counter_add_fast
  counter_add_fast-Counted id by now =
      if_intro CountedIf s.buf.detached (λ _ r e. cc)
        (λ _.
          option_intro CountedIf (lookup Bytes-discrete id s.buf.by_id) (λ _ r e. cc)
            (λ p _.
              option_intro CountedIf (s.buf.heap p).counter (λ _ r e. cc)
                (λ cell _ r e.
                  subst (Counted s) (some-injective _ r e) (add_to_cell-Counted s now p cell by))))

  pub counter_add-Counted :
      (scope id : Bytes) (by now : ℕ) (minted : Uuid)
      → Counted s (counter_add json grow scope id by now minted s)
  unfolding counter_add
  counter_add-Counted scope id by now minted =
      option_intro (Counted s) (counter_add_fast id by now s)
        (λ _. counter_add_slow-Counted scope id by now minted)
        (λ r e. counter_add_fast-Counted id by now r e)

pub delete_seq-Counted : (seq now : ℕ) (s : State) → Counted s (delete_seq seq now s)
unfolding delete_seq Counted
delete_seq-Counted seq now s =
    option_intro (Counted s) (index_by_seq seq s.buf) (λ _. refl)
      (λ i _. delete_index-Counted s now i)
