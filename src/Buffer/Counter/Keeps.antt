-- ===== src/Buffer/Counter/Keeps.antt =====
-- `/counter_add` keeps the invariant of the scope and the totals of the store in step.
use scopecache.Prelude.{
  ℕ, ◌+◌, ◌<◌, ◌≡◌, refl, sym, ◌∙◌, ap, subst, Bool, true, false, not, ◌==◌, ◌&&◌, Option, none,
  some, length, if_intro, option_intro, if_pos, arith,
}
use scopecache.Word.{word, add64, sub64}
use scopecache.Map.{lookup, insert}
use scopecache.Map.Keeps.{record_key}
use scopecache.Item.{
  Bytes, Bytes-discrete, Uuid, zero_uuid, is_zero, is_empty, CounterCell, Item, Json,
  approx_item_size, Result, ok, err, result_intro,
}
use scopecache.Item.Sizes.{approx_item_size-cell}
use scopecache.Ledger.{Reservation}
use scopecache.Buffer.{Ptr, put_item, ScopeBuffer, State, id_tag, uuid_tag}
use scopecache.Buffer.Locked.{ptr_at, item_cap_exceeded, reserve_if, count_items, store_item}
use scopecache.Buffer.Counter.{
  out_of_range, atomic_counter_add, parse_counter_value, store_cell, add_to_cell, promoted_item,
  promote, new_counter, create_counter, counter_add_slow, counter_add,
}
use scopecache.Buffer.Order.{get_or_of_get}
use scopecache.Buffer.Invariant.{IsCoherent, put_item-IsCoherent, Located, locate_id}
use scopecache.Buffer.Insert.{IsFresh, store_item-IsCoherent}
use scopecache.Buffer.Kept.{
  Kept, Kept-refl, Kept-refused, reserve_if-granted, reserve_if-items, totals-count_items,
}
use scopecache.Buffer.Write.Keeps.{store_item-InStep}
use scopecache.Buffer.Write.Updates.{delta_reservation-total}

is_zero-zero_uuid : is_zero zero_uuid ≡ true
unfolding is_zero
is_zero-zero_uuid = if_pos {C = Bool} (Bytes-discrete zero_uuid zero_uuid) refl true false

-- An item with an id goes into byID under it.
by_id-store_item :
    (grow : ℕ → ℕ → ℕ) (item : Item) (size : ℕ) (b : ScopeBuffer)
    → is_empty item.id ≡ false
    → record (store_item grow item size b) { by_id = insert Bytes-discrete item.id b.next b.by_id }
      ≡ store_item grow item size b
unfolding store_item id_tag record_key
by_id-store_item grow item size b named =
    ap (λ m. record (store_item grow item size b) { by_id = m }) (sym recorded)
  where
    recorded :
        record_key Bytes-discrete (id_tag item) b.next b.by_id
        ≡ insert Bytes-discrete item.id b.next b.by_id
    recorded = rw (named, id_tag, record_key) refl

-- Where nothing runs between its two paths, counterAdd with its fast path computes what the
-- exclusive path alone would.
pub counter_add-eq-slow :
    (json : Json) (grow : ℕ → ℕ → ℕ) (scope id : Bytes) (by now : ℕ) (minted : Uuid) (s : State)
    → counter_add json grow scope id by now minted s
      ≡ counter_add_slow json grow scope id by now minted s
unfolding counter_add
counter_add-eq-slow json grow scope id by now minted s =
    if_intro SameAsSlow s.buf.detached (λ _. refl)
      (λ live.
        option_intro SameAsSlow (lookup Bytes-discrete id s.buf.by_id) (λ _. refl)
          (λ p e.
            option_intro SameAsSlow (s.buf.heap p).counter (λ _. refl)
              (λ cell e'. simp (live, e, e'))))
  where
    SameAsSlow : Option (Result (ℕ × Bool) × State) → Type 0
    SameAsSlow o =
        elim o [ some r ↦ r | none ↦ counter_add_slow json grow scope id by now minted s ]
        ≡ counter_add_slow json grow scope id by now minted s

id_tag-some : (item : Item) (k : Bytes) → id_tag item ≡ some k → k ≡ item.id
unfolding id_tag
id_tag-some item k e = ground arith

uuid_tag-some :
    (item : Item) (k : Uuid)
    → uuid_tag item ≡ some k
    → (k ≡ item.uuid) × (is_zero item.uuid ≡ false)
unfolding uuid_tag
uuid_tag-some item k e = ground arith

module _ (s : State) (c : IsCoherent s.buf) where
  store_cell-Kept :
      {p : Ptr} {old : CounterCell} (r : Result ℕ × CounterCell)
      → Located s.buf p
      → (s.buf.heap p).counter ≡ some old
      → Kept s (store_cell p r s)
  unfolding store_cell
  store_cell-Kept (err e, cell) at here = Kept-refl s _ c
  store_cell-Kept {p} (ok v, cell) at here = record {
    coherent =
        put_item-IsCoherent s.buf at.index p _ s.buf.bytes s.buf.last_write_ts c at.stands
          (record { same_id = refl; same_seq = refl; same_uuid = refl })
          (omega (arith, approx_item_size-cell (s.buf.heap p) cell here))
          (omega (arith, c.bytes_sum));
    in_step = record {
      wired = refl;
      alive = refl;
      bytes_in_step = λ h. refl;
      items_in_step = λ h. refl;
    };
  }

  -- The promoted item keeps its keys, and the byte counter moves by the change in its size.
  put_promoted-IsCoherent :
      {p : Ptr} (value now : ℕ)
      → (at : Located s.buf p)
      → let item = promoted_item (s.buf.heap p) value now in
        IsCoherent (record s.buf {
          heap = put_item (ptr_at s.buf at.index) item s.buf.heap;
          bytes =
              add64 s.buf.bytes (sub64 (approx_item_size item) (approx_item_size (s.buf.heap p)));
        })
  put_promoted-IsCoherent {p} value now at =
      let here : ptr_at s.buf at.index ≡ p = get_or_of_get s.buf.items at.index at.stands in
      put_item-IsCoherent s.buf at.index (ptr_at s.buf at.index) _ _ s.buf.last_write_ts c
        (at.stands ∙ ap some (sym here))
        (record {
          same_id = ap (λ q. (s.buf.heap q).id) (sym here);
          same_seq = ap (λ q. (s.buf.heap q).seq) (sym here);
          same_uuid = ap (λ q. (s.buf.heap q).uuid) (sym here);
        })
        (omega (arith, ap (λ q. approx_item_size (s.buf.heap q)) here)) (omega arith)

  module _ (by now : ℕ) where
    add_to_cell-Kept :
        {p : Ptr} {old : CounterCell}
        → Located s.buf p
        → (s.buf.heap p).counter ≡ some old
        → Kept s (add_to_cell p old by now s)
    unfolding add_to_cell
    add_to_cell-Kept {old} at here = store_cell-Kept (atomic_counter_add old by now) at here

    promote-Kept : (json : Json) {p : Ptr} → Located s.buf p → Kept s (promote json p by now s)
    unfolding promote
    promote-Kept json {p} at =
        result_intro (Kept s) (parse_counter_value json (s.buf.heap p).payload)
          (λ e _. Kept-refl s _ c)
          (λ current _.
            if_intro (Kept s) (out_of_range (add64 current by)) (λ _. Kept-refl s _ c)
              (λ _. rw at.searched (
                if_intro (Kept s) (change current).granted
                  (λ granted. record {
                    coherent = put_promoted-IsCoherent (add64 current by) now at;
                    in_step = record {
                      wired = refl;
                      alive = refl;
                      bytes_in_step = λ h. omega (
                        arith,
                        delta_reservation-total (approx_item_size (s.buf.heap p))
                            (approx_item_size (item current)) s h granted,
                      );
                      items_in_step = λ h.
                          omega
                            (arith, reserve_if-items (changes current) (delta current) s.ledger);
                    };
                  })
                  (λ refused. Kept-refused s _ (changes current) (delta current) c refused))))
      where
        item : ℕ → Item
        item current = promoted_item (s.buf.heap p) (add64 current by) now

        delta : ℕ → ℕ
        delta current = sub64 (approx_item_size (item current)) (approx_item_size (s.buf.heap p))

        changes : ℕ → Bool
        changes current = s.buf.has_store && not (delta current == 0)

        change : ℕ → Reservation
        change current = reserve_if (changes current) (delta current) s.ledger

    create_counter-Kept :
        (grow : ℕ → ℕ → ℕ) (scope id : Bytes) (minted : Uuid)
        → is_empty id ≡ false
        → s.buf.last_seq + 1 < word
        → lookup Bytes-discrete id s.buf.by_id ≡ none
        → lookup Bytes-discrete minted s.buf.by_uuid ≡ none
        → Kept s (create_counter grow scope id by now minted s)
    unfolding create_counter
    create_counter-Kept grow scope id minted named left id_free uuid_free =
        if_intro (Kept s) (item_cap_exceeded b (length b.items + 1)) (λ _. Kept-refl s _ c)
          (λ _.
            if_intro (Kept s) r.granted
              (λ granted.
                subst
                  (λ stored. Kept s (
                    created,
                    record s { buf = stored; ledger = count_items b.has_store 1 r.ledger },
                  ))
                  (sym (by_id-store_item grow item size b named))
                  (record {
                    coherent = store_item-IsCoherent grow b item c fresh;
                    in_step =
                        store_item-InStep grow item s (count_items b.has_store 1 r.ledger)
                          b.last_write_ts
                          (λ h.
                            (totals-count_items b.has_store 1 r.ledger h).0
                            ∙ reserve_if-granted b.has_store size s.ledger h granted)
                          (λ h.
                            (totals-count_items b.has_store 1 r.ledger h).1
                            ∙ ap (λ n. add64 n 1) (reserve_if-items b.has_store size s.ledger));
                  }))
              (λ refused. Kept-refused s _ b.has_store size c refused))
      where
        open s use {buf as b}

        created : Result (ℕ × Bool)
        created = ok (by, true)

        item : Item
        item = new_counter scope id by now minted b

        size : ℕ
        size = approx_item_size item

        r : Reservation
        r = reserve_if b.has_store size s.ledger

        id_new : (k : Bytes) → id_tag item ≡ some k → lookup Bytes-discrete k b.by_id ≡ none
        id_new k e = ground (arith, id_tag-some item k e)

        uuid_new : (k : Uuid) → uuid_tag item ≡ some k → lookup Bytes-discrete k b.by_uuid ≡ none
        uuid_new k e = ground (arith, uuid_tag-some item k e, is_zero-zero_uuid)

        fresh : IsFresh b item
        fresh = record {
          next_seq = omega (arith, left);
          seq_word = left;
          id_new = λ k e. id_new k e;
          uuid_new = λ k e. uuid_new k e;
        }

    -- The exclusive path keeps the invariant and the totals, whatever it finds under the id.
    pub counter_add_slow-Kept :
        (json : Json) (grow : ℕ → ℕ → ℕ) (scope id : Bytes) (minted : Uuid)
        → is_empty id ≡ false
        → s.buf.last_seq + 1 < word
        → lookup Bytes-discrete minted s.buf.by_uuid ≡ none
        → Kept s (counter_add_slow json grow scope id by now minted s)
    unfolding counter_add_slow
    counter_add_slow-Kept json grow scope id minted named left uuid_free =
        if_intro (Kept s) s.buf.detached (λ _. Kept-refl s _ c)
          (λ _.
            option_intro (Kept s) (lookup Bytes-discrete id s.buf.by_id)
              (λ id_free. create_counter-Kept grow scope id minted named left id_free uuid_free)
              (λ p e.
                option_intro (Kept s) (s.buf.heap p).counter
                  (λ _. promote-Kept json (locate_id s.buf c id e))
                  (λ cell here. add_to_cell-Kept (locate_id s.buf c id e) here)))

    -- In a scope that satisfies its invariant, has a sequence number left and does not hold the
    -- minted uuid, counterAdd for an id that is not empty leaves a scope that satisfies the
    -- invariant, whether it increments, promotes, creates or is refused, and moves the byte and
    -- item totals of the store by as much, modulo 2 ^ 64, as the scope's own.
    pub counter_add-Kept :
        (json : Json) (grow : ℕ → ℕ → ℕ) (scope id : Bytes) (minted : Uuid)
        → is_empty id ≡ false
        → s.buf.last_seq + 1 < word
        → lookup Bytes-discrete minted s.buf.by_uuid ≡ none
        → Kept s (counter_add json grow scope id by now minted s)
    counter_add-Kept json grow scope id minted named left uuid_free =
        subst (Kept s) (sym (counter_add-eq-slow json grow scope id by now minted s))
          (counter_add_slow-Kept json grow scope id minted named left uuid_free)
