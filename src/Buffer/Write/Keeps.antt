-- ===== src/Buffer/Write/Keeps.antt =====
-- The single-item writes keep the invariant of the scope and the totals of the store in step.
use scopecache.Prelude.{
  ℕ, ◌+◌, ◌<◌, ◌≡◌, refl, ◌∙◌, ap, true, false, ◌&&◌, none, [], ◌∷◌, length, length-append,
  if_intro, arith,
}
use scopecache.Word.{word, add64, slt}
use scopecache.Map.{lookup}
use scopecache.Item.{Bytes, Bytes-discrete, Uuid, Item, Json, approx_item_size, is_empty}
use scopecache.Ledger.{Ledger, Reservation}
use scopecache.Buffer.{ScopeBuffer, State, id_tag, uuid_tag}
use scopecache.Buffer.Locked.{
  reserve_if, prepare_item, adopted_uuid, store_item, insert_new_item, item_cap_exceeded,
  touch_store, count_items,
}
use scopecache.Buffer.Write.{id_exists, append_item}
use scopecache.Buffer.Invariant.{IsCoherent}
use scopecache.Buffer.Insert.{IsFresh, store_item-IsCoherent}
use scopecache.Buffer.Kept.{
  InStep, Kept, Kept-refl, Kept-refused, touched-IsCoherent, reserve_if-granted, reserve_if-items,
  totals-touch_store, totals-count_items,
}

-- What a fresh insert relies on: a sequence number is left, and neither the id nor the uuid that
-- the item gets is in the scope.
pub record CanInsert (item : Item) (minted : Uuid) (b : ScopeBuffer) : Type 0 where
  pub seq_left : b.last_seq + 1 < word
  pub id_free : is_empty item.id ≡ false → lookup Bytes-discrete item.id b.by_id ≡ none
  pub uuid_free : lookup Bytes-discrete (adopted_uuid item minted b) b.by_uuid ≡ none

-- A stored item counts once in each total.
pub store_item-InStep :
    (grow : ℕ → ℕ → ℕ) (item : Item) (s : State) (l : Ledger) (ts : ℕ)
    → (s.buf.has_store ≡ true → l.total_bytes ≡ add64 s.ledger.total_bytes (approx_item_size item))
    → (s.buf.has_store ≡ true → l.total_items ≡ add64 s.ledger.total_items 1)
    → InStep s (record {
      ledger = l;
      buf = record (store_item grow item (approx_item_size item) s.buf) { last_write_ts = ts };
    })
unfolding store_item
store_item-InStep grow item s l ts bytes count = record {
  wired = refl;
  alive = refl;
  bytes_in_step = λ h. omega (arith, bytes h);
  items_in_step = λ h. omega (arith, count h, length-append s.buf.items (s.buf.next ∷ []));
}

id_exists-false :
    (id : Bytes) (b : ScopeBuffer)
    → id_exists id b ≡ false
    → is_empty id ≡ false
    → lookup Bytes-discrete id b.by_id ≡ none
unfolding id_exists
id_exists-false id b e f = ground arith

module _ (json : Json) (grow : ℕ → ℕ → ℕ) (item : Item) (now : ℕ) (minted : Uuid) (s : State) where
  prepare_item-IsFresh :
      CanInsert item minted s.buf → IsFresh s.buf (prepare_item json item now minted s.buf)
  unfolding prepare_item id_tag uuid_tag
  prepare_item-IsFresh can = record {
    next_seq = omega (arith, can.seq_left);
    seq_word = can.seq_left;
    id_new = λ k e. ground (arith, can.id_free);
    uuid_new = λ k e. ground (arith, can.uuid_free);
  }

  pub insert_new_item-Kept :
      IsCoherent s.buf
      → CanInsert item minted s.buf
      → Kept s (insert_new_item json grow item now minted s)
  unfolding insert_new_item
  insert_new_item-Kept c can =
      if_intro (Kept s) (b.has_store && slt b.max_item_bytes size) (λ large. Kept-refl s _ c)
        (λ fits.
          if_intro (Kept s) r.granted
            (λ granted. record {
              coherent =
                  touched-IsCoherent _ now
                    (store_item-IsCoherent grow b stored c (prepare_item-IsFresh can));
              in_step =
                  store_item-InStep grow stored s
                    (touch_store b.has_store now (count_items b.has_store 1 r.ledger)) now
                    (λ h.
                      totals.0
                      ∙ (counted h).0
                      ∙ reserve_if-granted b.has_store size s.ledger h granted)
                    (λ h.
                      totals.1
                      ∙ (counted h).1
                      ∙ ap (λ n. add64 n 1) (reserve_if-items b.has_store size s.ledger));
            })
            (λ refused. Kept-refused s _ b.has_store size c refused))
    where
      open s use {buf as b}

      stored : Item
      stored = prepare_item json item now minted b

      size : ℕ
      size = approx_item_size stored

      r : Reservation
      r = reserve_if b.has_store size s.ledger

      totals :
          ((touch_store b.has_store now (count_items b.has_store 1 r.ledger)).total_bytes
            ≡ (count_items b.has_store 1 r.ledger).total_bytes)
          × ((touch_store b.has_store now (count_items b.has_store 1 r.ledger)).total_items
              ≡ (count_items b.has_store 1 r.ledger).total_items)
      totals = totals-touch_store b.has_store now (count_items b.has_store 1 r.ledger)

      counted :
          b.has_store ≡ true
          → ((count_items b.has_store 1 r.ledger).total_bytes ≡ r.ledger.total_bytes)
            × ((count_items b.has_store 1 r.ledger).total_items ≡ add64 r.ledger.total_items 1)
      counted h = totals-count_items b.has_store 1 r.ledger h

  -- In a scope that satisfies its invariant, has a sequence number left and does not hold the uuid
  -- that the item would get, appendItem leaves a scope that satisfies the invariant, on every
  -- branch, and moves the byte and item totals of the store by as much, modulo 2 ^ 64, as the
  -- scope's own.
  pub append_item-Kept :
      IsCoherent s.buf
      → s.buf.last_seq + 1 < word
      → lookup Bytes-discrete (adopted_uuid item minted s.buf) s.buf.by_uuid ≡ none
      → Kept s (append_item json grow item now minted s)
  unfolding append_item
  append_item-Kept c left free =
      if_intro (Kept s) s.buf.detached (λ _. Kept-refl s _ c)
        (λ _.
          if_intro (Kept s) (item_cap_exceeded s.buf (length s.buf.items + 1))
            (λ _. Kept-refl s _ c)
            (λ _.
              if_intro (Kept s) (id_exists item.id s.buf) (λ _. Kept-refl s _ c)
                (λ new. insert_new_item-Kept c (record {
                  seq_left = left;
                  id_free = id_exists-false item.id s.buf new;
                  uuid_free = free;
                }))))
