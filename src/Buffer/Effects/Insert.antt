-- ===== src/Buffer/Effects/Insert.antt =====
-- `/append` adds one item at the end of the scope.
use scopecache.Prelude.{
  ℕ, ◌+◌, ◌<◌, ◌≡◌, refl, sym, ◌∙◌, ap, ap₂, ◌&&◌, List, [], ◌∷◌, ◌++◌, map, All, length, if_intro,
  arith,
}
use mathlib.Core.List.{map-append}
use scopecache.Word.{word, slt}
use scopecache.Item.{Uuid, Item, Json, approx_item_size}
use scopecache.Ledger.{Reservation}
use scopecache.Buffer.{Ptr, Heap, put_item, State, get-put_item_self}
use scopecache.Buffer.Locked.{reserve_if, prepare_item, insert_new_item, item_cap_exceeded}
use scopecache.Buffer.Write.{id_exists, append_item}
use scopecache.Buffer.Invariant.{IsCoherent}
use scopecache.Buffer.Insert.{old-unchanged}
use scopecache.Buffer.Contents.{contents, map-ext}
use scopecache.Buffer.Effects.{Effect, Effect-ok, Effect-err, Effect-refused}

-- A new last item with the caller's content and the next sequence number, stamped with the time.
pub record Appended (given : Item) (now : ℕ) (s : State) (item : Item) (t : State) : Type 0 where
  pub appended : contents t.buf ≡ contents s.buf ++ (item ∷ [])
  pub next_seq : item.seq ≡ s.buf.last_seq + 1
  pub last_seq : t.buf.last_seq ≡ item.seq
  pub same_scope : item.scope ≡ given.scope
  pub same_id : item.id ≡ given.id
  pub same_payload : item.payload ≡ given.payload
  pub stamped : item.ts ≡ now
  pub touched : t.buf.last_write_ts ≡ now

pub contents-store_item :
    (item : Item) (heap : Heap) (p : Ptr) (xs : List Ptr)
    → All (λ q. q < p) xs
    → map (put_item p item heap) (xs ++ (p ∷ [])) ≡ map heap xs ++ (item ∷ [])
contents-store_item item heap p xs old =
    map-append (put_item p item heap) xs (p ∷ [])
    ∙ ap₂ ◌++◌ (sym (map-ext (put_item p item heap) heap xs (old-unchanged p item heap xs old)))
        (ap (λ x. x ∷ []) (get-put_item_self p item heap))

module _ (json : Json) (grow : ℕ → ℕ → ℕ) (given : Item) (now : ℕ) (minted : Uuid) (s : State) where
  pub insert_new_item-Effect :
      IsCoherent s.buf
      → s.buf.last_seq + 1 < word
      → Effect s (Appended given now s) (insert_new_item json grow given now minted s)
  unfolding insert_new_item
  insert_new_item-Effect c left =
      if_intro (Effect s (Appended given now s)) (b.has_store && slt b.max_item_bytes size)
        (λ large. Effect-err _)
        (λ fits.
          if_intro (Effect s (Appended given now s)) r.granted
            (λ granted. Effect-ok stored (record {
              appended = contents-store_item stored b.heap b.next b.items c.allocated;
              next_seq = omega (arith, left);
              last_seq = refl;
              same_scope = refl;
              same_id = refl;
              same_payload = refl;
              stamped = refl;
              touched = refl;
            }))
            (λ no_room. Effect-refused _ b.has_store size no_room))
    where
      open s use {buf as b}

      stored : Item
      stored = prepare_item json given now minted b

      size : ℕ
      size = approx_item_size stored

      r : Reservation
      r = reserve_if b.has_store size s.ledger

  -- In a scope that satisfies its invariant and has a sequence number left, appendItem either
  -- returns an error and leaves the state as it was, or returns an item with the caller's scope, id
  -- and payload, the next sequence number and the time of the call, which then stands last in the
  -- scope's list of items behind the others, unchanged.
  pub append_item-Effect :
      IsCoherent s.buf
      → s.buf.last_seq + 1 < word
      → Effect s (Appended given now s) (append_item json grow given now minted s)
  unfolding append_item
  append_item-Effect c left =
      if_intro (Effect s (Appended given now s)) s.buf.detached (λ _. Effect-err _)
        (λ _.
          if_intro (Effect s (Appended given now s))
            (item_cap_exceeded s.buf (length s.buf.items + 1)) (λ _. Effect-err _)
            (λ _.
              if_intro (Effect s (Appended given now s)) (id_exists given.id s.buf)
                (λ _. Effect-err _) (λ _. insert_new_item-Effect c left)))
