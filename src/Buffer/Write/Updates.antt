-- ===== src/Buffer/Write/Updates.antt =====
-- The replacing writes, update by id, seq or uuid and upsert, keep the invariant of the scope and the
-- totals of the store in step.
use scopecache.Prelude.{
  ℕ, ◌+◌, ◌%◌, ◌<◌, ◌≡◌, refl, sym, ◌∙◌, ap, subst, true, false, not, ◌==◌, ◌&&◌, Option, none,
  some, length, get_elem?, Bool-cases, if_intro, option_intro, inl, inr, arith, ℕ_discrete,
}
use scopecache.Word.{word, sub64}
use scopecache.Map.{lookup}
use scopecache.Item.{
  Bytes, Bytes-discrete, Uuid, Item, Json, render_or_precompute, payload_and_render_bytes, Error,
  Result, ok, err,
}
use scopecache.Item.Sizes.{approx_item_size-replace}
use scopecache.Ledger.{Ledger, Reservation}
use scopecache.Buffer.{Ptr, State}
use scopecache.Buffer.Locked.{
  ptr_at, item_at, reserve_if, reserve_payload_delta, replace_item_at_index, adopted_uuid,
  item_cap_exceeded,
}
use scopecache.Buffer.Write.{
  replace_payload, new_payload_bytes, finish_replace, as_count, as_upserted, as_created,
  upsert_by_id, update_by_id, update_checked, exceeds_item_cap, update_by_seq, update_by_uuid,
}
use scopecache.Buffer.Order.{get_or_of_get}
use scopecache.Buffer.Invariant.{
  IsCoherent, put_item-IsCoherent, Located, locate_id, locate_seq, locate_uuid,
}
use scopecache.Buffer.Kept.{
  InStep, Kept, Kept-refl, reserve_if-granted, reserve_if-items, reserve_if-refused,
  reserve_if-skipped, totals-touch_store,
}
use scopecache.Buffer.Write.Keeps.{insert_new_item-Kept}

module _ (old_size new_size : ℕ) (s : State) where
  -- The reservation that the change in size asks for; none at all if there is no change.
  abbrev pub delta_reservation : Reservation
  delta_reservation =
      reserve_if (s.buf.has_store && not (sub64 new_size old_size == 0)) (sub64 new_size old_size)
        s.ledger

  pub reserve_payload_delta-granted :
      delta_reservation.granted ≡ true
      → reserve_payload_delta old_size new_size s
        ≡ (ok (sub64 new_size old_size), record s { ledger = delta_reservation.ledger })
  unfolding reserve_payload_delta
  reserve_payload_delta-granted g = rw g

  pub reserve_payload_delta-refused :
      delta_reservation.granted ≡ false
      → reserve_payload_delta old_size new_size s ≡ (
        err (
            Error.store_full delta_reservation.current
              (sub64 new_size old_size)
              delta_reservation.cap),
        s,
      )
  unfolding reserve_payload_delta
  reserve_payload_delta-refused g = rw (
    g,
    reserve_if-refused (s.buf.has_store && not (sub64 new_size old_size == 0))
        (sub64 new_size old_size) s.ledger g,
  )

  -- Granted, the total moves by the change, also where the change is 0 and nothing is reserved.
  pub delta_reservation-total :
      s.buf.has_store ≡ true
      → delta_reservation.granted ≡ true
      → delta_reservation.ledger.total_bytes % word
        ≡ (s.ledger.total_bytes + sub64 new_size old_size) % word
  delta_reservation-total h g = ground (
    arith,
    reserve_if-granted (s.buf.has_store && not (sub64 new_size old_size == 0))
        (sub64 new_size old_size) s.ledger,
    reserve_if-skipped (s.buf.has_store && not (sub64 new_size old_size == 0))
        (sub64 new_size old_size) s.ledger,
  )

module _ (payload : Bytes) (render : Option Bytes) (now : ℕ) (s : State)
    (c : IsCoherent s.buf) where
  -- The write through the pointer at an index, with the byte counter moved by the change in size.
  pub replace_item_at_index-IsCoherent :
      (i : ℕ) {p : Ptr} (l : Ledger)
      → get_elem? s.buf.items i ≡ some p
      → IsCoherent
          (replace_item_at_index i payload now render
            (sub64 (new_payload_bytes payload render) (payload_and_render_bytes (s.buf.heap p)))
            (record s { ledger = l })).buf
  unfolding replace_item_at_index
  replace_item_at_index-IsCoherent i {p} l stands =
      let at : ptr_at s.buf i ≡ p = get_or_of_get s.buf.items i stands in
      put_item-IsCoherent s.buf i (ptr_at s.buf i) _ _ now c (stands ∙ ap some (sym at))
        (record { same_id = refl; same_seq = refl; same_uuid = refl })
        (omega (
          arith,
          approx_item_size-replace (item_at s.buf i) payload render now,
          ap (λ q. payload_and_render_bytes (s.buf.heap q)) at,
        ))
        (omega arith)

  replace_item_at_index-InStep :
      (i : ℕ) (p : Ptr)
      → let old_size = payload_and_render_bytes (s.buf.heap p) in
        let new_size = new_payload_bytes payload render in
        (delta_reservation old_size new_size s).granted ≡ true
        → InStep s (
            replace_item_at_index i payload now render
              (sub64 new_size old_size)
              (record s { ledger = (delta_reservation old_size new_size s).ledger }))
  unfolding replace_item_at_index
  replace_item_at_index-InStep i p granted =
      let old_size = payload_and_render_bytes (s.buf.heap p) in
      let new_size = new_payload_bytes payload render in
      let r = delta_reservation old_size new_size s in
      let totals = totals-touch_store s.buf.has_store now r.ledger in
      record {
        wired = refl;
        alive = refl;
        bytes_in_step =
            λ h. omega (arith, totals.0, delta_reservation-total old_size new_size s h granted);
        items_in_step = λ h. omega (
          arith,
          totals.1,
          reserve_if-items (s.buf.has_store && not (sub64 new_size old_size == 0))
              (sub64 new_size old_size) s.ledger,
        );
      }

  pub replace_payload-Kept :
      {p : Ptr}
      → Located s.buf p
      → Kept s (replace_payload (s.buf.heap p) (s.buf.heap p).seq payload render now s)
  unfolding replace_payload
  replace_payload-Kept {p} at =
      let old_size = payload_and_render_bytes (s.buf.heap p) in
      let new_size = new_payload_bytes payload render in
      elim (Bool-cases (delta_reservation old_size new_size s).granted) [
        | inr refused ↦
            rw
              (
                reserve_payload_delta-refused old_size new_size s refused,
                replace_payload,
                finish_replace,
              )
              (Kept-refl s _ c)
        | inl granted ↦
            rw
              (
                reserve_payload_delta-granted old_size new_size s granted,
                at.searched,
                replace_payload,
                finish_replace,
              )
              (record {
                coherent = replace_item_at_index-IsCoherent at.index _ at.stands;
                in_step = replace_item_at_index-InStep at.index p granted;
              })
      ]

module _ (s : State) where
  as_count-Kept : (r : Result (Option ℕ) × State) → Kept s r → Kept s (as_count r)
  as_count-Kept (err e, t) k = record { coherent = k.coherent; in_step = k.in_step }
  as_count-Kept (ok none, t) k = record { coherent = k.coherent; in_step = k.in_step }
  as_count-Kept (ok (some i), t) k = record { coherent = k.coherent; in_step = k.in_step }

  as_upserted-Kept : (r : Result (Option ℕ) × State) → Kept s r → Kept s (as_upserted r)
  as_upserted-Kept (err e, t) k = record { coherent = k.coherent; in_step = k.in_step }
  as_upserted-Kept (ok none, t) k = record { coherent = k.coherent; in_step = k.in_step }
  as_upserted-Kept (ok (some i), t) k = record { coherent = k.coherent; in_step = k.in_step }

  as_created-Kept : (r : Result Item × State) → Kept s r → Kept s (as_created r)
  as_created-Kept (err e, t) k = record { coherent = k.coherent; in_step = k.in_step }
  as_created-Kept (ok item, t) k = record { coherent = k.coherent; in_step = k.in_step }

module _ (json : Json) (payload : Bytes) (pre : Option Bytes) (now : ℕ) (s : State)
    (c : IsCoherent s.buf) where
  -- In a scope that satisfies its invariant, updateByID leaves a scope that satisfies it, whether
  -- it writes, misses or is refused, and moves the byte and item totals of the store by as much,
  -- modulo 2 ^ 64, as the scope's own.
  pub update_by_id-Kept : (id : Bytes) → Kept s (update_by_id json id payload pre now s)
  unfolding update_by_id
  update_by_id-Kept id =
      if_intro (Kept s) s.buf.detached (λ _. Kept-refl s _ c)
        (λ _.
          option_intro (Kept s) (lookup Bytes-discrete id s.buf.by_id) (λ _. Kept-refl s _ c)
            (λ p e. as_count-Kept s _ (
              replace_payload-Kept payload (render_or_precompute json pre payload) now s c
                (locate_id s.buf c id e))))

  update_checked-Kept :
      {p : Ptr}
      → Located s.buf p
      → Kept s (update_checked json (s.buf.heap p) (s.buf.heap p).seq payload pre now s)
  unfolding update_checked
  update_checked-Kept {p} at =
      let render = render_or_precompute json pre payload in
      if_intro (Kept s) (exceeds_item_cap (s.buf.heap p) payload render s) (λ _. Kept-refl s _ c)
        (λ _. as_count-Kept s _ (replace_payload-Kept payload render now s c at))

  -- The same for `update` by sequence number.
  pub update_by_seq-Kept : (seq : ℕ) → Kept s (update_by_seq json seq payload pre now s)
  unfolding update_by_seq
  update_by_seq-Kept seq =
      if_intro (Kept s) s.buf.detached (λ _. Kept-refl s _ c)
        (λ _.
          option_intro (Kept s) (lookup ℕ_discrete seq s.buf.by_seq) (λ _. Kept-refl s _ c)
            (λ p e.
              let (at, same) = locate_seq s.buf c seq e in
              subst (λ n. Kept s (update_checked json (s.buf.heap p) n payload pre now s)) same
                (update_checked-Kept at)))

  -- The same for `update` by uuid.
  pub update_by_uuid-Kept : (u : Uuid) → Kept s (update_by_uuid json u payload pre now s)
  unfolding update_by_uuid
  update_by_uuid-Kept u =
      if_intro (Kept s) s.buf.detached (λ _. Kept-refl s _ c)
        (λ _.
          option_intro (Kept s) (lookup Bytes-discrete u s.buf.by_uuid) (λ _. Kept-refl s _ c)
            (λ p e. update_checked-Kept (locate_uuid s.buf c u e)))

-- In a scope that satisfies its invariant, has a sequence number left and does not hold the uuid
-- that a new item would get, upsertByID leaves a scope that satisfies the invariant, whether it
-- replaces, creates or is refused, and moves the byte and item totals of the store by as much,
-- modulo 2 ^ 64, as the scope's own.
pub upsert_by_id-Kept :
    (json : Json) (grow : ℕ → ℕ → ℕ) (item : Item) (now : ℕ) (minted : Uuid) (s : State)
    → IsCoherent s.buf
    → s.buf.last_seq + 1 < word
    → lookup Bytes-discrete (adopted_uuid item minted s.buf) s.buf.by_uuid ≡ none
    → Kept s (upsert_by_id json grow item now minted s)
unfolding upsert_by_id
upsert_by_id-Kept json grow item now minted s c left free =
    if_intro (Kept s) s.buf.detached (λ _. Kept-refl s _ c)
      (λ _.
        option_intro (Kept s) (lookup Bytes-discrete item.id s.buf.by_id)
          (λ new.
            if_intro (Kept s) (item_cap_exceeded s.buf (length s.buf.items + 1))
              (λ _. Kept-refl s _ c)
              (λ _. as_created-Kept s _ (
                insert_new_item-Kept json grow item now minted s c
                  (record { seq_left = left; id_free = λ e. new; uuid_free = free }))))
          (λ p e. as_upserted-Kept s _ (
            replace_payload-Kept item.payload
              (render_or_precompute json item.render_bytes item.payload) now s c
              (locate_id s.buf c item.id e))))
