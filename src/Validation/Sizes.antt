-- ===== src/Validation/Sizes.antt =====
-- The size that the validator charges an append for, and the size of the item that is stored.
use scopecache.Prelude.{
  ℕ, ◌+◌, ◌≡◌, ◌≢◌, refl, sym, ◌∙◌, ap, Bool, true, false, not, ◌&&◌, ◌==◌, Option, none, some,
  length, arith, if_intro,
}
use scopecache.Word.{slt}
use scopecache.Item.{
  Bytes, Uuid, Item, Json, is_zero, uuid_cost, approx_item_size, same_bytes, render_or_precompute,
  precompute_render_bytes, Error, Result, err,
}
use scopecache.Buffer.{State, ScopeBuffer}
use scopecache.Buffer.Locked.{prepare_item, insert_new_item, reserve_if, item_cap_exceeded}
use scopecache.Buffer.Write.{append_item, id_exists}
use scopecache.Validation.{
  Reason, ◌or_else◌, refuse_if, check_item_size, charged_size, with_render, append_endpoint,
  validate_scope, validate_id, validate_payload, reserved, seq_managed, uuid_managed, size_exceeded,
}
use scopecache.Validation.Requests.{
  validate_write_item, check_write_uuid, reject_client_uuid, reject_client_ts, is_append,
}
use scopecache.Ledger.{events_scope_name}

or_else-none : (a b : Option Reason) → (a or_else b) ≡ none → (a ≡ none) × (b ≡ none)
or_else-none none b e = (refl, e)
or_else-none (some r) b e = absurd (ground arith)

refuse_if-none : (b : Bool) (r : Reason) → refuse_if b r ≡ none → b ≡ false
refuse_if-none true r e = absurd (ground arith)
refuse_if-none false r e = refl

last_two :
    (a b c d e f g h : Option Reason)
    → (a or_else b or_else c or_else d or_else e or_else f or_else g or_else h) ≡ none
    → (g ≡ none) × (h ≡ none)
last_two a b c d e f g h all =
    let in_b = or_else-none a (b or_else c or_else d or_else e or_else f or_else g or_else h) all in
    let in_c = or_else-none b (c or_else d or_else e or_else f or_else g or_else h) in_b.1 in
    let in_d = or_else-none c (d or_else e or_else f or_else g or_else h) in_c.1 in
    let in_e = or_else-none d (e or_else f or_else g or_else h) in_d.1 in
    let in_f = or_else-none e (f or_else g or_else h) in_e.1 in
    let in_g = or_else-none f (g or_else h) in_f.1 in or_else-none g h in_g.1

-- The last two checks of an accepted append.
accepted_append :
    (json : Json) (item : Item) (cap : ℕ)
    → (validate_write_item json item append_endpoint cap).0 ≡ none
    → (is_zero item.uuid ≡ true) × (slt cap (charged_size (with_render json item)) ≡ false)
unfolding validate_write_item check_write_uuid reject_client_uuid check_item_size
accepted_append json item cap e =
    let last =
      last_two (validate_scope item.scope)
        (refuse_if (is_append append_endpoint && same_bytes item.scope events_scope_name)
          (reserved append_endpoint))
        (validate_id item.id) (validate_payload json item.payload)
        (refuse_if (not (item.seq == 0)) (seq_managed append_endpoint))
        (reject_client_ts item append_endpoint) (reject_client_uuid item append_endpoint)
        (check_item_size json item cap) e in
    (
      not-false (is_zero item.uuid) (refuse_if-none _ (uuid_managed append_endpoint) last.0),
      refuse_if-none _ (size_exceeded (charged_size (with_render json item)) cap) last.1,
    )
  where
    not-false : (b : Bool) → not b ≡ false → b ≡ true
    not-false true h = refl
    not-false false h = sym h

rendered_twice :
    (json : Json) (r : Option Bytes) (payload : Bytes)
    → render_or_precompute json (render_or_precompute json r payload) payload
      ≡ render_or_precompute json r payload
unfolding render_or_precompute
rendered_twice json (some bs) payload = refl
rendered_twice json none payload = still (precompute_render_bytes json payload) refl
  where
    still :
        (o : Option Bytes)
        → precompute_render_bytes json payload ≡ o
        → render_or_precompute json o payload ≡ o
    still none e = e
    still (some bs) e = refl

charged_size-prepared :
    (json : Json) (item : Item) (now : ℕ) (minted : Uuid) (b : ScopeBuffer)
    → b.has_store ≡ true
    → is_zero item.uuid ≡ true
    → is_zero minted ≡ false
    → item.counter ≡ none
    → approx_item_size (prepare_item json (with_render json item) now minted b)
      ≡ charged_size (with_render json item)
unfolding prepare_item with_render charged_size approx_item_size uuid_cost
charged_size-prepared json item now minted b wired no_uuid fresh plain =
    ground (arith, rendered_twice json item.render_bytes item.payload)

-- The result is not the refusal by the cap on one item.
abbrev pub IsWithinItemCap : Result Item × State → Type 0
IsWithinItemCap r = (size cap : ℕ) → r.0 ≢ err (Error.item_too_large size cap)

-- An item without a counter that the validator of /append accepts under the cap of a store-attached
-- scope is never refused by appendItem for its size, with a uuid minted for it that is not zero:
-- the validator charges for the uuid and the rendered bytes that the insert adds.
pub append_item-validated :
    (json : Json) (grow : ℕ → ℕ → ℕ) (item : Item) (now : ℕ) (minted : Uuid) (s : State)
    → s.buf.has_store ≡ true
    → item.counter ≡ none
    → is_zero minted ≡ false
    → (validate_write_item json item append_endpoint s.buf.max_item_bytes).0 ≡ none
    → IsWithinItemCap (
        append_item json grow
          (validate_write_item json item append_endpoint s.buf.max_item_bytes).1
          now
          minted
          s)
unfolding append_item insert_new_item validate_write_item
append_item-validated json grow item now minted s wired plain fresh e =
    let (no_uuid, fits) = accepted_append json item s.buf.max_item_bytes e in
    let given = with_render json item in
    let same = charged_size-prepared json item now minted s.buf wired no_uuid fresh plain in
    let within = ap (slt s.buf.max_item_bytes) same ∙ fits in
    let size = approx_item_size (prepare_item json given now minted s.buf) in
    if_intro IsWithinItemCap s.buf.detached (λ _ n m. cc)
      (λ _.
        if_intro IsWithinItemCap (item_cap_exceeded s.buf (length s.buf.items + 1)) (λ _ n m. cc)
          (λ _.
            if_intro IsWithinItemCap (id_exists given.id s.buf) (λ _ n m. cc)
              (λ _.
                if_intro IsWithinItemCap (s.buf.has_store && slt s.buf.max_item_bytes size)
                  (λ over. absurd (ground arith))
                  (λ _.
                    if_intro IsWithinItemCap (reserve_if s.buf.has_store size s.ledger).granted
                      (λ _ n m. cc) (λ _ n m. cc)))))
