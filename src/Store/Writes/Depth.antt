-- ===== src/Store/Writes/Depth.antt =====
-- The append of an event, and the fuel that appends use.
use scopecache.Prelude.{
  ℕ, suc, ◌+◌, ◌≡◌, refl, sym, ◌∙◌, ap, Bool, true, false, not, ◌&&◌, Option, none, some, arith,
  ite_intro,
}
use scopecache.Item.{Bytes, Bytes-discrete, Uuid, Item, Json, same_bytes, Result, ok, err}
use scopecache.Ledger.{events_scope_name}
use scopecache.Buffer.{State}
use scopecache.Buffer.Locked.{insert_new_item}
use scopecache.Buffer.Write.{append_item}
use scopecache.Store.{Store, BufPtr, on_buf, get_or_create_scope_tracking_created}
use scopecache.Store.Events.{
  WriteEvent, emit_event, emit_append_event, events_enabled, is_off, event_item, settle, drop_event,
}
use scopecache.Store.Writes.{
  Env, finish_append, continue_append, append_one_trusted, answer, map_store, notify_reserved,
}
use scopecache.Uuid.{wire_uuid}

-- An item that was appended stays in the scope that it was given.
unfoldable pub StaysIn : Bytes → Result Item → Type 0
StaysIn scope (ok item) = item.scope ≡ scope
StaysIn scope (err e) = Unit

append_item-scope :
    (json : Json) (grow : ℕ → ℕ → ℕ) (item : Item) (now : ℕ) (minted : Uuid) (s : State)
    → StaysIn item.scope (append_item json grow item now minted s).0
unfolding append_item insert_new_item StaysIn
append_item-scope json grow item now minted s = ground arith

same_bytes_self : (text : Bytes) → same_bytes text text ≡ true
unfolding same_bytes
same_bytes_self text =
    ite_intro (λ b. b ≡ true) (Bytes-discrete text text) (λ _. refl) (λ ne. absurd (ne refl))

second-off : (a b : Bool) → b ≡ true → (a && not b) ≡ false
second-off a b e = ground arith

module _ (env : Env) where
  abbrev Append : Type 0
  Append = Item → Store → Option (Result Item × Store)

  body-ext :
      (f g : Append) (o : Option Bytes) (t u : Store)
      → ((body : Bytes) (t : Store) → f (event_item body) t ≡ g (event_item body) t)
      → elim o [ none ↦ some u | some body ↦ settle (f (event_item body) t) ]
        ≡ elim o [ none ↦ some u | some body ↦ settle (g (event_item body) t) ]
  body-ext f g none t u same = refl
  body-ext f g (some body) t u same = ap settle (same body t)

  emit_event-ext :
      (f g : Append) (evt : WriteEvent) (t : Store)
      → ((body : Bytes) (t : Store) → f (event_item body) t ≡ g (event_item body) t)
      → emit_event env.marshal f evt t ≡ emit_event env.marshal g evt t
  unfolding emit_event
  emit_event-ext f g evt t same = body-ext f g _ t (drop_event t) same

  guard-ext :
      (b : Bool) (x y z : Option Store)
      → x ≡ y
      → elim b [ true ↦ x | false ↦ z ] ≡ elim b [ true ↦ y | false ↦ z ]
  guard-ext true x y z e = e
  guard-ext false x y z e = refl

  guard_off : (b : Bool) (x y : Option Store) → b ≡ false → elim b [ true ↦ x | false ↦ y ] ≡ y
  guard_off true x y e = absurd (ground arith)
  guard_off false x y e = refl

  emit_append_event-ext :
      (f g : Append) (scope id : Bytes) (seq ts : ℕ) (uuid payload : Bytes) (t : Store)
      → ((body : Bytes) (t : Store) → f (event_item body) t ≡ g (event_item body) t)
      → emit_append_event env.marshal f scope id seq ts uuid payload t
        ≡ emit_append_event env.marshal g scope id seq ts uuid payload t
  unfolding emit_append_event
  emit_append_event-ext f g scope id seq ts uuid payload t same =
      guard-ext (events_enabled scope t) _ _ (some t) (emit_event-ext f g _ t same)

  emit_append_event_off :
      (f : Append) (scope id : Bytes) (seq ts : ℕ) (uuid payload : Bytes) (t : Store)
      → events_enabled scope t ≡ false
      → emit_append_event env.marshal f scope id seq ts uuid payload t ≡ some t
  unfolding emit_append_event
  emit_append_event_off f scope id seq ts uuid payload t off =
      guard_off (events_enabled scope t) _ _ off

  pub events-off : (t : Store) → events_enabled events_scope_name t ≡ false
  unfolding events_enabled same_bytes
  events-off t =
      second-off (not (is_off t.ledger.events_mode))
        (same_bytes events_scope_name events_scope_name) (same_bytes_self events_scope_name)

  -- Two appends that agree on the items of `_events` finish alike.
  finish_append-ext :
      (f g : Append) (scope : Bytes) (found : BufPtr × Bool) (r : Result Item × Store)
      → ((body : Bytes) (t : Store) → f (event_item body) t ≡ g (event_item body) t)
      → finish_append env f scope found r ≡ finish_append env g scope found r
  unfolding finish_append
  finish_append-ext f g scope found (err e, t) same = refl
  finish_append-ext f g scope found (ok item, t) same =
      ap (λ o. answer (ok item) (map_store (notify_reserved item.scope) o))
        (emit_append_event-ext f g item.scope item.id item.seq item.ts (wire_uuid item.uuid)
          item.payload t same)

  -- In the scope of the events itself the append of events is not used.
  finish_append_silent :
      (f g : Append) (found : BufPtr × Bool) (r : Result Item × Store)
      → StaysIn events_scope_name r.0
      → finish_append env f events_scope_name found r
        ≡ finish_append env g events_scope_name found r
  unfolding finish_append StaysIn
  finish_append_silent f g found (err e, t) stays = refl
  finish_append_silent f g found (ok item, t) stays =
      let off = ap (λ name. events_enabled name t) stays ∙ events-off t in
      let quiet = λ (h : Append).
        ap (λ o. answer (ok item) (map_store (notify_reserved item.scope) o))
          (emit_append_event_off h item.scope item.id item.seq item.ts (wire_uuid item.uuid)
            item.payload t off) in
      quiet f ∙ sym (quiet g)

  pub on_buf-StaysIn :
      (depth : ℕ) (item : Item) (p : BufPtr) (t : Store)
      → StaysIn item.scope
          (on_buf p (append_item env.json env.grow item (env.clock depth) (env.mint depth)) t).0
  unfolding on_buf
  on_buf-StaysIn depth item p t =
      append_item-scope env.json env.grow item (env.clock depth) (env.mint depth)
        (record { ledger = t.ledger; buf = t.bufs p })

  continue_silent :
      (f g : Append) (depth : ℕ) (body : Bytes) (found : Result (BufPtr × Bool) × Store)
      → continue_append env f depth (event_item body) found
        ≡ continue_append env g depth (event_item body) found
  unfolding continue_append
  continue_silent f g depth body (err e, t) = refl
  continue_silent f g depth body (ok (p, created), t) =
      finish_append_silent f g (p, created) _ (on_buf-StaysIn depth (event_item body) p t)

  -- The fuel of an append to `_events` does not matter, beyond the one level.
  append_event-ext :
      (n m depth : ℕ) (body : Bytes) (t : Store)
      → append_one_trusted env (suc n) depth (event_item body) t
        ≡ append_one_trusted env (suc m) depth (event_item body) t
  unfolding append_one_trusted
  append_event-ext n m depth body t =
      continue_silent (append_one_trusted env n (depth + 1)) (append_one_trusted env m (depth + 1))
        depth body (get_or_create_scope_tracking_created events_scope_name (env.clock depth) t)

  continue_append-ext :
      (f g : Append) (depth : ℕ) (item : Item) (found : Result (BufPtr × Bool) × Store)
      → ((body : Bytes) (t : Store) → f (event_item body) t ≡ g (event_item body) t)
      → continue_append env f depth item found ≡ continue_append env g depth item found
  unfolding continue_append
  continue_append-ext f g depth item (err e, t) same = refl
  continue_append-ext f g depth item (ok (p, created), t) same =
      finish_append-ext f g item.scope (p, created)
        (on_buf p (append_item env.json env.grow item (env.clock depth) (env.mint depth)) t) same

  pub enough-fuel :
      (n depth : ℕ) (item : Item) (s : Store)
      → append_one_trusted env (suc (suc n)) depth item s ≡ append_one_trusted env 2 depth item s
  unfolding append_one_trusted
  enough-fuel n depth item s =
      continue_append-ext (append_one_trusted env (suc n) (depth + 1))
        (append_one_trusted env 1 (depth + 1)) depth item
        (get_or_create_scope_tracking_created item.scope (env.clock depth) s)
        (λ body t. append_event-ext n 0 (depth + 1) body t)
