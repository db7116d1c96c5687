-- ===== src/Store/Writes/Ends.antt =====
-- When an append returns.
use scopecache.Prelude.{
  ℕ, suc, ◌+◌, ◌≡◌, refl, sym, ◌∙◌, ap, subst, Bool, true, false, Option, none, some, arith,
}
use scopecache.Item.{Bytes, Item, Result, ok, err}
use scopecache.Ledger.{events_scope_name}
use scopecache.Buffer.Write.{append_item}
use scopecache.Store.{Store, BufPtr, on_buf, get_or_create_scope_tracking_created}
use scopecache.Store.Events.{
  WriteEvent, emit_event, emit_append_event, events_enabled, event_item, settle, drop_event,
}
use scopecache.Store.Writes.{
  Env, finish_append, continue_append, append_one_trusted, answer, map_store, notify_reserved,
}
use scopecache.Uuid.{wire_uuid}
use scopecache.Store.Writes.Depth.{on_buf-StaysIn, events-off, enough-fuel, StaysIn}

-- The run had enough fuel.
abbrev pub Returns {ℓ} : {A : Type ℓ} → Option A → Type 0
Returns none = ⊥
Returns (some a) = Unit

module _ (env : Env) where
  abbrev Append : Type 0
  Append = Item → Store → Option (Result Item × Store)

  -- An append of events that answers is answered.
  settle-Returns : (o : Option (Result Item × Store)) → Returns o → Returns (settle o)
  settle-Returns none h = absurd h
  settle-Returns (some (ok item, t)) h = tt
  settle-Returns (some (err e, t)) h = tt

  answer-Returns :
      (a : Result Item) (f : Store → Store) (o : Option Store)
      → Returns o
      → Returns (answer a (map_store f o))
  answer-Returns a f none h = absurd h
  answer-Returns a f (some t) h = tt

  body-Returns :
      (f : Append) (o : Option Bytes) (t u : Store)
      → ((body : Bytes) (t : Store) → Returns (f (event_item body) t))
      → Returns (elim o [ none ↦ some u | some body ↦ settle (f (event_item body) t) ])
  body-Returns f none t u h = tt
  body-Returns f (some body) t u h = settle-Returns (f (event_item body) t) (h body t)

  emit_event-Returns :
      (f : Append) (evt : WriteEvent) (t : Store)
      → ((body : Bytes) (t : Store) → Returns (f (event_item body) t))
      → Returns (emit_event env.marshal f evt t)
  unfolding emit_event
  emit_event-Returns f evt t h = body-Returns f _ t (drop_event t) h

  emit_append_event-Returns :
      (f : Append) (scope id : Bytes) (seq ts : ℕ) (uuid payload : Bytes) (t : Store)
      → (events_enabled scope t ≡ true
          → (body : Bytes) (t : Store) → Returns (f (event_item body) t))
      → Returns (emit_append_event env.marshal f scope id seq ts uuid payload t)
  unfolding emit_append_event
  emit_append_event-Returns f scope id seq ts uuid payload t h =
      guard_intro (events_enabled scope t) _ (λ e. emit_event-Returns f _ t (h e))
    where
      guard_intro :
          (b : Bool) (x : Option Store)
          → (b ≡ true → Returns x)
          → Returns (elim b [ true ↦ x | false ↦ some t ])
      guard_intro true x k = k refl
      guard_intro false x k = tt

  finish_append-Returns :
      (f : Append) (scope : Bytes) (found : BufPtr × Bool) (r : Result Item × Store)
      → StaysIn scope r.0
      → ((t : Store)
          → events_enabled scope t ≡ true
          → (body : Bytes) (t : Store) → Returns (f (event_item body) t))
      → Returns (finish_append env f scope found r)
  unfolding finish_append StaysIn
  finish_append-Returns f scope found (err e, t) stays h = tt
  finish_append-Returns f scope found (ok item, t) stays h =
      answer-Returns (ok item) (notify_reserved item.scope) _ (
        emit_append_event-Returns f item.scope item.id item.seq item.ts (wire_uuid item.uuid)
          item.payload t (λ e. h t (ap (λ name. events_enabled name t) (sym stays) ∙ e)))

  continue_append-Returns :
      (f : Append) (depth : ℕ) (item : Item) (found : Result (BufPtr × Bool) × Store)
      → ((t : Store)
          → events_enabled item.scope t ≡ true
          → (body : Bytes) (t : Store) → Returns (f (event_item body) t))
      → Returns (continue_append env f depth item found)
  unfolding continue_append
  continue_append-Returns f depth item (err e, t) h = tt
  continue_append-Returns f depth item (ok (p, created), t) h =
      finish_append-Returns f item.scope (p, created)
        (on_buf p (append_item env.json env.grow item (env.clock depth) (env.mint depth)) t)
        (on_buf-StaysIn env depth item p t) h

  append_event-Returns :
      (depth : ℕ) (body : Bytes) (t : Store)
      → Returns (append_one_trusted env 1 depth (event_item body) t)
  unfolding append_one_trusted
  append_event-Returns depth body t =
      continue_append-Returns (append_one_trusted env 0 (depth + 1)) depth (event_item body)
        (get_or_create_scope_tracking_created events_scope_name (env.clock depth) t)
        (λ u on. absurd (ground (arith, on, events-off env u)))

  append-Returns :
      (depth : ℕ) (item : Item) (s : Store) → Returns (append_one_trusted env 2 depth item s)
  unfolding append_one_trusted
  append-Returns depth item s =
      continue_append-Returns (append_one_trusted env 1 (depth + 1)) depth item
        (get_or_create_scope_tracking_created item.scope (env.clock depth) s)
        (λ _ _ body t. append_event-Returns (depth + 1) body t)

  -- With two levels of fuel or more an append through the store returns, the append of its event
  -- included, and the result is the same for every such fuel: the event's append emits no event of
  -- its own.
  pub append_one_trusted-Returns :
      (n depth : ℕ) (item : Item) (s : Store)
      → Returns (append_one_trusted env (suc (suc n)) depth item s)
        × (append_one_trusted env (suc (suc n)) depth item s
            ≡ append_one_trusted env 2 depth item s)
  append_one_trusted-Returns n depth item s =
      let same = enough-fuel env n depth item s in
      (subst Returns (sym same) (append-Returns depth item s), same)
