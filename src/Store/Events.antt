-- ===== src/Store/Events.antt =====
-- The events of events.go: on success a mutation describes itself to the reserved scope `_events`. The
-- append of the event is an argument here, since it is the same path that emits (store.go).
use scopecache.Prelude.{ℕ, Bool, true, false, not, ◌&&◌, if◌then◌else◌, [], Option, none, some}
use scopecache.Word.{add64}
use scopecache.Item.{Bytes, same_bytes, Item, empty_item, Result, ok, err}
use scopecache.Ledger.{EventsMode, events_off, events_notify, events_scope_name}
use scopecache.Store.{Store}

pub data Op : Type 0 where
  append_op upsert_op update_op counter_add_op delete_op delete_up_to_op warm_op : Op
  delete_scope_op : Op

-- `writeEvent`; a field that is empty or 0 is left out of the JSON text.
pub record WriteEvent : Type 0 where
  pub op : Op
  pub scope : Bytes
  pub id : Bytes
  pub seq : ℕ
  pub ts : ℕ
  pub uuid : Bytes
  pub payload : Bytes
  pub by : Option ℕ
  pub max_seq : ℕ

abbrev pub plain_event : Op → Bytes → WriteEvent
plain_event op scope = record {
  op = op;
  scope = scope;
  id = [];
  seq = 0;
  ts = 0;
  uuid = [];
  payload = [];
  by = none;
  max_seq = 0;
}

abbrev is_notify : EventsMode → Bool
is_notify events_notify = true
is_notify _ = false

abbrev pub is_off : EventsMode → Bool
is_off events_off = true
is_off _ = false

unfoldable pub events_enabled : Bytes → Store → Bool
events_enabled scope s =
    not (is_off s.ledger.events_mode) && not (same_bytes scope events_scope_name)

-- `s.eventsDropsTotal.Add(1)`
unfoldable pub drop_event : Store → Store
drop_event s = record s {
  ledger = record (s.ledger) { events_drops_total = add64 (s.ledger.events_drops_total) 1 };
}

-- What is left of the append of an event: a refusal is a drop. `none` is an append without an end.
abbrev pub settle : Option (Result Item × Store) → Option Store
settle none = none
settle (some (ok item, s)) = some s
settle (some (err e, s)) = some (drop_event s)

abbrev pub event_item : Bytes → Item
event_item body = record empty_item { scope = events_scope_name; payload = body }

-- `marshal` is jsonMarshal on an event, `append` the append without validation.
module _ (marshal : WriteEvent → Option Bytes)
    (append : Item → Store → Option (Result Item × Store)) where
  unfoldable pub emit_event : WriteEvent → Store → Option Store
  unfolding drop_event
  emit_event evt s =
      let sent = if is_notify s.ledger.events_mode then record evt { payload = [] } else evt in
      elim (marshal sent) [
        | none ↦ some (drop_event s)
        | some body ↦ settle (append (event_item body) s)
      ]

  -- The guard of the emit helpers.
  abbrev when_enabled : Bytes → WriteEvent → Store → Option Store
  when_enabled scope evt s = elim (events_enabled scope s) [
    | true ↦ emit_event evt s
    | false ↦ some s
  ]

  unfoldable pub emit_append_event : Bytes → Bytes → ℕ → ℕ → Bytes → Bytes → Store → Option Store
  unfolding events_enabled emit_event
  emit_append_event scope id seq ts uuid payload =
      when_enabled scope (record (plain_event append_op scope) {
        id = id;
        seq = seq;
        ts = ts;
        uuid = uuid;
        payload = payload;
      })

  unfoldable pub emit_upsert_event : Bytes → Bytes → ℕ → ℕ → Bytes → Bytes → Store → Option Store
  unfolding events_enabled emit_event
  emit_upsert_event scope id seq ts uuid payload =
      when_enabled scope (record (plain_event upsert_op scope) {
        id = id;
        seq = seq;
        ts = ts;
        uuid = uuid;
        payload = payload;
      })

  unfoldable pub emit_update_event : Bytes → Bytes → ℕ → Bytes → Bytes → Store → Option Store
  unfolding events_enabled emit_event
  emit_update_event scope id seq uuid payload =
      when_enabled scope (record (plain_event update_op scope) {
        id = id;
        seq = seq;
        uuid = uuid;
        payload = payload;
      })

  unfoldable pub emit_counter_add_event : Bytes → Bytes → ℕ → Store → Option Store
  unfolding events_enabled emit_event
  emit_counter_add_event scope id by =
      when_enabled scope (record (plain_event counter_add_op scope) { id = id; by = some by })

  unfoldable pub emit_delete_event : Bytes → Bytes → ℕ → Bytes → Store → Option Store
  unfolding events_enabled emit_event
  emit_delete_event scope id seq uuid =
      when_enabled scope (record (plain_event delete_op scope) { id = id; seq = seq; uuid = uuid })

  unfoldable pub emit_delete_up_to_event : Bytes → ℕ → Bytes → Store → Option Store
  unfolding events_enabled emit_event
  emit_delete_up_to_event scope max_seq uuid =
      when_enabled scope
        (record (plain_event delete_up_to_op scope) { uuid = uuid; max_seq = max_seq })

  -- A batch names no scope.
  unfoldable pub emit_warm_event : ℕ → Store → Option Store
  unfolding emit_event
  emit_warm_event now s = elim (is_off s.ledger.events_mode) [
    | true ↦ some s
    | false ↦ emit_event (record (plain_event warm_op []) { ts = now }) s
  ]

  unfoldable pub emit_delete_scope_event : Bytes → ℕ → Store → Option Store
  unfolding events_enabled emit_event
  emit_delete_scope_event scope now =
      when_enabled scope (record (plain_event delete_scope_op scope) { ts = now })
