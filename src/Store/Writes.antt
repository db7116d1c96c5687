-- ===== src/Store/Writes.antt =====
-- The write paths of the store (store.go): each validates its request, finds or makes the scope, runs the
-- operation on its buffer, rolls a fresh scope back on failure, and emits the event on success.
pub mod Depth
pub mod Ends
pub mod Rollback
use scopecache.Prelude.{
  ℕ, zero, suc, ◌+◌, Bool, true, false, not, ltb, ◌==◌, if◌then◌else◌, List, [], Option, none, some,
}
use scopecache.Item.{Bytes, Uuid, Item, empty_item, Json, is_empty, is_zero, Error, Result, ok, err}
use scopecache.Uuid.{wire_uuid, parse_uuid_v7}
use scopecache.Ledger.{is_reserved_scope, max_item_bytes_for, bump_last_write_ts}
use scopecache.Buffer.{State}
use scopecache.Buffer.Write.{append_item, upsert_by_id, update_by_id, update_by_seq, update_by_uuid}
use scopecache.Buffer.Delete.{
  delete_by_id, delete_by_seq, delete_by_uuid, delete_up_to_seq, delete_up_to_uuid,
}
use scopecache.Buffer.Counter.{counter_add}
use scopecache.Validation.{Reason, append_endpoint}
use scopecache.Validation.Requests.{
  validate_write_item, validate_upsert_item, validate_update_item, validate_counter_add_request,
  validate_delete_request, validate_delete_up_to_request, validate_delete_scope_request,
}
use scopecache.Store.{
  Store, BufPtr, on_buf, get_scope, get_or_create_scope_tracking_created,
  cleanup_if_empty_and_unused, tick,
}
use scopecache.Store.Scopes.{remove_scope}
use scopecache.Store.Subscribe.{notify_subscriber}
use scopecache.Store.Events.{
  WriteEvent, emit_append_event, emit_upsert_event, emit_update_event, emit_counter_add_event,
  emit_delete_event, emit_delete_up_to_event, emit_delete_scope_event,
}

-- What a write path answers: a refusal by the validator, an error of the scope or the store, or success.
pub data Outcome {ℓ} (A : Type ℓ) : Type ℓ where
  rejected : Reason → Outcome A
  failed : Error → Outcome A
  done : A → Outcome A

-- What the write paths take from outside: JSON, the growth of slices, the text of an event, and the
-- times and uuids, of which an append and the append of its event each take one.
pub record Env : Type 0 where
  pub json : Json
  pub grow : ℕ → ℕ → ℕ
  pub marshal : WriteEvent → Option Bytes
  pub clock : ℕ → ℕ
  pub mint : ℕ → Uuid

-- `if created { s.cleanupIfEmptyAndUnused(scope, buf) }`
abbrev pub roll_back : Bool → Bytes → BufPtr → Store → Store
roll_back true scope p s = cleanup_if_empty_and_unused scope p s
roll_back false scope p s = s

abbrev pub notify_reserved : Bytes → Store → Store
notify_reserved scope s = if is_reserved_scope scope then notify_subscriber scope s else s

abbrev pub answer {ℓ} : {A : Type ℓ} → A → Option Store → Option (A × Store)
answer a none = none
answer a (some s) = some (a, s)

abbrev pub map_store : (Store → Store) → Option Store → Option Store
map_store f none = none
map_store f (some s) = some (f s)

module _ (env : Env) where
  -- The rest of an append, behind the scope's own: the event and the signal, or the rollback. `append`
  -- is the append of the event.
  unfoldable pub finish_append :
      (Item → Store → Option (Result Item × Store))
      → Bytes
      → BufPtr × Bool
      → Result Item × Store
      → Option (Result Item × Store)
  unfolding emit_append_event wire_uuid notify_subscriber cleanup_if_empty_and_unused
  finish_append append scope (p, created) (err e, s) = some (err e, roll_back created scope p s)
  finish_append append scope (p, created) (ok item, s) = answer (ok item) (
      map_store (notify_reserved item.scope) (
        emit_append_event env.marshal append item.scope item.id item.seq item.ts
          (wire_uuid item.uuid) item.payload s))

  -- The append to the scope that was found or created.
  unfoldable pub continue_append :
      (Item → Store → Option (Result Item × Store))
      → ℕ
      → Item
      → Result (BufPtr × Bool) × Store
      → Option (Result Item × Store)
  unfolding append_item on_buf finish_append
  continue_append append depth item (err e, s) = some (err e, s)
  continue_append append depth item (ok (p, created), s) =
      finish_append append item.scope (p, created)
        (on_buf p (append_item env.json env.grow item (env.clock depth) (env.mint depth)) s)

  -- `appendOneTrusted`, on fuel for the append of its event; `none` is out of fuel. `depth` counts the
  -- appends that this one stands in.
  unfoldable pub append_one_trusted : ℕ → ℕ → Item → Store → Option (Result Item × Store)
  unfolding get_or_create_scope_tracking_created continue_append
  append_one_trusted zero depth item s = none
  append_one_trusted (suc fuel) depth item s =
      continue_append (append_one_trusted fuel (depth + 1)) depth item
        (get_or_create_scope_tracking_created item.scope (env.clock depth) s)

  -- An append that its callers start; an event is appended at depth 1, and emits none.
  unfoldable pub append_trusted : Item → Store → Option (Result Item × Store)
  unfolding append_one_trusted
  append_trusted = append_one_trusted 2 0

  unfoldable pub append_event : Item → Store → Option (Result Item × Store)
  unfolding append_one_trusted
  append_event = append_one_trusted 1 1

  abbrev pub as_outcome {ℓ} : {A : Type ℓ} → Result A → Outcome A
  as_outcome (err e) = failed e
  as_outcome (ok a) = done a

  abbrev outcomes {ℓ} : {A : Type ℓ} → Option (Result A × Store) → Option (Outcome A × Store)
  outcomes none = none
  outcomes (some (r, s)) = some (as_outcome r, s)

  unfoldable pub append_one : Item → Store → Option (Outcome Item × Store)
  unfolding validate_write_item append_trusted
  append_one item s =
      let (refusal, item') =
        validate_write_item env.json item append_endpoint
          (max_item_bytes_for item.scope s.ledger) in
      elim refusal [ some r ↦ some (rejected r, s) | none ↦ outcomes (append_trusted item' s) ]
