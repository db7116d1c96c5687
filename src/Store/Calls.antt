-- ===== src/Store/Calls.antt =====
-- The other write paths of the store (store.go), on the paths for appends.
use scopecache.Prelude.{ℕ, Bool, true, false, not, ltb, if◌then◌else◌, Option, none, some}
use scopecache.Item.{Bytes, Uuid, Item, is_empty, is_zero, zero_uuid, Result, ok, err}
use scopecache.Uuid.{wire_uuid, parse_uuid_v7}
use scopecache.Ledger.{max_item_bytes_for}
use scopecache.Buffer.Write.{upsert_by_id, update_by_id, update_by_seq, update_by_uuid}
use scopecache.Buffer.Delete.{
  delete_by_id, delete_by_seq, delete_by_uuid, delete_up_to_seq, delete_up_to_uuid,
}
use scopecache.Buffer.Counter.{counter_add}
use scopecache.Validation.Requests.{
  validate_upsert_item, validate_update_item, validate_counter_add_request, validate_delete_request,
  validate_delete_up_to_request, validate_delete_scope_request,
}
use scopecache.Store.{Store, on_buf, get_scope, get_or_create_scope_tracking_created, tick}
use scopecache.Store.Scopes.{remove_scope}
use scopecache.Store.Events.{
  emit_upsert_event, emit_update_event, emit_counter_add_event, emit_delete_event,
  emit_delete_up_to_event, emit_delete_scope_event,
}
use scopecache.Store.Writes.{Env, Outcome, rejected, failed, done, roll_back, answer, append_event}

module _ (env : Env) where
  unfoldable pub upsert_one : Item → Store → Option (Outcome (Item × Bool) × Store)
  unfolding validate_upsert_item get_or_create_scope_tracking_created on_buf upsert_by_id
      emit_upsert_event wire_uuid append_event
  upsert_one item s =
      let (refusal, item') = validate_upsert_item env.json item s.ledger.max_item_bytes in
      let (found, t) = get_or_create_scope_tracking_created item.scope (env.clock 0) s in
      elim refusal [
        | some r ↦ some (rejected r, s)
        | none ↦ elim found [
          | err e ↦ some (failed e, t)
          | ok (p, scope_created) ↦
              let (r, u) =
                on_buf p (upsert_by_id env.json env.grow item' (env.clock 0) (env.mint 0)) t in
              elim r [
                | err e ↦ some (failed e, roll_back scope_created item.scope p u)
                | ok (stored, created) ↦ answer (done (stored, created)) (
                    emit_upsert_event env.marshal (append_event env) stored.scope stored.id
                      stored.seq stored.ts (wire_uuid stored.uuid) stored.payload u)
              ]
        ]
      ]

  -- A counter that makes a scope is one change that pollers see.
  abbrev tick_if : Bool → ℕ → Store → Store
  tick_if true now s = tick now s
  tick_if false now s = s

  unfoldable pub counter_add_one : Bytes → Bytes → ℕ → Store → Option (Outcome (ℕ × Bool) × Store)
  unfolding validate_counter_add_request get_or_create_scope_tracking_created on_buf counter_add
      emit_counter_add_event append_event tick
  counter_add_one scope id by s =
      let refusal =
        validate_counter_add_request scope id (some by) (max_item_bytes_for scope s.ledger) in
      let (found, t) = get_or_create_scope_tracking_created scope (env.clock 0) s in
      elim refusal [
        | some r ↦ some (rejected r, s)
        | none ↦ elim found [
          | err e ↦ some (failed e, t)
          | ok (p, scope_created) ↦
              let (r, u) =
                on_buf p (counter_add env.json env.grow scope id by (env.clock 0) (env.mint 0)) t in
              elim r [
                | err e ↦ some (failed e, roll_back scope_created scope p u)
                | ok (value, created) ↦ answer (done (value, created)) (
                    emit_counter_add_event env.marshal (append_event env) scope id by
                      (tick_if scope_created (env.clock 0) u))
              ]
        ]
      ]

  -- Where a count answers: an error, a hit with its event, or a miss without one.
  abbrev pub count_answer : (Store → Option Store) → Result ℕ × Store → Option (Outcome ℕ × Store)
  count_answer emit (err e, s) = some (failed e, s)
  count_answer emit (ok n, s) = elim (ltb 0 n) [
    | true ↦ answer (done n) (emit s)
    | false ↦ some (done n, s)
  ]

  -- The address modes: an id comes before a uuid, and that before a sequence number.
  abbrev pub by_address {ℓ} : {A : Type ℓ} → Bool → Bool → A → A → A → A
  by_address has_id has_uuid x y z = if has_id then x else if has_uuid then y else z

  unfoldable pub update_one : Item → Store → Option (Outcome ℕ × Store)
  unfolding validate_update_item get_scope on_buf update_by_id update_by_uuid update_by_seq
      emit_update_event wire_uuid append_event
  update_one item s =
      let (refusal, item') = validate_update_item env.json item s.ledger.max_item_bytes in
      let now = env.clock 0 in
      elim refusal [
        | some r ↦ some (rejected r, s)
        | none ↦ elim (get_scope item.scope s) [
          | none ↦ some (done 0, s)
          | some p ↦
              count_answer
                (emit_update_event env.marshal (append_event env) item.scope item.id item.seq
                  (wire_uuid item.uuid) item.payload)
                (on_buf p
                  (by_address (not (is_empty item.id)) (not (is_zero item.uuid))
                    (update_by_id env.json item.id item.payload item'.render_bytes now)
                    (update_by_uuid env.json item.uuid item.payload item'.render_bytes now)
                    (update_by_seq env.json item.seq item.payload item'.render_bytes now))
                  s)
        ]
      ]

  -- `u, _ := parseUUIDv7(uuid)`
  abbrev pub parsed_uuid : Bytes → Uuid
  parsed_uuid text = elim (parse_uuid_v7 text) [ none ↦ zero_uuid | some u ↦ u ]

  unfoldable pub delete_one : Bytes → Bytes → ℕ → Bytes → Store → Option (Outcome ℕ × Store)
  unfolding validate_delete_request get_scope on_buf delete_by_id delete_by_uuid delete_by_seq
      emit_delete_event append_event
  delete_one scope id seq uuid s =
      let now = env.clock 0 in
      elim (validate_delete_request scope id seq uuid) [
        | some r ↦ some (rejected r, s)
        | none ↦ elim (get_scope scope s) [
          | none ↦ some (done 0, s)
          | some p ↦
              count_answer (emit_delete_event env.marshal (append_event env) scope id seq uuid) (
                on_buf p
                  (by_address (not (is_empty id)) (not (is_empty uuid)) (delete_by_id id now)
                    (delete_by_uuid (parsed_uuid uuid) now) (delete_by_seq seq now))
                  s)
        ]
      ]

  unfoldable pub delete_up_to : Bytes → ℕ → Bytes → Store → Option (Outcome ℕ × Store)
  unfolding validate_delete_up_to_request get_scope on_buf delete_up_to_seq delete_up_to_uuid
      emit_delete_up_to_event append_event
  delete_up_to scope max_seq uuid s =
      let now = env.clock 0 in
      elim (validate_delete_up_to_request scope max_seq uuid) [
        | some r ↦ some (rejected r, s)
        | none ↦ elim (get_scope scope s) [
          | none ↦ some (done 0, s)
          | some p ↦
              count_answer
                (emit_delete_up_to_event env.marshal (append_event env) scope max_seq uuid)
                (on_buf p
                  (if not (is_empty uuid)
                    then delete_up_to_uuid (parsed_uuid uuid) now
                    else delete_up_to_seq max_seq now)
                  s)
        ]
      ]

  -- `deleteScope`: the number of items that went, and whether the scope was there.
  unfoldable pub delete_scope : Bytes → Store → Option (Outcome (ℕ × Bool) × Store)
  unfolding validate_delete_scope_request remove_scope emit_delete_scope_event append_event
  delete_scope scope s =
      let (count, t) = remove_scope scope (env.clock 0) s in
      elim (validate_delete_scope_request scope) [
        | some r ↦ some (rejected r, s)
        | none ↦ elim count [
          | none ↦ some (done (0, false), t)
          | some n ↦
              answer (done (n, true))
                (emit_delete_scope_event env.marshal (append_event env) scope (env.clock 0) t)
        ]
      ]
