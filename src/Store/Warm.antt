-- ===== src/Store/Warm.antt =====
-- The bulk writes of bulk.go. `/warm` plans a replacement for each scope of its input, reserves the change
-- in bytes of all of them at once, and then commits them; `/rebuild` swaps in a whole new map. A map of
-- the input is a list, in the order in which Go's loop meets its keys.
pub mod Steps
pub mod Balance
pub mod Commit
use scopecache.Prelude.{
  ℕ, zero, suc, ◌+◌, ◌<◌, Bool, true, false, ltb, if◌then◌else◌, List, [], ◌∷◌, Option, none, some,
  length,
}
use scopecache.Word.{add64, sub64, slt}
use scopecache.Item.{Bytes, Uuid, same_bytes, Item, Json, Error, Result, ok, err}
use scopecache.Ledger.{
  Ledger, is_reserved_scope, reserve_bytes, bump_last_write_ts, scope_buffer_overhead,
}
use scopecache.Buffer.{ScopeBuffer, State}
use scopecache.Buffer.Replace.{
  ScopeReplacement, build_replacement_state, sum_item_bytes, commit_replacement_pre_reserved,
}
use scopecache.Bulk.{attached_scope_buffer, rebuilt_scope_buffer}
use scopecache.Validation.{
  Endpoint, Reason, validate_scope, warm_endpoint, rebuild_endpoint, reserved,
}
use scopecache.Validation.Requests.{validate_write_item}
use scopecache.Store.{Store, BufPtr, get_scope, map_scope, on_buf}
use scopecache.Store.Scopes.{detach_all, init_reserved_scopes_locked}
use scopecache.Store.Boot.{reserved_scopes_overhead}
use scopecache.Store.Events.{emit_warm_event}
use scopecache.Store.Writes.{Env, answer, append_event}

pub record Offender : Type 0 where
  pub scope : Bytes
  pub count : ℕ
  pub cap : ℕ

pub data BulkError : Type 0 where
  bad_scope : Reason → BulkError
  bad_item : Bytes → ℕ → Reason → BulkError
  scope_mismatch : Bytes → ℕ → BulkError
  bad_batch : Bytes → Error → BulkError
  over_capacity : List Offender → BulkError
  no_room : ℕ → ℕ → ℕ → BulkError

pub data BulkResult {ℓ} (A : Type ℓ) : Type ℓ where
  accepted : A → BulkResult A
  aborted : BulkError → BulkResult A

pub record Plan : Type 0 where
  pub scope : Bytes
  pub replacement : ScopeReplacement
  pub new_bytes : ℕ

-- The loop over the items of one scope: they come back with their rendered bytes.
unfoldable pub check_items : Json → Endpoint → ℕ → Bytes → ℕ → List Item → BulkResult (List Item)
unfolding validate_write_item
check_items json endpoint cap scope i [] = accepted []
check_items json endpoint cap scope i (item ∷ items) =
    let (refusal, item') = validate_write_item json item endpoint cap in
    let rest = check_items json endpoint cap scope (suc i) items in
    elim refusal [
      | some r ↦ aborted (bad_item scope i r)
      | none ↦ elim (same_bytes item.scope scope) [
        | false ↦ aborted (scope_mismatch scope i)
        | true ↦ elim rest [ aborted e ↦ aborted e | accepted others ↦ accepted (item' ∷ others) ]
      ]
    ]

-- What one scope of the input comes to: a plan, or one more offender against the item cap.
pub data Planned : Type 0 where
  planned : Plan → Planned
  offends : Offender → Planned

-- The bulk paths mint a uuid for each item that has none; `mints` are those of one scope.
unfoldable pub build_plan : Json → (ℕ → Uuid) → ℕ → ℕ → Bytes → List Item → BulkResult Planned
unfolding build_replacement_state sum_item_bytes
build_plan json mints now max_items scope items =
    if slt max_items (length items)
    then accepted (offends (record { scope = scope; count = length items; cap = max_items }))
    else elim (build_replacement_state json items true mints now) [
      | err e ↦ aborted (bad_batch scope e)
      | ok r ↦ accepted (
          planned
            (record { scope = scope; replacement = r; new_bytes = sum_item_bytes r.heap r.items }))
    ]

unfoldable pub plan_scope :
    Json → (ℕ → Uuid) → ℕ → Endpoint → Ledger → Bytes → List Item → BulkResult Planned
unfolding validate_scope check_items build_plan
plan_scope json mints now endpoint l scope items = elim (validate_scope scope) [
  | some r ↦ aborted (bad_scope r)
  | none ↦ elim (is_reserved_scope scope) [
    | true ↦ aborted (bad_scope (reserved endpoint))
    | false ↦ elim (check_items json endpoint l.max_item_bytes scope 0 items) [
      | aborted e ↦ aborted e
      | accepted checked ↦ build_plan json mints now l.default_max_items scope checked
    ]
  ]
]

-- Phase 1: the first invalid scope aborts; the offenders are collected.
unfoldable pub plan_all :
    Json
    → (ℕ → ℕ → Uuid)
    → ℕ
    → Endpoint
    → Ledger
    → ℕ
    → List (Bytes × List Item)
    → BulkResult (List Plan × List Offender)
unfolding plan_scope
plan_all json mints now endpoint l k [] = accepted ([], [])
plan_all json mints now endpoint l k ((scope, items) ∷ grouped) =
    let rest = plan_all json mints now endpoint l (suc k) grouped in
    elim (plan_scope json (mints k) now endpoint l scope items) [
      | aborted e ↦ aborted e
      | accepted one ↦ elim rest [
        | aborted e ↦ aborted e
        | accepted (plans, offenders) ↦ elim one [
          | planned p ↦ accepted (p ∷ plans, offenders)
          | offends o ↦ accepted (plans, o ∷ offenders)
        ]
      ]
    ]

abbrev pub plans_or_offenders : BulkResult (List Plan × List Offender) → BulkResult (List Plan)
plans_or_offenders (aborted e) = aborted e
plans_or_offenders (accepted (plans, [])) = accepted plans
plans_or_offenders (accepted (plans, o ∷ os)) = aborted (over_capacity (o ∷ os))

-- Phase 1.5: the bytes of a scope as they are now, and what its plan adds to the store's total.
unfoldable pub old_bytes : Bytes → Store → ℕ
unfolding get_scope
old_bytes scope s = elim (get_scope scope s) [ none ↦ 0 | some p ↦ (s.bufs p).bytes ]

unfoldable pub new_overhead : Bytes → Store → ℕ
unfolding get_scope
new_overhead scope s = elim (get_scope scope s) [ none ↦ scope_buffer_overhead | some p ↦ 0 ]

unfoldable pub total_delta : List Plan → Store → ℕ
unfolding new_overhead old_bytes
total_delta [] s = 0
total_delta (p ∷ ps) s =
    add64 (add64 (new_overhead p.scope s) (sub64 p.new_bytes (old_bytes p.scope s)))
      (total_delta ps s)

-- Phase 2 for one plan: the scope is made where it is not there. The snapshot is the one of Phase 1.5.
unfoldable pub commit_plan : ℕ → Plan → ℕ → Store → Store
unfolding get_scope map_scope attached_scope_buffer on_buf commit_replacement_pre_reserved
commit_plan now p snapshot s =
    let commit = λ (b : BufPtr) (t : Store).
      (on_buf b
        (λ u. (tt {0}, commit_replacement_pre_reserved p.replacement p.new_bytes snapshot now u))
        t).1 in
    elim (get_scope p.scope s) [
      | some b ↦ commit b s
      | none ↦ commit s.next_buf (map_scope p.scope (attached_scope_buffer s.ledger now) s)
    ]

unfoldable pub commit_plans : ℕ → List (Plan × ℕ) → Store → Store
unfolding commit_plan
commit_plans now [] s = s
commit_plans now ((p, snapshot) ∷ ps) s = commit_plans now ps (commit_plan now p snapshot s)

abbrev pub with_snapshots : List Plan → Store → List (Plan × ℕ)
with_snapshots [] s = []
with_snapshots (p ∷ ps) s = (p, old_bytes p.scope s) ∷ with_snapshots ps s

-- The locked phases: the reservation, and the commits that cannot fail. This is the run in which no
-- writer that has a buffer already comes in between; `Batch` in Moves has them all.
unfoldable pub commit_batch : ℕ → List Plan → Store → BulkResult ℕ × Store
unfolding total_delta commit_plans old_bytes
commit_batch now plans s =
    let delta = total_delta plans s in
    let r = reserve_bytes delta s.ledger in
    if r.granted
    then (
      accepted (length plans),
      commit_plans now (with_snapshots plans s) (record s { ledger = r.ledger }),
    )
    else (aborted (no_room r.current delta r.cap), s)

module _ (env : Env) where
  abbrev warm_emitted : BulkResult ℕ × Store → Option (BulkResult ℕ × Store)
  warm_emitted (aborted e, s) = some (aborted e, s)
  warm_emitted (accepted n, s) = elim (ltb 0 n) [
    | true ↦ answer (accepted n) (emit_warm_event env.marshal (append_event env) (env.clock 0) s)
    | false ↦ some (accepted n, s)
  ]

  unfoldable pub replace_scopes :
      (ℕ → ℕ → Uuid) → List (Bytes × List Item) → Store → Option (BulkResult ℕ × Store)
  unfolding plan_all commit_batch emit_warm_event append_event
  replace_scopes mints grouped s =
      let now = env.clock 0 in
      elim (plans_or_offenders (plan_all env.json mints now warm_endpoint s.ledger 0 grouped)) [
        | aborted e ↦ some (aborted e, s)
        | accepted plans ↦ warm_emitted (commit_batch now plans s)
      ]
