-- ===== src/Tests/Warmed.antt =====
-- A batch for one scope of a fresh store.
use scopecache.Prelude.{ℕ, ◌+◌, ◌<◌, ◌≡◌, refl, true, List, [], ◌∷◌, map, arith}
use scopecache.Item.{Bytes, Item, Uuid}
use scopecache.Ledger.{Reservation, reserve_bytes, is_reserved_scope}
use scopecache.Buffer.History.{Request}
use scopecache.Store.{Store}
use scopecache.Store.Accounts.{Accounts}
use scopecache.Store.Boot.{new_store}
use scopecache.Store.Emptied.{new_store-Accounts}
use scopecache.Store.Moves.{Move, Leads, Possible, Snapshots, Batch, run, serve_at}
use scopecache.Store.History.{new_store-Leads}
use scopecache.Store.Batch.{with_snapshots-Snapshots, commit_plans-Commits}
use scopecache.Store.Warm.{
  Plan, BulkResult, accepted, aborted, plan_all, plan_scope, build_plan, check_items,
  plans_or_offenders, commit_batch, commit_plan, commit_plans, total_delta, old_bytes, new_overhead,
  with_snapshots,
}
use scopecache.Store.Warm.Commit.{plan_all-commit_batch, plan_all-Batch}
use scopecache.Validation.{warm_endpoint}
use scopecache.Tests.{json, grow, uuid, apple, pear, program}
use scopecache.Tests.Batches.{batch_program}
use scopecache.Tests.Requests.{validation_program}
use scopecache.Tests.Stores.{config, store_program}

abbrev input : List (Bytes × List Item)
input = (apple.scope, apple ∷ pear ∷ []) ∷ []

abbrev mints : ℕ → ℕ → Uuid
mints k n = uuid (n + 8)

abbrev plans_of : BulkResult (List Plan) → List Plan
plans_of (accepted plans) = plans
plans_of (aborted e) = []

abbrev plans : List Plan
plans =
    plans_of
      (plans_or_offenders (plan_all json mints 9 warm_endpoint (new_store config 1).ledger 0 input))

warmed_program : Unit {0}
unfolding plan_all plan_scope build_plan check_items is_reserved_scope total_delta old_bytes
    new_overhead commit_plans commit_plan store_program validation_program batch_program program
warmed_program = tt

input_planned :
    plans_or_offenders (plan_all json mints 9 warm_endpoint (new_store config 1).ledger 0 input)
    ≡ accepted plans
unfolding warmed_program
input_planned = refl

plan_all-commit_batch_example : Accounts (commit_batch 9 plans (new_store config 1)).1
plan_all-commit_batch_example =
    plan_all-commit_batch json mints 9 warm_endpoint input plans (new_store config 1)
      (new_store config 1) (omega arith, tt) (tt, tt) input_planned (new_store-Accounts config 1)

-- A writer that obtained the buffer of the scope appends to it after the snapshot of its bytes.
abbrev before : Store
before = run json grow (Move.create apple.scope 2) (new_store config 1)

abbrev late : Request
late = Request.append apple 3 (uuid 1)

abbrev written : Store
written = serve_at json grow 2 late before

late-Possible : Possible json grow (Move.request 2 late) before
unfolding store_program program
late-Possible = (omega arith, λ _. (omega arith, refl))

before-Accounts : Accounts before
before-Accounts =
    new_store-Leads json grow config 1 before
      (Leads.then_run (Move.create apple.scope 2) tt Leads.rest)

abbrev reservation : Reservation
reservation = reserve_bytes (total_delta plans before) written.ledger

abbrev after_batch : Store
after_batch =
    commit_plans 9 (with_snapshots plans before) (record written { ledger = reservation.ledger })

reservation_granted : reservation.granted ≡ true
unfolding warmed_program
reservation_granted = refl

-- The commit meets more bytes than its plan's snapshot has.
commit_meets_drift :
    (0 < (written.bufs 2).bytes) × (with_snapshots plans before ≡ map (λ p. (p, 0)) plans)
unfolding warmed_program
commit_meets_drift = (omega arith, refl)

interleaved : Batch json grow plans before after_batch
interleaved =
    Batch.reserved
      (with_snapshots-Snapshots json grow plans before written
        (Snapshots.write_first 2 late late-Possible Snapshots.all_taken))
      reservation_granted
      (commit_plans-Commits json grow 9 (with_snapshots plans before)
        (record written { ledger = reservation.ledger }))

plan_all-Batch_example : Accounts after_batch
plan_all-Batch_example =
    plan_all-Batch json grow mints 9 warm_endpoint input plans (new_store config 1) before
      after_batch (omega arith, tt) (tt, tt) input_planned before-Accounts interleaved
