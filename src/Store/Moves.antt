-- ===== src/Store/Moves.antt =====
-- Sequences of steps on a store, by any number of goroutines. Each step runs under the locks that the
-- code takes for it; a request goes through a pointer that its goroutine obtained at some earlier time,
-- so that the scope may have been removed, or wiped, or made again since.
use scopecache.Prelude.{ℕ, ◌<◌, ◌≡◌, true, false, List, [], ◌∷◌, All}
use scopecache.Word.{add64, sub64}
use scopecache.Item.{Bytes, Json}
use scopecache.Ledger.{reserve_bytes}
use scopecache.Buffer.{State}
use scopecache.Buffer.History.{Request, serve, Admissible}
use scopecache.Store.{
  Store, BufPtr, put_buf, get_or_create_scope_tracking_created, cleanup_if_empty_and_unused,
  ensure_scope,
}
use scopecache.Store.Scopes.{remove_scope, wipe}
use scopecache.Store.Warm.{Plan, commit_batch, commit_plan, old_bytes, new_overhead}
use scopecache.Store.Warm.Steps.{IsReady}
use scopecache.Store.Warm.Balance.{DistinctPlans}

pub data Move : Type 0 where
  create : Bytes → ℕ → Move
  ensure : Bytes → ℕ → Move
  request : BufPtr → Request → Move
  cleanup : Bytes → BufPtr → Move
  remove : Bytes → ℕ → Move
  wipe_all : ℕ → Move
  commit_warm : List Plan → ℕ → Move

-- The state that a request on a buffer sees.
abbrev pub view : BufPtr → Store → State
view p s = record { ledger = s.ledger; buf = s.bufs p }

module _ (json : Json) (grow : ℕ → ℕ → ℕ) where
  unfoldable pub serve_at : BufPtr → Request → Store → Store
  unfolding put_buf
  serve_at p r s =
      let t = serve json grow r (view p s) in
      record s { ledger = t.ledger; bufs = put_buf p t.buf s.bufs }

  unfoldable pub run : Move → Store → Store
  unfolding serve_at get_or_create_scope_tracking_created ensure_scope cleanup_if_empty_and_unused
      remove_scope wipe commit_batch
  run (create name now) s = (get_or_create_scope_tracking_created name now s).1
  run (ensure name now) s = (ensure_scope name now s).1
  run (request p r) s = serve_at p r s
  run (cleanup name p) s = cleanup_if_empty_and_unused name p s
  run (remove name now) s = (remove_scope name now s).1
  run (wipe_all now) s = (wipe now s).1
  run (commit_warm plans now) s = (commit_batch now plans s).1

  -- A request goes to an allocated buffer; where that is live, it is admissible. The plans of a batch
  -- are for distinct scopes, and each is ready to be taken over.
  abbrev pub Possible : Move → Store → Type 0
  Possible (create name now) s = Unit
  Possible (ensure name now) s = Unit
  Possible (request p r) s =
      (p < s.next_buf) × ((s.bufs p).detached ≡ false → Admissible json grow r (view p s))
  Possible (cleanup name p) s = Unit
  Possible (remove name now) s = Unit
  Possible (wipe_all now) s = Unit
  Possible (commit_warm plans now) s = All IsReady plans × DistinctPlans plans

  -- The commit of a batch as it runs beside the writers that hold a pointer to a buffer of one of its
  -- scopes: the batch holds the locks of its shards, the writers need none of them. In Phase 1.5 the
  -- plans are taken in their order, each with the bytes that its scope has then, and what they add to
  -- the total is summed up.
  pub data Snapshots : List Plan → Store → Store → List (Plan × ℕ) → ℕ → Type 0 where
    all_taken : {s : Store} → Snapshots [] s s [] 0
    take_next :
        {ps : List Plan} {s t : Store} {taken : List (Plan × ℕ)} {delta : ℕ} (p : Plan)
        → Snapshots ps s t taken delta
        → Snapshots
            (p ∷ ps)
            s
            t
            ((p, old_bytes p.scope s) ∷ taken)
            (add64 (add64 (new_overhead p.scope s) (sub64 p.new_bytes (old_bytes p.scope s))) delta)
    write_first :
        {ps : List Plan} {s t : Store} {taken : List (Plan × ℕ)} {delta : ℕ} (q : BufPtr)
        (r : Request)
        → Possible (request q r) s
        → Snapshots ps (serve_at q r s) t taken delta
        → Snapshots ps s t taken delta

  -- Phase 2 goes through the plans in the same order, each with its own time. A new scope is counted
  -- when it is made; the code adds them up and counts them at the end, and no request reads the count.
  pub data Commits : List (Plan × ℕ) → Store → Store → Type 0 where
    all_committed : {s : Store} → Commits [] s s
    commit_next :
        {taken : List (Plan × ℕ)} {s t : Store} (now : ℕ) (p : Plan) (snapshot : ℕ)
        → Commits taken (commit_plan now p snapshot s) t
        → Commits ((p, snapshot) ∷ taken) s t
    write_between :
        {taken : List (Plan × ℕ)} {s t : Store} (q : BufPtr) (r : Request)
        → Possible (request q r) s
        → Commits taken (serve_at q r s) t
        → Commits taken s t

  -- The reservation stands between the two, and may be refused.
  pub data Batch : List Plan → Store → Store → Type 0 where
    reserved :
        {plans : List Plan} {s u t : Store} {taken : List (Plan × ℕ)} {delta : ℕ}
        → Snapshots plans s u taken delta
        → (reserve_bytes delta u.ledger).granted ≡ true
        → Commits taken (record u { ledger = (reserve_bytes delta u.ledger).ledger }) t
        → Batch plans s t
    refused :
        {plans : List Plan} {s u : Store} {taken : List (Plan × ℕ)} {delta : ℕ}
        → Snapshots plans s u taken delta
        → (reserve_bytes delta u.ledger).granted ≡ false
        → Batch plans s u

  pub data Leads : Store → Store → Type 0 where
    rest : {s : Store} → Leads s s
    then_run : {s t : Store} (m : Move) → Possible m s → Leads (run m s) t → Leads s t
    then_batch :
        {s u t : Store} (plans : List Plan)
        → All IsReady plans
        → DistinctPlans plans
        → Batch plans s u
        → Leads u t
        → Leads s t
