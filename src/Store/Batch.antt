-- ===== src/Store/Batch.antt =====
-- The account of the scopes through the commit of a batch that runs beside other writers: a request
-- through an earlier pointer may come before and after every snapshot and every commit.
pub mod Served
use scopecache.Prelude.{
  ℕ, ◌+◌, ◌%◌, ◌≡◌, ◌≢◌, refl, sym, ◌∙◌, ap, subst, true, false, List, [], ◌∷◌, none, some, All,
  arith, if_intro, Option-cases, inl, inr,
}
use scopecache.Word.{word, add64, sub64}
use scopecache.Map.{lookup}
use scopecache.Map.Entries.{name_of}
use scopecache.Item.{Bytes, Bytes-discrete, Json}
use scopecache.Ledger.{scope_buffer_overhead, reserve_bytes}
use scopecache.Ledger.Steps.{reserve_bytes-total}
use scopecache.Buffer.History.{Request, serve, Admissible, serve-Sound}
use scopecache.Buffer.Served.{serve-scope_count, serve_detached}
use scopecache.Store.{Store, BufPtr, put_buf, get_scope}
use scopecache.Store.Accounts.{Accounts}
use scopecache.Store.Steps.{put_buf-IsScopeMap, put_buf-IsCounted, put_buf_back}
use scopecache.Store.Warm.{
  Plan, BulkResult, new_overhead, total_delta, with_snapshots, commit_plan, commit_plans,
  commit_batch,
}
use scopecache.Store.Warm.Steps.{owed_store, IsReady}
use scopecache.Store.Warm.Balance.{
  DistinctPlans, DistinctScopes, charged, credited, charged-others, commit_plan-Settled,
  owed-Accounts, reserved-Accounts,
}
use scopecache.Store.Batch.Served.{serve_at-Served, serve_at-Accounts}
use scopecache.Store.Moves.{
  request, view, serve_at, Possible, Snapshots, all_taken, take_next, write_first, Commits,
  all_committed, commit_next, write_between, Batch, reserved, refused,
}

charged-scopes :
    (taken : List (Plan × ℕ)) (s t : Store)
    → t.scopes ≡ s.scopes
    → charged taken t ≡ charged taken s
unfolding new_overhead get_scope
charged-scopes [] s t e = refl
charged-scopes ((p, snapshot) ∷ taken) s t e =
    let one =
      ap (λ m. elim (lookup Bytes-discrete p.scope m) [ none ↦ scope_buffer_overhead | some q ↦ 0 ])
        e in
    omega (arith, one, charged-scopes taken s t e)

module _ (json : Json) (grow : ℕ → ℕ → ℕ) where
  serve_at-charged :
      (taken : List (Plan × ℕ)) (q : BufPtr) (r : Request) (s : Store)
      → charged taken (serve_at json grow q r s) ≡ charged taken s
  unfolding serve_at
  serve_at-charged taken q r s = charged-scopes taken s (serve_at json grow q r s) refl

  scopes-serve_at :
      (q : BufPtr) (r : Request) (s : Store) → (serve_at json grow q r s).scopes ≡ s.scopes
  unfolding serve_at
  scopes-serve_at q r s = refl

  Commits-Accounts :
      (taken : List (Plan × ℕ)) (s t : Store) (fair : ℕ)
      → Accounts (owed_store fair s)
      → All (λ e. IsReady e.0) taken
      → DistinctScopes taken
      → (s.ledger.total_bytes + credited taken) % word ≡ (fair + charged taken s) % word
      → Commits json grow taken s t
      → Accounts t
  Commits-Accounts all s t fair a ready distinct e all_committed =
      owed-Accounts s fair a (omega (arith, e))
  Commits-Accounts all s t fair a ready distinct e
        (commit_next {taken = taken} now p snapshot others) =
      let one = commit_plan-Settled now p snapshot s fair ready.0 a in
      let same = charged-others p taken s _ one.others distinct.0 in
      Commits-Accounts taken _ t one.fair' one.account ready.1 distinct.1
        (omega (arith, e, one.moved, same)) others
  Commits-Accounts taken s t fair a ready distinct e (write_between q r can others) =
      let one = serve_at-Served json grow q r s fair a can in
      Commits-Accounts taken _ t one.fair' one.account ready distinct
        (omega (arith, e, one.moved, serve_at-charged taken q r s)) others

  -- What the snapshots leave of the store, and what the plans that they take are due.
  record Taken (ps : List Plan) (s t : Store) (taken : List (Plan × ℕ)) (delta : ℕ) : Type 1 where
    account : Accounts t
    same_map : t.scopes ≡ s.scopes
    due : (delta + credited taken) % word ≡ charged taken s % word
    all_of : (P : Plan → Type 0) → All P ps → All (λ e. P e.0) taken
    distinct : DistinctPlans ps → DistinctScopes taken

  Snapshots-Taken :
      (ps : List Plan) (s t : Store) (taken : List (Plan × ℕ)) (delta : ℕ)
      → Accounts s
      → Snapshots json grow ps s t taken delta
      → Taken ps s t taken delta
  Snapshots-Taken ps s t taken delta a all_taken = record {
    account = a;
    same_map = refl;
    due = refl;
    all_of = λ P h. tt;
    distinct = λ h. tt;
  }
  Snapshots-Taken ps s t taken delta a
        (take_next {ps = rest} {taken = others} {delta = sum} p more) =
      let r = Snapshots-Taken rest s t others sum a more in
      record {
        account = r.account;
        same_map = r.same_map;
        due = omega (arith, r.due);
        all_of = λ P h. (h.0, r.all_of P h.1);
        distinct = λ h. (r.all_of (λ q. q.scope ≢ p.scope) h.0, r.distinct h.1);
      }
  Snapshots-Taken ps s t taken delta a (write_first q r can more) =
      let x = Snapshots-Taken ps _ t taken delta (serve_at-Accounts json grow q r s a can) more in
      record {
        account = x.account;
        same_map = x.same_map ∙ scopes-serve_at q r s;
        due = x.due ∙ ap (λ n. n % word) (serve_at-charged taken q r s);
        all_of = x.all_of;
        distinct = x.distinct;
      }

  -- The commit of a batch of plans for distinct scopes beside other writers keeps the account.
  pub Batch-Accounts :
      (ps : List Plan) (s t : Store)
      → Accounts s
      → All IsReady ps
      → DistinctPlans ps
      → Batch json grow ps s t
      → Accounts t
  Batch-Accounts ps s t a ready distinct (refused snapshots denied) =
      (Snapshots-Taken ps s t _ _ a snapshots).account
  Batch-Accounts ps s t a ready distinct
        (reserved {u = u} {taken = taken} {delta = delta} snapshots granted commits) =
      let x = Snapshots-Taken ps s u taken delta a snapshots in
      let l = (reserve_bytes delta u.ledger).ledger in
      let moved = (reserve_bytes-total delta u.ledger).0 granted in
      let same = charged-scopes taken s (record u { ledger = l }) x.same_map in
      Commits-Accounts taken (record u { ledger = l }) t u.ledger.total_bytes
        (reserved-Accounts u x.account delta) (x.all_of IsReady ready) (x.distinct distinct)
        (omega (arith, moved, x.due, same)) commits

  -- Where nothing is written between the snapshots, they are those of one state.
  pub with_snapshots-Snapshots :
      (ps : List Plan) (s t : Store)
      → Snapshots json grow [] s t [] 0
      → Snapshots json grow ps s t (with_snapshots ps s) (total_delta ps s)
  unfolding total_delta
  with_snapshots-Snapshots [] s t later = later
  with_snapshots-Snapshots (p ∷ ps) s t later = take_next p (with_snapshots-Snapshots ps s t later)

  pub commit_plans-Commits :
      (now : ℕ) (taken : List (Plan × ℕ)) (s : Store)
      → Commits json grow taken s (commit_plans now taken s)
  unfolding commit_plans
  commit_plans-Commits now [] s = all_committed
  commit_plans-Commits now ((p, snapshot) ∷ taken) s =
      commit_next now p snapshot (commit_plans-Commits now taken (commit_plan now p snapshot s))

  -- A batch that runs alone.
  commit_batch-Batch :
      (now : ℕ) (ps : List Plan) (s : Store) → Batch json grow ps s (commit_batch now ps s).1
  unfolding commit_batch
  commit_batch-Batch now ps s =
      let r = reserve_bytes (total_delta ps s) s.ledger in
      let snapshots = with_snapshots-Snapshots ps s s all_taken in
      if_intro (λ (x : BulkResult ℕ × Store). Batch json grow ps s x.1) r.granted
        (λ granted.
          reserved snapshots granted
            (commit_plans-Commits now (with_snapshots ps s) (record s { ledger = r.ledger })))
        (λ denied. refused snapshots denied)

  pub commit_batch-Accounts :
      (now : ℕ) (ps : List Plan) (s : Store)
      → Accounts s
      → All IsReady ps
      → DistinctPlans ps
      → Accounts (commit_batch now ps s).1
  commit_batch-Accounts now ps s a ready distinct =
      Batch-Accounts ps s _ a ready distinct (commit_batch-Batch now ps s)
