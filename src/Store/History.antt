-- ===== src/Store/History.antt =====
-- The account of the scopes through every sequence of steps on a store.
use scopecache.Prelude.{
  ℕ, ◌%◌, ◌≡◌, refl, ◌∙◌, true, List, [], ◌∷◌, some, length, sum_by, arith, ap, if_intro,
  option_intro, ◌==◌, ◌&&◌,
}
use scopecache.Word.{word, add64, sub64}
use scopecache.Map.{lookup, erase}
use scopecache.Map.Entries.{name_of-lookup}
use scopecache.Item.{Bytes, Bytes-discrete, Json, is_empty, approx_item_size}
use scopecache.Ledger.{scope_buffer_overhead, reserve_bytes, bump_last_write_ts}
use scopecache.Ledger.Steps.{reserve_bytes-total, total_bytes-bump, scope_count-bump}
use scopecache.Buffer.{new_scope_buffer}
use scopecache.Buffer.ScopeCount.{reserve_bytes-scope_count}
use scopecache.Bulk.{attached_scope_buffer}
use scopecache.Store.{
  Store, BufPtr, put_buf, get_scope, detach, get_or_create_scope_tracking_created,
  cleanup_if_empty_and_unused, ensure_scope, tick, is_nil,
}
use scopecache.Store.Scopes.{remove_scope}
use scopecache.Store.Accounts.{Accounts}
use scopecache.Store.Steps.{map_scope-Accounts, unmap-Accounts}
use scopecache.Store.Emptied.{attached-IsLive, wipe-Accounts, new_store-Accounts}
use scopecache.Store.Boot.{Config, new_store}
use scopecache.Store.Batch.{Batch-Accounts, commit_batch-Accounts}
use scopecache.Store.Batch.Served.{serve_at-Accounts}
use scopecache.Store.Moves.{
  Move, create, ensure, request, cleanup, remove, wipe_all, commit_warm, run, Possible, Leads, rest,
  then_run, then_batch,
}

abbrev AccountsOf : {A : Type 0} → A × Store → Type 0
AccountsOf r = Accounts r.1

is_nil-eq : (xs : List ℕ) → is_nil xs ≡ true → xs ≡ []
unfolding is_nil
is_nil-eq [] e = refl
is_nil-eq (x ∷ xs) e = absurd (ground arith)

module _ (json : Json) (grow : ℕ → ℕ → ℕ) where
  create-Accounts :
      (name : Bytes) (now : ℕ) (s : Store)
      → Accounts s
      → Accounts (get_or_create_scope_tracking_created name now s).1
  unfolding get_or_create_scope_tracking_created get_scope attached_scope_buffer new_scope_buffer
  create-Accounts name now s a =
      let l = (reserve_bytes scope_buffer_overhead s.ledger).ledger in
      let moved = reserve_bytes-total scope_buffer_overhead s.ledger in
      if_intro AccountsOf (is_empty name) (λ _. a)
        (λ _.
          option_intro AccountsOf (lookup Bytes-discrete name s.scopes)
            (λ absent.
              if_intro AccountsOf (reserve_bytes scope_buffer_overhead s.ledger).granted
                (λ granted.
                  map_scope-Accounts s a name (attached_scope_buffer s.ledger now) l absent
                    (attached-IsLive s.ledger now) refl refl (moved.0 granted) moved.2
                    (reserve_bytes-scope_count scope_buffer_overhead s.ledger))
                (λ _. a))
            (λ p _. a))

  tick-Accounts : (now : ℕ) (s : Store) → Accounts s → Accounts (tick now s)
  unfolding tick
  tick-Accounts now s a =
      let (bytes, items) = total_bytes-bump now s.ledger in
      let scopes = scope_count-bump now s.ledger in
      record {
        map = a.map;
        counted = record {
          bytes_total = omega (arith, bytes, a.counted.bytes_total);
          items_total = omega (arith, items, a.counted.items_total);
          scopes_total = omega (arith, scopes, a.counted.scopes_total);
        };
      }

  ensure-Accounts :
      (name : Bytes) (now : ℕ) (s : Store) → Accounts s → Accounts (ensure_scope name now s).1
  unfolding ensure_scope get_scope attached_scope_buffer new_scope_buffer
  ensure-Accounts name now s a =
      let l = (reserve_bytes scope_buffer_overhead s.ledger).ledger in
      let moved = reserve_bytes-total scope_buffer_overhead s.ledger in
      option_intro AccountsOf (lookup Bytes-discrete name s.scopes)
        (λ absent.
          if_intro AccountsOf (reserve_bytes scope_buffer_overhead s.ledger).granted
            (λ granted. tick-Accounts now _ (
              map_scope-Accounts s a name (attached_scope_buffer s.ledger now) l absent
                (attached-IsLive s.ledger now) refl refl (moved.0 granted) moved.2
                (reserve_bytes-scope_count scope_buffer_overhead s.ledger)))
            (λ _. a))
        (λ p _. a)

  cleanup-Accounts :
      (name : Bytes) (p : BufPtr) (s : Store)
      → Accounts s
      → Accounts (cleanup_if_empty_and_unused name p s)
  unfolding cleanup_if_empty_and_unused get_scope is_nil
  cleanup-Accounts name p s a =
      option_intro Accounts (lookup Bytes-discrete name s.scopes) (λ _. a)
        (λ cur found.
          if_intro Accounts ((cur == p) && is_nil (s.bufs p).items)
            (λ both. cleaned cur found (cur_is cur both) (nothing_left cur both)) (λ _. a))
    where
      cur_is : (cur : BufPtr) → ((cur == p) && is_nil (s.bufs p).items) ≡ true → cur ≡ p
      cur_is cur both = ground arith

      nothing_left :
          (cur : BufPtr) → ((cur == p) && is_nil (s.bufs p).items) ≡ true → (s.bufs p).items ≡ []
      nothing_left cur both = is_nil-eq (s.bufs p).items (ground arith)

      cleaned :
          (cur : BufPtr)
          → lookup Bytes-discrete name s.scopes ≡ some cur
          → cur ≡ p
          → (s.bufs p).items ≡ []
          → Accounts (record s {
            scopes = erase Bytes-discrete name s.scopes;
            bufs = put_buf p (detach (s.bufs p)) s.bufs;
            ledger = record (s.ledger) {
              total_bytes = sub64 (s.ledger.total_bytes) scope_buffer_overhead;
              scope_count = sub64 (s.ledger.scope_count) 1;
            };
          })
      cleaned cur found same empty =
          let here = found ∙ ap some same in
          let live =
            a.map.live p name (name_of-lookup Bytes-discrete name s.scopes a.map.unique here) in
          let no_bytes =
            live.coherent.bytes_sum
            ∙ ap (λ xs. sum_by (λ q. approx_item_size ((s.bufs p).heap q)) xs % word) empty in
          unmap-Accounts s a name p _ here (omega (arith, no_bytes))
            (omega (arith, ap length empty)) (omega arith)

  remove-Accounts :
      (name : Bytes) (now : ℕ) (s : Store) → Accounts s → Accounts (remove_scope name now s).1
  unfolding remove_scope get_scope
  remove-Accounts name now s a =
      option_intro AccountsOf (lookup Bytes-discrete name s.scopes) (λ _. a)
        (λ p found.
          let l = record (s.ledger) {
            total_bytes =
                sub64 (s.ledger.total_bytes) (add64 (s.bufs p).bytes scope_buffer_overhead);
            total_items = sub64 (s.ledger.total_items) (length (s.bufs p).items);
            scope_count = sub64 (s.ledger.scope_count) 1;
          } in
          let (bytes, items) = total_bytes-bump now l in
          let scopes = scope_count-bump now l in
          unmap-Accounts s a name p (bump_last_write_ts now l) found (omega (arith, bytes))
            (omega (arith, items)) (omega (arith, scopes)))

  run-Accounts :
      (m : Move) (s : Store) → Accounts s → Possible json grow m s → Accounts (run json grow m s)
  unfolding run
  run-Accounts (create name now) s a h = create-Accounts name now s a
  run-Accounts (ensure name now) s a h = ensure-Accounts name now s a
  run-Accounts (request p r) s a h = serve_at-Accounts json grow p r s a h
  run-Accounts (cleanup name p) s a h = cleanup-Accounts name p s a
  run-Accounts (remove name now) s a h = remove-Accounts name now s a
  run-Accounts (wipe_all now) s a h = wipe-Accounts now s a
  run-Accounts (commit_warm plans now) s a h = commit_batch-Accounts json grow now plans s a h.0 h.1

  Leads-Accounts : (s t : Store) → Accounts s → Leads json grow s t → Accounts t
  Leads-Accounts s t a rest = a
  Leads-Accounts s t a (then_run m h others) =
      Leads-Accounts (run json grow m s) t (run-Accounts m s a h) others
  Leads-Accounts s t a (then_batch {u = u} plans ready distinct batch others) =
      Leads-Accounts u t (Batch-Accounts json grow plans s u a ready distinct batch) others

  -- Every store that newStore and any sequence of steps lead to keeps its account of the scopes:
  -- the scope map has distinct names for distinct live buffers that satisfy the invariant of
  -- scopes, every other buffer is detached, and the byte total, the item total and the scope count
  -- are, modulo 2 ^ 64, the sums over the map of the bytes and overheads, of the items and of the
  -- scopes. The steps are the creation of a scope by a write or by ensureScope, a request through
  -- any pointer that was ever obtained (with what an addition needs: a sequence number left, a uuid
  -- not yet in the scope and, for a counter, an id that is not empty), the rollback of an empty
  -- scope, deleteScope, wipe, and the commit of a batch of plans for distinct scopes, each of which
  -- is ready to be taken over, alone or with such requests ahead of and between its snapshots, its
  -- reservation and its commits.
  pub new_store-Leads :
      (c : Config) (now : ℕ) (t : Store) → Leads json grow (new_store c now) t → Accounts t
  new_store-Leads c now t = Leads-Accounts (new_store c now) t (new_store-Accounts c now)
