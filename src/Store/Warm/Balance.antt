-- ===== src/Store/Warm/Balance.antt =====
-- The account of the scopes through the commits of a batch, where other writers may act between the
-- snapshot of the bytes of a scope and its commit.
use scopecache.Prelude.{
  ℕ, ◌+◌, ◌%◌, ◌≡◌, ◌≢◌, refl, ◌∙◌, List, [], ◌∷◌, none, some, All, arith, option_intro,
}
use scopecache.Word.{word, add64}
use scopecache.Map.{lookup, insert, lookup-insert}
use scopecache.Map.Entries.{name_of-lookup, lookup-insert_self}
use scopecache.Item.{Bytes, Bytes-discrete}
use scopecache.Ledger.{scope_buffer_overhead, reserve_bytes}
use scopecache.Ledger.Steps.{reserve_bytes-total}
use scopecache.Buffer.{new_scope_buffer}
use scopecache.Buffer.ScopeCount.{reserve_bytes-scope_count}
use scopecache.Buffer.Replace.{commit_replacement_pre_reserved}
use scopecache.Bulk.{attached_scope_buffer}
use scopecache.Store.{Store, BufPtr, get_scope, map_scope, on_buf}
use scopecache.Store.Accounts.{Accounts}
use scopecache.Store.Steps.{map_scope-Accounts}
use scopecache.Store.Emptied.{attached-IsLive}
use scopecache.Store.Warm.{Plan, commit_plan, new_overhead}
use scopecache.Store.Warm.Steps.{owed_store, IsReady, commit_at-Balanced}

-- The same with what a new scope is charged, and the other scopes' map entries as they were.
pub record Settled (s t : Store) (p : Plan) (snapshot fair : ℕ) : Type 0 where
  pub fair' : ℕ
  pub account : Accounts (owed_store fair' t)
  pub moved :
      (t.ledger.total_bytes + fair + (new_overhead p.scope s + p.new_bytes)) % word
      ≡ (s.ledger.total_bytes + snapshot + fair') % word
  pub others : (name : Bytes) → name ≢ p.scope → new_overhead name t ≡ new_overhead name s

module _ (now : ℕ) (p : Plan) (snapshot : ℕ) (s : Store) (fair : ℕ) (ready : IsReady p)
    (a : Accounts (owed_store fair s)) where
  commit_mapped :
      (q : BufPtr)
      → lookup Bytes-discrete p.scope s.scopes ≡ some q
      → Settled s
          (on_buf q
            (λ u.
              (tt {0}, commit_replacement_pre_reserved p.replacement p.new_bytes snapshot now u))
            s).1
          p
          snapshot
          fair
  unfolding on_buf new_overhead get_scope
  commit_mapped q found =
      let b =
        commit_at-Balanced now p snapshot q s fair ready a
          (name_of-lookup Bytes-discrete p.scope s.scopes a.map.unique found) in
      let none_due =
        option_intro (λ n. n ≡ 0) (lookup Bytes-discrete p.scope s.scopes)
          {x = scope_buffer_overhead} {f = λ _. 0}
          (λ absent. absurd (ground (arith, absent, found))) (λ _ _. refl) in
      record {
        fair' = b.fair';
        account = b.account;
        moved = omega (arith, b.moved, none_due);
        others = λ name ne. refl;
      }

  made : Store
  made = map_scope p.scope (attached_scope_buffer s.ledger now) s

  commit_made :
      lookup Bytes-discrete p.scope s.scopes ≡ none
      → Settled s
          (on_buf s.next_buf
            (λ u.
              (tt {0}, commit_replacement_pre_reserved p.replacement p.new_bytes snapshot now u))
            made).1
          p
          snapshot
          fair
  unfolding on_buf new_overhead get_scope map_scope made attached_scope_buffer new_scope_buffer
  commit_made absent =
      let fair_made = add64 fair scope_buffer_overhead in
      let mapped =
        map_scope-Accounts (owed_store fair s) a p.scope (attached_scope_buffer s.ledger now)
          (record (s.ledger) { total_bytes = fair_made }) absent (attached-IsLive s.ledger now) refl
          refl refl refl refl in
      let b = commit_at-Balanced now p snapshot s.next_buf made fair_made ready mapped (
        name_of-lookup Bytes-discrete p.scope made.scopes mapped.map.unique
          (lookup-insert_self Bytes-discrete p.scope s.next_buf s.scopes)) in
      let due =
        option_intro (λ n. n ≡ scope_buffer_overhead) (lookup Bytes-discrete p.scope s.scopes)
          {x = scope_buffer_overhead} {f = λ _. 0} (λ _. refl)
          (λ q found. absurd (ground (arith, absent, found))) in
      record {
        fair' = b.fair';
        account = b.account;
        moved = omega (arith, b.moved, due);
        others = λ name ne. other_name name ne;
      }
    where
      other_name :
          (name : Bytes)
          → name ≢ p.scope
          → elim (lookup Bytes-discrete name (insert Bytes-discrete p.scope s.next_buf s.scopes)) [
            | none ↦ scope_buffer_overhead
            | some q ↦ 0
          ]
            ≡ elim (lookup Bytes-discrete name s.scopes) [
              | none ↦ scope_buffer_overhead
              | some q ↦ 0
            ]
      other_name name ne =
          ground (arith, lookup-insert Bytes-discrete name p.scope s.next_buf s.scopes, ne)

  pub commit_plan-Settled : Settled s (commit_plan now p snapshot s) p snapshot fair
  unfolding commit_plan get_scope made
  commit_plan-Settled =
      option_intro (λ t. Settled s t p snapshot fair) (lookup Bytes-discrete p.scope s.scopes)
        commit_made commit_mapped

-- What the plans with their snapshots are to be charged, and what the snapshots sum to.
abbrev pub charged : List (Plan × ℕ) → Store → ℕ
charged [] s = 0
charged ((p, snapshot) ∷ ps) s = new_overhead p.scope s + p.new_bytes + charged ps s

abbrev pub credited : List (Plan × ℕ) → ℕ
credited [] = 0
credited ((p, snapshot) ∷ ps) = snapshot + credited ps

abbrev pub DistinctScopes : List (Plan × ℕ) → Type 0
DistinctScopes [] = Unit
DistinctScopes ((p, snapshot) ∷ ps) = All (λ e. e.0.scope ≢ p.scope) ps × DistinctScopes ps

pub charged-others :
    (p : Plan) (ps : List (Plan × ℕ)) (s t : Store)
    → ((name : Bytes) → name ≢ p.scope → new_overhead name t ≡ new_overhead name s)
    → All (λ e. e.0.scope ≢ p.scope) ps
    → charged ps t ≡ charged ps s
charged-others p [] s t others distinct = refl
charged-others p ((q, snapshot) ∷ ps) s t others distinct =
    let one = others q.scope distinct.0 in
    omega (arith, one, charged-others p ps s t others distinct.1)

pub owed-Accounts :
    (s : Store) (fair : ℕ)
    → Accounts (owed_store fair s)
    → s.ledger.total_bytes % word ≡ fair % word
    → Accounts s
owed-Accounts s fair a e = record {
  map = a.map;
  counted = record {
    bytes_total = e ∙ a.counted.bytes_total;
    items_total = a.counted.items_total;
    scopes_total = a.counted.scopes_total;
  };
}

abbrev pub DistinctPlans : List Plan → Type 0
DistinctPlans [] = Unit
DistinctPlans (p ∷ ps) = All (λ q. q.scope ≢ p.scope) ps × DistinctPlans ps

-- A reservation moves the byte total only.
pub reserved-Accounts :
    (s : Store)
    → Accounts s
    → (delta : ℕ)
    → Accounts (
        owed_store s.ledger.total_bytes
          (record s { ledger = (reserve_bytes delta s.ledger).ledger }))
reserved-Accounts s a delta =
    let moved = reserve_bytes-total delta s.ledger in
    let kept = reserve_bytes-scope_count delta s.ledger in
    record {
      map = a.map;
      counted = record {
        bytes_total = a.counted.bytes_total;
        items_total = omega (arith, moved.2, a.counted.items_total);
        scopes_total = omega (arith, kept, a.counted.scopes_total);
      };
    }
