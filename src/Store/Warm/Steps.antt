-- ===== src/Store/Warm/Steps.antt =====
-- The commit of one plan, and the account of the scopes up to what the plans to come are owed.
use scopecache.Prelude.{ℕ, ◌+◌, ◌%◌, ◌≡◌, true, ◌==◌, if◌then◌else◌, some, length, arith}
use scopecache.Word.{word, add64, sub64}
use scopecache.Map.Entries.{name_of}
use scopecache.Item.{Bytes, Bytes-discrete}
use scopecache.Ledger.Steps.{total_bytes-bump, scope_count-bump}
use scopecache.Buffer.{ScopeBuffer, State}
use scopecache.Buffer.Invariant.{IsCoherent}
use scopecache.Buffer.Replace.{adopt, swap_items, commit_replacement_pre_reserved}
use scopecache.Store.{Store, BufPtr, put_buf}
use scopecache.Store.Accounts.{Accounts}
use scopecache.Store.Steps.{put_buf-IsScopeMap, put_buf-IsCounted}
use scopecache.Store.Warm.{Plan}

-- What the commit does to the three counters of a store-attached scope.
pub record Committed (p : Plan) (snapshot : ℕ) (s t : State) : Type 0 where
  pub bytes_moved :
      (t.ledger.total_bytes + s.buf.bytes) % word ≡ (s.ledger.total_bytes + snapshot) % word
  pub items_moved :
      (t.ledger.total_items + length s.buf.items) % word
      ≡ (s.ledger.total_items + length t.buf.items) % word
  pub scopes_kept : t.ledger.scope_count ≡ s.ledger.scope_count

commit-Committed :
    (p : Plan) (snapshot now : ℕ) (s : State)
    → s.buf.has_store ≡ true
    → Committed p snapshot s
        (commit_replacement_pre_reserved p.replacement p.new_bytes snapshot now s)
unfolding commit_replacement_pre_reserved adopt
commit-Committed p snapshot now s attached =
    let r = p.replacement in
    let drift = sub64 s.buf.bytes snapshot in
    let l = swap_items r s.buf s.ledger in
    let settled = if drift == 0 then l else record l { total_bytes = sub64 l.total_bytes drift } in
    let moved = total_bytes-bump now settled in
    let kept = scope_count-bump now settled in
    record {
      bytes_moved = ground (arith, moved.0);
      items_moved = ground (arith, moved.1);
      scopes_kept = ground (arith, kept);
    }

-- The store with another byte total.
abbrev pub owed_store : ℕ → Store → Store
owed_store g s = record s { ledger = record (s.ledger) { total_bytes = g } }

-- A store whose byte total would balance at `fair`.
pub record Balanced (s t : Store) (p : Plan) (snapshot fair : ℕ) : Type 0 where
  pub fair' : ℕ
  pub account : Accounts (owed_store fair' t)
  pub moved :
      (t.ledger.total_bytes + fair + p.new_bytes) % word
      ≡ (s.ledger.total_bytes + snapshot + fair') % word

-- The scope takes the replacement over as a scope that satisfies its invariant.
pub record IsReady (p : Plan) : Type 0 where
  pub ready : (b : ScopeBuffer) (now : ℕ) → IsCoherent (adopt p.replacement p.new_bytes now b)

abbrev pub commit_at : ℕ → Plan → ℕ → BufPtr → Store → Store
commit_at now p snapshot q s =
    let t =
      commit_replacement_pre_reserved p.replacement p.new_bytes snapshot now
        (record { ledger = s.ledger; buf = s.bufs q }) in
    record s { ledger = t.ledger; bufs = put_buf q t.buf s.bufs }

pub commit_at-Balanced :
    (now : ℕ) (p : Plan) (snapshot : ℕ) (q : BufPtr) (s : Store) (fair : ℕ) {name : Bytes}
    → IsReady p
    → Accounts (owed_store fair s)
    → name_of Bytes-discrete q s.scopes ≡ some name
    → Balanced s (commit_at now p snapshot q s) p snapshot fair
unfolding commit_replacement_pre_reserved adopt
commit_at-Balanced now p snapshot q s fair {name} ready a e =
    let live = a.map.live q name e in
    let before : State = record { ledger = s.ledger; buf = s.bufs q } in
    let t = commit_replacement_pre_reserved p.replacement p.new_bytes snapshot now before in
    let c = commit-Committed p snapshot now before live.attached in
    let fair_now = add64 fair (sub64 p.new_bytes (s.bufs q).bytes) in
    record {
      fair' = fair_now;
      account = record {
        map =
            put_buf-IsScopeMap s.bufs s.next_buf q s.scopes t.buf a.map
              (λ old. record {
                coherent = ready.ready (s.bufs q) now;
                attached = old.attached;
                alive = old.alive;
              })
              (λ old. record { cut_off = old.cut_off; dead = old.dead });
        counted =
            put_buf-IsCounted s.bufs s.next_buf q s.scopes t.buf
              (record (s.ledger) { total_bytes = fair })
              (record (t.ledger) { total_bytes = fair_now }) a.map.unique e a.counted (omega arith)
              c.items_moved c.scopes_kept;
      };
      moved = omega (arith, c.bytes_moved);
    }
