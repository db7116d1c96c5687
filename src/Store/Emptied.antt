-- ===== src/Store/Emptied.antt =====
-- The account of the scopes behind newStore and wipe: every buffer that was mapped is detached, and the
-- reserved scopes stand in a fresh map.
use scopecache.Prelude.{
  ℕ, ◌%◌, ◌<◌, ◌≡◌, refl, sym, ◌∙◌, subst, List, [], ◌∷◌, some, length, arith, ap, option_intro,
  Option-cases, inl, inr, ℕ_discrete,
}
use scopecache.Word.{word, add64}
use scopecache.Map.{lookup}
use scopecache.Map.Entries.{name_of, total}
use scopecache.Item.{Bytes, Bytes-discrete}
use scopecache.Ledger.{Ledger, scope_buffer_overhead, bump_last_write_ts}
use scopecache.Ledger.Steps.{total_bytes-bump, scope_count-bump}
use scopecache.Buffer.{ScopeBuffer, new_scope_buffer}
use scopecache.Buffer.Invariant.{new_scope_buffer-IsCoherent}
use scopecache.Bulk.{attached_scope_buffer}
use scopecache.Store.{Store, BufPtr, put_buf, get_scope, map_scope, detach}
use scopecache.Store.Scopes.{
  reserved_scope_buffer, init_reserved_scope, init_each, init_reserved_scopes,
  init_reserved_scopes_locked, detach_all, count_all, wipe, reserved_scope_names,
}
use scopecache.Store.Boot.{Config, with_defaults, empty_store, new_store}
use scopecache.Store.Accounts.{IsLive, IsOrphan, charge, held, IsScopeMap, IsCounted, Accounts}
use scopecache.Store.Steps.{map_scope-Accounts, put_buf_self, put_buf_ne}

-- A fresh buffer of the store is live, whatever caps it is given.
pub attached-IsLive : (l : Ledger) (now : ℕ) → IsLive (attached_scope_buffer l now)
unfolding attached_scope_buffer new_scope_buffer
attached-IsLive l now =
    let c = new_scope_buffer-IsCoherent l.default_max_items now in
    record {
      coherent = record {
        ids = c.ids;
        seqs = c.seqs;
        uuids = c.uuids;
        ascending = c.ascending;
        seq_range = c.seq_range;
        allocated = c.allocated;
        bytes_sum = c.bytes_sum;
        id_bytes_sum = c.id_bytes_sum;
        last_seq_word = c.last_seq_word;
      };
      attached = refl;
      alive = refl;
    }

reserved-IsLive :
    (name : Bytes) (now written : ℕ) (l : Ledger)
    → IsLive (reserved_scope_buffer name now written l)
unfolding reserved_scope_buffer attached_scope_buffer new_scope_buffer
reserved-IsLive name now written l =
    let c = (attached-IsLive l now).coherent in
    record {
      coherent = record {
        ids = c.ids;
        seqs = c.seqs;
        uuids = c.uuids;
        ascending = c.ascending;
        seq_range = c.seq_range;
        allocated = c.allocated;
        bytes_sum = c.bytes_sum;
        id_bytes_sum = c.id_bytes_sum;
        last_seq_word = c.last_seq_word;
      };
      attached = refl;
      alive = refl;
    }

init_reserved_scope-Accounts :
    (now written : ℕ) (name : Bytes) (s : Store)
    → Accounts s
    → Accounts (init_reserved_scope now written name s)
unfolding init_reserved_scope get_scope reserved_scope_buffer attached_scope_buffer new_scope_buffer
init_reserved_scope-Accounts now written name s a =
    option_intro Accounts (lookup Bytes-discrete name s.scopes)
      (λ absent.
        map_scope-Accounts s a name (reserved_scope_buffer name now written s.ledger)
          (record (s.ledger) { total_bytes = add64 (s.ledger.total_bytes) scope_buffer_overhead })
          absent (reserved-IsLive name now written s.ledger) refl refl refl refl refl)
      (λ p _. a)

init_each-Accounts :
    (now written : ℕ) (names : List Bytes) (s : Store)
    → Accounts s
    → Accounts (init_each now written names s)
unfolding init_each
init_each-Accounts now written [] s a = a
init_each-Accounts now written (name ∷ names) s a =
    init_each-Accounts now written names (init_reserved_scope now written name s)
      (init_reserved_scope-Accounts now written name s a)

-- Buffers that were there before keep their contents.
abbrev KeepsOld : Store → Store → Type 0
KeepsOld s t = (p : BufPtr) → p < s.next_buf → (p < t.next_buf) × (t.bufs p ≡ s.bufs p)

init_reserved_scope-KeepsOld :
    (now written : ℕ) (name : Bytes) (s : Store)
    → KeepsOld s (init_reserved_scope now written name s)
unfolding init_reserved_scope get_scope map_scope
init_reserved_scope-KeepsOld now written name s =
    option_intro (KeepsOld s) (lookup Bytes-discrete name s.scopes)
      (λ absent p below.
        (omega (arith, below), put_buf_ne s.next_buf _ s.bufs p (λ e. omega (arith, below, e))))
      (λ q _ p below. (below, refl))

init_each-bufs :
    (now written : ℕ) (names : List Bytes) (s : Store) (p : BufPtr)
    → p < s.next_buf
    → (init_each now written names s).bufs p ≡ s.bufs p
unfolding init_each
init_each-bufs now written [] s p below = refl
init_each-bufs now written (name ∷ names) s p below =
    let (still, same) = init_reserved_scope-KeepsOld now written name s p below in
    init_each-bufs now written names (init_reserved_scope now written name s) p still ∙ same

-- A store without a scope, all of whose buffers are detached.
empty-Accounts :
    (s : Store)
    → s.scopes ≡ []
    → ((p : BufPtr) → p < s.next_buf → IsOrphan (s.bufs p))
    → s.ledger.total_bytes ≡ 0
    → s.ledger.total_items ≡ 0
    → s.ledger.scope_count ≡ 0
    → Accounts s
unfolding name_of
empty-Accounts s none_left orphans bytes items scopes = record {
  map = subst (IsScopeMap s.bufs s.next_buf) (sym none_left) (record {
    unique = tt;
    allocated = tt;
    live = λ p n e. absurd (ground arith);
    orphaned = λ p below _. orphans p below;
  });
  counted =
      subst (λ m. IsCounted s.bufs m s.ledger) (sym none_left)
        (record {
          bytes_total = omega (arith, bytes);
          items_total = omega (arith, items);
          scopes_total = omega (arith, scopes);
        });
}

module _ (p : BufPtr) where
  detached-IsOrphan :
      (bufs : BufPtr → ScopeBuffer) (q : BufPtr)
      → p ≡ q
      → IsOrphan (put_buf q (detach (bufs q)) bufs p)
  unfolding detach
  detached-IsOrphan bufs q same =
      subst IsOrphan
        (sym (ap (put_buf q (detach (bufs q)) bufs) same ∙ put_buf_self q (detach (bufs q)) bufs))
        (record { cut_off = refl; dead = refl })

  detach_all-IsOrphan_kept :
      (m : List (Bytes × BufPtr)) (bufs : BufPtr → ScopeBuffer)
      → IsOrphan (bufs p)
      → IsOrphan (detach_all m bufs p)
  unfolding detach_all
  detach_all-IsOrphan_kept [] bufs h = h
  detach_all-IsOrphan_kept ((name, q) ∷ m) bufs h =
      detach_all-IsOrphan_kept m (put_buf q (detach (bufs q)) bufs) (elim (ℕ_discrete p q) [
        | yes same ↦ detached-IsOrphan bufs q same
        | no ne ↦ subst IsOrphan (sym (put_buf_ne q (detach (bufs q)) bufs p ne)) h
      ])

  detach_all_mapped :
      (m : List (Bytes × BufPtr)) (bufs : BufPtr → ScopeBuffer) {name : Bytes}
      → name_of Bytes-discrete p m ≡ some name
      → IsOrphan (detach_all m bufs p)
  unfolding detach_all name_of
  detach_all_mapped [] bufs e = cc
  detach_all_mapped ((n, q) ∷ m) bufs {name} e = elim (ℕ_discrete p q) [
    | yes same ↦
        detach_all-IsOrphan_kept m (put_buf q (detach (bufs q)) bufs)
          (detached-IsOrphan bufs q same)
    | no ne ↦
        detach_all_mapped m (put_buf q (detach (bufs q)) bufs) {name = name} (ground (arith, ne, e))
  ]

count_all-total :
    (m : List (Bytes × BufPtr)) (bufs : BufPtr → ScopeBuffer)
    → count_all m bufs ≡ total Bytes-discrete (held bufs) m
unfolding count_all
count_all-total [] bufs = refl
count_all-total ((name, p) ∷ m) bufs = omega (arith, count_all-total m bufs)

module _ (now : ℕ) (s : Store) where
  detach_all-IsOrphan :
      Accounts s → (p : BufPtr) → p < s.next_buf → IsOrphan (detach_all s.scopes s.bufs p)
  detach_all-IsOrphan a p below = elim (Option-cases (name_of Bytes-discrete p s.scopes)) [
    | inl free ↦ detach_all-IsOrphan_kept p s.scopes s.bufs (a.map.orphaned p below free)
    | inr (name, e) ↦ detach_all_mapped p s.scopes s.bufs e
  ]

  pub wipe-Accounts : Accounts s → Accounts (wipe now s).1
  unfolding wipe init_reserved_scopes_locked
  wipe-Accounts a =
      init_each-Accounts now _ reserved_scope_names _
        (empty-Accounts _ refl (detach_all-IsOrphan a) (moved.0) (moved.1) counted)
    where
      cleared : Ledger
      cleared = record (s.ledger) { total_bytes = 0; total_items = 0; scope_count = 0 }

      moved :
          ((bump_last_write_ts now cleared).total_bytes ≡ 0)
          × ((bump_last_write_ts now cleared).total_items ≡ 0)
      moved = total_bytes-bump now cleared

      counted : (bump_last_write_ts now cleared).scope_count ≡ 0
      counted = scope_count-bump now cleared

  -- On a store that keeps its account of the scopes, wipe returns the number of scopes in the map
  -- and, modulo 2 ^ 64, the item total and the sum of the bytes and overheads of the scopes, and
  -- leaves every buffer that was allocated before detached from the store.
  pub wipe-counts :
      Accounts s
      → ((wipe now s).0.scope_count ≡ length s.scopes)
        × ((wipe now s).0.total_items % word ≡ s.ledger.total_items % word)
        × ((wipe now s).0.freed_bytes % word ≡ total Bytes-discrete (charge s.bufs) s.scopes % word)
        × ((p : BufPtr) → p < s.next_buf → IsOrphan ((wipe now s).1.bufs p))
  unfolding wipe init_reserved_scopes_locked
  wipe-counts a = (
    refl,
    ap (λ x. x % word) (count_all-total s.scopes s.bufs) ∙ sym a.counted.items_total,
    a.counted.bytes_total,
    λ p below.
        subst IsOrphan (sym (init_each-bufs now _ reserved_scope_names _ p below))
          (detach_all-IsOrphan a p below),
  )

pub new_store-Accounts : (c : Config) (now : ℕ) → Accounts (new_store c now)
unfolding new_store init_reserved_scopes empty_store
new_store-Accounts c now = init_each-Accounts now 0 reserved_scope_names _ (
    empty-Accounts (empty_store (with_defaults c)) refl (λ p below. absurd (omega (arith, below)))
      refl refl refl)
