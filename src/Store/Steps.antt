-- ===== src/Store/Steps.antt =====
-- What each step on the store does to its account of the scopes.
use scopecache.Prelude.{
  ℕ, ◌+◌, ◌%◌, ◌<◌, ◌≡◌, ◌≢◌, refl, sym, ◌∙◌, subst, fun_ext, List, [], ◌∷◌, ◌++◌, none, some,
  All-append, length, ◌==◌, if◌then◌else◌, arith, ap, length-append, sum_by-append, ℕ_discrete,
}
use scopecache.Word.{word, add64}
use scopecache.Map.{lookup, insert, erase}
use scopecache.Map.Entries.{
  Unique, name_of, total, insert_fresh, total-change, total-other, total-erase, length-erase,
  name_of-append, name_of-erase, Unique-append, Unique-erase, All-erase, name_of-lookup, All-weaken,
  All-below,
}
use scopecache.Item.{Bytes, Bytes-discrete}
use scopecache.Ledger.{Ledger, scope_buffer_overhead}
use scopecache.Buffer.{ScopeBuffer}
use scopecache.Store.{Store, BufPtr, put_buf, map_scope, detach}
use scopecache.Store.Accounts.{IsLive, IsOrphan, charge, held, IsScopeMap, IsCounted, Accounts}

pub put_buf_self :
    (p : BufPtr) (b : ScopeBuffer) (bufs : BufPtr → ScopeBuffer) → put_buf p b bufs p ≡ b
unfolding put_buf
put_buf_self p b bufs = ground arith

pub put_buf_ne :
    (p : BufPtr) (b : ScopeBuffer) (bufs : BufPtr → ScopeBuffer) (q : BufPtr)
    → q ≢ p
    → put_buf p b bufs q ≡ bufs q
unfolding put_buf
put_buf_ne p b bufs q h = ground arith

pub put_buf_back : (p : BufPtr) (bufs : BufPtr → ScopeBuffer) → put_buf p (bufs p) bufs ≡ bufs
unfolding put_buf
put_buf_back p bufs = fun_ext (λ q. ground arith)

-- A step of one live scope, which moves the totals with it.
module _ (bufs : BufPtr → ScopeBuffer) (next p : BufPtr) (m : List (Bytes × BufPtr))
    (b : ScopeBuffer) where
  pub put_buf-IsScopeMap :
      IsScopeMap bufs next m
      → (IsLive (bufs p) → IsLive b)
      → (IsOrphan (bufs p) → IsOrphan b)
      → IsScopeMap (put_buf p b bufs) next m
  put_buf-IsScopeMap h live orphaned = record {
    unique = h.unique;
    allocated = h.allocated;
    live = λ q name e. elim (ℕ_discrete q p) [
      | yes same ↦
          subst IsLive (sym (put_buf_self p b bufs) ∙ ap (put_buf p b bufs) (sym same))
            (live (subst (λ r. IsLive (bufs r)) same (h.live q name e)))
      | no ne ↦ subst IsLive (sym (put_buf_ne p b bufs q ne)) (h.live q name e)
    ];
    orphaned = λ q below e. elim (ℕ_discrete q p) [
      | yes same ↦
          subst IsOrphan (sym (put_buf_self p b bufs) ∙ ap (put_buf p b bufs) (sym same))
            (orphaned (subst (λ r. IsOrphan (bufs r)) same (h.orphaned q below e)))
      | no ne ↦ subst IsOrphan (sym (put_buf_ne p b bufs q ne)) (h.orphaned q below e)
    ];
  }

  put_buf-charge : (q : BufPtr) → q ≢ p → charge (put_buf p b bufs) q ≡ charge bufs q
  put_buf-charge q ne = rw (put_buf_ne p b bufs q ne)

  put_buf-held : (q : BufPtr) → q ≢ p → held (put_buf p b bufs) q ≡ held bufs q
  put_buf-held q ne = rw (put_buf_ne p b bufs q ne)

  pub put_buf-IsCounted :
      (l k : Ledger) {name : Bytes}
      → Unique Bytes-discrete m
      → name_of Bytes-discrete p m ≡ some name
      → IsCounted bufs m l
      → (k.total_bytes + (bufs p).bytes) % word ≡ (l.total_bytes + b.bytes) % word
      → (k.total_items + held bufs p) % word ≡ (l.total_items + length b.items) % word
      → k.scope_count ≡ l.scope_count
      → IsCounted (put_buf p b bufs) m k
  put_buf-IsCounted l k unique e c bytes items scopes = record {
    bytes_total =
        let moved =
          total-change Bytes-discrete (charge bufs) (charge (put_buf p b bufs)) p m put_buf-charge
            unique e in
        let now = ap (λ x. x.bytes) (put_buf_self p b bufs) in
        omega (arith, moved, now, bytes, c.bytes_total);
    items_total =
        let moved =
          total-change Bytes-discrete (held bufs) (held (put_buf p b bufs)) p m put_buf-held unique
            e in
        let now = ap (λ x. length x.items) (put_buf_self p b bufs) in
        omega (arith, moved, now, items, c.items_total);
    scopes_total = omega (arith, scopes, c.scopes_total);
  }

-- Any other buffer than the map's may change, and one that was not allocated yet may be taken.
module _ (s : Store) (a : Accounts s) where
  -- A new name for a new live buffer without items.
  pub map_scope-Accounts :
      (name : Bytes) (b : ScopeBuffer) (l : Ledger)
      → lookup Bytes-discrete name s.scopes ≡ none
      → IsLive b
      → b.bytes ≡ 0
      → b.items ≡ []
      → l.total_bytes ≡ add64 (s.ledger.total_bytes) scope_buffer_overhead
      → l.total_items ≡ s.ledger.total_items
      → l.scope_count ≡ s.ledger.scope_count
      → Accounts (map_scope name b (record s { ledger = l }))
  unfolding map_scope
  map_scope-Accounts name b l absent live no_bytes no_items bytes items scopes = record {
    map = subst (IsScopeMap bufs' (s.next_buf + 1)) (sym grown) (record {
      unique =
          Unique-append Bytes-discrete name s.next_buf s.scopes a.map.unique absent a.map.allocated;
      allocated =
          All-append (λ e. e.1 < s.next_buf + 1) s.scopes ((name, s.next_buf) ∷ [])
            (All-weaken s.next_buf s.scopes a.map.allocated) (omega arith, tt);
      live = λ q n e. elim (ℕ_discrete q s.next_buf) [
        | yes same ↦ subst IsLive (sym (self q same)) live
        | no ne ↦ subst IsLive (sym (put_buf_ne s.next_buf b s.bufs q ne)) (
            a.map.live q n
              (ground (arith, e, name_of-append Bytes-discrete q s.next_buf name s.scopes, ne)))
      ];
      orphaned = λ q below e. elim (ℕ_discrete q s.next_buf) [
        | yes same ↦
            absurd
              (ground (arith, e, name_of-append Bytes-discrete q s.next_buf name s.scopes, same))
        | no ne ↦ subst IsOrphan (sym (put_buf_ne s.next_buf b s.bufs q ne)) (
            a.map.orphaned q (omega (arith, below, ne))
              (ground (arith, e, name_of-append Bytes-discrete q s.next_buf name s.scopes, ne)))
      ];
    });
    counted = record {
      bytes_total =
          let more = sum_grown (λ x. x.bytes + scope_buffer_overhead) in
          omega (arith, more, no_bytes, bytes, a.counted.bytes_total);
      items_total =
          let more = sum_grown (λ x. length x.items) in
          omega (arith, more, ap length no_items, items, a.counted.items_total);
      scopes_total =
          let more = length-append s.scopes ((name, s.next_buf) ∷ []) in
          omega (arith, ap length grown, more, scopes, a.counted.scopes_total);
    };
  }
    where
      bufs' : BufPtr → ScopeBuffer
      bufs' = put_buf s.next_buf b s.bufs

      grown : insert Bytes-discrete name s.next_buf s.scopes ≡ s.scopes ++ ((name, s.next_buf) ∷ [])
      grown = insert_fresh Bytes-discrete name s.next_buf s.scopes absent

      self : (q : BufPtr) → q ≡ s.next_buf → bufs' q ≡ b
      self q same = ap bufs' same ∙ put_buf_self s.next_buf b s.bufs

      sum_grown :
          (f : ScopeBuffer → ℕ)
          → total Bytes-discrete (λ q. f (bufs' q)) (insert Bytes-discrete name s.next_buf s.scopes)
            ≡ total Bytes-discrete (λ q. f (s.bufs q)) s.scopes + f b
      sum_grown f =
          let parts = sum_by-append (λ e. f (bufs' e.1)) s.scopes ((name, s.next_buf) ∷ []) in
          let old =
            total-other Bytes-discrete (λ q. f (s.bufs q)) (λ q. f (bufs' q)) s.next_buf s.scopes
              (λ q ne. ap f (put_buf_ne s.next_buf b s.bufs q ne))
              (All-below s.next_buf s.scopes a.map.allocated) in
          let last = ap f (put_buf_self s.next_buf b s.bufs) in
          ap (total Bytes-discrete (λ q. f (bufs' q))) grown ∙ omega (arith, parts, old, last)

  -- A name that goes with its buffer: the counters give back what the scope was charged.
  pub unmap-Accounts :
      (name : Bytes) (p : BufPtr) (l : Ledger)
      → lookup Bytes-discrete name s.scopes ≡ some p
      → (l.total_bytes + charge s.bufs p) % word ≡ s.ledger.total_bytes % word
      → (l.total_items + held s.bufs p) % word ≡ s.ledger.total_items % word
      → (l.scope_count + 1) % word ≡ s.ledger.scope_count % word
      → Accounts (record s {
        scopes = erase Bytes-discrete name s.scopes;
        bufs = put_buf p (detach (s.bufs p)) s.bufs;
        ledger = l;
      })
  unfolding detach
  unmap-Accounts name p l found bytes items scopes = record {
    map = record {
      unique = Unique-erase Bytes-discrete name s.scopes a.map.unique;
      allocated = All-erase Bytes-discrete (λ e. e.1 < s.next_buf) name s.scopes a.map.allocated;
      live = λ q n e. elim (ℕ_discrete q p) [
        | yes same ↦ absurd (ground (arith, named q, e, same))
        | no ne ↦
            subst IsLive (sym (put_buf_ne p (detach (s.bufs p)) s.bufs q ne))
              (a.map.live q n (ground (arith, named q, e, ne)))
      ];
      orphaned = λ q below e. elim (ℕ_discrete q p) [
        | yes same ↦
            subst IsOrphan (sym (ap bufs' same ∙ put_buf_self p (detach (s.bufs p)) s.bufs))
              (record { cut_off = refl; dead = refl })
        | no ne ↦
            subst IsOrphan (sym (put_buf_ne p (detach (s.bufs p)) s.bufs q ne))
              (a.map.orphaned q below (ground (arith, named q, e, ne)))
      ];
    };
    counted = record {
      bytes_total =
          let less =
            total-erase Bytes-discrete (charge bufs') name s.scopes {p = p} a.map.unique found in
          let same =
            total-change Bytes-discrete (charge s.bufs) (charge bufs') p s.scopes
              (λ q ne.
                ap (λ x. x.bytes + scope_buffer_overhead)
                  (put_buf_ne p (detach (s.bufs p)) s.bufs q ne))
              a.map.unique own_name in
          omega (arith, less, same, bytes, a.counted.bytes_total);
      items_total =
          let less =
            total-erase Bytes-discrete (held bufs') name s.scopes {p = p} a.map.unique found in
          let same =
            total-change Bytes-discrete (held s.bufs) (held bufs') p s.scopes
              (λ q ne. ap (λ x. length x.items) (put_buf_ne p (detach (s.bufs p)) s.bufs q ne))
              a.map.unique own_name in
          omega (arith, less, same, items, a.counted.items_total);
      scopes_total =
          let less = length-erase Bytes-discrete name s.scopes {p = p} a.map.unique found in
          omega (arith, less, scopes, a.counted.scopes_total);
    };
  }
    where
      bufs' : BufPtr → ScopeBuffer
      bufs' = put_buf p (detach (s.bufs p)) s.bufs

      named :
          (q : BufPtr)
          → name_of Bytes-discrete q (erase Bytes-discrete name s.scopes)
            ≡ (if q == p then none else name_of Bytes-discrete q s.scopes)
      named q = name_of-erase Bytes-discrete name p q s.scopes a.map.unique found

      own_name : name_of Bytes-discrete p s.scopes ≡ some name
      own_name = name_of-lookup Bytes-discrete name s.scopes a.map.unique found
