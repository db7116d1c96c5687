-- ===== src/Store/Writes/Rollback.antt =====
-- The store behind an append that fails.
use scopecache.Prelude.{
  ℕ, zero, suc, ◌+◌, ◌<◌, ◌≡◌, refl, sym, ◌∙◌, ap, subst, true, ◌&&◌, ◌==◌, List, [], Option, none,
  some, length, arith, if_intro, option_intro,
}
use scopecache.Word.{word, add64, slt}
use scopecache.Map.{lookup, insert}
use scopecache.Map.Entries.{erase-insert_fresh, lookup-insert_self}
use scopecache.Item.{
  Bytes, Bytes-discrete, Uuid, Item, Json, Error, Result, ok, err, is_empty, approx_item_size,
}
use scopecache.Ledger.{Ledger, scope_buffer_overhead, reserve_bytes}
use scopecache.Ledger.Steps.{reserve_bytes-total}
use scopecache.Buffer.{ScopeBuffer, State, new_scope_buffer}
use scopecache.Buffer.Kept.{reserve_if-refused}
use scopecache.Buffer.Locked.{insert_new_item, prepare_item, reserve_if, item_cap_exceeded}
use scopecache.Buffer.ScopeCount.{reserve_bytes-scope_count}
use scopecache.Buffer.Write.{append_item, id_exists}
use scopecache.Bulk.{attached_scope_buffer}
use scopecache.Store.{
  Store, BufPtr, put_buf, on_buf, get_scope, map_scope, is_nil,
  get_or_create_scope_tracking_created, cleanup_if_empty_and_unused,
}
use scopecache.Store.Steps.{put_buf_self, put_buf_back}
use mathlib.Core.Option.{some-injective}
use scopecache.Store.Writes.{Env, answer, finish_append, continue_append, append_one_trusted}

-- The scope map and the counters of the store are as they were.
pub record Unchanged (s t : Store) : Type 0 where
  pub same_scopes : t.scopes ≡ s.scopes
  pub same_bytes_total : t.ledger.total_bytes ≡ s.ledger.total_bytes
  pub same_items_total : t.ledger.total_items ≡ s.ledger.total_items
  pub same_scope_count : t.ledger.scope_count ≡ s.ledger.scope_count

-- Where the answer is an error, the store is unchanged.
abbrev pub UndoneOnError : Store → Option (Result Item × Store) → Type 0
UndoneOnError s none = Unit
UndoneOnError s (some (ok item, t)) = Unit
UndoneOnError s (some (err e, t)) = Unchanged s t

Unchanged-refl : (s : Store) → Unchanged s s
Unchanged-refl s = record {
  same_scopes = refl;
  same_bytes_total = refl;
  same_items_total = refl;
  same_scope_count = refl;
}

is_nil-empty : (xs : List ℕ) → xs ≡ [] → is_nil xs ≡ true
unfolding is_nil
is_nil-empty xs e = ap is_nil e

-- A refused append leaves the state of the scope as it was.
abbrev StillOnError : State → Result Item × State → Type 0
StillOnError s r = (e : Error) → r.0 ≡ err e → r.1 ≡ s

append_item-error :
    (json : Json) (grow : ℕ → ℕ → ℕ) (item : Item) (now : ℕ) (minted : Uuid) (s : State)
    → StillOnError s (append_item json grow item now minted s)
unfolding append_item insert_new_item
append_item-error json grow item now minted s =
    let P = StillOnError s in
    let size = approx_item_size (prepare_item json item now minted s.buf) in
    if_intro P s.buf.detached (λ _ e h. refl)
      (λ _.
        if_intro P (item_cap_exceeded s.buf (length s.buf.items + 1)) (λ _ e h. refl)
          (λ _.
            if_intro P (id_exists item.id s.buf) (λ _ e h. refl)
              (λ _.
                if_intro P (s.buf.has_store && slt s.buf.max_item_bytes size) (λ _ e h. refl)
                  (λ _.
                    if_intro P (reserve_if s.buf.has_store size s.ledger).granted
                      (λ _ e h. absurd (ground arith))
                      (λ refused e h.
                        ap (λ l. record s { ledger = l })
                          (reserve_if-refused s.buf.has_store size s.ledger refused))))))

cleanup-created :
    (name : Bytes) (b : ScopeBuffer) (l : Ledger) (s : Store)
    → lookup Bytes-discrete name s.scopes ≡ none
    → b.items ≡ []
    → l.total_bytes ≡ add64 (s.ledger.total_bytes) scope_buffer_overhead
    → l.total_items ≡ s.ledger.total_items
    → l.scope_count ≡ s.ledger.scope_count
    → s.ledger.total_bytes < word
    → s.ledger.scope_count < word
    → Unchanged s
        (cleanup_if_empty_and_unused name s.next_buf (map_scope name b (record s { ledger = l })))
unfolding cleanup_if_empty_and_unused get_scope map_scope
cleanup-created name b l s absent empty bytes items scopes small few =
    option_intro (Unchanged s)
      (lookup Bytes-discrete name (insert Bytes-discrete name s.next_buf s.scopes))
      (λ gone. absurd (ground (arith, gone, there)))
      (λ cur found.
        if_intro (Unchanged s)
          ((cur == s.next_buf) && is_nil (put_buf s.next_buf b s.bufs s.next_buf).items)
          (λ _. record {
            same_scopes = erase-insert_fresh Bytes-discrete name s.next_buf s.scopes absent;
            same_bytes_total = omega (arith, bytes, small);
            same_items_total = items;
            same_scope_count = omega (arith, scopes, few);
          })
          (λ kept. absurd (ground (arith, kept, ours cur found, nil))))
  where
    there :
        lookup Bytes-discrete name (insert Bytes-discrete name s.next_buf s.scopes)
        ≡ some s.next_buf
    there = lookup-insert_self Bytes-discrete name s.next_buf s.scopes

    ours :
        (cur : BufPtr)
        → lookup Bytes-discrete name (insert Bytes-discrete name s.next_buf s.scopes) ≡ some cur
        → cur ≡ s.next_buf
    ours cur found = some-injective cur s.next_buf (sym found ∙ there)

    nil : is_nil (put_buf s.next_buf b s.bufs s.next_buf).items ≡ true
    nil = ap (λ x. is_nil x.items) (put_buf_self s.next_buf b s.bufs) ∙ is_nil-empty b.items empty

module _ (env : Env) (s : Store) where
  finish_append-Undone :
      (f : Item → Store → Option (Result Item × Store)) (scope : Bytes) (p : BufPtr)
      (r : Result Item × Store)
      → ((e : Error) → r.0 ≡ err e → Unchanged s (cleanup_if_empty_and_unused scope p r.1))
      → UndoneOnError s (finish_append env f scope (p, true) r)
  unfolding finish_append
  finish_append-Undone f scope p (err e, t) h = h e refl
  finish_append-Undone f scope p (ok item, t) h = answer_undone _
    where
      answer_undone : (o : Option Store) → UndoneOnError s (answer (ok item) o)
      answer_undone none = tt
      answer_undone (some u) = tt

  created-Undone :
      (f : Item → Store → Option (Result Item × Store)) (depth : ℕ) (item : Item) (l : Ledger)
      → lookup Bytes-discrete item.scope s.scopes ≡ none
      → l.total_bytes ≡ add64 (s.ledger.total_bytes) scope_buffer_overhead
      → l.total_items ≡ s.ledger.total_items
      → l.scope_count ≡ s.ledger.scope_count
      → s.ledger.total_bytes < word
      → s.ledger.scope_count < word
      → (b : ScopeBuffer) → b.items ≡ []
      → UndoneOnError s (
          continue_append env f depth item
            (ok (s.next_buf, true), map_scope item.scope b (record s { ledger = l })))
  unfolding continue_append on_buf
  created-Undone f depth item l absent bytes items scopes small few b empty =
      let made = map_scope item.scope b (record s { ledger = l }) in
      let seen : State = record { ledger = made.ledger; buf = made.bufs s.next_buf } in
      let r = append_item env.json env.grow item (env.clock depth) (env.mint depth) seen in
      finish_append-Undone f item.scope s.next_buf
        (r.0, record made { ledger = r.1.ledger; bufs = put_buf s.next_buf r.1.buf made.bufs })
        (λ e h.
          let still =
            append_item-error env.json env.grow item (env.clock depth) (env.mint depth) seen e h in
          let back =
            ap (λ t. record made { ledger = t.ledger; bufs = put_buf s.next_buf t.buf made.bufs })
              still
            ∙ ap (λ bufs. record made { bufs = bufs }) (put_buf_back s.next_buf made.bufs) in
          subst (λ t. Unchanged s (cleanup_if_empty_and_unused item.scope s.next_buf t)) (sym back)
            (cleanup-created item.scope b l s absent empty bytes items scopes small few))

  -- Where the scope of an item is not there and the byte total and the scope count are below 2 ^
  -- 64, an append that answers with an error leaves the scope map, the byte total, the item total
  -- and the scope count as they were: the scope that was made for it is gone again.
  pub append_one_trusted-Undone :
      (fuel depth : ℕ) (item : Item)
      → lookup Bytes-discrete item.scope s.scopes ≡ none
      → s.ledger.total_bytes < word
      → s.ledger.scope_count < word
      → UndoneOnError s (append_one_trusted env fuel depth item s)
  unfolding append_one_trusted get_or_create_scope_tracking_created get_scope continue_append
      attached_scope_buffer new_scope_buffer
  append_one_trusted-Undone zero depth item absent small few = tt
  append_one_trusted-Undone (suc fuel) depth item absent small few =
      let append = append_one_trusted env fuel (depth + 1) in
      let l = (reserve_bytes scope_buffer_overhead s.ledger).ledger in
      let moved = reserve_bytes-total scope_buffer_overhead s.ledger in
      if_intro (λ x. UndoneOnError s (continue_append env append depth item x))
        (is_empty item.scope) (λ _. Unchanged-refl s)
        (λ _.
          option_intro (λ x. UndoneOnError s (continue_append env append depth item x))
            (lookup Bytes-discrete item.scope s.scopes)
            (λ _.
              if_intro (λ x. UndoneOnError s (continue_append env append depth item x))
                (reserve_bytes scope_buffer_overhead s.ledger).granted
                (λ granted.
                  created-Undone append depth item l absent (moved.0 granted) moved.2
                    (reserve_bytes-scope_count scope_buffer_overhead s.ledger) small few
                    (attached_scope_buffer s.ledger (env.clock depth)) refl)
                (λ _. Unchanged-refl s))
            (λ p found. absurd (ground (arith, absent, found))))
