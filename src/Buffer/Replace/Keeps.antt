-- ===== src/Buffer/Replace/Keeps.antt =====
-- A scope that takes a replacement over satisfies the invariant of scopes.
use scopecache.Prelude.{
  ℕ, ◌+◌, ◌%◌, ◌≤◌, ◌<◌, ◌≡◌, refl, sym, ◌∙◌, subst, Bool, none, List, [], ◌∷◌, map, length, All,
  inl, inr, arith, ℕ_discrete,
}
use scopecache.Word.{word}
use scopecache.Map.{lookup}
use scopecache.Map.Index.{find, Distinct}
use scopecache.Item.{Bytes-discrete, Uuid, Item, Json, Error, ok, err}
use scopecache.Buffer.{Ptr, Heap, ScopeBuffer, id_tag, seq_tag}
use scopecache.Buffer.Replace.{
  ScopeReplacement, stamp_items, ptrs_from, heap_of, index_uuids, empty_replacement, filled,
  assemble, build_replacement_state, sum_item_bytes, adopt,
}
use scopecache.Buffer.Order.{Ascending}
use scopecache.Buffer.Invariant.{IsCoherent}
use scopecache.Buffer.Remove.{index_items-IsIndexed}
use scopecache.Buffer.Replace.Batch.{
  Result-cases, Numbered, stamp_items-Batch, map-heap_of, length-ptrs_from, All-ptrs_from,
  Distinct-ptrs, index_uuids-Uuids,
}

module _ (heap : Heap) where
  above :
      (m n : ℕ) (ps : List Ptr) → m ≤ n → Numbered n (map heap ps) → All (λ q. m < (heap q).seq) ps
  above m n [] h k = tt
  above m n (p ∷ ps) h k = (omega (arith, k.0), above m (n + 1) ps (omega arith) k.1)

  Numbered-Ascending :
      (n : ℕ) (ps : List Ptr) → Numbered n (map heap ps) → Ascending (λ p. (heap p).seq) ps
  Numbered-Ascending n [] k = tt
  Numbered-Ascending n (p ∷ ps) k =
      (above (heap p).seq (n + 1) ps (omega (arith, k.0)) k.1, Numbered-Ascending (n + 1) ps k.1)

  Numbered-range :
      (n top : ℕ) (ps : List Ptr)
      → n + length ps ≤ top
      → Numbered n (map heap ps)
      → All (λ p. (1 ≤ (heap p).seq) × ((heap p).seq ≤ top)) ps
  Numbered-range n top [] h k = tt
  Numbered-range n top (p ∷ ps) h k =
      ((omega (arith, k.0), omega (arith, k.0)), Numbered-range (n + 1) top ps (omega arith) k.1)

  find_past :
      (k : ℕ) (ps : List Ptr)
      → All (λ q. k < (heap q).seq) ps
      → find ℕ_discrete (λ p. seq_tag (heap p)) k ps ≡ none
  unfolding find seq_tag
  find_past k [] h = refl
  find_past k (p ∷ ps) h = ground (arith, h.0, find_past k ps h.1)

  Ascending-Distinct :
      (ps : List Ptr)
      → Ascending (λ p. (heap p).seq) ps
      → Distinct ℕ_discrete (λ p. seq_tag (heap p)) ps
  unfolding seq_tag
  Ascending-Distinct [] a = tt
  Ascending-Distinct (p ∷ ps) a = (
    λ k e.
        let same : (heap p).seq ≡ k = cc e in
        find_past k ps (subst (λ n. All (λ q. n < (heap q).seq) ps) same a.0),
    Ascending-Distinct ps a.1,
  )

-- The scope that takes over what `r` holds.
abbrev pub Adopted : ScopeReplacement → Type 0
Adopted r = (b : ScopeBuffer) (now : ℕ) → IsCoherent (adopt r (sum_item_bytes r.heap r.items) now b)

assemble-refused :
    (built : List Item) (r : ScopeReplacement) (x : Error)
    → index_uuids (heap_of built) (ptrs_from 0 (length built)) [] ≡ err x
    → ¬ assemble built ≡ ok r
unfolding assemble
assemble-refused built r x h e =
    let refused : assemble built ≡ err x = rw (h, assemble) refl in cc (sym refused ∙ e)

assemble-filled :
    (built : List Item) (m : List (Uuid × Ptr)) (r : ScopeReplacement)
    → index_uuids (heap_of built) (ptrs_from 0 (length built)) [] ≡ ok m
    → assemble built ≡ ok r
    → filled built m ≡ r
unfolding assemble
assemble-filled built m r h e =
    let passed : assemble built ≡ ok (filled built m) = rw (h, assemble) refl in cc (sym passed ∙ e)

assemble-Adopted :
    (built : List Item) (r : ScopeReplacement)
    → Numbered 0 built
    → Distinct Bytes-discrete id_tag built
    → length built < word
    → assemble built ≡ ok r
    → Adopted r
unfolding assemble filled adopt sum_item_bytes lookup
assemble-Adopted built r numbered ids short e b now =
    elim (Result-cases (index_uuids heap ptrs [])) [
      | inl (x, h) ↦ absurd (assemble-refused built r x h e)
      | inr (m, h) ↦
          let u = index_uuids-Uuids heap ptrs [] m h in
          subst Adopted {x = filled built m} (assemble-filled built m r h e)
            (λ b now. record {
              ids = index_items-IsIndexed Bytes-discrete _ ptrs (
                  Distinct-ptrs Bytes-discrete id_tag heap ptrs
                    (subst (Distinct Bytes-discrete id_tag) (sym same) ids));
              seqs = index_items-IsIndexed ℕ_discrete _ ptrs (Ascending-Distinct heap ptrs rising);
              uuids = record { found = λ k. ground (arith, u.found k); distinct = u.distinct };
              ascending = rising;
              seq_range =
                  Numbered-range heap 0 (length built % word) ptrs
                    (omega (arith, length-ptrs_from 0 (length built))) dense;
              allocated = All-ptrs_from 0 (length built) (length built) (omega arith);
              bytes_sum = refl;
              id_bytes_sum = refl;
              last_seq_word = omega arith;
            })
            b now
    ]
  where
    heap : Heap
    heap = heap_of built

    ptrs : List Ptr
    ptrs = ptrs_from 0 (length built)

    same : map heap ptrs ≡ built
    same = map-heap_of [] built

    dense : Numbered 0 (map heap ptrs)
    dense = subst (Numbered 0) (sym same) numbered

    rising : Ascending (λ p. (heap p).seq) ptrs
    rising = Numbered-Ascending heap 0 ptrs dense

-- The empty batch leaves an empty scope.
empty_replacement-Adopted : Adopted empty_replacement
unfolding adopt sum_item_bytes lookup find
empty_replacement-Adopted b now = record {
  ids = record { found = λ k. refl; distinct = tt };
  seqs = record { found = λ k. refl; distinct = tt };
  uuids = record { found = λ k. refl; distinct = tt };
  ascending = tt;
  seq_range = tt;
  allocated = tt;
  bytes_sum = refl;
  id_bytes_sum = refl;
  last_seq_word = omega arith;
}

module _ (json : Json) (mint : Bool) (mints : ℕ → Uuid) (now : ℕ) where
  -- A batch that is prepared makes a coherent scope of whatever scope takes it over.
  pub build_replacement_state-Adopted :
      (items : List Item) (r : ScopeReplacement)
      → length items < word
      → build_replacement_state json items mint mints now ≡ ok r
      → Adopted r
  unfolding build_replacement_state
  build_replacement_state-Adopted [] r short e =
      subst Adopted {x = empty_replacement} (cc e) empty_replacement-Adopted
  build_replacement_state-Adopted (i ∷ is) r short e =
      elim (Result-cases (stamp_items json mint mints now 0 [] (i ∷ is))) [
        | inl (x, h) ↦ absurd (ground arith)
        | inr (built, h) ↦
            let batch = stamp_items-Batch json mint mints now 0 [] (i ∷ is) built (omega arith) h in
            assemble-Adopted built r batch.numbered batch.distinct_ids
              (omega (arith, batch.same_length)) (ground arith)
      ]
