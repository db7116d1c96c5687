-- ===== src/Buffer/Remove.antt =====
-- Removals keep the invariant of the scope: one item, a prefix of the items, and the clean-up that
-- follows (the reset of a drained scope and the rebuild of a sparse one).
use scopecache.Prelude.{
  ℕ, ◌+◌, ◌*◌, ◌%◌, ◌≡◌, refl, sym, ◌∙◌, ap, Option, some, List, [], ◌∷◌, sum_by, length, get_elem?,
  get_or, take, drop, All-erase_idx, All-drop, sum_by-append, sum_by-erase_idx, take-append-drop,
  List-cases, Bool-cases, inl, inr, leb, ℕ_discrete, arith,
}
use scopecache.Word.{word}
use scopecache.Map.{lookup}
use scopecache.Map.Index.{find, Distinct, IsIndexed, or_else}
use scopecache.Map.Keeps.{record_key, lookup-record_key, IsIndexed-erase_idx, IsIndexed-drop}
use scopecache.Item.{Bytes-discrete, approx_item_size}
use scopecache.Buffer.{Ptr, ScopeBuffer, id_tag, seq_tag, uuid_tag}
use scopecache.Buffer.Locked.{id_len}
use scopecache.Buffer.Delete.{
  index_items, shrink_if_sparse, shrink_min_cap, shrink_sparse_ratio, reset_if_empty, remove_item,
  remove_prefix,
}
use scopecache.Buffer.Order.{seq_of, Ascending-erase_idx, Ascending-drop, get_or_of_get}
use scopecache.Buffer.Invariant.{IsCoherent}

pub remove_item-IsCoherent :
    (b : ScopeBuffer) (i now : ℕ) {p : Ptr}
    → IsCoherent b
    → get_elem? b.items i ≡ some p
    → IsCoherent (remove_item i now b)
unfolding remove_item
remove_item-IsCoherent b i now {p} c stands = record {
  ids = IsIndexed-erase_idx Bytes-discrete (λ q. id_tag (b.heap q)) b.items i b.by_id here c.ids;
  seqs = IsIndexed-erase_idx ℕ_discrete (λ q. seq_tag (b.heap q)) b.items i b.by_seq here c.seqs;
  uuids =
      IsIndexed-erase_idx Bytes-discrete (λ q. uuid_tag (b.heap q)) b.items i b.by_uuid here
        c.uuids;
  ascending = Ascending-erase_idx (seq_of b) b.items i c.ascending;
  seq_range = All-erase_idx _ b.items i c.seq_range;
  allocated = All-erase_idx _ b.items i c.allocated;
  bytes_sum =
      omega
        (arith, c.bytes_sum, sum_by-erase_idx (λ q. approx_item_size (b.heap q)) b.items i here);
  id_bytes_sum =
      omega (arith, c.id_bytes_sum, sum_by-erase_idx (λ q. id_len (b.heap q)) b.items i here);
  last_seq_word = c.last_seq_word;
}
  where
    here : get_elem? b.items i ≡ some (get_or b.items i 0)
    here = stands ∙ ap some (sym (get_or_of_get b.items i stands))

pub remove_prefix-IsCoherent :
    (b : ScopeBuffer) (n now : ℕ) → IsCoherent b → IsCoherent (remove_prefix n now b)
unfolding remove_prefix
remove_prefix-IsCoherent b n now c = record {
  ids = IsIndexed-drop Bytes-discrete (λ q. id_tag (b.heap q)) n b.items b.by_id c.ids;
  seqs = IsIndexed-drop ℕ_discrete (λ q. seq_tag (b.heap q)) n b.items b.by_seq c.seqs;
  uuids = IsIndexed-drop Bytes-discrete (λ q. uuid_tag (b.heap q)) n b.items b.by_uuid c.uuids;
  ascending = Ascending-drop (seq_of b) n b.items c.ascending;
  seq_range = All-drop _ n b.items c.seq_range;
  allocated = All-drop _ n b.items c.allocated;
  bytes_sum = omega (arith, c.bytes_sum, sum_split (λ q. approx_item_size (b.heap q)) n b.items);
  id_bytes_sum = omega (arith, c.id_bytes_sum, sum_split (λ q. id_len (b.heap q)) n b.items);
  last_seq_word = c.last_seq_word;
}
  where
    sum_split :
        (f : Ptr → ℕ) (n : ℕ) (xs : List Ptr)
        → sum_by f (take n xs) + sum_by f (drop n xs) ≡ sum_by f xs
    sum_split f n xs =
        sym (sum_by-append f (take n xs) (drop n xs)) ∙ ap (sum_by f) (take-append-drop n xs)

pub reset_if_empty-IsCoherent : (b : ScopeBuffer) → IsCoherent b → IsCoherent (reset_if_empty b)
unfolding reset_if_empty lookup find
reset_if_empty-IsCoherent b c = elim (List-cases b.items) [
  | inr (x, xs, e) ↦ rw (e, reset_if_empty) c
  | inl e ↦
      rw (e, reset_if_empty)
        (record {
          ids = record { found = λ k. refl; distinct = tt };
          seqs = record { found = λ k. refl; distinct = tt };
          uuids = record { found = λ k. refl; distinct = tt };
          ascending = tt;
          seq_range = tt;
          allocated = tt;
          bytes_sum =
              c.bytes_sum ∙ ap (λ xs. sum_by (λ p. approx_item_size (b.heap p)) xs % word) e;
          id_bytes_sum = refl;
          last_seq_word = c.last_seq_word;
        })
]

-- Maps rebuilt from the items index them.
module _ {K : Type 0} (dec : Discrete K) (tag : Ptr → Option K) where
  lookup-index_items :
      (k : K) (xs : List Ptr) (m : List (K × Ptr))
      → Distinct dec tag xs
      → lookup dec k (index_items dec tag xs m) ≡ or_else dec (find dec tag k xs) (lookup dec k m)
  unfolding index_items find
  lookup-index_items k [] m d = refl
  lookup-index_items k (x ∷ xs) m d = ground (
    arith,
    lookup-index_items k xs (record_key dec (tag x) x m) d.1,
    lookup-record_key dec k (tag x) x m,
    d.0 k,
  )

  pub index_items-IsIndexed :
      (xs : List Ptr) → Distinct dec tag xs → IsIndexed dec tag xs (index_items dec tag xs [])
  unfolding lookup
  index_items-IsIndexed xs d = record {
    found = λ k. ground (arith, lookup-index_items k xs [] d);
    distinct = d;
  }

-- A scope that satisfies its invariant satisfies it after shrinkIfSparseLocked, also where its maps
-- are rebuilt from the items.
pub shrink_if_sparse-IsCoherent : (b : ScopeBuffer) → IsCoherent b → IsCoherent (shrink_if_sparse b)
unfolding shrink_if_sparse
shrink_if_sparse-IsCoherent b c = elim (Bool-cases (leb b.items_cap shrink_min_cap)) [
  | inl small ↦ rw (small, shrink_if_sparse) c
  | inr big ↦ elim (Bool-cases (leb b.items_cap (length b.items * shrink_sparse_ratio))) [
    | inl dense ↦ rw (big, dense, shrink_if_sparse) c
    | inr sparse ↦
        rw (big, sparse, shrink_if_sparse)
          (record {
            ids = index_items-IsIndexed Bytes-discrete _ b.items c.ids.distinct;
            seqs = index_items-IsIndexed ℕ_discrete _ b.items c.seqs.distinct;
            uuids = index_items-IsIndexed Bytes-discrete _ b.items c.uuids.distinct;
            ascending = c.ascending;
            seq_range = c.seq_range;
            allocated = c.allocated;
            bytes_sum = c.bytes_sum;
            id_bytes_sum = c.id_bytes_sum;
            last_seq_word = c.last_seq_word;
          })
  ]
]
