-- ===== src/Buffer/Insert.antt =====
-- A fresh item keeps the invariant of the scope: the insert shared by append, upsert and the counter.
use scopecache.Prelude.{
  ℕ, ◌+◌, ◌≤◌, ◌<◌, ◌≡◌, refl, Option, none, some, List, [], ◌∷◌, ◌++◌, All, sum_by, All-append,
  sum_by-append, sum_by-ext, ℕ_discrete, arith, sym, ◌∙◌, ap,
}
use scopecache.Word.{word}
use scopecache.Map.{lookup}
use scopecache.Map.Index.{find, IsIndexed}
use scopecache.Map.Keeps.{record_key, IsIndexed-append, IsIndexed-ext}
use scopecache.Item.{Bytes, Bytes-discrete, Uuid, Item, approx_item_size}
use scopecache.Buffer.{
  Ptr, Heap, put_item, ScopeBuffer, id_tag, seq_tag, uuid_tag, get-put_item_self, get-put_item_ne,
}
use scopecache.Buffer.Locked.{id_len, store_item}
use scopecache.Buffer.Order.{seq_of, Ascending-append, Ascending-ext}
use scopecache.Buffer.Invariant.{IsCoherent}

-- The heap below its first free pointer does not change.
pub old-unchanged :
    (p : Ptr) (item : Item) (heap : Heap) (xs : List Ptr)
    → All (λ q. q < p) xs
    → All (λ q. heap q ≡ put_item p item heap q) xs
old-unchanged p item heap [] h = tt
old-unchanged p item heap (x ∷ xs) h =
    (sym (get-put_item_ne p x item heap (omega (arith, h.0))), old-unchanged p item heap xs h.1)

All-map {ℓ κ} :
    {P : Ptr → Type ℓ} {Q : Ptr → Type κ} (xs : List Ptr)
    → ((p : Ptr) → P p → Q p)
    → All P xs
    → All Q xs
All-map [] f h = tt
All-map (x ∷ xs) f h = (f x h.0, All-map xs f h.1)

module _ {K : Type 0} (dec : Discrete K) (tag : Item → Option K) where
  index-store :
      (p : Ptr) (item : Item) (heap : Heap) (xs : List Ptr) (m : List (K × Ptr))
      → All (λ q. q < p) xs
      → IsIndexed dec (λ q. tag (heap q)) xs m
      → ((k : K) → tag item ≡ some k → lookup dec k m ≡ none)
      → IsIndexed dec
          (λ q. tag (put_item p item heap q))
          (xs ++ (p ∷ []))
          (record_key dec (tag item) p m)
  index-store p item heap xs m old ix fresh =
      let self : tag (put_item p item heap p) ≡ tag item = ap tag (get-put_item_self p item heap) in
      let ix' : IsIndexed dec (λ q. tag (put_item p item heap q)) xs m =
        IsIndexed-ext dec (λ q. tag (heap q)) _ xs m
          (All-map xs (λ q e. ap tag e) (old-unchanged p item heap xs old)) ix in
      rw (ap (λ t. record_key dec t p m) (sym self)) (
        IsIndexed-append dec (λ q. tag (put_item p item heap q)) xs p m ix'
          (λ k e. sym (ix'.found k) ∙ fresh k (sym self ∙ e)))

sum-store :
    (f : Item → ℕ) (p : Ptr) (item : Item) (heap : Heap) (xs : List Ptr)
    → All (λ q. q < p) xs
    → sum_by (λ q. f (put_item p item heap q)) (xs ++ (p ∷ []))
      ≡ sum_by (λ q. f (heap q)) xs + f item
sum-store f p item heap xs old = omega (
  arith,
  sum_by-append (λ q. f (put_item p item heap q)) xs (p ∷ []),
  ap f (get-put_item_self p item heap),
  sum_by-ext (λ q. f (heap q)) (λ q. f (put_item p item heap q)) xs
      (All-map xs (λ q e. ap f e) (old-unchanged p item heap xs old)),
)

-- The item's keys are new to the scope, and it has the next sequence number.
pub record IsFresh (b : ScopeBuffer) (item : Item) : Type 0 where
  pub next_seq : item.seq ≡ b.last_seq + 1
  pub seq_word : b.last_seq + 1 < word
  pub id_new : (k : Bytes) → id_tag item ≡ some k → lookup Bytes-discrete k b.by_id ≡ none
  pub uuid_new : (k : Uuid) → uuid_tag item ≡ some k → lookup Bytes-discrete k b.by_uuid ≡ none

absent :
    (b : ScopeBuffer) (k : ℕ) (xs : List Ptr)
    → All (λ p. (1 ≤ seq_of b p) × (seq_of b p ≤ b.last_seq)) xs
    → b.last_seq < k
    → find ℕ_discrete (λ p. seq_tag (b.heap p)) k xs ≡ none
unfolding find seq_tag
absent b k [] h past = refl
absent b k (x ∷ xs) h past = ground (arith, absent b k xs h.1)

-- No item of the scope has a sequence number past the last.
seq_new :
    (b : ScopeBuffer) (item : Item)
    → IsCoherent b
    → IsFresh b item
    → (k : ℕ) → seq_tag item ≡ some k
    → lookup ℕ_discrete k b.by_seq ≡ none
unfolding seq_tag
seq_new b item c n k e =
    c.seqs.found k ∙ absent b k b.items c.seq_range (ground (arith, n.next_seq))

-- The sequence numbers of the old items, read from the new heap.
old-seqs :
    (b : ScopeBuffer) (item : Item) (xs : List Ptr)
    → All (λ q. q < b.next) xs
    → All (λ p. (1 ≤ seq_of b p) × (seq_of b p ≤ b.last_seq)) xs
    → All (λ q. (put_item b.next item b.heap q).seq ≤ b.last_seq) xs
      × All
          (λ q.
            (1 ≤ (put_item b.next item b.heap q).seq)
            × ((put_item b.next item b.heap q).seq ≤ b.last_seq))
          xs
old-seqs b item [] old h = (tt, tt)
old-seqs b item (x ∷ xs) old h =
    let same : (put_item b.next item b.heap x).seq ≡ seq_of b x =
      ap (λ (y : Item). y.seq) (get-put_item_ne b.next x item b.heap (omega (arith, old.0))) in
    let (r, r') = old-seqs b item xs old.1 h.1 in
    ((omega (arith, same, h.0), r), (omega (arith, same, h.0), r'))

pub store_item-IsCoherent :
    (grow : ℕ → ℕ → ℕ) (b : ScopeBuffer) (item : Item)
    → IsCoherent b
    → IsFresh b item
    → IsCoherent (store_item grow item (approx_item_size item) b)
unfolding store_item
store_item-IsCoherent grow b item c n = record {
  ids =
      index-store Bytes-discrete id_tag b.next item b.heap b.items b.by_id c.allocated c.ids
        n.id_new;
  seqs =
      index-store ℕ_discrete seq_tag b.next item b.heap b.items b.by_seq c.allocated c.seqs
        (seq_new b item c n);
  uuids =
      index-store Bytes-discrete uuid_tag b.next item b.heap b.items b.by_uuid c.allocated c.uuids
        n.uuid_new;
  ascending =
      Ascending-append _ b.items b.next b.last_seq
        (Ascending-ext (seq_of b) _ b.items
          (All-map b.items (λ q e. ap (λ (x : Item). x.seq) e)
            (old-unchanged b.next item b.heap b.items c.allocated))
          c.ascending)
        (old-seqs b item b.items c.allocated c.seq_range).0
        (omega
          (arith, n.next_seq, ap (λ (x : Item). x.seq) (get-put_item_self b.next item b.heap)));
  seq_range =
      All-append _ b.items (b.next ∷ [])
        (All-map b.items (λ q h. omega (arith, h.0, h.1, n.next_seq))
          (old-seqs b item b.items c.allocated c.seq_range).1)
        (
          omega
              (arith, n.next_seq, ap (λ (x : Item). x.seq) (get-put_item_self b.next item b.heap)),
          tt,
        );
  allocated =
      All-append _ b.items (b.next ∷ []) (All-map b.items (λ q h. omega arith) c.allocated)
        (omega arith, tt);
  bytes_sum =
      omega (arith, c.bytes_sum, sum-store approx_item_size b.next item b.heap b.items c.allocated);
  id_bytes_sum =
      omega (arith, c.id_bytes_sum, sum-store id_len b.next item b.heap b.items c.allocated);
  last_seq_word = omega (arith, n.next_seq, n.seq_word);
}
