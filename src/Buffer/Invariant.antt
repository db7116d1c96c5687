-- ===== src/Buffer/Invariant.antt =====
-- The representation invariant of a scope: its three maps index exactly its items, the items ascend
-- by sequence number, and the two byte counters are sums over the items.
use scopecache.Prelude.{
  ℕ, ◌+◌, ◌%◌, ◌≤◌, ◌<◌, ◌≡◌, refl, some, List, [], ◌∷◌, get_elem?, All, sum_by, ℕ_discrete, arith,
  sym, ◌∙◌, ap, fun_ext,
}
use scopecache.Word.{word}
use scopecache.Map.{lookup}
use scopecache.Map.Index.{find, IsIndexed, get_of_find}
use scopecache.Map.Keeps.{IsIndexed-ext}
use scopecache.Item.{Bytes, Bytes-discrete, Uuid, Item, approx_item_size}
use scopecache.Buffer.{
  Ptr, put_item, ScopeBuffer, id_tag, seq_tag, uuid_tag, new_scope_buffer, get-put_item_self,
  get-put_item_ne,
}
use scopecache.Buffer.Locked.{id_len, index_by_seq}
use scopecache.Buffer.Order.{Ascending, seq_of, sum_by-change, index_by_seq_of_get}

pub record IsCoherent (b : ScopeBuffer) : Type 0 where
  pub ids : IsIndexed Bytes-discrete (λ p. id_tag (b.heap p)) b.items b.by_id
  pub seqs : IsIndexed ℕ_discrete (λ p. seq_tag (b.heap p)) b.items b.by_seq
  pub uuids : IsIndexed Bytes-discrete (λ p. uuid_tag (b.heap p)) b.items b.by_uuid
  pub ascending : Ascending (seq_of b) b.items
  pub seq_range : All (λ p. (1 ≤ seq_of b p) × (seq_of b p ≤ b.last_seq)) b.items
  pub allocated : All (λ p. p < b.next) b.items
  pub bytes_sum : b.bytes ≡ sum_by (λ p. approx_item_size (b.heap p)) b.items % word
  pub id_bytes_sum : b.id_key_bytes ≡ sum_by (λ p. id_len (b.heap p)) b.items % word
  pub last_seq_word : b.last_seq < word

-- A fresh scope satisfies the invariant.
pub new_scope_buffer-IsCoherent : (max_items now : ℕ) → IsCoherent (new_scope_buffer max_items now)
unfolding new_scope_buffer lookup find
new_scope_buffer-IsCoherent max_items now = record {
  ids = record { found = λ k. refl; distinct = tt };
  seqs = record { found = λ k. refl; distinct = tt };
  uuids = record { found = λ k. refl; distinct = tt };
  ascending = tt;
  seq_range = tt;
  allocated = tt;
  bytes_sum = refl;
  id_bytes_sum = refl;
  last_seq_word = omega arith;
}

-- Where a pointer that a map gives stands in items, and that the binary search finds it there.
pub record Located (b : ScopeBuffer) (p : Ptr) : Type 0 where
  pub index : ℕ
  pub stands : get_elem? b.items index ≡ some p
  pub searched : index_by_seq (b.heap p).seq b ≡ some index

module _ (b : ScopeBuffer) (c : IsCoherent b) where
  Located-of_get : (i : ℕ) {p : Ptr} → get_elem? b.items i ≡ some p → Located b p
  Located-of_get i e = record {
    index = i;
    stands = e;
    searched = index_by_seq_of_get b c.ascending i e;
  }

  pub locate_id : (id : Bytes) {p : Ptr} → lookup Bytes-discrete id b.by_id ≡ some p → Located b p
  locate_id id h =
      let (i, e, t) =
        get_of_find Bytes-discrete (λ p. id_tag (b.heap p)) id b.items (sym (c.ids.found id) ∙ h) in
      Located-of_get i e

  pub locate_uuid : (u : Uuid) {p : Ptr} → lookup Bytes-discrete u b.by_uuid ≡ some p → Located b p
  locate_uuid u h =
      let (i, e, t) =
        get_of_find Bytes-discrete (λ p. uuid_tag (b.heap p)) u b.items
          (sym (c.uuids.found u) ∙ h) in
      Located-of_get i e

  pub locate_seq :
      (seq : ℕ) {p : Ptr}
      → lookup ℕ_discrete seq b.by_seq ≡ some p
      → Located b p × ((b.heap p).seq ≡ seq)
  unfolding seq_tag
  locate_seq seq h =
      let (i, e, t) =
        get_of_find ℕ_discrete (λ p. seq_tag (b.heap p)) seq b.items (sym (c.seqs.found seq) ∙ h) in
      (Located-of_get i e, cc)

-- Two items with the same keys.
pub record SameKeys (x y : Item) : Type 0 where
  pub same_id : y.id ≡ x.id
  pub same_seq : y.seq ≡ x.seq
  pub same_uuid : y.uuid ≡ x.uuid

All-always {ℓ} : (P : Ptr → Type ℓ) (xs : List Ptr) → ((p : Ptr) → P p) → All P xs
All-always P [] h = tt
All-always P (x ∷ xs) h = (h x, All-always P xs h)

module _ (b : ScopeBuffer) (p : Ptr) (item : Item) (keys : SameKeys (b.heap p) item) where
  seq-put_item : (q : Ptr) → (put_item p item b.heap q).seq ≡ (b.heap q).seq
  unfolding put_item
  seq-put_item q = ground (arith, keys.same_seq)

  id-put_item : (q : Ptr) → (put_item p item b.heap q).id ≡ (b.heap q).id
  unfolding put_item
  id-put_item q = ground (arith, keys.same_id)

  uuid-put_item : (q : Ptr) → (put_item p item b.heap q).uuid ≡ (b.heap q).uuid
  unfolding put_item
  uuid-put_item q = ground (arith, keys.same_uuid)

  id_len-put_item : (q : Ptr) → id_len (put_item p item b.heap q) ≡ id_len (b.heap q)
  id_len-put_item q = rw (id-put_item q)

  size-put_item :
      (i : ℕ)
      → Ascending (seq_of b) b.items
      → get_elem? b.items i ≡ some p
      → sum_by (λ q. approx_item_size (put_item p item b.heap q)) b.items
          + approx_item_size (b.heap p)
        ≡ sum_by (λ q. approx_item_size (b.heap q)) b.items + approx_item_size item
  size-put_item i a stands =
      sum_by-change (seq_of b) (λ q. approx_item_size (b.heap q))
        (λ q. approx_item_size (put_item p item b.heap q)) b.items i
        (λ q ne. ap approx_item_size (get-put_item_ne p q item b.heap ne)) a stands
      ∙ ap (λ x. sum_by (λ q. approx_item_size (b.heap q)) b.items + approx_item_size x)
          (get-put_item_self p item b.heap)

  id_tag-put_item : (q : Ptr) → id_tag (b.heap q) ≡ id_tag (put_item p item b.heap q)
  unfolding id_tag
  id_tag-put_item q = rw (id-put_item q)

  uuid_tag-put_item : (q : Ptr) → uuid_tag (b.heap q) ≡ uuid_tag (put_item p item b.heap q)
  unfolding uuid_tag
  uuid_tag-put_item q = rw (uuid-put_item q)

  seq_tag-put_item : (q : Ptr) → seq_tag (b.heap q) ≡ seq_tag (put_item p item b.heap q)
  unfolding seq_tag
  seq_tag-put_item q = rw (seq-put_item q)

-- A write through one pointer of items that keeps the keys of the item keeps the invariant, where
-- the byte counter moves by the change in the item's size.
pub put_item-IsCoherent :
    (b : ScopeBuffer) (i : ℕ) (p : Ptr) (item : Item) (bytes' ts : ℕ)
    → IsCoherent b
    → get_elem? b.items i ≡ some p
    → SameKeys (b.heap p) item
    → (bytes' + approx_item_size (b.heap p)) % word ≡ (b.bytes + approx_item_size item) % word
    → bytes' < word
    → IsCoherent (record b { heap = put_item p item b.heap; bytes = bytes'; last_write_ts = ts })
put_item-IsCoherent b i p item bytes' ts c stands keys moved small = record {
  ids =
      IsIndexed-ext Bytes-discrete (λ q. id_tag (b.heap q)) _ b.items b.by_id
        (All-always _ b.items (id_tag-put_item b p item keys)) c.ids;
  seqs =
      IsIndexed-ext ℕ_discrete (λ q. seq_tag (b.heap q)) _ b.items b.by_seq
        (All-always _ b.items (seq_tag-put_item b p item keys)) c.seqs;
  uuids =
      IsIndexed-ext Bytes-discrete (λ q. uuid_tag (b.heap q)) _ b.items b.by_uuid
        (All-always _ b.items (uuid_tag-put_item b p item keys)) c.uuids;
  ascending = rw (fun_ext (seq-put_item b p item keys)) c.ascending;
  seq_range = rw (fun_ext (seq-put_item b p item keys)) c.seq_range;
  allocated = c.allocated;
  bytes_sum = omega (arith, size-put_item b p item keys i c.ascending stands, c.bytes_sum);
  id_bytes_sum = rw (fun_ext (id_len-put_item b p item keys)) c.id_bytes_sum;
  last_seq_word = c.last_seq_word;
}
