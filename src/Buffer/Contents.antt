-- ===== src/Buffer/Contents.antt =====
-- The abstract view of a scope: the list of its items, oldest first, with the heap and the maps
-- forgotten. The lemmas say what the steps on pointers do to that list.
use scopecache.Prelude.{
  ℕ, zero, suc, ◌<◌, ◌≡◌, ◌≢◌, refl, sym, ◌∙◌, ap, ap₂, Option, some, List, [], ◌∷◌, map, All,
  arith, get_elem?, All-get, ℕ_discrete,
}
use scopecache.Map.{lookup}
use scopecache.Map.Index.{find, Distinct, find_of_get}
use scopecache.Map.Keyed.{modify, modify_absent, find-map, deref}
use scopecache.Item.{Bytes, Bytes-discrete, Uuid, Item}
use scopecache.Buffer.{Ptr, Heap, ScopeBuffer, id_tag, seq_tag, uuid_tag}
use scopecache.Buffer.Order.{Ascending, others-unchanged}
use scopecache.Buffer.Invariant.{IsCoherent}

abbrev pub contents : ScopeBuffer → List Item
contents b = map b.heap b.items

pub map-ext : (g h : Heap) (xs : List Ptr) → All (λ q. h q ≡ g q) xs → map h xs ≡ map g xs
map-ext g h [] e = refl
map-ext g h (x ∷ xs) e = ap₂ ◌∷◌ e.0 (map-ext g h xs e.1)

-- A write through one pointer modifies the item of its key.
module _ {K : Type 0} (dec : Discrete K) (tag : Item → Option K) (order : Ptr → ℕ)
    (heap heap' : Heap) (f : Item → Item) (k : K) where
  pub map-modify :
      (xs : List Ptr) (i : ℕ) {p : Ptr}
      → ((q : Ptr) → q ≢ p → heap' q ≡ heap q)
      → heap' p ≡ f (heap p)
      → Ascending order xs
      → Distinct dec (λ q. tag (heap q)) xs
      → get_elem? xs i ≡ some p
      → tag (heap p) ≡ some k
      → map heap' xs ≡ modify dec tag k f (map heap xs)
  unfolding modify
  map-modify [] i same at a d e t = cc
  map-modify (x ∷ xs) zero {p} same at a d e t = ground (
    arith,
    map-ext heap heap' xs (others-unchanged order heap heap' {x = x} xs same (cc) a.0),
    find-map dec tag heap k xs,
    d.0 k,
    modify_absent dec tag k f (map heap xs),
  )
  map-modify (x ∷ xs) (suc i) {p} same at a d e t = ground (
    arith,
    map-modify xs i same at a.1 d.1 e t,
    find_of_get dec (λ q. tag (heap q)) xs i d.1 e t,
    d.0 k,
    same x,
    All-get (λ q. order x < order q) xs i a.0 e,
  )

module _ (b : ScopeBuffer) (c : IsCoherent b) where
  -- The maps find in the scope what its list of items holds.
  pub find_id-contents :
      (id : Bytes)
      → find Bytes-discrete id_tag id (contents b)
        ≡ deref Bytes-discrete id_tag b.heap (lookup Bytes-discrete id b.by_id)
  find_id-contents id =
      find-map Bytes-discrete id_tag b.heap id b.items
      ∙ ap (deref Bytes-discrete id_tag b.heap) (sym (c.ids.found id))

  pub find_uuid-contents :
      (u : Uuid)
      → find Bytes-discrete uuid_tag u (contents b)
        ≡ deref Bytes-discrete uuid_tag b.heap (lookup Bytes-discrete u b.by_uuid)
  find_uuid-contents u =
      find-map Bytes-discrete uuid_tag b.heap u b.items
      ∙ ap (deref Bytes-discrete uuid_tag b.heap) (sym (c.uuids.found u))

  pub find_seq-contents :
      (seq : ℕ)
      → find ℕ_discrete seq_tag seq (contents b)
        ≡ deref ℕ_discrete seq_tag b.heap (lookup ℕ_discrete seq b.by_seq)
  find_seq-contents seq =
      find-map ℕ_discrete seq_tag b.heap seq b.items
      ∙ ap (deref ℕ_discrete seq_tag b.heap) (sym (c.seqs.found seq))
