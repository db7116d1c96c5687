-- ===== src/Buffer/Read/Window.antt =====
-- What the reads hand out, and what a drain keeps, on the list of the scope's items.
use scopecache.Prelude.{
  ℕ, zero, suc, ◌+◌, ◌-◌, ◌≤◌, ◌<◌, ◌≡◌, refl, sym, ◌∙◌, ap, ap₂, Bool, false, ltb, leb,
  if◌then◌else◌, List, [], ◌∷◌, Option, none, some, length, length-take, length-drop, take, drop,
  get_or, map, arith, ℕ_discrete, if_intro, ◌||◌,
}
use scopecache.Word.{half, slt, sle, sub64}
use scopecache.Map.Index.{find}
use scopecache.Search.{search}
use scopecache.Item.{
  Bytes, Bytes-discrete, Uuid, Item, materialise_counter, materialise_counters_in_place,
}
use scopecache.Buffer.{Ptr, Heap, ScopeBuffer, id_tag, seq_tag, uuid_tag}
use scopecache.Buffer.Locked.{item_at}
use scopecache.Buffer.Order.{boundary-Bounds}
use scopecache.Buffer.Read.{tail_offset, since_seq, get_by_id, get_by_seq, get_by_uuid}
use scopecache.Buffer.Invariant.{IsCoherent}
use scopecache.Buffer.Contents.{contents, find_id-contents, find_seq-contents, find_uuid-contents}

-- The items with a sequence number past a cursor, in their order.
unfoldable pub after : ℕ → List Item → List Item
after seq [] = []
after seq (x ∷ xs) = let rest = after seq xs in if ltb seq x.seq then x ∷ rest else rest

-- A read of what a lookup on the list gives.
abbrev pub read : Option Item → Option Item
read none = none
read (some item) = some (materialise_counter item)

module _ (heap : Heap) (seq : ℕ) where
  after_all :
      (xs : List Ptr)
      → ((k : ℕ) → k < length xs → seq < (heap (get_or xs k 0)).seq)
      → after seq (map heap xs) ≡ map heap xs
  unfolding after
  after_all [] h = refl
  after_all (x ∷ xs) h = ground (arith, h 0, after_all xs (λ k q. h (suc k) (omega arith)))

  -- Past the cut of an ascending list stand the items past the cursor.
  pub after-drop :
      (xs : List Ptr) (n : ℕ)
      → n ≤ length xs
      → ((k : ℕ) → k < n → (heap (get_or xs k 0)).seq ≤ seq)
      → ((k : ℕ) → n ≤ k → k < length xs → seq < (heap (get_or xs k 0)).seq)
      → after seq (map heap xs) ≡ map heap (drop n xs)
  unfolding after
  after-drop xs zero short below above = after_all xs (λ k h. above k (omega arith) h)
  after-drop [] (suc n) short below above = refl
  after-drop (x ∷ xs) (suc n) short below above = ground (
    arith,
    below 0,
    after-drop xs n (omega arith) (λ k h. below (suc k) (omega arith))
        (λ k h q. above (suc k) (omega arith) (omega arith)),
  )

pub length-map : (heap : Heap) (xs : List Ptr) → length (map heap xs) ≡ length xs
length-map heap [] = refl
length-map heap (x ∷ xs) = ap suc (length-map heap xs)

pub map-take : (heap : Heap) (n : ℕ) (xs : List Ptr) → map heap (take n xs) ≡ take n (map heap xs)
map-take heap zero xs = refl
map-take heap (suc n) [] = refl
map-take heap (suc n) (x ∷ xs) = ap (◌∷◌ (heap x)) (map-take heap n xs)

pub map-drop : (heap : Heap) (n : ℕ) (xs : List Ptr) → map heap (drop n xs) ≡ drop n (map heap xs)
map-drop heap zero xs = refl
map-drop heap (suc n) [] = refl
map-drop heap (suc n) (x ∷ xs) = map-drop heap n xs

empty_of_length : {A : Type 0} (xs : List A) → length xs ≡ 0 → xs ≡ []
empty_of_length [] h = refl
empty_of_length (x ∷ xs) h = absurd (omega arith)

take_all : {A : Type 0} (n : ℕ) (xs : List A) → length xs ≤ n → take n xs ≡ xs
take_all zero [] h = refl
take_all zero (x ∷ xs) h = absurd (omega arith)
take_all (suc n) [] h = refl
take_all (suc n) (x ∷ xs) h = ap (◌∷◌ x) (take_all n xs (omega arith))

module _ (b : ScopeBuffer) (c : IsCoherent b) where
  -- The search for a boundary cuts the items there.
  pub cut-contents :
      (seq : ℕ)
      → after seq (contents b)
        ≡ map b.heap (drop (search (length b.items) (λ k. ltb seq (item_at b k).seq)) b.items)
  cut-contents seq =
      let (short, below, above) = boundary-Bounds b c.ascending seq in
      after-drop b.heap seq b.items _ short below above

  -- In a scope that satisfies its invariant, getByID returns the item that a search of the list of
  -- items for the id finds, with its counter materialised, and nothing if there is none.
  pub get_by_id-contents :
      (id : Bytes) → get_by_id id b ≡ read (find Bytes-discrete id_tag id (contents b))
  unfolding get_by_id
  get_by_id-contents id = ground (arith, find_id-contents b c id)

  -- In a scope that satisfies its invariant, getBySeq returns the item that a search of the list of
  -- items for the sequence number finds, with its counter materialised, and nothing if there is
  -- none.
  pub get_by_seq-contents :
      (seq : ℕ) → get_by_seq seq b ≡ read (find ℕ_discrete seq_tag seq (contents b))
  unfolding get_by_seq
  get_by_seq-contents seq = ground (arith, find_seq-contents b c seq)

  -- In a scope that satisfies its invariant, getByUUID returns the item that a search of the list
  -- of items for the uuid finds, with its counter materialised, and nothing if there is none.
  pub get_by_uuid-contents :
      (u : Uuid) → get_by_uuid u b ≡ read (find Bytes-discrete uuid_tag u (contents b))
  unfolding get_by_uuid
  get_by_uuid-contents u = ground (arith, find_uuid-contents b c u)

  -- In a scope that satisfies its invariant, with fewer than 2 ^ 63 items and a positive limit
  -- below 2 ^ 63, sinceSeq returns the first `limit` of the items whose sequence number is past the
  -- cursor, oldest first and with counters materialised, and tells whether there are more of them.
  pub since_seq-contents :
      (cursor limit : ℕ)
      → 0 < limit
      → limit < half
      → length b.items < half
      → since_seq cursor limit b ≡ (
        materialise_counters_in_place (take limit (after cursor (contents b))),
        ltb limit (length (after cursor (contents b))),
      )
  unfolding since_seq materialise_counters_in_place
  since_seq-contents cursor limit pos small room =
      rw (cut-contents cursor, length-map b.heap later, ← map-take b.heap limit later)
        (if_intro (λ r. r ≡ target) (sle limit 0) (λ t. absurd (ground arith))
          (λ f.
            if_intro (λ r. r ≡ target) (leb (length b.items) idx)
              (λ t.
                ap₂ (λ (xs : List Item) e. (xs, e))
                  (ap (λ xs. copies xs)
                    (sym (
                      empty_of_length (take limit later)
                        (ground (arith, length-take limit later, length-drop idx b.items)))))
                  (ground (arith, length-drop idx b.items)))
              (λ f.
                if_intro (λ r. r ≡ target) (slt limit (length b.items - idx))
                  (λ t.
                    ap₂ (λ (xs : List Item) e. (xs, e))
                      (ap (λ n. copies (take n later)) (omega arith))
                      (ground (arith, length-drop idx b.items)))
                  (λ f.
                    ap₂ (λ (xs : List Item) e. (xs, e))
                      (ap (λ xs. copies xs)
                        (take_all (idx + (length b.items - idx) - idx) later
                            (omega (arith, length-drop idx b.items))
                          ∙ sym (take_all limit later (ground (arith, length-drop idx b.items)))))
                      (ground (arith, length-drop idx b.items))))))
    where
      idx : ℕ
      idx = search (length b.items) (λ k. ltb cursor (item_at b k).seq)

      later : List Ptr
      later = drop idx b.items

      copies : List Ptr → List Item
      copies ps = materialise_counters_in_place (map b.heap ps)

      target : List Item × Bool
      target = (copies (take limit later), ltb limit (length later))

module _ (b : ScopeBuffer) where
  -- In any scope with fewer than 2 ^ 63 items, for a positive limit and an offset that are both
  -- below 2 ^ 63, tailOffset skips the newest `offset` items and returns the newest `limit` of the
  -- rest, or all of the rest where there are fewer, oldest first and with counters materialised,
  -- and tells whether older ones remain.
  pub tail_offset-contents :
      (limit offset : ℕ)
      → 0 < limit
      → limit < half
      → offset < half
      → length b.items < half
      → let high = length b.items - offset in
        let low = high - limit in
        tail_offset limit offset b ≡ (
          materialise_counters_in_place (take (high - low) (drop low (contents b))),
          ltb (offset + limit) (length b.items),
        )
  unfolding tail_offset materialise_counters_in_place
  tail_offset-contents limit offset pos small near room =
      rw (← map-drop b.heap low b.items, ← map-take b.heap (high - low) (drop low b.items))
        (if_intro (λ r. r ≡ target) (sle limit 0 || slt offset 0) (λ t. absurd (ground arith))
          (λ f.
            if_intro (λ r. r ≡ target) (sle n offset)
              (λ t.
                ap₂ (λ (xs : List Item) e. (xs, e))
                  (ap (λ xs. copies xs)
                    (sym (
                      empty_of_length (take (high - low) (drop low b.items))
                        (ground (arith, length-take (high - low) (drop low b.items))))))
                  (ground arith))
              (λ some_left.
                if_intro (λ r. r ≡ target) (sle end from)
                  (λ t. absurd (ground (arith, end_lem, from_lem)))
                  (λ f.
                    ap₂ (λ (xs : List Item) e. (xs, e))
                      (ap₂ (λ lo hi. copies (take (hi - lo) (drop lo b.items))) (from_lem some_left)
                        (end_lem some_left))
                      (ground arith)))))
    where
      n : ℕ
      n = length b.items

      high : ℕ
      high = n - offset

      low : ℕ
      low = high - limit

      end : ℕ
      end = sub64 n offset

      start : ℕ
      start = sub64 end limit

      from : ℕ
      from = if slt start 0 then 0 else start

      copies : List Ptr → List Item
      copies ps = materialise_counters_in_place (map b.heap ps)

      target : List Item × Bool
      target = (copies (take (high - low) (drop low b.items)), ltb (offset + limit) n)

      end_lem : sle n offset ≡ false → end ≡ high
      end_lem f = ground arith

      from_lem : sle n offset ≡ false → from ≡ low
      from_lem f = ground arith
