-- ===== src/Buffer/Replace/Batch.antt =====
-- What the preparation of a batch makes sure of: the stamped items have distinct ids and uuids and
-- dense sequence numbers.
use scopecache.Prelude.{
  if◌then◌else◌, subst, ℕ, zero, suc, ◌+◌, ◌≤◌, ◌<◌, ◌≡◌, refl, sym, ◌∙◌, ap, Bool, true, Option,
  none, some, List, [], ◌∷◌, ◌++◌, map, length, length-append, ◌⊎◌, inl, inr, arith, Bool-cases,
  get_or, ap₂, All,
}
use scopecache.Word.{word}
use scopecache.Map.{lookup, insert, lookup-insert}
use scopecache.Map.Index.{find, Distinct, or_else}
use scopecache.Map.Keyed.{find-map}
use scopecache.Item.{
  Bytes, Bytes-discrete, Uuid, is_zero, is_empty, Item, empty_item, Json, Error, Result, ok, err,
}
use scopecache.Buffer.{Ptr, Heap, id_tag, uuid_tag}
use scopecache.Buffer.Replace.{stamp_item, stamp_items, ptrs_from, heap_of, index_uuids}

pub Result-cases :
    {A : Type 0} (r : Result A) → ((e : Error) × (r ≡ err e)) ⊎ ((a : A) × (r ≡ ok a))
Result-cases (ok a) = inr (a, refl)
Result-cases (err e) = inl (e, refl)

-- Sequence numbers that count up from past `n`.
abbrev pub Numbered : ℕ → List Item → Type 0
Numbered n [] = Unit {0}
Numbered n (x ∷ xs) = (x.seq ≡ n + 1) × Numbered (n + 1) xs

module _ (json : Json) (mint : Bool) (mints : ℕ → Uuid) (now : ℕ) where
  abbrev stamped : ℕ → List (Bytes × ℕ) → List Item → Result (List Item)
  stamped n seen items = stamp_items json mint mints now n seen items

  abbrev with_id : Bytes → List (Bytes × ℕ) → List (Bytes × ℕ)
  with_id id seen = if is_empty id then seen else insert Bytes-discrete id 0 seen

  stamp_items-nil :
      (n : ℕ) (seen : List (Bytes × ℕ)) (built : List Item)
      → stamped n seen [] ≡ ok built
      → [] ≡ built
  unfolding stamp_items
  stamp_items-nil n seen built e = cc

  -- A batch that passes has a first id that is new, and a rest that passes.
  stamp_items-cons :
      (n : ℕ) (seen : List (Bytes × ℕ)) (src : Item) (rest built : List Item)
      → stamped n seen (src ∷ rest) ≡ ok built
      → (built' : List Item) × (built ≡ stamp_item json mint mints now n src ∷ built')
        × (stamped (n + 1) (with_id src.id seen) rest ≡ ok built')
        × ((p : ℕ) → lookup Bytes-discrete src.id seen ≡ some p → is_empty src.id ≡ true)
  unfolding stamp_items
  stamp_items-cons n seen src rest built e =
      elim (Result-cases (stamped (n + 1) (with_id src.id seen) rest)) [
        | inl (x, h) ↦ absurd (ground arith)
        | inr (built', h) ↦ (built', ground arith, h, λ p q. ground arith)
      ]

  pub record Batch (n : ℕ) (seen : List (Bytes × ℕ)) (items built : List Item) : Type 0 where
    pub numbered : Numbered n built
    pub distinct_ids : Distinct Bytes-discrete id_tag built
    pub new_ids :
        (k : Bytes) (p : ℕ)
        → lookup Bytes-discrete k seen ≡ some p
        → find Bytes-discrete id_tag k built ≡ none
    pub same_length : length built ≡ length items

  pub stamp_items-Batch :
      (n : ℕ) (seen : List (Bytes × ℕ)) (items built : List Item)
      → n + length items < word
      → stamped n seen items ≡ ok built
      → Batch n seen items built
  unfolding stamp_item find id_tag
  stamp_items-Batch n seen [] built short e =
      subst (Batch n seen []) (stamp_items-nil n seen built e)
        (record { numbered = tt; distinct_ids = tt; new_ids = λ k p h. refl; same_length = refl })
  stamp_items-Batch n seen (src ∷ rest) built short e =
      let (built', same, passed, new) = stamp_items-cons n seen src rest built e in
      let batch =
        stamp_items-Batch (n + 1) (with_id src.id seen) rest built' (omega arith) passed in
      rw same (record {
        numbered = (omega arith, batch.numbered);
        distinct_ids = (
          λ k t. ground (arith, batch.new_ids k 0, lookup-insert Bytes-discrete k src.id 0 seen),
          batch.distinct_ids,
        );
        new_ids = λ k p h.
            ground (arith, batch.new_ids k p, lookup-insert Bytes-discrete k src.id 0 seen, new p);
        same_length = ap suc batch.same_length;
      })

-- The items of a batch at the pointers from 0 on.
get_or-append :
    (pre : List Item) (x : Item) (xs : List Item)
    → get_or (pre ++ (x ∷ xs)) (length pre) empty_item ≡ x
get_or-append [] x xs = refl
get_or-append (y ∷ pre) x xs = get_or-append pre x xs

append-cons :
    (pre : List Item) (x : Item) (xs : List Item) → pre ++ (x ∷ xs) ≡ (pre ++ (x ∷ [])) ++ xs
append-cons [] x xs = refl
append-cons (y ∷ pre) x xs = ap (◌∷◌ y) (append-cons pre x xs)

pub map-heap_of :
    (pre xs : List Item) → map (heap_of (pre ++ xs)) (ptrs_from (length pre) (length xs)) ≡ xs
unfolding ptrs_from
map-heap_of pre [] = refl
map-heap_of pre (x ∷ xs) = ap₂ ◌∷◌ (get_or-append pre x xs) (
    ap₂ (λ ys n. map (heap_of ys) (ptrs_from n (length xs))) (append-cons pre x xs)
      (sym (length-append pre (x ∷ [])))
    ∙ map-heap_of (pre ++ (x ∷ [])) xs)

pub length-ptrs_from : (p : Ptr) (n : ℕ) → length (ptrs_from p n) ≡ n
unfolding ptrs_from
length-ptrs_from p zero = refl
length-ptrs_from p (suc n) = ap suc (length-ptrs_from (p + 1) n)

pub All-ptrs_from : (p : Ptr) (n bound : ℕ) → p + n ≤ bound → All (λ q. q < bound) (ptrs_from p n)
unfolding ptrs_from
All-ptrs_from p zero bound h = tt
All-ptrs_from p (suc n) bound h = (omega arith, All-ptrs_from (p + 1) n bound (omega arith))

-- Distinct keys of the items are distinct keys of the pointers to them.
module _ {K : Type 0} (dec : Discrete K) (tag : Item → Option K) (heap : Heap) where
  pub Distinct-ptrs :
      (ps : List Ptr) → Distinct dec tag (map heap ps) → Distinct dec (λ p. tag (heap p)) ps
  Distinct-ptrs [] d = tt
  Distinct-ptrs (p ∷ ps) d =
      (λ k e. ground (arith, find-map dec tag heap k ps, d.0 k e), Distinct-ptrs ps d.1)

-- The uuids of a batch that passes are distinct, and the map holds them.
module _ (heap : Heap) where
  pub record Uuids (ps : List Ptr) (m m' : List (Uuid × Ptr)) : Type 0 where
    pub found :
        (k : Uuid)
        → lookup Bytes-discrete k m'
          ≡ or_else Bytes-discrete
              (find Bytes-discrete (λ p. uuid_tag (heap p)) k ps)
              (lookup Bytes-discrete k m)
    pub distinct : Distinct Bytes-discrete (λ p. uuid_tag (heap p)) ps
    pub new :
        (k : Uuid) (q : Ptr)
        → lookup Bytes-discrete k m ≡ some q
        → find Bytes-discrete (λ p. uuid_tag (heap p)) k ps ≡ none

  pub index_uuids-Uuids :
      (ps : List Ptr) (m m' : List (Uuid × Ptr)) → index_uuids heap ps m ≡ ok m' → Uuids ps m m'
  unfolding index_uuids find uuid_tag
  index_uuids-Uuids [] m m' e = record { found = λ k. cc; distinct = tt; new = λ k q h. refl }
  index_uuids-Uuids (p ∷ ps) m m' e = elim (Bool-cases (is_zero (heap p).uuid)) [
    | inl none_given ↦
        let u = index_uuids-Uuids ps m m' (ground arith) in
        record {
          found = λ k. ground (arith, u.found k);
          distinct = (λ k t. ground arith, u.distinct);
          new = λ k q h. ground (arith, u.new k q h);
        }
    | inr given ↦
        let u = index_uuids-Uuids ps (insert Bytes-discrete (heap p).uuid p m) m' (ground arith) in
        record {
          found = λ k.
              ground
                (arith, u.found k, u.new k p, lookup-insert Bytes-discrete k (heap p).uuid p m);
          distinct = (
            λ k t. ground (arith, u.new k p, lookup-insert Bytes-discrete k (heap p).uuid p m),
            u.distinct,
          );
          new =
              λ k q h. ground (arith, u.new k q, lookup-insert Bytes-discrete k (heap p).uuid p m);
        }
  ]
