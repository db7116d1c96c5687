-- ===== src/Map/Keeps.antt =====
-- What the map operations do to an index: the laws that the scope's insert and delete paths rest on.
use scopecache.Prelude.{
  ℕ, ◌≡◌, refl, ◌∙◌, Option, none, some, List, [], ◌∷◌, ◌++◌, ite, arith, get_elem?, erase_idx,
  take, drop, All, Option-cases, inl, inr,
}
use scopecache.Map.{lookup, insert, erase, lookup-insert, lookup-erase}
use scopecache.Map.Index.{
  find, IsIndexed, find-append, Distinct-append, find-erase_idx, find-erase_idx_untagged,
  Distinct-erase_idx, find-drop, Distinct-drop, find-ext, Distinct-ext,
}

module _ {ℓ} {K P : Type ℓ} (dec : Discrete K) where
  -- A tagged pointer goes to the end of the list and into the map; an untagged one to the list only.
  unfoldable pub record_key : Option K → P → List (K × P) → List (K × P)
  record_key none p m = m
  record_key (some k) p m = insert dec k p m

  -- A removed pointer takes its key with it.
  unfoldable pub forget_key : Option K → List (K × P) → List (K × P)
  forget_key none m = m
  forget_key (some k) m = erase dec k m

  pub lookup-record_key :
      (k : K) (t : Option K) (p : P) (m : List (K × P))
      → lookup dec k (record_key t p m)
        ≡ elim t [ none ↦ lookup dec k m | some j ↦ ite (dec k j) (some p) (lookup dec k m) ]
  unfolding record_key
  lookup-record_key k none p m = refl
  lookup-record_key k (some j) p m = lookup-insert dec k j p m

  pub lookup-forget_key :
      (k : K) (t : Option K) (m : List (K × P))
      → lookup dec k (forget_key t m)
        ≡ elim t [ none ↦ lookup dec k m | some j ↦ ite (dec k j) none (lookup dec k m) ]
  unfolding forget_key
  lookup-forget_key k none m = refl
  lookup-forget_key k (some j) m = lookup-erase dec k j m

  module _ (tag : P → Option K) where
    unfoldable pub forget_keys : List P → List (K × P) → List (K × P)
    forget_keys [] m = m
    forget_keys (p ∷ ps) m = forget_keys ps (forget_key (tag p) m)

    pub lookup-forget_keys :
        (k : K) (ps : List P) (m : List (K × P))
        → lookup dec k (forget_keys ps m)
          ≡ elim (find dec tag k ps) [ some _ ↦ none | none ↦ lookup dec k m ]
    unfolding forget_keys find
    lookup-forget_keys k [] m = refl
    lookup-forget_keys k (p ∷ ps) m =
        ground
          (arith, lookup-forget_keys k ps (forget_key (tag p) m), lookup-forget_key k (tag p) m)

    pub IsIndexed-append :
        (ps : List P) (p : P) (m : List (K × P))
        → IsIndexed dec tag ps m
        → ((k : K) → tag p ≡ some k → find dec tag k ps ≡ none)
        → IsIndexed dec tag (ps ++ (p ∷ [])) (record_key (tag p) p m)
    unfolding find
    IsIndexed-append ps p m ix fresh = record {
      found = λ k. ground (
        arith,
        lookup-record_key k (tag p) p m,
        ix.found k,
        find-append dec tag k ps (p ∷ []),
        fresh k,
      );
      distinct = Distinct-append dec tag ps p ix.distinct fresh;
    }

    pub IsIndexed-erase_idx :
        (ps : List P) (i : ℕ) {p : P} (m : List (K × P))
        → get_elem? ps i ≡ some p
        → IsIndexed dec tag ps m
        → IsIndexed dec tag (erase_idx ps i) (forget_key (tag p) m)
    IsIndexed-erase_idx ps i {p} m g ix = record {
      found = λ k. elim (Option-cases (tag p)) [
        | inl e ↦ ground (
          arith,
          lookup-forget_key k (tag p) m,
          ix.found k,
          find-erase_idx_untagged dec tag k ps i g e,
        )
        | inr (j, e) ↦ ground (
          arith,
          lookup-forget_key k (tag p) m,
          ix.found k,
          find-erase_idx dec tag k ps i ix.distinct g e,
        )
      ];
      distinct = Distinct-erase_idx dec tag ps i ix.distinct;
    }

    pub IsIndexed-drop :
        (n : ℕ) (ps : List P) (m : List (K × P))
        → IsIndexed dec tag ps m
        → IsIndexed dec tag (drop n ps) (forget_keys (take n ps) m)
    IsIndexed-drop n ps m ix = record {
      found = λ k. ground (
        arith,
        lookup-forget_keys k (take n ps) m,
        find-drop dec tag k n ps ix.distinct,
        ix.found k,
      );
      distinct = Distinct-drop dec tag n ps ix.distinct;
    }

  pub IsIndexed-ext :
      (t u : P → Option K) (ps : List P) (m : List (K × P))
      → All (λ p. t p ≡ u p) ps
      → IsIndexed dec t ps m
      → IsIndexed dec u ps m
  IsIndexed-ext t u ps m h ix = record {
    found = λ k. ix.found k ∙ find-ext dec t u k ps h;
    distinct = Distinct-ext dec t u ps h ix.distinct;
  }
