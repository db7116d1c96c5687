-- ===== src/Map/Keyed.antt =====
-- Operations on a list by key, which say in one equation what the indexed operations do.
use scopecache.Prelude.{
  ℕ, zero, suc, ◌≡◌, refl, Option, none, some, List, [], ◌∷◌, ite, map, arith, get_elem?, erase_idx,
}
use scopecache.Map.Index.{find, Distinct, find_of_get}

module _ {ℓ} {K P : Type ℓ} (dec : Discrete K) (tag : P → Option K) where
  -- The list without the elements of a key.
  unfoldable pub without : K → List P → List P
  without k [] = []
  without k (p ∷ ps) = elim (tag p) [
    | none ↦ p ∷ without k ps
    | some j ↦ ite (dec k j) (without k ps) (p ∷ without k ps)
  ]

  -- The list with a function applied to the elements of a key.
  unfoldable pub modify : K → (P → P) → List P → List P
  modify k f [] = []
  modify k f (p ∷ ps) = elim (tag p) [
    | none ↦ p ∷ modify k f ps
    | some j ↦ ite (dec k j) (f p ∷ modify k f ps) (p ∷ modify k f ps)
  ]

  pub without_absent : (k : K) (xs : List P) → find dec tag k xs ≡ none → without k xs ≡ xs
  unfolding without find
  without_absent k [] h = refl
  without_absent k (x ∷ xs) h = ground (arith, without_absent k xs)

  pub modify_absent :
      (k : K) (f : P → P) (xs : List P) → find dec tag k xs ≡ none → modify k f xs ≡ xs
  unfolding modify find
  modify_absent k f [] h = refl
  modify_absent k f (x ∷ xs) h = ground (arith, modify_absent k f xs)

  -- With distinct keys, taking an element out by its index takes out its key.
  pub erase_idx-without :
      (k : K) (xs : List P) (i : ℕ) {p : P}
      → Distinct dec tag xs
      → get_elem? xs i ≡ some p
      → tag p ≡ some k
      → erase_idx xs i ≡ without k xs
  unfolding without find
  erase_idx-without k [] i d g t = cc
  erase_idx-without k (x ∷ xs) zero d g t = ground (arith, without_absent k xs, d.0 k)
  erase_idx-without k (x ∷ xs) (suc i) {p} d g t =
      ground (arith, erase_idx-without k xs i d.1 g t, find_of_get dec tag xs i d.1 g t, d.0 k)

-- A list of pointers, and the list of what they point to.
module _ {ℓ} {K P I : Type ℓ} (dec : Discrete K) (tag : I → Option K) (heap : P → I) where
  pub map-without :
      (k : K) (xs : List P)
      → map heap (without dec (λ p. tag (heap p)) k xs) ≡ without dec tag k (map heap xs)
  unfolding without
  map-without k [] = refl
  map-without k (x ∷ xs) = ground (arith, map-without k xs)

  -- A key is found among the items as it is among the pointers.
  abbrev pub deref : Option P → Option I
  deref none = none
  deref (some p) = some (heap p)

  pub find-map :
      (k : K) (xs : List P)
      → find dec tag k (map heap xs) ≡ deref (find dec (λ p. tag (heap p)) k xs)
  unfolding find
  find-map k [] = refl
  find-map k (x ∷ xs) = ground (arith, find-map k xs)
