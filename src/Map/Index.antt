-- ===== src/Map/Index.antt =====
-- An index over a list of pointers: a map that sends a key to the pointer whose item carries it, as
-- byID, bySeq and byUUID do for the items of a scope. Items without a key are not in the map.
use scopecache.Prelude.{
  ℕ, zero, suc, ◌≡◌, refl, ◌∙◌, sym, Option, none, some, List, [], ◌∷◌, ◌++◌, ite, arith, get_elem?,
  erase_idx, take, drop, All, Option-cases, inl, inr,
}
use scopecache.Map.{lookup}

module _ {ℓ} {K P : Type ℓ} (dec : Discrete K) where
  -- `or_else a b` is the first of the two that is there.
  abbrev pub or_else : Option P → Option P → Option P
  or_else (some p) o = some p
  or_else none o = o

  -- The pointer of the list whose tag is the key.
  unfoldable pub find : (P → Option K) → K → List P → Option P
  find tag k [] = none
  find tag k (p ∷ ps) = elim (tag p) [
    | none ↦ find tag k ps
    | some j ↦ ite (dec k j) (some p) (find tag k ps)
  ]

  -- No two pointers carry the same key.
  abbrev pub Distinct : (P → Option K) → List P → Type ℓ
  Distinct tag [] = Unit
  Distinct tag (p ∷ ps) = ((k : K) → tag p ≡ some k → find tag k ps ≡ none) × Distinct tag ps

  pub record IsIndexed (tag : P → Option K) (ps : List P) (m : List (K × P)) : Type ℓ where
    pub found : (k : K) → lookup dec k m ≡ find tag k ps
    pub distinct : Distinct tag ps

  module _ (tag : P → Option K) where
    pub find-append :
        (k : K) (xs ys : List P) → find tag k (xs ++ ys) ≡ or_else (find tag k xs) (find tag k ys)
    unfolding find
    find-append k [] ys = refl
    find-append k (x ∷ xs) ys = ground (arith, find-append k xs ys)

    pub Distinct-append :
        (xs : List P) (p : P)
        → Distinct tag xs
        → ((k : K) → tag p ≡ some k → find tag k xs ≡ none)
        → Distinct tag (xs ++ (p ∷ []))
    unfolding find
    Distinct-append [] p d h = (λ k e. refl, tt)
    Distinct-append (x ∷ xs) p d h = (
      λ k e. elim (Option-cases (find tag k (xs ++ (p ∷ [])))) [
        | inl miss ↦ miss
        | inr (q, hit) ↦ ground (arith, d.0 k e, find-append k xs (p ∷ []), h k)
      ],
      Distinct-append xs p d.1 (λ k e. ground (arith, h k e)),
    )

    -- With distinct keys each pointer is found under its own key.
    pub find_of_get :
        (xs : List P) (i : ℕ) {p : P} {j : K}
        → Distinct tag xs
        → get_elem? xs i ≡ some p
        → tag p ≡ some j
        → find tag j xs ≡ some p
    unfolding find
    find_of_get [] i d g t = cc
    find_of_get (x ∷ xs) zero d g t = ground arith
    find_of_get (x ∷ xs) (suc i) {p} {j} d g t = ground (arith, find_of_get xs i d.1 g t, d.0 j)

    -- What is found stands in the list and carries the key.
    pub get_of_find :
        (k : K) (xs : List P) {p : P}
        → find tag k xs ≡ some p
        → (i : ℕ) × (get_elem? xs i ≡ some p) × (tag p ≡ some k)
    unfolding find
    get_of_find k [] h = cc
    get_of_find k (x ∷ xs) {p} h = elim (Option-cases (tag x)) [
      | inl e ↦ let (i, g, t) = get_of_find k xs (ground arith) in (suc i, g, t)
      | inr (j, e) ↦ elim (dec k j) [
        | yes q ↦ (0, ground arith, ground arith)
        | no q ↦ let (i, g, t) = get_of_find k xs (ground arith) in (suc i, g, t)
      ]
    ]

    pub find-erase_idx :
        (k : K) (xs : List P) (i : ℕ) {p : P} {j : K}
        → Distinct tag xs
        → get_elem? xs i ≡ some p
        → tag p ≡ some j
        → find tag k (erase_idx xs i) ≡ ite (dec k j) none (find tag k xs)
    unfolding find
    find-erase_idx k [] i d g t = cc
    find-erase_idx k (x ∷ xs) zero d g t = ground (arith, d.0 k)
    find-erase_idx k (x ∷ xs) (suc i) {p} {j} d g t =
        ground (arith, find-erase_idx k xs i d.1 g t, find_of_get xs i d.1 g t, d.0 j)

    pub find-erase_idx_untagged :
        (k : K) (xs : List P) (i : ℕ) {p : P}
        → get_elem? xs i ≡ some p
        → tag p ≡ none
        → find tag k (erase_idx xs i) ≡ find tag k xs
    unfolding find
    find-erase_idx_untagged k [] i g t = cc
    find-erase_idx_untagged k (x ∷ xs) zero g t = ground arith
    find-erase_idx_untagged k (x ∷ xs) (suc i) g t =
        ground (arith, find-erase_idx_untagged k xs i g t)

    find-erase_idx-none :
        (k : K) (xs : List P) (i : ℕ) → find tag k xs ≡ none → find tag k (erase_idx xs i) ≡ none
    unfolding find
    find-erase_idx-none k [] i h = h
    find-erase_idx-none k (x ∷ xs) zero h = ground arith
    find-erase_idx-none k (x ∷ xs) (suc i) h = ground (arith, find-erase_idx-none k xs i)

    pub Distinct-erase_idx : (xs : List P) (i : ℕ) → Distinct tag xs → Distinct tag (erase_idx xs i)
    Distinct-erase_idx [] i d = d
    Distinct-erase_idx (x ∷ xs) zero d = d.1
    Distinct-erase_idx (x ∷ xs) (suc i) d =
        (λ k e. find-erase_idx-none k xs i (d.0 k e), Distinct-erase_idx xs i d.1)

    -- The keys of a dropped prefix are gone, and the others are found as before.
    pub find-drop :
        (k : K) (n : ℕ) (xs : List P)
        → Distinct tag xs
        → find tag k (drop n xs)
          ≡ elim (find tag k (take n xs)) [ some _ ↦ none | none ↦ find tag k xs ]
    unfolding find
    find-drop k zero xs d = refl
    find-drop k (suc n) [] d = refl
    find-drop k (suc n) (x ∷ xs) d = ground (arith, find-drop k n xs d.1, d.0 k)

    pub Distinct-drop : (n : ℕ) (xs : List P) → Distinct tag xs → Distinct tag (drop n xs)
    Distinct-drop zero xs d = d
    Distinct-drop (suc n) [] d = d
    Distinct-drop (suc n) (x ∷ xs) d = Distinct-drop n xs d.1

  -- Two tags that agree on the list index it alike.
  pub find-ext :
      (t u : P → Option K) (k : K) (xs : List P)
      → All (λ p. t p ≡ u p) xs
      → find t k xs ≡ find u k xs
  unfolding find
  find-ext t u k [] h = refl
  find-ext t u k (x ∷ xs) h = ground (arith, h.0, find-ext t u k xs h.1)

  pub Distinct-ext :
      (t u : P → Option K) (xs : List P) → All (λ p. t p ≡ u p) xs → Distinct t xs → Distinct u xs
  Distinct-ext t u [] h d = tt
  Distinct-ext t u (x ∷ xs) h d =
      (λ k e. sym (find-ext t u k xs h.1) ∙ d.0 k (h.0 ∙ e), Distinct-ext t u xs h.1 d.1)
