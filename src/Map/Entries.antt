-- ===== src/Map/Entries.antt =====
-- A map from names to pointers, as the scope map of the store: what the operations do to a sum over the
-- pointers that it holds.
use scopecache.Prelude.{
  ℕ, ◌+◌, ◌<◌, ◌≡◌, ◌≢◌, refl, Option, none, some, List, [], ◌∷◌, ◌++◌, arith, All, sum_by, length,
  ◌==◌, if◌then◌else◌, sym, ℕ_discrete, ite_intro, All-append,
}
use scopecache.Map.{lookup, insert, erase}

pub All-weaken :
    {K : Type 0} (n : ℕ) (m : List (K × ℕ)) → All (λ e. e.1 < n) m → All (λ e. e.1 < n + 1) m
All-weaken n [] h = tt
All-weaken n (e ∷ m) h = (omega (arith, h.0), All-weaken n m h.1)

pub All-below :
    {K : Type 0} (n : ℕ) (m : List (K × ℕ)) → All (λ e. e.1 < n) m → All (λ e. e.1 ≢ n) m
All-below n [] h = tt
All-below n (e ∷ m) h = (λ same. omega (arith, h.0, same), All-below n m h.1)

module _ {K : Type 0} (dec : Discrete K) where
  -- The names are distinct, and so are the pointers, which ascend.
  abbrev pub Unique : List (K × ℕ) → Type 0
  Unique [] = Unit
  Unique ((k, p) ∷ m) = (lookup dec k m ≡ none) × All (λ e. p < e.1) m × Unique m

  -- The name under which a pointer stands in the map.
  unfoldable pub name_of : ℕ → List (K × ℕ) → Option K
  name_of p [] = none
  name_of p ((k, q) ∷ m) = if q == p then some k else name_of p m

  abbrev pub total : (ℕ → ℕ) → List (K × ℕ) → ℕ
  total f = sum_by (λ e. f e.1)

  pub insert_fresh :
      (k : K) (p : ℕ) (m : List (K × ℕ))
      → lookup dec k m ≡ none
      → insert dec k p m ≡ m ++ ((k, p) ∷ [])
  unfolding lookup insert
  insert_fresh k p [] h = refl
  insert_fresh k p ((j, q) ∷ m) h = ground (arith, insert_fresh k p m)

  pub erase_absent : (k : K) (m : List (K × ℕ)) → lookup dec k m ≡ none → erase dec k m ≡ m
  unfolding lookup erase
  erase_absent k [] h = refl
  erase_absent k ((j, q) ∷ m) h = ground (arith, erase_absent k m)

  pub All-erase {κ} :
      (P : K × ℕ → Type κ) (k : K) (m : List (K × ℕ)) → All P m → All P (erase dec k m)
  unfolding erase
  All-erase P k [] h = tt
  All-erase P k ((j, q) ∷ m) h =
      ite_intro (All P) (dec k j) (λ _. All-erase P k m h.1) (λ _. (h.0, All-erase P k m h.1))

  lookup-erase-none :
      (k j : K) (m : List (K × ℕ)) → lookup dec k m ≡ none → lookup dec k (erase dec j m) ≡ none
  unfolding lookup erase
  lookup-erase-none k j [] h = refl
  lookup-erase-none k j ((i, q) ∷ m) h = ground (arith, lookup-erase-none k j m)

  pub Unique-erase : (k : K) (m : List (K × ℕ)) → Unique m → Unique (erase dec k m)
  unfolding erase
  Unique-erase k [] u = tt
  Unique-erase k ((j, q) ∷ m) u =
      ite_intro Unique (dec k j) (λ _. Unique-erase k m u.2)
        (λ _. (lookup-erase-none j k m u.0, All-erase (λ e. q < e.1) k m u.1, Unique-erase k m u.2))

  -- Taking a name out takes its pointer's share out of a sum.
  pub total-erase :
      (f : ℕ → ℕ) (k : K) (m : List (K × ℕ)) {p : ℕ}
      → Unique m
      → lookup dec k m ≡ some p
      → total f (erase dec k m) + f p ≡ total f m
  unfolding lookup erase
  total-erase f k [] u h = cc
  total-erase f k ((j, q) ∷ m) {p} u h =
      ground (arith, total-erase f k m {p = p} u.2, erase_absent k m, u.0)

  pub length-erase :
      (k : K) (m : List (K × ℕ)) {p : ℕ}
      → Unique m
      → lookup dec k m ≡ some p
      → length (erase dec k m) + 1 ≡ length m
  unfolding lookup erase
  length-erase k [] u h = cc
  length-erase k ((j, q) ∷ m) {p} u h =
      ground (arith, length-erase k m {p = p} u.2, erase_absent k m, u.0)

  -- A pointer that has no name is none of the map's.
  pub name_of-none : (p : ℕ) (m : List (K × ℕ)) → name_of p m ≡ none → All (λ e. e.1 ≢ p) m
  unfolding name_of
  name_of-none p [] h = tt
  name_of-none p ((k, q) ∷ m) h = (λ e. ground arith, name_of-none p m (ground arith))

  All-above : (p q : ℕ) (m : List (K × ℕ)) → All (λ e. q < e.1) m → p ≡ q → All (λ e. e.1 ≢ p) m
  All-above p q [] h e = tt
  All-above p q (x ∷ m) h e = (λ d. omega (arith, h.0, d, e), All-above p q m h.1 e)

  -- Sums agree where the measures agree on the map's pointers.
  pub total-other :
      (f g : ℕ → ℕ) (p : ℕ) (m : List (K × ℕ))
      → ((q : ℕ) → q ≢ p → g q ≡ f q)
      → All (λ e. e.1 ≢ p) m
      → total g m ≡ total f m
  total-other f g p [] h a = refl
  total-other f g p ((k, q) ∷ m) h a = omega (arith, h q a.0, total-other f g p m h a.1)

  -- A measure that changes at one pointer changes the sum by as much.
  pub total-change :
      (f g : ℕ → ℕ) (p : ℕ) (m : List (K × ℕ)) {k : K}
      → ((q : ℕ) → q ≢ p → g q ≡ f q)
      → Unique m
      → name_of p m ≡ some k
      → total g m + f p ≡ total f m + g p
  unfolding name_of
  total-change f g p [] h u e = cc
  total-change f g p ((j, q) ∷ m) {k} h u e = elim (ℕ_discrete q p) [
    | yes same ↦ ground (arith, same, total-other f g p m h (All-above p q m u.1 (sym same)))
    | no ne ↦ ground (arith, h q ne, total-change f g p m {k = k} h u.2)
  ]

  lookup_above :
      (k : K) (n : ℕ) (m : List (K × ℕ)) {p : ℕ}
      → All (λ e. n < e.1) m
      → lookup dec k m ≡ some p
      → n < p
  unfolding lookup
  lookup_above k n [] a h = cc
  lookup_above k n ((j, q) ∷ m) {p} a h = ground (arith, a.0, lookup_above k n m {p = p} a.1)

  -- Each name of the map is the name of its pointer.
  pub name_of-lookup :
      (k : K) (m : List (K × ℕ)) {p : ℕ} → Unique m → lookup dec k m ≡ some p → name_of p m ≡ some k
  unfolding lookup name_of
  name_of-lookup k [] u h = cc
  name_of-lookup k ((j, q) ∷ m) {p} u h = elim (dec k j) [
    | yes e ↦ ground arith
    | no e ↦ ground (arith, name_of-lookup k m {p = p} u.2, lookup_above k q m {p = p} u.1)
  ]

  pub name_of-append :
      (q p : ℕ) (k : K) (m : List (K × ℕ))
      → name_of q (m ++ ((k, p) ∷ []))
        ≡ elim (name_of q m) [ some j ↦ some j | none ↦ if p == q then some k else none ]
  unfolding name_of
  name_of-append q p k [] = refl
  name_of-append q p k ((j, i) ∷ m) = ground (arith, name_of-append q p k m)

  name_of_absent : (p q : ℕ) (m : List (K × ℕ)) → All (λ e. q < e.1) m → p ≡ q → name_of p m ≡ none
  unfolding name_of
  name_of_absent p q [] a e = refl
  name_of_absent p q ((k, i) ∷ m) a e = ground (arith, a.0, name_of_absent p q m a.1 e)

  lookup-append_none :
      (j k : K) (p : ℕ) (m : List (K × ℕ))
      → lookup dec j m ≡ none
      → ¬ (j ≡ k)
      → lookup dec j (m ++ ((k, p) ∷ [])) ≡ none
  unfolding lookup
  lookup-append_none j k p [] h ne = ground arith
  lookup-append_none j k p ((i, q) ∷ m) h ne = ground (arith, lookup-append_none j k p m)

  -- The pointer whose name goes is in the map no more, and the others keep their names.
  pub name_of-erase :
      (k : K) (p q : ℕ) (m : List (K × ℕ))
      → Unique m
      → lookup dec k m ≡ some p
      → name_of q (erase dec k m) ≡ (if q == p then none else name_of q m)
  unfolding lookup erase name_of
  name_of-erase k p q [] u h = cc
  name_of-erase k p q ((j, i) ∷ m) u h = elim (dec k j) [
    | yes e ↦ ground (arith, erase_absent k m, u.0, λ (x : i ≡ q). name_of_absent q i m u.1 (sym x))
    | no e ↦ ground (arith, name_of-erase k p q m u.2, lookup_above k i m {p = p} u.1)
  ]

  pub Unique-append :
      (k : K) (p : ℕ) (m : List (K × ℕ))
      → Unique m
      → lookup dec k m ≡ none
      → All (λ e. e.1 < p) m
      → Unique (m ++ ((k, p) ∷ []))
  unfolding lookup
  Unique-append k p [] u h a = (refl, tt, tt)
  Unique-append k p ((j, q) ∷ m) u h a = (
    lookup-append_none j k p m u.0 (λ e. ground arith),
    All-append (λ e. q < e.1) m ((k, p) ∷ []) u.1 (a.0, tt),
    Unique-append k p m u.2 (ground arith) a.1,
  )

  -- What was just put in under a new name is taken out again.
  pub erase-insert_fresh :
      (k : K) (p : ℕ) (m : List (K × ℕ))
      → lookup dec k m ≡ none
      → erase dec k (insert dec k p m) ≡ m
  unfolding lookup insert erase
  erase-insert_fresh k p [] h = ground arith
  erase-insert_fresh k p ((j, q) ∷ m) h = ground (arith, erase-insert_fresh k p m)

  pub lookup-insert_self :
      (k : K) (p : ℕ) (m : List (K × ℕ)) → lookup dec k (insert dec k p m) ≡ some p
  unfolding lookup insert
  lookup-insert_self k p [] = ground arith
  lookup-insert_self k p ((j, q) ∷ m) = ground (arith, lookup-insert_self k p m)
