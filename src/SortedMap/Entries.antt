-- ===== src/SortedMap/Entries.antt =====
-- What the ordered maps do to their entries: predicates on every value, and building a map from
-- the entries of another in order.
use strategy_nodes.Common.{◌≡◌, refl, ap, true, [], ◌∷◌, ◌++◌, All, inl, inr, Bool-cases}
use strategy_nodes.SortedMap.{Comparator, SortedMap, insert_or_assign, erase}
use strategy_nodes.SortedMap.Laws.{FirstAfter, IsSorted}

module _ {ℓ κ η} {K : Type ℓ} {V : Type κ} (o : Comparator K) (P : V → Type η) where
  -- Every value of the map has the property.
  abbrev pub Values : SortedMap K V → Type η
  Values = All (λ e. P e.1)

  pub insert_or_assign-Values :
      (k : K) (v : V) (m : SortedMap K V) → P v → Values m → Values (insert_or_assign o k v m)
  unfolding insert_or_assign
  insert_or_assign-Values k v [] h a = (h, tt)
  insert_or_assign-Values k v ((j, w) ∷ m) h (b, a) = elim (Bool-cases (o.lt j k)) [
    | inl p ↦ rw p (b, insert_or_assign-Values k v m h a)
    | inr p ↦ elim (Bool-cases (o.lt k j)) [
      | inl q ↦ rw (p, q) (h, (b, a))
      | inr q ↦ rw (p, q) (h, a)
    ]
  ]

  pub erase-Values : (k : K) (m : SortedMap K V) → Values m → Values (erase o k m)
  unfolding erase
  erase-Values k [] a = tt
  erase-Values k ((j, w) ∷ m) (b, a) = elim (Bool-cases (o.lt j k)) [
    | inl p ↦ rw p (b, erase-Values k m a)
    | inr p ↦ elim (Bool-cases (o.lt k j)) [ inl q ↦ rw (p, q) (b, a) | inr q ↦ rw (p, q) a ]
  ]

module _ {ℓ κ} {K : Type ℓ} {V : Type κ} (o : Comparator K) where
  -- A key at the front of a sorted map comes before every later one.
  before_later :
      (j k : K) (v : V) (xs ys : SortedMap K V)
      → FirstAfter o j (xs ++ (k, v) ∷ ys)
      → IsSorted o (xs ++ (k, v) ∷ ys)
      → o.lt j k ≡ true
  before_later j k v [] ys f s = f
  before_later j k v ((i, w) ∷ xs) ys f (g, s) = o.lt_trans j i k f (before_later i k v xs ys g s)

  -- The last key of a sorted map is inserted at the end.
  pub insert_or_assign-last :
      (k : K) (v : V) (xs ys : SortedMap K V)
      → IsSorted o (xs ++ (k, v) ∷ ys)
      → insert_or_assign o k v xs ≡ xs ++ (k, v) ∷ []
  unfolding insert_or_assign
  insert_or_assign-last k v [] ys s = refl
  insert_or_assign-last k v ((j, w) ∷ xs) ys (f, s) =
      rw (before_later j k v xs ys f s) (ap (λ zs. (j, w) ∷ zs) (insert_or_assign-last k v xs ys s))
