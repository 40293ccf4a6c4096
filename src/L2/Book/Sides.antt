-- ===== src/L2/Book/Sides.antt =====
-- One side of a book under a list of levels: order, nonzero quantities, the depth, and what each
-- price holds afterwards.
use strategy_nodes.Common.{
  ℕ, ◌≤◌, ◌≡◌, refl, ap, sym, ◌∙◌, ◌⊎◌, inl, inr, false, Option, none, some, ℤ, List, [], ◌∷◌, ◌++◌,
  map, append_assoc, append-nil, take, length, length-take, take_all, is_zero, if◌then◌else◌, arith,
  All-take, Bool-cases,
}
use strategy_nodes.SortedMap.{Comparator, same, find}
use strategy_nodes.SortedMap.Laws.{
  IsSorted, insert_or_assign-IsSorted, erase-IsSorted, take-IsSorted, find-insert_or_assign,
  find-erase,
}
use strategy_nodes.SortedMap.Entries.{
  Values, insert_or_assign-Values, erase-Values, insert_or_assign-last,
}
use strategy_nodes.L2.Message.{Level, full_depth}
use strategy_nodes.L2.Book.{Side, set_level, set_levels, truncate, apply_levels}

abbrev pub IsNonzero : ℤ → Type 0
IsNonzero quantity = is_zero quantity ≡ false

abbrev pub Fits : ℕ → Side → Type 0
Fits depth side = (depth ≡ full_depth) ⊎ (length side ≤ depth)

-- The quantity that a list of levels leaves at a price that held `before`: that of the last level
-- of the price, where zero leaves none.
unfoldable pub quoted : Comparator ℤ → List Level → ℤ → Option ℤ → Option ℤ
quoted o [] price before = before
quoted o (level ∷ levels) price before = quoted o levels price (
    if same o level.price price
    then if is_zero level.quantity then none else some level.quantity
    else before)

-- The levels of a side, best first.
unfoldable pub levels_of : Side → List Level
levels_of = map (λ e. record { price = e.0; quantity = e.1 })

module _ (o : Comparator ℤ) where
  pub record IsSide (depth : ℕ) (side : Side) : Type 0 where
    pub sorted : IsSorted o side
    pub nonzero : Values o IsNonzero side
    pub fits : Fits depth side

  set_level-IsSorted : (l : Level) (side : Side) → IsSorted o side → IsSorted o (set_level o l side)
  unfolding set_level
  set_level-IsSorted l side s = elim (Bool-cases (is_zero l.quantity)) [
    | inl z ↦ rw z (erase-IsSorted o l.price side s)
    | inr n ↦ rw n (insert_or_assign-IsSorted o l.price l.quantity side s)
  ]

  set_level-IsNonzero :
      (l : Level) (side : Side) → Values o IsNonzero side → Values o IsNonzero (set_level o l side)
  unfolding set_level
  set_level-IsNonzero l side a = elim (Bool-cases (is_zero l.quantity)) [
    | inl z ↦ rw z (erase-Values o IsNonzero l.price side a)
    | inr n ↦ rw n (insert_or_assign-Values o IsNonzero l.price l.quantity side n a)
  ]

  pub set_levels-IsSorted :
      (ls : List Level) (side : Side) → IsSorted o side → IsSorted o (set_levels o ls side)
  unfolding set_levels
  set_levels-IsSorted [] side s = s
  set_levels-IsSorted (l ∷ ls) side s =
      set_levels-IsSorted ls (set_level o l side) (set_level-IsSorted l side s)

  set_levels-IsNonzero :
      (ls : List Level) (side : Side)
      → Values o IsNonzero side
      → Values o IsNonzero (set_levels o ls side)
  unfolding set_levels
  set_levels-IsNonzero [] side a = a
  set_levels-IsNonzero (l ∷ ls) side a =
      set_levels-IsNonzero ls (set_level o l side) (set_level-IsNonzero l side a)

  pub find-set_level :
      (l : Level) (side : Side) (price : ℤ)
      → IsSorted o side
      → find o price (set_level o l side) ≡ (
          if same o l.price price
          then if is_zero l.quantity then none else some l.quantity
          else find o price side)
  unfolding set_level
  find-set_level l side price s = elim (Bool-cases (is_zero l.quantity)) [
    | inl z ↦ rw z (find-erase o l.price price side s)
    | inr n ↦ rw n (find-insert_or_assign o l.price price l.quantity side)
  ]

  pub find-set_levels :
      (ls : List Level) (side : Side) (price : ℤ)
      → IsSorted o side
      → find o price (set_levels o ls side) ≡ quoted o ls price (find o price side)
  unfolding set_levels quoted
  find-set_levels [] side price s = refl
  find-set_levels (l ∷ ls) side price s =
      find-set_levels ls (set_level o l side) price (set_level-IsSorted l side s)
      ∙ ap (quoted o ls price) (find-set_level l side price s)

  truncate-take :
      (depth : ℕ) (side : Side)
      → ((depth ≡ full_depth) × (truncate depth side ≡ side))
        ⊎ (truncate depth side ≡ take depth side)
  unfolding truncate
  truncate-take depth side = ground (arith, take_all depth side)

  pub apply_levels-IsSide :
      (ls : List Level) (depth : ℕ) (side : Side)
      → IsSide depth side
      → IsSide depth (apply_levels o ls depth side)
  unfolding apply_levels
  apply_levels-IsSide ls depth side v =
      let s = set_levels-IsSorted ls side v.sorted in
      let n = set_levels-IsNonzero ls side v.nonzero in
      elim (truncate-take depth (set_levels o ls side)) [
        | inl (full, e) ↦ rw e (record { sorted = s; nonzero = n; fits = inl full })
        | inr e ↦ rw e (record {
          sorted = take-IsSorted o depth _ s;
          nonzero = All-take _ depth _ n;
          fits = inr (omega (arith, length-take depth (set_levels o ls side)));
        })
      ]

  set_level-last :
      (p q : ℤ) (side done : Side)
      → IsSorted o (done ++ (p, q) ∷ side)
      → IsNonzero q
      → set_level o (record { price = p; quantity = q }) done ≡ done ++ (p, q) ∷ []
  unfolding set_level
  set_level-last p q side done s h = rw h (insert_or_assign-last o p q done side s)

  -- The levels of a side, set one after the other, build the side again.
  set_levels-levels_of :
      (side done : Side)
      → IsSorted o (done ++ side)
      → Values o IsNonzero side
      → set_levels o (levels_of side) done ≡ done ++ side
  unfolding set_levels levels_of
  set_levels-levels_of [] done s n = sym (append-nil done)
  set_levels-levels_of ((p, q) ∷ side) done s (h, n) =
      ap (set_levels o (levels_of side)) (set_level-last p q side done s h)
      ∙ set_levels-levels_of side (done ++ (p, q) ∷ [])
          (rw (append_assoc done ((p, q) ∷ []) side) s) n
      ∙ append_assoc done ((p, q) ∷ []) side

  pub apply_levels-levels_of :
      (depth : ℕ) (side : Side)
      → IsSide depth side
      → apply_levels o (levels_of side) depth [] ≡ side
  unfolding apply_levels truncate
  apply_levels-levels_of depth side v =
      rw (set_levels-levels_of side [] v.sorted v.nonzero) (ground (arith, take_all depth side))
