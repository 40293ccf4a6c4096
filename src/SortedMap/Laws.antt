-- ===== src/SortedMap/Laws.antt =====
-- The laws of the ordered maps: order is kept, and reading after a write.
use strategy_nodes.Common.{
  ℕ, zero, suc, ◌≡◌, refl, true, false, none, some, [], ◌∷◌, take, arith, if◌then◌else◌, inl, inr,
  Bool-cases, ap, subst,
}
use strategy_nodes.SortedMap.{Comparator, SortedMap, same, find, insert_or_assign, erase}

module _ {ℓ} {K : Type ℓ} (o : Comparator K) where
  -- How two keys stand, with both tests computed.
  data Standing (a b : K) : Type ℓ where
    before : o.lt a b ≡ true → o.lt b a ≡ false → Standing a b
    after : o.lt a b ≡ false → o.lt b a ≡ true → Standing a b
    equal : a ≡ b → o.lt a b ≡ false → o.lt b a ≡ false → Standing a b

  pub lt_asymm : (a b : K) → o.lt a b ≡ true → o.lt b a ≡ false
  lt_asymm a b h = ground (arith, o.lt_trans a b a, o.lt_irrefl a)

  standing : (a b : K) → Standing a b
  standing a b = elim (Bool-cases (o.lt a b)) [
    | inl p ↦ before p (lt_asymm a b p)
    | inr p ↦ elim (Bool-cases (o.lt b a)) [
      | inl q ↦ after p q
      | inr q ↦ equal (o.lt_connex a b p q) p q
    ]
  ]

  pub same→eq : (a b : K) → same o a b ≡ true → a ≡ b
  same→eq a b h = elim (standing a b) [
    | before p q ↦ ground arith
    | after p q ↦ ground arith
    | equal e _ _ ↦ e
  ]

  pub same_self : (a : K) → same o a a ≡ true
  same_self a = ground (arith, o.lt_irrefl a)

module _ {ℓ κ} {K : Type ℓ} {V : Type κ} (o : Comparator K) where
  -- The first key, if any, comes after `k`.
  abbrev pub FirstAfter : K → SortedMap K V → Type 0
  FirstAfter k [] = Unit {0}
  FirstAfter k ((j, v) ∷ m) = o.lt k j ≡ true

  abbrev pub IsSorted : SortedMap K V → Type 0
  IsSorted [] = Unit {0}
  IsSorted ((k, v) ∷ m) = FirstAfter k m × IsSorted m

  FirstAfter-trans :
      (j k : K) (m : SortedMap K V) → o.lt j k ≡ true → FirstAfter k m → FirstAfter j m
  FirstAfter-trans j k [] h f = tt
  FirstAfter-trans j k ((i, v) ∷ m) h f = o.lt_trans j k i h f

  -- Nothing is found before the first key.
  pub find-FirstAfter : (k : K) (m : SortedMap K V) → FirstAfter k m → find o k m ≡ none
  unfolding find
  find-FirstAfter k [] f = refl
  find-FirstAfter k ((j, v) ∷ m) f = rw (lt_asymm o k j f, f)

  FirstAfter-insert :
      (i k : K) (v : V) (m : SortedMap K V)
      → o.lt i k ≡ true
      → FirstAfter i m
      → FirstAfter i (insert_or_assign o k v m)
  unfolding insert_or_assign
  FirstAfter-insert i k v [] h f = h
  FirstAfter-insert i k v ((j, w) ∷ m) h f = elim (standing o j k) [
    | before p q ↦ rw p f
    | after p q ↦ rw (p, q) h
    | equal e p q ↦ rw (p, q) f
  ]

  pub insert_or_assign-IsSorted :
      (k : K) (v : V) (m : SortedMap K V) → IsSorted m → IsSorted (insert_or_assign o k v m)
  unfolding insert_or_assign
  insert_or_assign-IsSorted k v [] s = (tt, tt)
  insert_or_assign-IsSorted k v ((j, w) ∷ m) (f, s) = elim (standing o j k) [
    | before p q ↦ rw p (FirstAfter-insert j k v m p f, insert_or_assign-IsSorted k v m s)
    | after p q ↦ rw (p, q) (q, (f, s))
    | equal e p q ↦ rw (p, q) (f, s)
  ]

  FirstAfter-erase :
      (i k : K) (m : SortedMap K V) → IsSorted m → FirstAfter i m → FirstAfter i (erase o k m)
  unfolding erase
  FirstAfter-erase i k [] s f = tt
  FirstAfter-erase i k ((j, w) ∷ m) s f = elim (standing o j k) [
    | before p q ↦ rw p f
    | after p q ↦ rw (p, q) f
    | equal e p q ↦ rw (p, q) (FirstAfter-trans i j m f s.0)
  ]

  pub erase-IsSorted : (k : K) (m : SortedMap K V) → IsSorted m → IsSorted (erase o k m)
  unfolding erase
  erase-IsSorted k [] s = tt
  erase-IsSorted k ((j, w) ∷ m) (f, s) = elim (standing o j k) [
    | before p q ↦ rw p (FirstAfter-erase j k m s f, erase-IsSorted k m s)
    | after p q ↦ rw (p, q) (f, s)
    | equal e p q ↦ rw (p, q) s
  ]

  -- Reading after a write.
  pub find-insert_or_assign :
      (k j : K) (v : V) (m : SortedMap K V)
      → find o j (insert_or_assign o k v m) ≡ (if same o k j then some v else find o j m)
  unfolding find insert_or_assign
  find-insert_or_assign k j v [] = ground arith
  find-insert_or_assign k j v ((i, w) ∷ m) = elim (standing o i k) [
    | before p q ↦ rw p (elim (standing o i j) [
      | before p' q' ↦ rw p' (find-insert_or_assign k j v m)
      | after p' q' ↦ ground (arith, o.lt_trans j i k)
      | equal e p' q' ↦ ground (arith, ap (λ x. o.lt x k) e)
    ])
    | after p q ↦
        rw (p, q)
          (elim (standing o k j) [
            | before p' q' ↦ ground arith
            | after p' q' ↦ ground (arith, o.lt_trans j k i, lt_asymm o j i)
            | equal e p' q' ↦ ground arith
          ])
    | equal e p q ↦ ground (arith, ap (λ x. o.lt x j) e, ap (λ x. o.lt j x) e)
  ]

  pub find-erase :
      (k j : K) (m : SortedMap K V)
      → IsSorted m
      → find o j (erase o k m) ≡ (if same o k j then none else find o j m)
  unfolding find erase
  find-erase k j [] s = ground arith
  find-erase k j ((i, w) ∷ m) (f, s) = elim (standing o i k) [
    | before p q ↦ rw p (elim (standing o i j) [
      | before p' q' ↦ rw p' (find-erase k j m s)
      | after p' q' ↦ ground (arith, o.lt_trans j i k)
      | equal e p' q' ↦ ground (arith, ap (λ x. o.lt x k) e)
    ])
    | after p q ↦
        rw (p, q)
          (elim (standing o k j) [
            | before p' q' ↦ ground arith
            | after p' q' ↦ ground arith
            | equal e p' q' ↦ ground (arith, ap (λ x. o.lt x i) e, ap (λ x. o.lt i x) e)
          ])
    | equal e p q ↦
        rw (p, q)
          (elim (standing o i j) [
            | before p' q' ↦ ground (arith, ap (λ x. o.lt x j) e, ap (λ x. o.lt j x) e)
            | after p' q' ↦ ground (
              arith,
              ap (λ x. o.lt x j) e,
              ap (λ x. o.lt j x) e,
              find-FirstAfter j m (FirstAfter-trans j i m q' f),
            )
            | equal e' p' q' ↦ ground (
              arith,
              ap (λ x. o.lt x j) e,
              ap (λ x. o.lt j x) e,
              find-FirstAfter j m (subst (λ x. FirstAfter x m) e' f),
            )
          ])
  ]

  pub take-IsSorted : (n : ℕ) (m : SortedMap K V) → IsSorted m → IsSorted (take n m)
  take-IsSorted zero m s = tt
  take-IsSorted (suc n) [] s = tt
  take-IsSorted (suc zero) ((k, v) ∷ m) (f, s) = (tt, tt)
  take-IsSorted (suc (suc n)) ((k, v) ∷ []) (f, s) = (tt, tt)
  take-IsSorted (suc (suc n)) ((k, v) ∷ (j, w) ∷ m) (f, s) =
      (f, take-IsSorted (suc n) ((j, w) ∷ m) s)
