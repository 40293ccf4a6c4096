-- ===== src/SortedMap.antt =====
-- `std::map` and `std::flat_map`: key-value lists in the order of a comparator.
-- Every ordered container of the repository is one: the sides of an `l2::Book`, the routes of a
-- `venue::L2Parser`, the subscriptions of a `venue::L2Manager` and the streams of an `Outbox`.
pub mod Orders
pub mod Laws
pub mod Entries
pub mod Texts
use strategy_nodes.Common.{
  ◌≡◌, Bool, true, false, not, ◌&&◌, Option, none, some, List, [], ◌∷◌, if◌then◌else◌, is_some,
}

-- A comparator is a strict total order.
pub record Comparator {ℓ} (K : Type ℓ) : Type ℓ where
  pub lt : K → K → Bool
  pub lt_irrefl : (a : K) → lt a a ≡ false
  pub lt_trans : (a b c : K) → lt a b ≡ true → lt b c ≡ true → lt a c ≡ true
  pub lt_connex : (a b : K) → lt a b ≡ false → lt b a ≡ false → a ≡ b

abbrev pub SortedMap {ℓ κ} : Type ℓ → Type κ → Type (ℓ ⊔ κ)
SortedMap K V = List (K × V)

-- Neither key comes before the other.
abbrev pub same {ℓ} : {K : Type ℓ} → Comparator K → K → K → Bool
same o j k = not (o.lt j k) && not (o.lt k j)

module _ {ℓ κ} {K : Type ℓ} {V : Type κ} (o : Comparator K) where
  -- `find`: the first key that is not before `k`, if it is `k`.
  unfoldable pub find : K → SortedMap K V → Option V
  find k [] = none
  find k ((j, v) ∷ m) =
      let rest = find k m in if o.lt j k then rest else if o.lt k j then none else some v

  unfoldable pub contains : K → SortedMap K V → Bool
  unfolding find
  contains k m = is_some (find k m)

  unfoldable pub insert_or_assign : K → V → SortedMap K V → SortedMap K V
  insert_or_assign k v [] = (k, v) ∷ []
  insert_or_assign k v ((j, w) ∷ m) =
      let rest = insert_or_assign k v m in
      if o.lt j k then (j, w) ∷ rest else if o.lt k j then (k, v) ∷ (j, w) ∷ m else (j, v) ∷ m

  unfoldable pub erase : K → SortedMap K V → SortedMap K V
  erase k [] = []
  erase k ((j, w) ∷ m) =
      let rest = erase k m in if o.lt j k then (j, w) ∷ rest else if o.lt k j then (j, w) ∷ m else m

  -- `try_emplace` and `emplace`: none where the key is taken.
  unfoldable pub try_emplace : K → V → SortedMap K V → Option (SortedMap K V)
  unfolding find insert_or_assign contains
  try_emplace k v m = if contains k m then none else some (insert_or_assign k v m)
