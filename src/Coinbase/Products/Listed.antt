-- ===== src/Coinbase/Products/Listed.antt =====
-- data_feed/coinbase/products.cc: the list of tradable products, by the ids that are in it and by
-- its order.
use strategy_nodes.Common.{
  ◌≡◌, refl, subst, ◌⊎◌, ◌↔◌, inl, inr, Bool, true, false, Option, none, some, List, [], ◌∷◌, Text,
  Bool-cases, Result, ok, err, if◌then◌else◌, codes,
}
use strategy_nodes.SortedMap.Orders.{text_lt, text_lt_irrefl, text_lt_trans}
use strategy_nodes.Core.Json.{
  Json, FrameError, and_then, is_object, require_json_string, require_json_array, Holds,
}
use strategy_nodes.Coinbase.Products.{
  Why, from_layout, parse_object, why_unstreamable, id_unless, listed_id, prepend, listed_ids,
  insert, sort, sorted_ids, parse_tradable_products, no_json_object,
}

module _ {A : Type 0} (P : A → Type 0) where
  abbrev pub Any : List A → Type 0
  Any [] = ⊥
  Any (x ∷ xs) = P x ⊎ Any xs

-- In order, as `std::less` has it.
abbrev pub IsAscending : List Text → Type 0
IsAscending [] = Unit
IsAscending (t ∷ []) = Unit
IsAscending (t ∷ u ∷ us) = text_lt u t ≡ false × IsAscending (u ∷ us)

not_both : (t u : Text) → text_lt t u ≡ true → text_lt u t ≡ false
not_both t u h = elim (Bool-cases (text_lt u t)) [
  | inl y ↦ absurd (impossible (text_lt_trans t u t h y) (text_lt_irrefl t))
  | inr n ↦ n
]
  where
    impossible : text_lt t t ≡ true → text_lt t t ≡ false → ⊥
    impossible p q = cc

insert-IsAscending : (t : Text) (us : List Text) → IsAscending us → IsAscending (insert t us)
unfolding insert
insert-IsAscending t [] h = tt
insert-IsAscending t (u ∷ []) h = elim (Bool-cases (text_lt u t)) [
  | inl y ↦ rw (y) (not_both u t y, tt)
  | inr n ↦ rw (n) (n, tt)
]
insert-IsAscending t (u ∷ v ∷ vs) (huv, h) =
    under (text_lt u t) refl (text_lt v t) (insert-IsAscending t (v ∷ vs) h)
  where
    under :
        (b : Bool)
        → text_lt u t ≡ b
        → (c : Bool) → IsAscending (if c then v ∷ insert t vs else t ∷ v ∷ vs)
        → IsAscending
            (if b then u ∷ (if c then v ∷ insert t vs else t ∷ v ∷ vs) else t ∷ u ∷ v ∷ vs)
    under true y true rest = (huv, rest)
    under true y false rest = (not_both u t y, rest)
    under false n c rest = (n, (huv, h))

sort-IsAscending : (ts : List Text) → IsAscending (sort ts)
unfolding sort
sort-IsAscending [] = tt
sort-IsAscending (t ∷ ts) = insert-IsAscending t (sort ts) (sort-IsAscending ts)

module _ (P : Text → Type 0) where
  into-insert : (t : Text) (us : List Text) → P t ⊎ Any P us → Any P (insert t us)
  unfolding insert
  into-insert t [] h = h
  into-insert t (u ∷ us) h = under (text_lt u t) h (into-insert t us)
    where
      under :
          (b : Bool)
          → P t ⊎ Any P (u ∷ us)
          → (P t ⊎ Any P us → Any P (insert t us))
          → Any P (if b then u ∷ insert t us else t ∷ u ∷ us)
      under false k rest = k
      under true (inl p) rest = inr (rest (inl p))
      under true (inr (inl q)) rest = inl q
      under true (inr (inr a)) rest = inr (rest (inr a))

  from-insert : (t : Text) (us : List Text) → Any P (insert t us) → P t ⊎ Any P us
  unfolding insert
  from-insert t [] h = h
  from-insert t (u ∷ us) h = under (text_lt u t) h (from-insert t us)
    where
      past : P t ⊎ Any P us → P t ⊎ Any P (u ∷ us)
      past (inl p) = inl p
      past (inr a) = inr (inr a)

      under :
          (b : Bool)
          → Any P (if b then u ∷ insert t us else t ∷ u ∷ us)
          → (Any P (insert t us) → P t ⊎ Any P us)
          → P t ⊎ Any P (u ∷ us)
      under false k rest = k
      under true (inl q) rest = inr (inl q)
      under true (inr a) rest = past (rest a)

  into-sort : (ts : List Text) → Any P ts → Any P (sort ts)
  unfolding sort
  into-sort [] h = h
  into-sort (t ∷ ts) (inl p) = into-insert t (sort ts) (inl p)
  into-sort (t ∷ ts) (inr a) = into-insert t (sort ts) (inr (into-sort ts a))

  from-sort : (ts : List Text) → Any P (sort ts) → Any P ts
  unfolding sort
  from-sort [] h = h
  from-sort (t ∷ ts) h = elim (from-insert t (sort ts) h) [
    | inl p ↦ inl p
    | inr a ↦ inr (from-sort ts a)
  ]

-- `product` can be streamed, under the id `id`.
abbrev pub Streams : Json → Text → Type 0
Streams product id =
    (why_unstreamable product ≡ ok none)
    × (require_json_string product (codes "product_id") ≡ ok id)

abbrev Gives : Json → Option Text → Type 0
Gives product none = (id : Text) → Streams product id → ⊥
Gives product (some id) = Streams product id

listed_id-Gives : (product : Json) → Holds (Gives product) (listed_id product)
unfolding listed_id and_then id_unless
listed_id-Gives product = at (why_unstreamable product) refl
  where
    at_id :
        why_unstreamable product ≡ ok none
        → (r : Result FrameError Text) → require_json_string product (codes "product_id") ≡ r
        → Holds (Gives product) (and_then r (λ id. ok (some id)))
    at_id e (ok id) h = (e, h)
    at_id e (err x) h = tt

    at :
        (w : Result FrameError (Option Why))
        → why_unstreamable product ≡ w
        → Holds (Gives product) (and_then w (id_unless product))
    at (err x) e = tt
    at (ok (some why)) e = λ id (s, r). cc
    at (ok none) e = at_id e (require_json_string product (codes "product_id")) refl

abbrev Lists : List Json → List Text → Type 0
Lists products ids =
    (id : Text) → Any (λ t. t ≡ id) ids ↔ Any (λ product. Streams product id) products

same_id : (product : Json) (i id : Text) → Streams product i → Streams product id → i ≡ id
same_id product i id (e, h) (f, k) = cc

listed_ids-Lists : (products : List Json) → Holds (Lists products) (listed_ids products)
unfolding listed_ids and_then prepend
listed_ids-Lists [] = λ id. (λ a. a, λ a. a)
listed_ids-Lists (product ∷ products) =
    join (listed_id product) (listed_id-Gives product) (listed_ids products)
      (listed_ids-Lists products)
  where
    join :
        (r : Result FrameError (Option Text))
        → Holds (Gives product) r
        → (rs : Result FrameError (List Text)) → Holds (Lists products) rs
        → Holds
            (Lists (product ∷ products))
            (and_then r (λ id. and_then rs (λ ids. ok (prepend id ids))))
    join (err x) g rs k = tt
    join (ok none) g (err x) k = tt
    join (ok (some i)) g (err x) k = tt
    join (ok none) g (ok ids) k =
        λ id. (λ a. inr ((k id).0 a), λ x. elim x [ inl s ↦ absurd (g id s) | inr a ↦ (k id).1 a ])
    join (ok (some i)) g (ok ids) k = λ id. (
      λ x. elim x [ inl e ↦ inl (subst (λ t. Streams product t) e g) | inr a ↦ inr ((k id).0 a) ],
      λ x. elim x [ inl s ↦ inl (same_id product i id g s) | inr a ↦ inr ((k id).1 a) ],
    )

abbrev Sorted : List Json → List Text → Type 0
Sorted products ids = IsAscending ids × Lists products ids

sort-Sorted :
    (products : List Json) (rs : Result FrameError (List Text))
    → Holds (Lists products) rs
    → Holds (Sorted products) (from_layout (and_then rs (λ ids. ok (sort ids))))
unfolding from_layout and_then
sort-Sorted products (err x) k = tt
sort-Sorted products (ok ids) k = (
  sort-IsAscending ids,
  λ id. (
    λ a. (k id).0 (from-sort (λ t. t ≡ id) ids a),
    λ a. into-sort (λ t. t ≡ id) ids ((k id).1 a),
  ),
)

parse_tradable_products-Sorted :
    (document : Json) (products : List Json)
    → require_json_array document (codes "products") ≡ ok products
    → Holds (Sorted products) (parse_tradable_products (some document))
unfolding parse_tradable_products parse_object sorted_ids and_then
parse_tradable_products-Sorted document products e = at (is_object document)
  where
    listed : Holds (Sorted products) (from_layout (sorted_ids document))
    listed = rw (e) (sort-Sorted products (listed_ids products) (listed_ids-Lists products))

    at :
        (b : Bool)
        → Holds (Sorted products) (
            and_then
              (if b then ok document else err no_json_object)
              (λ d. from_layout (sorted_ids d)))
    at true = listed
    at false = tt

-- Whatever the answer's array of products is: when `ParseTradableProducts` returns a list, the list
-- is in order, and an id is in it exactly when it is the id of a product of the array that
-- `WhyUnstreamable` has nothing against.
pub tradable_listed :
    (document : Json) (products : List Json) (ids : List Text)
    → require_json_array document (codes "products") ≡ ok products
    → parse_tradable_products (some document) ≡ ok ids
    → IsAscending ids
      × ((id : Text) → Any (λ t. t ≡ id) ids ↔ Any (λ product. Streams product id) products)
tradable_listed document products ids e r =
    subst (Holds (Sorted products)) r (parse_tradable_products-Sorted document products e)
