-- ===== src/Venue/Manager/Finding.antt =====
-- The subscriptions by symbol: a venue streams a pair to one subscription, so the first one found
-- is the only one.
use strategy_nodes.Common.{
  ℕ, ◌≡◌, refl, sym, subst, ◌∙◌, Bool, true, false, inl, inr, Option, none, some, List, [], ◌∷◌,
  Text, text_eq, text_eq→eq, text_eq_self, if◌then◌else◌, Bool-cases, arith,
}
use strategy_nodes.SortedMap.{find, insert_or_assign, erase}
use strategy_nodes.SortedMap.Orders.{ℕ_less}
use strategy_nodes.Venue.Manager.{Subscription, find_symbol}

-- The receiver of the subscription to a symbol.
abbrev pub receiver_of : Option (ℕ × Subscription) → Option ℕ
receiver_of none = none
receiver_of (some (id, s)) = some s.receiver

-- No symbol has two subscriptions.
abbrev pub HasOneEach : List (ℕ × Subscription) → Type 0
HasOneEach [] = Unit {0}
HasOneEach ((id, s) ∷ m) = (find_symbol s.book.symbol m ≡ none) × HasOneEach m

find_symbol_head :
    (symbol : Text) (id : ℕ) (s : Subscription) (m : List (ℕ × Subscription))
    → find_symbol symbol ((id, s) ∷ m) ≡ none
    → (text_eq s.book.symbol symbol ≡ false) × (find_symbol symbol m ≡ none)
unfolding find_symbol
find_symbol_head symbol id s m h = (ground arith, ground arith)

-- Two texts that differ are not both the symbol.
differ :
    (a b symbol : Text)
    → text_eq a b ≡ false
    → text_eq a symbol ≡ true
    → text_eq b symbol ≡ true
    → false ≡ true
differ a b symbol n x y =
    let first = text_eq→eq a symbol x in
    let second = text_eq→eq b symbol y in let self = text_eq_self symbol in cc

swap_ifs :
    {A : Type 0} (a b : Bool) (x y z : A)
    → (a ≡ true → b ≡ true → false ≡ true)
    → (if a then x else if b then y else z) ≡ (if b then y else if a then x else z)
swap_ifs true true x y z h = let clash = h refl refl in cc
swap_ifs true false x y z h = refl
swap_ifs false b x y z h = refl

pub find_symbol-insert :
    (symbol : Text) (id : ℕ) (s : Subscription) (m : List (ℕ × Subscription))
    → find ℕ_less id m ≡ none
    → find_symbol s.book.symbol m ≡ none
    → find_symbol symbol (insert_or_assign ℕ_less id s m)
      ≡ (if text_eq s.book.symbol symbol then some (id, s) else find_symbol symbol m)
unfolding find_symbol insert_or_assign find
find_symbol-insert symbol id s [] f h = refl
find_symbol-insert symbol id s ((j, w) ∷ m) f h = elim (Bool-cases (ℕ_less.lt j id)) [
  | inl p ↦
      let (apart, free) = find_symbol_head s.book.symbol j w m h in
      rw (p, find_symbol-insert symbol id s m (ground arith) free)
        (swap_ifs (text_eq w.book.symbol symbol) (text_eq s.book.symbol symbol) (some (j, w))
          (some (id, s)) (find_symbol symbol m) (differ w.book.symbol s.book.symbol symbol apart))
  | inr p ↦ elim (Bool-cases (ℕ_less.lt id j)) [ inl q ↦ rw (p, q) refl | inr q ↦ ground arith ]
]

pub HasOneEach-insert :
    (id : ℕ) (s : Subscription) (m : List (ℕ × Subscription))
    → find ℕ_less id m ≡ none
    → find_symbol s.book.symbol m ≡ none
    → HasOneEach m
    → HasOneEach (insert_or_assign ℕ_less id s m)
unfolding insert_or_assign find find_symbol
HasOneEach-insert id s [] f h o = (refl, tt)
HasOneEach-insert id s ((j, w) ∷ m) f h (free, o) = elim (Bool-cases (ℕ_less.lt j id)) [
  | inl p ↦
      let (apart, absent) = find_symbol_head s.book.symbol j w m h in
      rw p (
        find_symbol-insert w.book.symbol id s m (ground arith) absent
            ∙ free_after (text_eq s.book.symbol w.book.symbol) (some (id, s))
                (other s.book.symbol w.book.symbol apart) free,
        HasOneEach-insert id s m (ground arith) absent o,
      )
  | inr p ↦ elim (Bool-cases (ℕ_less.lt id j)) [
    | inl q ↦ rw (p, q) (h, (free, o))
    | inr q ↦ ground arith
  ]
]
  where
    other : (a b : Text) → text_eq b a ≡ false → text_eq a b ≡ false
    other a b n = elim (Bool-cases (text_eq a b)) [
      | inl y ↦ let same_text = text_eq→eq a b y in let self = text_eq_self a in cc
      | inr m ↦ m
    ]

    free_after :
        (b : Bool) (x : Option (ℕ × Subscription)) {y : Option (ℕ × Subscription)}
        → b ≡ false
        → y ≡ none
        → (if b then x else y) ≡ none
    free_after true x n e = cc
    free_after false x n e = e

-- A subscription under an id is found by its symbol.
found_by_symbol :
    (id : ℕ) (s : Subscription) (m : List (ℕ × Subscription))
    → find ℕ_less id m ≡ some s
    → find_symbol s.book.symbol m ≡ none
    → false ≡ true
unfolding find find_symbol
found_by_symbol id s [] f h = cc
found_by_symbol id s ((j, w) ∷ m) f h =
    let self = text_eq_self s.book.symbol in ground (arith, found_by_symbol id s m)

ifs_none :
    {A : Type 0} (a b : Bool) (x z : Option A)
    → (a ≡ true → b ≡ true → false ≡ true)
    → (if a then x else if b then none else z) ≡ (if b then none else if a then x else z)
ifs_none a b x z h = swap_ifs a b x none z h

same_if :
    {A : Type 0} (a : Bool) (x z : Option A)
    → (a ≡ true → z ≡ none)
    → z ≡ (if a then none else if a then x else z)
same_if true x z h = h refl
same_if false x z h = refl

pub find_symbol-erase :
    (symbol : Text) (id : ℕ) (s : Subscription) (m : List (ℕ × Subscription))
    → find ℕ_less id m ≡ some s
    → HasOneEach m
    → find_symbol symbol (erase ℕ_less id m)
      ≡ (if text_eq s.book.symbol symbol then none else find_symbol symbol m)
unfolding find_symbol erase find
find_symbol-erase symbol id s [] f o = cc
find_symbol-erase symbol id s ((j, w) ∷ m) f (free, o) = elim (Bool-cases (ℕ_less.lt j id)) [
  | inl p ↦
      let found : find ℕ_less id m ≡ some s = ground arith in
      rw (p, find_symbol-erase symbol id s m found o)
        (ifs_none (text_eq w.book.symbol symbol) (text_eq s.book.symbol symbol) (some (j, w))
          (find_symbol symbol m)
          (λ x y. found_by_symbol id s m found (
            subst (λ t. find_symbol t m ≡ none)
              (text_eq→eq w.book.symbol symbol x ∙ sym (text_eq→eq s.book.symbol symbol y)) free)))
  | inr p ↦ elim (Bool-cases (ℕ_less.lt id j)) [
    | inl q ↦ ground arith
    | inr q ↦
        let here : w ≡ s = some_injective w s (ground arith) in
        rw (p, q)
          (subst
            (λ v. find_symbol symbol m ≡ (
              if text_eq v.book.symbol symbol
              then none
              else if text_eq w.book.symbol symbol
              then some (j, w)
              else find_symbol symbol m))
            here
            (same_if (text_eq w.book.symbol symbol) (some (j, w)) (find_symbol symbol m)
              (λ y. subst (λ t. find_symbol t m ≡ none) (text_eq→eq w.book.symbol symbol y) free)))
  ]
]
  where
    some_injective : (a b : Subscription) → some a ≡ some b → a ≡ b
    some_injective a b h = cc

pub HasOneEach-erase :
    (id : ℕ) (s : Subscription) (m : List (ℕ × Subscription))
    → find ℕ_less id m ≡ some s
    → HasOneEach m
    → HasOneEach (erase ℕ_less id m)
unfolding erase find
HasOneEach-erase id s [] f o = tt
HasOneEach-erase id s ((j, w) ∷ m) f (free, o) = elim (Bool-cases (ℕ_less.lt j id)) [
  | inl p ↦
      let found : find ℕ_less id m ≡ some s = ground arith in
      rw p (
        find_symbol-erase w.book.symbol id s m found o
            ∙ either (text_eq s.book.symbol w.book.symbol) free,
        HasOneEach-erase id s m found o,
      )
  | inr p ↦ elim (Bool-cases (ℕ_less.lt id j)) [ inl q ↦ rw (p, q) (free, o) | inr q ↦ rw (p, q) o ]
]
  where
    either : (b : Bool) {y : Option (ℕ × Subscription)} → y ≡ none → (if b then none else y) ≡ none
    either true e = refl
    either false e = e
