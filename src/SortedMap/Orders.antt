-- ===== src/SortedMap/Orders.antt =====
-- The comparators of the program's maps: `std::less` and `std::greater` on integers, and
-- `std::less` on texts, which compares them byte by byte.
use strategy_nodes.Common.{
  ℕ, ◌≡◌, refl, Bool, true, false, [], ◌∷◌, Text, ltb, ltb_ℤ, ℤ, arith, if◌then◌else◌,
}
use strategy_nodes.SortedMap.{Comparator}

pub ltb_irrefl : (a : ℕ) → ltb a a ≡ false
ltb_irrefl a = ground arith

pub ltb_trans : (a b c : ℕ) → ltb a b ≡ true → ltb b c ≡ true → ltb a c ≡ true
ltb_trans a b c p q = ground arith

pub ltb_connex : (a b : ℕ) → ltb a b ≡ false → ltb b a ≡ false → a ≡ b
ltb_connex a b p q = ground arith

-- `std::less` of unsigned keys: ids and venues.
abbrev pub ℕ_less : Comparator ℕ
ℕ_less = record { lt = ltb; lt_irrefl = ltb_irrefl; lt_trans = ltb_trans; lt_connex = ltb_connex }

pub ltb_ℤ_irrefl : (a : ℤ) → ltb_ℤ a a ≡ false
ltb_ℤ_irrefl a = ground arith

pub ltb_ℤ_trans : (a b c : ℤ) → ltb_ℤ a b ≡ true → ltb_ℤ b c ≡ true → ltb_ℤ a c ≡ true
ltb_ℤ_trans a b c p q = ground arith

pub ltb_ℤ_connex : (a b : ℤ) → ltb_ℤ a b ≡ false → ltb_ℤ b a ≡ false → a ≡ b
ltb_ℤ_connex a b p q = ground arith

-- `std::less` and `std::greater` of prices.
abbrev pub ℤ_less : Comparator ℤ
ℤ_less = record {
  lt = ltb_ℤ;
  lt_irrefl = ltb_ℤ_irrefl;
  lt_trans = ltb_ℤ_trans;
  lt_connex = ltb_ℤ_connex;
}

abbrev pub ℤ_greater : Comparator ℤ
ℤ_greater = record {
  lt = λ a b. ltb_ℤ b a;
  lt_irrefl = ltb_ℤ_irrefl;
  lt_trans = λ a b c p q. ltb_ℤ_trans c b a q p;
  lt_connex = λ a b p q. ltb_ℤ_connex a b q p;
}

-- `std::less` of two strings.
unfoldable pub text_lt : Text → Text → Bool
text_lt [] [] = false
text_lt [] (d ∷ ds) = true
text_lt (c ∷ cs) [] = false
text_lt (c ∷ cs) (d ∷ ds) =
    let rest = text_lt cs ds in if ltb c d then true else if ltb d c then false else rest

pub text_lt_irrefl : (s : Text) → text_lt s s ≡ false
unfolding text_lt
text_lt_irrefl [] = refl
text_lt_irrefl (c ∷ cs) = ground (arith, text_lt_irrefl cs)

pub text_lt_trans : (s t u : Text) → text_lt s t ≡ true → text_lt t u ≡ true → text_lt s u ≡ true
unfolding text_lt
text_lt_trans [] [] u p q = cc
text_lt_trans [] (d ∷ ds) [] p q = cc
text_lt_trans [] (d ∷ ds) (e ∷ es) p q = refl
text_lt_trans (c ∷ cs) [] u p q = cc
text_lt_trans (c ∷ cs) (d ∷ ds) [] p q = cc
text_lt_trans (c ∷ cs) (d ∷ ds) (e ∷ es) p q = ground (arith, text_lt_trans cs ds es)

pub text_lt_connex : (s t : Text) → text_lt s t ≡ false → text_lt t s ≡ false → s ≡ t
unfolding text_lt
text_lt_connex [] [] p q = refl
text_lt_connex [] (d ∷ ds) p q = cc
text_lt_connex (c ∷ cs) [] p q = cc
text_lt_connex (c ∷ cs) (d ∷ ds) p q = ground (arith, text_lt_connex cs ds)

abbrev pub text_less : Comparator Text
text_less = record {
  lt = text_lt;
  lt_irrefl = text_lt_irrefl;
  lt_trans = text_lt_trans;
  lt_connex = text_lt_connex;
}
