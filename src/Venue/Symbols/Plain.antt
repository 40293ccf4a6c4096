-- ===== src/Venue/Symbols/Plain.antt =====
-- data_feed/venue/adapter.cc: a well-formed symbol stands in a request's JSON string as it is.
use strategy_nodes.Common.{
  ℕ, ◌<◌, ◌≡◌, refl, subst, Bool, true, false, Option, none, some, [], ◌∷◌, ◌++◌, Text, leb, all_of,
  ◌==◌, ==→eq, All, arith, if◌then◌else◌, Bool-cases, inl, inr, ok, err, is_ok,
}
use strategy_nodes.Venue.Symbols.{
  is_upper, is_lower, is_alnum, contains, is_symbol_character, is_well_formed_symbol,
}

-- A check that passes only where its test holds.
pub test_of_ok :
    {E : Type 0} (e : E) (b : Bool) → is_ok (if b then ok (tt {0}) else err e) ≡ true → b ≡ true
test_of_ok e true h = refl
test_of_ok e false h = absurd cc

-- A character that a JSON string holds as it is: no quote, no backslash, no control character.
abbrev pub IsPlain : ℕ → Type 0
IsPlain c = (31 < c) × ((c == b'"') ≡ false × (c == b'\\') ≡ false)

alnum-IsPlain : (c : ℕ) → is_alnum c ≡ true → IsPlain c
unfolding is_alnum is_upper is_lower
alnum-IsPlain c h = (ground arith, (ground arith, ground arith))

contained-IsPlain : (text : Text) (c : ℕ) → All IsPlain text → contains text c ≡ true → IsPlain c
unfolding contains
contained-IsPlain [] c h e = absurd cc
contained-IsPlain (d ∷ ds) c (hd, h) e = elim (Bool-cases (d == c)) [
  | inl y ↦ subst IsPlain (==→eq d c y) hd
  | inr n ↦ contained-IsPlain ds c h (ground arith)
]

character-IsPlain :
    (punctuation : Text) (c : ℕ)
    → All IsPlain punctuation
    → is_symbol_character punctuation c ≡ true
    → IsPlain c
unfolding is_symbol_character
character-IsPlain punctuation c h e = elim (Bool-cases (is_alnum c)) [
  | inl a ↦ alnum-IsPlain c a
  | inr n ↦ contained-IsPlain punctuation c h (ground arith)
]

symbol-IsPlain :
    (punctuation symbol : Text)
    → All IsPlain punctuation
    → all_of (is_symbol_character punctuation) symbol ≡ true
    → All IsPlain symbol
symbol-IsPlain punctuation [] h e = tt
symbol-IsPlain punctuation (c ∷ cs) h e = elim (Bool-cases (is_symbol_character punctuation c)) [
  | inl y ↦ (character-IsPlain punctuation c h y, symbol-IsPlain punctuation cs h (ground arith))
  | inr n ↦ absurd (ground arith)
]

pub well_formed-IsPlain :
    (punctuation symbol : Text)
    → All IsPlain punctuation
    → is_well_formed_symbol symbol punctuation ≡ true
    → All IsPlain symbol
unfolding is_well_formed_symbol
well_formed-IsPlain punctuation symbol h e = symbol-IsPlain punctuation symbol h (ground arith)

-- A JSON string without escapes, after its opening quote: its text, and what follows it.
abbrev pub scan_string : Text → Option (Text × Text)
scan_string [] = none
scan_string (c ∷ cs) =
    let rest = scan_string cs in
    if c == b'"'
    then some ([], cs)
    else if c == b'\\'
    then none
    else if leb c 31
    then none
    else elim rest [ none ↦ none | some p ↦ some (c ∷ p.0, p.1) ]

not_control : (c : ℕ) → 31 < c → leb c 31 ≡ false
not_control c h = ground arith

pub scan_string-plain :
    (symbol rest : Text)
    → All IsPlain symbol
    → scan_string (symbol ++ b'"' ∷ rest) ≡ some (symbol, rest)
scan_string-plain [] rest h = refl
scan_string-plain (c ∷ cs) rest ((big, (quote, backslash)), h) =
    rw (scan_string-plain cs rest h, quote, backslash, not_control c big) refl
