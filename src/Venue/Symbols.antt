-- ===== src/Venue/Symbols.antt =====
-- data_feed/venue/adapter.h and adapter.cc: which symbols may go into a request.
-- `std::isalnum` and `std::islower` are those of the "C" locale, which the program never leaves.
pub mod Plain
use strategy_nodes.Common.{
  ℕ, ◌<◌, ◌≤◌, ◌≡◌, refl, true, false, Bool, not, ◌&&◌, ◌||◌, List, [], ◌∷◌, Text, length, leb,
  all_of, any_of, ◌==◌, is_empty, All, arith, if◌then◌else◌, Bool-cases, inl, inr,
}

abbrev pub max_symbol_length : ℕ
max_symbol_length = 32

unfoldable pub is_upper : ℕ → Bool
is_upper c = leb b'A' c && leb c b'Z'

unfoldable pub is_lower : ℕ → Bool
is_lower c = leb b'a' c && leb c b'z'

unfoldable pub is_alnum : ℕ → Bool
is_alnum c = (leb b'0' c && leb c b'9') || (is_upper c || is_lower c)

-- `contains` of a character.
unfoldable pub contains : Text → ℕ → Bool
contains text c = any_of (λ d. d == c) text

unfoldable pub is_symbol_character : Text → ℕ → Bool
is_symbol_character punctuation c = is_alnum c || contains punctuation c

unfoldable pub is_well_formed_symbol : Text → Text → Bool
is_well_formed_symbol symbol punctuation =
    not (is_empty symbol)
    && (leb (length symbol) max_symbol_length && all_of (is_symbol_character punctuation) symbol)
