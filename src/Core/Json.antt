-- ===== src/Core/Json.antt =====
-- data_feed/core/json.h and json.cc: lookups into a rapidjson tree.
-- rapidjson is another project's library: a tree is read as the data that its interface shows, and
-- parsing a text into one is a parameter of the code that parses.
use strategy_nodes.Common.{
  ℕ, Bool, true, false, Option, none, some, List, [], ◌∷◌, Text, text_eq, Result, ok, err,
  if◌then◌else◌,
}

mutual
  -- A number that is not kept as a string is its text.
  pub data Json : Type 0 where
    null : Json
    boolean : Bool → Json
    number : Text → Json
    string : Text → Json
    array : Elements → Json
    object : Members → Json

  pub data Elements : Type 0 where
    no_elements : Elements
    element : Json → Elements → Elements

  pub data Members : Type 0 where
    no_members : Members
    member : Text → Json → Members → Members

-- What a `std::runtime_error` of a frame's layout reports.
pub data FrameError : Type 0 where
  malformed_field : Text → FrameError
  negative : Text → FrameError
  finer_than_precision : Text → FrameError
  unknown_event : Text → FrameError
  unknown_side : Text → FrameError
  skipped : ℕ → ℕ → FrameError
  no_object : FrameError

-- `std::expected::and_then`, or the statements after one that may throw.
unfoldable pub and_then : {E A B : Type 0} → Result E A → (A → Result E B) → Result E B
and_then (ok a) f = f a
and_then (err e) f = err e

-- What holds of a value, if there is one.
abbrev pub Holds : {E A : Type 0} → (A → Type 0) → Result E A → Type 0
Holds P (ok a) = P a
Holds P (err e) = Unit

pub and_then-Holds :
    {E A B : Type 0} (P : B → Type 0) (r : Result E A) (f : A → Result E B)
    → ((a : A) → Holds P (f a))
    → Holds P (and_then r f)
unfolding and_then
and_then-Holds P (ok a) f h = h a
and_then-Holds P (err e) f h = tt

unfoldable pub elements : Elements → List Json
elements no_elements = []
elements (element j js) = j ∷ elements js

unfoldable pub is_string : Json → Bool
is_string (string s) = true
is_string j = false

unfoldable pub is_array : Json → Bool
is_array (array js) = true
is_array j = false

unfoldable pub is_object : Json → Bool
is_object (object ms) = true
is_object j = false

-- `FindMember`: the first member of that name.
unfoldable pub find_member : Members → Text → Option Json
find_member no_members name = none
find_member (member key j ms) name =
    let rest = find_member ms name in if text_eq key name then some j else rest

unfoldable pub find_json_member : Json → Text → Option Json
find_json_member (object ms) name = find_member ms name
find_json_member j name = none

unfoldable pub require_json_member : Json → Text → (Json → Bool) → Result FrameError Json
require_json_member j name is_kind = elim (find_json_member j name) [
  | none ↦ err (malformed_field name)
  | some v ↦ if is_kind v then ok v else err (malformed_field name)
]

-- `GetString` and `GetArray`, of a value of that kind.
unfoldable pub get_string : Json → Text
get_string (string s) = s
get_string j = []

unfoldable pub get_array : Json → List Json
get_array (array js) = elements js
get_array j = []

unfoldable pub require_json_string : Json → Text → Result FrameError Text
require_json_string j name =
    and_then (require_json_member j name is_string) (λ v. ok (get_string v))

unfoldable pub require_json_array : Json → Text → Result FrameError (List Json)
require_json_array j name = and_then (require_json_member j name is_array) (λ v. ok (get_array v))

-- Absent, a string, or of another kind, which throws.
unfoldable pub string_or_throw : Text → Json → Result FrameError (Option Text)
string_or_throw name v =
    if is_string v then ok (some (get_string v)) else err (malformed_field name)

unfoldable pub find_json_string : Json → Text → Result FrameError (Option Text)
find_json_string j name = elim (find_json_member j name) [
  | none ↦ ok none
  | some v ↦ string_or_throw name v
]
