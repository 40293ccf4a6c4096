-- ===== src/Venue/Decoder.antt =====
-- data_feed/venue/l2_decoder.h: what a venue's decoder hands its book changes to, as an interface,
-- and a call that an exception may end early.
use strategy_nodes.Common.{ℤ, Option, List, [], ◌∷◌, Text}
use strategy_nodes.L2.Message.{MessageType, Message, PairPrecision}
use strategy_nodes.Core.Json.{Json, FrameError}

-- `Find` and `Emit`, over the state `O` behind them.
pub record Output (O : Type 0) : Type 0 where
  pub find : O → Text → MessageType → Option PairPrecision
  pub emit : O → Message → O

-- The frame is its text, here as the tree that rapidjson parses it to, if it parses, with numbers
-- kept as strings.
pub record RawFrame : Type 0 where
  pub json : Option Json
  pub capture_time_ns : ℤ

-- The state after a call that returned, or that threw: what it did before that stays done.
pub data Run (S : Type 0) : Type 0 where
  returned : S → Run S
  threw : FrameError → S → Run S

-- A loop that an exception ends.
unfoldable pub for_each : {S A : Type 0} → (S → A → Run S) → S → List A → Run S
for_each step s [] = returned s
for_each step s (a ∷ rest) = elim (step s a) [
  | returned t ↦ for_each step t rest
  | threw e t ↦ threw e t
]

-- What holds of the state after a call, however it ended.
abbrev pub Ends : {S : Type 0} → (S → Type 0) → Run S → Type 0
Ends P (returned s) = P s
Ends P (threw e s) = P s

-- What holds of the state that a call returned with.
abbrev pub Returns : {S : Type 0} → (S → Type 0) → Run S → Type 0
Returns P (returned s) = P s
Returns P (threw e s) = Unit

module _ {S A : Type 0} (P : S → Type 0) (step : S → A → Run S) where
  pub for_each-Ends :
      ((s : S) (a : A) → P s → Ends P (step s a))
      → (s : S) (rest : List A) → P s
      → Ends P (for_each step s rest)
  unfolding for_each
  for_each-Ends kept s [] h = h
  for_each-Ends kept s (a ∷ rest) h =
      after (step s a) (kept s a h) (λ t ht. for_each-Ends kept t rest ht)
    where
      after :
          (r : Run S)
          → Ends P r
          → ((t : S) → P t → Ends P (for_each step t rest))
          → Ends P (elim r [ returned t ↦ for_each step t rest | threw e t ↦ threw e t ])
      after (returned t) ht later = later t ht
      after (threw e t) ht later = ht

-- `L2Decoder`: a call of `Decode` in the decoder's own state `S`, and that it changes its output by
-- `Emit` alone, on every frame and however the call ends.
pub record L2Decoder (S O : Type 0) (out : Output O) : Type 1 where
  pub decode : S → O → RawFrame → Run (S × O)
  pub decode-Ends :
      (P : O → Type 0)
      → ((o : O) (m : Message) → P o → P (out.emit o m))
      → (s : S) (o : O) (frame : RawFrame) → P o
      → Ends (λ t. P (t.1)) (decode s o frame)
