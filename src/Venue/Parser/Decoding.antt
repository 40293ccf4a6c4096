-- ===== src/Venue/Parser/Decoding.antt =====
-- data_feed/venue/l2_parser.cc: `Dispatch`, and the parser as the output of a venue's decoder,
-- frame after frame. What a frame's book changes do to the receivers keeps to the phases, whatever
-- the venue sends.
use strategy_nodes.Common.{◌≡◌, ℤ, ◌-ℤ◌, some, List, [], ◌∷◌, ◌++◌, Text}
use strategy_nodes.L2.Message.{Message}
use strategy_nodes.Venue.Decoder.{RawFrame, Run, returned, threw, L2Decoder}
use strategy_nodes.Venue.Decoder
use strategy_nodes.Venue.Parser.{Parser, Output, find_precision, emit}
use strategy_nodes.Venue.Parser.Phases.{phase_of, outputs, follow}
use strategy_nodes.Venue.Parser.Laws.{IsParser}
use strategy_nodes.Coinbase.Decoder as Coinbase
use strategy_nodes.Coinbase.Decoder.Emits as CoinbaseEmits
use strategy_nodes.Kraken.Decoder as Kraken
use strategy_nodes.Kraken.Decoder.Emits as KrakenEmits

unfoldable pub emit_through : Parser × List Output → Message → Parser × List Output
emit_through (p, sent) m = let (p', os) = emit p m in (p', sent ++ os)

-- The parser with all that it has put out.
abbrev pub parser_output : Decoder.Output (Parser × List Output)
parser_output = record {
  find = λ s symbol type. find_precision (s.0) symbol type;
  emit = emit_through;
}

abbrev pub coinbase_decoder :
    (ℤ → ℤ → ℤ → ℤ) → L2Decoder Coinbase.Decoder (Parser × List Output) parser_output
coinbase_decoder unspecified_days = record {
  decode = Coinbase.decode parser_output unspecified_days;
  decode-Ends = CoinbaseEmits.decode-Keeps parser_output unspecified_days;
}

abbrev pub kraken_decoder :
    (ℤ → ℤ → ℤ → ℤ) → L2Decoder (Unit {0}) (Parser × List Output) parser_output
kraken_decoder unspecified_days = record {
  decode =
      λ s o frame. KrakenEmits.stateless (Kraken.decode parser_output unspecified_days o frame);
  decode-Ends = λ P kept s o frame h.
      KrakenEmits.stateless-Ends P (Kraken.decode parser_output unspecified_days o frame)
        (KrakenEmits.decode-Ends parser_output unspecified_days P kept o frame h);
}

-- The interval that `Dispatch` records at its end, which an exception skips.
unfoldable pub record_interval : {S O : Type 0} → List ℤ → ℤ → Run (S × O) → Run (S × (O × List ℤ))
record_interval intervals nanos (returned (s, o)) = returned (s, (o, intervals ++ nanos ∷ []))
record_interval intervals nanos (threw e (s, o)) = threw e (s, (o, intervals))

-- When a frame is taken up, and when it is decoded.
pub record Taken : Type 0 where
  pub frame : RawFrame
  pub start_ns : ℤ
  pub end_ns : ℤ

module _ {S : Type 0} (decoder : L2Decoder S (Parser × List Output) parser_output) where
  -- The decoder, the parser with all that it has put out, and the intervals recorded.
  abbrev pub State : Type 0
  State = S × ((Parser × List Output) × List ℤ)

  -- One frame on the parser thread: an exception leaves it.
  unfoldable pub dispatch : State → Taken → Run State
  dispatch (s, ((p, sent), intervals)) taken =
      record_interval intervals (taken.end_ns -ℤ taken.start_ns)
        (decoder.decode s (record p { parse_start_ns = taken.start_ns }, sent) taken.frame)

  -- What the parser has put out since it was `p` is legal for the pair, and leads to its phase.
  abbrev pub IsLegal : Text → Parser → Parser × List Output → Type 0
  IsLegal symbol p (q, sent) =
      IsParser q × follow symbol (phase_of symbol p) (outputs sent) ≡ some (phase_of symbol q)
