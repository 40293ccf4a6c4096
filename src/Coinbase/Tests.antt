-- ===== src/Coinbase/Tests.antt =====
-- data_feed/coinbase/l2_decoder.cc: the theorems on an example of two updates of one product.
use strategy_nodes.Common.{
  ◌≡◌, refl, ℤ, pos, none, some, List, [], ◌∷◌, Text, codes, text_eq, arith,
}
use strategy_nodes.L2.Message.{update, Message, PairPrecision}
use strategy_nodes.Core.Chars.{
  is_digit, span_digits, value_from, value_of, unsigned_of, from_chars_unsigned, last_before,
  find_last_not_of,
}
use strategy_nodes.Core.Json.{
  is_array, get_array, elements, require_json_array, Json, string, array, object, member,
  no_members, no_elements, skipped, find_member, find_json_member, require_json_member, is_string,
  is_object, get_string, and_then, require_json_string, find_json_string, string_or_throw,
}
use strategy_nodes.Coinbase.Levels.{bid, offer, make_message, whole_unsigned, require_unsigned}
use strategy_nodes.Coinbase.Levels.Updates.{Update}
use strategy_nodes.Coinbase.Decoder.{
  advance, decode_document, decode_head, decode_numbered, decode_advanced, decode_followed,
  decode_channel, make_decoder, channel_head, is_error, document_head, decode, decode_event,
}
use strategy_nodes.Coinbase.Decoder.Events.{event_json, sides_of, event_emitted}
use strategy_nodes.Coinbase.Decoder.Sequence.{
  Follows, kept, in_order, decode_all, frames_follow, gap_throws,
}
use strategy_nodes.Common.{drop, length}
use strategy_nodes.L2.Message.{BookSpec}
use strategy_nodes.Venue.Manager.{unsubscribe_request}
use strategy_nodes.Venue.Symbols.{
  is_upper, is_lower, is_alnum, contains, is_symbol_character, is_well_formed_symbol,
}
use strategy_nodes.Venue.Symbols.Plain.{scan_string}
use strategy_nodes.Coinbase.Adapter.{check_symbol, request_head, make_book_request}
use strategy_nodes.Coinbase.Adapter.Requests.{request_names_product}
use strategy_nodes.Venue.Decoder.{Output, RawFrame, returned, threw, for_each}

abbrev no_days : ℤ → ℤ → ℤ → ℤ
no_days y m d = pos 0

abbrev cents : PairPrecision
cents = record { price_decimals = 2; qty_decimals = 4 }

-- An output that wants everything at one precision, and keeps what it is handed.
abbrev collector : Output (List Message)
collector = record { find = λ o symbol type. some cents; emit = λ o m. m ∷ o }

abbrev updates : List Update
updates =
    record {
      side = bid;
      event_time = codes "2026-10-04T18:32:21.811584Z";
      price = record { whole = codes "101"; fraction = some (codes "5") };
      quantity = record { whole = codes "0"; fraction = some (codes "25000") };
    }
    ∷ record {
      side = offer;
      event_time = codes "2026-10-04T18:32:21.811584Z";
      price = record { whole = codes "102"; fraction = none };
      quantity = record { whole = codes "3"; fraction = some (codes "01") };
    }
    ∷ []

event_emitted_example :
    decode_event collector no_days (pos 7) (pos 9) [] (event_json (codes "BTC-USD") update updates)
    ≡ returned (make_message (codes "BTC-USD") update (pos 7) (pos 9) (sides_of cents updates) ∷ [])
unfolding is_digit value_of value_from find_last_not_of last_before
event_emitted_example =
    event_emitted collector no_days (pos 7) (pos 9) [] (codes "BTC-USD") update updates cents refl (
      (
        record {
          decimal = record {
            whole_digits = (refl, (refl, (refl, tt)));
            fraction_only_digits = (refl, tt);
            scale_small = omega arith;
            value_small = omega arith;
          };
          short = omega arith;
          fine = omega arith;
        },
        record {
          decimal = record {
            whole_digits = (refl, tt);
            fraction_only_digits = (refl, (refl, (refl, (refl, (refl, tt)))));
            scale_small = omega arith;
            value_small = omega arith;
          };
          short = omega arith;
          fine = omega arith;
        },
      ),
      (
        (
          record {
            decimal = record {
              whole_digits = (refl, (refl, (refl, tt)));
              fraction_only_digits = tt;
              scale_small = omega arith;
              value_small = omega arith;
            };
            short = omega arith;
            fine = omega arith;
          },
          record {
            decimal = record {
              whole_digits = (refl, tt);
              fraction_only_digits = (refl, (refl, tt));
              scale_small = omega arith;
              value_small = omega arith;
            };
            short = omega arith;
            fine = omega arith;
          },
        ),
        tt,
      ),
    )

-- A frame of a channel that carries nothing, with its sequence number.
abbrev frame_of : Text → Json
frame_of n = object (
    member (codes "channel") (string (codes "subscriptions")) (
      member (codes "sequence_num") (string n)
        (member (codes "events") (array no_elements) no_members)))

abbrev frame : Text → RawFrame
frame n = record { json = some (frame_of n); capture_time_ns = pos 0 }

abbrev frames : List RawFrame
frames = frame (codes "4") ∷ frame (codes "3") ∷ frame (codes "5") ∷ []

frames_follow_example :
    Follows none (kept none frames)
    × (decode_all collector no_days (make_decoder, []) (in_order none frames)
        ≡ returned (record { last_sequence = some 5; last_heartbeat = none }, []))
unfolding is_object document_head find_json_string find_json_member find_member text_eq and_then
    is_error channel_head require_unsigned require_json_string require_json_member is_string
    get_string string_or_throw whole_unsigned from_chars_unsigned unsigned_of span_digits is_digit
    value_of value_from for_each decode decode_document decode_head decode_numbered decode_advanced
    advance decode_followed decode_channel require_json_array is_array get_array elements
frames_follow_example =
    frames_follow collector no_days make_decoder [] frames
      (record { last_sequence = some 5; last_heartbeat = none }, []) refl

gap_throws_example :
    decode collector no_days
      (record { last_sequence = some 4; last_heartbeat = none })
      []
      (frame (codes "7"))
    ≡ threw (skipped 5 6) (record { last_sequence = some 4; last_heartbeat = none }, [])
unfolding is_object document_head find_json_string find_json_member find_member text_eq and_then
    is_error channel_head require_unsigned require_json_string require_json_member is_string
    get_string string_or_throw whole_unsigned from_chars_unsigned unsigned_of span_digits is_digit
    value_of value_from
gap_throws_example =
    gap_throws collector no_days (record { last_sequence = some 4; last_heartbeat = none }) []
      (frame_of (codes "7")) (pos 0) (codes "subscriptions") 4 7 refl refl refl (omega arith)

abbrev product_spec : BookSpec
product_spec = record { symbol = codes "BTC-USD"; depth = 0 }

request_names_product_example :
    scan_string (
      drop
        (length (request_head unsubscribe_request))
        (make_book_request unsubscribe_request product_spec))
    ≡ some (codes "BTC-USD", codes "]}")
unfolding check_symbol is_well_formed_symbol is_symbol_character contains is_alnum is_upper is_lower
request_names_product_example = request_names_product unsubscribe_request product_spec refl
