-- ===== src/Lib.antt =====
-- data_feed: live order books of crypto venues, streamed to clients and recorded.
--
-- The program. A venue's websocket frames go through its decoder to venue::L2Parser, which routes
-- each book change to the receiver of its pair and checks the pair's book against the venue's
-- checksum. venue::L2Manager owns a venue's subscriptions, parser and connection; venue::Router
-- hands out ids and routes commands to the venue that they name. The receiver of a live
-- subscription is a frontend::Transmitter, which feeds a frontend::Stream; frontend::Outbox finds
-- the stream that a client wants to watch, and frontend::Server answers the clients' commands and
-- writes their frames.
--
-- The files, with the code that they model:
--   Common, SortedMap      shared helpers; std::map and std::flat_map as ordered key-value lists
--   L2.Message, L2.Book    data_feed/l2/message.h, book_spec.h, pair_precision.h, book.h, book.cc
--   L2.Serialize           data_feed/l2/message.h, message.cc (the bytes of a message); Core.Bytes
--   L2.Recording           data_feed/l2/file_header.h, file_header.cc, file_writer.h, file_writer.cc
--   Core.Receiver          data_feed/core/receiver.h
--   Core.Chars, Format     std::from_chars, std::format of integers, searches in a text
--   Core.Json              data_feed/core/json.h, json.cc
--   Core.Decimal           data_feed/core/decimal.h, decimal.cc
--   Core.UnixTime          data_feed/core/unix_time.h, unix_time.cc
--   Core.Spsc              data_feed/core/spsc.h
--   Crypto.Crc32           data_feed/crypto/crc32.h, crc32.cc (Crypto.Xor: the laws it needs)
--   Venue.Decoder          data_feed/venue/l2_decoder.h, net/raw_frame.h
--   Coinbase.Levels        data_feed/coinbase/l2_decoder.cc (an event's levels)
--   Coinbase.Decoder       data_feed/coinbase/l2_decoder.h, l2_decoder.cc
--   Coinbase.Adapter       data_feed/coinbase/adapter.h, adapter.cc
--   Coinbase.Products      data_feed/coinbase/products.h, products.cc
--   Kraken.Decoder         data_feed/kraken/l2_decoder.h, l2_decoder.cc
--   Kraken.Checksum        data_feed/kraken/checksum.h, checksum.cc
--   Kraken.MessageSize     data_feed/kraken/message_size.h, message_size.cc
--   Kraken.Adapter         data_feed/kraken/adapter.h, adapter.cc
--   Venue.Symbols          data_feed/venue/adapter.h, adapter.cc (symbols)
--   Venue.Ids              data_feed/venue/manager.h (ids, sinks, errors)
--   Venue.Parser           data_feed/venue/l2_parser.h, l2_parser.cc; its Decoding: Dispatch
--   Venue.Manager          data_feed/venue/l2_manager.h, l2_manager.cc, adapter.h
--   Venue.Router           data_feed/venue/router.h, router.cc
--   Frontend.Wire          data_feed/frontend/wire.h, wire.cc, proto/market_data.proto
--   Frontend.Stream        data_feed/frontend/stream.h, stream.cc
--   Frontend.Outbox        data_feed/frontend/outbox.h, outbox.cc, transmitter.h, transmitter.cc
--   Frontend.Session       data_feed/frontend/server.cc (class Server::Session)
--   Frontend.Server        data_feed/frontend/server.cc (the commands)
-- The modules below each of them hold its theorems, and its Tests module runs them on an example.
-- A definition has the name of its function in snake_case, and its comment says where they differ.
--
-- How code becomes a definition. An object is a record, and a method a function from the record and
-- the arguments to the record after it and what it did, in order: messages sent, requests, calls
-- of a receiver. A method that holds a lock throughout is one step, so any interleaving of threads
-- is a sequence of steps, and the theorems on sequences hold for each of them. An object known by a
-- pointer (a receiver, a watcher) is a number. std::expected and exceptions are values. Prices,
-- quantities and times of an i64 are integers; ids and counters of a u64 are natural numbers, with
-- the wrap-around written out where one is computed. Loops over containers are structural
-- recursion. Only the digits of a formatted number (Core.Format) are computed on fuel: one more than
-- the number, which its theorem shows to be enough. A call that may throw after it did something
-- gives the state it left besides the exception (Venue.Decoder). The loops that wait for the other
-- thread run over the turns that the scheduler gives them (Core.Spsc).
--
-- Parameters. Boost's queue between two threads is an interface, SpscQueue. A websocket frame is
-- the JSON tree that rapidjson parses it to, if it parses, with its numbers kept as strings. What
-- std::chrono makes of a date that does not exist is a function. How protobuf serializes a message
-- is a function `encode`; where a theorem reads the bytes back, `decode` returns what was encoded.
-- The checksum that a parser is given is a function. The answers of a venue, the clocks, whether a
-- connection is made, whether a file opens, and when a write ends are arguments of the steps.
--
-- Not modelled: sockets, TLS, HTTP and threads (Boost, OpenSSL), Kraken's REST answers, the
-- names of recordings on disk, Base64 and hashes, the collection of timings, logging, and the free
-- text of error details. The overflow of an i64 in a scaled decimal or a time, which C++ leaves
-- undefined, wraps around here; the theorems on them are on numbers for which none occurs. A
-- session's next sequence number, a u64 that starts at 0 and that each frame raises by one, is not
-- wrapped. Router::Subscribe, which holds no lock between taking a counter and asking the manager,
-- is one step.
pub mod Coinbase
pub mod Common
pub mod Core
pub mod Crypto
pub mod Frontend
pub mod Kraken
pub mod L2
pub mod SortedMap
pub mod Venue
