-- ===== src/Venue/Manager/Subscribing.antt =====
-- data_feed/venue/l2_manager.cc: what `Subscribe` does where nothing is in its way.
use strategy_nodes.Common.{
  ℕ, ◌≡◌, refl, ap, ◌∙◌, ℤ, true, none, some, List, [], ◌∷◌, Text, text_eq, ◌==◌, if◌then◌else◌,
  arith,
}
use strategy_nodes.SortedMap.{find, same}
use strategy_nodes.SortedMap.Orders.{ℕ_less, text_less}
use strategy_nodes.SortedMap.Laws.{find-insert_or_assign}
use strategy_nodes.L2.Message.{BookSpec, PairPrecision}
use strategy_nodes.L2.Book
use strategy_nodes.Venue.Parser.Laws.{find-put_route}
use strategy_nodes.Venue.Parser.Steps.{fresh_route}
use strategy_nodes.Venue.Manager.{
  Manager, Subscription, Effect, sends, fetched, Subscribed, subscribed, resolve_taken,
  subscribe_late, subscribe_request, send,
}
use strategy_nodes.Venue.Manager.Calls.{IsManager, subscribe_late-added}

same-id : (id k : ℕ) → same ℕ_less id k ≡ (id == k)
same-id id k = ground arith

-- The state after a subscription, what the call returned, and what was sent.
pub record Added (m : Manager) (id : ℕ) (book : BookSpec) (precision : PairPrecision) (now : ℤ)
    (receiver : ℕ) (after : Manager × Subscribed × List Effect) : Type 0 where
  pub returned_id : after.1 ≡ subscribed id
  pub subscriptions_after :
      (k : ℕ)
      → find ℕ_less k (after.0).subscriptions ≡ (
          if id == k
          then some (record { book = book; start_time_ns = now; receiver = receiver })
          else find ℕ_less k m.subscriptions)
  pub routes_after :
      (symbol : Text)
      → find text_less symbol (after.0).parser.routes ≡ (
          if text_eq book.symbol symbol
          then some (record {
            precision = precision;
            receiver = receiver;
            awaiting_snapshot = true;
            book = Book.make_book book.depth;
          })
          else find text_less symbol (m.parser).routes)
  pub requested : after.2 ≡ (if m.connected then sends subscribe_request book ∷ [] else [])

-- On a manager whose parser and subscriptions agree, where neither the id nor the symbol is taken,
-- the venue gives a precision and the receiver is built, `Subscribe` returns the id. After it, the
-- id and no other has a new subscription, with its book, time and receiver; the pair and no other
-- has a new route, to that receiver, at that precision, with an empty book that awaits a snapshot;
-- and the venue was asked for the pair if it is connected, and for nothing else.
pub subscribe_free :
    (m : Manager) (id : ℕ) (book : BookSpec) (precision : PairPrecision) (now : ℤ) (receiver : ℕ)
    → IsManager m
    → resolve_taken m id book ≡ none
    → Added m id book precision now receiver
        (subscribe_late m id book (fetched precision) now (some receiver))
unfolding send
subscribe_free m id book precision now receiver h free =
    rw (subscribe_late-added m id book precision now receiver h free) (record {
      returned_id = refl;
      subscriptions_after = λ k.
          find-insert_or_assign ℕ_less id k added m.subscriptions
          ∙ ap (λ b. if b then some added else find ℕ_less k m.subscriptions) (same-id id k);
      routes_after = λ symbol.
          find-put_route symbol book.symbol (fresh_route precision book.depth receiver) m.parser;
      requested = sent;
    })
  where
    added : Subscription
    added = record { book = book; start_time_ns = now; receiver = receiver }

    sent :
        send m subscribe_request book
        ≡ (if m.connected then sends subscribe_request book ∷ [] else [])
    sent = refl
