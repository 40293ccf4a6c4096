-- ===== src/Venue/Manager/Calls.antt =====
-- The manager's calls in any order, with the frames that its parser decodes between them.
use strategy_nodes.Common.{
  ℕ, ◌≡◌, refl, ap, sym, ◌∙◌, Bool, true, false, inl, inr, Option, none, some, List, [], ◌∷◌, ◌++◌,
  ℤ, Text, text_eq, if◌then◌else◌, Option-cases, arith,
}
use strategy_nodes.SortedMap.{find, contains, insert_or_assign}
use strategy_nodes.SortedMap.Orders.{ℕ_less}
use strategy_nodes.L2.Message.{BookSpec, PairPrecision, Message}
use strategy_nodes.Venue.Parser
use strategy_nodes.Venue.Parser.{Parser, Output, received, gapped, mismatched, timed, put_route}
use strategy_nodes.Venue.Parser.Laws.{IsParser}
use strategy_nodes.Venue.Parser.Steps.{attach_new, fresh_route, put_route-IsParser}
use strategy_nodes.Venue.Manager.{
  Manager, Fetched, fetched, unlisted, unreachable, call_venue, Subscription, subscribed, Effect,
  find_symbol, resolve_taken, add_subscription, subscribe_late, unsubscribe, list_pairs, disconnect,
  connect, send, subscribe_request, request_resubscribe, resubscribe_next,
}
use strategy_nodes.Venue.Manager.Finding.{
  receiver_of, HasOneEach, find_symbol-insert, HasOneEach-insert, find_symbol-erase,
  HasOneEach-erase,
}
use strategy_nodes.Venue.Manager.Routing.{
  Agrees, routed-put_route, routed-detach, detach-IsParser, free_route,
}

pub data Call : Type 0 where
  subscribes : ℕ → BookSpec → Fetched PairPrecision → ℤ → Option ℕ → Call
  unsubscribes : ℕ → Call
  lists_pairs : ℕ → Fetched (List Text) → Call
  connects : Bool → Call
  disconnects : Call
  -- The feed or the parser dies.
  dies : Call
  -- The parser's decoder emits a message.
  emits : Message → Call
  -- The resubscriber takes the first pair of its queue.
  resubscribes : Call

-- The checksum mismatches that the parser tells the manager of.
unfoldable pub note_mismatches : Manager → List Output → Manager
note_mismatches m [] = m
note_mismatches m (received n x ∷ os) = note_mismatches m os
note_mismatches m (gapped n g ∷ os) = note_mismatches m os
note_mismatches m (mismatched s ∷ os) = note_mismatches (request_resubscribe m s) os
note_mismatches m (timed t ∷ os) = note_mismatches m os

unfoldable pub step : Manager → Call → Manager × List Effect
step m (subscribes id book answer now receiver) =
    let (m', result, effects) = subscribe_late m id book answer now receiver in (m', effects)
step m (unsubscribes id) = let (m', result, effects) = unsubscribe m id in (m', effects)
step m (lists_pairs now answer) = ((list_pairs m now answer).0, [])
step m (connects reached) = let (m', done, effects) = connect m reached in (m', effects)
step m disconnects = disconnect m
step m dies = (record m { failed = true }, [])
step m (emits x) =
    let (p, os) = Parser.emit m.parser x in (note_mismatches (record m { parser = p }) os, [])
step m resubscribes = resubscribe_next m

unfoldable pub run : Manager → List Call → Manager × List Effect
run m [] = (m, [])
run m (c ∷ cs) =
    let (m', effects) = step m c in let (m'', rest) = run m' cs in (m'', effects ++ rest)

-- The parser and the subscriptions agree, and no symbol has two.
abbrev pub IsManager : Manager → Type 0
IsManager m = IsParser m.parser × HasOneEach m.subscriptions × Agrees m.parser m.subscriptions

-- What `resolve_taken` finds free.
pub resolve_free :
    (m : Manager) (id : ℕ) (book : BookSpec)
    → resolve_taken m id book ≡ none
    → (find ℕ_less id m.subscriptions ≡ none) × (find_symbol book.symbol m.subscriptions ≡ none)
unfolding resolve_taken contains
resolve_free m id book h = elim (Option-cases (find ℕ_less id m.subscriptions)) [
  | inr (s, e) ↦ ground arith
  | inl e ↦ elim (Option-cases (find_symbol book.symbol m.subscriptions)) [
    | inl f ↦ (e, f)
    | inr (s, f) ↦ ground arith
  ]
]

abbrev pub added : Manager → ℕ → BookSpec → PairPrecision → ℤ → ℕ → Manager
added m id book precision now receiver = record m {
  subscriptions =
      insert_or_assign ℕ_less id (record { book = book; start_time_ns = now; receiver = receiver })
        m.subscriptions;
  parser = put_route m.parser book.symbol (fresh_route precision book.depth receiver);
}

-- In a free slot the parser never refuses the route.
pub add_subscription_free :
    (m : Manager) (id : ℕ) (book : BookSpec) (precision : PairPrecision) (now : ℤ) (receiver : ℕ)
    → IsManager m
    → find_symbol book.symbol m.subscriptions ≡ none
    → add_subscription m id book precision now receiver
      ≡ (added m id book precision now receiver, subscribed id, send m subscribe_request book)
unfolding add_subscription
add_subscription_free m id book precision now receiver (p, o, a) free =
    rw
      (
        add_subscription,
        attach_new m.parser book.symbol precision book.depth receiver
            (free_route m.parser m.subscriptions book.symbol a free),
      )
      refl

-- The parser does not refuse the route, which would leave `Subscribe` as an exception.
pub subscribe_late-added :
    (m : Manager) (id : ℕ) (book : BookSpec) (precision : PairPrecision) (now : ℤ) (receiver : ℕ)
    → IsManager m
    → resolve_taken m id book ≡ none
    → subscribe_late m id book (fetched precision) now (some receiver)
      ≡ (added m id book precision now receiver, subscribed id, send m subscribe_request book)
unfolding subscribe_late call_venue
subscribe_late-added m id book precision now receiver h free =
    rw (subscribe_late, free)
      (add_subscription_free m id book precision now receiver h (resolve_free m id book free).1)

added-IsManager :
    (m : Manager) (id : ℕ) (book : BookSpec) (precision : PairPrecision) (now : ℤ) (receiver : ℕ)
    → IsManager m
    → find ℕ_less id m.subscriptions ≡ none
    → find_symbol book.symbol m.subscriptions ≡ none
    → IsManager (added m id book precision now receiver)
added-IsManager m id book precision now receiver (p, o, a) e free =
    let s : Subscription = record { book = book; start_time_ns = now; receiver = receiver } in
    (
      put_route-IsParser m.parser book.symbol (fresh_route precision book.depth receiver) p,
      HasOneEach-insert id s m.subscriptions e free o,
      λ symbol.
          routed-put_route symbol book.symbol (fresh_route precision book.depth receiver) m.parser
          ∙ agree_if (text_eq book.symbol symbol) (find_symbol symbol m.subscriptions) (a symbol)
          ∙ sym (ap receiver_of (find_symbol-insert symbol id s m.subscriptions e free)),
    )
  where
    agree_if :
        (b : Bool) {x : Option ℕ} (y : Option (ℕ × Subscription))
        → x ≡ receiver_of y
        → (if b then some receiver else x)
          ≡ receiver_of (
              if b
              then some (id, record { book = book; start_time_ns = now; receiver = receiver })
              else y)
    agree_if true y e = refl
    agree_if false y e = e

pub subscribe-IsManager :
    (m : Manager) (id : ℕ) (book : BookSpec) (answer : Fetched PairPrecision) (now : ℤ)
    (receiver : Option ℕ)
    → IsManager m
    → IsManager (subscribe_late m id book answer now receiver).0
unfolding subscribe_late call_venue
subscribe-IsManager m id book unlisted now receiver h = h
subscribe-IsManager m id book unreachable now receiver h = h
subscribe-IsManager m id book (fetched precision) now receiver h =
    elim (Option-cases (resolve_taken m id book)) [
      | inr (taken, e) ↦ rw (subscribe_late, e) h
      | inl e ↦ go receiver e
    ]
  where
    go :
        (r : Option ℕ)
        → resolve_taken m id book ≡ none
        → IsManager (subscribe_late m id book (fetched precision) now r).0
    go none e = rw (subscribe_late, e) h
    go (some r) e =
        let (f, free) = resolve_free m id book e in
        rw (subscribe_late-added m id book precision now r h e)
          (added-IsManager m id book precision now r h f free)

pub unsubscribe-IsManager : (m : Manager) (id : ℕ) → IsManager m → IsManager (unsubscribe m id).0
unfolding unsubscribe
unsubscribe-IsManager m id (p, o, a) = elim (Option-cases (find ℕ_less id m.subscriptions)) [
  | inl e ↦ rw (unsubscribe, e) (p, o, a)
  | inr (s, e) ↦
      rw (unsubscribe, e)
        (
          detach-IsParser m.parser s.book.symbol p,
          HasOneEach-erase id s m.subscriptions e o,
          λ symbol.
              routed-detach symbol s.book.symbol m.parser p
              ∙ gone_if (text_eq s.book.symbol symbol) (find_symbol symbol m.subscriptions)
                  (a symbol)
              ∙ sym (ap receiver_of (find_symbol-erase symbol id s m.subscriptions e o)),
        )
]
  where
    gone_if :
        (b : Bool) {x : Option ℕ} (y : Option (ℕ × Subscription))
        → x ≡ receiver_of y
        → (if b then none else x) ≡ receiver_of (if b then none else y)
    gone_if true y e = refl
    gone_if false y e = e
