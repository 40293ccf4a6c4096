-- ===== src/Venue/Manager/Routing.antt =====
-- The parser routes a pair's messages to the receiver of the pair's subscription.
use strategy_nodes.Common.{
  ℕ, ◌≡◌, refl, ap, sym, subst, ◌∙◌, true, false, inl, inr, Option, none, some, List, [], ◌∷◌, Text,
  text_eq, text_eq→eq, if◌then◌else◌, Bool-cases, arith,
}
use strategy_nodes.SortedMap.{find}
use strategy_nodes.SortedMap.Orders.{text_less}
use strategy_nodes.SortedMap.Laws.{find-erase, erase-IsSorted}
use strategy_nodes.SortedMap.Texts.{same-text_eq}
use strategy_nodes.L2.Message.{Message}
use strategy_nodes.L2.Book
use strategy_nodes.L2.Book.{Book}
use strategy_nodes.Venue.Parser
use strategy_nodes.Venue.Parser.{Parser, Route, put_route, deliver, passes}
use strategy_nodes.Venue.Parser.Laws.{
  IsParser, find-put_route, await_all-IsSorted, find_route_cases,
}
use strategy_nodes.Venue.Manager.{Subscription, find_symbol}
use strategy_nodes.Venue.Manager.Finding.{receiver_of}

abbrev pub route_receiver : Option Route → Option ℕ
route_receiver none = none
route_receiver (some r) = some r.receiver

abbrev pub routed : Text → Parser → Option ℕ
routed symbol p = route_receiver (find text_less symbol p.routes)

-- A pair's messages go to its subscription's receiver, and no other pair has a route.
abbrev pub Agrees : Parser → List (ℕ × Subscription) → Type 0
Agrees p subscriptions =
    (symbol : Text) → routed symbol p ≡ receiver_of (find_symbol symbol subscriptions)

pub routed-put_route :
    (symbol s : Text) (r : Route) (p : Parser)
    → routed symbol (put_route p s r)
      ≡ (if text_eq s symbol then some r.receiver else routed symbol p)
routed-put_route symbol s r p = ap route_receiver (find-put_route symbol s r p) ∙ ground arith

-- A route put in the place of one with its receiver.
put_keeps :
    (symbol s : Text) (old r : Route) (p : Parser)
    → find text_less s p.routes ≡ some old
    → r.receiver ≡ old.receiver
    → routed symbol (put_route p s r) ≡ routed symbol p
put_keeps symbol s old r p e h = elim (Bool-cases (text_eq s symbol)) [
  | inl y ↦
      routed-put_route symbol s r p
      ∙ ap (λ b. if b then some r.receiver else routed symbol p) y
      ∙ ap some h
      ∙ sym (
          ap route_receiver
            (subst (λ t. find text_less t p.routes ≡ some old) (text_eq→eq s symbol y) e))
  | inr n ↦
      routed-put_route symbol s r p ∙ ap (λ b. if b then some r.receiver else routed symbol p) n
]

deliver_keeps :
    (symbol : Text) (check : Option (Book → ℕ)) (p : Parser) (old r : Route) (m : Message)
    → find text_less m.symbol p.routes ≡ some old
    → r.receiver ≡ old.receiver
    → routed symbol (deliver check p r m).0 ≡ routed symbol p
unfolding deliver
deliver_keeps symbol none p old r m e h = put_keeps symbol m.symbol old r p e h
deliver_keeps symbol (some checksum) p old r m e h =
    let applied = Book.apply r.book m in
    elim (Bool-cases (passes checksum applied m.checksum)) [
      | inl y ↦ rw y (put_keeps symbol m.symbol old (record r { book = applied }) p e h)
      | inr n ↦ rw n (
          put_keeps symbol m.symbol old
            (record r { awaiting_snapshot = true; book = Book.clear applied }) p e h)
    ]

pub emit_keeps :
    (symbol : Text) (p : Parser) (m : Message) → routed symbol (Parser.emit p m).0 ≡ routed symbol p
unfolding Parser.emit
emit_keeps symbol p m = elim (find_route_cases p m.symbol m.type) [
  | inl e ↦ rw (Parser.emit, e) refl
  | inr (r, e, f, a) ↦
      rw (Parser.emit, e)
        (deliver_keeps symbol p.checksum_check p r (record r { awaiting_snapshot = false }) m f
          refl)
]

await_keeps :
    (symbol : Text) (routes : List (Text × Route))
    → route_receiver (find text_less symbol (Parser.await_all routes))
      ≡ route_receiver (find text_less symbol routes)
unfolding Parser.await_all find
await_keeps symbol [] = refl
await_keeps symbol ((s, r) ∷ routes) = ground (arith, await_keeps symbol routes)

pub start_keeps : (symbol : Text) (p : Parser) → routed symbol (Parser.start p) ≡ routed symbol p
unfolding Parser.start
start_keeps symbol p = await_keeps symbol p.routes

pub start-IsParser : (p : Parser) → IsParser p → IsParser (Parser.start p)
unfolding Parser.start
start-IsParser p h = await_all-IsSorted p.routes h

pub routed-detach :
    (symbol s : Text) (p : Parser)
    → IsParser p
    → routed symbol (Parser.detach p s) ≡ (if text_eq s symbol then none else routed symbol p)
unfolding Parser.detach
routed-detach symbol s p h =
    ap route_receiver (find-erase text_less s symbol p.routes h)
    ∙ ap (λ b. route_receiver (if b then none else find text_less symbol p.routes))
        (same-text_eq s symbol)
    ∙ ground arith

pub detach-IsParser : (p : Parser) (s : Text) → IsParser p → IsParser (Parser.detach p s)
unfolding Parser.detach
detach-IsParser p s h = erase-IsSorted text_less s p.routes h

-- A pair without a subscription has no route.
pub free_route :
    (p : Parser) (subscriptions : List (ℕ × Subscription)) (symbol : Text)
    → Agrees p subscriptions
    → find_symbol symbol subscriptions ≡ none
    → find text_less symbol p.routes ≡ none
free_route p subscriptions symbol agrees e =
    no_route (find text_less symbol p.routes) (agrees symbol ∙ ap receiver_of e)
  where
    no_route : (o : Option Route) → route_receiver o ≡ none → o ≡ none
    no_route none h = refl
    no_route (some r) h = cc
