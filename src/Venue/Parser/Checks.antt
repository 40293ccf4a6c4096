-- ===== src/Venue/Parser/Checks.antt =====
-- The checksum of a pair's book decides whether a message reaches its receiver, and what the
-- decoder finds decides whether a message has any effect.
use strategy_nodes.Common.{
  ℕ, ◌≡◌, ◌≢◌, ◌⊎◌, refl, ◌∙◌, true, false, inl, inr, Option, none, some, List, [], ◌∷◌, ◌++◌,
  Bool-cases, Option-cases, is_some, arith, ◌==◌, ==→eq, text_eq_self,
}
use strategy_nodes.SortedMap.{find}
use strategy_nodes.SortedMap.Orders.{text_less}
use strategy_nodes.Core.Receiver.{resubscribing}
use strategy_nodes.L2.Message.{Message}
use strategy_nodes.L2.Book
use strategy_nodes.L2.Book.{Book}
use strategy_nodes.Venue.Parser.{
  Parser, Route, Output, received, gapped, mismatched, put_route, passes, deliver, emit, find_route,
  find_precision, timings,
}
use strategy_nodes.Venue.Parser.Laws.{find-put_route}

-- The message is handed over, and the kept book agrees with the venue's checksum, if it sent one.
abbrev pub Verified : (Book → ℕ) → Parser → Route → Message → Parser × List Output → Type 0
Verified checksum p r m result =
    ((m.checksum ≡ 0) ⊎ (checksum (Book.apply r.book m) ≡ m.checksum))
    × (find text_less m.symbol result.0.routes
        ≡ some (record r { awaiting_snapshot = false; book = Book.apply r.book m }))
    × (result.1 ≡ timings p m.type m.venue_time_ns ++ received r.receiver m ∷ [])

-- The message is withheld: a gap and a mismatch in its place, and the pair awaits a snapshot.
abbrev pub Refused : (Book → ℕ) → Parser → Route → Message → Parser × List Output → Type 0
Refused checksum p r m result =
    (m.checksum ≢ 0)
    × (checksum (Book.apply r.book m) ≢ m.checksum)
    × (find text_less m.symbol result.0.routes
        ≡ some (record r { awaiting_snapshot = true; book = Book.clear (Book.apply r.book m) }))
    × (result.1
        ≡ timings p m.type m.venue_time_ns
          ++ gapped r.receiver resubscribing ∷ mismatched m.symbol ∷ [])

passes-true :
    (checksum : Book → ℕ) (b : Book) (expected : ℕ)
    → passes checksum b expected ≡ true
    → (expected ≡ 0) ⊎ (checksum b ≡ expected)
unfolding passes
passes-true checksum b expected h = elim (Bool-cases (expected == 0)) [
  | inl y ↦ inl (==→eq expected 0 y)
  | inr n ↦ inr (==→eq (checksum b) expected (ground arith))
]

passes-false :
    (checksum : Book → ℕ) (b : Book) (expected : ℕ)
    → passes checksum b expected ≡ false
    → (expected ≢ 0) × (checksum b ≢ expected)
unfolding passes
passes-false checksum b expected h = (ground arith, ground arith)

find_put :
    (p : Parser) (m : Message) (r : Route)
    → find text_less m.symbol (put_route p m.symbol r).routes ≡ some r
find_put p m r = find-put_route m.symbol m.symbol r p ∙ rw (text_eq_self m.symbol) refl

-- Given a checksum, a message that is not dropped is handed over where it carries no checksum or
-- the one of the book it leads to, which is kept; otherwise its receiver gets a gap in its place,
-- the mismatch is told, and the pair's book is emptied and awaits a snapshot.
pub emit_verdict :
    (p : Parser) (checksum : Book → ℕ) (r : Route) (m : Message)
    → p.checksum_check ≡ some checksum
    → find_route p m.symbol m.type ≡ some r
    → Verified checksum p r m (emit p m) ⊎ Refused checksum p r m (emit p m)
unfolding emit deliver put_route
emit_verdict p checksum r m c e =
    elim (Bool-cases (passes checksum (Book.apply r.book m) m.checksum)) [
      | inl y ↦ inl (
          rw (emit, e, c, deliver, y)
            (
              passes-true checksum (Book.apply r.book m) m.checksum y,
              find_put p m (record r { awaiting_snapshot = false; book = Book.apply r.book m }),
              refl,
            ))
      | inr n ↦ inr (
          rw (emit, e, c, deliver, n)
            (
              (passes-false checksum (Book.apply r.book m) m.checksum n).0,
              (passes-false checksum (Book.apply r.book m) m.checksum n).1,
              find_put p m
                  (record r { awaiting_snapshot = true; book = Book.clear (Book.apply r.book m) }),
              refl,
            ))
    ]

received_something :
    (check : Option (Book → ℕ)) (p : Parser) (r : Route) (m : Message)
    → (deliver check p r m).1 ≢ []
unfolding deliver
received_something none p r m h = cc
received_something (some checksum) p r m h = ground arith

empty_append : (os rest : List Output) → rest ≢ [] → os ++ rest ≢ []
empty_append [] rest h = h
empty_append (o ∷ os) rest h = λ e. cc

-- What `Find` tells the decoder agrees with what `Emit` would do: it finds no precision and the
-- message would change nothing and reach nobody, or it finds one and the message would be told of.
pub find_precision-emit :
    (p : Parser) (m : Message)
    → ((find_precision p m.symbol m.type ≡ none) × (emit p m ≡ (p, [])))
      ⊎ ((is_some (find_precision p m.symbol m.type) ≡ true) × ((emit p m).1 ≢ []))
unfolding find_precision emit
find_precision-emit p m = elim (Option-cases (find_route p m.symbol m.type)) [
  | inl e ↦ inl (rw (find_precision, e) refl, rw (emit, e) refl)
  | inr (r, e) ↦ inr (
    rw (find_precision, e) refl,
    rw (emit, e)
        (empty_append (timings p m.type m.venue_time_ns)
          (deliver p.checksum_check p (record r { awaiting_snapshot = false }) m).1
          (received_something p.checksum_check p (record r { awaiting_snapshot = false }) m)),
  )
]
