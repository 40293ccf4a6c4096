-- ===== src/Venue/Parser/Laws.antt =====
-- The parser hands a pair's receiver nothing but what the phases allow.
use strategy_nodes.Common.{
  ℕ, ◌≡◌, ◌⊎◌, refl, ap, subst, ◌∙◌, true, false, inl, inr, Option, none, some, List, [], ◌∷◌, ◌++◌,
  Text, text_eq, text_eq→eq, if◌then◌else◌, Bool-cases, Option-cases, arith,
}
use strategy_nodes.SortedMap.{find}
use strategy_nodes.SortedMap.Orders.{text_less}
use strategy_nodes.SortedMap.Laws.{IsSorted, find-insert_or_assign}
use strategy_nodes.SortedMap.Texts.{same-text_eq}
use strategy_nodes.Core.Receiver.{resubscribing}
use strategy_nodes.L2.Message.{MessageType, update, snapshot, Message}
use strategy_nodes.L2.Book
use strategy_nodes.L2.Book.{Book}
use strategy_nodes.Venue.Parser.{
  Parser, Route, Output, received, gapped, mismatched, await_all, emit, admits, find_route,
  put_route, deliver, passes, timings,
}
use strategy_nodes.Venue.Parser.Phases.{
  Phase, waiting, flowing, route_phase, phase_of, outputs, on_message, on_mismatch, on_start, next,
  follow,
}

abbrev pub IsParser : Parser → Type 0
IsParser p = IsSorted text_less p.routes

pub find-put_route :
    (symbol s : Text) (r : Route) (p : Parser)
    → find text_less symbol (put_route p s r).routes
      ≡ (if text_eq s symbol then some r else find text_less symbol p.routes)
unfolding put_route
find-put_route symbol s r p =
    find-insert_or_assign text_less s symbol r p.routes
    ∙ ap (λ b. if b then some r else find text_less symbol p.routes) (same-text_eq s symbol)

pub find-await_all :
    (symbol : Text) (routes : List (Text × Route))
    → route_phase (find text_less symbol (await_all routes))
      ≡ on_start (route_phase (find text_less symbol routes))
unfolding await_all find
find-await_all symbol [] = refl
find-await_all symbol ((s, r) ∷ routes) = ground (arith, find-await_all symbol routes)

pub await_all-IsSorted :
    (routes : List (Text × Route))
    → IsSorted text_less routes
    → IsSorted text_less (await_all routes)
unfolding await_all
await_all-IsSorted [] s = tt
await_all-IsSorted ((k, r) ∷ []) s = s
await_all-IsSorted ((k, r) ∷ (j, q) ∷ routes) (f, s) = (f, await_all-IsSorted ((j, q) ∷ routes) s)

-- Timings are no concern of any receiver.
follow-timings :
    (symbol : Text) (ph : Phase) (p : Parser) (t : MessageType) (m : Message) (os : List Output)
    → follow symbol ph (outputs (timings p t m.venue_time_ns ++ os)) ≡ follow symbol ph (outputs os)
unfolding timings
follow-timings symbol ph p snapshot m os = refl
follow-timings symbol ph p update m os = ground arith

admitted :
    (r : Route) (t : MessageType)
    → admits r t ≡ true
    → on_message (route_phase (some r)) r.receiver t ≡ some (flowing r.receiver)
unfolding admits
admitted r update h = ground arith
admitted r snapshot h = ground arith

pub find_route_cases :
    (p : Parser) (s : Text) (t : MessageType)
    → (find_route p s t ≡ none)
      ⊎ ((r : Route) × (find_route p s t ≡ some r)
          × (find text_less s p.routes ≡ some r)
          × (admits r t ≡ true))
unfolding find_route
find_route_cases p s t = elim (Option-cases (find text_less s p.routes)) [
  | inl e ↦ inl (rw (e, find_route))
  | inr (r, e) ↦ elim (Bool-cases (admits r t)) [
    | inl y ↦ inr (r, rw (e, find_route) (rw y), e, y)
    | inr n ↦ inl (rw (e, find_route) (rw n))
  ]
]

-- The phase of a pair once a route is put under a pair.
pub phase_of-put_route :
    (symbol s : Text) (r : Route) (p : Parser)
    → phase_of symbol (put_route p s r)
      ≡ (if text_eq s symbol then route_phase (some r) else phase_of symbol p)
phase_of-put_route symbol s r p = ap route_phase (find-put_route symbol s r p) ∙ ground arith

-- One message handed over, or the gap and the mismatch in its place.
follow_received :
    (symbol : Text) (p : Parser) (old r : Route) (m : Message)
    → r.awaiting_snapshot ≡ false
    → find text_less m.symbol p.routes ≡ some old
    → on_message (route_phase (some old)) r.receiver m.type ≡ some (flowing r.receiver)
    → follow symbol (phase_of symbol p) (outputs (received r.receiver m ∷ []))
      ≡ some (phase_of symbol (put_route p m.symbol r))
follow_received symbol p old r m go e legal = elim (Bool-cases (text_eq m.symbol symbol)) [
  | inl y ↦
      let same_pair = text_eq→eq m.symbol symbol y in
      let here : find text_less symbol p.routes ≡ some old =
        subst (λ s. find text_less s p.routes ≡ some old) same_pair e in
      rw (phase_of-put_route symbol m.symbol r p, y, here, follow, next, legal, go) refl
  | inr n ↦ rw (phase_of-put_route symbol m.symbol r p, follow, next, n) refl
]

on_mismatch-route : (r : Route) → on_mismatch (route_phase (some r)) ≡ some (waiting r.receiver)
on_mismatch-route r = ground arith

follow_mismatched :
    (symbol : Text) (p : Parser) (old r : Route) (m : Message)
    → r.awaiting_snapshot ≡ true
    → old.receiver ≡ r.receiver
    → find text_less m.symbol p.routes ≡ some old
    → follow symbol
        (phase_of symbol p)
        (outputs (gapped r.receiver resubscribing ∷ mismatched m.symbol ∷ []))
      ≡ some (phase_of symbol (put_route p m.symbol r))
follow_mismatched symbol p old r m stop same e = elim (Bool-cases (text_eq m.symbol symbol)) [
  | inl y ↦
      let same_pair = text_eq→eq m.symbol symbol y in
      let here : find text_less symbol p.routes ≡ some old =
        subst (λ s. find text_less s p.routes ≡ some old) same_pair e in
      rw
        (
          phase_of-put_route symbol m.symbol r p,
          y,
          here,
          follow,
          next,
          on_mismatch-route old,
          stop,
          same,
        )
        refl
  | inr n ↦ rw (phase_of-put_route symbol m.symbol r p, follow, next, n) refl
]

follow-deliver :
    (symbol : Text) (check : Option (Book → ℕ)) (p : Parser) (old r : Route) (m : Message)
    → r.awaiting_snapshot ≡ false
    → old.receiver ≡ r.receiver
    → find text_less m.symbol p.routes ≡ some old
    → on_message (route_phase (some old)) r.receiver m.type ≡ some (flowing r.receiver)
    → follow symbol (phase_of symbol p) (outputs (deliver check p r m).1)
      ≡ some (phase_of symbol (deliver check p r m).0)
unfolding deliver
follow-deliver symbol none p old r m go same e legal = follow_received symbol p old r m go e legal
follow-deliver symbol (some checksum) p old r m go same e legal =
    let applied = Book.apply r.book m in
    elim (Bool-cases (passes checksum applied m.checksum)) [
      | inl y ↦ rw y (follow_received symbol p old (record r { book = applied }) m go e legal)
      | inr n ↦ rw n (
          follow_mismatched symbol p old
            (record r { awaiting_snapshot = true; book = Book.clear applied }) m refl same e)
    ]

pub follow-emit :
    (symbol : Text) (p : Parser) (m : Message)
    → follow symbol (phase_of symbol p) (outputs (emit p m).1) ≡ some (phase_of symbol (emit p m).0)
unfolding emit
follow-emit symbol p m = elim (find_route_cases p m.symbol m.type) [
  | inl e ↦ rw (emit, e) refl
  | inr (r, e, f, a) ↦
      rw (emit, e)
        (follow-timings symbol (phase_of symbol p) p m.type m
            (deliver p.checksum_check p (record r { awaiting_snapshot = false }) m).1
          ∙ follow-deliver symbol p.checksum_check p r (record r { awaiting_snapshot = false }) m
              refl refl f (admitted r m.type a))
]
