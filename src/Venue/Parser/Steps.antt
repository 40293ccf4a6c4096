-- ===== src/Venue/Parser/Steps.antt =====
-- Every call of the parser keeps its routes in order, and keeps to the phases.
use strategy_nodes.Common.{
  ℕ, ◌≡◌, refl, ap, subst, sym, ◌∙◌, true, false, inl, inr, Option, none, some, List, [], ◌∷◌, ◌++◌,
  Text, text_eq, text_eq→eq, ok, err, if◌then◌else◌, Bool-cases, Option-cases, arith,
}
use strategy_nodes.SortedMap.{find, contains, insert_or_assign, try_emplace}
use strategy_nodes.SortedMap.Orders.{text_less}
use strategy_nodes.SortedMap.Laws.{find-erase, insert_or_assign-IsSorted, erase-IsSorted}
use strategy_nodes.SortedMap.Texts.{same-text_eq}
use strategy_nodes.L2.Message.{Message, PairPrecision}
use strategy_nodes.L2.Book
use strategy_nodes.L2.Book.{Book}
use strategy_nodes.Venue.Parser.{
  Parser, Route, attach, has_receiver, detach, start, emit, put_route, deliver, passes,
}
use strategy_nodes.Venue.Parser.Phases.{
  Phase, closed, route_phase, phase_of, Call, starts, attaches, detaches, emits, after_attach, Seen,
  attached, step, run, on_attach, next, follow,
}
use strategy_nodes.Venue.Parser.Laws.{
  IsParser, find-await_all, await_all-IsSorted, phase_of-put_route, follow-emit, find_route_cases,
}

pub follow-append :
    (symbol : Text) (ph : Phase) (xs ys : List Seen)
    → follow symbol ph (xs ++ ys)
      ≡ elim (follow symbol ph xs) [ none ↦ none | some q ↦ follow symbol q ys ]
follow-append symbol ph [] ys = refl
follow-append symbol ph (x ∷ xs) ys = elim (Option-cases (next symbol ph x)) [
  | inl e ↦ rw (follow, e) refl
  | inr (q, e) ↦ rw (follow, e) (follow-append symbol q xs ys)
]

pub put_route-IsParser :
    (p : Parser) (s : Text) (r : Route) → IsParser p → IsParser (put_route p s r)
unfolding put_route
put_route-IsParser p s r h = insert_or_assign-IsSorted text_less s r p.routes h

deliver-IsParser :
    (check : Option (Book → ℕ)) (p : Parser) (r : Route) (m : Message)
    → IsParser p
    → IsParser (deliver check p r m).0
unfolding deliver
deliver-IsParser none p r m h = put_route-IsParser p m.symbol r h
deliver-IsParser (some checksum) p r m h =
    let applied = Book.apply r.book m in
    elim (Bool-cases (passes checksum applied m.checksum)) [
      | inl y ↦ rw y (put_route-IsParser p m.symbol (record r { book = applied }) h)
      | inr n ↦ rw n (
          put_route-IsParser p m.symbol
            (record r { awaiting_snapshot = true; book = Book.clear applied }) h)
    ]

pub emit-IsParser : (p : Parser) (m : Message) → IsParser p → IsParser (emit p m).0
unfolding emit
emit-IsParser p m h = elim (find_route_cases p m.symbol m.type) [
  | inl e ↦ rw (emit, e) h
  | inr (r, e, f, a) ↦
      rw (emit, e)
        (deliver-IsParser p.checksum_check p (record r { awaiting_snapshot = false }) m h)
]

-- `try_emplace` by what is found.
module _ {V : Type 0} where
  try_emplace_new :
      (s : Text) (v : V) (routes : List (Text × V))
      → find text_less s routes ≡ none
      → try_emplace text_less s v routes ≡ some (insert_or_assign text_less s v routes)
  unfolding try_emplace contains
  try_emplace_new s v routes e = rw (try_emplace, contains, e) refl

  try_emplace_taken :
      (s : Text) (v w : V) (routes : List (Text × V))
      → find text_less s routes ≡ some w
      → try_emplace text_less s v routes ≡ none
  unfolding try_emplace contains
  try_emplace_taken s v w routes e = rw (try_emplace, contains, e) refl

abbrev pub fresh_route : PairPrecision → ℕ → ℕ → Route
fresh_route precision depth receiver = record {
  precision = precision;
  receiver = receiver;
  awaiting_snapshot = true;
  book = Book.make_book depth;
}

pub attach_new :
    (p : Parser) (s : Text) (precision : PairPrecision) (depth receiver : ℕ)
    → find text_less s p.routes ≡ none
    → attach p s precision depth receiver
      ≡ ok (put_route p s (fresh_route precision depth receiver))
unfolding attach put_route
attach_new p s precision depth receiver e =
    rw (attach, try_emplace_new s (fresh_route precision depth receiver) p.routes e) refl

pub attach_taken :
    (p : Parser) (s : Text) (precision : PairPrecision) (depth receiver : ℕ) (r : Route)
    → find text_less s p.routes ≡ some r
    → attach p s precision depth receiver ≡ err has_receiver
unfolding attach
attach_taken p s precision depth receiver r e =
    rw (attach, try_emplace_taken s (fresh_route precision depth receiver) r p.routes e) refl

on_attach_taken :
    (r : Route) (n : ℕ) → on_attach (route_phase (some r)) n false ≡ some (route_phase (some r))
on_attach_taken r n = ground arith

-- What follows the attachment of the pair itself, from the phase that its route is in.
attach_here :
    (symbol s : Text) (p : Parser) (precision : PairPrecision) (depth receiver : ℕ)
    → text_eq s symbol ≡ true
    → find text_less s p.routes ≡ none
    → next symbol (phase_of symbol p) (attached s receiver true)
      ≡ some (phase_of symbol (put_route p s (fresh_route precision depth receiver)))
attach_here symbol s p precision depth receiver y e =
    let here : find text_less symbol p.routes ≡ none =
      subst (λ x. find text_less x p.routes ≡ none) (text_eq→eq s symbol y) e in
    rw (phase_of-put_route symbol s (fresh_route precision depth receiver) p, next, y, here) refl

attach_taken_here :
    (symbol s : Text) (p : Parser) (r : Route) (receiver : ℕ)
    → text_eq s symbol ≡ true
    → find text_less s p.routes ≡ some r
    → next symbol (phase_of symbol p) (attached s receiver false) ≡ some (phase_of symbol p)
attach_taken_here symbol s p r receiver y e =
    let here : find text_less symbol p.routes ≡ some r =
      subst (λ x. find text_less x p.routes ≡ some r) (text_eq→eq s symbol y) e in
    rw (next, y, here) (on_attach_taken r receiver)

one_step :
    (symbol : Text) (ph q : Phase) (x : Seen)
    → next symbol ph x ≡ some q
    → follow symbol ph (x ∷ []) ≡ some q
one_step symbol ph q x e = rw (follow, e) refl

follow-attach :
    (symbol : Text) (p : Parser) (s : Text) (precision : PairPrecision) (depth receiver : ℕ)
    → follow symbol (phase_of symbol p) (step p (attaches s precision depth receiver)).1
      ≡ some (phase_of symbol (step p (attaches s precision depth receiver)).0)
unfolding step
follow-attach symbol p s precision depth receiver =
    elim (Option-cases (find text_less s p.routes)) [
      | inl e ↦ rw (attach_new p s precision depth receiver e) (
          one_step symbol (phase_of symbol p)
            (phase_of symbol (put_route p s (fresh_route precision depth receiver)))
            (attached s receiver true)
            (elim (Bool-cases (text_eq s symbol)) [
              | inl y ↦ attach_here symbol s p precision depth receiver y e
              | inr n ↦
                  rw (phase_of-put_route symbol s (fresh_route precision depth receiver) p, next, n)
                    refl
            ]))
      | inr (r, e) ↦ rw (attach_taken p s precision depth receiver r e) (
          one_step symbol (phase_of symbol p) (phase_of symbol p) (attached s receiver false)
            (elim (Bool-cases (text_eq s symbol)) [
              | inl y ↦ attach_taken_here symbol s p r receiver y e
              | inr n ↦ rw (next, n) refl
            ]))
    ]

follow-start :
    (symbol : Text) (p : Parser)
    → follow symbol (phase_of symbol p) (step p starts).1 ≡ some (phase_of symbol (step p starts).0)
unfolding step start
follow-start symbol p = ap some (sym (find-await_all symbol p.routes))

pub phase_of-detach :
    (symbol s : Text) (p : Parser)
    → IsParser p
    → phase_of symbol (detach p s) ≡ (if text_eq s symbol then closed else phase_of symbol p)
unfolding detach
phase_of-detach symbol s p h =
    ap route_phase (find-erase text_less s symbol p.routes h)
    ∙ ap (λ b. route_phase (if b then none else find text_less symbol p.routes))
        (same-text_eq s symbol)
    ∙ ground arith

follow-detach :
    (symbol : Text) (p : Parser) (s : Text)
    → IsParser p
    → follow symbol (phase_of symbol p) (step p (detaches s)).1
      ≡ some (phase_of symbol (step p (detaches s)).0)
unfolding step
follow-detach symbol p s h = elim (Bool-cases (text_eq s symbol)) [
  | inl y ↦ rw (phase_of-detach symbol s p h, follow, next, y) refl
  | inr n ↦ rw (phase_of-detach symbol s p h, follow, next, n) refl
]

follow-step :
    (symbol : Text) (p : Parser) (c : Call)
    → IsParser p
    → follow symbol (phase_of symbol p) (step p c).1 ≡ some (phase_of symbol (step p c).0)
unfolding step
follow-step symbol p starts h = follow-start symbol p
follow-step symbol p (attaches s precision depth receiver) h =
    follow-attach symbol p s precision depth receiver
follow-step symbol p (detaches s) h = follow-detach symbol p s h
follow-step symbol p (emits m) h = follow-emit symbol p m

pub attach-IsParser :
    (p : Parser) (s : Text) (precision : PairPrecision) (depth receiver : ℕ)
    → IsParser p
    → IsParser (after_attach p (attach p s precision depth receiver)).0
attach-IsParser p s precision depth receiver h = elim (Option-cases (find text_less s p.routes)) [
  | inl e ↦
      rw (attach_new p s precision depth receiver e)
        (put_route-IsParser p s (fresh_route precision depth receiver) h)
  | inr (r, e) ↦ rw (attach_taken p s precision depth receiver r e) h
]

step-IsParser : (p : Parser) (c : Call) → IsParser p → IsParser (step p c).0
unfolding step start detach
step-IsParser p starts h = await_all-IsSorted p.routes h
step-IsParser p (attaches s precision depth receiver) h =
    attach-IsParser p s precision depth receiver h
step-IsParser p (detaches s) h = erase-IsSorted text_less s p.routes h
step-IsParser p (emits m) h = emit-IsParser p m h

-- Whatever sequence of `Start`, `Attach`, `Detach` and `Emit` is called on a parser whose routes
-- are in order, every call's outputs are legal for every pair in the phase it is in, and the
-- phase they lead to is the phase of the pair's route: the message of a pair is handed to
-- the receiver that is attached to the pair, and to no other and at no other time; an update only
-- after a snapshot since it was attached, since the last `Start` and since the last mismatch; and `Attach` returns exactly where the pair has no receiver.
pub run_follows :
    (symbol : Text) (p : Parser) (cs : List Call)
    → IsParser p
    → follow symbol (phase_of symbol p) (run p cs).1 ≡ some (phase_of symbol (run p cs).0)
unfolding run
run_follows symbol p [] h = refl
run_follows symbol p (c ∷ cs) h =
    follow-append symbol (phase_of symbol p) (step p c).1 (run (step p c).0 cs).1
    ∙ rw (follow-step symbol p c h) (run_follows symbol (step p c).0 cs (step-IsParser p c h))
