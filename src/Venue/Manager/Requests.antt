-- ===== src/Venue/Manager/Requests.antt =====
-- What the venue was asked for, read from the requests alone.
use strategy_nodes.Common.{
  ◌≡◌, refl, ap, sym, subst, ◌∙◌, Bool, true, false, inl, inr, Option, none, some, List, [], ◌∷◌,
  Text, ℕ, ℤ, text_eq, text_eq→eq, if◌then◌else◌, Bool-cases, Option-cases, arith, is_some,
  value_or,
}
use strategy_nodes.SortedMap.{find}
use strategy_nodes.SortedMap.Orders.{ℕ_less}
use strategy_nodes.L2.Message.{BookSpec, PairPrecision}
use strategy_nodes.Venue.Parser
use strategy_nodes.Venue.Parser.{Output, received, gapped, mismatched, timed}
use strategy_nodes.Venue.Manager.{
  Manager, Adapter, Fetched, fetched, unlisted, unreachable, call_venue, Subscription, Effect,
  hello, subscribe_request, unsubscribe_request, make_manager, find_symbol, resolve_taken,
  subscribe_late, unsubscribe, list_pairs, disconnect, connect, healthy, send, tell_all,
  subscribe_all, resubscribe, resubscribe_next,
}
use strategy_nodes.Venue.Manager.Finding.{find_symbol-insert, find_symbol-erase}
use strategy_nodes.Venue.Manager.Calls.{
  Call, subscribes, unsubscribes, lists_pairs, connects, disconnects, dies, emits, resubscribes,
  note_mismatches, step, run, IsManager, resolve_free, subscribe_late-added,
}
use strategy_nodes.Venue.Manager.Invariant.{step-IsManager, make-IsManager}
use strategy_nodes.Venue.Manager.Streams.{
  streams, streams-append, streams-subscribe_all, Synced, streams-send, synced_if,
  note_mismatches_keeps, list_pairs_keeps,
}

subscribe-Synced :
    (symbol : Text) (on : Bool) (m : Manager) (id : ℕ) (book : BookSpec)
    (answer : Fetched PairPrecision) (now : ℤ) (receiver : Option ℕ)
    → IsManager m
    → Synced symbol m on
    → Synced symbol
        (step m (subscribes id book answer now receiver)).0
        (streams symbol on (step m (subscribes id book answer now receiver)).1)
unfolding step subscribe_late call_venue
subscribe-Synced symbol on m id book unlisted now receiver h y = y
subscribe-Synced symbol on m id book unreachable now receiver h y = y
subscribe-Synced symbol on m id book (fetched precision) now receiver h y =
    elim (Option-cases (resolve_taken m id book)) [
      | inr (taken, e) ↦ rw (step, subscribe_late, e) y
      | inl e ↦ go receiver e
    ]
  where
    go :
        (r : Option ℕ)
        → resolve_taken m id book ≡ none
        → Synced symbol
            (step m (subscribes id book (fetched precision) now r)).0
            (streams symbol on (step m (subscribes id book (fetched precision) now r)).1)
    go none e = rw (step, subscribe_late, e) y
    go (some r) e =
        let (f, free) = resolve_free m id book e in
        let s : Subscription = record { book = book; start_time_ns = now; receiver = r } in
        rw (step, subscribe_late-added m id book precision now r h e)
          (λ c.
            (streams-send symbol on m book c).0
            ∙ (synced_if (text_eq book.symbol symbol) on (id, s)
                (find_symbol symbol m.subscriptions) (y c)).0
            ∙ sym (ap is_some (find_symbol-insert symbol id s m.subscriptions f free)))

unsubscribe-Synced :
    (symbol : Text) (on : Bool) (m : Manager) (id : ℕ)
    → IsManager m
    → Synced symbol m on
    → Synced symbol (step m (unsubscribes id)).0 (streams symbol on (step m (unsubscribes id)).1)
unfolding step unsubscribe
unsubscribe-Synced symbol on m id h y = elim (Option-cases (find ℕ_less id m.subscriptions)) [
  | inl e ↦ rw (step, unsubscribe, e) y
  | inr (s, e) ↦
      rw (step, unsubscribe, e)
        (λ c.
          (streams-send symbol on m s.book c).1
          ∙ (synced_if (text_eq s.book.symbol symbol) on (id, s)
              (find_symbol symbol m.subscriptions) (y c)).1
          ∙ sym (ap is_some (find_symbol-erase symbol id s m.subscriptions e h.1)))
]

connect-Synced :
    (symbol : Text) (on : Bool) (m : Manager) (reached : Bool)
    → Synced symbol m on
    → Synced symbol (step m (connects reached)).0 (streams symbol on (step m (connects reached)).1)
unfolding step connect disconnect
connect-Synced symbol on m reached y = elim (Bool-cases (healthy m)) [
  | inl up ↦ rw (step, connect, up) y
  | inr down ↦ fresh reached down
]
  where
    gaps : List Effect
    gaps = if m.connected then tell_all m.subscriptions else []

    fresh :
        (r : Bool)
        → healthy m ≡ false
        → Synced symbol (step m (connects r)).0 (streams symbol on (step m (connects r)).1)
    fresh true down =
        rw (step, connect, down)
          (λ c.
            streams-append symbol on gaps (hello ∷ subscribe_all m.subscriptions)
            ∙ streams-subscribe_all symbol false m.subscriptions
            ∙ bare (is_some (find_symbol symbol m.subscriptions)))
      where
        bare : (b : Bool) → (if b then true else false) ≡ b
        bare true = refl
        bare false = refl
    fresh false down = rw (step, connect, down) (λ c. cc)

-- What is found by a symbol has it.
found_has :
    (t : Text) (x : ℕ × Subscription) (m : List (ℕ × Subscription))
    → find_symbol t m ≡ some x
    → text_eq x.1.book.symbol t ≡ true
unfolding find_symbol
found_has t x [] h = cc
found_has t x ((j, w) ∷ m) h = elim (Bool-cases (text_eq w.book.symbol t)) [
  | inl y ↦
      let first : Option (ℕ × Subscription) = some (j, w) in
      let here : first ≡ some x = ground arith in
      subst (λ v. text_eq v.1.book.symbol t ≡ true) (ap (λ o. value_or o x) here) y
  | inr n ↦ found_has t x m (ground arith)
]

resubscribe-Synced :
    (symbol t : Text) (on : Bool) (m : Manager)
    → Synced symbol m on
    → Synced symbol m (streams symbol on (resubscribe m t))
unfolding resubscribe
resubscribe-Synced symbol t on m y = elim (Option-cases (find_symbol t m.subscriptions)) [
  | inl e ↦ rw (resubscribe, e) y
  | inr ((id, s), e) ↦
      rw (resubscribe, e)
        (λ c.
          streams-append symbol on (send m unsubscribe_request s.book)
            (send m subscribe_request s.book)
          ∙ (streams-send symbol (streams symbol on (send m unsubscribe_request s.book)) m s.book
              c).0
          ∙ ap (λ b. if text_eq s.book.symbol symbol then true else b)
              (streams-send symbol on m s.book c).1
          ∙ again (text_eq s.book.symbol symbol) (y c) (λ own.
            found_here symbol (same_pair s own (found_has t (id, s) m.subscriptions e)) e))
]
  where
    again :
        (b : Bool)
        → on ≡ is_some (find_symbol symbol m.subscriptions)
        → (b ≡ true → is_some (find_symbol symbol m.subscriptions) ≡ true)
        → (if b then true else if b then false else on)
          ≡ is_some (find_symbol symbol m.subscriptions)
    again true e f = sym (f refl)
    again false e f = e

    same_pair :
        (s : Subscription)
        → text_eq s.book.symbol symbol ≡ true
        → text_eq s.book.symbol t ≡ true
        → t ≡ symbol
    same_pair s a b = sym (text_eq→eq s.book.symbol t b) ∙ text_eq→eq s.book.symbol symbol a

    found_here :
        (u : Text) {x : ℕ × Subscription}
        → t ≡ u
        → find_symbol t m.subscriptions ≡ some x
        → is_some (find_symbol u m.subscriptions) ≡ true
    found_here u p e = subst (λ v. is_some (find_symbol v m.subscriptions) ≡ true) p (ap is_some e)

-- A call that leaves the connection and the subscriptions alone.
kept-Synced :
    (symbol : Text) (on : Bool) (m m' : Manager)
    → (m'.connected ≡ m.connected) × (m'.subscriptions ≡ m.subscriptions)
    → Synced symbol m on
    → Synced symbol m' on
kept-Synced symbol on m m' (d, k) y =
    λ c. y (sym d ∙ c) ∙ ap (λ l. is_some (find_symbol symbol l)) (sym k)

next-Synced :
    (symbol : Text) (on : Bool) (m : Manager)
    → Synced symbol m on
    → Synced symbol (resubscribe_next m).0 (streams symbol on (resubscribe_next m).1)
unfolding resubscribe_next resubscribe send
next-Synced symbol on m y = go m.pending_resubscribes
  where
    go :
        (l : List Text)
        → Synced symbol
            (resubscribe_next (record m { pending_resubscribes = l })).0
            (streams symbol on (resubscribe_next (record m { pending_resubscribes = l })).1)
    go [] = y
    go (s ∷ rest) = resubscribe-Synced symbol s on m y

step-Synced :
    (symbol : Text) (on : Bool) (m : Manager) (c : Call)
    → IsManager m
    → Synced symbol m on
    → Synced symbol (step m c).0 (streams symbol on (step m c).1)
unfolding step disconnect
step-Synced symbol on m (subscribes id book answer now receiver) h y =
    subscribe-Synced symbol on m id book answer now receiver h y
step-Synced symbol on m (unsubscribes id) h y = unsubscribe-Synced symbol on m id h y
step-Synced symbol on m (lists_pairs now answer) h y =
    kept-Synced symbol on m (list_pairs m now answer).0 (list_pairs_keeps m now answer) y
step-Synced symbol on m (connects reached) h y = connect-Synced symbol on m reached y
step-Synced symbol on m disconnects h y = λ c. cc
step-Synced symbol on m dies h y = y
step-Synced symbol on m (emits x) h y =
    let (p, os) = Parser.emit m.parser x in
    let left : Manager = record m { parser = p } in
    kept-Synced symbol on left (note_mismatches left os) (note_mismatches_keeps left os) y
step-Synced symbol on m resubscribes h y = next-Synced symbol on m y

run-Synced :
    (symbol : Text) (on : Bool) (m : Manager) (cs : List Call)
    → IsManager m
    → Synced symbol m on
    → Synced symbol (run m cs).0 (streams symbol on (run m cs).1)
unfolding run
run-Synced symbol on m [] h y = y
run-Synced symbol on m (c ∷ cs) h y =
    subst (Synced symbol (run (step m c).0 cs).0)
      (sym (streams-append symbol on (step m c).1 (run (step m c).0 cs).1))
      (run-Synced symbol (streams symbol on (step m c).1) (step m c).0 cs (step-IsManager m c h)
        (step-Synced symbol on m c h y))

-- Whatever is called on a new manager, in any order, with connections lost and checksums failing
-- in between: while it is connected, the requests that it sent since the connection opened leave
-- the venue streaming a pair exactly if the pair has a subscription.
pub requests_match :
    (adapter : Adapter) (symbol : Text) (cs : List Call)
    → Synced symbol
        (run (make_manager adapter) cs).0
        (streams symbol false (run (make_manager adapter) cs).1)
unfolding make_manager find_symbol
requests_match adapter symbol cs =
    run-Synced symbol false (make_manager adapter) cs (make-IsManager adapter) (λ c. refl)
