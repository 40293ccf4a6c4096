-- ===== src/Venue/Manager/Invariant.antt =====
-- Every call of the manager keeps its parser and its subscriptions in agreement.
use strategy_nodes.Common.{
  ◌≡◌, refl, ◌∙◌, Bool, true, false, inl, inr, List, [], ◌∷◌, Text, text_eq, if◌then◌else◌,
  Bool-cases, any_of, ℕ, leb, ◌-◌, is_empty,
}
use strategy_nodes.SortedMap.{find}
use strategy_nodes.Venue.Parser
use strategy_nodes.Venue.Parser.{Parser, Output, received, gapped, mismatched, timed}
use strategy_nodes.Venue.Parser.Steps.{emit-IsParser}
use strategy_nodes.Venue.Manager.{
  Manager, Adapter, Fetched, fetched, unlisted, unreachable, call_venue, make_manager, find_symbol,
  list_pairs, refresh_pairs, pairs_lifetime, disconnect, connect, healthy, request_resubscribe,
  resubscribe_next,
}
use strategy_nodes.Venue.Manager.Routing.{Agrees, emit_keeps, start_keeps, start-IsParser}
use strategy_nodes.Venue.Manager.Calls.{
  Call, subscribes, unsubscribes, lists_pairs, connects, disconnects, dies, emits, resubscribes,
  note_mismatches, step, run, IsManager, subscribe-IsManager, unsubscribe-IsManager,
}

if-IsManager :
    (b : Bool) (x y : Manager) → IsManager x → IsManager y → IsManager (if b then x else y)
if-IsManager true x y hx hy = hx
if-IsManager false x y hx hy = hy

request-IsManager : (m : Manager) (s : Text) → IsManager m → IsManager (request_resubscribe m s)
unfolding request_resubscribe
request-IsManager m s h =
    if-IsManager (any_of (λ t. text_eq t s) m.pending_resubscribes) m
      (record m { pending_resubscribes = _ }) h h

note-IsManager : (m : Manager) (os : List Output) → IsManager m → IsManager (note_mismatches m os)
unfolding note_mismatches
note-IsManager m [] h = h
note-IsManager m (received n x ∷ os) h = note-IsManager m os h
note-IsManager m (gapped n g ∷ os) h = note-IsManager m os h
note-IsManager m (mismatched s ∷ os) h =
    note-IsManager (request_resubscribe m s) os (request-IsManager m s h)
note-IsManager m (timed t ∷ os) h = note-IsManager m os h

connect-IsManager : (m : Manager) (reached : Bool) → IsManager m → IsManager (connect m reached).0
unfolding connect disconnect
connect-IsManager m reached (p, o, a) = elim (Bool-cases (healthy m)) [
  | inl y ↦ rw (connect, y) (p, o, a)
  | inr n ↦ fresh reached n
]
  where
    restarted : Agrees (Parser.start m.parser) m.subscriptions
    restarted = λ symbol. start_keeps symbol m.parser ∙ a symbol

    fresh : (r : Bool) → healthy m ≡ false → IsManager (connect m r).0
    fresh true n = rw (connect, n) (start-IsParser m.parser p, o, restarted)
    fresh false n = rw (connect, n) (start-IsParser m.parser p, o, restarted)

refresh-IsManager :
    (m : Manager) (now : ℕ) (answer : Fetched (List Text))
    → IsManager m
    → IsManager (refresh_pairs m now answer).0
unfolding refresh_pairs call_venue
refresh-IsManager m now (fetched symbols) h = h
refresh-IsManager m now unlisted h = h
refresh-IsManager m now unreachable h = h

pairs-IsManager :
    (m : Manager) (now : ℕ) (answer : Fetched (List Text))
    → IsManager m
    → IsManager (list_pairs m now answer).0
unfolding list_pairs
pairs-IsManager m now answer h = elim (Bool-cases (is_empty m.known_pairs)) [
  | inl y ↦ rw (list_pairs, y) (refresh-IsManager m now answer h)
  | inr n ↦ elim (Bool-cases (leb pairs_lifetime (now - m.pairs_fetched_at))) [
    | inl y ↦ rw (list_pairs, n, y) (refresh-IsManager m now answer h)
    | inr k ↦ rw (list_pairs, n, k) h
  ]
]

next-IsManager : (m : Manager) → IsManager m → IsManager (resubscribe_next m).0
unfolding resubscribe_next
next-IsManager m h = go m.pending_resubscribes
  where
    go : (l : List Text) → IsManager (resubscribe_next (record m { pending_resubscribes = l })).0
    go [] = h
    go (s ∷ rest) = h

pub step-IsManager : (m : Manager) (c : Call) → IsManager m → IsManager (step m c).0
unfolding step disconnect
step-IsManager m (subscribes id book answer now receiver) h =
    subscribe-IsManager m id book answer now receiver h
step-IsManager m (unsubscribes id) h = unsubscribe-IsManager m id h
step-IsManager m (lists_pairs now answer) h = pairs-IsManager m now answer h
step-IsManager m (connects reached) h = connect-IsManager m reached h
step-IsManager m disconnects h = h
step-IsManager m dies h = h
step-IsManager m (emits x) (p, o, a) =
    note-IsManager (record m { parser = (Parser.emit m.parser x).0 }) (Parser.emit m.parser x).1
      (emit-IsParser m.parser x p, o, λ symbol. emit_keeps symbol m.parser x ∙ a symbol)
step-IsManager m resubscribes h = next-IsManager m h

pub run-IsManager : (m : Manager) (cs : List Call) → IsManager m → IsManager (run m cs).0
unfolding run
run-IsManager m [] h = h
run-IsManager m (c ∷ cs) h = run-IsManager (step m c).0 cs (step-IsManager m c h)

pub make-IsManager : (adapter : Adapter) → IsManager (make_manager adapter)
unfolding make_manager Parser.make_parser find find_symbol
make-IsManager adapter = (tt, tt, λ symbol. refl)

-- Whatever is called on a new manager, in any order, with connections lost and checksums failing
-- in between, the routes of its parser are in order, no symbol has two subscriptions, and for
-- every symbol the parser has a route exactly if there is a subscription, to the receiver of that
-- subscription.
pub routes_are_subscriptions :
    (adapter : Adapter) (cs : List Call) → IsManager (run (make_manager adapter) cs).0
routes_are_subscriptions adapter cs =
    run-IsManager (make_manager adapter) cs (make-IsManager adapter)
