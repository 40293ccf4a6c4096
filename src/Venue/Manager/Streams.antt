-- ===== src/Venue/Manager/Streams.antt =====
-- What the requests for a pair come to at the venue, and the calls that send none.
use strategy_nodes.Common.{
  ◌≡◌, refl, ap, ◌∙◌, Bool, true, false, inl, inr, Option, none, some, List, [], ◌∷◌, ◌++◌, Text, ℕ,
  text_eq, if◌then◌else◌, Bool-cases, is_some, any_of, is_empty, leb, ◌-◌,
}
use strategy_nodes.L2.Message.{BookSpec}
use strategy_nodes.Venue.Parser.{Output, received, gapped, mismatched, timed}
use strategy_nodes.Venue.Manager.{
  Manager, Fetched, fetched, unlisted, unreachable, call_venue, Subscription, Effect, hello, sends,
  tells, subscribe_request, unsubscribe_request, find_symbol, list_pairs, refresh_pairs,
  pairs_lifetime, send, tell_all, subscribe_all, request_resubscribe,
}
use strategy_nodes.Venue.Manager.Calls.{note_mismatches}

-- Whether the venue streams the pair, after the effects: a new connection streams nothing, and then
-- the last request for the pair counts.
abbrev pub streams : Text → Bool → List Effect → Bool
streams symbol on [] = on
streams symbol on (hello ∷ es) = streams symbol false es
streams symbol on (sends subscribe_request book ∷ es) =
    streams symbol (if text_eq book.symbol symbol then true else on) es
streams symbol on (sends unsubscribe_request book ∷ es) =
    streams symbol (if text_eq book.symbol symbol then false else on) es
streams symbol on (tells n g ∷ es) = streams symbol on es

pub streams-append :
    (symbol : Text) (on : Bool) (xs ys : List Effect)
    → streams symbol on (xs ++ ys) ≡ streams symbol (streams symbol on xs) ys
streams-append symbol on [] ys = refl
streams-append symbol on (hello ∷ xs) ys = streams-append symbol false xs ys
streams-append symbol on (sends subscribe_request b ∷ xs) ys =
    streams-append symbol (if text_eq b.symbol symbol then true else on) xs ys
streams-append symbol on (sends unsubscribe_request b ∷ xs) ys =
    streams-append symbol (if text_eq b.symbol symbol then false else on) xs ys
streams-append symbol on (tells n g ∷ xs) ys = streams-append symbol on xs ys

pub streams-subscribe_all :
    (symbol : Text) (on : Bool) (m : List (ℕ × Subscription))
    → streams symbol on (subscribe_all m) ≡ (if is_some (find_symbol symbol m) then true else on)
unfolding find_symbol
streams-subscribe_all symbol on [] = refl
streams-subscribe_all symbol on ((id, s) ∷ m) =
    streams-subscribe_all symbol (if text_eq s.book.symbol symbol then true else on) m
    ∙ absorb (text_eq s.book.symbol symbol) (find_symbol symbol m)
  where
    absorb :
        (b : Bool) (o : Option (ℕ × Subscription))
        → (if is_some o then true else if b then true else on)
          ≡ (if is_some (if b then some (id, s) else o) then true else on)
    absorb true none = refl
    absorb true (some x) = refl
    absorb false o = refl

pub streams-tell_all :
    (symbol : Text) (on : Bool) (m : List (ℕ × Subscription)) → streams symbol on (tell_all m) ≡ on
streams-tell_all symbol on [] = refl
streams-tell_all symbol on ((id, s) ∷ m) = streams-tell_all symbol on m

-- While connected, the venue streams the pair exactly if it has a subscription.
abbrev pub Synced : Text → Manager → Bool → Type 0
Synced symbol m on = m.connected ≡ true → on ≡ is_some (find_symbol symbol m.subscriptions)

-- One request for a pair.
pub streams-send :
    (symbol : Text) (on : Bool) (m : Manager) (book : BookSpec)
    → m.connected ≡ true
    → (streams symbol on (send m subscribe_request book)
        ≡ (if text_eq book.symbol symbol then true else on))
      × (streams symbol on (send m unsubscribe_request book)
          ≡ (if text_eq book.symbol symbol then false else on))
unfolding send
streams-send symbol on m book c = (
  ap (λ b. streams symbol on (if b then sends subscribe_request book ∷ [] else [])) c,
  ap (λ b. streams symbol on (if b then sends unsubscribe_request book ∷ [] else [])) c,
)

pub synced_if :
    (b : Bool) (on : Bool) (x : ℕ × Subscription) (o : Option (ℕ × Subscription))
    → on ≡ is_some o
    → ((if b then true else on) ≡ is_some (if b then some x else o))
      × ((if b then false else on) ≡ is_some (if b then none else o))
synced_if true on x o e = (refl, refl)
synced_if false on x o e = (e, e)

pub note_mismatches_keeps :
    (m : Manager) (os : List Output)
    → ((note_mismatches m os).connected ≡ m.connected)
      × ((note_mismatches m os).subscriptions ≡ m.subscriptions)
unfolding note_mismatches request_resubscribe
note_mismatches_keeps m [] = (refl, refl)
note_mismatches_keeps m (received n x ∷ os) = note_mismatches_keeps m os
note_mismatches_keeps m (gapped n g ∷ os) = note_mismatches_keeps m os
note_mismatches_keeps m (timed t ∷ os) = note_mismatches_keeps m os
note_mismatches_keeps m (mismatched s ∷ os) =
    let (c, l) = note_mismatches_keeps (request_resubscribe m s) os in
    let (d, k) = queued (any_of (λ t. text_eq t s) m.pending_resubscribes) in (c ∙ d, l ∙ k)
  where
    queued :
        (b : Bool)
        → ((if b
              then m
              else record m { pending_resubscribes = m.pending_resubscribes ++ s ∷ [] }).connected
            ≡ m.connected)
          × ((if b then m else record m {
            pending_resubscribes = m.pending_resubscribes ++ s ∷ [];
          }).subscriptions
              ≡ m.subscriptions)
    queued true = (refl, refl)
    queued false = (refl, refl)

pub refresh_keeps :
    (m : Manager) (now : ℕ) (answer : Fetched (List Text))
    → ((refresh_pairs m now answer).0.connected ≡ m.connected)
      × ((refresh_pairs m now answer).0.subscriptions ≡ m.subscriptions)
unfolding refresh_pairs call_venue
refresh_keeps m now (fetched symbols) = (refl, refl)
refresh_keeps m now unlisted = (refl, refl)
refresh_keeps m now unreachable = (refl, refl)

pub list_pairs_keeps :
    (m : Manager) (now : ℕ) (answer : Fetched (List Text))
    → ((list_pairs m now answer).0.connected ≡ m.connected)
      × ((list_pairs m now answer).0.subscriptions ≡ m.subscriptions)
unfolding list_pairs
list_pairs_keeps m now answer = elim (Bool-cases (is_empty m.known_pairs)) [
  | inl y ↦ rw (list_pairs, y) (refresh_keeps m now answer)
  | inr n ↦ elim (Bool-cases (leb pairs_lifetime (now - m.pairs_fetched_at))) [
    | inl y ↦ rw (list_pairs, n, y) (refresh_keeps m now answer)
    | inr k ↦ rw (list_pairs, n, k) (refl, refl)
  ]
]
