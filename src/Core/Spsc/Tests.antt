-- ===== src/Core/Spsc/Tests.antt =====
-- data_feed/core/spsc.h: a queue of two slots, pushed to and drained.
use strategy_nodes.Common.{
  ℕ, ◌≡◌, refl, Bool, true, false, Option, none, some, List, [], ◌∷◌, ◌++◌, ltb, ◌==◌, Result, ok,
  err, if◌then◌else◌, length, arith,
}
use strategy_nodes.Core.Spsc.{
  push_or, drained, Turn, uncons, held, SpscQueue, failed, attempt, arrive, push_blocking, pushed,
  consumed, take, turn, drain,
}
use strategy_nodes.Core.Spsc.Order.{all_accepted, drained_all}
use strategy_nodes.Core.Spsc.Ends.{stopped_turns, shown, consume_all, drain_ends}

abbrev push_two : List ℕ → ℕ → Option (List ℕ)
push_two q a = if ltb (length q) 2 then some (q ++ (a ∷ [])) else none

abbrev consume_first : List ℕ → Option (ℕ × List ℕ)
consume_first [] = none
consume_first (a ∷ rest) = some (a, rest)

push_two_contents : (q : List ℕ) (a : ℕ) (r : List ℕ) → push_two q a ≡ some r → r ≡ q ++ (a ∷ [])
push_two_contents q a r h = at (ltb (length q) 2) h
  where
    at : (b : Bool) → (if b then some (q ++ (a ∷ [])) else none) ≡ some r → r ≡ q ++ (a ∷ [])
    at true e = cc
    at false e = cc

consume_first_contents : (q : List ℕ) → held (λ (c : List ℕ). c) (consume_first q) ≡ uncons q
unfolding held uncons
consume_first_contents [] = refl
consume_first_contents (a ∷ rest) = refl

abbrev two_slots : SpscQueue (List ℕ) ℕ
two_slots = record {
  contents = λ q. q;
  push = push_two;
  consume_one = consume_first;
  read_available = length;
  push-contents = push_two_contents;
  consume_one-contents = consume_first_contents;
  read_available-contents = λ q. refl;
}

-- A consumer that keeps what it is handed, and throws on 0.
abbrev keep : List ℕ → ℕ → Result ℕ (List ℕ)
keep s a = if a == 0 then err 0 else ok (a ∷ s)

drain_ends_example :
    shown two_slots keep (drain two_slots keep [] (5 ∷ 3 ∷ []) (stopped_turns 3))
    ≡ consume_all two_slots keep [] (5 ∷ 3 ∷ [])
drain_ends_example = drain_ends two_slots keep 3 [] (5 ∷ 3 ∷ []) (omega arith)

drain_fails : drain two_slots keep [] (5 ∷ 0 ∷ []) (stopped_turns 3) ≡ failed 0 (5 ∷ [])
unfolding drain arrive turn take consumed
drain_fails = refl

blocked_until_freed :
    push_blocking two_slots 7 (
      record { queue = 1 ∷ 2 ∷ []; give_up = false }
      ∷ record { queue = 2 ∷ []; give_up = false }
      ∷ [])
    ≡ pushed (2 ∷ 7 ∷ [])
unfolding push_blocking attempt
blocked_until_freed = refl

-- Three elements come while the loop runs; the queue has no room for the second.
abbrev turns : List (Turn ℕ)
turns =
    record { pushes = 3 ∷ 9 ∷ []; stop_requested = false }
    ∷ record { pushes = 7 ∷ []; stop_requested = true }
    ∷ stopped_turns 2

drained_all_example :
    (two_slots.contents [] ≡ [])
    × (consume_all two_slots keep [] ((5 ∷ []) ++ all_accepted two_slots keep [] (5 ∷ []) turns)
        ≡ drained (7 ∷ 3 ∷ 5 ∷ []) [])
unfolding drain arrive turn take consumed push_or
drained_all_example = drained_all two_slots keep turns [] (7 ∷ 3 ∷ 5 ∷ []) (5 ∷ []) [] refl
