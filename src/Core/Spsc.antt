-- ===== src/Core/Spsc.antt =====
-- data_feed/core/spsc.h: pushing to a bounded queue between two threads, and draining it.
-- The queue is Boost's: an interface of the calls that the code makes, and what they do to the
-- elements that it holds, first in, first out. The producer's thread acts between two turns of the
-- consumer's loop, as the scheduler has it.
pub mod Ends
pub mod Order
pub mod Tests
use strategy_nodes.Common.{
  ℕ, zero, suc, ◌≡◌, Bool, true, false, not, ◌||◌, Option, none, some, List, [], ◌∷◌, ◌++◌, ltb,
  Result, ok, err, if◌then◌else◌, length,
}

-- What `consume_one` takes from these elements.
unfoldable pub uncons : {A : Type 0} → List A → Option (A × List A)
uncons [] = none
uncons (a ∷ rest) = some (a, rest)

-- An element taken, and the elements of the queue after it.
unfoldable pub held : {Q A : Type 0} → (Q → List A) → Option (A × Q) → Option (A × List A)
held contents none = none
held contents (some (a, q)) = some (a, contents q)

-- `push` gives no queue where it returns false, and `consume_one` nothing where it does.
pub record SpscQueue (Q A : Type 0) : Type 0 where
  pub contents : Q → List A
  pub push : Q → A → Option Q
  pub consume_one : Q → Option (A × Q)
  pub read_available : Q → ℕ
  pub push-contents :
      (q : Q) (a : A) (r : Q) → push q a ≡ some r → contents r ≡ contents q ++ (a ∷ [])
  pub consume_one-contents : (q : Q) → held contents (consume_one q) ≡ uncons (contents q)
  pub read_available-contents : (q : Q) → read_available q ≡ length (contents q)

-- How a loop stands: it has ended, by itself or by an exception, or it goes on.
pub data Drained (E S Q : Type 0) : Type 0 where
  drained : S → Q → Drained E S Q
  failed : E → S → Drained E S Q
  waiting : S → Q → Drained E S Q

-- One turn of the loop.
pub data Turned (E S Q : Type 0) : Type 0 where
  left : Turned E S Q
  went : S → Q → Turned E S Q
  threw : E → Turned E S Q

-- What a turn sees: what the producer tried to push since the one before, and the stop flag.
pub record Turn (A : Type 0) : Type 0 where
  pub pushes : List A
  pub stop_requested : Bool

-- An attempt to push, as it finds the queue and then the flag.
pub record Attempt (Q : Type 0) : Type 0 where
  pub queue : Q
  pub give_up : Bool

pub data Pushed (Q : Type 0) : Type 0 where
  pushed : Q → Pushed Q
  gave_up : Pushed Q
  blocked : Pushed Q

unfoldable pub push_or : {Q : Type 0} → Option Q → Q → Q
push_or none q = q
push_or (some r) q = r

unfoldable pub attempt : {Q : Type 0} → Option Q → Bool → Pushed Q → Pushed Q
attempt (some r) give_up later = pushed r
attempt none true later = gave_up
attempt none false later = later

module _ {Q A : Type 0} (queue : SpscQueue Q A) where
  unfoldable pub arrive : Q → List A → Q
  arrive q [] = q
  arrive q (a ∷ rest) = arrive (push_or (queue.push q a) q) rest

  unfoldable pub push_blocking : A → List (Attempt Q) → Pushed Q
  push_blocking a [] = blocked
  push_blocking a (t ∷ ts) = attempt (queue.push t.queue a) t.give_up (push_blocking a ts)

-- `consume_one` with the consumer, which may throw.
unfoldable pub consumed : {E S Q : Type 0} → Result E S → Q → Turned E S Q
consumed (ok t) q = went t q
consumed (err e) q = threw e

unfoldable pub take :
    {E S Q A : Type 0} → (S → A → Result E S) → S → Q → Option (A × Q) → Turned E S Q
take consume s q none = went s q
take consume s q (some (a, r)) = consumed (consume s a) r

module _ {E S Q A : Type 0} (queue : SpscQueue Q A) where
  unfoldable pub turn : (S → A → Result E S) → S → Q → Bool → Turned E S Q
  turn consume s q stop_requested =
      if not stop_requested || ltb 0 (queue.read_available q)
      then take consume s q (queue.consume_one q)
      else left

  -- The state of a call that throws is the one after the elements before.
  unfoldable pub drain : (S → A → Result E S) → S → Q → List (Turn A) → Drained E S Q
  drain consume s q [] = waiting s q
  drain consume s q (t ∷ ts) =
      let r = arrive queue q t.pushes in
      elim (turn consume s r t.stop_requested) [
        | left ↦ drained s r
        | went u r' ↦ drain consume u r' ts
        | threw e ↦ failed e s
      ]
