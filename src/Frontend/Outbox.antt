-- ===== src/Frontend/Outbox.antt =====
-- data_feed/frontend/outbox.h, outbox.cc, transmitter.h and transmitter.cc: the streams of the live
-- subscriptions, by their ids.
-- A Transmitter and the Outbox share one Stream by a pointer. It is registered for the
-- transmitter's whole lifetime, so the map holds it, and a transmitter is its id.
pub mod One
use strategy_nodes.Common.{
  ℕ, Bool, true, false, Option, none, some, List, [], Text, Result, ok, err, ◌==◌, if◌then◌else◌,
}
use strategy_nodes.SortedMap.{SortedMap, find, insert_or_assign, erase, try_emplace}
use strategy_nodes.SortedMap.Orders.{ℕ_less}
use strategy_nodes.Core.Receiver.{Gap}
use strategy_nodes.L2.Message.{Message, BookSpec, PairPrecision}
use strategy_nodes.Venue.Ids.{sink_of, live, sink_number}
use strategy_nodes.Frontend.Wire.{Event}
use strategy_nodes.Frontend.Stream
use strategy_nodes.Frontend.Stream.{Stream, Sends}

abbrev pub Outbox : Type 0 → Type 0
Outbox B = SortedMap ℕ (Stream B)

-- Why a Transmitter is not built: both are a `std::logic_error`.
pub data TransmitterError : Type 0 where
  already_registered : TransmitterError
  not_live : TransmitterError

module _ {B : Type 0} where
  -- `Register`.
  unfoldable pub enroll : Outbox B → ℕ → Stream B → Result TransmitterError (Outbox B)
  enroll o id s = elim (try_emplace ℕ_less id s o) [
    | none ↦ err already_registered
    | some o' ↦ ok o'
  ]

  -- `Unregister`, which the destructor of a Transmitter calls.
  unfoldable pub unregister : Outbox B → ℕ → Outbox B
  unregister o id = erase ℕ_less id o

  unfoldable pub unwatch : Outbox B → ℕ → ℕ → Outbox B
  unwatch o id watcher = elim (find ℕ_less id o) [
    | none ↦ o
    | some s ↦ insert_or_assign ℕ_less id (Stream.unwatch s watcher).0 o
  ]

  -- `Transmitter::OnGap`.
  unfoldable pub on_gap : Outbox B → ℕ → Gap → Outbox B × Sends B
  on_gap o id gap = elim (find ℕ_less id o) [
    | none ↦ (o, [])
    | some s ↦ let (s', sent) = Stream.interrupt s gap in (insert_or_assign ℕ_less id s' o, sent)
  ]

module _ {B : Type 0} (encode : Event → B) where
  -- The constructor of a Transmitter.
  unfoldable pub make_transmitter :
      Outbox B → ℕ → Text → BookSpec → PairPrecision → Result TransmitterError (Outbox B)
  make_transmitter o id venue spec precision =
      if sink_of id == sink_number live
      then enroll o id (Stream.make_stream encode id venue spec precision)
      else err not_live

  -- `Watch`: whether a live subscription has the id.
  unfoldable pub watch : Outbox B → ℕ → ℕ → Outbox B × Bool × Sends B
  watch o id watcher = elim (find ℕ_less id o) [
    | none ↦ (o, false, [])
    | some s ↦
        let (s', sent) = Stream.watch encode s watcher in
        (insert_or_assign ℕ_less id s' o, true, sent)
  ]

  -- `Transmitter::Receive`.
  unfoldable pub receive : Outbox B → ℕ → Message → Outbox B × Sends B
  receive o id message = elim (find ℕ_less id o) [
    | none ↦ (o, [])
    | some s ↦
        let (s', sent) = Stream.receive encode s message in (insert_or_assign ℕ_less id s' o, sent)
  ]
