-- ===== src/Frontend/Server/Commands.antt =====
-- What a client's commands, and the others', do to the streams that it watches.
pub mod Watched
pub mod Tests
use strategy_nodes.Common.{
  ℕ, ◌≡◌, refl, ap, sym, subst, ◌∙◌, Bool, true, false, not, ◌&&◌, inl, inr, Option, none, some,
  List, [], ◌∷◌, Text, All, ok, err, Result, ◌==◌, ==→eq, ==_self, if◌then◌else◌, Bool-cases,
  Option-cases, arith,
}
use strategy_nodes.SortedMap.{find, contains, insert_or_assign, try_emplace}
use strategy_nodes.SortedMap.Orders.{ℕ_less}
use strategy_nodes.SortedMap.Laws.{IsSorted, insert_or_assign-IsSorted, erase-IsSorted}
use strategy_nodes.Core.Receiver.{Gap}
use strategy_nodes.L2.Message.{Message, BookSpec, PairPrecision}
use strategy_nodes.Venue.Ids.{sink_of, sink_number, live}
use strategy_nodes.Venue.Router.{ManagerApi, Router}
use strategy_nodes.Frontend.Wire.{Event, Outcome}
use strategy_nodes.Frontend.Stream
use strategy_nodes.Frontend.Stream.{Stream}
use strategy_nodes.Frontend.Outbox
use strategy_nodes.Frontend.Outbox.{Outbox, TransmitterError}
use strategy_nodes.Frontend.Outbox.One.{
  watches, watches-put, watches-unwatch, watches-unwatch_other, watches-on_gap, watches-unregister,
  watches-receive, watches-watch_other, put_elsewhere, put_unwatched,
}
use strategy_nodes.Frontend.Server
use strategy_nodes.Frontend.Server.{replace}

-- The client's commands, and what others do to the streams.
pub data Step (S : Type 0) : Type 0 where
  watch_command : Router S → ℕ → Step S
  unwatch_command : Step S
  watches_other : ℕ → ℕ → Step S
  unwatches_other : ℕ → ℕ → Step S
  builds : ℕ → Text → BookSpec → PairPrecision → Step S
  destroys : ℕ → Step S
  receives : ℕ → Message → Step S
  gaps : ℕ → Gap → Step S

module _ {S : Type 0} where
  -- The other clients are others, and no client names the subscription 0, which never exists.
  abbrev pub IsLegal : ℕ → Step S → Type 0
  IsLegal w (watch_command r id) = (id == 0) ≡ false
  IsLegal w unwatch_command = Unit {0}
  IsLegal w (watches_other v id) = (v == w) ≡ false
  IsLegal w (unwatches_other v id) = (v == w) ≡ false
  IsLegal w (builds id venue spec precision) = Unit {0}
  IsLegal w (destroys id) = Unit {0}
  IsLegal w (receives id m) = Unit {0}
  IsLegal w (gaps id gap) = Unit {0}

module _ {B : Type 0} where
  -- A Transmitter that cannot be built changes nothing.
  abbrev pub after_build : Outbox B → Result TransmitterError (Outbox B) → Outbox B
  after_build o (ok o') = o'
  after_build o (err e) = o

  -- The client watches no stream but the one that its session names.
  abbrev pub WatchesOnly : ℕ → Outbox B × ℕ → Type 0
  WatchesOnly w (o, watched) =
      (k : ℕ) → ((watched == k) && not (k == 0)) ≡ false → watches w k o ≡ false

module _ {B S W : Type 0} (encode : Event → B) (api : ManagerApi S W) where
  unfoldable pub step : ℕ → Outbox B × ℕ → Step S → Outbox B × ℕ
  step w (o, watched) (watch_command r id) =
      let (o', watched', sent, result) = Server.watch encode api r o w watched id in (o', watched')
  step w (o, watched) unwatch_command = Server.unwatch o w watched
  step w (o, watched) (watches_other v id) = ((Outbox.watch encode o id v).0, watched)
  step w (o, watched) (unwatches_other v id) = (Outbox.unwatch o id v, watched)
  step w (o, watched) (builds id venue spec precision) =
      (after_build o (Outbox.make_transmitter encode o id venue spec precision), watched)
  step w (o, watched) (destroys id) = (Outbox.unregister o id, watched)
  step w (o, watched) (receives id m) = ((Outbox.receive encode o id m).0, watched)
  step w (o, watched) (gaps id gap) = ((Outbox.on_gap o id gap).0, watched)

  unfoldable pub run : ℕ → Outbox B × ℕ → List (Step S) → Outbox B × ℕ
  run w state [] = state
  run w state (st ∷ sts) = run w (step w state st) sts

  replaced :
      (w watched id k : ℕ) (o o' : Outbox B)
      → (id == 0) ≡ false
      → ((id == k) && not (k == 0)) ≡ false
      → WatchesOnly w (o, watched)
      → watches w k o' ≡ watches w k o
      → watches w k (replace o' w watched id) ≡ false
  unfolding replace
  replaced w watched id k o o' nonzero elsewhere only e =
      elim (Bool-cases (not (watched == 0) && not (watched == id))) [
        | inl y ↦
            rw (replace, y)
              (watches-unwatch w k watched o' ∙ elim (Bool-cases (watched == k)) [
                | inl here ↦ rw here refl
                | inr away ↦ rw away (e ∙ only k (ground arith))
              ])
        | inr n ↦ rw (replace, n) (e ∙ only k (ground arith))
      ]

  apart : (a b : Bool) → (a && not b) ≡ false → (a ≡ true → b ≡ false) → a ≡ false
  apart true b e f = let nonzero = f refl in ground arith
  apart false b e f = refl

  differ : (id k : ℕ) → (id == k) ≡ true → (id == 0) ≡ false → (k == 0) ≡ false
  differ id k here nonzero = ground arith

  watch_only :
      (w watched id : ℕ) (r : Router S) (o : Outbox B)
      → (id == 0) ≡ false
      → WatchesOnly w (o, watched)
      → WatchesOnly w (step w (o, watched) (watch_command r id))
  unfolding step Server.watch Outbox.watch
  watch_only w watched id r o nonzero only = elim (Option-cases (find ℕ_less id o)) [
    | inl e ↦ rw (step, Server.watch, Outbox.watch, e) only
    | inr (s, e) ↦
        rw (step, Server.watch, Outbox.watch, e)
          (λ k elsewhere.
            replaced w watched id k o (insert_or_assign ℕ_less id (Stream.watch encode s w).0 o)
              nonzero elsewhere only
              (put_elsewhere w k id (Stream.watch encode s w).0 o
                (apart (id == k) (k == 0) elsewhere (λ here. differ id k here nonzero))))
  ]

  unwatch_only :
      (w watched : ℕ) (o : Outbox B)
      → WatchesOnly w (o, watched)
      → WatchesOnly w (Server.unwatch o w watched)
  unfolding Server.unwatch
  unwatch_only w watched o only = elim (Bool-cases (watched == 0)) [
    | inl y ↦ rw (Server.unwatch, y) only
    | inr n ↦
        rw (Server.unwatch, n)
          (λ k _. watches-unwatch w k watched o ∙ elim (Bool-cases (watched == k)) [
            | inl here ↦ rw here refl
            | inr away ↦ rw away (only k (ground arith))
          ])
  ]

  build_only :
      (w k id : ℕ) (venue : Text) (spec : BookSpec) (precision : PairPrecision) (o : Outbox B)
      → watches w k o ≡ false
      → watches w k (after_build o (Outbox.make_transmitter encode o id venue spec precision))
        ≡ false
  unfolding Outbox.make_transmitter Outbox.enroll try_emplace Stream.make_stream
  build_only w k id venue spec precision o h = elim (Bool-cases (sink_of id == sink_number live)) [
    | inr n ↦ rw (Outbox.make_transmitter, n) h
    | inl y ↦
        rw (Outbox.make_transmitter, y)
          (elim (Bool-cases (contains ℕ_less id o)) [
            | inl taken ↦ rw (Outbox.enroll, try_emplace, taken) h
            | inr free ↦
                rw (Outbox.enroll, try_emplace, free)
                  (put_unwatched w k id (Stream.make_stream encode id venue spec precision) o refl
                    h)
          ])
  ]

  step_only :
      (w : ℕ) (o : Outbox B) (watched : ℕ) (st : Step S)
      → IsLegal w st
      → IsSorted ℕ_less o
      → WatchesOnly w (o, watched)
      → WatchesOnly w (step w (o, watched) st)
  unfolding step
  step_only w o watched (watch_command r id) legal sorted only =
      watch_only w watched id r o legal only
  step_only w o watched unwatch_command legal sorted only = unwatch_only w watched o only
  step_only w o watched (watches_other v id) legal sorted only =
      λ k h. watches-watch_other encode w v k id o legal ∙ only k h
  step_only w o watched (unwatches_other v id) legal sorted only =
      λ k h. watches-unwatch_other w v k id o legal ∙ only k h
  step_only w o watched (builds id venue spec precision) legal sorted only =
      λ k h. build_only w k id venue spec precision o (only k h)
  step_only w o watched (destroys id) legal sorted only = λ k h.
      watches-unregister w k id o sorted
      ∙ elim (Bool-cases (id == k)) [ inl y ↦ rw y refl | inr n ↦ rw n (only k h) ]
  step_only w o watched (receives id m) legal sorted only =
      λ k h. watches-receive encode w k id m o ∙ only k h
  step_only w o watched (gaps id gap) legal sorted only =
      λ k h. watches-on_gap w k id gap o ∙ only k h
