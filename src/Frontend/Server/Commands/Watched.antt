-- ===== src/Frontend/Server/Commands/Watched.antt =====
-- A client watches one subscription at a time, whatever it and the others do.
use strategy_nodes.Common.{
  ℕ, refl, not, ◌&&◌, inl, inr, List, [], ◌∷◌, Text, All, ◌==◌, Bool-cases, Option-cases,
}
use strategy_nodes.SortedMap.{find, contains, insert_or_assign, try_emplace}
use strategy_nodes.SortedMap.Orders.{ℕ_less}
use strategy_nodes.SortedMap.Laws.{IsSorted, insert_or_assign-IsSorted, erase-IsSorted}
use strategy_nodes.Core.Receiver.{Gap}
use strategy_nodes.L2.Message.{Message, BookSpec, PairPrecision}
use strategy_nodes.Venue.Ids.{sink_of, sink_number, live}
use strategy_nodes.Venue.Router.{ManagerApi, Router}
use strategy_nodes.Frontend.Wire.{Event}
use strategy_nodes.Frontend.Stream
use strategy_nodes.Frontend.Stream.{Stream}
use strategy_nodes.Frontend.Outbox
use strategy_nodes.Frontend.Outbox.{Outbox, TransmitterError}
use strategy_nodes.Frontend.Server
use strategy_nodes.Frontend.Server.{replace}
use strategy_nodes.Frontend.Server.Commands.{
  Step, watch_command, unwatch_command, watches_other, unwatches_other, builds, destroys, receives,
  gaps, IsLegal, after_build, WatchesOnly, step, run, step_only,
}

module _ {B S W : Type 0} (encode : Event → B) (api : ManagerApi S W) where
  put-IsSorted :
      (o : Outbox B) (id : ℕ) (s : Stream B)
      → IsSorted ℕ_less o
      → IsSorted ℕ_less (insert_or_assign ℕ_less id s o)
  put-IsSorted o id s h = insert_or_assign-IsSorted ℕ_less id s o h

  unwatch-IsSorted :
      (o : Outbox B) (id v : ℕ) → IsSorted ℕ_less o → IsSorted ℕ_less (Outbox.unwatch o id v)
  unfolding Outbox.unwatch
  unwatch-IsSorted o id v h = elim (Option-cases (find ℕ_less id o)) [
    | inl e ↦ rw (Outbox.unwatch, e) h
    | inr (s, e) ↦ rw (Outbox.unwatch, e) (put-IsSorted o id (Stream.unwatch s v).0 h)
  ]

  watch-IsSorted :
      (o : Outbox B) (id v : ℕ) → IsSorted ℕ_less o → IsSorted ℕ_less (Outbox.watch encode o id v).0
  unfolding Outbox.watch
  watch-IsSorted o id v h = elim (Option-cases (find ℕ_less id o)) [
    | inl e ↦ rw (Outbox.watch, e) h
    | inr (s, e) ↦ rw (Outbox.watch, e) (put-IsSorted o id (Stream.watch encode s v).0 h)
  ]

  build-IsSorted :
      (o : Outbox B) (id : ℕ) (venue : Text) (spec : BookSpec) (precision : PairPrecision)
      → IsSorted ℕ_less o
      → IsSorted ℕ_less (after_build o (Outbox.make_transmitter encode o id venue spec precision))
  unfolding Outbox.make_transmitter Outbox.enroll try_emplace
  build-IsSorted o id venue spec precision h = elim (Bool-cases (sink_of id == sink_number live)) [
    | inr n ↦ rw (Outbox.make_transmitter, n) h
    | inl y ↦
        rw (Outbox.make_transmitter, y)
          (elim (Bool-cases (contains ℕ_less id o)) [
            | inl taken ↦ rw (Outbox.enroll, try_emplace, taken) h
            | inr free ↦
                rw (Outbox.enroll, try_emplace, free)
                  (put-IsSorted o id (Stream.make_stream encode id venue spec precision) h)
          ])
  ]

  receive-IsSorted :
      (o : Outbox B) (id : ℕ) (m : Message)
      → IsSorted ℕ_less o
      → IsSorted ℕ_less (Outbox.receive encode o id m).0
  unfolding Outbox.receive
  receive-IsSorted o id m h = elim (Option-cases (find ℕ_less id o)) [
    | inl e ↦ rw (Outbox.receive, e) h
    | inr (s, e) ↦ rw (Outbox.receive, e) (put-IsSorted o id (Stream.receive encode s m).0 h)
  ]

  gap-IsSorted :
      (o : Outbox B) (id : ℕ) (gap : Gap)
      → IsSorted ℕ_less o
      → IsSorted ℕ_less (Outbox.on_gap o id gap).0
  unfolding Outbox.on_gap
  gap-IsSorted o id gap h = elim (Option-cases (find ℕ_less id o)) [
    | inl e ↦ rw (Outbox.on_gap, e) h
    | inr (s, e) ↦ rw (Outbox.on_gap, e) (put-IsSorted o id (Stream.interrupt s gap).0 h)
  ]

  replace-IsSorted :
      (o : Outbox B) (w watched id : ℕ)
      → IsSorted ℕ_less o
      → IsSorted ℕ_less (replace o w watched id)
  unfolding replace
  replace-IsSorted o w watched id h =
      elim (Bool-cases (not (watched == 0) && not (watched == id))) [
        | inl y ↦ rw (replace, y) (unwatch-IsSorted o watched w h)
        | inr n ↦ rw (replace, n) h
      ]

  command-IsSorted :
      (r : Router S) (o : Outbox B) (w watched id : ℕ)
      → IsSorted ℕ_less o
      → IsSorted ℕ_less (Server.watch encode api r o w watched id).0
  unfolding Server.watch
  command-IsSorted r o w watched id h = elim (Bool-cases (Outbox.watch encode o id w).1) [
    | inl y ↦
        rw (Server.watch, y)
          (replace-IsSorted (Outbox.watch encode o id w).0 w watched id (watch-IsSorted o id w h))
    | inr n ↦ rw (Server.watch, n) (watch-IsSorted o id w h)
  ]

  unwatch_command-IsSorted :
      (o : Outbox B) (w watched : ℕ)
      → IsSorted ℕ_less o
      → IsSorted ℕ_less (Server.unwatch o w watched).0
  unfolding Server.unwatch
  unwatch_command-IsSorted o w watched h = elim (Bool-cases (watched == 0)) [
    | inl y ↦ rw (Server.unwatch, y) h
    | inr n ↦ rw (Server.unwatch, n) (unwatch-IsSorted o watched w h)
  ]

  step-IsSorted :
      (w : ℕ) (o : Outbox B) (watched : ℕ) (st : Step S)
      → IsSorted ℕ_less o
      → IsSorted ℕ_less (step encode api w (o, watched) st).0
  unfolding step Outbox.unregister
  step-IsSorted w o watched (watch_command r id) h = command-IsSorted r o w watched id h
  step-IsSorted w o watched unwatch_command h = unwatch_command-IsSorted o w watched h
  step-IsSorted w o watched (watches_other v id) h = watch-IsSorted o id v h
  step-IsSorted w o watched (unwatches_other v id) h = unwatch-IsSorted o id v h
  step-IsSorted w o watched (builds id venue spec precision) h =
      build-IsSorted o id venue spec precision h
  step-IsSorted w o watched (destroys id) h = erase-IsSorted ℕ_less id o h
  step-IsSorted w o watched (receives id m) h = receive-IsSorted o id m h
  step-IsSorted w o watched (gaps id gap) h = gap-IsSorted o id gap h

  run_only :
      (w : ℕ) (state : Outbox B × ℕ) (sts : List (Step S))
      → All (IsLegal w) sts
      → IsSorted ℕ_less state.0
      → WatchesOnly w state
      → WatchesOnly w (run encode api w state sts)
  unfolding run
  run_only w state [] legal sorted only = only
  run_only w (o, watched) (st ∷ sts) (l, legal) sorted only =
      run_only w (step encode api w (o, watched) st) sts legal (step-IsSorted w o watched st sorted)
        (step_only encode api w o watched st l sorted only)

  -- From a server without streams, whatever a client commands and whatever the other clients, the
  -- transmitters and the parsers do in between, the client is among the watchers of no stream but
  -- the one that its session names, where the other clients are others and it never names the
  -- subscription 0.
  pub watches_one :
      (w : ℕ) (sts : List (Step S))
      → All (IsLegal w) sts
      → WatchesOnly w (run encode api w ([], 0) sts)
  unfolding find
  watches_one w sts legal = run_only w ([], 0) sts legal tt (λ k h. refl)
