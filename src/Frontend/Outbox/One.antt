-- ===== src/Frontend/Outbox/One.antt =====
-- Which streams a client watches, after each operation on the streams.
use strategy_nodes.Common.{
  ℕ, ◌≡◌, refl, ap, sym, subst, ◌∙◌, Bool, false, inl, inr, Option, none, some, List, [], ◌∷◌, ◌++◌,
  any_of, ◌==◌, ==→eq, if◌then◌else◌, Bool-cases, Option-cases, arith,
}
use strategy_nodes.SortedMap.{same, find, insert_or_assign}
use strategy_nodes.SortedMap.Orders.{ℕ_less}
use strategy_nodes.SortedMap.Laws.{IsSorted, find-insert_or_assign, find-erase}
use strategy_nodes.Core.Receiver.{Gap}
use strategy_nodes.L2.Message.{Message, MessageType, update, snapshot}
use strategy_nodes.Frontend.Wire.{Event}
use strategy_nodes.Frontend.Stream
use strategy_nodes.Frontend.Stream.{Stream, without, note_snapshot}
use strategy_nodes.Frontend.Outbox
use strategy_nodes.Frontend.Outbox.{Outbox}

abbrev pub member : ℕ → List ℕ → Bool
member w watchers = any_of (λ x. x == w) watchers

module _ {B : Type 0} where
  abbrev pub stream_watched : ℕ → Option (Stream B) → Bool
  stream_watched w none = false
  stream_watched w (some s) = member w s.watchers

  -- Whether a client watches the stream of an id.
  abbrev pub watches : ℕ → ℕ → Outbox B → Bool
  watches w id o = stream_watched w (find ℕ_less id o)

member-without : (w : ℕ) (ws : List ℕ) → member w (without w ws) ≡ false
unfolding without
member-without w [] = refl
member-without w (x ∷ ws) = ground (arith, member-without w ws)

member-without_other :
    (w v : ℕ) (ws : List ℕ) → (v == w) ≡ false → member w (without v ws) ≡ member w ws
unfolding without
member-without_other w v [] n = refl
member-without_other w v (x ∷ ws) n = ground (arith, member-without_other w v ws n)

member_snoc_other :
    (w v : ℕ) (ws : List ℕ) → (v == w) ≡ false → member w (ws ++ v ∷ []) ≡ member w ws
member_snoc_other w v [] n = ground arith
member_snoc_other w v (x ∷ ws) n = ground (arith, member_snoc_other w v ws n)

same_ids : (j k : ℕ) → same ℕ_less j k ≡ (j == k)
same_ids j k = ground arith

module _ {B : Type 0} where
  -- A stream put under an id.
  pub watches-put :
      (w k id : ℕ) (s : Stream B) (o : Outbox B)
      → watches w k (insert_or_assign ℕ_less id s o)
        ≡ (if id == k then member w s.watchers else watches w k o)
  watches-put w k id s o =
      ap (stream_watched w) (find-insert_or_assign ℕ_less id k s o)
      ∙ ap (λ b. stream_watched w (if b then some s else find ℕ_less k o)) (same_ids id k)
      ∙ ground arith

  pub put_elsewhere :
      (w k id : ℕ) (s : Stream B) (o : Outbox B)
      → (id == k) ≡ false
      → watches w k (insert_or_assign ℕ_less id s o) ≡ watches w k o
  put_elsewhere w k id s o n =
      watches-put w k id s o ∙ ap (λ b. if b then member w s.watchers else watches w k o) n

  -- A new stream, which nobody watches.
  pub put_unwatched :
      (w k id : ℕ) (s : Stream B) (o : Outbox B)
      → member w s.watchers ≡ false
      → watches w k o ≡ false
      → watches w k (insert_or_assign ℕ_less id s o) ≡ false
  put_unwatched w k id s o new h = elim (Bool-cases (id == k)) [
    | inl y ↦
        watches-put w k id s o ∙ ap (λ b. if b then member w s.watchers else watches w k o) y ∙ new
    | inr n ↦ put_elsewhere w k id s o n ∙ h
  ]

  -- A stream put in the place of one that the client watches as it watches this one.
  put_keeps :
      (w k id : ℕ) (old s : Stream B) (o : Outbox B)
      → find ℕ_less id o ≡ some old
      → member w s.watchers ≡ member w old.watchers
      → watches w k (insert_or_assign ℕ_less id s o) ≡ watches w k o
  put_keeps w k id old s o e h = elim (Bool-cases (id == k)) [
    | inl y ↦
        watches-put w k id s o
        ∙ ap (λ b. if b then member w s.watchers else watches w k o) y
        ∙ h
        ∙ sym (ap (stream_watched w) (subst (λ j. find ℕ_less j o ≡ some old) (==→eq id k y) e))
    | inr n ↦ watches-put w k id s o ∙ ap (λ b. if b then member w s.watchers else watches w k o) n
  ]

  note_snapshot-watchers :
      (t : MessageType) (s : Stream B) → (note_snapshot t s).0.watchers ≡ s.watchers
  unfolding note_snapshot
  note_snapshot-watchers update s = refl
  note_snapshot-watchers snapshot s = refl

  pub watches-unwatch :
      (w k id : ℕ) (o : Outbox B)
      → watches w k (Outbox.unwatch o id w) ≡ (if id == k then false else watches w k o)
  unfolding Outbox.unwatch Stream.unwatch
  watches-unwatch w k id o = elim (Option-cases (find ℕ_less id o)) [
    | inl e ↦
        rw (Outbox.unwatch, e)
          (elim (Bool-cases (id == k)) [
            | inl y ↦
                rw y (ap (stream_watched w) (subst (λ j. find ℕ_less j o ≡ none) (==→eq id k y) e))
            | inr n ↦ rw n refl
          ])
    | inr (s, e) ↦
        rw (Outbox.unwatch, e)
          (watches-put w k id (record s { watchers = without w s.watchers }) o
            ∙ ap (λ b. if id == k then b else watches w k o) (member-without w s.watchers))
  ]

  pub watches-unwatch_other :
      (w v k id : ℕ) (o : Outbox B)
      → (v == w) ≡ false
      → watches w k (Outbox.unwatch o id v) ≡ watches w k o
  unfolding Outbox.unwatch Stream.unwatch
  watches-unwatch_other w v k id o n = elim (Option-cases (find ℕ_less id o)) [
    | inl e ↦ rw (Outbox.unwatch, e) refl
    | inr (s, e) ↦
        rw (Outbox.unwatch, e)
          (put_keeps w k id s (record s { watchers = without v s.watchers }) o e
            (member-without_other w v s.watchers n))
  ]

  pub watches-on_gap :
      (w k id : ℕ) (gap : Gap) (o : Outbox B)
      → watches w k (Outbox.on_gap o id gap).0 ≡ watches w k o
  unfolding Outbox.on_gap Stream.interrupt
  watches-on_gap w k id gap o = elim (Option-cases (find ℕ_less id o)) [
    | inl e ↦ rw (Outbox.on_gap, e) refl
    | inr (s, e) ↦ rw (Outbox.on_gap, e) (put_keeps w k id s (Stream.interrupt s gap).0 o e refl)
  ]

  pub watches-unregister :
      (w k id : ℕ) (o : Outbox B)
      → IsSorted ℕ_less o
      → watches w k (Outbox.unregister o id) ≡ (if id == k then false else watches w k o)
  unfolding Outbox.unregister
  watches-unregister w k id o h =
      ap (stream_watched w) (find-erase ℕ_less id k o h)
      ∙ ap (λ b. stream_watched w (if b then none else find ℕ_less k o)) (same_ids id k)
      ∙ ground arith

module _ {B : Type 0} (encode : Event → B) where
  pub watches-receive :
      (w k id : ℕ) (m : Message) (o : Outbox B)
      → watches w k (Outbox.receive encode o id m).0 ≡ watches w k o
  unfolding Outbox.receive Stream.receive
  watches-receive w k id m o = elim (Option-cases (find ℕ_less id o)) [
    | inl e ↦ rw (Outbox.receive, e) refl
    | inr (s, e) ↦
        rw (Outbox.receive, e)
          (put_keeps w k id s (Stream.receive encode s m).0 o e
            (ap (member w) (note_snapshot-watchers m.type s)))
  ]

  pub watches-watch_other :
      (w v k id : ℕ) (o : Outbox B)
      → (v == w) ≡ false
      → watches w k (Outbox.watch encode o id v).0 ≡ watches w k o
  unfolding Outbox.watch Stream.watch
  watches-watch_other w v k id o n = elim (Option-cases (find ℕ_less id o)) [
    | inl e ↦ rw (Outbox.watch, e) refl
    | inr (s, e) ↦
        rw (Outbox.watch, e)
          (put_keeps w k id s (Stream.watch encode s v).0 o e (
            member_snoc_other w v (without v s.watchers) n ∙ member-without_other w v s.watchers n))
  ]

  -- A watch that finds no stream leaves all as it was; one that finds it may change only its stream.
  pub watches-watch_elsewhere :
      (w k id : ℕ) (o : Outbox B)
      → (id == k) ≡ false
      → watches w k (Outbox.watch encode o id w).0 ≡ watches w k o
  unfolding Outbox.watch
  watches-watch_elsewhere w k id o n = elim (Option-cases (find ℕ_less id o)) [
    | inl e ↦ rw (Outbox.watch, e) refl
    | inr (s, e) ↦
        rw (Outbox.watch, e)
          (watches-put w k id (Stream.watch encode s w).0 o
            ∙ ap (λ b. if b then member w (Stream.watch encode s w).0.watchers else watches w k o)
                n)
  ]
