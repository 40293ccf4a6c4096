-- ===== src/Frontend/Stream/Replica.antt =====
-- Every watcher of a stream has the stream's book, whatever calls came in between.
use strategy_nodes.Common.{
  ℕ, ◌<◌, ◌≡◌, refl, ap, sym, subst, ◌∙◌, inl, inr, Text, Option, none, some, List, [], ◌∷◌, ◌==◌,
  if◌then◌else◌, arith, Bool-cases, ==→eq,
}
use strategy_nodes.L2.Message.{BookSpec, PairPrecision}
use strategy_nodes.Frontend.Wire.{Event, field_number_of}
use strategy_nodes.Frontend.Stream.{Stream, make_stream, watch, unwatch}
use strategy_nodes.Frontend.Stream.Client.{
  Client, on_payloads, on_payloads-append, sent_to, sent_to-append, count,
}
use strategy_nodes.Frontend.Stream.Calls.{Call, receives, interrupts, watches, unwatches, step, run}
use strategy_nodes.Frontend.Stream.Invariant.{IsStream, step-IsStream, make_stream-IsStream}
use strategy_nodes.Frontend.Stream.Reading.{Tracks}
use strategy_nodes.Frontend.Stream.Delivery.{note_watchers, receive-Tracks, interrupt-Tracks}
use strategy_nodes.Frontend.Stream.Watching.{watch-Tracks, others_watch, unwatch-Tracks}

module _ {B : Type 0} (encode : Event → B) (decode : ℕ → B → Option Event)
    (decode-encode : (e : Event) → decode (field_number_of e) (encode e) ≡ some e) where
  -- One call keeps a watcher that is up to date up to date.
  step-Tracks :
      (w : ℕ) (s : Stream B) (c : Client) (call : Call)
      → IsStream encode s
      → Tracks encode decode decode-encode w s c
      → Tracks encode decode decode-encode w
          (step encode s call).0
          (on_payloads decode c (sent_to w (step encode s call).1))
  unfolding step
  step-Tracks w s c (receives m) v (inl z) =
      inl (ap (count w) (note_watchers encode decode decode-encode m.type s) ∙ z)
  step-Tracks w s c (receives m) v (inr (n, d, h)) =
      receive-Tracks encode decode decode-encode w s c m v n d h
  step-Tracks w s c (interrupts gap) v (inl z) = inl z
  step-Tracks w s c (interrupts gap) v (inr (n, d, h)) =
      interrupt-Tracks encode decode decode-encode w s c gap v n d
  step-Tracks w s c (watches x) v t = elim (Bool-cases (x == w)) [
    | inl y ↦
        subst
          (λ x.
            Tracks encode decode decode-encode w (watch encode s x).0
              (on_payloads decode c (sent_to w (watch encode s x).1)))
          (sym (==→eq x w y)) (watch-Tracks encode decode decode-encode w s c v)
    | inr n ↦ others_watch encode decode decode-encode w x s c (λ e. ground arith) t
  ]
  step-Tracks w s c (unwatches x) v t =
      unfold unwatch in unwatch-Tracks encode decode decode-encode w x s c t

  pub run-Tracks :
      (w : ℕ) (s : Stream B) (c : Client) (calls : List Call)
      → IsStream encode s
      → Tracks encode decode decode-encode w s c
      → Tracks encode decode decode-encode w
          (run encode s calls).0
          (on_payloads decode c (sent_to w (run encode s calls).1))
  unfolding run
  run-Tracks w s c [] v t = t
  run-Tracks w s c (call ∷ calls) v t =
      rw
        (
          sent_to-append w (step encode s call).1 (run encode (step encode s call).0 calls).1,
          on_payloads-append,
        )
        (run-Tracks w (step encode s call).0 _ calls (step-IsStream encode s call v)
          (step-Tracks w s c call v t))

  -- A client that starts to watch a live subscription at any time, and keeps the book as the wire
  -- contract says, shows the book of the stream after every call of the stream's methods, by any
  -- caller and in any order, for as long as it is watching: all of it once a snapshot was received,
  -- and nothing from a gap until the snapshot that ends it.
  pub replica :
      (w id : ℕ) (venue : Text) (spec : BookSpec) (precision : PairPrecision) (c : Client)
      (calls : List Call)
      → 0 < count w (run encode (make_stream encode id venue spec precision) calls).0.watchers
      → let (s, sent) = run encode (make_stream encode id venue spec precision) calls in
        (on_payloads decode c (sent_to w sent)).shown
        ≡ (if s.has_snapshot then some s.book else none)
  replica w id venue spec precision c calls watching =
      elim (run-Tracks w (make_stream encode id venue spec precision) c calls
        (make_stream-IsStream encode id venue spec precision) (inl (unfold make_stream in refl))) [
          | inl z ↦ absurd (omega arith)
          | inr (_, _, h) ↦ h
        ]
