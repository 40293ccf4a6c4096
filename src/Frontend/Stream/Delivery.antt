-- ===== src/Frontend/Stream/Delivery.antt =====
-- Messages and gaps reach a watcher that is up to date and keep it so.
use strategy_nodes.Common.{
  ℕ, ◌≡◌, refl, ap, sym, subst, ◌∙◌, inl, inr, Option, none, some, List, [], ◌∷◌, if◌then◌else◌,
  is_empty, arith, Bool-cases,
}
use strategy_nodes.L2.Message.{MessageType, update, snapshot, Message}
use strategy_nodes.L2.Book
use strategy_nodes.L2.Book.{Book, make_book, clear}
use strategy_nodes.L2.Book.Laws.{depth-apply, apply_forgets}
use strategy_nodes.Frontend.Wire.{
  Event, book_event, Payload, make_payload, field_number_of, make_wire_book, kind_of,
}
use strategy_nodes.Core.Receiver.{Gap}
use strategy_nodes.Frontend.Stream.{
  Stream, Sends, send_all, note_snapshot, receive, status_for, interrupt,
}
use strategy_nodes.Frontend.Stream.Client.{
  Client, on_payloads, on_payloads-append, on_book, sent_to, sent_to-append, count, message_of,
  apply-make_wire_book,
}
use strategy_nodes.Frontend.Stream.Invariant.{IsStream, status_for-IsStatus}
use strategy_nodes.Frontend.Stream.Reading.{
  Tracks, shown_by, is_empty_of_count, reads, reads_drop, reads_live, once,
}

module _ {B : Type 0} (encode : Event → B) (decode : ℕ → B → Option Event)
    (decode-encode : (e : Event) → decode (field_number_of e) (encode e) ≡ some e) where
  -- Ending a gap changes neither the list of watchers nor what a watcher shows.
  pub note_watchers : (t : MessageType) (s : Stream B) → (note_snapshot t s).0.watchers ≡ s.watchers
  unfolding note_snapshot
  note_watchers update s = refl
  note_watchers snapshot s = refl

  pub note_keeps :
      (t : MessageType) (s : Stream B) (c : Client) (w : ℕ)
      → IsStream encode s
      → count w s.watchers ≡ 1
      → on_payloads decode c (sent_to w (note_snapshot t s).1) ≡ c
  unfolding note_snapshot
  note_keeps update s c w v n = refl
  note_keeps snapshot s c w v n = elim (Bool-cases s.interrupted) [
    | inl y ↦
        rw (y, once encode decode decode-encode w s.live_status s.watchers n)
          (reads_live encode decode decode-encode c s.live_status v.live_ok)
    | inr y ↦ rw y
  ]

  -- What a watcher shows once encode decode decode-encode it has read a book message.
  pub shows :
      (t : MessageType) (s : Stream B) (c : Client) (msg m : Message)
      → (t ≡ snapshot → Book.apply (make_book c.depth) msg ≡ Book.apply s.book m)
      → Book.apply s.book msg ≡ Book.apply s.book m
      → c.depth ≡ s.book.depth
      → c.shown ≡ shown_by s
      → ((on_book (kind_of t) c msg).depth ≡ s.book.depth)
        × ((on_book (kind_of t) c msg).shown ≡ (
            if (note_snapshot t s).0.has_snapshot
            then some (Book.apply (note_snapshot t s).0.book m)
            else none))
  unfolding note_snapshot kind_of
  shows update s c msg m _ e d h = (d, ground (arith, e))
  shows snapshot s c msg m f e d h = (d, ap some (f refl))

  pub note_book : (t : MessageType) (s : Stream B) → (note_snapshot t s).0.book ≡ s.book
  unfolding note_snapshot
  note_book update s = refl
  note_book snapshot s = refl

  pub delivered :
      (w : ℕ) (p : Payload B) (ws : List ℕ)
      → count w ws ≡ 1
      → sent_to w (if is_empty ws then [] else send_all p ws) ≡ p ∷ []
  delivered w p ws h = rw (is_empty_of_count w ws h) (once encode decode decode-encode w p ws h)

  pub receive-Tracks :
      (w : ℕ) (s : Stream B) (c : Client) (m : Message)
      → IsStream encode s
      → count w s.watchers ≡ 1
      → c.depth ≡ s.book.depth
      → c.shown ≡ shown_by s
      → Tracks encode decode decode-encode w
          (receive encode s m).0
          (on_payloads decode c (sent_to w (receive encode s m).1))
  unfolding receive make_wire_book
  receive-Tracks w s c m v n d h =
      subst (Tracks encode decode decode-encode w (receive encode s m).0) (sym read)
        (inr (e, depth, shown.1))
    where
      noted : Stream B
      noted = (note_snapshot m.type s).0

      msg : Message
      msg = message_of (make_wire_book noted.id m)

      p : Payload B
      p = make_payload encode (book_event (make_wire_book noted.id m))

      later : Sends B
      later = if is_empty noted.watchers then [] else send_all p noted.watchers

      e : count w noted.watchers ≡ 1
      e = ap (count w) (note_watchers m.type s) ∙ n

      read :
          on_payloads decode c (sent_to w (receive encode s m).1) ≡ on_book (kind_of m.type) c msg
      read =
          ap (on_payloads decode c) (sent_to-append w (note_snapshot m.type s).1 later)
          ∙ on_payloads-append decode c (sent_to w (note_snapshot m.type s).1) (sent_to w later)
          ∙ ap (λ b. on_payloads decode b (sent_to w later)) (note_keeps m.type s c w v n)
          ∙ ap (on_payloads decode c) (delivered w p noted.watchers e)
          ∙ reads encode decode decode-encode c (book_event (make_wire_book noted.id m))

      shown :
          ((on_book (kind_of m.type) c msg).depth ≡ s.book.depth)
          × ((on_book (kind_of m.type) c msg).shown
              ≡ (if noted.has_snapshot then some (Book.apply noted.book m) else none))
      shown =
          shows m.type s c msg m
            (λ t.
              apply-make_wire_book (make_book c.depth) noted.id m
              ∙ apply_forgets (make_book c.depth) s.book m t (unfold make_book in d))
            (apply-make_wire_book s.book noted.id m) d h

      depth : (on_book (kind_of m.type) c msg).depth ≡ (Book.apply noted.book m).depth
      depth =
          shown.0 ∙ ap (λ b. b.depth) (sym (note_book m.type s)) ∙ sym (depth-apply noted.book m)

  pub interrupt-Tracks :
      (w : ℕ) (s : Stream B) (c : Client) (gap : Gap)
      → IsStream encode s
      → count w s.watchers ≡ 1
      → c.depth ≡ s.book.depth
      → Tracks encode decode decode-encode w
          (interrupt s gap).0
          (on_payloads decode c (sent_to w (interrupt s gap).1))
  unfolding interrupt
  interrupt-Tracks w s c gap v n d =
      subst (Tracks encode decode decode-encode w (interrupt s gap).0) (sym read)
        (inr (n, (unfold clear in d), refl))
    where
      read : on_payloads decode c (sent_to w (interrupt s gap).1) ≡ record c { shown = none }
      read =
          ap (on_payloads decode c)
            (once encode decode decode-encode w (status_for gap s) s.watchers n)
          ∙ reads_drop encode decode decode-encode c (status_for gap s)
              (status_for-IsStatus encode s gap v)
