-- ===== src/Frontend/Stream/Reading.antt =====
-- Reading payloads: what a client does with each, and what it is sent once by a broadcast.
use strategy_nodes.Common.{
  ℕ, ◌+◌, ◌≡◌, ◌≢◌, refl, ap, ◌∙◌, ◌⊎◌, true, false, Option, none, some, List, [], ◌∷◌, ◌++◌,
  replicate, if◌then◌else◌, is_empty, arith,
}
use strategy_nodes.L2.Book.{Book}
use strategy_nodes.Frontend.Wire.{Event, status_event, Payload, make_payload, field_number_of}
use strategy_nodes.Frontend.Stream.{Stream, send_all, without}
use strategy_nodes.Frontend.Stream.Client.{
  Client, on_event, on_payload, sent_to, sent_to-send_all, count,
}
use strategy_nodes.Frontend.Stream.Invariant.{IsStatus}

-- What a watcher that is up to date shows.
module _ {B : Type 0} where
  abbrev pub shown_by : Stream B → Option Book
  shown_by s = if s.has_snapshot then some s.book else none

pub count-append : (w : ℕ) (xs ys : List ℕ) → count w (xs ++ ys) ≡ count w xs + count w ys
count-append w [] ys = omega arith
count-append w (x ∷ xs) ys = ground (arith, count-append w xs ys)

pub count-without_self : (w : ℕ) (xs : List ℕ) → count w (without w xs) ≡ 0
unfolding without
count-without_self w [] = refl
count-without_self w (x ∷ xs) = ground (arith, count-without_self w xs)

pub count-without_ne : (w v : ℕ) (xs : List ℕ) → v ≢ w → count w (without v xs) ≡ count w xs
unfolding without
count-without_ne w v [] h = refl
count-without_ne w v (x ∷ xs) h = ground (arith, count-without_ne w v xs h)

pub is_empty_of_count : (w : ℕ) (xs : List ℕ) → count w xs ≡ 1 → is_empty xs ≡ false
is_empty_of_count w [] h = absurd (omega arith)
is_empty_of_count w (x ∷ xs) h = refl

module _ {B : Type 0} (encode : Event → B) (decode : ℕ → B → Option Event)
    (decode-encode : (e : Event) → decode (field_number_of e) (encode e) ≡ some e) where
  -- A watcher on the list is there once, and shows the book of the stream.
  abbrev pub Tracks : ℕ → Stream B → Client → Type 0
  Tracks w s c =
      (count w s.watchers ≡ 0)
      ⊎ ((count w s.watchers ≡ 1) × (c.depth ≡ s.book.depth) × (c.shown ≡ shown_by s))

  pub reads : (c : Client) (e : Event) → on_payload decode c (make_payload encode e) ≡ on_event c e
  unfolding make_payload
  reads c e = rw (decode-encode e, on_payload)

  pub reads_drop :
      (c : Client) (p : Payload B)
      → IsStatus encode true p
      → on_payload decode c p ≡ record c { shown = none }
  reads_drop c p (st, e, d) = rw (e, reads c (status_event st), d)

  pub reads_live :
      (c : Client) (p : Payload B) → IsStatus encode false p → on_payload decode c p ≡ c
  reads_live c p (st, e, d) = rw (e, reads c (status_event st), d)

  -- What a watcher that is on the list once is sent by a broadcast.
  pub once :
      (w : ℕ) (p : Payload B) (ws : List ℕ) → count w ws ≡ 1 → sent_to w (send_all p ws) ≡ p ∷ []
  once w p ws h = sent_to-send_all w p ws ∙ ap (λ n. replicate n p) h
