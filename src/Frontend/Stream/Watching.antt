-- ===== src/Frontend/Stream/Watching.antt =====
-- Beginning and ending to watch: a new watcher is brought up to date.
use strategy_nodes.Common.{
  ℕ, ◌≡◌, ◌≢◌, refl, ap, sym, subst, ◌∙◌, inl, inr, Option, none, some, List, [], ◌∷◌, ◌++◌, ◌==◌,
  arith, Bool-cases, ==_self, ==→eq,
}
use strategy_nodes.L2.Book.{make_book}
use strategy_nodes.Frontend.Wire.{
  StreamInfo, Event, info_event, book_event, Payload, field_number_of,
}
use strategy_nodes.Frontend.Stream.{Stream, snapshot_of, send_to, without, current, watch, unwatch}
use strategy_nodes.Frontend.Stream.Client.{
  Client, on_payload, on_payloads, sent_to, count, apply-snapshot_of,
}
use strategy_nodes.Frontend.Stream.Invariant.{IsStream}
use strategy_nodes.Frontend.Stream.Reading.{
  Tracks, shown_by, count-append, count-without_self, count-without_ne, reads, reads_drop,
}

module _ {B : Type 0} (encode : Event → B) (decode : ℕ → B → Option Event)
    (decode-encode : (e : Event) → decode (field_number_of e) (encode e) ≡ some e) where
  pub sent_to-send_to_self :
      (w : ℕ) (o : Option (Payload B))
      → sent_to w (send_to w o) ≡ elim o [ none ↦ [] | some p ↦ p ∷ [] ]
  unfolding send_to
  sent_to-send_to_self w none = refl
  sent_to-send_to_self w (some p) = rw (==_self w)

  pub sent_to-send_to_ne : (w x : ℕ) (o : Option (Payload B)) → x ≢ w → sent_to w (send_to x o) ≡ []
  unfolding send_to
  sent_to-send_to_ne w x none h = refl
  sent_to-send_to_ne w x (some p) h = ground arith

  -- A watcher that knows the depth shows the book once it is sent what is current.
  pub reads_current :
      (s : Stream B) (c : Client)
      → IsStream encode s
      → c.depth ≡ s.book.depth
      → c.shown ≡ none
      → on_payloads decode c (elim (current encode s) [ none ↦ [] | some p ↦ p ∷ [] ])
        ≡ record c { shown = shown_by s }
  unfolding current snapshot_of
  reads_current s c v d e = elim (Bool-cases s.interrupted) [
    | inl y ↦
        let (fresh, (p, g, is_drop)) = v.gap_ok y in
        rw (y, g, fresh) (reads_drop encode decode decode-encode c p is_drop)
    | inr n ↦ elim (Bool-cases s.has_snapshot) [
      | inl y ↦
          rw (n, y)
            (reads encode decode decode-encode c (book_event (snapshot_of s)) ∙ λ i. record c {
              shown =
                  some
                    (apply-snapshot_of s (make_book c.depth) v.book_ok (unfold make_book in d) i);
            })
      | inr m ↦ rw (n, m) (λ i. record c { shown = e i })
    ]
  ]

  -- Watching starts a watcher over: it is sent what it needs to show the book.
  pub watch-Tracks :
      (w : ℕ) (s : Stream B) (c : Client)
      → IsStream encode s
      → Tracks encode decode decode-encode w
          (watch encode s w).0
          (on_payloads decode c (sent_to w (watch encode s w).1))
  unfolding watch
  watch-Tracks w s c v =
      subst (Tracks encode decode decode-encode w (watch encode s w).0) (sym read)
        (inr (on_list, v.info_ok.2, refl))
    where
      i : StreamInfo
      i = v.info_ok.0

      rest : List (Payload B)
      rest = elim (current encode s) [ none ↦ [] | some p ↦ p ∷ [] ]

      on_list : count w (without w s.watchers ++ w ∷ []) ≡ 1
      on_list =
          count-append w (without w s.watchers) (w ∷ [])
          ∙ rw (count-without_self w s.watchers, ==_self w)

      started : on_payload decode c s.stream_info ≡ record { depth = i.depth; shown = none }
      started =
          ap (on_payload decode c) v.info_ok.1 ∙ reads encode decode decode-encode c (info_event i)

      read :
          on_payloads decode c (sent_to w (watch encode s w).1)
          ≡ record { depth = i.depth; shown = shown_by s }
      read =
          rw (==_self w, sent_to-send_to_self w (current encode s))
            (ap (λ b. on_payloads decode b rest) started ∙ reads_current s _ v v.info_ok.2 refl)

  pub others_watch :
      (w x : ℕ) (s : Stream B) (c : Client)
      → x ≢ w
      → Tracks encode decode decode-encode w s c
      → Tracks encode decode decode-encode w
          (watch encode s x).0
          (on_payloads decode c (sent_to w (watch encode s x).1))
  unfolding watch
  others_watch w x s c h t = ground (
    arith,
    t,
    sent_to-send_to_ne w x (current encode s) h,
    count-append w (without x s.watchers) (x ∷ []),
    count-without_ne w x s.watchers h,
  )

  pub unwatch-Tracks :
      (w x : ℕ) (s : Stream B) (c : Client)
      → Tracks encode decode decode-encode w s c
      → Tracks encode decode decode-encode w (unwatch s x).0 c
  unfolding unwatch
  unwatch-Tracks w x s c t = elim (Bool-cases (x == w)) [
    | inl y ↦ inl (rw (==→eq x w y) (count-without_self w s.watchers))
    | inr n ↦ rw (count-without_ne w x s.watchers (λ e. ground arith)) t
  ]
