-- ===== src/Frontend/Session/Order.antt =====
-- The frames of a session go out in the order of their numbers, and only a Book's number is skipped.
use strategy_nodes.Common.{
  ℕ, suc, ◌+◌, ◌≡◌, refl, sym, ap, subst, ◌∙◌, inl, inr, ℤ, true, false, List, [], ◌∷◌, ◌++◌, ◌==◌,
  length, length-append, append_assoc, append-nil, if◌then◌else◌, Bool-cases, arith,
}
use strategy_nodes.Frontend.Wire.{Payload}
use strategy_nodes.Frontend.Session.{
  Session, Outgoing, Effect, writes, forgets, push, write_front, close,
}
use strategy_nodes.Frontend.Session.Steps.{frames, is_book, Kept, kept_none, keep, skip}

module _ {B : Type 0} where
  Kept-snoc :
      (n : ℕ) (payload : Payload B) (log : List (Payload B)) (sent : List (Outgoing B))
      → Kept n log sent
      → Kept n
          (log ++ payload ∷ [])
          (sent ++ record { sequence = n + length log; payload = payload } ∷ [])
  Kept-snoc n payload log sent (kept_none m) =
      subst (λ k. Kept m (payload ∷ []) (record { sequence = k; payload = payload } ∷ []))
        (omega arith) (keep m payload [] [] (kept_none (suc m)))
  Kept-snoc n payload log sent (keep m p l s k) =
      keep m p (l ++ payload ∷ [])
        (s ++ record { sequence = m + suc (length l); payload = payload } ∷ [])
        (subst
          (λ i.
            Kept (suc m) (l ++ payload ∷ []) (s ++ record { sequence = i; payload = payload } ∷ []))
          (omega arith) (Kept-snoc (suc m) payload l s k))
  Kept-snoc n payload log sent (skip m p l s b k) =
      skip m p (l ++ payload ∷ [])
        (s ++ record { sequence = m + suc (length l); payload = payload } ∷ []) b
        (subst
          (λ i.
            Kept (suc m) (l ++ payload ∷ []) (s ++ record { sequence = i; payload = payload } ∷ []))
          (omega arith) (Kept-snoc (suc m) payload l s k))

  pub Kept-drop :
      (n : ℕ) (payload : Payload B) (log : List (Payload B)) (sent : List (Outgoing B))
      → is_book payload ≡ true
      → Kept n log sent
      → Kept n (log ++ payload ∷ []) sent
  Kept-drop n payload log sent b (kept_none m) = skip m payload [] [] b (kept_none (suc m))
  Kept-drop n payload log sent b (keep m p l s k) =
      keep m p (l ++ payload ∷ []) s (Kept-drop (suc m) payload l s b k)
  Kept-drop n payload log sent b (skip m p l s c k) =
      skip m p (l ++ payload ∷ []) s c (Kept-drop (suc m) payload l s b k)

  -- The queue of a session by what is in flight: the front frame is, or the queue is empty unless
  -- the session is closed. `rest` are the frames that have not gone out.
  abbrev pub Waits : Session B → List (Outgoing B) → Type 0
  Waits s rest =
      (s.in_flight ≡ true → (front : Outgoing B) × (s.outgoing ≡ front ∷ rest))
      × (s.closed ≡ false → s.in_flight ≡ false → (s.outgoing ≡ []) × (rest ≡ []))

  -- Everything numbered so far has gone out in order, waits in order, or was a Book.
  abbrev pub InOrder : Session B → List (Outgoing B) → List (Payload B) → Type 0
  InOrder s sent log =
      (rest : List (Outgoing B)) × Kept 0 log (sent ++ rest)
      × (s.next_sequence ≡ length log)
      × Waits s rest

  pub quiet :
      (s : Session B) (sent : List (Outgoing B)) (log : List (Payload B))
      → InOrder s sent log
      → InOrder s (sent ++ []) (log ++ [])
  quiet s sent log i = rw (append-nil sent, append-nil log) i

module _ {B : Type 0} (C : Type 0) where
  -- A step that gives `result` and numbers `new` keeps the order.
  abbrev pub Goes :
      Session B × List (Effect B C)
      → List (Outgoing B)
      → List (Payload B)
      → List (Payload B)
      → Type 0
  Goes result sent log new = InOrder result.0 (sent ++ frames result.1) (log ++ new)

  pub close_closed : (s : Session B) → s.closed ≡ true → close {C = C} s ≡ (s, [])
  unfolding close
  close_closed s y = ap (λ b. if b then (s, []) else (record s { closed = true }, forgets ∷ [])) y

  pub close_open :
      (s : Session B)
      → s.closed ≡ false
      → close {C = C} s ≡ (record s { closed = true }, forgets ∷ [])
  unfolding close
  close_open s o = ap (λ b. if b then (s, []) else (record s { closed = true }, forgets ∷ [])) o

  pub close-Goes :
      (s : Session B) (sent : List (Outgoing B)) (log : List (Payload B))
      → InOrder s sent log
      → Goes (close s) sent log []
  close-Goes s sent log (rest, k, n, w) = elim (Bool-cases s.closed) [
    | inl y ↦ rw (close_closed s y) (quiet s sent log (rest, k, n, w))
    | inr o ↦
        rw (close_open s o)
          (quiet (record s { closed = true }) sent log (rest, k, n, (w.0, λ c f. cc)))
  ]

  pushed : Session B → ℕ → Payload B → Session B
  pushed s now p = record s {
    outgoing = s.outgoing ++ record { sequence = s.next_sequence; payload = p } ∷ [];
    next_sequence = suc s.next_sequence;
    last_enqueue = now;
  }

  longer :
      (os : List (Outgoing B)) (front : Outgoing B) (rest : List (Outgoing B)) (frame : Outgoing B)
      → os ≡ front ∷ rest
      → (length (os ++ frame ∷ []) == 1) ≡ false
  longer os front rest frame e = rw e (ground (arith, length-append rest (frame ∷ [])))

  push_queued :
      (s : Session B) (now : ℕ) (time : ℤ) (p : Payload B) (front : Outgoing B)
      (rest : List (Outgoing B))
      → s.outgoing ≡ front ∷ rest
      → push {C = C} s now time p ≡ (pushed s now p, [])
  unfolding push pushed
  push_queued s now time p front rest e =
      ap (λ b. if b then write_front (pushed s now p) time else (pushed s now p, []))
        (longer s.outgoing front rest (record { sequence = s.next_sequence; payload = p }) e)

  push_first :
      (s : Session B) (now : ℕ) (time : ℤ) (p : Payload B)
      → s.outgoing ≡ []
      → push {C = C} s now time p ≡ (
        record s {
          outgoing = record { sequence = s.next_sequence; payload = p } ∷ [];
          next_sequence = suc s.next_sequence;
          last_enqueue = now;
          in_flight = true;
        },
        writes time (record { sequence = s.next_sequence; payload = p }) ∷ [],
      )
  unfolding push write_front
  push_first s now time p e = ap (λ o. push {C = C} (record s { outgoing = o }) now time p) e

  -- A frame joins the queue under the next number.
  pub push-Goes :
      (s : Session B) (now : ℕ) (time : ℤ) (p : Payload B) (sent : List (Outgoing B))
      (log : List (Payload B))
      → InOrder s sent log
      → s.closed ≡ false
      → Goes (push s now time p) sent log (p ∷ [])
  unfolding pushed
  push-Goes s now time p sent log (rest, k, n, w) open_ =
      let frame : Outgoing B = record { sequence = s.next_sequence; payload = p } in
      let kept : Kept 0 (log ++ p ∷ []) ((sent ++ rest) ++ frame ∷ []) =
        subst
          (λ i.
            Kept 0 (log ++ p ∷ []) ((sent ++ rest) ++ record { sequence = i; payload = p } ∷ []))
          (omega (arith, n)) (Kept-snoc 0 p log (sent ++ rest) k) in
      let counted : suc s.next_sequence ≡ length (log ++ p ∷ []) =
        omega (arith, n, length-append log (p ∷ [])) in
      elim (Bool-cases s.in_flight) [
        | inl y ↦
            let (front, e) = w.0 y in
            rw (push_queued s now time p front rest e) (
              rest ++ frame ∷ [],
              subst (λ l. Kept 0 (log ++ p ∷ []) l)
                  (append_assoc sent rest (frame ∷ [])
                    ∙ ap (λ l. l ++ (rest ++ frame ∷ [])) (sym (append-nil sent)))
                  kept,
              counted,
              (λ _. (front, ap (λ o. o ++ frame ∷ []) e), λ c f. cc),
            )
        | inr f ↦
            let (e, none_left) = w.1 open_ f in
            rw (push_first s now time p e) (
              [],
              subst (λ l. Kept 0 (log ++ p ∷ []) l)
                  (ap (λ l. l ++ frame ∷ []) (ap (λ r. sent ++ r) none_left ∙ append-nil sent)
                    ∙ sym (append-nil (sent ++ frame ∷ [])))
                  kept,
              counted,
              (λ _. (frame, refl), λ c g. cc),
            )
      ]
