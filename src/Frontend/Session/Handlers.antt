-- ===== src/Frontend/Session/Handlers.antt =====
-- Every handler of a session keeps the order of its frames.
use strategy_nodes.Common.{
  ℕ, suc, ◌-◌, ◌≡◌, refl, sym, ap, subst, inl, inr, ℤ, Bool, true, false, not, ◌&&◌, List, [], ◌∷◌,
  ◌++◌, leb, length, length-append, append_assoc, append-nil, if◌then◌else◌, Bool-cases, arith,
  is_empty,
}
use strategy_nodes.Frontend.Wire.{Event, heartbeat_event, Payload, make_payload}
use strategy_nodes.Frontend.Session.{
  Session, Outgoing, Effect, writes, Incoming, broken, unparsed, command, make_session, enqueue,
  push, pop, write_front, written, read, accept_command, command_done, beat, close,
  max_queued_frames, max_backlog_frames, max_pending_commands, heartbeat_period,
}
use strategy_nodes.Frontend.Session.Steps.{
  frames, is_book, numbered, Step, enqueues, ends, reads, dones, beats, closes, step, numbers, run,
  Kept, kept_none,
}
use strategy_nodes.Frontend.Session.Order.{
  Kept-drop, InOrder, quiet, Goes, close_closed, close_open, close-Goes, push-Goes,
}

module _ {B : Type 0} (C : Type 0) where
  -- A test of the code, where both branches keep the order.
  Goes-if :
      (b : Bool) (x y : Session B × List (Effect B C)) (sent : List (Outgoing B))
      (log new : List (Payload B))
      → (b ≡ true → Goes C x sent log new)
      → (b ≡ false → Goes C y sent log new)
      → Goes C (if b then x else y) sent log new
  Goes-if true x y sent log new f g = f refl
  Goes-if false x y sent log new f g = g refl

  Goes-ifs :
      (b : Bool) (x y : Session B × List (Effect B C)) (sent : List (Outgoing B))
      (log m n : List (Payload B))
      → (b ≡ true → Goes C x sent log m)
      → (b ≡ false → Goes C y sent log n)
      → Goes C (if b then x else y) sent log (if b then m else n)
  Goes-ifs true x y sent log m n f g = f refl
  Goes-ifs false x y sent log m n f g = g refl

  -- What `numbered` comes to.
  takes_number :
      (a b : Bool) (p : Payload B)
      → (a && not b) ≡ false
      → p ∷ [] ≡ (if a && not b then [] else p ∷ [])
  takes_number a b p h = rw h refl

  takes_none :
      (a b : Bool) (p : Payload B) → (a && not b) ≡ true → [] ≡ (if a && not b then [] else p ∷ [])
  takes_none a b p h = rw h refl

  skip-Goes :
      (s : Session B) (p : Payload B) (sent : List (Outgoing B)) (log : List (Payload B))
      → InOrder s sent log
      → is_book p ≡ true
      → Goes C (record s { next_sequence = suc s.next_sequence }, []) sent log (p ∷ [])
  skip-Goes s p sent log (rest, k, n, w) b = (
    rest,
    subst (λ l. Kept 0 (log ++ p ∷ []) (l ++ rest)) (sym (append-nil sent))
        (Kept-drop 0 p log (sent ++ rest) b k),
    omega (arith, n, length-append log (p ∷ [])),
    w,
  )

  pub enqueue-Goes :
      (s : Session B) (now : ℕ) (time : ℤ) (p : Payload B) (sent : List (Outgoing B))
      (log : List (Payload B))
      → InOrder s sent log
      → Goes C (enqueue s now time p) sent log (numbered s p)
  unfolding enqueue numbered
  enqueue-Goes s now time p sent log i =
      let many = leb max_queued_frames (length s.outgoing) in
      let too_many = leb max_backlog_frames (length s.outgoing) in
      let skipping : Session B × List (Effect B C) =
        (record s { next_sequence = suc s.next_sequence }, []) in
      let pushing = push {C = C} s now time p in
      let closing = close {C = C} s in
      let new = if too_many && not (is_book p) then [] else p ∷ [] in
      Goes-ifs s.closed (s, [])
        (if many
          then (if is_book p then skipping else if too_many then closing else pushing)
          else pushing)
        sent log [] new (λ c. quiet s sent log i)
        (λ o.
          Goes-if many (if is_book p then skipping else if too_many then closing else pushing)
            pushing sent log new
            (λ m.
              Goes-if (is_book p) skipping (if too_many then closing else pushing) sent log new
                (λ b.
                  subst (Goes C skipping sent log)
                    (takes_number too_many (is_book p) p (ground arith))
                    (skip-Goes s p sent log i b))
                (λ nb.
                  Goes-if too_many closing pushing sent log new
                    (λ t.
                      subst (Goes C closing sent log)
                        (takes_none too_many (is_book p) p (ground arith))
                        (close-Goes C s sent log i))
                    (λ nt.
                      subst (Goes C pushing sent log)
                        (takes_number too_many (is_book p) p (ground arith))
                        (push-Goes C s now time p sent log i o))))
            (λ nm.
              subst (Goes C pushing sent log) (takes_number too_many (is_book p) p (ground arith))
                (push-Goes C s now time p sent log i o)))

  -- A failed write leaves its frame in the queue of a session that is closed.
  fail-Goes :
      (s : Session B) (sent : List (Outgoing B)) (log : List (Payload B))
      → InOrder s sent log
      → Goes C (close (record s { in_flight = false })) sent log []
  fail-Goes s sent log (rest, k, n, w) = elim (Bool-cases s.closed) [
    | inl y ↦
        rw (close_closed C (record s { in_flight = false }) y)
          (quiet (record s { in_flight = false }) sent log (rest, k, n, ((λ f. cc), λ c f. cc)))
    | inr o ↦ rw (close_open C (record s { in_flight = false }) o) (
        quiet (record s { in_flight = false; closed = true }) sent log
          (rest, k, n, ((λ f. cc), λ c f. cc)))
  ]

  abbrev ended_with : Session B → List (Outgoing B) → Session B
  ended_with s rest = record s { in_flight = false; outgoing = rest }

  abbrev written_on : Session B → ℤ → Session B × List (Effect B C)
  written_on ended time =
      if not ended.closed && not (is_empty ended.outgoing)
      then write_front ended time
      else (ended, [])

  -- A frame has gone out, and the next one, if any, follows it.
  ended-Goes :
      (s : Session B) (time : ℤ) (rest sent : List (Outgoing B)) (log : List (Payload B))
      → Kept 0 log (sent ++ rest)
      → s.next_sequence ≡ length log
      → Goes C (written_on (ended_with s rest) time) sent log []
  unfolding write_front
  ended-Goes s time [] sent log k n =
      Goes-if (not s.closed && false) (ended_with s [], []) (ended_with s [], []) sent log []
        (λ _. quiet (ended_with s []) sent log ([], k, n, ((λ f. cc), λ c f. (refl, refl))))
        (λ _. quiet (ended_with s []) sent log ([], k, n, ((λ f. cc), λ c f. (refl, refl))))
  ended-Goes s time (f ∷ rest) sent log k n =
      Goes-if (not s.closed && true)
        (record s { outgoing = f ∷ rest; in_flight = true }, writes time f ∷ [])
        (ended_with s (f ∷ rest), []) sent log []
        (λ _. (
          rest,
          rw (append-nil log) (subst (Kept 0 log) (sym (append_assoc sent (f ∷ []) rest)) k),
          rw (append-nil log) n,
          ((λ _. (f, refl)), λ c g. cc),
        ))
        (λ closed.
          quiet (ended_with s (f ∷ rest)) sent log
            (f ∷ rest, k, n, ((λ g. cc), λ c g. ground arith)))

  written-Goes :
      (s : Session B) (failed : Bool) (time : ℤ) (sent : List (Outgoing B)) (log : List (Payload B))
      → InOrder s sent log
      → Goes C (written s failed time) sent log []
  unfolding written pop
  written-Goes s failed time sent log (rest, k, n, w) =
      let failing = close {C = C} (record s { in_flight = false }) in
      Goes-if (not s.in_flight) (s, []) (if failed then failing else written_on (pop s) time) sent
        log [] (λ _. quiet s sent log (rest, k, n, w))
        (λ flying.
          Goes-if failed failing (written_on (pop s) time) sent log []
            (λ _. fail-Goes s sent log (rest, k, n, w))
            (λ _.
              let (front, e) = w.0 (ground arith) in
              subst (λ ended. Goes C (written_on ended time) sent log [])
                (sym (ap (λ o. pop (record s { outgoing = o })) e))
                (ended-Goes s time rest sent log k n)))

  accept-Goes :
      (s : Session B) (incoming : Incoming C) (sent : List (Outgoing B)) (log : List (Payload B))
      → InOrder s sent log
      → Goes C (accept_command s incoming) sent log []
  unfolding accept_command
  accept-Goes s broken sent log i = close-Goes C s sent log i
  accept-Goes s unparsed sent log i =
      quiet (record s { pending_commands = suc s.pending_commands }) sent log i
  accept-Goes s (command c) sent log i =
      quiet (record s { pending_commands = suc s.pending_commands }) sent log i

  read-Goes :
      (s : Session B) (incoming : Incoming C) (sent : List (Outgoing B)) (log : List (Payload B))
      → InOrder s sent log
      → Goes C (read s incoming) sent log []
  unfolding read
  read-Goes s incoming sent log i =
      let closing = close {C = C} s in
      let accepted = accept_command s incoming in
      Goes-if s.closed closing
        (if leb max_pending_commands s.pending_commands then closing else accepted) sent log []
        (λ _. close-Goes C s sent log i)
        (λ _.
          Goes-if (leb max_pending_commands s.pending_commands) closing accepted sent log []
            (λ _. close-Goes C s sent log i) (λ _. accept-Goes s incoming sent log i))

module _ {B : Type 0} (C : Type 0) (encode : Event → B) where
  beat-Goes :
      (s : Session B) (now : ℕ) (time : ℤ) (sent : List (Outgoing B)) (log : List (Payload B))
      → InOrder s sent log
      → Goes C (step encode s (beats now time)) sent log (numbers {C = C} encode s (beats now time))
  unfolding step beat numbers
  beat-Goes s now time sent log i =
      let p = make_payload encode heartbeat_event in
      let late = leb heartbeat_period (now - s.last_enqueue) in
      let beating = enqueue {C = C} s now time p in
      Goes-ifs C s.closed (s, []) (if late then beating else (s, [])) sent log []
        (if late then numbered s p else []) (λ _. quiet s sent log i)
        (λ _.
          Goes-ifs C late beating (s, []) sent log (numbered s p) []
            (λ _. enqueue-Goes C s now time p sent log i) (λ _. quiet s sent log i))

module _ {B C : Type 0} (encode : Event → B) where
  pub step-Goes :
      (s : Session B) (st : Step B C) (sent : List (Outgoing B)) (log : List (Payload B))
      → InOrder s sent log
      → Goes C (step encode s st) sent log (numbers encode s st)
  unfolding step numbers command_done
  step-Goes s (enqueues now time p) sent log i = enqueue-Goes C s now time p sent log i
  step-Goes s (ends failed time) sent log i = written-Goes C s failed time sent log i
  step-Goes s (reads incoming) sent log i = read-Goes C s incoming sent log i
  step-Goes s dones sent log i =
      quiet (record s { pending_commands = s.pending_commands - 1 }) sent log i
  step-Goes s (beats now time) sent log i = beat-Goes C encode s now time sent log i
  step-Goes s closes sent log i = close-Goes C s sent log i

  -- The run's frames and log come after those of before.
  run_goes :
      (s : Session B) (sts : List (Step B C)) (sent : List (Outgoing B)) (log : List (Payload B))
      → InOrder s sent log
      → InOrder (run encode s sts).0 (sent ++ (run encode s sts).1) (log ++ (run encode s sts).2)
  unfolding run
  run_goes s [] sent log i = quiet s sent log i
  run_goes s (st ∷ sts) sent log i =
      let after = step encode s st in
      let later = run encode after.0 sts in
      subst (λ l. InOrder later.0 l (log ++ (numbers encode s st ++ later.2)))
        (append_assoc sent (frames after.1) later.1)
        (subst (λ l. InOrder later.0 ((sent ++ frames after.1) ++ later.1) l)
          (append_assoc log (numbers encode s st) later.2)
          (run_goes after.0 sts (sent ++ frames after.1) (log ++ numbers encode s st)
            (step-Goes s st sent log i)))

  -- Whatever handlers run on a new connection, in whatever order, every payload that it numbered
  -- has gone out under its own number, counted from 0, or waits behind those to go out, in the
  -- same order, or is a Book whose number was skipped; the next number is how many were numbered,
  -- and an open session with no write in flight has nothing waiting.
  pub frames-InOrder :
      (now : ℕ) (sts : List (Step B C))
      → InOrder
          (run encode (make_session now) sts).0
          (run encode (make_session now) sts).1
          (run encode (make_session now) sts).2
  unfolding make_session
  frames-InOrder now sts =
      run_goes (make_session now) sts [] []
        ([], kept_none 0, refl, ((λ f. cc), λ c f. (refl, refl)))
