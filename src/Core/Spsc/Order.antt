-- ===== src/Core/Spsc/Order.antt =====
-- data_feed/core/spsc.h: what Drain has consumed when it ends by itself.
use strategy_nodes.Common.{
  suc, ◌≡◌, refl, ap, sym, ◌∙◌, Bool, true, false, Option, none, some, List, [], ◌∷◌, ◌++◌, lt→ltb,
  append_assoc, append-nil, Result, ok, err, length, subst, arith,
}
use strategy_nodes.Core.Spsc.{
  uncons, held, SpscQueue, Drained, drained, failed, waiting, Turned, left, went, threw, Turn,
  push_or, arrive, consumed, take, turn, drain,
}
use strategy_nodes.Core.Spsc.Ends.{consume_all}

uncons-some : {A : Type 0} → (a : A) (rest cs : List A) → some (a, rest) ≡ uncons cs → cs ≡ a ∷ rest
unfolding uncons
uncons-some a rest [] h = cc
uncons-some a rest (b ∷ bs) h = cc

module _ {Q A : Type 0} (queue : SpscQueue Q A) where
  -- The elements that the queue took, of those that were offered to it.
  abbrev pub took : Option Q → A → List A → List A
  took none a rest = rest
  took (some r) a rest = a ∷ rest

  abbrev pub accepted : Q → List A → List A
  accepted q [] = []
  accepted q (a ∷ rest) = took (queue.push q a) a (accepted (push_or (queue.push q a) q) rest)

  arrive-contents :
      (q : Q) (offered : List A)
      → queue.contents (arrive queue q offered) ≡ queue.contents q ++ accepted q offered
  unfolding arrive push_or
  arrive-contents q [] = sym (append-nil (queue.contents q))
  arrive-contents q (a ∷ rest) = at (queue.push q a) refl (λ r. arrive-contents r rest)
    where
      at :
          (p : Option Q)
          → queue.push q a ≡ p
          → ((r : Q) → queue.contents (arrive queue r rest) ≡ queue.contents r ++ accepted r rest)
          → queue.contents (arrive queue (push_or p q) rest)
            ≡ queue.contents q ++ took p a (accepted (push_or p q) rest)
      at none e later = later q
      at (some r) e later =
          later r
          ∙ ap (λ cs. cs ++ accepted r rest) (queue.push-contents q a r e)
          ∙ append_assoc (queue.contents q) (a ∷ []) (accepted r rest)

module _ {E S Q A : Type 0} (queue : SpscQueue Q A) (consume : S → A → Result E S) where
  -- Every element that the queue took in these turns, up to the end of the loop.
  abbrev pub all_accepted : S → Q → List (Turn A) → List A
  all_accepted s q [] = []
  all_accepted s q (t ∷ ts) =
      let r = arrive queue q t.pushes in
      accepted queue q t.pushes ++ elim (turn queue consume s r t.stop_requested) [
        | left ↦ []
        | went u r' ↦ all_accepted u r' ts
        | threw e ↦ []
      ]

  -- What a turn does to the elements that are still to be consumed.
  abbrev Does : S → Q → Turned E S Q → Type 0
  Does s q left = queue.contents q ≡ []
  Does s q (went u r) =
      (later : List A)
      → consume_all queue consume s (queue.contents q ++ later)
        ≡ consume_all queue consume u (queue.contents r ++ later)
  Does s q (threw e) =
      (later : List A) → consume_all queue consume s (queue.contents q ++ later) ≡ failed e s

  take-Does :
      (s : S) (q : Q) (p : Option (A × Q))
      → held queue.contents p ≡ uncons (queue.contents q)
      → Does s q (take consume s q p)
  unfolding take consumed held
  take-Does s q none h = λ later. refl
  take-Does s q (some (a, r)) h = at (consume s a) refl
    where
      first : queue.contents q ≡ a ∷ queue.contents r
      first = uncons-some a (queue.contents r) (queue.contents q) h

      at : (x : Result E S) → consume s a ≡ x → Does s q (consumed x r)
      at (ok u) e = λ later. rw (first, e) refl
      at (err e) h' = λ later. rw (first, h') refl

  turn-Does : (s : S) (q : Q) (stop : Bool) → Does s q (turn queue consume s q stop)
  unfolding turn
  turn-Does s q false = take-Does s q (queue.consume_one q) (queue.consume_one-contents q)
  turn-Does s q true = at (queue.contents q) refl
    where
      at : (cs : List A) → queue.contents q ≡ cs → Does s q (turn queue consume s q true)
      at [] e = rw (queue.read_available-contents q, e) e
      at (a ∷ rest) e =
          rw (queue.read_available-contents q, e, lt→ltb 0 (suc (length rest)) (omega arith))
            (take-Does s q (queue.consume_one q) (queue.consume_one-contents q))

  -- How the loop ended, on these elements.
  abbrev Ended : S → List A → Drained E S Q → Type 0
  Ended s elements (drained t r) =
      (queue.contents r ≡ []) × (consume_all queue consume s elements ≡ drained t [])
  Ended s elements (failed e t) = consume_all queue consume s elements ≡ failed e t
  Ended s elements (waiting t r) = Unit

  Ended-subst :
      (s u : S) (elements rest : List A)
      → consume_all queue consume s elements ≡ consume_all queue consume u rest
      → (d : Drained E S Q) → Ended u rest d
      → Ended s elements d
  Ended-subst s u elements rest h (drained t r) (empty, k) = (empty, h ∙ k)
  Ended-subst s u elements rest h (failed e t) k = h ∙ k
  Ended-subst s u elements rest h (waiting t r) k = tt

  -- The rest of the loop after a turn, and what the queue takes in it.
  abbrev later_of : List (Turn A) → Turned E S Q → List A
  later_of ts x = elim x [ left ↦ [] | went u r ↦ all_accepted u r ts | threw e ↦ [] ]

  abbrev rest_of : List (Turn A) → S → Q → Turned E S Q → Drained E S Q
  rest_of ts s q x = elim x [
    | left ↦ drained s q
    | went u r ↦ drain queue consume u r ts
    | threw e ↦ failed e s
  ]

  rest_of-Ended :
      (ts : List (Turn A)) (s : S) (q : Q)
      → ((u : S) (r : Q)
          → Ended u (queue.contents r ++ all_accepted u r ts) (drain queue consume u r ts))
      → (x : Turned E S Q) → Does s q x
      → Ended s (queue.contents q ++ later_of ts x) (rest_of ts s q x)
  rest_of-Ended ts s q again left empty = (empty, rw (empty) refl)
  rest_of-Ended ts s q again (went u r) does =
      Ended-subst s u (queue.contents q ++ all_accepted u r ts)
        (queue.contents r ++ all_accepted u r ts) (does (all_accepted u r ts))
        (drain queue consume u r ts) (again u r)
  rest_of-Ended ts s q again (threw e) does = does []

  drain-Ended :
      (ts : List (Turn A)) (s : S) (q : Q)
      → Ended s (queue.contents q ++ all_accepted s q ts) (drain queue consume s q ts)
  unfolding drain
  drain-Ended [] s q = tt
  drain-Ended (t ∷ ts) s q =
      let r = arrive queue q t.pushes in
      let x = turn queue consume s r t.stop_requested in
      let regroup : queue.contents q ++ all_accepted s q (t ∷ ts)
          ≡ queue.contents r ++ later_of ts x =
        sym (append_assoc (queue.contents q) (accepted queue q t.pushes) (later_of ts x))
        ∙ ap (λ cs. cs ++ later_of ts x) (sym (arrive-contents queue q t.pushes)) in
      Ended-subst s s (queue.contents q ++ all_accepted s q (t ∷ ts))
        (queue.contents r ++ later_of ts x) (ap (consume_all queue consume s) regroup)
        (rest_of ts s r x)
        (rest_of-Ended ts s r (λ u r'. drain-Ended ts u r') x (turn-Does s r t.stop_requested))

  -- When `Drain` returns by itself, whatever was pushed before and during it, the queue is empty,
  -- and the consumer has been given every element that the queue held or took, each once, in order.
  pub drained_all :
      (ts : List (Turn A)) (s t : S) (q r : Q)
      → drain queue consume s q ts ≡ drained t r
      → (queue.contents r ≡ [])
        × (consume_all queue consume s (queue.contents q ++ all_accepted s q ts) ≡ drained t [])
  drained_all ts s t q r h =
      subst (Ended s (queue.contents q ++ all_accepted s q ts)) h (drain-Ended ts s q)
