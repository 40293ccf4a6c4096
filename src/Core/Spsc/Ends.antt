-- ===== src/Core/Spsc/Ends.antt =====
-- data_feed/core/spsc.h: once a stop is requested and nothing more is pushed, Drain ends.
use strategy_nodes.Common.{
  ℕ, zero, suc, ◌<◌, ◌≡◌, refl, ap, sym, ◌∙◌, true, Option, none, some, List, [], ◌∷◌, Result, ok,
  err, length, subst, arith, lt→ltb,
}
use strategy_nodes.Core.Spsc.{
  uncons, held, SpscQueue, Drained, drained, failed, waiting, Turned, left, went, threw, Turn,
  arrive, consumed, take, turn, drain,
}

-- Turns after a stop was requested, in which nothing is pushed.
abbrev pub stopped_turns : {A : Type 0} → ℕ → List (Turn A)
stopped_turns zero = []
stopped_turns (suc n) = record { pushes = []; stop_requested = true } ∷ stopped_turns n

module _ {E S Q A : Type 0} (queue : SpscQueue Q A) (consume : S → A → Result E S) where
  -- Every element in order, up to one that the consumer throws on.
  abbrev pub consume_all : S → List A → Drained E S (List A)
  consume_all s [] = drained s []
  consume_all s (a ∷ rest) = elim (consume s a) [ ok t ↦ consume_all t rest | err e ↦ failed e s ]

  -- What shows of how the loop stands: of the queue, its elements.
  abbrev pub shown : Drained E S Q → Drained E S (List A)
  shown (drained s q) = drained s (queue.contents q)
  shown (failed e s) = failed e s
  shown (waiting s q) = waiting s (queue.contents q)

  -- The turns after one that went so.
  abbrev after : ℕ → S → Q → Turned E S Q → Drained E S Q
  after n s q left = drained s q
  after n s q (went u r) = drain queue consume u r (stopped_turns n)
  after n s q (threw e) = failed e s

  abbrev consume_next : S → Option (A × List A) → Drained E S (List A)
  consume_next s none = drained s []
  consume_next s (some (a, rest)) = consume_all s (a ∷ rest)

  turn_empty : (s : S) (q : Q) → queue.contents q ≡ [] → turn queue consume s q true ≡ left
  unfolding turn
  turn_empty s q e = rw (queue.read_available-contents q, e) refl

  turn_some :
      (s : S) (q : Q) (a : A) (rest : List A)
      → queue.contents q ≡ a ∷ rest
      → turn queue consume s q true ≡ take consume s q (queue.consume_one q)
  unfolding turn
  turn_some s q a rest e =
      rw (queue.read_available-contents q, e, lt→ltb 0 (suc (length rest)) (omega arith)) refl

  after-take :
      (n : ℕ) (s : S) (q : Q) (a : A) (rest : List A)
      → ((u : S) (r : Q)
          → queue.contents r ≡ rest
          → shown (drain queue consume u r (stopped_turns n)) ≡ consume_all u (queue.contents r))
      → (p : Option (A × Q)) → held queue.contents p ≡ some (a, rest)
      → shown (after n s q (take consume s q p)) ≡ consume_next s (held queue.contents p)
  unfolding take held consumed
  after-take n s q a rest later none h = cc
  after-take n s q a rest later (some (b, r)) h = at (consume s b)
    where
      same : queue.contents r ≡ rest
      same = cc

      at :
          (x : Result E S)
          → shown (after n s q (consumed x r))
            ≡ elim x [ ok t ↦ consume_all t (queue.contents r) | err e ↦ failed e s ]
      at (ok t) = later t r same
      at (err e) = refl

  -- Once a stop is requested and nothing more is pushed, `Drain` ends within one turn more than the
  -- queue has elements: it has then consumed every element in order, and the queue is empty, or the
  -- consumer threw on an element and none after that one was consumed.
  pub drain_ends :
      (n : ℕ) (s : S) (q : Q)
      → length (queue.contents q) < n
      → shown (drain queue consume s q (stopped_turns n)) ≡ consume_all s (queue.contents q)
  unfolding drain arrive uncons
  drain_ends zero s q h = absurd (omega arith)
  drain_ends (suc n) s q h = at (queue.contents q) refl (λ u r k. drain_ends n u r k)
    where
      at :
          (cs : List A)
          → queue.contents q ≡ cs
          → ((u : S) (r : Q)
              → length (queue.contents r) < n
              → shown (drain queue consume u r (stopped_turns n))
                ≡ consume_all u (queue.contents r))
          → shown (after n s q (turn queue consume s q true)) ≡ consume_all s (queue.contents q)
      at [] e later = rw (turn_empty s q e, e) refl
      at (a ∷ rest) e later =
          let one = queue.consume_one-contents q ∙ ap uncons e in
          let short : length (a ∷ rest) < suc n = subst (λ cs. length cs < suc n) e h in
          rw (turn_some s q a rest e) (
            after-take n s q a rest
              (λ u r k. later u r (subst (λ cs. length cs < n) (sym k) (omega arith)))
              (queue.consume_one q) one
            ∙ ap (consume_next s) one
            ∙ ap (consume_all s) (sym e))
