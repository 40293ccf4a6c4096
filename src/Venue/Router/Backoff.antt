-- ===== src/Venue/Router/Backoff.antt =====
-- How long the supervisor leaves a venue that it cannot reach.
use strategy_nodes.Common.{
  ℕ, suc, ◌+◌, ◌*◌, ◌^◌, min, ◌≤◌, ◌≡◌, refl, ap, ◌∙◌, Bool, true, false, inl, inr, ltb,
  if◌then◌else◌, Bool-cases, List, [], ◌∷◌, arith,
}
use native.Mathlib.Numerals.{unary_clauses}
use strategy_nodes.Venue.Router.{BackoffTimes, Retry, make_retry, supervise}

-- A round in which a venue is tried in vain: the times at which it starts and ends.
pub record Failure : Type 0 where
  pub now : ℕ
  pub ended : ℕ

-- Which of the rounds try the venue.
unfoldable pub attempted : BackoffTimes → Retry → List Failure → List Bool
attempted backoff retry [] = []
attempted backoff retry (f ∷ fs) =
    let (tried, next) = supervise backoff retry false f.now false f.ended in
    tried ∷ attempted backoff next fs

-- Which of them should: those from the time `due` on. After `n` tries and one more, the next is due
-- `initial * 2^n` after the end of that one, or `max` where that is less.
unfoldable pub expected : BackoffTimes → ℕ → ℕ → List Failure → List Bool
expected backoff n due [] = []
expected backoff n due (f ∷ fs) =
    let early = expected backoff n due fs in
    let tried = expected backoff (suc n) (f.ended + min (backoff.initial * 2 ^ n) backoff.max) fs in
    if ltb f.now due then false ∷ early else true ∷ tried

double_min : (x m : ℕ) → min (min x m * 2) m ≡ min (x * 2) m
double_min x m = omega arith

power_suc : (i k : ℕ) → i * 2 ^ k * 2 ≡ i * 2 ^ suc k
power_suc i k = simp unary_clauses (omega arith)

supervise_early :
    (backoff : BackoffTimes) (retry : Retry) (f : Failure)
    → ltb f.now retry.next_attempt ≡ true
    → supervise backoff retry false f.now false f.ended ≡ (false, retry)
unfolding supervise
supervise_early backoff retry f y =
    ap
      (λ b. if b then (false, retry) else (
        true,
        record { next_attempt = f.ended + retry.delay; delay = min (retry.delay * 2) backoff.max },
      ))
      y

supervise_failed :
    (backoff : BackoffTimes) (retry : Retry) (f : Failure)
    → ltb f.now retry.next_attempt ≡ false
    → supervise backoff retry false f.now false f.ended ≡ (
      true,
      record { next_attempt = f.ended + retry.delay; delay = min (retry.delay * 2) backoff.max },
    )
unfolding supervise
supervise_failed backoff retry f n =
    ap
      (λ b. if b then (false, retry) else (
        true,
        record { next_attempt = f.ended + retry.delay; delay = min (retry.delay * 2) backoff.max },
      ))
      n

attempted_from :
    (backoff : BackoffTimes) (retry : Retry) (fs : List Failure) (k : ℕ)
    → retry.delay ≡ min (backoff.initial * 2 ^ k) backoff.max
    → attempted backoff retry fs ≡ expected backoff k retry.next_attempt fs
unfolding attempted expected
attempted_from backoff retry [] k h = refl
attempted_from backoff retry (f ∷ fs) k h = elim (Bool-cases (ltb f.now retry.next_attempt)) [
  | inl y ↦
      rw (supervise_early backoff retry f y, y)
        (ap (λ bs. false ∷ bs) (attempted_from backoff retry fs k h))
  | inr n ↦
      let next : Retry = record {
        next_attempt = f.ended + retry.delay;
        delay = min (retry.delay * 2) backoff.max;
      } in
      let doubled : next.delay ≡ min (backoff.initial * 2 ^ suc k) backoff.max =
        ap (λ d. min (d * 2) backoff.max) h
        ∙ double_min (backoff.initial * 2 ^ k) backoff.max
        ∙ ap (λ d. min d backoff.max) (power_suc backoff.initial k) in
      rw (supervise_failed backoff retry f n, n)
        (ap (λ bs. true ∷ bs)
          (attempted_from backoff next fs (suc k) doubled
            ∙ ap (λ d. expected backoff (suc k) (f.ended + d) fs) h))
]

-- While a venue stays down and cannot be reached, it is tried in the first round, and after n
-- tries the next one is in the first round that starts no earlier than `initial * 2^(n - 1)`, or
-- `max` where that is less, after the end of the last. The initial wait is at most the longest.
pub backoff_doubles :
    (backoff : BackoffTimes) (fs : List Failure)
    → backoff.initial ≤ backoff.max
    → attempted backoff (make_retry backoff) fs ≡ expected backoff 0 0 fs
unfolding make_retry
backoff_doubles backoff fs h = attempted_from backoff (make_retry backoff) fs 0 (omega (arith, h))
