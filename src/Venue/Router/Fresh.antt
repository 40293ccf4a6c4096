-- ===== src/Venue/Router/Fresh.antt =====
-- No two subscriptions are asked of the venues under one id.
use strategy_nodes.Common.{
  ℕ, suc, ◌+◌, ◌^◌, ◌≡◌, ◌≤◌, ◌<◌, refl, sym, subst, false, inl, inr, List, [], ◌∷◌, ◌++◌, ltb,
  length, Bool-cases, Option-cases, arith,
}
use strategy_nodes.SortedMap.{find}
use strategy_nodes.SortedMap.Orders.{ℕ_less}
use strategy_nodes.L2.Message.{BookSpec}
use strategy_nodes.Venue.Ids.{
  VenueId, venue_number, Sink, max_subscriptions_allowed, make_subscription_id, counter_of,
  venue_of,
}
use strategy_nodes.Venue.Ids.Laws.{make_subscription_id_fields}
use strategy_nodes.Venue.Manager.{
  Subscribed, subscribed, refused, id_in_use, receiver_threw, attach_threw,
}
use strategy_nodes.Venue.Router.{
  ManagerApi, Router, put_manager, take_counter, subscribe_under, subscribe, unsubscribe,
  list_pairs,
}

pub data Call (W : Type 0) : Type 0 where
  subscribes : VenueId → Sink → BookSpec → W → Call W
  unsubscribes : ℕ → Call W
  lists_pairs : VenueId → W → Call W

module _ {S W : Type 0} (api : ManagerApi S W) where
  -- The manager that answers a subscription with the id that it was given.
  abbrev pub echo : ManagerApi S W
  echo = record {
    name = api.name;
    healthy = api.healthy;
    subscribe = λ m id book w. (m, subscribed id);
    unsubscribe = api.unsubscribe;
    list = api.list;
    list_pairs = api.list_pairs;
  }

  abbrev pub ids_of : Subscribed → List ℕ
  ids_of (subscribed id) = id ∷ []
  ids_of (refused e) = []
  ids_of id_in_use = []
  ids_of receiver_threw = []
  ids_of attach_threw = []

  -- The id that a call asks a manager to subscribe under, if it asks one.
  unfoldable pub asked : Router S → Call W → List ℕ
  asked r (subscribes venue sink book w) = ids_of (subscribe echo r venue sink book w).1
  asked r (unsubscribes id) = []
  asked r (lists_pairs venue w) = []

  unfoldable pub step : Router S → Call W → Router S
  step r (subscribes venue sink book w) = (subscribe api r venue sink book w).0
  step r (unsubscribes id) = (unsubscribe api r id).0
  step r (lists_pairs venue w) = (list_pairs api r venue w).0

  -- The ids asked for by the calls, in order.
  unfoldable pub asked_by : Router S → List (Call W) → List ℕ
  asked_by r [] = []
  asked_by r (c ∷ cs) = asked r c ++ asked_by (step r c) cs

-- The counters of the ids start at least at `c` and ascend, so no two of them are the same.
abbrev pub Ascends : ℕ → List ℕ → Type 0
Ascends c [] = Unit {0}
Ascends c (id ∷ ids) = (c ≤ counter_of id) × Ascends (suc (counter_of id)) ids

weaken : (b c : ℕ) (ids : List ℕ) → b ≤ c → Ascends c ids → Ascends b ids
weaken b c [] h a = tt
weaken b c (id ∷ ids) h (l, a) = (omega (arith, h, l), a)

-- What a call may do to the counter: leave it, or use it and take the next.
data Moves (c d : ℕ) (ids : List ℕ) : Type 0 where
  stays : d ≡ c → ids ≡ [] → Moves c d ids
  spends : d ≡ suc c → ids ≡ [] → Moves c d ids
  uses : (id : ℕ) → d ≡ suc c → ids ≡ id ∷ [] → counter_of id ≡ c → Moves c d ids

ascend_moved :
    (c d : ℕ) (ids rest : List ℕ)
    → Moves c d ids
    → (d ≤ suc c → Ascends d rest)
    → Ascends c (ids ++ rest)
ascend_moved c d ids rest (stays e l) later =
    subst (λ xs. Ascends c (xs ++ rest)) (sym l)
      (weaken c d rest (omega (arith, e)) (later (omega (arith, e))))
ascend_moved c d ids rest (spends e l) later =
    subst (λ xs. Ascends c (xs ++ rest)) (sym l)
      (weaken c d rest (omega (arith, e)) (later (omega (arith, e))))
ascend_moved c d ids rest (uses id e l f) later =
    subst (λ xs. Ascends c (xs ++ rest)) (sym l)
      (
        omega (arith, f),
        weaken (suc (counter_of id)) d rest (omega (arith, e, f)) (later (omega (arith, e))),
      )

module _ {S W : Type 0} (api : ManagerApi S W) where
  ltb_le : (c m : ℕ) → ltb m c ≡ false → c ≤ m
  ltb_le c m h = ground arith

  subscribe-Moves :
      (r : Router S) (venue : VenueId) (sink : Sink) (book : BookSpec) (w : W)
      → suc r.next_counter < 2 ^ 64
      → Moves r.next_counter
          (step api r (subscribes venue sink book w)).next_counter
          (asked api r (subscribes venue sink book w))
  unfolding step asked subscribe subscribe_under take_counter put_manager
  subscribe-Moves r venue sink book w small =
      elim (Option-cases (find ℕ_less (venue_number venue) r.managers)) [
        | inl e ↦ rw (step, asked, subscribe, e) (stays refl refl)
        | inr (m, e) ↦ elim (Bool-cases (ltb max_subscriptions_allowed r.next_counter)) [
          | inl y ↦ rw (step, asked, subscribe, e, y) (spends (omega (arith, small)) refl)
          | inr n ↦
              rw (step, asked, subscribe, e, n)
                (uses (make_subscription_id r.next_counter venue sink) (omega (arith, small)) refl
                  (make_subscription_id_fields r.next_counter venue sink
                    (ltb_le r.next_counter max_subscriptions_allowed n)).0)
        ]
      ]

  unsubscribe_moves :
      (r : Router S) (id : ℕ) → (unsubscribe api r id).0.next_counter ≡ r.next_counter
  unfolding unsubscribe put_manager
  unsubscribe_moves r id = elim (Option-cases (find ℕ_less (venue_of id) r.managers)) [
    | inl e ↦ rw (unsubscribe, e) refl
    | inr (m, e) ↦ rw (unsubscribe, e) refl
  ]

  pairs_moves :
      (r : Router S) (venue : VenueId) (w : W)
      → (list_pairs api r venue w).0.next_counter ≡ r.next_counter
  unfolding list_pairs put_manager
  pairs_moves r venue w = elim (Option-cases (find ℕ_less (venue_number venue) r.managers)) [
    | inl e ↦ rw (list_pairs, e) refl
    | inr (m, e) ↦ rw (list_pairs, e) refl
  ]

  step-Moves :
      (r : Router S) (c : Call W)
      → suc r.next_counter < 2 ^ 64
      → Moves r.next_counter (step api r c).next_counter (asked api r c)
  unfolding step asked
  step-Moves r (subscribes venue sink book w) small = subscribe-Moves r venue sink book w small
  step-Moves r (unsubscribes id) small = stays (unsubscribe_moves r id) refl
  step-Moves r (lists_pairs venue w) small = stays (pairs_moves r venue w) refl

  -- While fewer than 2^64 counters were taken, the ids that the router asks its venues to subscribe
  -- under have ascending counters, from the next counter on: none is used twice, at any venue,
  -- whatever the calls were and whatever the venues answered.
  pub ids_ascend :
      (r : Router S) (cs : List (Call W))
      → r.next_counter + length cs < 2 ^ 64
      → Ascends r.next_counter (asked_by api r cs)
  unfolding asked_by
  ids_ascend r [] small = tt
  ids_ascend r (c ∷ cs) small =
      ascend_moved r.next_counter (step api r c).next_counter (asked api r c)
        (asked_by api (step api r c) cs) (step-Moves r c (omega (arith, small)))
        (λ h. ids_ascend (step api r c) cs (omega (arith, small, h)))
