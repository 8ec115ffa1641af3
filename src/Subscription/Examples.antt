-- ===== src/Subscription/Examples.antt =====
-- Tests: a controller with a buffer of two values, over two subscriptions.
use agent_multiplex.Base.{
  ℕ, ◌≤◌, ◌≡◌, refl, ◌⊎◌, Bool, true, false, none, some, List, [], ◌∷◌, ◌++◌, length, arith,
}
use agent_multiplex.Subscription.{
  Failure, Controller, Connection, connecting, pending, Callback, on_data, on_error, on_started,
  on_complete, is_stale, call_back, Consumption, consumes, refuses,
}
use agent_multiplex.Subscription.Turns.{
  Happening, stops, calls, fires, advances, happen, run, Options, create, launch,
}
use agent_multiplex.Subscription.Invariant.{Inv, values}
use agent_multiplex.Subscription.Fencing.{SameResult, run-inactive}
use agent_multiplex.Subscription.Progress.{
  work_left, settling, settling-drains, settling-resubscribes,
}
use agent_multiplex.Subscription.Guarantees.{
  launch-run-Inv, launch-run_in_order, launch-run_keeps_all,
}

abbrev small : Options
small = record { max_pending_items = some 2; has_valid_delays = true }

abbrev initial : Controller ℕ ℕ
initial = record {
  max_pending_items = 2;
  current_state = connecting 0;
  active = true;
  generation = 0;
  retry_attempt = 0;
  pending_items = 0;
  processing = [];
  running = false;
  subscription = none;
  retry_timer = false;
  subscribed = 0;
  established = false;
  done = pending;
  open_subscriptions = [];
  received = [];
  consumed = [];
  committed = [];
}

create-small : create small ≡ some initial
unfolding create
create-small = refl

abbrev always : Failure ℕ → ℕ → Bool
always error attempt = true

-- Two values, the end of the subscription, its retry, and a value of the next one.
abbrev reconnecting : List (Happening ℕ ℕ)
reconnecting =
    calls 1 on_started
    ∷ calls 1 (on_data 7)
    ∷ calls 1 (on_data 8)
    ∷ advances consumes 0
    ∷ calls 1 on_complete
    ∷ advances consumes 0
    ∷ advances consumes 0
    ∷ advances consumes 0
    ∷ advances consumes 0
    ∷ fires [] none
    ∷ calls 3 (on_data 9)
    ∷ calls 1 (on_data 5)
    ∷ []

abbrev reached : Controller ℕ ℕ
reached = run always (launch false [] none initial) reconnecting

abbrev overflowing : List (Happening ℕ ℕ)
overflowing = calls 1 (on_data 7) ∷ calls 1 (on_data 8) ∷ calls 1 (on_data 9) ∷ []

abbrev overflown : Controller ℕ ℕ
overflown = run always (launch false [] none initial) overflowing

reached-active : reached.active ≡ true
unfolding run happen launch call_back agent_multiplex.Subscription.subscribe
    agent_multiplex.Subscription.take_subscription agent_multiplex.Subscription.call_back_all
    agent_multiplex.Subscription.attempt_subscribe agent_multiplex.Subscription.mark_live
    agent_multiplex.Subscription.enqueue agent_multiplex.Subscription.ended
    agent_multiplex.Subscription.connection_changed agent_multiplex.Subscription.fail
    agent_multiplex.Subscription.fire agent_multiplex.Subscription.stop
    agent_multiplex.Subscription.Turns.advance agent_multiplex.Subscription.Turns.start_value
    agent_multiplex.Subscription.Turns.consume agent_multiplex.Subscription.Turns.settle_value
    agent_multiplex.Subscription.Turns.schedule_retry
reached-active = refl

reached-received : reached.received ≡ 7 ∷ 8 ∷ 9 ∷ []
unfolding run happen launch call_back agent_multiplex.Subscription.subscribe
    agent_multiplex.Subscription.take_subscription agent_multiplex.Subscription.call_back_all
    agent_multiplex.Subscription.attempt_subscribe agent_multiplex.Subscription.mark_live
    agent_multiplex.Subscription.enqueue agent_multiplex.Subscription.ended
    agent_multiplex.Subscription.connection_changed agent_multiplex.Subscription.fail
    agent_multiplex.Subscription.fire agent_multiplex.Subscription.stop
    agent_multiplex.Subscription.Turns.advance agent_multiplex.Subscription.Turns.start_value
    agent_multiplex.Subscription.Turns.consume agent_multiplex.Subscription.Turns.settle_value
    agent_multiplex.Subscription.Turns.schedule_retry
reached-received = refl

reached-committed : reached.committed ≡ 7 ∷ 8 ∷ []
unfolding run happen launch call_back agent_multiplex.Subscription.subscribe
    agent_multiplex.Subscription.take_subscription agent_multiplex.Subscription.call_back_all
    agent_multiplex.Subscription.attempt_subscribe agent_multiplex.Subscription.mark_live
    agent_multiplex.Subscription.enqueue agent_multiplex.Subscription.ended
    agent_multiplex.Subscription.connection_changed agent_multiplex.Subscription.fail
    agent_multiplex.Subscription.fire agent_multiplex.Subscription.stop
    agent_multiplex.Subscription.Turns.advance agent_multiplex.Subscription.Turns.start_value
    agent_multiplex.Subscription.Turns.consume agent_multiplex.Subscription.Turns.settle_value
    agent_multiplex.Subscription.Turns.schedule_retry
reached-committed = refl

overflown-inactive : overflown.active ≡ false
unfolding run happen launch call_back agent_multiplex.Subscription.subscribe
    agent_multiplex.Subscription.take_subscription agent_multiplex.Subscription.call_back_all
    agent_multiplex.Subscription.attempt_subscribe agent_multiplex.Subscription.mark_live
    agent_multiplex.Subscription.enqueue agent_multiplex.Subscription.ended
    agent_multiplex.Subscription.connection_changed agent_multiplex.Subscription.fail
    agent_multiplex.Subscription.fire agent_multiplex.Subscription.stop
    agent_multiplex.Subscription.Turns.advance agent_multiplex.Subscription.Turns.start_value
    agent_multiplex.Subscription.Turns.consume agent_multiplex.Subscription.Turns.settle_value
    agent_multiplex.Subscription.Turns.schedule_retry
overflown-inactive = refl

reached-work : work_left reached.running (length reached.processing) ≤ 2
unfolding run happen launch call_back agent_multiplex.Subscription.subscribe
    agent_multiplex.Subscription.take_subscription agent_multiplex.Subscription.call_back_all
    agent_multiplex.Subscription.attempt_subscribe agent_multiplex.Subscription.mark_live
    agent_multiplex.Subscription.enqueue agent_multiplex.Subscription.ended
    agent_multiplex.Subscription.connection_changed agent_multiplex.Subscription.fail
    agent_multiplex.Subscription.fire agent_multiplex.Subscription.stop
    agent_multiplex.Subscription.Turns.advance agent_multiplex.Subscription.Turns.start_value
    agent_multiplex.Subscription.Turns.consume agent_multiplex.Subscription.Turns.settle_value
    agent_multiplex.Subscription.Turns.schedule_retry
reached-work = omega arith

launch-run-Inv_example : Inv reached
launch-run-Inv_example = launch-run-Inv always small false [] none initial create-small reconnecting

launch-run_in_order_example :
    ((rest : List ℕ) × (overflown.received ≡ overflown.consumed ++ rest))
    × ((rest : List ℕ) × (overflown.consumed ≡ overflown.committed ++ rest))
launch-run_in_order_example =
    launch-run_in_order always small false [] none initial create-small overflowing

launch-run_keeps_all_example : reached.received ≡ reached.committed ++ values reached.processing
launch-run_keeps_all_example =
    launch-run_keeps_all always small false [] none initial create-small reconnecting reached-active

settling-resubscribes_example :
    ((happen always
        (run always reached (settling ((consumes, 0) ∷ (consumes, 0) ∷ [])))
        (fires [] none)).active
      ≡ false)
    ⊎ ((happen always
          (run always reached (settling ((consumes, 0) ∷ (consumes, 0) ∷ [])))
          (fires [] none)).subscription
        ≡ some
            (happen always
              (run always reached (settling ((consumes, 0) ∷ (consumes, 0) ∷ [])))
              (fires [] none)).generation)
settling-resubscribes_example =
    settling-resubscribes always small false [] none initial create-small reconnecting
      ((consumes, 0) ∷ (consumes, 0) ∷ []) reached-work

run-inactive_example : SameResult overflown (run always overflown reconnecting)
run-inactive_example = run-inactive always overflown reconnecting overflown-inactive

settling-drains_example :
    (run always reached (settling ((consumes, 0) ∷ (consumes, 0) ∷ []))).processing ≡ []
settling-drains_example =
    settling-drains always reached ((consumes, 0) ∷ (consumes, 0) ∷ []) reached-work
