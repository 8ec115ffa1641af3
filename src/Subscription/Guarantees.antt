-- ===== src/Subscription/Guarantees.antt =====
-- What a controller guarantees from its constructor on, whatever happens to it.
use agent_multiplex.Base.{ℕ, ◌≡◌, Bool, true, Option, some, List, ◌++◌}
use agent_multiplex.Subscription.{Failure, Controller, Callback}
use agent_multiplex.Subscription.Invariant.{Inv, values}
use agent_multiplex.Subscription.Order.{InOrder-unread, InOrder-uncommitted, InOrder-kept}
use agent_multiplex.Subscription.Delivery.{launch-InOrder, run-InOrder}
use agent_multiplex.Subscription.Reachable.{launch-Inv, run-Inv}
use agent_multiplex.Subscription.Turns.{Happening, run, Options, create, launch}

module _ {ℓ} {V X : Type ℓ} (should_retry : Failure X → ℕ → Bool) (options : Options)
    (aborted : Bool) (made : List (Callback V X)) (thrown : Option X) (c : Controller V X) where
  -- Whatever happens to a controller from its constructor on, its buffer is counted and within
  -- `maxPendingItems` and no subscription is open but its current one. While it is active, exactly one
  -- of these drives it: its newest attempt, one retry on the chain, the armed timer. Once it has
  -- stopped or failed it holds no subscription and no timer.
  pub launch-run-Inv :
      create options ≡ some c
      → (hs : List (Happening V X)) → Inv (run should_retry (launch aborted made thrown c) hs)
  launch-run-Inv e hs =
      run-Inv should_retry (launch aborted made thrown c) hs
        (launch-Inv options aborted made thrown c e)

  -- Whatever happens to a controller from its constructor on, the values that it has given to the
  -- consumer are a beginning of those that it has accepted, in their order, and those that were
  -- committed are a beginning of those that the consumer got.
  pub launch-run_in_order :
      create options ≡ some c
      → (hs : List (Happening V X))
      → ((rest : List V) × ((run should_retry (launch aborted made thrown c) hs).received
            ≡ (run should_retry (launch aborted made thrown c) hs).consumed ++ rest))
        × ((rest : List V) × ((run should_retry (launch aborted made thrown c) hs).consumed
              ≡ (run should_retry (launch aborted made thrown c) hs).committed ++ rest))
  launch-run_in_order e hs =
      let c' = run should_retry (launch aborted made thrown c) hs in
      let ordered =
        run-InOrder should_retry (launch aborted made thrown c) hs
          (launch-InOrder options aborted made thrown c e) in
      (InOrder-unread c' ordered, InOrder-uncommitted c' ordered)

  -- While a controller is active, every value that it has accepted is committed or still on its chain,
  -- in order, over all its subscriptions: none is dropped or doubled.
  pub launch-run_keeps_all :
      create options ≡ some c
      → (hs : List (Happening V X))
      → (run should_retry (launch aborted made thrown c) hs).active ≡ true
      → (run should_retry (launch aborted made thrown c) hs).received
        ≡ (run should_retry (launch aborted made thrown c) hs).committed
          ++ values (run should_retry (launch aborted made thrown c) hs).processing
  launch-run_keeps_all e hs a =
      InOrder-kept (run should_retry (launch aborted made thrown c) hs)
        (run-InOrder should_retry (launch aborted made thrown c) hs
          (launch-InOrder options aborted made thrown c e))
        a
