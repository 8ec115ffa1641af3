-- ===== src/Subscription/Progress.antt =====
-- A controller that is active gets to its next subscription: it never waits for nothing.
use agent_multiplex.Base.{
  ℕ, ◌-◌, ◌*◌, ◌≤◌, ◌≡◌, refl, Bool, false, ◌⊎◌, inl, inr, Option, none, some, List, [], ◌∷◌,
  length, Option-cases, arith,
}
use agent_multiplex.Subscription.{
  Failure, Controller, Callback, Consumption, Job, deliver, retry, resolve_done, attempt_subscribe,
  take_subscription, fail, subscribe, fire, call_back_all,
}
use agent_multiplex.Subscription.Invariant.{Inv, one_if}
use agent_multiplex.Subscription.Attachment.{Attached, run-Attached, launch-Attached}
use agent_multiplex.Subscription.Reachable.{run-Inv, launch-Inv}
use agent_multiplex.Subscription.Turns.{
  settle_value, start_value, schedule_retry, advance, Happening, fires, advances, happen, run,
  Options, create, launch,
}

-- The turns that are left on a chain, at two for each value.
abbrev pub work_left : Bool → ℕ → ℕ
work_left running jobs = 2 * jobs - one_if running

module _ {ℓ} {V X : Type ℓ} where
  -- A sequence of turns in which the consumer settles and nothing else happens.
  abbrev pub settling : List (Consumption X × ℕ) → List (Happening V X)
  settling [] = []
  settling ((outcome, random) ∷ turns) = advances outcome random ∷ settling turns

  -- A turn leaves the chain a rest of what it was.
  record Shorter (c c' : Controller V X) : Type 0 where
    pub less :
        work_left c'.running (length c'.processing) ≤ work_left c.running (length c.processing) - 1

  fail-processing :
      (error : Failure X) (c : Controller V X)
      → ((fail error c).processing ≡ c.processing) × ((fail error c).running ≡ c.running)
  unfolding fail
  fail-processing error c = elim (Option-cases c.subscription) [
    | inl s ↦ ground arith
    | inr (o, s) ↦ ground arith
  ]

  advance-Shorter :
      (should_retry : Failure X → ℕ → Bool) (outcome : Consumption X) (random : ℕ)
      (jobs : List (Job V X)) (c : Controller V X)
      → c.processing ≡ jobs
      → Shorter c (advance should_retry outcome random jobs c)
  unfolding advance schedule_retry start_value settle_value
  advance-Shorter should_retry outcome random [] c e = ground arith
  advance-Shorter should_retry outcome random (deliver v ∷ rest) c e = ground arith
  advance-Shorter should_retry outcome random (retry error ∷ rest) c e =
      ground (arith, fail-processing error (record c { processing = rest }))
  advance-Shorter should_retry outcome random (resolve_done ∷ rest) c e = ground arith

  -- The chain of promises comes to its end: with two turns for each of its jobs, less one if a value is
  -- in the consumer's hands, and nothing but the consumer's settling, it is empty, however the consumer
  -- settles.
  pub settling-drains :
      (should_retry : Failure X → ℕ → Bool) (c : Controller V X) (turns : List (Consumption X × ℕ))
      → work_left c.running (length c.processing) ≤ length turns
      → (run should_retry c (settling turns)).processing ≡ []
  unfolding run happen
  settling-drains should_retry c [] l = emptied c.processing refl
    where
      emptied : (jobs : List (Job V X)) → c.processing ≡ jobs → c.processing ≡ []
      emptied [] e = e
      emptied (j ∷ jobs) e = absurd (ground arith)
  settling-drains should_retry c ((outcome, random) ∷ turns) l =
      let c' = advance should_retry outcome random c.processing c in
      let shorter = advance-Shorter should_retry outcome random c.processing c refl in
      settling-drains should_retry c' turns (ground arith)

  -- The timer's callback, when the chain is empty.
  fires-subscription :
      (should_retry : Failure X → ℕ → Bool) (c : Controller V X)
      → Inv c
      → Attached c
      → c.processing ≡ []
      → ((happen should_retry c (fires [] none)).active ≡ false)
        ⊎ ((happen should_retry c (fires [] none)).subscription
            ≡ some (happen should_retry c (fires [] none)).generation)
  unfolding happen fire subscribe call_back_all attempt_subscribe take_subscription
  fires-subscription should_retry c i a e = ground arith

  -- From every state of a controller, whatever has happened to it: when the consumer has settled what
  -- is on the chain, and the timer has fired if it was armed, with an attempt to subscribe that calls
  -- nothing back and does not throw, the controller has stopped or failed, or it holds a subscription
  -- of its generation.
  pub settling-resubscribes :
      (should_retry : Failure X → ℕ → Bool) (options : Options) (aborted : Bool)
      (made : List (Callback V X)) (thrown : Option X) (c : Controller V X)
      → create options ≡ some c
      → (hs : List (Happening V X)) (turns : List (Consumption X × ℕ))
      → work_left
          (run should_retry (launch aborted made thrown c) hs).running
          (length (run should_retry (launch aborted made thrown c) hs).processing)
        ≤ length turns
      → ((happen should_retry
            (run should_retry (run should_retry (launch aborted made thrown c) hs) (settling turns))
            (fires [] none)).active
          ≡ false)
        ⊎ ((happen should_retry
              (run should_retry
                (run should_retry (launch aborted made thrown c) hs)
                (settling turns))
              (fires [] none)).subscription
            ≡ some
                (happen should_retry
                  (run should_retry
                    (run should_retry (launch aborted made thrown c) hs)
                    (settling turns))
                  (fires [] none)).generation)
  settling-resubscribes should_retry options aborted made thrown c e hs turns l =
      let begun = launch aborted made thrown c in
      let i = launch-Inv options aborted made thrown c e in
      let before = run should_retry begun hs in
      let i' = run-Inv should_retry begun hs i in
      let a' =
        run-Attached should_retry begun hs i (launch-Attached options aborted made thrown c e) in
      fires-subscription should_retry (run should_retry before (settling turns))
        (run-Inv should_retry before (settling turns) i')
        (run-Attached should_retry before (settling turns) i' a')
        (settling-drains should_retry before turns l)
