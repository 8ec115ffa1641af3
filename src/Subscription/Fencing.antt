-- ===== src/Subscription/Fencing.antt =====
-- What can no longer reach a controller: callbacks of subscriptions that it has left, and everything
-- once it has stopped or failed.
use agent_multiplex.Base.{ℕ, ◌≡◌, refl, Bool, true, false, List, [], ◌∷◌, arith}
use agent_multiplex.Subscription.{
  Failure, Controller, Callback, Consumption, Job, deliver, retry, resolve_done, on_data, on_error,
  on_complete, on_started, on_stopped, on_connection_state_change, idle, dialing, pending_data,
  is_stale, mark_live, enqueue, ended, connection_changed, call_back, stop, fail, subscribe, fire,
  refuses, consumes, commit_throws,
}
use agent_multiplex.Subscription.Turns.{
  settle_value, consume, start_value, schedule_retry, advance, Happening, stops, calls, fires,
  advances, happen, run,
}

module _ {ℓ} {V X : Type ℓ} where
  -- A callback of a generation that is not the controller's, or of a controller that has stopped or
  -- failed, changes nothing.
  pub call_back-stale :
      (g : ℕ) (callback : Callback V X) (c : Controller V X)
      → is_stale g c ≡ true
      → call_back g callback c ≡ c
  unfolding call_back connection_changed mark_live enqueue ended
  call_back-stale g (on_data v) c h = ground arith
  call_back-stale g (on_error error) c h = ground arith
  call_back-stale g on_complete c h = ground arith
  call_back-stale g on_started c h = ground arith
  call_back-stale g on_stopped c h = ground arith
  call_back-stale g (on_connection_state_change idle error) c h = refl
  call_back-stale g (on_connection_state_change pending_data error) c h = ground arith
  call_back-stale g (on_connection_state_change dialing error) c h = ground arith

  -- What a controller has shown and done.
  pub record SameResult (c c' : Controller V X) : Type ℓ where
    pub active : c'.active ≡ c.active
    pub current_state : c'.current_state ≡ c.current_state
    pub consumed : c'.consumed ≡ c.consumed
    pub committed : c'.committed ≡ c.committed
    pub open_subscriptions : c'.open_subscriptions ≡ c.open_subscriptions

  advance-inactive :
      (should_retry : Failure X → ℕ → Bool) (outcome : Consumption X) (random : ℕ)
      (jobs : List (Job V X)) (c : Controller V X)
      → c.active ≡ false
      → SameResult c (advance should_retry outcome random jobs c)
  unfolding advance settle_value consume start_value schedule_retry fail
  advance-inactive should_retry outcome random [] c h = ground arith
  advance-inactive should_retry (refuses error) random (deliver v ∷ rest) c h = ground arith
  advance-inactive should_retry consumes random (deliver v ∷ rest) c h = ground arith
  advance-inactive should_retry (commit_throws error) random (deliver v ∷ rest) c h = ground arith
  advance-inactive should_retry outcome random (retry error ∷ rest) c h = ground arith
  advance-inactive should_retry outcome random (resolve_done ∷ rest) c h = ground arith

  happen-inactive :
      (should_retry : Failure X → ℕ → Bool) (c : Controller V X) (h : Happening V X)
      → c.active ≡ false
      → SameResult c (happen should_retry c h)
  unfolding happen stop fire subscribe
  happen-inactive should_retry c stops i = ground arith
  happen-inactive should_retry c (calls g callback) i =
      ground (arith, call_back-stale g callback c (ground arith))
  happen-inactive should_retry c (fires made thrown) i = ground arith
  happen-inactive should_retry c (advances outcome random) i =
      advance-inactive should_retry outcome random c.processing c i

  -- Whatever happens to a controller that has stopped or failed, it stays in that state, gives
  -- nothing more to the consumer, commits nothing more, and subscribes to nothing.
  pub run-inactive :
      (should_retry : Failure X → ℕ → Bool) (c : Controller V X) (hs : List (Happening V X))
      → c.active ≡ false
      → SameResult c (run should_retry c hs)
  unfolding run
  run-inactive should_retry c [] i = ground arith
  run-inactive should_retry c (h ∷ hs) i =
      let first = happen-inactive should_retry c h i in
      let rest = run-inactive should_retry (happen should_retry c h) hs (ground arith) in
      ground arith
