-- ===== src/Subscription/Attachment.antt =====
-- A controller that is active holds a subscription, or has left it and is on its way to the next.
use agent_multiplex.Base.{
  ℕ, suc, ◌≤◌, ◌≡◌, Bool, true, false, ◌⊎◌, inl, inr, Option, none, some, List, [], ◌∷◌, ◌++◌, ◌==◌,
  Bool-cases, Option-cases, arith,
}
use agent_multiplex.Subscription.{
  Failure, Controller, Callback, Consumption, Job, deliver, retry, resolve_done, on_data, on_error,
  on_complete, on_started, on_stopped, on_connection_state_change, idle, dialing, pending_data,
  overflow, other, unexpected_end, transport_error, mark_live, enqueue, ended, connection_changed,
  call_back, call_back_all, attempt_subscribe, take_subscription, stop, subscribe, fire, refuses,
  consumes, commit_throws,
}
use agent_multiplex.Subscription.Invariant.{fail-inactive, Inv, call_back_all-Inv}
use agent_multiplex.Subscription.Reachable.{
  Undriven, attempt_subscribe-Inv, attempt_subscribe-subscribed, happen-Inv,
}
use agent_multiplex.Subscription.Turns.{
  settle_value, consume, start_value, schedule_retry, advance, Happening, stops, calls, fires,
  advances, happen, run, Options, create, launch,
}

module _ {ℓ} {V X : Type ℓ} where
  -- A controller that is active and has not left its newest attempt holds a subscription.
  abbrev pub Attached : Controller V X → Type 0
  Attached c =
      (c.active ≡ false)
      ⊎ ((c.subscription ≡ some c.generation) ⊎ ((c.subscribed == c.generation) ≡ false))

  mark_live-Attached : (g : ℕ) (c : Controller V X) → Attached c → Attached (mark_live g c)
  unfolding mark_live
  mark_live-Attached g c h = ground arith

  enqueue-Attached : (g : ℕ) (v : V) (c : Controller V X) → Attached c → Attached (enqueue g v c)
  unfolding enqueue
  enqueue-Attached g v c h = ground (arith, fail-inactive (overflow c.max_pending_items) c)

  -- A subscription that has ended is left behind.
  ended-Attached :
      (g : ℕ) (error : Failure X) (c : Controller V X)
      → c.subscribed ≤ c.generation
      → Attached c
      → Attached (ended g error c)
  unfolding ended
  ended-Attached g error c l h = elim (Option-cases c.subscription) [
    | inl e ↦ ground arith
    | inr (o, e) ↦ ground arith
  ]

  call_back-Attached :
      (g : ℕ) (callback : Callback V X) (c : Controller V X)
      → c.subscribed ≤ c.generation
      → Attached c
      → Attached (call_back g callback c)
  unfolding call_back connection_changed
  call_back-Attached g (on_data v) c l h =
      enqueue-Attached g v (mark_live g c) (mark_live-Attached g c h)
  call_back-Attached g (on_error error) c l h = ended-Attached g (other error) c l h
  call_back-Attached g on_complete c l h = ended-Attached g unexpected_end c l h
  call_back-Attached g on_started c l h = mark_live-Attached g c h
  call_back-Attached g on_stopped c l h = ended-Attached g unexpected_end c l h
  call_back-Attached g (on_connection_state_change idle error) c l h = h
  call_back-Attached g (on_connection_state_change pending_data error) c l h =
      mark_live-Attached g c h
  call_back-Attached g (on_connection_state_change dialing error) c l h =
      ground (arith, ended-Attached g (transport_error error) c l h)

  -- What an attempt has come to when the procedure's call is over.
  take_subscription-Attached :
      (g : ℕ) (thrown : Option X) (c : Controller V X)
      → c.subscribed ≡ g
      → g ≤ c.generation
      → Attached (take_subscription g thrown c)
  unfolding take_subscription ended
  take_subscription-Attached g none c e l = ground arith
  take_subscription-Attached g (some error) c e l = elim (Option-cases c.subscription) [
    | inl s ↦ ground arith
    | inr (o, s) ↦ ground arith
  ]

  subscribe-Attached :
      (made : List (Callback V X)) (thrown : Option X) (c : Controller V X)
      → Undriven c
      → Attached (subscribe made thrown c)
  unfolding subscribe
  subscribe-Attached made thrown c h = elim (Bool-cases c.active) [
    | inr a ↦ ground arith
    | inl a ↦
        let g = suc c.generation in
        let begun = attempt_subscribe c in
        let s = attempt_subscribe-subscribed c in
        let (h', k) =
          call_back_all-Inv g made begun (attempt_subscribe-Inv c h a) (omega (arith, s)) in
        let called = call_back_all g made begun in
        let same : called.subscribed ≡ g = ground (arith, s) in
        ground (arith, take_subscription-Attached g thrown called same (ground arith))
  ]

  fire-Attached :
      (made : List (Callback V X)) (thrown : Option X) (c : Controller V X)
      → Inv c
      → c.retry_timer ≡ true
      → Attached (fire made thrown c)
  unfolding fire
  fire-Attached made thrown c i t = elim (Bool-cases c.active) [
    | inr a ↦ ground arith
    | inl a ↦ subscribe-Attached made thrown (record c { retry_timer = false }) (ground arith)
  ]

  advance-Attached :
      (should_retry : Failure X → ℕ → Bool) (outcome : Consumption X) (random : ℕ)
      (jobs : List (Job V X)) (c : Controller V X)
      → Attached c
      → Attached (advance should_retry outcome random jobs c)
  unfolding advance schedule_retry consume start_value settle_value
  advance-Attached should_retry outcome random [] c h = h
  advance-Attached should_retry (refuses error) random (deliver v ∷ rest) c h =
      ground (arith, fail-inactive (other error) c)
  advance-Attached should_retry consumes random (deliver v ∷ rest) c h = ground arith
  advance-Attached should_retry (commit_throws error) random (deliver v ∷ rest) c h =
      ground (arith, fail-inactive (other error) (record c { committed = c.committed ++ v ∷ [] }))
  advance-Attached should_retry outcome random (retry error ∷ rest) c h =
      ground (arith, fail-inactive error (record c { processing = rest }))
  advance-Attached should_retry outcome random (resolve_done ∷ rest) c h = ground arith

module _ {ℓ} {V X : Type ℓ} (should_retry : Failure X → ℕ → Bool) where
  happen-Attached :
      (c : Controller V X) (h : Happening V X)
      → Inv c
      → Attached c
      → Attached (happen should_retry c h)
  unfolding happen stop
  happen-Attached c stops i a = ground arith
  happen-Attached c (calls g callback) i a =
      ground (arith, call_back-Attached g callback c i.held.fresh a)
  happen-Attached c (fires made thrown) i a = elim (Bool-cases c.retry_timer) [
    | inl t ↦ ground (arith, fire-Attached made thrown c i t)
    | inr t ↦ ground arith
  ]
  happen-Attached c (advances outcome random) i a =
      advance-Attached should_retry outcome random c.processing c a

  pub run-Attached :
      (c : Controller V X) (hs : List (Happening V X))
      → Inv c
      → Attached c
      → Attached (run should_retry c hs)
  unfolding run
  run-Attached c [] i a = a
  run-Attached c (h ∷ hs) i a =
      run-Attached (happen should_retry c h) hs (happen-Inv should_retry c h i)
        (happen-Attached c h i a)

module _ {ℓ} {V X : Type ℓ} where
  pub launch-Attached :
      (options : Options) (aborted : Bool) (made : List (Callback V X)) (thrown : Option X)
      (c : Controller V X)
      → create options ≡ some c
      → Attached (launch aborted made thrown c)
  unfolding launch create stop
  launch-Attached options true made thrown c e = ground arith
  launch-Attached options false made thrown c e = subscribe-Attached made thrown c (ground arith)
