-- ===== src/Subscription/Delivery.antt =====
-- Every turn keeps the order in which values reach the consumer.
use mathlib.Core.List.{append-nil, append_assoc}
use agent_multiplex.Base.{
  ℕ, suc, ◌≡◌, ◌∙◌, refl, Bool, true, false, ◌⊎◌, inl, inr, Option, none, some, List, [], ◌∷◌, ◌++◌,
  Bool-cases, Option-cases, arith,
}
use agent_multiplex.Subscription.{
  Failure, Controller, Callback, Consumption, Job, deliver, retry, resolve_done, on_data, on_error,
  on_complete, on_started, on_stopped, on_connection_state_change, idle, dialing, pending_data,
  overflow, other, unexpected_end, transport_error, mark_live, enqueue, ended, connection_changed,
  call_back, call_back_all, attempt_subscribe, take_subscription, fail, subscribe, fire, refuses,
  consumes, commit_throws,
}
use agent_multiplex.Subscription.Invariant.{fail-inactive, values, values-append}
use agent_multiplex.Subscription.Order.{
  InOrder, InOrder-unread, SameValues, ends, fail-InOrder, stop-InOrder, in_hand-append,
}
use agent_multiplex.Subscription.Turns.{
  settle_value, consume, start_value, schedule_retry, advance, Happening, stops, calls, fires,
  advances, happen, run, Options, create, launch,
}

module _ {ℓ} {V X : Type ℓ} where
  mark_live-InOrder : (g : ℕ) (c : Controller V X) → InOrder c → InOrder (mark_live g c)
  unfolding mark_live
  mark_live-InOrder g c h = ground arith

  enqueue-InOrder : (g : ℕ) (v : V) (c : Controller V X) → InOrder c → InOrder (enqueue g v c)
  unfolding enqueue
  enqueue-InOrder g v c h =
      let more : List (Job V X) = deliver v ∷ [] in
      let failing = fail-InOrder (overflow c.max_pending_items) c h in
      elim h [
        | inr e ↦ ground arith
        | inl f ↦
            let held = in_hand-append c.running c.processing more f.busy in
            let assoc = append_assoc c.committed (values c.processing) (v ∷ []) in
            ground (arith, failing, held, assoc, values-append c.processing more)
      ]

  ended-InOrder :
      (g : ℕ) (error : Failure X) (c : Controller V X) → InOrder c → InOrder (ended g error c)
  unfolding ended
  ended-InOrder g error c h =
      let more : List (Job V X) = retry error ∷ [] in
      elim h [
        | inr e ↦ ground arith
        | inl f ↦
            let held = in_hand-append c.running c.processing more f.busy in
            let same = values-append c.processing more ∙ append-nil (values c.processing) in
            elim (Option-cases c.subscription) [
              | inl s ↦ ground (arith, held, same)
              | inr (o, s) ↦ ground (arith, held, same)
            ]
      ]

  call_back-InOrder :
      (g : ℕ) (callback : Callback V X) (c : Controller V X)
      → InOrder c
      → InOrder (call_back g callback c)
  unfolding call_back connection_changed
  call_back-InOrder g (on_data v) c h =
      enqueue-InOrder g v (mark_live g c) (mark_live-InOrder g c h)
  call_back-InOrder g (on_error error) c h = ended-InOrder g (other error) c h
  call_back-InOrder g on_complete c h = ended-InOrder g unexpected_end c h
  call_back-InOrder g on_started c h = mark_live-InOrder g c h
  call_back-InOrder g on_stopped c h = ended-InOrder g unexpected_end c h
  call_back-InOrder g (on_connection_state_change idle error) c h = h
  call_back-InOrder g (on_connection_state_change pending_data error) c h = mark_live-InOrder g c h
  call_back-InOrder g (on_connection_state_change dialing error) c h =
      ground (arith, ended-InOrder g (transport_error error) c h)

  call_back_all-InOrder :
      (g : ℕ) (made : List (Callback V X)) (c : Controller V X)
      → InOrder c
      → InOrder (call_back_all g made c)
  unfolding call_back_all
  call_back_all-InOrder g [] c h = h
  call_back_all-InOrder g (call ∷ rest) c h =
      call_back_all-InOrder g rest (call_back g call c) (call_back-InOrder g call c h)

  attempt_subscribe-InOrder : (c : Controller V X) → InOrder c → InOrder (attempt_subscribe c)
  unfolding attempt_subscribe
  attempt_subscribe-InOrder c h = ground arith

  take_subscription-InOrder :
      (g : ℕ) (thrown : Option X) (c : Controller V X)
      → InOrder c
      → InOrder (take_subscription g thrown c)
  unfolding take_subscription
  take_subscription-InOrder g none c h = ground arith
  take_subscription-InOrder g (some error) c h = ended-InOrder g (other error) c h

  subscribe-InOrder :
      (made : List (Callback V X)) (thrown : Option X) (c : Controller V X)
      → InOrder c
      → InOrder (subscribe made thrown c)
  unfolding subscribe
  subscribe-InOrder made thrown c h =
      let g = suc c.generation in
      let begun = attempt_subscribe-InOrder c h in
      let called = call_back_all-InOrder g made (attempt_subscribe c) begun in
      let taken =
        take_subscription-InOrder g thrown (call_back_all g made (attempt_subscribe c)) called in
      ground (arith, taken, h)

  fire-InOrder :
      (made : List (Callback V X)) (thrown : Option X) (c : Controller V X)
      → InOrder c
      → InOrder (fire made thrown c)
  unfolding fire
  fire-InOrder made thrown c h =
      subscribe-InOrder made thrown (record c { retry_timer = false }) (ground arith)

  fail-SameValues : (error : Failure X) (c : Controller V X) → SameValues c (fail error c)
  unfolding fail
  fail-SameValues error c = elim (Option-cases c.subscription) [
    | inl s ↦ ground arith
    | inr (o, s) ↦ ground arith
  ]

  settle_value-inactive :
      (rest : List (Job V X)) (c : Controller V X)
      → InOrder c
      → c.active ≡ false
      → InOrder (settle_value rest c)
  unfolding settle_value
  settle_value-inactive rest c h i = ends c (settle_value rest c) h (ground arith) i

  -- What is in hand at a failed commit has been committed.
  settle-commit_throws :
      (v : V) (rest : List (Job V X)) (error : Failure X) (c : Controller V X)
      → InOrder c
      → c.active ≡ true
      → c.processing ≡ deliver v ∷ rest
      → c.running ≡ true
      → InOrder (settle_value rest (fail error (record c { committed = c.committed ++ v ∷ [] })))
  unfolding settle_value
  settle-commit_throws v rest error c h a e r =
      let c' = record c { committed = c.committed ++ v ∷ [] } in
      let same = fail-SameValues error c' in
      let inactive = fail-inactive error c' in
      let (unread, u) = InOrder-unread c h in
      inr record {
        inactive = inactive;
        unread = (unread, ground arith);
        uncommitted = ([], ground (arith, append-nil (c.committed ++ v ∷ [])));
      }

  settle_committed :
      (v : V) (rest : List (Job V X)) (c : Controller V X)
      → InOrder c
      → c.active ≡ true
      → c.processing ≡ deliver v ∷ rest
      → c.running ≡ true
      → InOrder
          (settle_value rest (record c { committed = c.committed ++ v ∷ []; retry_attempt = 0 }))
  unfolding settle_value
  settle_committed v rest c h a e r =
      ground
        (arith, append_assoc c.committed (v ∷ []) (values rest), append-nil (c.committed ++ v ∷ []))

  start_value-InOrder :
      (v : V) (rest : List (Job V X)) (c : Controller V X)
      → InOrder c
      → c.processing ≡ deliver v ∷ rest
      → c.running ≡ false
      → InOrder (start_value v rest c)
  unfolding start_value
  start_value-InOrder v rest c h e r = elim (Bool-cases c.active) [
    | inr i ↦ ground (arith, settle_value-inactive rest c h i)
    | inl a ↦ ground (arith, append-nil c.committed)
  ]

  schedule_retry-InOrder :
      (should_retry : Failure X → ℕ → Bool) (error : Failure X) (random : ℕ) (c : Controller V X)
      (rest : List (Job V X))
      → InOrder c
      → c.processing ≡ retry error ∷ rest
      → InOrder (schedule_retry should_retry error random (record c { processing = rest }))
  unfolding schedule_retry
  schedule_retry-InOrder should_retry error random c rest h e =
      let popped : InOrder (record c { processing = rest }) = ground arith in
      ground (arith, popped, fail-InOrder error (record c { processing = rest }) popped)

  -- The work for the value in hand, with the end of it.
  settle-InOrder :
      (v : V) (rest : List (Job V X)) (outcome : Consumption X) (c : Controller V X)
      → InOrder c
      → c.processing ≡ deliver v ∷ rest
      → c.running ≡ true
      → InOrder (settle_value rest (consume v outcome c))
  unfolding consume
  settle-InOrder v rest (refuses error) c h e r =
      settle_value-inactive rest (fail (other error) c) (fail-InOrder (other error) c h)
        (fail-inactive (other error) c)
  settle-InOrder v rest consumes c h e r = settle_consumes (Bool-cases c.active)
    where
      settle_consumes :
          (c.active ≡ true) ⊎ (c.active ≡ false)
          → InOrder (settle_value rest (consume v consumes c))
      settle_consumes (inr i) = ground (arith, settle_value-inactive rest c h i)
      settle_consumes (inl a) = ground (arith, settle_committed v rest c h a e r)
  settle-InOrder v rest (commit_throws error) c h e r = elim (Bool-cases c.active) [
    | inr i ↦ ground (arith, settle_value-inactive rest c h i)
    | inl a ↦ ground (arith, settle-commit_throws v rest (other error) c h a e r)
  ]

  advance-InOrder :
      (should_retry : Failure X → ℕ → Bool) (outcome : Consumption X) (random : ℕ)
      (jobs : List (Job V X)) (c : Controller V X)
      → c.processing ≡ jobs
      → InOrder c
      → InOrder (advance should_retry outcome random jobs c)
  unfolding advance
  advance-InOrder should_retry outcome random [] c e h = h
  advance-InOrder should_retry outcome random (deliver v ∷ rest) c e h =
      elim (Bool-cases c.running) [
        | inl r ↦ ground (arith, settle-InOrder v rest outcome c h e r)
        | inr r ↦ ground (arith, start_value-InOrder v rest c h e r)
      ]
  advance-InOrder should_retry outcome random (retry error ∷ rest) c e h =
      schedule_retry-InOrder should_retry error random c rest h e
  advance-InOrder should_retry outcome random (resolve_done ∷ rest) c e h = ground arith

module _ {ℓ} {V X : Type ℓ} (should_retry : Failure X → ℕ → Bool) where
  happen-InOrder :
      (c : Controller V X) (h : Happening V X) → InOrder c → InOrder (happen should_retry c h)
  unfolding happen
  happen-InOrder c stops i = stop-InOrder c i
  happen-InOrder c (calls g callback) i = ground (arith, call_back-InOrder g callback c i)
  happen-InOrder c (fires made thrown) i = ground (arith, fire-InOrder made thrown c i)
  happen-InOrder c (advances outcome random) i =
      advance-InOrder should_retry outcome random c.processing c refl i

  pub run-InOrder :
      (c : Controller V X) (hs : List (Happening V X)) → InOrder c → InOrder (run should_retry c hs)
  unfolding run
  run-InOrder c [] i = i
  run-InOrder c (h ∷ hs) i = run-InOrder (happen should_retry c h) hs (happen-InOrder c h i)

module _ {ℓ} {V X : Type ℓ} where
  pub launch-InOrder :
      (options : Options) (aborted : Bool) (made : List (Callback V X)) (thrown : Option X)
      (c : Controller V X)
      → create options ≡ some c
      → InOrder (launch aborted made thrown c)
  unfolding launch create
  launch-InOrder options true made thrown c e = stop-InOrder c (ground arith)
  launch-InOrder options false made thrown c e = subscribe-InOrder made thrown c (ground arith)
