-- ===== src/Subscription/Reachable.antt =====
-- The invariant of a controller over every sequence of turns, from the constructor on.
use agent_multiplex.Base.{
  ℕ, suc, ◌≡◌, ◌∙◌, refl, Bool, true, false, inl, inr, Option, none, some, List, [], ◌∷◌, ◌++◌, leb,
  Bool-cases, Option-cases, arith,
}
use agent_multiplex.Subscription.{
  Failure, other, Controller, Callback, Consumption, Job, deliver, retry, resolve_done, fail,
  call_back_all, attempt_subscribe, take_subscription, subscribe, fire, refuses, consumes,
  commit_throws,
}
use agent_multiplex.Subscription.Invariant.{
  retry_count, Held, Inv, fail-Inv, stop-Inv, ended-Inv, call_back-Inv, call_back_all-Inv,
}
use agent_multiplex.Subscription.Turns.{
  settle_value, consume, start_value, schedule_retry, advance, Happening, stops, calls, fires,
  advances, happen, run, Options, create, launch,
}

module _ {ℓ} {V X : Type ℓ} where
  -- Nothing drives the controller yet: the state in which `subscribe` is called.
  pub record Undriven (c : Controller V X) : Type 0 where
    pub held : Held c
    pub no_retry : retry_count c.processing ≡ 0
    pub no_timer : c.retry_timer ≡ false
    pub no_subscription : c.subscription ≡ none

  pub attempt_subscribe-Inv :
      (c : Controller V X) → Undriven c → c.active ≡ true → Inv (attempt_subscribe c)
  unfolding attempt_subscribe
  attempt_subscribe-Inv c h a = ground arith

  pub attempt_subscribe-subscribed :
      (c : Controller V X) → (attempt_subscribe c).subscribed ≡ suc c.generation
  unfolding attempt_subscribe
  attempt_subscribe-subscribed c = refl

  attempt_subscribe-subscription :
      (c : Controller V X) → (attempt_subscribe c).subscription ≡ c.subscription
  unfolding attempt_subscribe
  attempt_subscribe-subscription c = refl

  take_subscription-Inv :
      (g : ℕ) (thrown : Option X) (c : Controller V X)
      → Inv c
      → c.subscribed ≡ g
      → c.subscription ≡ none
      → Inv (take_subscription g thrown c)
  unfolding take_subscription
  take_subscription-Inv g none c h s e = ground arith
  take_subscription-Inv g (some error) c h s e = ended-Inv g (other error) c h (ground arith)

  subscribe-Inv :
      (made : List (Callback V X)) (thrown : Option X) (c : Controller V X)
      → Undriven c
      → c.active ≡ true
      → Inv (subscribe made thrown c)
  unfolding subscribe
  subscribe-Inv made thrown c h a =
      let g = suc c.generation in
      let begun = attempt_subscribe c in
      let s : begun.subscribed ≡ g = attempt_subscribe-subscribed c in
      let n : begun.subscription ≡ none = attempt_subscribe-subscription c ∙ h.no_subscription in
      let (h', k) = call_back_all-Inv g made begun (attempt_subscribe-Inv c h a) (omega arith) in
      let called = call_back_all g made begun in
      let taken = take_subscription-Inv g thrown called h' (ground arith) (ground arith) in
      ground (arith, taken)

  fire-Inv :
      (made : List (Callback V X)) (thrown : Option X) (c : Controller V X)
      → Inv c
      → c.retry_timer ≡ true
      → Inv (fire made thrown c)
  unfolding fire
  fire-Inv made thrown c h t =
      subscribe-Inv made thrown (record c { retry_timer = false }) (ground arith) (ground arith)

  schedule_retry-Inv :
      (should_retry : Failure X → ℕ → Bool) (error : Failure X) (random : ℕ) (c : Controller V X)
      (rest : List (Job V X))
      → Inv c
      → c.processing ≡ retry error ∷ rest
      → Inv (schedule_retry should_retry error random (record c { processing = rest }))
  unfolding schedule_retry fail
  schedule_retry-Inv should_retry error random c rest h e = elim (Option-cases c.subscription) [
    | inl s ↦ ground arith
    | inr (g, s) ↦ ground arith
  ]

  consume-Inv :
      (v : V) (outcome : Consumption X) (c : Controller V X)
      → Inv c
      → Inv (consume v outcome c) × ((consume v outcome c).processing ≡ c.processing)
  unfolding consume fail
  consume-Inv v (refuses error) c h = (
    fail-Inv (other error) c h,
    elim (Option-cases c.subscription) [ inl s ↦ ground arith | inr (g, s) ↦ ground arith ],
  )
  consume-Inv v consumes c h = (ground arith, ground arith)
  consume-Inv v (commit_throws error) c h =
      let c' = record c { committed = c.committed ++ v ∷ [] } in
      let h' : Inv c' = ground arith in
      elim (Option-cases c.subscription) [
        | inl s ↦ (ground (arith, fail-Inv (other error) c' h'), ground arith)
        | inr (g, s) ↦ (ground (arith, fail-Inv (other error) c' h'), ground arith)
      ]

  settle_value-Inv :
      (v : V) (rest : List (Job V X)) (c : Controller V X)
      → Inv c
      → c.processing ≡ deliver v ∷ rest
      → Inv (settle_value rest c)
  unfolding settle_value
  settle_value-Inv v rest c h e = ground arith

  advance-Inv :
      (should_retry : Failure X → ℕ → Bool) (outcome : Consumption X) (random : ℕ)
      (jobs : List (Job V X)) (c : Controller V X)
      → c.processing ≡ jobs
      → Inv c
      → Inv (advance should_retry outcome random jobs c)
  unfolding advance start_value
  advance-Inv should_retry outcome random [] c e h = h
  advance-Inv should_retry outcome random (deliver v ∷ rest) c e h =
      let (h', e') = consume-Inv v outcome c h in
      let settled = settle_value-Inv v rest (consume v outcome c) h' (ground arith) in
      let skipped = settle_value-Inv v rest c h e in ground (arith, settled, skipped)
  advance-Inv should_retry outcome random (retry error ∷ rest) c e h =
      schedule_retry-Inv should_retry error random c rest h e
  advance-Inv should_retry outcome random (resolve_done ∷ rest) c e h = ground arith

module _ {ℓ} {V X : Type ℓ} (should_retry : Failure X → ℕ → Bool) where
  pub happen-Inv : (c : Controller V X) (h : Happening V X) → Inv c → Inv (happen should_retry c h)
  unfolding happen
  happen-Inv c stops i = stop-Inv c i
  happen-Inv c (calls g callback) i = elim (Bool-cases (leb g c.subscribed)) [
    | inl l ↦ ground (arith, (call_back-Inv g callback c i (ground arith)).0)
    | inr l ↦ ground arith
  ]
  happen-Inv c (fires made thrown) i = elim (Bool-cases c.retry_timer) [
    | inl t ↦ ground (arith, fire-Inv made thrown c i t)
    | inr t ↦ ground arith
  ]
  happen-Inv c (advances outcome random) i =
      advance-Inv should_retry outcome random c.processing c refl i

  pub run-Inv :
      (c : Controller V X) (hs : List (Happening V X)) → Inv c → Inv (run should_retry c hs)
  unfolding run
  run-Inv c [] i = i
  run-Inv c (h ∷ hs) i = run-Inv (happen should_retry c h) hs (happen-Inv c h i)

module _ {ℓ} {V X : Type ℓ} where
  pub launch-Inv :
      (options : Options) (aborted : Bool) (made : List (Callback V X)) (thrown : Option X)
      (c : Controller V X)
      → create options ≡ some c
      → Inv (launch aborted made thrown c)
  unfolding launch create
  launch-Inv options true made thrown c e = stop-Inv c (ground arith)
  launch-Inv options false made thrown c e =
      subscribe-Inv made thrown c (ground arith) (ground arith)
