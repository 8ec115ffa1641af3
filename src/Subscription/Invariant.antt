-- ===== src/Subscription/Invariant.antt =====
-- What holds of a controller between two turns of the event loop.
use agent_multiplex.Base.{
  ℕ, suc, ◌+◌, ◌≤◌, ◌≡◌, refl, Bool, true, false, ◌⊎◌, inl, inr, Option, none, some, List, [], ◌∷◌,
  ◌++◌, ◌==◌, Option-cases, arith,
}
use agent_multiplex.Subscription.{
  Failure, overflow, unexpected_end, other, transport_error, Controller, Callback, Job, deliver,
  retry, resolve_done, on_data, on_error, on_complete, on_started, on_stopped,
  on_connection_state_change, idle, dialing, pending_data, remove, unsubscribe, fail, stop,
  mark_live, enqueue, ended, connection_changed, call_back, call_back_all,
}

abbrev pub as_list : Option ℕ → List ℕ
as_list none = []
as_list (some g) = g ∷ []

abbrev pub one_if : Bool → ℕ
one_if true = 1
one_if false = 0

module _ {ℓ} {V X : Type ℓ} where
  -- The values on the chain.
  abbrev pub values : List (Job V X) → List V
  values [] = []
  values (deliver v ∷ jobs) = v ∷ values jobs
  values (retry error ∷ jobs) = values jobs
  values (resolve_done ∷ jobs) = values jobs

  abbrev pub value_count : List (Job V X) → ℕ
  value_count [] = 0
  value_count (deliver v ∷ jobs) = suc (value_count jobs)
  value_count (retry error ∷ jobs) = value_count jobs
  value_count (resolve_done ∷ jobs) = value_count jobs

  abbrev pub retry_count : List (Job V X) → ℕ
  retry_count [] = 0
  retry_count (deliver v ∷ jobs) = retry_count jobs
  retry_count (retry error ∷ jobs) = suc (retry_count jobs)
  retry_count (resolve_done ∷ jobs) = retry_count jobs

  pub values-append :
      (jobs more : List (Job V X)) → values (jobs ++ more) ≡ values jobs ++ values more
  values-append [] more = refl
  values-append (deliver v ∷ jobs) more = ground (arith, values-append jobs more)
  values-append (retry error ∷ jobs) more = values-append jobs more
  values-append (resolve_done ∷ jobs) more = values-append jobs more

  pub value_count-append :
      (jobs more : List (Job V X))
      → value_count (jobs ++ more) ≡ value_count jobs + value_count more
  value_count-append [] more = omega arith
  value_count-append (deliver v ∷ jobs) more = omega (arith, value_count-append jobs more)
  value_count-append (retry error ∷ jobs) more = value_count-append jobs more
  value_count-append (resolve_done ∷ jobs) more = value_count-append jobs more

  pub retry_count-append :
      (jobs more : List (Job V X))
      → retry_count (jobs ++ more) ≡ retry_count jobs + retry_count more
  retry_count-append [] more = omega arith
  retry_count-append (deliver v ∷ jobs) more = retry_count-append jobs more
  retry_count-append (retry error ∷ jobs) more = omega (arith, retry_count-append jobs more)
  retry_count-append (resolve_done ∷ jobs) more = retry_count-append jobs more

-- The buffer is counted and bounded, and only the current subscription is open.
pub record Held {ℓ} {V X : Type ℓ} (c : Controller V X) : Type 0 where
  pub counted : c.pending_items ≡ value_count c.processing
  pub bounded : c.pending_items ≤ c.max_pending_items
  pub opened : c.open_subscriptions ≡ as_list c.subscription
  pub fresh : c.subscribed ≤ c.generation

-- A controller is driven by exactly one of: an attempt that has not ended, a retry on the chain, the
-- armed timer.
pub record Driven {ℓ} {V X : Type ℓ} (c : Controller V X) : Type 0 where
  pub one_driver :
      one_if (c.subscribed == c.generation) + (retry_count c.processing + one_if c.retry_timer) ≡ 1
  pub current : (c.subscription ≡ none) ⊎ (c.subscription ≡ some c.subscribed)
  pub idle : (c.subscription ≡ none) ⊎ (c.subscribed ≡ c.generation)

-- A controller that has stopped or failed holds nothing.
pub record Released {ℓ} {V X : Type ℓ} (c : Controller V X) : Type 0 where
  pub inactive : c.active ≡ false
  pub no_subscription : c.subscription ≡ none
  pub no_timer : c.retry_timer ≡ false

pub record Inv {ℓ} {V X : Type ℓ} (c : Controller V X) : Type 0 where
  pub held : Held c
  pub phase : ((c.active ≡ true) × Driven c) ⊎ Released c

remove-as_list : (g : ℕ) → remove g (g ∷ []) ≡ []
remove-as_list g = ground arith

module _ {ℓ} {V X : Type ℓ} where
  pub fail-Inv : (error : Failure X) (c : Controller V X) → Inv c → Inv (fail error c)
  unfolding fail
  fail-Inv error c h = elim (Option-cases c.subscription) [
    | inl e ↦ ground arith
    | inr (g, e) ↦ ground (arith, remove-as_list g)
  ]

  pub stop-Inv : (c : Controller V X) → Inv c → Inv (stop c)
  unfolding stop
  stop-Inv c h =
      let more : List (Job V X) = resolve_done ∷ [] in
      elim (Option-cases c.subscription) [
        | inl e ↦
            ground
              (arith, retry_count-append c.processing more, value_count-append c.processing more)
        | inr (o, e) ↦ ground (
          arith,
          remove-as_list o,
          retry_count-append c.processing more,
          value_count-append c.processing more,
        )
      ]

  pub ended-Inv :
      (g : ℕ) (error : Failure X) (c : Controller V X)
      → Inv c
      → g ≤ c.subscribed
      → Inv (ended g error c)
  unfolding ended
  ended-Inv g error c h l =
      let more : List (Job V X) = retry error ∷ [] in
      elim (Option-cases c.subscription) [
        | inl e ↦
            ground
              (arith, retry_count-append c.processing more, value_count-append c.processing more)
        | inr (o, e) ↦ ground (
          arith,
          remove-as_list o,
          retry_count-append c.processing more,
          value_count-append c.processing more,
        )
      ]

  mark_live-Inv : (g : ℕ) (c : Controller V X) → Inv c → Inv (mark_live g c)
  unfolding mark_live
  mark_live-Inv g c h = ground arith

  enqueue-Inv : (g : ℕ) (v : V) (c : Controller V X) → Inv c → Inv (enqueue g v c)
  unfolding enqueue
  enqueue-Inv g v c h =
      let more : List (Job V X) = deliver v ∷ [] in
      ground (
        arith,
        fail-Inv (overflow c.max_pending_items) c h,
        retry_count-append c.processing more,
        value_count-append c.processing more,
      )

  unsubscribe-subscribed :
      (c : Controller V X) (o : Option ℕ) → (unsubscribe c o).subscribed ≡ c.subscribed
  unsubscribe-subscribed c none = refl
  unsubscribe-subscribed c (some g) = refl

  -- A callback leaves alone what the newest attempt is, and subscribes to nothing.
  pub record Kept (c c' : Controller V X) : Type 0 where
    pub subscribed : c'.subscribed ≡ c.subscribed
    pub subscription : (c'.subscription ≡ none) ⊎ (c'.subscription ≡ c.subscription)

  fail-Kept : (error : Failure X) (c : Controller V X) → Kept c (fail error c)
  unfolding fail
  fail-Kept error c = elim (Option-cases c.subscription) [
    | inl e ↦ ground arith
    | inr (g, e) ↦ ground arith
  ]

  ended-Kept : (g : ℕ) (error : Failure X) (c : Controller V X) → Kept c (ended g error c)
  unfolding ended
  ended-Kept g error c = elim (Option-cases c.subscription) [
    | inl e ↦ ground arith
    | inr (o, e) ↦ ground arith
  ]

  mark_live-Kept : (g : ℕ) (c : Controller V X) → Kept c (mark_live g c)
  unfolding mark_live
  mark_live-Kept g c = ground arith

  enqueue-Kept : (g : ℕ) (v : V) (c : Controller V X) → Kept c (enqueue g v c)
  unfolding enqueue
  enqueue-Kept g v c = ground (arith, fail-Kept (overflow c.max_pending_items) c)

  Kept-trans : (a b c : Controller V X) → Kept a b → Kept b c → Kept a c
  Kept-trans a b c h k = ground arith

  pub call_back-Inv :
      (g : ℕ) (callback : Callback V X) (c : Controller V X)
      → Inv c
      → g ≤ c.subscribed
      → Inv (call_back g callback c) × Kept c (call_back g callback c)
  unfolding call_back connection_changed
  call_back-Inv g (on_data v) c h l = (
    enqueue-Inv g v (mark_live g c) (mark_live-Inv g c h),
    Kept-trans c (mark_live g c) (enqueue g v (mark_live g c)) (mark_live-Kept g c)
        (enqueue-Kept g v (mark_live g c)),
  )
  call_back-Inv g (on_error error) c h l =
      (ended-Inv g (other error) c h l, ended-Kept g (other error) c)
  call_back-Inv g on_complete c h l =
      (ended-Inv g unexpected_end c h l, ended-Kept g unexpected_end c)
  call_back-Inv g on_started c h l = (mark_live-Inv g c h, mark_live-Kept g c)
  call_back-Inv g on_stopped c h l =
      (ended-Inv g unexpected_end c h l, ended-Kept g unexpected_end c)
  call_back-Inv g (on_connection_state_change idle error) c h l = (h, ground arith)
  call_back-Inv g (on_connection_state_change pending_data error) c h l =
      (mark_live-Inv g c h, mark_live-Kept g c)
  call_back-Inv g (on_connection_state_change dialing error) c h l =
      ground
        (arith, ended-Inv g (transport_error error) c h l, ended-Kept g (transport_error error) c)

  pub call_back_all-Inv :
      (g : ℕ) (calls : List (Callback V X)) (c : Controller V X)
      → Inv c
      → g ≤ c.subscribed
      → Inv (call_back_all g calls c) × Kept c (call_back_all g calls c)
  unfolding call_back_all
  call_back_all-Inv g [] c h l = (h, ground arith)
  call_back_all-Inv g (call ∷ rest) c h l =
      let (h', k) = call_back-Inv g call c h l in
      let (h'', k') = call_back_all-Inv g rest (call_back g call c) h' (ground arith) in
      (h'', Kept-trans c (call_back g call c) (call_back_all g rest (call_back g call c)) k k')

  pub fail-inactive : (error : Failure X) (c : Controller V X) → (fail error c).active ≡ false
  unfolding fail
  fail-inactive error c = ground arith
