-- ===== src/Subscription/Turns.antt =====
-- The turns of the event loop in packages/client/src/resilient-subscription.ts: the work on the promise
-- chain `processing`, what can happen to a controller, and the constructor.
use agent_multiplex.Base.{
  ℕ, suc, ◌-◌, Bool, true, false, ◌||◌, not, Option, none, some, List, [], ◌∷◌, ◌++◌, ltb, leb,
  if◌then◌else◌,
}
use agent_multiplex.Subscription.{
  Callback, Consumption, Controller, Failure, Job, call_back, commit_throws, connecting, consumes,
  deliver, fail, fire, other, pending, refuses, resolve, resolve_done, retry, retrying, stop,
  subscribe,
}

module _ {ℓ} {V X : Type ℓ} where
  -- `finally`, after the work for a value.
  unfoldable pub settle_value : List (Job V X) → Controller V X → Controller V X
  settle_value rest c = record c {
    processing = rest;
    running = false;
    pending_items = c.pending_items - 1;
  }

  -- The work for a value, once `onData` has settled.
  unfoldable pub consume : V → Consumption X → Controller V X → Controller V X
  consume v (refuses error) c = fail (other error) c
  consume v consumes c =
      if not c.active then c else record c { committed = c.committed ++ v ∷ []; retry_attempt = 0 }
  consume v (commit_throws error) c =
      if not c.active
      then c
      else fail (other error) (record c { committed = c.committed ++ v ∷ [] })

  unfoldable pub start_value : V → List (Job V X) → Controller V X → Controller V X
  start_value v rest c =
      if not c.active
      then settle_value rest c
      else record c { running = true; consumed = c.consumed ++ v ∷ [] }

  module _ (should_retry : Failure X → ℕ → Bool) where
    -- What `ended` has put behind the values; `delay_ms` is what `retryDelay` gives.
    unfoldable pub schedule_retry : Failure X → ℕ → Controller V X → Controller V X
    schedule_retry error delay_ms c =
        if not c.active
        then c
        else if not (should_retry error c.retry_attempt)
        then fail error c
        else record c {
          retry_attempt = suc c.retry_attempt;
          current_state = retrying c.retry_attempt delay_ms error;
          retry_timer = true;
        }

    -- The next turn of `processing`.
    unfoldable pub advance : Consumption X → ℕ → List (Job V X) → Controller V X → Controller V X
    advance outcome delay_ms [] c = c
    advance outcome delay_ms (deliver v ∷ rest) c =
        if c.running then settle_value rest (consume v outcome c) else start_value v rest c
    advance outcome delay_ms (retry error ∷ rest) c =
        schedule_retry error delay_ms (record c { processing = rest })
    advance outcome delay_ms (resolve_done ∷ rest) c = record c {
      processing = rest;
      done = resolve c.done;
    }

-- The turns of the event loop. A callback comes from a subscription that has been attempted, and
-- the timer fires when it is armed.
pub data Happening {ℓ} (V X : Type ℓ) : Type ℓ where
  stops : Happening V X
  calls : (generation : ℕ) → Callback V X → Happening V X
  fires : List (Callback V X) → Option X → Happening V X
  advances : Consumption X → (delay_ms : ℕ) → Happening V X

module _ {ℓ} {V X : Type ℓ} (should_retry : Failure X → ℕ → Bool) where
  unfoldable pub happen : Controller V X → Happening V X → Controller V X
  happen c stops = stop c
  happen c (calls g callback) = if leb g c.subscribed then call_back g callback c else c
  happen c (fires made thrown) = if c.retry_timer then fire made thrown c else c
  happen c (advances outcome delay_ms) = advance should_retry outcome delay_ms c.processing c

  unfoldable pub run : Controller V X → List (Happening V X) → Controller V X
  run c [] = c
  run c (h ∷ hs) = run (happen c h) hs

-- The options that are given, before their defaults. Of those for the delay, only whether they pass
-- the constructor's checks.
pub record Options : Type 0 where
  pub max_pending_items : Option ℕ
  pub has_valid_delays : Bool

abbrev or_else : Option ℕ → ℕ → ℕ
or_else none default = default
or_else (some n) default = n

-- The constructor's checks and fields; nothing stands for the TypeError that it throws.
unfoldable pub create {ℓ} : {V X : Type ℓ} → Options → Option (Controller V X)
create o =
    let max_pending_items = or_else o.max_pending_items 1024 in
    if ltb max_pending_items 1 || not o.has_valid_delays
    then none
    else some record {
      max_pending_items = max_pending_items;
      current_state = connecting 0;
      active = true;
      generation = 0;
      retry_attempt = 0;
      pending_items = 0;
      processing = [];
      running = false;
      subscription = none;
      retry_timer = false;
      subscribed = 0;
      established = false;
      done = pending;
      open_subscriptions = [];
      received = [];
      consumed = [];
      committed = [];
    }

-- The rest of the constructor: an aborted signal stops at once.
unfoldable pub launch {ℓ} :
    {V X : Type ℓ} → Bool → List (Callback V X) → Option X → Controller V X → Controller V X
launch aborted made thrown c = if aborted then stop c else subscribe made thrown c
