-- ===== src/Subscription.antt =====
-- `startResilientSubscription` of packages/client/src/resilient-subscription.ts: serialized, bounded
-- consumption of a subscription, and resubscription after it ends.
-- The promise chain `processing` is the list of the work that is appended to it; a turn of the event
-- loop is a `Happening`. A callback carries the generation that its closure holds. The delay that
-- `retryDelay` computes from floating-point numbers and `Math.random()` is given, by its bits.
mod Examples
pub mod Attachment
pub mod Delivery
pub mod Fencing
pub mod Guarantees
pub mod Invariant
pub mod Order
pub mod Progress
pub mod Reachable
pub mod Turns
use agent_multiplex.Base.{
  ℕ, suc, ◌+◌, ◌-◌, min, Bool, true, false, ◌&&◌, ◌||◌, not, Option, none, some, List, [], ◌∷◌,
  ◌++◌, ltb, leb, ◌==◌, if◌then◌else◌,
}

pub data Failure {ℓ} (X : Type ℓ) : Type ℓ where
  -- SubscriptionBufferOverflowError, with the capacity
  overflow : ℕ → Failure X
  -- UnexpectedSubscriptionEndError
  unexpected_end : Failure X
  -- "Subscription transport disconnected"
  disconnected : Failure X
  other : X → Failure X

pub data Connection {ℓ} (X : Type ℓ) : Type ℓ where
  connecting : (attempt : ℕ) → Connection X
  live : (attempt : ℕ) → Connection X
  retrying : (attempt delay_ms : ℕ) (error : Failure X) → Connection X
  stopped : Connection X
  failed : (error : Failure X) → Connection X

-- The promise `done`.
pub data Done {ℓ} (X : Type ℓ) : Type ℓ where
  pending resolved : Done X
  rejected : Failure X → Done X

-- What stands on the chain `processing`: a value, the end of a subscription, `resolveDone`.
pub data Job {ℓ} (V X : Type ℓ) : Type ℓ where
  deliver : V → Job V X
  retry : Failure X → Job V X
  resolve_done : Job V X

pub data TransportState : Type 0 where
  idle dialing pending_data : TransportState

-- The callbacks that are given to `procedure.subscribe`.
pub data Callback {ℓ} (V X : Type ℓ) : Type ℓ where
  on_data : V → Callback V X
  on_error : X → Callback V X
  on_complete on_started on_stopped : Callback V X
  on_connection_state_change : TransportState → Option X → Callback V X

-- How the consumer's `onData`, and then `onCommitted`, end.
pub data Consumption {ℓ} (X : Type ℓ) : Type ℓ where
  consumes : Consumption X
  refuses : X → Consumption X
  commit_throws : X → Consumption X

pub record Controller {ℓ} (V X : Type ℓ) : Type ℓ where
  pub max_pending_items : ℕ
  pub current_state : Connection X
  pub active : Bool
  pub generation : ℕ
  pub retry_attempt : ℕ
  pub pending_items : ℕ
  pub processing : List (Job V X)
  -- the first job is a value that `onData` has got and not settled
  pub running : Bool
  -- the current subscription, by its generation
  pub subscription : Option ℕ
  pub retry_timer : Bool
  -- what the closures of the newest `subscribe` hold
  pub subscribed : ℕ
  pub established : Bool
  pub done : Done X
  -- the subscriptions that were created and not unsubscribed
  pub open_subscriptions : List ℕ
  -- the values that were enqueued, that `onData` got, and that were committed
  pub received : List V
  pub consumed : List V
  pub committed : List V

abbrev pub remove : ℕ → List ℕ → List ℕ
remove g [] = []
remove g (o ∷ l) = if g == o then remove g l else o ∷ remove g l

module _ {ℓ} {X : Type ℓ} where
  abbrev pub reject : Done X → Failure X → Done X
  reject pending error = rejected error
  reject resolved error = resolved
  reject (rejected first) error = rejected first

  abbrev pub resolve : Done X → Done X
  resolve pending = resolved
  resolve resolved = resolved
  resolve (rejected first) = rejected first

  -- `state.error ?? new Error(…)`.
  abbrev pub transport_error : Option X → Failure X
  transport_error none = disconnected
  transport_error (some error) = other error

module _ {ℓ} {V X : Type ℓ} where
  -- `this.subscription?.unsubscribe()`, and the assignment after it.
  abbrev pub unsubscribe : Controller V X → Option ℕ → Controller V X
  unsubscribe c none = c
  unsubscribe c (some g) = record c {
    subscription = none;
    open_subscriptions = remove g c.open_subscriptions;
  }

  pub fail : Failure X → Controller V X → Controller V X
  fail error c =
      if not c.active
      then c
      else (let left = unsubscribe c c.subscription in
          record left {
            active = false;
            generation = suc c.generation;
            retry_timer = false;
            current_state = failed error;
            done = reject c.done error;
          })

  pub stop : Controller V X → Controller V X
  stop c =
      if not c.active
      then c
      else (let left = unsubscribe c c.subscription in
          record left {
            active = false;
            generation = suc c.generation;
            retry_timer = false;
            current_state = stopped;
            processing = c.processing ++ resolve_done ∷ [];
          })

  -- `!this.active || generation !== this.generation`.
  abbrev pub is_stale : ℕ → Controller V X → Bool
  is_stale g c = not c.active || not (g == c.generation)

  pub mark_live : ℕ → Controller V X → Controller V X
  mark_live g c =
      if is_stale g c || c.established
      then c
      else record c { established = true; retry_attempt = 0; current_state = live 0 }

  pub enqueue : ℕ → V → Controller V X → Controller V X
  enqueue g v c =
      if is_stale g c
      then c
      else if leb c.max_pending_items c.pending_items
      then fail (overflow c.max_pending_items) c
      else record c {
        pending_items = suc c.pending_items;
        processing = c.processing ++ deliver v ∷ [];
        received = c.received ++ v ∷ [];
      }

  pub ended : ℕ → Failure X → Controller V X → Controller V X
  ended g error c =
      if is_stale g c
      then c
      else (let left = unsubscribe c c.subscription in
          record left {
            generation = suc c.generation;
            processing = c.processing ++ retry error ∷ [];
          })

  pub connection_changed : ℕ → TransportState → Option X → Controller V X → Controller V X
  connection_changed g idle error c = c
  connection_changed g pending_data error c = mark_live g c
  connection_changed g dialing error c =
      if c.established then ended g (transport_error error) c else c

  pub call_back : ℕ → Callback V X → Controller V X → Controller V X
  call_back g (on_data v) c = enqueue g v (mark_live g c)
  call_back g (on_error error) c = ended g (other error) c
  call_back g on_complete c = ended g unexpected_end c
  call_back g on_started c = mark_live g c
  call_back g on_stopped c = ended g unexpected_end c
  call_back g (on_connection_state_change state error) c = connection_changed g state error c

  pub call_back_all : ℕ → List (Callback V X) → Controller V X → Controller V X
  call_back_all g [] c = c
  call_back_all g (call ∷ calls) c = call_back_all g calls (call_back g call c)

  -- `subscribe` before the procedure is called.
  pub attempt_subscribe : Controller V X → Controller V X
  attempt_subscribe c = record c {
    generation = suc c.generation;
    subscribed = suc c.generation;
    established = false;
    current_state = connecting c.retry_attempt;
  }

  -- `subscribe` after the procedure has thrown, or has given a subscription.
  pub take_subscription : ℕ → Option X → Controller V X → Controller V X
  take_subscription g (some error) c = ended g (other error) c
  take_subscription g none c =
      if is_stale g c
      then c
      else record c { subscription = some g; open_subscriptions = g ∷ c.open_subscriptions }

  -- The procedure's call may invoke callbacks before it throws or returns.
  pub subscribe : List (Callback V X) → Option X → Controller V X → Controller V X
  subscribe calls thrown c =
      if not c.active
      then c
      else take_subscription (suc c.generation) thrown
          (call_back_all (suc c.generation) calls (attempt_subscribe c))

  -- The callback of the retry timer.
  pub fire : List (Callback V X) → Option X → Controller V X → Controller V X
  fire calls thrown c = subscribe calls thrown (record c { retry_timer = false })
