-- ===== src/Mailbox.antt =====
-- The bounded mailbox of one subscriber: `AsyncQueue` of packages/runtime-node-core/src/event-hub.ts
-- and `BoundedQueue` of packages/control-node-core/src/event-hub.ts. The two differ in `close`,
-- which keeps the buffered values in the first and drops them in the second (`Kind`).
-- A reader is a number for the promise that `next()` returned; an operation gives the promises
-- that it settles, in order, beside the new mailbox.
mod Examples
pub mod Order
pub mod Readers
use agent_multiplex.Base.{
  ℕ, Bool, true, false, Option, none, some, List, [], ◌∷◌, ◌++◌, map, length, leb, if◌then◌else◌,
}

pub data Failure : Type 0 where
  -- SubscriberOverflowError, with the capacity
  overflow : ℕ → Failure
  other : ℕ → Failure

pub data Outcome {ℓ} (A : Type ℓ) : Type ℓ where
  value : A → Outcome A
  done : Outcome A
  failed : Failure → Outcome A

pub data Kind : Type 0 where
  keeping discarding : Kind

pub record Mailbox {ℓ} (A : Type ℓ) : Type ℓ where
  pub kind : Kind
  pub capacity : ℕ
  pub values : List A
  pub waiters : List ℕ
  pub closed : Bool
  pub failure : Option Failure

-- What a settled promise gets from a closed mailbox.
abbrev pub ended {ℓ} : {A : Type ℓ} → Option Failure → Outcome A
ended none = done
ended (some f) = failed f

abbrev pub left_on_close {ℓ} : {A : Type ℓ} → Kind → List A → List A
left_on_close keeping values = values
left_on_close discarding values = []

module _ {ℓ} {A : Type ℓ} where
  pub create : Kind → ℕ → Mailbox A
  create kind capacity = record {
    kind = kind;
    capacity = capacity;
    values = [];
    waiters = [];
    closed = false;
    failure = none;
  }

  abbrev pub settle_all : Option Failure → List ℕ → List (ℕ × Outcome A)
  settle_all f = map (λ w. (w, ended f))

  pub close : Mailbox A → Option Failure → Mailbox A × List (ℕ × Outcome A)
  close q f = if q.closed then (q, []) else (
    record q { closed = true; failure = f; values = left_on_close q.kind q.values; waiters = [] },
    settle_all f q.waiters,
  )

  -- `push` of an open mailbox, by its waiters.
  pub accept : Mailbox A → A → List ℕ → Mailbox A × List (ℕ × Outcome A)
  unfolding close
  accept q v (w ∷ ws) = (record q { waiters = ws }, (w, value v) ∷ [])
  accept q v [] =
      if leb q.capacity (length q.values)
      then close q (some (overflow q.capacity))
      else (record q { values = q.values ++ v ∷ [] }, [])

  pub push : Mailbox A → A → Mailbox A × List (ℕ × Outcome A)
  unfolding accept
  push q v = if q.closed then (q, []) else accept q v q.waiters

  -- `next()` by the buffered values.
  pub take_next : Mailbox A → ℕ → List A → Mailbox A × List (ℕ × Outcome A)
  take_next q r (v ∷ rest) = (record q { values = rest }, (r, value v) ∷ [])
  take_next q r [] =
      if q.closed
      then (q, (r, ended q.failure) ∷ [])
      else (record q { waiters = q.waiters ++ r ∷ [] }, [])

  pub next : Mailbox A → ℕ → Mailbox A × List (ℕ × Outcome A)
  unfolding take_next
  next q r = take_next q r q.values

pub data Call {ℓ} (A : Type ℓ) : Type ℓ where
  pushes : A → Call A
  closes : Option Failure → Call A
  reads : ℕ → Call A

module _ {ℓ} {A : Type ℓ} where
  pub step : Mailbox A → Call A → Mailbox A × List (ℕ × Outcome A)
  step q (pushes v) = push q v
  step q (closes f) = close q f
  step q (reads r) = next q r

  -- A history of calls, with the promises settled in it.
  pub run : Mailbox A → List (Call A) → Mailbox A × List (ℕ × Outcome A)
  run q [] = (q, [])
  run q (c ∷ cs) = let first = step q c in let rest = run first.0 cs in (rest.0, first.1 ++ rest.1)
