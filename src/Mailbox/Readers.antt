-- ===== src/Mailbox/Readers.antt =====
-- Which calls of `next` are answered, over every history of calls.
use mathlib.Core.List.{append-nil, map-append}
use agent_multiplex.Base.{ℕ, ◌≡◌, refl, ap, Option, List, [], ◌∷◌, ◌++◌, map, arith}
use agent_multiplex.Mailbox.{
  Failure, Outcome, Mailbox, settle_all, close, accept, push, take_next, next, Call, pushes, closes,
  reads, step, run,
}
use agent_multiplex.Mailbox.Order.{Inv, moves_join, step-Inv}

abbrev pub readers {ℓ} : {A : Type ℓ} → List (ℕ × Outcome A) → List ℕ
readers = map (λ e. e.0)

abbrev pub asked {ℓ} : {A : Type ℓ} → List (Call A) → List ℕ
asked [] = []
asked (pushes v ∷ cs) = asked cs
asked (closes f ∷ cs) = asked cs
asked (reads r ∷ cs) = r ∷ asked cs

readers-settle_all {ℓ} :
    (A : Type ℓ) (f : Option Failure) (ws : List ℕ) → readers (settle_all {A = A} f ws) ≡ ws
readers-settle_all A f [] = refl
readers-settle_all A f (w ∷ ws) = ap (◌∷◌ w) (readers-settle_all A f ws)

module _ {ℓ} {A : Type ℓ} where
  asked-cons : (c : Call A) (cs : List (Call A)) → asked (c ∷ cs) ≡ asked (c ∷ []) ++ asked cs
  asked-cons (pushes v) cs = refl
  asked-cons (closes f) cs = refl
  asked-cons (reads r) cs = refl

  readers-step :
      (q : Mailbox A) (c : Call A)
      → Inv q
      → readers (step q c).1 ++ (step q c).0.waiters ≡ q.waiters ++ asked (c ∷ [])
  unfolding step push accept close next take_next
  readers-step q (pushes v) h = push_readers q.waiters refl
    where
      push_readers :
          (ws : List ℕ)
          → q.waiters ≡ ws
          → readers (push q v).1 ++ (push q v).0.waiters ≡ q.waiters ++ []
      push_readers [] e = ground arith
      push_readers (w ∷ ws) e = ground (arith, append-nil ws)
  readers-step q (closes f) h =
      ground (arith, readers-settle_all A f q.waiters, append-nil q.waiters)
  readers-step q (reads r) h = ground (arith, append-nil q.waiters)

  -- In a well-formed mailbox each call of `next` is answered at most once, in the order of the calls, and those not yet
  -- answered are exactly the ones that wait.
  pub readers-run :
      (q : Mailbox A) (cs : List (Call A))
      → Inv q
      → readers (run q cs).1 ++ (run q cs).0.waiters ≡ q.waiters ++ asked cs
  unfolding run
  readers-run q [] h = rw append-nil
  readers-run q (c ∷ cs) h =
      rw
        (
          map-append (λ (e : ℕ × Outcome A). e.0) (step q c).1 (run (step q c).0 cs).1,
          asked-cons c cs,
        )
        (moves_join (readers (step q c).1) (readers (run (step q c).0 cs).1) (step q c).0.waiters
          (run (step q c).0 cs).0.waiters q.waiters (asked (c ∷ [])) (asked cs) (readers-step q c h)
          (readers-run (step q c).0 cs (step-Inv q c h)))
