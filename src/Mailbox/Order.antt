-- ===== src/Mailbox/Order.antt =====
-- Order and completeness of a mailbox's deliveries, over every history of calls.
use mathlib.Core.List.{append-nil, append_assoc}
use agent_multiplex.Base.{
  ℕ, ◌≤◌, ◌≡◌, refl, sym, ap, ◌∙◌, ◌⊎◌, inl, inr, true, false, Option, none, some, List, [], ◌∷◌,
  ◌++◌, length, length-append, Bool-cases, arith,
}
use agent_multiplex.Mailbox.{
  Failure, Outcome, value, done, failed, Kind, keeping, discarding, Mailbox, create, settle_all,
  close, accept, push, take_next, next, Call, pushes, closes, reads, step, run,
}

pub record Inv {ℓ} {A : Type ℓ} (q : Mailbox A) : Type ℓ where
  pub bounded : length q.values ≤ q.capacity
  pub one_side : (q.values ≡ []) ⊎ (q.waiters ≡ [])
  pub nobody_waits : q.closed ≡ true → q.waiters ≡ []

abbrev pub delivered {ℓ} : {A : Type ℓ} → List (ℕ × Outcome A) → List A
delivered [] = []
delivered ((r, value v) ∷ l) = v ∷ delivered l
delivered ((r, done) ∷ l) = delivered l
delivered ((r, failed f) ∷ l) = delivered l

abbrev pub pushed {ℓ} : {A : Type ℓ} → List (Call A) → List A
pushed [] = []
pushed (pushes v ∷ cs) = v ∷ pushed cs
pushed (closes f ∷ cs) = pushed cs
pushed (reads r ∷ cs) = pushed cs

-- Two moves from an input to an output, the second from what the first has left.
pub moves_join {ℓ} :
    {A : Type ℓ} (out out' left left' before given given' : List A)
    → out ++ left ≡ before ++ given
    → out' ++ left' ≡ left ++ given'
    → (out ++ out') ++ left' ≡ before ++ (given ++ given')
moves_join out out' left left' before given given' first second =
    append_assoc out out' left'
    ∙ ap (λ l. out ++ l) second
    ∙ sym (append_assoc out left given')
    ∙ ap (λ l. l ++ given') first
    ∙ append_assoc before given given'

module _ {ℓ} {A : Type ℓ} where
  delivered-append : (l m : List (ℕ × Outcome A)) → delivered (l ++ m) ≡ delivered l ++ delivered m
  delivered-append [] m = refl
  delivered-append ((r, value v) ∷ l) m = ap (◌∷◌ v) (delivered-append l m)
  delivered-append ((r, done) ∷ l) m = delivered-append l m
  delivered-append ((r, failed f) ∷ l) m = delivered-append l m

  delivered-settle_all :
      (f : Option Failure) (ws : List ℕ) → delivered (settle_all {A = A} f ws) ≡ []
  delivered-settle_all f [] = refl
  delivered-settle_all none (w ∷ ws) = delivered-settle_all none ws
  delivered-settle_all (some f) (w ∷ ws) = delivered-settle_all (some f) ws

  -- Every call keeps the buffer within its capacity, and never holds a value back from a reader.
  pub step-Inv : (q : Mailbox A) (c : Call A) → Inv q → Inv (step q c).0
  unfolding step push accept close next take_next
  step-Inv q (pushes v) h = accept-Inv q v q.waiters refl h
    where
      accept-Inv : (q : Mailbox A) (v : A) (ws : List ℕ) → q.waiters ≡ ws → Inv q → Inv (push q v).0
      accept-Inv q v [] e h = grind (arith, length-append)
      accept-Inv q v (w ∷ ws) e h = ground arith
  step-Inv q (closes f) h = ground arith
  step-Inv q (reads r) h = ground arith

  pushed-cons : (c : Call A) (cs : List (Call A)) → pushed (c ∷ cs) ≡ pushed (c ∷ []) ++ pushed cs
  pushed-cons (pushes v) cs = refl
  pushed-cons (closes f) cs = refl
  pushed-cons (reads r) cs = refl

  -- One call of a mailbox that stays open moves values from its buffer, or from the call, to readers.
  step_open :
      (q : Mailbox A) (c : Call A)
      → Inv q
      → (step q c).0.closed ≡ false
      → delivered (step q c).1 ++ (step q c).0.values ≡ q.values ++ pushed (c ∷ [])
  unfolding step push accept close next take_next
  step_open q (pushes v) h o = push_open q.waiters refl
    where
      push_open :
          (ws : List ℕ)
          → q.waiters ≡ ws
          → delivered (push q v).1 ++ (push q v).0.values ≡ q.values ++ v ∷ []
      push_open [] e = ground arith
      push_open (w ∷ ws) e = ground arith
  step_open q (closes f) h o = ground arith
  step_open q (reads r) h o = ground (arith, append-nil q.values)

  -- One call that closes the mailbox, or finds it closed, keeps a part of what was there.
  step_closed :
      (q : Mailbox A) (c : Call A)
      → Inv q
      → (step q c).0.closed ≡ true
      → (rest : List A) × (delivered (step q c).1 ++ ((step q c).0.values ++ rest)
          ≡ q.values ++ pushed (c ∷ []))
  unfolding step push accept close next take_next
  step_closed q (pushes v) h o = push_closed q.waiters refl q.kind refl
    where
      push_closed :
          (ws : List ℕ)
          → q.waiters ≡ ws
          → (k : Kind) → q.kind ≡ k
          → (rest : List A) × (delivered (push q v).1 ++ ((push q v).0.values ++ rest)
              ≡ q.values ++ v ∷ [])
      push_closed [] e keeping k = (v ∷ [], ground arith)
      push_closed [] e discarding k = elim (Bool-cases q.closed) [
        | inl p ↦ (v ∷ [], ground arith)
        | inr p ↦ (q.values ++ v ∷ [], ground arith)
      ]
      push_closed (w ∷ ws) e k k' = (v ∷ [], ground arith)
  step_closed q (closes f) h o = close_keeps q.kind refl
    where
      close_keeps :
          (k : Kind)
          → q.kind ≡ k
          → (rest : List A) × (delivered (close q f).1 ++ ((close q f).0.values ++ rest)
              ≡ q.values ++ [])
      close_keeps keeping k = ([], ground (arith, delivered-settle_all f q.waiters))
      close_keeps discarding k = elim (Bool-cases q.closed) [
        | inl p ↦ ([], ground arith)
        | inr p ↦ (q.values, ground (arith, delivered-settle_all f q.waiters, append-nil q.values))
      ]
  step_closed q (reads r) h o =
      ([], ground (arith, append-nil q.values, append-nil (step q (reads r)).0.values))

  closed-step :
      (q : Mailbox A) (c : Call A)
      → q.closed ≡ true
      → ((step q c).0.closed ≡ true) × (delivered (step q c).1 ++ (step q c).0.values ≡ q.values)
  unfolding step push accept close next take_next
  closed-step q (pushes v) h = ground arith
  closed-step q (closes f) h = ground arith
  closed-step q (reads r) h = ground arith

  closed-run :
      (q : Mailbox A) (cs : List (Call A))
      → q.closed ≡ true
      → delivered (run q cs).1 ++ (run q cs).0.values ≡ q.values
  unfolding run
  closed-run q [] h = refl
  closed-run q (c ∷ cs) h =
      let q' = (step q c).0 in
      let (h', moved) = closed-step q c h in
      rw (delivered-append (step q c).1 (run q' cs).1, append_assoc, closed-run q' cs h') moved

  -- What the readers of a well-formed mailbox receive is a beginning of what it buffered and was then
  -- given: nothing in it is lost, doubled or out of order, also when it overflows or is closed.
  pub run_prefix :
      (q : Mailbox A) (cs : List (Call A))
      → Inv q
      → (rest : List A) × (delivered (run q cs).1 ++ rest ≡ q.values ++ pushed cs)
  unfolding run
  run_prefix q [] h = (q.values, rw append-nil)
  run_prefix q (c ∷ cs) h = elim (Bool-cases (step q c).0.closed) [
    | inl closed ↦
        let q' = (step q c).0 in
        let (left, moved) = step_closed q c h closed in
        (
          (run q' cs).0.values ++ (left ++ pushed cs),
          rw (delivered-append (step q c).1 (run q' cs).1, pushed-cons c cs)
              (moves_join (delivered (step q c).1) (delivered (run q' cs).1) (q'.values ++ left)
                ((run q' cs).0.values ++ (left ++ pushed cs)) q.values (pushed (c ∷ [])) (pushed cs)
                moved
                (sym (
                    append_assoc (delivered (run q' cs).1) (run q' cs).0.values (left ++ pushed cs))
                  ∙ ap (λ l. l ++ (left ++ pushed cs)) (closed-run q' cs closed)
                  ∙ sym (append_assoc q'.values left (pushed cs)))),
        )
    | inr open_still ↦
        let (rest, later) = run_prefix (step q c).0 cs (step-Inv q c h) in
        (
          rest,
          rw (delivered-append (step q c).1 (run (step q c).0 cs).1, pushed-cons c cs)
              (moves_join (delivered (step q c).1) (delivered (run (step q c).0 cs).1)
                (step q c).0.values rest q.values (pushed (c ∷ [])) (pushed cs)
                (step_open q c h open_still) later),
        )
  ]

  run-stays_closed :
      (q : Mailbox A) (cs : List (Call A)) → q.closed ≡ true → (run q cs).0.closed ≡ true
  unfolding run
  run-stays_closed q [] h = h
  run-stays_closed q (c ∷ cs) h = run-stays_closed (step q c).0 cs (closed-step q c h).0

  -- When a well-formed mailbox is still open after a history of calls, every value given to it was
  -- delivered in order or is still buffered.
  pub run_complete :
      (q : Mailbox A) (cs : List (Call A))
      → Inv q
      → (run q cs).0.closed ≡ false
      → delivered (run q cs).1 ++ (run q cs).0.values ≡ q.values ++ pushed cs
  unfolding run
  run_complete q [] h o = rw append-nil
  run_complete q (c ∷ cs) h o = elim (Bool-cases (step q c).0.closed) [
    | inl closed ↦ cc (run-stays_closed (step q c).0 cs closed)
    | inr open_still ↦
        rw (delivered-append (step q c).1 (run (step q c).0 cs).1, pushed-cons c cs)
          (moves_join (delivered (step q c).1) (delivered (run (step q c).0 cs).1)
            (step q c).0.values (run (step q c).0 cs).0.values q.values (pushed (c ∷ []))
            (pushed cs) (step_open q c h open_still)
            (run_complete (step q c).0 cs (step-Inv q c h) o))
  ]

  pub run-Inv : (q : Mailbox A) (cs : List (Call A)) → Inv q → Inv (run q cs).0
  unfolding run
  run-Inv q [] h = h
  run-Inv q (c ∷ cs) h = run-Inv (step q c).0 cs (step-Inv q c h)

  pub create-Inv : (kind : Kind) (capacity : ℕ) → Inv (create {A = A} kind capacity)
  unfolding create
  create-Inv kind capacity = ground arith
