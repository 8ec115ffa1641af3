-- ===== src/Subscription/Order.antt =====
-- The values that a controller accepts reach the consumer one at a time and in order.
use mathlib.Core.List.{append_assoc}
use agent_multiplex.Base.{
  ◌≡◌, ◌∙◌, sym, ap, refl, Bool, true, false, ◌⊎◌, inl, inr, List, [], ◌∷◌, ◌++◌, Bool-cases,
  Option-cases, arith,
}
use agent_multiplex.Subscription.{
  Failure, Controller, Job, deliver, retry, resolve_done, stop, fail,
}
use agent_multiplex.Subscription.Invariant.{values}

module _ {ℓ} {V X : Type ℓ} where
  -- The value that `onData` has got and not settled.
  abbrev pub in_hand : Bool → List (Job V X) → List V
  in_hand true (deliver v ∷ rest) = v ∷ []
  in_hand _ _ = []

  -- While it is active, all that came is committed, in hand or on the chain.
  pub record Flowing (c : Controller V X) : Type ℓ where
    pub active : c.active ≡ true
    pub kept : c.received ≡ c.committed ++ values c.processing
    pub taken : c.consumed ≡ c.committed ++ in_hand c.running c.processing
    pub busy :
        (c.running ≡ false)
        ⊎ ((v : V) × (rest : List (Job V X)) × (c.processing ≡ deliver v ∷ rest))

  -- Afterwards, what was committed is a beginning of what was consumed, and that of what came.
  pub record Ended (c : Controller V X) : Type ℓ where
    pub inactive : c.active ≡ false
    pub unread : (rest : List V) × (c.received ≡ c.consumed ++ rest)
    pub uncommitted : (rest : List V) × (c.consumed ≡ c.committed ++ rest)

  abbrev pub InOrder : Controller V X → Type ℓ
  InOrder c = Flowing c ⊎ Ended c

  in_hand-values :
      (running : Bool) (jobs : List (Job V X))
      → (rest : List V) × (values jobs ≡ in_hand running jobs ++ rest)
  in_hand-values true (deliver v ∷ rest) = (values rest, refl)
  in_hand-values true (retry error ∷ rest) = (values rest, refl)
  in_hand-values true (resolve_done ∷ rest) = (values rest, refl)
  in_hand-values true [] = ([], refl)
  in_hand-values false jobs = (values jobs, refl)

  -- Both the active and the ended controller have read a beginning.
  pub InOrder-unread :
      (c : Controller V X) → InOrder c → (rest : List V) × (c.received ≡ c.consumed ++ rest)
  InOrder-unread c (inr e) = e.unread
  InOrder-unread c (inl f) =
      let (rest, split) = in_hand-values c.running c.processing in
      (
        rest,
        f.kept
            ∙ ap (λ l. c.committed ++ l) split
            ∙ sym (append_assoc c.committed (in_hand c.running c.processing) rest)
            ∙ ap (λ l. l ++ rest) (sym f.taken),
      )

  pub InOrder-uncommitted :
      (c : Controller V X) → InOrder c → (rest : List V) × (c.consumed ≡ c.committed ++ rest)
  InOrder-uncommitted c (inr e) = e.uncommitted
  InOrder-uncommitted c (inl f) = (in_hand c.running c.processing, f.taken)

  pub InOrder-kept :
      (c : Controller V X)
      → InOrder c
      → c.active ≡ true
      → c.received ≡ c.committed ++ values c.processing
  InOrder-kept c h a = ground arith

  -- Another controller, with the same values, that is active no more.
  pub record SameValues (c c' : Controller V X) : Type ℓ where
    pub received : c'.received ≡ c.received
    pub consumed : c'.consumed ≡ c.consumed
    pub committed : c'.committed ≡ c.committed

  pub ends : (c c' : Controller V X) → InOrder c → SameValues c c' → c'.active ≡ false → InOrder c'
  ends c c' h s i =
      let (unread, u) = InOrder-unread c h in
      let (uncommitted, k) = InOrder-uncommitted c h in
      inr record {
        inactive = i;
        unread = (unread, ground arith);
        uncommitted = (uncommitted, ground arith);
      }

  pub fail-InOrder : (error : Failure X) (c : Controller V X) → InOrder c → InOrder (fail error c)
  unfolding fail
  fail-InOrder error c h = elim (Bool-cases c.active) [
    | inr i ↦ ground arith
    | inl a ↦ elim (Option-cases c.subscription) [
      | inl e ↦ ends c (fail error c) h (ground arith) (ground arith)
      | inr (g, e) ↦ ends c (fail error c) h (ground arith) (ground arith)
    ]
  ]

  pub stop-InOrder : (c : Controller V X) → InOrder c → InOrder (stop c)
  unfolding stop
  stop-InOrder c h = elim (Bool-cases c.active) [
    | inr i ↦ ground arith
    | inl a ↦ elim (Option-cases c.subscription) [
      | inl e ↦ ends c (stop c) h (ground arith) (ground arith)
      | inr (g, e) ↦ ends c (stop c) h (ground arith) (ground arith)
    ]
  ]

  -- More work behind what there is leaves what is in hand.
  pub in_hand-append :
      (running : Bool) (jobs more : List (Job V X))
      → (running ≡ false) ⊎ ((v : V) × (rest : List (Job V X)) × (jobs ≡ deliver v ∷ rest))
      → in_hand running (jobs ++ more) ≡ in_hand running jobs
  in_hand-append false jobs more b = refl
  in_hand-append true (deliver v ∷ jobs) more b = refl
  in_hand-append true (retry error ∷ jobs) more b = ground arith
  in_hand-append true (resolve_done ∷ jobs) more b = ground arith
  in_hand-append true [] more b = ground arith
