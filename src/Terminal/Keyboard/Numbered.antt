-- ===== src/Terminal/Keyboard/Numbered.antt =====
-- Receipts under consecutive sequences: the oldest are forgotten first.
use agent_multiplex.Base.{
  ℕ, suc, ◌+◌, ◌≤◌, ◌≡◌, refl, some, inl, inr, [], ◌∷◌, Table, lookup, insert, length, ltb,
  Bool-cases, arith,
}
use agent_multiplex.Terminal.Keyboard.{forget_oldest}
use agent_multiplex.Terminal.Keyboard.Receipts.{Below}

module _ {ℓ} {V : Type ℓ} where
  -- The keys count up to the one before `n`.
  abbrev pub Numbered : ℕ → Table V → Type 0
  Numbered n [] = Unit
  Numbered n ((k, v) ∷ l) = (k + suc (length l) ≡ n) × Numbered n l

  pub Numbered-Below : (n : ℕ) (l : Table V) → Numbered n l → Below n l
  Numbered-Below n [] h = tt
  Numbered-Below n ((k, v) ∷ l) h = (omega (arith, h.0), Numbered-Below n l h.1)

  insert-next :
      (n : ℕ) (v : V) (l : Table V) → Numbered n l → length (insert n v l) ≡ suc (length l)
  insert-next n v [] h = refl
  insert-next n v ((k, w) ∷ l) h = ground (arith, insert-next n v l)

  pub Numbered-insert :
      (n : ℕ) (v : V) (l : Table V) → Numbered n l → Numbered (suc n) (insert n v l)
  Numbered-insert n v [] h = (omega arith, tt)
  Numbered-insert n v ((k, w) ∷ l) h = ground (arith, insert-next n v l, Numbered-insert n v l)

  pub Numbered-forget_oldest :
      (limit n : ℕ) (l : Table V) → Numbered n l → Numbered n (forget_oldest limit l)
  Numbered-forget_oldest limit n [] h = tt
  Numbered-forget_oldest limit n ((k, w) ∷ l) h = ground (arith, Numbered-forget_oldest limit n l)

  -- An entry stays while no more than `limit` keys have come from it on.
  pub forget_oldest-recent :
      (limit n s : ℕ) (v : V) (l : Table V)
      → Numbered n l
      → n ≤ s + limit
      → lookup s l ≡ some v
      → lookup s (forget_oldest limit l) ≡ some v
  forget_oldest-recent limit n s v [] h b e = ground arith
  forget_oldest-recent limit n s v ((k, w) ∷ l) h b e =
      elim (Bool-cases (ltb limit (suc (length l)))) [
        | inr keep ↦ rw keep e
        | inl drop ↦ rw drop (forget_oldest-recent limit n s v l h.1 b (ground arith))
      ]
