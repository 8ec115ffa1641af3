-- ===== src/Terminal/Resume.antt =====
-- A subscriber that resumes at a sequence gets the rest of the stream, or is told to reset.
use agent_multiplex.Base.{
  ℕ, suc, ◌+◌, ◌≤◌, ◌<◌, ◌≡◌, refl, sym, subst, ap, Bool, true, false, some, Bool-cases, inl, inr,
  List, [], ◌∷◌, filter, length, ltb, arith,
}
use agent_multiplex.Terminal.{StreamItem, sequence_of, Terminal, cursor_ahead, cursor_expired}
use agent_multiplex.Terminal.Attach.{first_sequence, behind, prefixed, resetting, attach_at}
use agent_multiplex.Terminal.Replay.{Numbered, items_of, Ring}

abbrev newer : ℕ → StreamItem × ℕ → Bool
newer wanted e = ltb wanted (sequence_of e.0)

newer_all :
    (n wanted : ℕ) (l : List (StreamItem × ℕ))
    → Numbered n (items_of l)
    → wanted ≤ n
    → filter (newer wanted) l ≡ l
newer_all n wanted [] h le = refl
newer_all n wanted (e ∷ l) h le = ground (arith, newer_all (suc n) wanted l h.1)

newer_lem :
    (n wanted : ℕ) (l : List (StreamItem × ℕ))
    → Numbered n (items_of l)
    → n ≤ wanted
    → wanted ≤ n + length l
    → Numbered wanted (items_of (filter (newer wanted) l))
      × (wanted + length (filter (newer wanted) l) ≡ n + length l)
newer_lem n wanted [] h le hi = (tt, omega arith)
newer_lem n wanted (e ∷ l) h le hi = elim (Bool-cases (ltb n wanted)) [
  | inl skip ↦
      let out : filter (newer wanted) (e ∷ l) ≡ filter (newer wanted) l = ground arith in
      let (numbered, ends) = newer_lem (suc n) wanted l h.1 (ground arith) (omega arith) in
      (
        subst (λ m. Numbered wanted (items_of m)) (sym out) numbered,
        omega (arith, ap (λ (m : List (StreamItem × ℕ)). length m) out, ends),
      )
  | inr here ↦
      let all_of_it = newer_all n wanted (e ∷ l) h (ground arith) in
      let same : wanted ≡ n = ground arith in
      (
        subst (λ m. Numbered wanted (items_of m)) (sym all_of_it)
            (subst (λ k. Numbered k (items_of (e ∷ l))) (sym same) h),
        omega (arith, ap (λ (m : List (StreamItem × ℕ)). length m) all_of_it, same),
      )
]

behind_start :
    (n wanted : ℕ) (l : List (StreamItem × ℕ))
    → Numbered n (items_of l)
    → wanted < n
    → behind (first_sequence l) wanted ≡ true
behind_start n wanted [] h lt = refl
behind_start n wanted (e ∷ l) h lt = ground (arith, h.0)

reached_start :
    (n wanted : ℕ) (l : List (StreamItem × ℕ))
    → Numbered n (items_of l)
    → n ≤ wanted
    → wanted < n + length l
    → behind (first_sequence l) wanted ≡ false
reached_start n wanted [] h le lt = absurd (omega arith)
reached_start n wanted (e ∷ l) h le lt = ground (arith, h.0)

length-items_of : (l : List (StreamItem × ℕ)) → length (items_of l) ≡ length l
length-items_of [] = refl
length-items_of (e ∷ l) = ap suc (length-items_of l)

-- A cursor that the ring still reaches gets exactly the items from the next sequence to the current
-- one, each once and with no gap.
pub attach_at_resumes :
    (t : Terminal) (wanted : ℕ) (r : Ring t)
    → r.start ≤ wanted
    → wanted ≤ t.sequence
    → (items : List StreamItem) × (attach_at t (some wanted) ≡ prefixed items)
      × Numbered wanted items
      × (wanted + length items ≡ t.sequence)
unfolding attach_at
attach_at_resumes t wanted r lo hi =
    let found = newer_lem r.start wanted t.replay r.numbered lo (omega (arith, r.ends)) in
    let kept = filter (newer wanted) t.replay in
    (
      items_of kept,
      elim (Bool-cases (ltb wanted t.sequence)) [
        | inl early ↦
            ground
              (arith, reached_start r.start wanted t.replay r.numbered lo (ground (arith, r.ends)))
        | inr current ↦ ground arith
      ],
      found.0,
      omega (arith, found.1, length-items_of kept, r.ends),
    )

-- A cursor ahead of the terminal, and one whose next item has left the ring, are told to reset.
pub attach_at_resets :
    (t : Terminal) (wanted : ℕ) (r : Ring t)
    → (t.sequence < wanted → attach_at t (some wanted) ≡ resetting cursor_ahead)
      × (wanted < r.start → attach_at t (some wanted) ≡ resetting cursor_expired)
unfolding attach_at
attach_at_resets t wanted r = (
  λ h. ground arith,
  λ h. ground (arith, r.ends, behind_start r.start wanted t.replay r.numbered h),
)
