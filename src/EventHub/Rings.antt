-- ===== src/EventHub/Rings.antt =====
-- The rings of the control node's hub are in step with what it has seen.
use agent_multiplex.Base.{
  ℕ, zero, suc, ◌-◌, ◌≤◌, ◌<◌, ◌≡◌, refl, sym, subst, true, false, Option, none, some, Bool-cases,
  ◌⊎◌, inl, inr, List, [], ◌∷◌, ◌++◌, lookup, insert, delete, lookup-insert, lookup-delete, length,
  drop, length-drop, ltb, ◌==◌, arith,
}
use agent_multiplex.Stream.{Position}
use agent_multiplex.EventHub.{
  Event, ring_of, add_to_ring, Hub, is_replay, is_new_epoch, forget_native_session, remember,
  publish_native,
}

-- The events are of one epoch, and their sequences increase up to the last one, `m`.
abbrev pub Rising : ℕ → List Event → ℕ → Type 0
Rising epoch [] m = Unit
Rising epoch (e ∷ []) m = (e.runtime_epoch ≡ epoch) × (e.sequence ≡ m)
Rising epoch (e ∷ f ∷ l) m =
    (e.runtime_epoch ≡ epoch) × (e.sequence < f.sequence) × Rising epoch (f ∷ l) m

-- A ring and the position seen last: one epoch, increasing sequences that end at the position.
abbrev pub InStep : ℕ → Option (List Event) → Option Position → Type 0
InStep size none seen = Unit
InStep size (some ring) none = ⊥
InStep size (some ring) (some p) = Rising p.runtime_epoch ring p.sequence × (length ring ≤ size)

Rising-append :
    (epoch m : ℕ) (l : List Event) (e : Event)
    → Rising epoch l m
    → e.runtime_epoch ≡ epoch
    → m < e.sequence
    → Rising epoch (l ++ e ∷ []) e.sequence
Rising-append epoch m [] e h same lt = (same, refl)
Rising-append epoch m (x ∷ []) e h same lt = (h.0, omega (arith, h.1), (same, refl))
Rising-append epoch m (x ∷ y ∷ l) e h same lt =
    (h.0, h.1, Rising-append epoch m (y ∷ l) e h.2 same lt)

Rising-drop : (epoch m n : ℕ) (l : List Event) → Rising epoch l m → Rising epoch (drop n l) m
Rising-drop epoch m zero l h = h
Rising-drop epoch m (suc n) [] h = tt
Rising-drop epoch m (suc n) (x ∷ []) h = Rising-drop epoch m n [] tt
Rising-drop epoch m (suc n) (x ∷ y ∷ l) h = Rising-drop epoch m n (y ∷ l) h.2

add-Rising :
    (size epoch m : ℕ) (l : List Event) (e : Event)
    → Rising epoch l m
    → e.runtime_epoch ≡ epoch
    → m < e.sequence
    → Rising epoch (add_to_ring size l e) e.sequence × (length (add_to_ring size l e) ≤ size)
unfolding add_to_ring
add-Rising size epoch m l e h same lt =
    let longer = l ++ e ∷ [] in
    let up = Rising-append epoch m l e h same lt in
    elim (Bool-cases (ltb size (length longer))) [
      | inl full ↦ (
        subst (λ r. Rising epoch r e.sequence) (ground arith)
            (Rising-drop epoch e.sequence (length longer - size) longer up),
        ground (arith, length-drop (length longer - size) longer),
      )
      | inr room ↦ (subst (λ r. Rising epoch r e.sequence) (ground arith) up, ground arith)
    ]

pub record Inv (h : Hub) : Type 0 where
  pub in_step : (s : ℕ) → InStep h.native_ring_size (lookup s h.rings) (lookup s h.native_seen)

forget_native_session-Inv :
    (h : Hub) (session_id : ℕ) → Inv h → Inv (forget_native_session h session_id)
unfolding forget_native_session
forget_native_session-Inv h session_id v = record {
  in_step = λ s. elim (Bool-cases (session_id == s)) [
    | inl here ↦ forgotten s (ground (arith, lookup-delete session_id s h.rings))
    | inr other ↦
        kept s (ground (arith, lookup-delete session_id s h.rings))
          (ground (arith, lookup-delete session_id s h.native_seen))
  ];
}
  where
    forgotten :
        (s : ℕ)
        → lookup s (delete session_id h.rings) ≡ none
        → InStep h.native_ring_size
            (lookup s (delete session_id h.rings))
            (lookup s (delete session_id h.native_seen))
    forgotten s e =
        subst (λ o. InStep h.native_ring_size o (lookup s (delete session_id h.native_seen)))
          (sym e) tt

    kept :
        (s : ℕ)
        → lookup s (delete session_id h.rings) ≡ lookup s h.rings
        → lookup s (delete session_id h.native_seen) ≡ lookup s h.native_seen
        → InStep h.native_ring_size
            (lookup s (delete session_id h.rings))
            (lookup s (delete session_id h.native_seen))
    kept s e f = rw (e, f) (v.in_step s)

forgotten_seen :
    (h : Hub) (session_id : ℕ)
    → lookup session_id (forget_native_session h session_id).native_seen ≡ none
unfolding forget_native_session
forgotten_seen h session_id = ground (arith, lookup-delete session_id session_id h.native_seen)

forgotten_size :
    (h : Hub) (session_id : ℕ)
    → (forget_native_session h session_id).native_ring_size ≡ h.native_ring_size
unfolding forget_native_session
forgotten_size h session_id = refl

-- Whether an event may follow what was seen of its session.
abbrev Follows : Option Position → Event → Type 0
Follows none event = Unit
Follows (some p) event = (event.runtime_epoch ≡ p.runtime_epoch) × (p.sequence < event.sequence)

added :
    (size : ℕ) (ring : Option (List Event)) (seen : Option Position) (event : Event)
    → 0 < size
    → InStep size ring seen
    → Follows seen event
    → Rising event.runtime_epoch (add_to_ring size (ring_of ring) event) event.sequence
      × (length (add_to_ring size (ring_of ring) event) ≤ size)
unfolding add_to_ring
added size none seen event b i f = ground arith
added size (some ring) none event b i f = absurd i
added size (some ring) (some p) event b i f =
    add-Rising size event.runtime_epoch p.sequence ring event
      (subst (λ e. Rising e ring p.sequence) (sym f.0) i.0) refl f.1

remember-Inv :
    (h : Hub) (event : Event)
    → 0 < h.native_ring_size
    → Inv h
    → Follows (lookup event.session_id h.native_seen) event
    → Inv (remember h event)
unfolding remember
remember-Inv h event b v f = record {
  in_step = λ s. here_or_not s (Bool-cases (event.session_id == s));
}
  where
    ring : List Event
    ring = add_to_ring h.native_ring_size (ring_of (lookup event.session_id h.rings)) event

    position : Position
    position = record { runtime_epoch = event.runtime_epoch; sequence = event.sequence }

    here_or_not :
        (s : ℕ)
        → ((event.session_id == s) ≡ true) ⊎ ((event.session_id == s) ≡ false)
        → InStep h.native_ring_size
            (lookup s (insert event.session_id ring h.rings))
            (lookup s (insert event.session_id position h.native_seen))
    here_or_not s (inl e) =
        rw
          (
            lookup-insert event.session_id s ring h.rings,
            lookup-insert event.session_id s position h.native_seen,
            e,
          )
          (added h.native_ring_size (lookup event.session_id h.rings)
            (lookup event.session_id h.native_seen) event b (v.in_step event.session_id) f)
    here_or_not s (inr e) =
        rw
          (
            lookup-insert event.session_id s ring h.rings,
            lookup-insert event.session_id s position h.native_seen,
            e,
          )
          (v.in_step s)

-- In a hub with a positive ring size, every publication keeps each session's ring within that size,
-- in one epoch and with increasing sequences that end at the position seen last.
pub publish_native-Inv :
    (h : Hub) (event : Event) → 0 < h.native_ring_size → Inv h → Inv (publish_native h event).0
unfolding publish_native
publish_native-Inv h event b v = published (lookup event.session_id h.native_seen) refl
  where
    published :
        (o : Option Position)
        → lookup event.session_id h.native_seen ≡ o
        → Inv (publish_native h event).0
    published none e =
        subst (λ g. Inv g) (ground arith)
          (remember-Inv h event b v (subst (λ o. Follows o event) (sym e) tt))
    published (some p) e = elim (Bool-cases (is_replay (some p) event)) [
      | inl old ↦ subst (λ g. Inv g) (ground arith) v
      | inr fresh ↦ elim (Bool-cases (is_new_epoch (some p) event)) [
        | inl other ↦
            let g = forget_native_session h event.session_id in
            subst (λ g. Inv g) (ground arith)
              (remember-Inv g event (subst (λ n. 0 < n) (sym (forgotten_size h event.session_id)) b)
                (forget_native_session-Inv h event.session_id v)
                (subst (λ o. Follows o event) (sym (forgotten_seen h event.session_id)) tt))
        | inr same ↦
            subst (λ g. Inv g) (ground arith)
              (remember-Inv h event b v
                (subst (λ o. Follows o event) (sym e) (ground arith, ground arith)))
      ]
    ]
