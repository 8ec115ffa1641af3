-- ===== src/EventHub/Resume.antt =====
-- A replay from a ring is a gap, or all the events that the receiver has not committed.
use agent_multiplex.Base.{
  ℕ, suc, ◌+◌, ◌≤◌, ◌<◌, ◌≡◌, ◌∙◌, refl, sym, ap, subst, ◌⊎◌, Option, some, Bool-cases, inl, inr,
  List, [], ◌∷◌, filter, length, head?, get_last?, ltb, leb, arith,
}
use agent_multiplex.Stream.{Position}
use agent_multiplex.EventHub.{
  Event, of_epoch, next_wanted, gap, events, ahead_of, before, replay_runtime, replay_control,
}

-- The events' sequences count up from `n`.
abbrev pub Counting : ℕ → List Event → Type 0
Counting n [] = Unit
Counting n (e ∷ l) = (e.sequence ≡ n) × Counting (suc n) l

from_all :
    (n next : ℕ) (l : List Event)
    → Counting n l
    → next ≤ n
    → filter (λ e. leb next e.sequence) l ≡ l
from_all n next [] c le = refl
from_all n next (e ∷ l) c le = ground (arith, from_all (suc n) next l c.1)

from_next :
    (n next : ℕ) (l : List Event)
    → Counting n l
    → n ≤ next
    → next ≤ n + length l
    → Counting next (filter (λ e. leb next e.sequence) l)
      × (next + length (filter (λ e. leb next e.sequence) l) ≡ n + length l)
from_next n next [] c le hi = (tt, omega arith)
from_next n next (e ∷ l) c le hi = elim (Bool-cases (leb next n)) [
  | inl here ↦
      let same : next ≡ n = ground arith in
      let all_of_it = from_all n next (e ∷ l) c (omega (arith, same)) in
      (
        subst (λ m. Counting next m) (sym all_of_it) (subst (λ k. Counting k (e ∷ l)) (sym same) c),
        omega (arith, same, ap (λ (m : List Event). length m) all_of_it),
      )
  | inr above ↦
      let out : filter (λ e. leb next e.sequence) (e ∷ l) ≡ filter (λ e. leb next e.sequence) l =
        ground (arith, c.0) in
      let (counting, ends) = from_next (suc n) next l c.1 (ground arith) (omega arith) in
      (
        subst (λ m. Counting next m) (sym out) counting,
        omega (arith, ends, ap (λ (m : List Event). length m) out),
      )
]

abbrev pub newest_epoch : Event → List Event → List Event
newest_epoch newest ring = filter (of_epoch newest.runtime_epoch) ring

before_first :
    (n next : ℕ) (l : List Event) → Counting n l → 0 < length l → before (head? l) next ≡ ltb next n
before_first n next [] c some_event = absurd (omega arith)
before_first n next (e ∷ l) c some_event = ground (arith, c.0)

ahead_last :
    (n next : ℕ) (l : List Event)
    → Counting n l
    → 0 < length l
    → ahead_of (get_last? l) next ≡ ltb (n + length l) next
ahead_last n next [] c some_event = absurd (omega arith)
ahead_last n next (e ∷ []) c some_event = ground (arith, c.0)
ahead_last n next (e ∷ f ∷ l) c some_event =
    let moved : suc n + length (f ∷ l) ≡ n + length (e ∷ f ∷ l) = omega arith in
    ahead_last (suc n) next (f ∷ l) c.1 (omega arith) ∙ ap (λ k. ltb k next) moved

newest_epoch-nonempty :
    (ring : List Event) (newest : Event)
    → get_last? ring ≡ some newest
    → 0 < length (newest_epoch newest ring)
newest_epoch-nonempty [] newest last = ground arith
newest_epoch-nonempty (e ∷ []) newest last = ground arith
newest_epoch-nonempty (e ∷ f ∷ l) newest last =
    ground (arith, newest_epoch-nonempty (f ∷ l) newest last)

-- A receiver whose next event has left the ring, or that wants one beyond the event after the last,
-- is told of a gap by the runtime node's hub; the ring's newest epoch counts up from `n`.
pub replay_runtime_gap :
    (wanted : Option Position) (ring : List Event) (newest : Event) (n : ℕ)
    → get_last? ring ≡ some newest
    → Counting n (newest_epoch newest ring)
    → (next_wanted wanted newest.runtime_epoch < n)
      ⊎ (n + length (newest_epoch newest ring) < next_wanted wanted newest.runtime_epoch)
    → replay_runtime wanted ring ≡ gap
unfolding replay_runtime
replay_runtime_gap wanted ring newest n last c off =
    let l = newest_epoch newest ring in
    let next = next_wanted wanted newest.runtime_epoch in
    let some_event = newest_epoch-nonempty ring newest last in
    let first = before_first n next l c some_event in
    let final = ahead_last n next l c some_event in
    elim off [ inl h ↦ ground (arith, first, final) | inr h ↦ ground (arith, first, final) ]

-- Where the newest epoch of a ring counts up from `n`, and the receiver's next event lies between `n`
-- and the successor of the last one, the replays of both hubs give exactly the events from that one
-- to the last, with none left out.
pub replay_complete :
    (wanted : Option Position) (ring : List Event) (newest : Event) (n : ℕ)
    → get_last? ring ≡ some newest
    → Counting n (newest_epoch newest ring)
    → n ≤ next_wanted wanted newest.runtime_epoch
    → next_wanted wanted newest.runtime_epoch ≤ n + length (newest_epoch newest ring)
    → (l : List Event) × (replay_runtime wanted ring ≡ events l)
      × (replay_control wanted ring ≡ events l)
      × Counting (next_wanted wanted newest.runtime_epoch) l
      × (next_wanted wanted newest.runtime_epoch + length l ≡ n + length (newest_epoch newest ring))
unfolding replay_runtime replay_control
replay_complete wanted ring newest n last c lo hi =
    let l = newest_epoch newest ring in
    let next = next_wanted wanted newest.runtime_epoch in
    let some_event = newest_epoch-nonempty ring newest last in
    let first = before_first n next l c some_event in
    let final = ahead_last n next l c some_event in
    let found = from_next n next l c lo hi in
    (
      filter (λ e. leb next e.sequence) l,
      ground (arith, first, final),
      ground (arith, first),
      found.0,
      found.1,
    )
