-- ===== src/EventHub/Once.antt =====
-- What the control node's hub broadcasts over a history of publications: of every session the events
-- that are newer than those before them, once.
use agent_multiplex.Base.{
  ℕ, ◌≡◌, ◌<◌, ◌⊎◌, inl, inr, ◌≢◌, refl, ap, sym, subst, ◌∙◌, Bool, true, false, ◌&&◌, Option, none,
  some, Bool-cases, List, [], ◌∷◌, ◌++◌, filter, filter-append, delete, lookup, lookup-insert,
  lookup-delete, leb, ◌==◌, ==_refl, if◌then◌else◌, arith,
}
use agent_multiplex.Stream.{Position}
use agent_multiplex.EventHub.{
  Event, Hub, is_replay, forget_native_session, remember, publish_native,
}

abbrev pub position : Event → Position
position event = record { runtime_epoch = event.runtime_epoch; sequence = event.sequence }

abbrev pub in_session : ℕ → Event → Bool
in_session session_id event = event.session_id == session_id

-- The events of a list that are newer than the last one that was taken: of another epoch, or of a
-- higher sequence.
abbrev pub newer_events : Option Position → List Event → List Event
newer_events seen [] = []
newer_events none (event ∷ rest) = event ∷ newer_events (some (position event)) rest
newer_events (some p) (event ∷ rest) =
    if p.runtime_epoch == event.runtime_epoch && leb event.sequence p.sequence
    then newer_events (some p) rest
    else event ∷ newer_events (some (position event)) rest

-- Every event is of another epoch than the one before it, or of a higher sequence.
abbrev pub Newer : Option Position → Event → Type 0
Newer none event = Unit
Newer (some p) event = (p.runtime_epoch ≢ event.runtime_epoch) ⊎ (p.sequence < event.sequence)

abbrev pub EachNewer : Option Position → List Event → Type 0
EachNewer seen [] = Unit
EachNewer seen (event ∷ rest) = Newer seen event × EachNewer (some (position event)) rest

new_is_Newer :
    (p : Position) (event : Event)
    → (p.runtime_epoch == event.runtime_epoch && leb event.sequence p.sequence) ≡ false
    → Newer (some p) event
new_is_Newer p event new = elim (Bool-cases (p.runtime_epoch == event.runtime_epoch)) [
  | inl same ↦ inr (ground arith)
  | inr other ↦ inl (ground arith)
]

pub newer_events-EachNewer :
    (seen : Option Position) (events : List Event) → EachNewer seen (newer_events seen events)
newer_events-EachNewer seen [] = tt
newer_events-EachNewer none (event ∷ rest) =
    (tt, newer_events-EachNewer (some (position event)) rest)
newer_events-EachNewer (some p) (event ∷ rest) =
    elim (Bool-cases (p.runtime_epoch == event.runtime_epoch && leb event.sequence p.sequence)) [
      | inl old ↦ rw old (newer_events-EachNewer (some p) rest)
      | inr new ↦
          rw new (new_is_Newer p event new, newer_events-EachNewer (some (position event)) rest)
    ]

abbrev pub listed : Option Event → List Event
listed none = []
listed (some event) = event ∷ []

-- Publications one after another, with what they broadcast.
abbrev pub publish_all : Hub → List Event → Hub × List Event
publish_all h [] = (h, [])
publish_all h (event ∷ rest) =
    let (next, sent) = publish_native h event in
    let (last, later) = publish_all next rest in (last, listed sent ++ later)

-- A publication sends nothing and the event is not newer, or it sends the event, which is then the
-- position seen last.
publish_native-replay :
    (h : Hub) (event : Event)
    → is_replay (lookup event.session_id h.native_seen) event ≡ true
    → publish_native h event ≡ (h, none)
unfolding publish_native
publish_native-replay h event e = ground arith

publish_native-new :
    (h : Hub) (event : Event)
    → is_replay (lookup event.session_id h.native_seen) event ≡ false
    → ((publish_native h event).1 ≡ some event)
      × (lookup event.session_id (publish_native h event).0.native_seen ≡ some (position event))
unfolding publish_native remember forget_native_session
publish_native-new h event e = ground (
  arith,
  lookup-insert event.session_id event.session_id (position event) h.native_seen,
  lookup-insert event.session_id event.session_id (position event)
      (delete event.session_id h.native_seen),
)

publish_native-other :
    (h : Hub) (event : Event) (s : ℕ)
    → (event.session_id == s) ≡ false
    → (filter (in_session s) (listed (publish_native h event).1) ≡ [])
      × (lookup s (publish_native h event).0.native_seen ≡ lookup s h.native_seen)
unfolding publish_native remember forget_native_session
publish_native-other h event s other = ground (
  arith,
  lookup-insert event.session_id s (position event) h.native_seen,
  lookup-insert event.session_id s (position event) (delete event.session_id h.native_seen),
  lookup-delete event.session_id s h.native_seen,
)

pub newer_events-old :
    (seen : Option Position) (event : Event) (rest : List Event)
    → is_replay seen event ≡ true
    → newer_events seen (event ∷ rest) ≡ newer_events seen rest
newer_events-old none event rest e = ground arith
newer_events-old (some p) event rest e = ground arith

pub newer_events-new :
    (seen : Option Position) (event : Event) (rest : List Event)
    → is_replay seen event ≡ false
    → newer_events seen (event ∷ rest) ≡ event ∷ newer_events (some (position event)) rest
newer_events-new none event rest e = refl
newer_events-new (some p) event rest e = ground arith

pub in_own_session :
    (event : Event) (rest : List Event)
    → filter (in_session event.session_id) (event ∷ rest)
      ≡ event ∷ filter (in_session event.session_id) rest
in_own_session event rest = ground (arith, ==_refl event.session_id)

publish_native-own :
    (h : Hub) (event : Event) (rest : List Event)
    → filter (in_session event.session_id) (listed (publish_native h event).1)
        ++ newer_events (lookup event.session_id (publish_native h event).0.native_seen) rest
      ≡ newer_events (lookup event.session_id h.native_seen) (event ∷ rest)
publish_native-own h event rest =
    let seen = lookup event.session_id h.native_seen in
    elim (Bool-cases (is_replay seen event)) [
      | inl old ↦
          rw (publish_native-replay h event old) (sym (newer_events-old seen event rest old))
      | inr new ↦
          let (sent, last) = publish_native-new h event new in
          rw (sent, last, in_own_session event []) (sym (newer_events-new seen event rest new))
    ]

publish_native-newer_events :
    (h : Hub) (event : Event) (rest : List Event) (s : ℕ)
    → filter (in_session s) (listed (publish_native h event).1)
        ++ newer_events
            (lookup s (publish_native h event).0.native_seen)
            (filter (in_session s) rest)
      ≡ newer_events (lookup s h.native_seen) (filter (in_session s) (event ∷ rest))
publish_native-newer_events h event rest s = elim (Bool-cases (event.session_id == s)) [
  | inr other ↦
      let (unsent, seen) = publish_native-other h event s other in rw (unsent, seen, other) refl
  | inl here ↦
      let is : event.session_id ≡ s = ground arith in
      subst
        (λ x.
          filter (in_session x) (listed (publish_native h event).1)
            ++ newer_events (lookup x (publish_native h event).0.native_seen)
                (filter (in_session x) rest)
          ≡ newer_events (lookup x h.native_seen) (filter (in_session x) (event ∷ rest)))
        is
        (publish_native-own h event (filter (in_session event.session_id) rest)
          ∙ ap (λ l. newer_events (lookup event.session_id h.native_seen) l)
              (sym (in_own_session event rest)))
]

publish_all-newer_events :
    (h : Hub) (events : List Event) (s : ℕ)
    → filter (in_session s) (publish_all h events).1
      ≡ newer_events (lookup s h.native_seen) (filter (in_session s) events)
publish_all-newer_events h [] s = refl
publish_all-newer_events h (event ∷ rest) s =
    let (next, sent) = publish_native h event in
    filter-append (in_session s) (listed sent) (publish_all next rest).1
    ∙ ap (λ l. filter (in_session s) (listed sent) ++ l) (publish_all-newer_events next rest s)
    ∙ publish_native-newer_events h event rest s

-- Over any history of publications, what the hub broadcasts for a session are exactly the published
-- events of that session that are newer than what was seen of it until then, each once: every one is
-- of another epoch than the one before it, or of a higher sequence.
pub publish_all_once :
    (h : Hub) (events : List Event) (s : ℕ)
    → let sent = filter (in_session s) (publish_all h events).1 in
      (sent ≡ newer_events (lookup s h.native_seen) (filter (in_session s) events))
      × EachNewer (lookup s h.native_seen) sent
publish_all_once h events s =
    let same = publish_all-newer_events h events s in
    (
      same,
      subst (λ l. EachNewer (lookup s h.native_seen) l) (sym same)
          (newer_events-EachNewer (lookup s h.native_seen) (filter (in_session s) events)),
    )
