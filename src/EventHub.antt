-- ===== src/EventHub.antt =====
-- The native rings of the two event hubs: packages/runtime-node-core/src/event-hub.ts and
-- packages/control-node-core/src/event-hub.ts. `wantedSequence + 1` of the source, which starts at
-- -1, is a number here: `next_wanted`.
mod Examples
pub mod Once
pub mod Rings
pub mod Resume
use agent_multiplex.Base.{
  ℕ, suc, ◌-◌, Bool, true, false, ◌&&◌, not, Option, none, some, List, [], ◌∷◌, ◌++◌, Table, lookup,
  insert, delete, length, drop, filter, head?, get_last?, ltb, leb, ◌==◌, if◌then◌else◌,
}
use agent_multiplex.Stream.{Position}

-- `NativeEvent` with its payload as `content`.
pub record Event : Type 0 where
  pub session_id : ℕ
  pub runtime_epoch : ℕ
  pub sequence : ℕ
  pub content : ℕ

abbrev pub ring_of : Option (List Event) → List Event
ring_of none = []
ring_of (some ring) = ring

-- `ring.push(item)` and the `splice` that follows it.
pub add_to_ring : ℕ → List Event → Event → List Event
add_to_ring ring_size ring event =
    let longer = ring ++ event ∷ [] in
    if ltb ring_size (length longer) then drop (length longer - ring_size) longer else longer

-- The rings after `publish` of the runtime node's hub.
pub publish_runtime : ℕ → Table (List Event) → Event → Table (List Event)
publish_runtime ring_size rings event =
    insert event.session_id (add_to_ring ring_size (ring_of (lookup event.session_id rings)) event)
      rings

abbrev pub of_epoch : ℕ → Event → Bool
of_epoch epoch event = event.runtime_epoch == epoch

abbrev pub next_wanted : Option Position → ℕ → ℕ
next_wanted none epoch = 0
next_wanted (some wanted) epoch = if wanted.runtime_epoch == epoch then suc wanted.sequence else 0

pub data Replay : Type 0 where
  nothing : Replay
  gap : Replay
  events : List Event → Replay

abbrev pub ahead_of : Option Event → ℕ → Bool
ahead_of none next = false
ahead_of (some last) next = ltb (suc last.sequence) next

abbrev pub before : Option Event → ℕ → Bool
before none next = false
before (some first) next = ltb next first.sequence

-- One round of the replay loop of the runtime node's `subscribe`.
pub replay_runtime : Option Position → List Event → Replay
replay_runtime wanted ring = elim (get_last? ring) [
  | none ↦ nothing
  | some latest ↦
      let same_epoch = filter (of_epoch latest.runtime_epoch) ring in
      let next = next_wanted wanted latest.runtime_epoch in
      if ahead_of (get_last? same_epoch) next
      then gap
      else if before (head? same_epoch) next
      then gap
      else events (filter (λ event. leb next event.sequence) same_epoch)
]

-- One round of the replay loop of the control node's `#subscribe`.
pub replay_control : Option Position → List Event → Replay
replay_control wanted ring = elim (get_last? ring) [
  | none ↦ nothing
  | some newest ↦
      let same_epoch = filter (of_epoch newest.runtime_epoch) ring in
      let next = next_wanted wanted newest.runtime_epoch in
      if before (head? same_epoch) next
      then gap
      else events (filter (λ event. leb next event.sequence) same_epoch)
]

pub record Hub : Type 0 where
  pub native_ring_size : ℕ
  pub rings : Table (List Event)
  pub native_seen : Table Position

abbrev pub is_replay : Option Position → Event → Bool
is_replay none event = false
is_replay (some previous) event =
    previous.runtime_epoch == event.runtime_epoch && leb event.sequence previous.sequence

abbrev pub is_new_epoch : Option Position → Event → Bool
is_new_epoch none event = false
is_new_epoch (some previous) event = not (previous.runtime_epoch == event.runtime_epoch)

-- `#forgetNativeSession`.
pub forget_native_session : Hub → ℕ → Hub
forget_native_session h session_id = record h {
  native_seen = delete session_id h.native_seen;
  rings = delete session_id h.rings;
}

pub remember : Hub → Event → Hub
remember h event = record h {
  rings =
      insert event.session_id
        (add_to_ring h.native_ring_size (ring_of (lookup event.session_id h.rings)) event) h.rings;
  native_seen =
      insert event.session_id
        record { runtime_epoch = event.runtime_epoch; sequence = event.sequence } h.native_seen;
}

-- `publish` of a native event, with what it broadcasts.
pub publish_native : Hub → Event → Hub × Option Event
publish_native h event =
    let previous = lookup event.session_id h.native_seen in
    if is_replay previous event
    then (h, none)
    else if is_new_epoch previous event
    then (remember (forget_native_session h event.session_id) event, some event)
    else (remember h event, some event)

-- The constructor's control handler, on `session.upsert`.
pub session_upsert : Hub → ℕ → ℕ → Hub
session_upsert h session_id runtime_epoch = elim (lookup session_id h.native_seen) [
  | none ↦ h
  | some latest ↦
      if latest.runtime_epoch == runtime_epoch then h else forget_native_session h session_id
]
