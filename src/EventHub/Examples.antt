-- ===== src/EventHub/Examples.antt =====
-- Tests: rings of the events 4, 5 and 6 of one session.
use agent_multiplex.Base.{
  ℕ, ◌+◌, ◌≡◌, refl, Option, none, some, List, [], ◌∷◌, filter, length, arith,
}
use agent_multiplex.Stream.{Position}
use agent_multiplex.EventHub.{
  Event, Hub, next_wanted, events, replay_runtime, replay_control, publish_native,
}
use agent_multiplex.EventHub.Resume.{Counting, newest_epoch, replay_complete}
use agent_multiplex.EventHub.Once.{
  EachNewer, in_session, newer_events, publish_all, publish_all_once,
}
use agent_multiplex.EventHub.Rings.{Inv, publish_native-Inv}

abbrev event : ℕ → Event
event n = record { session_id = 2; runtime_epoch = 7; sequence = n; content = n + 100 }

abbrev ring : List Event
ring = event 4 ∷ event 5 ∷ event 6 ∷ []

abbrev wanted : Option Position
wanted = some record { runtime_epoch = 7; sequence = 4 }

replay_complete_example :
    (l : List Event) × (replay_runtime wanted ring ≡ events l)
    × (replay_control wanted ring ≡ events l)
    × Counting (next_wanted wanted 7) l
    × (next_wanted wanted 7 + length l ≡ 4 + length (newest_epoch (event 6) ring))
replay_complete_example =
    replay_complete wanted ring (event 6) 4 refl (refl, (refl, (refl, tt))) (omega arith)
      (omega arith)

abbrev empty_hub : Hub
empty_hub = record { native_ring_size = 2; rings = []; native_seen = [] }

empty_hub-Inv : Inv empty_hub
empty_hub-Inv = record { in_step = λ s. tt }

publish_native-Inv_example : Inv (publish_native empty_hub (event 4)).0
publish_native-Inv_example = publish_native-Inv empty_hub (event 4) (omega arith) empty_hub-Inv

-- The event 4 once more after the event 5.
abbrev history : List Event
history = event 4 ∷ event 5 ∷ event 4 ∷ event 6 ∷ []

publish_all_once_example :
    let sent = filter (in_session 2) (publish_all empty_hub history).1 in
    (sent ≡ newer_events none (filter (in_session 2) history)) × EachNewer none sent
publish_all_once_example = publish_all_once empty_hub history 2
