-- ===== src/Client/Examples.antt =====
-- Tests: a watch of one feed, with replays.
use agent_multiplex.Base.{◌≡◌, refl, none, some, List, [], ◌∷◌}
use agent_multiplex.Stream.{Position, Cursor, Item, control, native}
use agent_multiplex.Client.Cursor.{advance_access_cursor}
use agent_multiplex.Client.Watch.{Watch, start}
use agent_multiplex.Client.Watch.Redelivery.{controls, Increasing, watch_all, watch_all-Increasing}

abbrev position : Position
position = record { runtime_epoch = 7; sequence = 3 }

abbrev cursor : Cursor
cursor = record { feed_id = 1; control_cursor = 10; native = (2, position) ∷ [] }

abbrev watch : Watch
watch = start (some cursor)

abbrev next_native : Item
next_native = native 2 7 4 99

abbrev later : Cursor
later = record cursor { native = (2, record { runtime_epoch = 7; sequence = 4 }) ∷ [] }

advances : advance_access_cursor (some cursor) next_native ≡ some later
unfolding advance_access_cursor
advances = refl

watch_cursor : watch.cursor ≡ some cursor
unfolding start
watch_cursor = refl

abbrev unnamed : Watch
unnamed = record { cursor = none; pending_native = []; seen = [] }

abbrev items : List Item
items = control 1 10 5 ∷ control 1 11 6 ∷ next_native ∷ control 1 11 6 ∷ control 1 12 8 ∷ []

watch_all-Increasing_example : Increasing 10 (controls (watch_all watch items))
watch_all-Increasing_example =
    watch_all-Increasing watch cursor items watch_cursor (refl, (refl, (refl, (refl, (refl, tt)))))
