-- ===== src/Catalog/Feed/Examples.antt =====
-- Tests: a journal of three published events.
use agent_multiplex.Base.{ℕ, ◌+◌, ◌-◌, ◌≤◌, ◌≡◌, refl, [], ◌∷◌, ◌++◌, length, take, drop, arith}
use agent_multiplex.Errors.{ok}
use agent_multiplex.Catalog.Feed.{Feed, control_events_after, compact_control_events, mutate}
use agent_multiplex.Catalog.Feed.Contiguous.{
  Contiguous, Inv, compacted, control_events_after_complete, compact_control_events-Inv,
}
use agent_multiplex.Catalog.Feed.Publish.{numbered, mutate_emits}

abbrev journal : Feed ℕ
journal = record {
  feed_id = 4;
  events = (3, 30) ∷ (4, 40) ∷ (5, 50) ∷ [];
  last_cursor = 5;
  minimum_cursor = 2;
  published_cursor = 5;
}

journal-Inv : Inv journal
journal-Inv = record {
  rows = (refl, (refl, (refl, tt)));
  count = omega arith;
  unpublished = omega arith;
  published = omega arith;
}

control_events_after_complete_example :
    (control_events_after journal 3 10 ≡ ok (take 10 (drop (3 - 2) journal.events)))
    × Contiguous 3 (drop (3 - 2) journal.events)
control_events_after_complete_example =
    control_events_after_complete journal 3 10 journal-Inv (omega arith) (omega arith)

compact_control_events-Inv_example :
    (compact_control_events journal 4 ≡ ok (compacted journal 4, 4 - 2)) × Inv (compacted journal 4)
compact_control_events-Inv_example = compact_control_events-Inv journal 4 journal-Inv (omega arith)

mutate_emits_example :
    (g : Feed ℕ) × (mutate 2 4 journal (60 ∷ 70 ∷ []) ≡ ok (g, numbered 5 (60 ∷ 70 ∷ [])))
    × Inv g
    × (g.published_cursor ≡ g.last_cursor)
    × (g.last_cursor ≡ 5 + 2)
    × (length g.events ≤ 4)
    × (g.events ≡ drop (5 - 4) (journal.events ++ numbered 5 (60 ∷ 70 ∷ [])))
mutate_emits_example = mutate_emits 2 4 journal (60 ∷ 70 ∷ []) journal-Inv refl (omega arith)
