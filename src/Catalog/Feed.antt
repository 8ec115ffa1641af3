-- ===== src/Catalog/Feed.antt =====
-- The control journal of packages/control-node-core/src/catalog.ts: the tables `control_events` and
-- `control_feed_state`, and the published cursor. The rows stand in cursor order.
pub mod Contiguous
mod Examples
pub mod Publish
use agent_multiplex.Base.{
  ℕ, zero, suc, ◌+◌, ◌-◌, Bool, true, false, ◌&&◌, not, Option, none, some, List, [], ◌∷◌, ◌++◌,
  length, take, drop, filter, ltb, leb, if◌then◌else◌,
}
use agent_multiplex.Errors.{cursor_expired, invalid_input, Result, ok, err, ◌>>=◌, ◌>>◌, require}

pub record Feed (C : Type 0) : Type 0 where
  pub feed_id : ℕ
  pub events : List (ℕ × C)
  pub last_cursor : ℕ
  pub minimum_cursor : ℕ
  pub published_cursor : ℕ

module _ {C : Type 0} where
  pub can_replay : Feed C → ℕ → Bool
  can_replay f cursor = leb f.minimum_cursor cursor && leb cursor f.last_cursor

  -- `cursor > ?` of the two queries.
  abbrev pub after : ℕ → ℕ × C → Bool
  after cursor (c, change) = ltb cursor c

  pub control_events_after : Feed C → ℕ → ℕ → Result (List (ℕ × C))
  unfolding can_replay
  control_events_after f cursor limit = do
    require (can_replay f cursor) cursor_expired
    ok (take limit (filter (after cursor) f.events))

  unfoldable pub append_control : Feed C → C → Feed C
  append_control f change = record f {
    events = f.events ++ (suc f.last_cursor, change) ∷ [];
    last_cursor = suc f.last_cursor;
  }

  -- With the number of rows deleted.
  pub compact_control_events : Feed C → ℕ → Result (Feed C × ℕ)
  compact_control_events f through =
      if ltb f.last_cursor through
      then err invalid_input
      else if leb through f.minimum_cursor
      then ok (f, 0)
      else ok (
        record f { events = filter (after through) f.events; minimum_cursor = through },
        length f.events - length (filter (after through) f.events),
      )

  unfoldable pub rotate_control_feed : Feed C → ℕ → Feed C
  rotate_control_feed f feed_id = record {
    feed_id = feed_id;
    events = [];
    last_cursor = 0;
    minimum_cursor = 0;
    published_cursor = 0;
  }

  -- The inner loop of `#publishNewControls`: `#publishedCursor` follows each emitted event.
  abbrev pub emit_batch : ℕ → List (ℕ × C) → ℕ
  emit_batch published [] = published
  emit_batch published ((cursor, change) ∷ rest) = emit_batch cursor rest

  -- `#publishNewControls`, with what it emits; `batch` is the limit of one query, 10 000 in the
  -- source. It is given as many rounds as there are events, and one more.
  pub publish_rounds : ℕ → ℕ → Feed C → Result (Feed C × List (ℕ × C))
  unfolding control_events_after
  publish_rounds zero batch f = err invalid_input
  publish_rounds (suc fuel) batch f = do
    events ← control_events_after f f.published_cursor batch
    let published = record f { published_cursor = emit_batch f.published_cursor events }
    let more = publish_rounds fuel batch published
    if ltb (length events) batch
        then ok (published, events)
        else (do (final, later) ← more; ok (final, events ++ later))

  pub publish_new_controls : ℕ → Feed C → Result (Feed C × List (ℕ × C))
  unfolding publish_rounds
  publish_new_controls batch f = publish_rounds (suc (length f.events)) batch f

  pub compact_to_limit : ℕ → Feed C → Result (Feed C)
  unfolding compact_control_events
  compact_to_limit retention f =
      let through = f.last_cursor - retention in
      if ltb f.minimum_cursor through
      then (do (compacted, deleted) ← compact_control_events f through; ok compacted)
      else ok f

  abbrev pub append_all : Feed C → List C → Feed C
  append_all f [] = f
  append_all f (change ∷ changes) = append_all (append_control f change) changes

  -- `#mutate` of a body that appends these changes and commits: the events that it emits, and the
  -- feed after compaction.
  pub mutate : ℕ → ℕ → Feed C → List C → Result (Feed C × List (ℕ × C))
  unfolding publish_new_controls compact_to_limit
  mutate batch retention f changes = do
    (published, emitted) ← publish_new_controls batch (append_all f changes)
    final ← compact_to_limit retention published
    ok (final, emitted)
