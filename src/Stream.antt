-- ===== src/Stream.antt =====
-- The items and cursors of packages/protocol/src/stream.ts. Identifiers stand for their canonical
-- text; the change, event or reason that an item carries, and its provenance, is its `content`.
use agent_multiplex.Base.{ℕ, Bool, true, false, Table}

pub record Position : Type 0 where
  pub runtime_epoch : ℕ
  pub sequence : ℕ

pub record Cursor : Type 0 where
  pub feed_id : ℕ
  pub control_cursor : ℕ
  pub native : Table Position

-- `accessStreamItemSchema`.
pub data Item : Type 0 where
  control : (feed_id cursor content : ℕ) → Item
  native : (session_id runtime_epoch sequence content : ℕ) → Item
  native_gap : (session_id content : ℕ) → Item
  heartbeat : (feed_id control_cursor : ℕ) → Item
  stream_reset : (feed_id control_cursor content : ℕ) → Item

abbrev pub is_stream_reset : Item → Bool
is_stream_reset (stream_reset feed_id cursor content) = true
is_stream_reset _ = false
