-- ===== src/Client/Cursor.antt =====
-- `advanceAccessCursor` of packages/client/src/access-watch.ts, and the class `AccessCursor` of
-- packages/client/src/cursor.ts.
pub mod Progress
use agent_multiplex.Base.{
  ℕ, Bool, true, false, ◌&&◌, Option, none, some, [], Table, lookup, insert, delete, ◌==◌, leb, max,
  if◌then◌else◌,
}
use agent_multiplex.Stream.{
  Position, Cursor, Item, control, native, native_gap, heartbeat, stream_reset,
}

-- `previous?.runtimeEpoch === runtimeEpoch && previous.sequence >= sequence`.
unfoldable pub at_or_after : Option Position → ℕ → ℕ → Bool
at_or_after none runtime_epoch sequence = false
at_or_after (some p) runtime_epoch sequence =
    p.runtime_epoch == runtime_epoch && leb sequence p.sequence

-- The branches `control` and `heartbeat`.
unfoldable pub advance_feed : Option Cursor → ℕ → ℕ → Cursor
advance_feed none feed_id cursor = record {
  feed_id = feed_id;
  control_cursor = cursor;
  native = [];
}
advance_feed (some c) feed_id cursor =
    if c.feed_id == feed_id
    then record c { control_cursor = max c.control_cursor cursor }
    else record { feed_id = feed_id; control_cursor = cursor; native = [] }

unfoldable pub advance_native : Option Cursor → ℕ → ℕ → ℕ → Option Cursor
unfolding at_or_after
advance_native none session_id runtime_epoch sequence = none
advance_native (some c) session_id runtime_epoch sequence =
    if at_or_after (lookup session_id c.native) runtime_epoch sequence
    then some c
    else some record c {
      native =
          insert session_id record { runtime_epoch = runtime_epoch; sequence = sequence } c.native;
    }

unfoldable pub advance_access_cursor : Option Cursor → Item → Option Cursor
unfolding advance_feed advance_native
advance_access_cursor c (control feed_id cursor content) = some (advance_feed c feed_id cursor)
advance_access_cursor c (heartbeat feed_id cursor) = some (advance_feed c feed_id cursor)
advance_access_cursor c (native session_id runtime_epoch sequence content) =
    advance_native c session_id runtime_epoch sequence
advance_access_cursor c (native_gap session_id content) = c
advance_access_cursor c (stream_reset feed_id cursor content) =
    some record { feed_id = feed_id; control_cursor = cursor; native = [] }

pub record AccessCursor : Type 0 where
  pub cursor : Option Cursor
  pub pending_native : Table Position

unfoldable pub observe_feed : AccessCursor → ℕ → ℕ → AccessCursor
observe_feed a feed_id control_cursor = elim a.cursor [
  | none ↦ record {
    cursor =
        some
          record { feed_id = feed_id; control_cursor = control_cursor; native = a.pending_native };
    pending_native = [];
  }
  | some c ↦
      if c.feed_id == feed_id
      then record a {
        cursor = some record c { control_cursor = max c.control_cursor control_cursor };
      }
      else record {
        cursor = some record { feed_id = feed_id; control_cursor = control_cursor; native = [] };
        pending_native = [];
      }
]

unfoldable pub observe_native : AccessCursor → ℕ → Position → AccessCursor
observe_native a session_id position = elim a.cursor [
  | none ↦ record a { pending_native = insert session_id position a.pending_native }
  | some c ↦ record a { cursor = some record c { native = insert session_id position c.native } }
]

unfoldable pub observe : AccessCursor → Item → AccessCursor
unfolding observe_feed observe_native
observe a (control feed_id cursor content) = observe_feed a feed_id cursor
observe a (heartbeat feed_id cursor) = observe_feed a feed_id cursor
observe a (native session_id runtime_epoch sequence content) =
    observe_native a session_id record { runtime_epoch = runtime_epoch; sequence = sequence }
observe a (native_gap session_id content) = a
observe a (stream_reset feed_id control_cursor content) = record {
  cursor = some record { feed_id = feed_id; control_cursor = control_cursor; native = [] };
  pending_native = [];
}

pub forget_native : AccessCursor → ℕ → AccessCursor
forget_native a session_id = record {
  cursor = elim a.cursor [
    | none ↦ none
    | some c ↦ some record c { native = delete session_id c.native }
  ];
  pending_native = delete session_id a.pending_native;
}
