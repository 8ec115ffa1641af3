-- ===== src/Client/Watch.antt =====
-- `watchAccess` of packages/client/src/access-watch.ts: its handler of one item, with
-- `NativeSeenSet`. The subscription calls the handler on one item at a time, and stops for good
-- when it throws. `accepted` says whether the application's `onItem` returned.
pub mod Redelivery
use agent_multiplex.Base.{
  ℕ, suc, Bool, true, false, ◌&&◌, ◌||◌, not, Option, none, some, List, [], ◌∷◌, ◌++◌, map, length,
  filter, Table, lookup, insert, ◌==◌, leb, ltb, if◌then◌else◌,
}
use agent_multiplex.Stream.{
  Position, Cursor, Item, control, native, native_gap, heartbeat, stream_reset, is_stream_reset,
}
use agent_multiplex.Client.Cursor.{advance_access_cursor}

-- The map's key joins the session and the epoch; its entries stand from the oldest to the newest.
abbrev pub maximum_entries : ℕ
maximum_entries = 8192

abbrev pub same_key : ℕ → ℕ → (ℕ × ℕ) × ℕ → Bool
same_key session_id runtime_epoch e = e.0.0 == session_id && e.0.1 == runtime_epoch

abbrev pub position : List ((ℕ × ℕ) × ℕ) → ℕ → ℕ → Option ℕ
position [] session_id runtime_epoch = none
position (e ∷ l) session_id runtime_epoch =
    if same_key session_id runtime_epoch e then some e.1 else position l session_id runtime_epoch

pub seen_of : Option Cursor → List ((ℕ × ℕ) × ℕ)
seen_of none = []
seen_of (some c) = map (λ (e : ℕ × Position). ((e.0, e.1.runtime_epoch), e.1.sequence)) c.native

pub has_seen : List ((ℕ × ℕ) × ℕ) → ℕ → ℕ → ℕ → Bool
has_seen seen session_id runtime_epoch sequence = elim (position seen session_id runtime_epoch) [
  | none ↦ false
  | some last ↦ leb sequence last
]

abbrev pub evict : List ((ℕ × ℕ) × ℕ) → List ((ℕ × ℕ) × ℕ)
evict [] = []
evict (e ∷ l) = if ltb maximum_entries (suc (length l)) then evict l else e ∷ l

pub commit : List ((ℕ × ℕ) × ℕ) → Item → List ((ℕ × ℕ) × ℕ)
commit seen (native session_id runtime_epoch sequence content) = evict (
    filter (λ e. not (same_key session_id runtime_epoch e)) seen
    ++ ((session_id, runtime_epoch), sequence) ∷ [])
commit seen (control feed_id cursor content) = seen
commit seen (native_gap session_id content) = seen
commit seen (heartbeat feed_id cursor) = seen
commit seen (stream_reset feed_id cursor content) = seen

pub record Watch : Type 0 where
  pub cursor : Option Cursor
  pub pending_native : Table Position
  pub seen : List ((ℕ × ℕ) × ℕ)

unfoldable pub start : Option Cursor → Watch
unfolding seen_of
start cursor = record { cursor = cursor; pending_native = []; seen = seen_of cursor }

pub already_committed : Watch → Item → Bool
unfolding has_seen
already_committed w (control feed_id cursor content) = elim w.cursor [
  | none ↦ false
  | some c ↦ c.feed_id == feed_id && leb cursor c.control_cursor
]
already_committed w (native session_id runtime_epoch sequence content) =
    has_seen w.seen session_id runtime_epoch sequence
already_committed w (native_gap session_id content) = false
already_committed w (heartbeat feed_id cursor) = false
already_committed w (stream_reset feed_id cursor content) = false

pub note_pending : Watch → Item → Table Position
note_pending w (native session_id runtime_epoch sequence content) = elim w.cursor [
  | none ↦
      insert session_id record { runtime_epoch = runtime_epoch; sequence = sequence }
        w.pending_native
  | some c ↦ w.pending_native
]
note_pending w (control feed_id cursor content) = w.pending_native
note_pending w (native_gap session_id content) = w.pending_native
note_pending w (heartbeat feed_id cursor) = w.pending_native
note_pending w (stream_reset feed_id cursor content) = w.pending_native

-- `{ ...pending, ...native }`.
abbrev pub overlay : Table Position → Table Position → Table Position
overlay pending [] = pending
overlay pending ((s, p) ∷ l) = overlay (insert s p pending) l

-- What follows `cursor = advanceAccessCursor(cursor, item)`, for the cursor before it and after it.
pub settle : Option Cursor → Option Cursor → Bool → Table Position → Watch → Watch
settle none none reset pending w =
    if reset
    then record { cursor = none; pending_native = []; seen = [] }
    else record w { cursor = none; pending_native = pending }
settle none (some c) reset pending w =
    if reset then record { cursor = some c; pending_native = []; seen = [] } else record w {
      cursor = some record c { native = overlay pending c.native };
      pending_native = [];
    }
settle (some b) none reset pending w =
    if reset
    then record { cursor = none; pending_native = []; seen = [] }
    else record w { cursor = none; pending_native = pending }
settle (some b) (some c) reset pending w =
    if reset || not (b.feed_id == c.feed_id)
    then record { cursor = some c; pending_native = []; seen = [] }
    else record w { cursor = some c; pending_native = pending }

pub commit_item : Watch → Item → Watch
unfolding commit note_pending settle
commit_item w item =
    let settled =
      settle w.cursor (advance_access_cursor w.cursor item) (is_stream_reset item)
        (note_pending w item) w in
    record settled { seen = commit settled.seen item }

-- The handler: the state after it, and what it gave to `onItem`.
pub on_data : Watch → Item → Bool → Watch × Option Item
unfolding already_committed commit_item
on_data w item accepted =
    if already_committed w item
    then (w, none)
    else if accepted
    then (commit_item w item, some item)
    else (w, some item)
