-- ===== src/Terminal/Attach.antt =====
-- `attach` of `TerminalBroker` in packages/runtime-node-core/src/terminal.ts: what a subscriber gets
-- before the live items.
use agent_multiplex.Base.{
  ℕ, ◌+◌, Bool, true, false, ◌&&◌, ◌||◌, Option, none, some, List, [], ◌∷◌, ◌++◌, map, filter,
  length, ltb, ◌==◌, if◌then◌else◌,
}
use agent_multiplex.Terminal.{
  Dimensions, Reason, initial, cursor_ahead, cursor_expired, StreamItem, output, changed, resized,
  replay_start, replay_end, reset, heartbeat, sequence_of, Terminal, descriptor,
  expire_lease_if_needed, max_frame_bytes,
}

abbrev pub flush : Option (ℕ × List ℕ) → List StreamItem
flush none = []
flush (some (sequence, bytes)) = output sequence bytes ∷ []

abbrev pub joined : Option (ℕ × List ℕ) → List ℕ → List ℕ
joined none bytes = bytes
joined (some (sequence, pending)) bytes = pending ++ bytes

abbrev pub overfull : Option (ℕ × List ℕ) → List ℕ → Bool
overfull none bytes = false
overfull (some (sequence, pending)) bytes =
    ltb 0 (length pending) && ltb max_frame_bytes (length pending + length bytes)

abbrev pub same_dimensions : Dimensions → Dimensions → Bool
same_dimensions a b = a.columns == b.columns && a.rows == b.rows

-- The loop of `exactReplayItems`, from the dimensions and the pending output so far.
abbrev pub coalesce : Dimensions → Option (ℕ × List ℕ) → List StreamItem → List StreamItem
coalesce dimensions pending [] = flush pending
coalesce dimensions pending (output sequence bytes ∷ items) =
    if overfull pending bytes
    then flush pending ++ coalesce dimensions (some (sequence, bytes)) items
    else coalesce dimensions (some (sequence, joined pending bytes)) items
coalesce dimensions pending (changed sequence terminal ∷ items) =
    if same_dimensions terminal.dimensions dimensions
    then coalesce dimensions pending items
    else flush pending
      ++ resized sequence terminal.dimensions ∷ coalesce terminal.dimensions none items
coalesce dimensions pending (resized sequence d ∷ items) = coalesce dimensions pending items
coalesce dimensions pending (replay_start d terminal ∷ items) = coalesce dimensions pending items
coalesce dimensions pending (replay_end sequence terminal ∷ items) =
    coalesce dimensions pending items
coalesce dimensions pending (reset reason sequence screen terminal ∷ items) =
    coalesce dimensions pending items
coalesce dimensions pending (heartbeat sequence ∷ items) = coalesce dimensions pending items

pub exact_replay_items : Terminal → List StreamItem
exact_replay_items t =
    coalesce t.initial_dimensions none (map (λ (e : StreamItem × ℕ). e.0) t.replay)

pub complete_replay : Terminal → List StreamItem
unfolding exact_replay_items
complete_replay t =
    replay_start t.initial_dimensions (descriptor t)
    ∷ (exact_replay_items t ++ replay_end t.sequence (descriptor t) ∷ [])

abbrev pub first_sequence : List (StreamItem × ℕ) → Option ℕ
first_sequence [] = none
first_sequence ((item, bytes) ∷ rest) = some (sequence_of item)

abbrev pub starts_at_one : Option ℕ → Bool
starts_at_one none = false
starts_at_one (some first) = first == 1

abbrev pub behind : Option ℕ → ℕ → Bool
behind none wanted = true
behind (some first) wanted = ltb (wanted + 1) first

pub data Attachment : Type 0 where
  prefixed : (prefix : List StreamItem) → Attachment
  resetting : (reason : Reason) → Attachment

unfoldable pub attach_at : Terminal → Option ℕ → Attachment
unfolding complete_replay
attach_at t none =
    if t.opening_output_complete && (t.sequence == 0 || starts_at_one (first_sequence t.replay))
    then prefixed (complete_replay t)
    else resetting initial
attach_at t (some wanted) =
    if ltb t.sequence wanted
    then resetting cursor_ahead
    else if ltb wanted t.sequence && behind (first_sequence t.replay) wanted
    then resetting cursor_expired
    else prefixed
        (map (λ (e : StreamItem × ℕ). e.0) (filter (λ e. ltb wanted (sequence_of e.0)) t.replay))

-- With the terminal after the expiry of its lease.
pub attach : Terminal → ℕ → Option ℕ → Terminal × Attachment
unfolding attach_at
attach t now cursor =
    let settled = expire_lease_if_needed t now in (settled, attach_at settled cursor)
