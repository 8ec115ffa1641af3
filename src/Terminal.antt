-- ===== src/Terminal.antt =====
-- One managed terminal of packages/runtime-node-core/src/terminal.ts (class `ManagedTerminal`): its
-- sequence, its replay ring and its lease. The screen emulator is not modelled. `published` is
-- what the subscribers' mailboxes are given, and `received` what the process is given.
pub mod Attach
pub mod Examples
pub mod Replay
pub mod Keyboard
pub mod Output
pub mod Resume
use agent_multiplex.Base.{
  ℕ, zero, suc, ◌+◌, ◌-◌, Bool, true, false, ◌||◌, Option, none, some, List, [], ◌∷◌, ◌++◌, Table,
  length, take, drop, ltb, leb, if◌then◌else◌,
}

pub record Dimensions : Type 0 where
  pub columns : ℕ
  pub rows : ℕ

pub data State : Type 0 where
  running : State
  exited : State
  failed : State

pub record Summary : Type 0 where
  pub terminal_lease_id : ℕ
  pub terminal_client_id : ℕ
  pub expires_at : ℕ

-- The fields of `TerminalDescriptor` that change; the others are fixed with the terminal.
pub record Descriptor : Type 0 where
  pub state : State
  pub dimensions : Dimensions
  pub sequence : ℕ
  pub lease : Option Summary
  pub exit : Option ℕ

pub data Reason : Type 0 where
  initial : Reason
  cursor_ahead : Reason
  cursor_expired : Reason

-- `TerminalStreamItem`; the terminal's identifier in each cursor is left out.
pub data StreamItem : Type 0 where
  output : (sequence : ℕ) → (bytes : List ℕ) → StreamItem
  changed : (sequence : ℕ) → (terminal : Descriptor) → StreamItem
  resized : (sequence : ℕ) → (dimensions : Dimensions) → StreamItem
  replay_start : (initial_dimensions : Dimensions) → (terminal : Descriptor) → StreamItem
  replay_end : (sequence : ℕ) → (terminal : Descriptor) → StreamItem
  reset :
      (reason : Reason) → (sequence : ℕ) → (screen : List ℕ) → (terminal : Descriptor) → StreamItem
  heartbeat : (sequence : ℕ) → StreamItem

-- `item.cursor.sequence`.
abbrev pub sequence_of : StreamItem → ℕ
sequence_of (output sequence bytes) = sequence
sequence_of (changed sequence terminal) = sequence
sequence_of (resized sequence dimensions) = sequence
sequence_of (replay_start initial_dimensions terminal) = 0
sequence_of (replay_end sequence terminal) = sequence
sequence_of (reset reason sequence screen terminal) = sequence
sequence_of (heartbeat sequence) = sequence

pub data Payload : Type 0 where
  write : (bytes : List ℕ) → Payload
  resize : (dimensions : Dimensions) → Payload

pub record InputResult : Type 0 where
  pub input_sequence : ℕ
  pub accepted_at : ℕ

-- The hash of a payload, and the result given for it.
pub record Receipt : Type 0 where
  pub hash : ℕ
  pub result : InputResult

pub record Lease : Type 0 where
  pub summary : Summary
  pub token_hash : ℕ
  pub next_input_sequence : ℕ
  pub receipts : Table Receipt

pub record Limits : Type 0 where
  pub replay_items : ℕ
  pub replay_bytes : ℕ
  pub lease_ttl_ms : ℕ

pub record Capabilities : Type 0 where
  pub can_write : Bool
  pub can_resize : Bool

pub record Terminal : Type 0 where
  pub state : State
  pub dimensions : Dimensions
  pub initial_dimensions : Dimensions
  pub opening_output_complete : Bool
  pub sequence : ℕ
  pub last_output_sequence : ℕ
  pub replay : List (StreamItem × ℕ)
  pub replay_bytes : ℕ
  pub lease : Option Lease
  pub exit : Option ℕ
  pub limits : Limits
  pub capabilities : Capabilities
  pub published : List StreamItem
  pub received : List Payload

abbrev pub is_running : State → Bool
is_running running = true
is_running _ = false

abbrev pub summary_of : Option Lease → Option Summary
summary_of none = none
summary_of (some lease) = some lease.summary

pub descriptor : Terminal → Descriptor
descriptor t = record {
  state = t.state;
  dimensions = t.dimensions;
  sequence = t.sequence;
  lease = summary_of t.lease;
  exit = t.exit;
}

-- The loop of `publish` that drops the oldest entries.
abbrev pub shrink : Limits → List (StreamItem × ℕ) → ℕ → List (StreamItem × ℕ) × ℕ
shrink limits [] bytes = ([], bytes)
shrink limits (entry ∷ rest) bytes =
    if ltb limits.replay_items (suc (length rest)) || ltb limits.replay_bytes bytes
    then shrink limits rest (bytes - entry.1)
    else (entry ∷ rest, bytes)

pub publish : Terminal → StreamItem → ℕ → Terminal
publish t item bytes =
    let (replay, replay_bytes) =
      shrink t.limits (t.replay ++ (item, bytes) ∷ []) (t.replay_bytes + bytes) in
    record t { replay = replay; replay_bytes = replay_bytes; published = t.published ++ item ∷ [] }

-- `TERMINAL_MAX_FRAME_BYTES`.
abbrev pub max_frame_bytes : ℕ
max_frame_bytes = 16384

pub publish_frame : Terminal → List ℕ → Terminal
unfolding publish
publish_frame t frame =
    publish (record t { sequence = suc t.sequence; last_output_sequence = suc t.sequence })
      (output (suc t.sequence) frame) (length frame)

-- The loop of `acceptOutput` over the frames of `bytes`; each round takes at least one byte, and as
-- many rounds are given as there are bytes.
abbrev pub publish_frames : ℕ → Terminal → List ℕ → Terminal
publish_frames zero t bytes = t
publish_frames (suc fuel) t [] = t
publish_frames (suc fuel) t (b ∷ bytes) =
    publish_frames fuel (publish_frame t (take max_frame_bytes (b ∷ bytes)))
      (drop max_frame_bytes (b ∷ bytes))

pub accept_output : Terminal → List ℕ → Terminal
accept_output t bytes = if is_running t.state then publish_frames (length bytes) t bytes else t

-- The method `changed`.
unfoldable pub emit_changed : Terminal → Terminal
unfolding publish descriptor
emit_changed t =
    let next = record t { sequence = suc t.sequence } in
    publish next (changed (suc t.sequence) (descriptor next)) 256

unfoldable pub clear_lease : Terminal → Bool → Terminal
unfolding emit_changed
clear_lease t emit = elim t.lease [
  | none ↦ t
  | some lease ↦
      if emit then emit_changed (record t { lease = none }) else record t { lease = none }
]

unfoldable pub expire_lease_if_needed : Terminal → ℕ → Terminal
unfolding clear_lease
expire_lease_if_needed t now = elim t.lease [
  | none ↦ t
  | some lease ↦ if leb lease.summary.expires_at now then clear_lease t true else t
]

-- `retire`; its calls on the process and the subscribers end both.
pub retire : Terminal → ℕ → State → Terminal
unfolding clear_lease emit_changed
retire t exit state =
    if is_running t.state
    then emit_changed (clear_lease (record t { state = state; exit = some exit }) false)
    else t
