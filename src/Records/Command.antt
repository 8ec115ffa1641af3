-- ===== src/Records/Command.antt =====
-- Command records: packages/protocol/src/command.ts and `mergeCommandRecord` of
-- packages/control-node-core/src/catalog.ts.
mod Examples
pub mod Merge
use agent_multiplex.Base.{
  ℕ, ◌≡◌, refl, Bool, true, false, ◌&&◌, ◌||◌, Option, ◌==◌, same_option, if◌then◌else◌, arith,
}
use agent_multiplex.Errors.{
  ErrorCode, payload_mismatch, conflict, Result, ok, err, ◌>>=◌, ◌>>◌, require,
}

pub data CommandState : Type 0 where
  received started succeeded failed outcome_unknown : CommandState

pub record Command : Type 0 where
  pub command_id : ℕ
  pub payload_hash : ℕ
  pub session_id : Option ℕ
  pub runtime_node_id : ℕ
  pub state : CommandState
  pub request : ℕ
  pub result : Option ℕ
  pub error : Option ℕ
  pub created_at : ℕ
  pub updated_at : ℕ

abbrev state_code : CommandState → ℕ
state_code received = 0
state_code started = 1
state_code succeeded = 2
state_code failed = 3
state_code outcome_unknown = 4

abbrev pub same_state : CommandState → CommandState → Bool
same_state a b = state_code a == state_code b

pub is_terminal_command_state : CommandState → Bool
is_terminal_command_state succeeded = true
is_terminal_command_state failed = true
is_terminal_command_state outcome_unknown = true
is_terminal_command_state _ = false

-- `assertSameCommandRequest` passes.
pub same_command_request : Command → Command → Bool
same_command_request l r =
    (l.command_id == r.command_id)
    && ((l.payload_hash == r.payload_hash)
        && ((same_option l.session_id r.session_id)
            && ((l.runtime_node_id == r.runtime_node_id) && (l.request == r.request))))

-- All fields but the two clocks.
pub same_command_state_data : Command → Command → Bool
unfolding same_command_request
same_command_state_data l r =
    same_command_request l r
    && ((same_state l.state r.state)
        && ((same_option l.result r.result) && (same_option l.error r.error)))

-- `sameCanonicalJson` of two command records.
pub same_command : Command → Command → Bool
unfolding same_command_state_data
same_command l r =
    same_command_state_data l r
    && ((l.created_at == r.created_at) && (l.updated_at == r.updated_at))

-- The ladder of `mergeCommandRecord` over the two states, once the records are known to differ.
pub merge_states : CommandState → CommandState → Command → Command → Bool → Result Command
unfolding same_command_state_data
merge_states received received cur inc recover =
    if same_command_state_data cur inc then ok cur else err conflict
merge_states received _ cur inc recover = ok inc
merge_states started received cur inc recover = ok cur
merge_states started started cur inc recover =
    if same_command_state_data cur inc then ok cur else err conflict
merge_states started _ cur inc recover = ok inc
merge_states outcome_unknown received cur inc recover = ok cur
merge_states outcome_unknown started cur inc recover = ok cur
merge_states outcome_unknown succeeded cur inc recover = if recover then ok inc else err conflict
merge_states outcome_unknown failed cur inc recover = if recover then ok inc else err conflict
merge_states outcome_unknown outcome_unknown cur inc recover = err conflict
merge_states succeeded received cur inc recover = ok cur
merge_states succeeded started cur inc recover = ok cur
merge_states succeeded _ cur inc recover = err conflict
merge_states failed received cur inc recover = ok cur
merge_states failed started cur inc recover = ok cur
merge_states failed _ cur inc recover = err conflict

-- The first acceptance keeps its clock: an incoming record takes the current `createdAt`.
abbrev pub restamp : Command → Command → Command
restamp cur inc = record inc { created_at = cur.created_at }

pub merge_command : Command → Command → Bool → Result Command
unfolding merge_states same_command
merge_command cur input recover = do
  require (same_command_request cur input) payload_mismatch
  if same_command cur (restamp cur input)
      then ok cur
      else merge_states cur.state input.state cur (restamp cur input) recover
