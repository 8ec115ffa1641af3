-- ===== src/Records/Launch.antt =====
-- Launch records: packages/protocol/src/launch.ts and `mergeLaunchRecord` of
-- packages/control-node-core/src/catalog.ts.
mod Examples
pub mod Merge
use agent_multiplex.Base.{
  ℕ, Bool, true, false, not, ◌&&◌, ◌||◌, Option, none, some, ◌==◌, ltb, same_option, if◌then◌else◌,
}
use agent_multiplex.Errors.{
  payload_mismatch, conflict, invalid_input, Result, ok, err, ◌>>=◌, ◌>>◌, require,
}
use agent_multiplex.Records.Timestamp.{compare_operation_timestamp, is_negative}

pub data LaunchState : Type 0 where
  accepted preparing native_starting cleanup_pending : LaunchState
  succeeded failed outcome_unknown : LaunchState

pub record LaunchResult : Type 0 where
  pub session_id : ℕ
  pub adapter_scope_id : ℕ
  pub vendor_session_id : ℕ
  pub backend_id : ℕ
  pub binding_revision : ℕ

pub record Launch : Type 0 where
  pub launch_id : ℕ
  pub payload_hash : ℕ
  pub session_id : ℕ
  pub runtime_node_id : ℕ
  pub profile : ℕ
  pub harness : ℕ
  pub input : ℕ
  pub metadata : Option ℕ
  pub implementation_version : ℕ
  pub state : LaunchState
  pub result : Option LaunchResult
  pub status_message : Option ℕ
  pub error : Option ℕ
  pub created_at : ℕ
  pub updated_at : ℕ

abbrev pub is_present {ℓ} : {A : Type ℓ} → Option A → Bool
is_present none = false
is_present (some a) = true

abbrev pub rank : LaunchState → ℕ
rank accepted = 0
rank preparing = 1
rank native_starting = 2
rank cleanup_pending = 3
rank succeeded = 4
rank failed = 4
rank outcome_unknown = 4

abbrev pub is_terminal : LaunchState → Bool
is_terminal succeeded = true
is_terminal failed = true
is_terminal outcome_unknown = true
is_terminal _ = false

abbrev pub binds : ℕ → Option LaunchResult → Bool
binds session none = false
binds session (some r) = r.session_id == session

-- The refinement of `launchRecordSchema`, by the state.
pub refine_launch : LaunchState → Launch → Bool
refine_launch succeeded r = binds r.session_id r.result && not (is_present r.error)
refine_launch failed r = not (is_present r.result) && is_present r.error
refine_launch outcome_unknown r = not (is_present r.result) && is_present r.error
refine_launch _ r = not (is_present r.result) && not (is_present r.error)

pub valid_launch : Launch → Bool
unfolding refine_launch
valid_launch r = refine_launch r.state r

abbrev state_code : LaunchState → ℕ
state_code accepted = 0
state_code preparing = 1
state_code native_starting = 2
state_code cleanup_pending = 3
state_code succeeded = 4
state_code failed = 5
state_code outcome_unknown = 6

abbrev same_state : LaunchState → LaunchState → Bool
same_state a b = state_code a == state_code b

abbrev same_result : Option LaunchResult → Option LaunchResult → Bool
same_result none none = true
same_result (some a) (some b) =
    (a.session_id == b.session_id)
    && ((a.adapter_scope_id == b.adapter_scope_id)
        && ((a.vendor_session_id == b.vendor_session_id)
            && ((a.backend_id == b.backend_id) && (a.binding_revision == b.binding_revision))))
same_result _ _ = false

-- The fields of `identity`.
pub same_launch_identity : Launch → Launch → Bool
same_launch_identity l r =
    (l.launch_id == r.launch_id)
    && ((l.payload_hash == r.payload_hash)
        && ((l.session_id == r.session_id)
            && ((l.runtime_node_id == r.runtime_node_id)
                && ((l.profile == r.profile)
                    && ((l.harness == r.harness)
                        && ((l.input == r.input)
                            && (same_option l.metadata r.metadata
                                && ((l.implementation_version == r.implementation_version)
                                    && (l.created_at == r.created_at)))))))))

-- `sameCanonicalJson` of two launch records.
pub same_launch : Launch → Launch → Bool
same_launch l r =
    same_launch_identity l r
    && (same_state l.state r.state
        && (same_result l.result r.result
            && (same_option l.status_message r.status_message
                && (same_option l.error r.error && (l.updated_at == r.updated_at)))))

module _ (instant : ℕ → ℕ) where
  -- The stored admission time stays, and the update time never moves back.
  pub restamp : Launch → Launch → Launch
  restamp cur input = record input {
    created_at = cur.created_at;
    updated_at =
        if is_negative (compare_operation_timestamp instant input.updated_at cur.updated_at)
        then cur.updated_at
        else input.updated_at;
  }

  -- `mergeLaunchRecord` after the two records are known to differ; `stale` is a negative
  -- `observedRecency`.
  pub advance_launch : Launch → Launch → Bool → Result Launch
  advance_launch cur incoming stale =
      if ltb (rank incoming.state) (rank cur.state)
      then ok cur
      else if is_terminal cur.state
      then err conflict
      else if ltb (rank cur.state) (rank incoming.state)
      then ok incoming
      else if stale
      then ok cur
      else ok incoming

  pub merge_launch : Launch → Launch → Result Launch
  merge_launch cur input = do
    require (valid_launch input) invalid_input
    require (same_launch_identity cur (restamp cur input)) payload_mismatch
    if same_launch cur (restamp cur input)
        then ok cur
        else advance_launch cur (restamp cur input)
            (is_negative (compare_operation_timestamp instant input.updated_at cur.updated_at))
