-- ===== src/Records/Interaction.antt =====
-- Interaction records: packages/protocol/src/interaction.ts and `mergeInteractionRecord` of
-- packages/control-node-core/src/catalog.ts.
mod Examples
pub mod Merge
use agent_multiplex.Base.{ℕ, Bool, true, false, ◌&&◌, Option, ◌==◌, same_option, if◌then◌else◌}
use agent_multiplex.Errors.{payload_mismatch, conflict, Result, ok, err, ◌>>=◌, ◌>>◌, require}

pub data InteractionState : Type 0 where
  pending resolved expired stale : InteractionState

pub record Interaction : Type 0 where
  pub interaction_id : ℕ
  pub session_id : ℕ
  pub harness : ℕ
  pub runtime_epoch : ℕ
  pub native_request_id : Option ℕ
  pub request_type : ℕ
  pub payload : ℕ
  pub ephemeral : Bool
  pub state : InteractionState
  pub resolution : Option ℕ
  pub created_at : ℕ
  pub expires_at : Option ℕ
  pub resolved_at : Option ℕ

abbrev pub same_flag : Bool → Bool → Bool
same_flag true b = b
same_flag false true = false
same_flag false false = true

abbrev state_code : InteractionState → ℕ
state_code pending = 0
state_code resolved = 1
state_code expired = 2
state_code stale = 3

abbrev pub same_state : InteractionState → InteractionState → Bool
same_state a b = state_code a == state_code b

-- The ten fields that `currentIdentity` and `incomingIdentity` hold.
pub same_interaction_identity : Interaction → Interaction → Bool
same_interaction_identity l r =
    (l.interaction_id == r.interaction_id)
    && ((l.session_id == r.session_id)
        && ((l.harness == r.harness)
            && ((l.runtime_epoch == r.runtime_epoch)
                && (same_option l.native_request_id r.native_request_id
                    && ((l.request_type == r.request_type)
                        && ((l.payload == r.payload)
                            && (same_flag l.ephemeral r.ephemeral
                                && ((l.created_at == r.created_at)
                                    && same_option l.expires_at r.expires_at))))))))

-- `sameCanonicalJson` of two interaction records.
pub same_interaction : Interaction → Interaction → Bool
same_interaction l r =
    same_interaction_identity l r
    && (same_state l.state r.state
        && (same_option l.resolution r.resolution && same_option l.resolved_at r.resolved_at))

pub merge_states :
    InteractionState → InteractionState → Interaction → Interaction → Result Interaction
merge_states pending pending cur inc = err conflict
merge_states pending _ cur inc = ok inc
merge_states resolved pending cur inc = ok cur
merge_states resolved _ cur inc = err conflict
merge_states expired pending cur inc = ok cur
merge_states expired _ cur inc = err conflict
merge_states stale pending cur inc = ok cur
merge_states stale _ cur inc = err conflict

pub merge_interaction : Interaction → Interaction → Result Interaction
merge_interaction cur inc = do
  require (same_interaction_identity cur inc) payload_mismatch
  if same_interaction cur inc then ok cur else merge_states cur.state inc.state cur inc
