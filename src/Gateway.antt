-- ===== src/Gateway.antt =====
-- `AccessGatewayProjection` of packages/gateway-core/src/projection.ts: what a gateway knows of its
-- sources. A record of the protocol has the members that the gateway reads; a member that is only
-- compared as JSON is a number.
pub mod Changes
pub mod Conflicts
pub mod Coverage
pub mod Feed
pub mod Owners
pub mod Selection
use agent_multiplex.Base.{ℕ, Bool, Option, List}
use agent_multiplex.Records.Authority.{AuthorityRef}

pub record Manifest : Type 0 where
  pub source_control_node_id : ℕ
  pub source_control_node_boot_id : ℕ
  pub authority : AuthorityRef
  pub covered_control_node_ids : List ℕ
  pub feed_id : ℕ
  pub control_cursor : ℕ

pub record ControlNode : Type 0 where
  pub control_node_id : ℕ
  pub data_role : ℕ
  pub presence : ℕ

pub record RuntimeNode : Type 0 where
  pub runtime_node_id : ℕ
  pub owner_control_node_id : ℕ
  pub presence : ℕ

pub record Session : Type 0 where
  pub session_id : ℕ
  pub runtime_node_id : ℕ
  -- `nativeBindingIdentity` and `sessionBindingIdentity`
  pub native_binding : ℕ
  pub session_binding : ℕ
  pub metadata_revision : ℕ
  pub metadata : ℕ
  pub is_available : Bool

pub record Interaction : Type 0 where
  pub interaction_id : ℕ
  pub session_id : ℕ
  -- `interactionIdentity` and `interactionTerminalResult`
  pub immutable : ℕ
  pub is_pending : Bool
  pub terminal_result : ℕ

pub record MetadataOperation : Type 0 where
  pub operation_id : ℕ
  -- `metadataOperationIdentity`
  pub immutable : ℕ
  pub canonical_revision : ℕ
  pub canonical : ℕ
  pub is_queued : Bool
  -- the whole record
  pub content : ℕ

pub record SourceSnapshot : Type 0 where
  pub manifest : Manifest
  pub control_nodes : List ControlNode
  pub runtime_nodes : List RuntimeNode
  pub sessions : List Session
  pub interactions : List Interaction
  pub metadata_operations : List MetadataOperation

pub data SourceState : Type 0 where
  disabled connecting synchronizing unavailable conflict selected : SourceState
  -- with the source that covers it
  suppressed : ℕ → SourceState

pub record Source : Type 0 where
  pub source_id : ℕ
  pub priority : ℕ
  pub enabled : Bool
  pub snapshot : Option SourceSnapshot
  pub state : SourceState
  pub generation : ℕ

-- A source that can be selected, with the snapshot that it has.
pub record Candidate : Type 0 where
  pub source_id : ℕ
  pub priority : ℕ
  pub snapshot : SourceSnapshot
