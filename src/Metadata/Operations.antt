-- ===== src/Metadata/Operations.antt =====
-- The metadata operations of packages/control-node-core/src/catalog.ts: `submitMetadataPatch`,
-- `applyMetadataAtAuthority`, `settleMetadataOperation` and what they call. The canonical JSON text of
-- a patch, a snapshot and an operation is a parameter, and so are clock readings. A transaction gives
-- its new state; a call that throws gives its error alone.
mod Examples
pub mod Advance
pub mod Monotone
pub mod Adopted
pub mod Retry
pub mod Stored
pub mod Settlement
use agent_multiplex.Base.{
  ℕ, Bool, true, false, ◌&&◌, ◌||◌, not, Option, none, some, List, [], ◌∷◌, ◌++◌, filter, any,
  Table, lookup, has, insert, delete, ltb, ◌==◌, if◌then◌else◌,
}
use agent_multiplex.Errors.{
  Result, ok, err, not_found, conflict, fenced, payload_mismatch, invalid_input,
}
use agent_multiplex.Records.Authority.{AuthorityRef, same_authority}
use agent_multiplex.Metadata.{
  Snapshot, Patch, Conflict, PatchResult, accepted, rejected, valid_patch, apply_metadata_patch,
  optimistic_metadata, contains,
}

-- `committed` is the status `accepted` of the source.
pub data Status : Type 0 where
  queued committed conflicted outcome_unknown : Status

pub record Operation : Type 0 where
  pub operation_id : ℕ
  pub session_id : ℕ
  pub patch : Patch
  pub status : Status
  pub canonical : Snapshot
  pub optimistic : Option Snapshot
  pub conflicts : Option (List Conflict)
  pub origin_control_node_id : ℕ
  pub authority : AuthorityRef
  pub created_at : ℕ
  pub updated_at : ℕ

pub record Session : Type 0 where
  pub metadata : Snapshot
  pub metadata_authority : AuthorityRef
  pub runtime_node_id : ℕ
  pub is_open : Bool
  pub updated_at : ℕ

-- The changes that are given to `#appendControl`.
pub data Change : Type 0 where
  metadata_changed : (session_id : ℕ) (metadata : Snapshot) → Change
  metadata_operation : Operation → Change

pub record Node : Type 0 where
  pub is_branch : Bool
  -- the lifecycle of a branch
  pub is_attached : Bool
  pub authority : AuthorityRef
  pub sessions : Table Session
  pub operations : Table Operation
  -- the operations that were projected from a child
  pub projected : List ℕ
  pub outbox : List ℕ
  -- delivery intents: the runtime node and the operation
  pub intents : List (ℕ × ℕ)
  pub changes : List Change

abbrev pub is_queued : Status → Bool
is_queued queued = true
is_queued _ = false

-- `#putMetadataOperation(operation, null)`.
pub put_operation : Operation → Node → Node
put_operation o n = record n {
  operations = insert o.operation_id o n.operations;
  projected = filter (λ id. not (id == o.operation_id)) n.projected;
}

-- `INSERT OR IGNORE`.
abbrev pub add_once : ℕ → List ℕ → List ℕ
add_once id ids = if contains id ids then ids else ids ++ id ∷ []

abbrev pub add_intent : ℕ × ℕ → List (ℕ × ℕ) → List (ℕ × ℕ)
add_intent intent l =
    if any (λ (i : ℕ × ℕ). (i.0 == intent.0) && (i.1 == intent.1)) l then l else l ++ intent ∷ []

-- `#enqueueDeliveryIntent`, for an open session.
pub enqueue_delivery : Session → ℕ → Node → Node
enqueue_delivery s operation_id n =
    if s.is_open
    then record n { intents = add_intent (s.runtime_node_id, operation_id) n.intents }
    else n

abbrev is_conflicted : Status → Bool
is_conflicted conflicted = true
is_conflicted _ = false

abbrev is_some {ℓ} : {A : Type ℓ} → Option A → Bool
is_some none = false
is_some (some a) = true

-- The refinements of `metadataOperationRecordSchema`.
pub valid_operation : Operation → Bool
valid_operation o =
    (o.patch.operation_id == o.operation_id)
    && ((o.patch.session_id == o.session_id)
        && (same_authority o.patch.expected_authority o.authority
            && ((if is_conflicted o.status then is_some o.conflicts else not (is_some o.conflicts))
                && valid_patch o.patch)))

-- What a patch comes to at the authority: its status, snapshot and conflicts.
abbrev pub committed_as : PatchResult → Status × (Snapshot × Option (List Conflict))
committed_as (accepted s) = (committed, (s, none))
committed_as (rejected s conflicts) = (conflicted, (s, some conflicts))

-- `#commitMetadataAtAuthority`.
pub commit_at_authority : Node → Patch → Session → ℕ → ℕ → ℕ → Node × Operation
commit_at_authority n patch s origin created_at now =
    let result = committed_as (apply_metadata_patch s.metadata patch) in
    let operation : Operation = record {
      operation_id = patch.operation_id;
      session_id = patch.session_id;
      patch = patch;
      status = result.0;
      canonical = result.1.0;
      optimistic = none;
      conflicts = result.1.1;
      origin_control_node_id = origin;
      authority = n.authority;
      created_at = created_at;
      updated_at = now;
    } in
    let updated = record s {
      metadata = result.1.0;
      metadata_authority = n.authority;
      updated_at = now;
    } in
    let put = put_operation operation n in
    (
      enqueue_delivery s patch.operation_id record put {
        sessions = insert patch.session_id updated n.sessions;
        changes =
            n.changes
            ++ metadata_changed patch.session_id result.1.0 ∷ metadata_operation operation ∷ [];
      },
      operation,
    )

-- The branch's side of `submitMetadataPatch`.
pub propose : Node → Patch → Session → ℕ → ℕ → Node × Operation
propose n patch s origin now =
    let operation : Operation = record {
      operation_id = patch.operation_id;
      session_id = patch.session_id;
      patch = patch;
      status = queued;
      canonical = s.metadata;
      optimistic = some (optimistic_metadata s.metadata patch);
      conflicts = none;
      origin_control_node_id = origin;
      authority = n.authority;
      created_at = now;
      updated_at = now;
    } in
    let put = put_operation operation n in
    (
      record put {
        outbox = n.outbox ++ patch.operation_id ∷ [];
        changes = n.changes ++ metadata_operation operation ∷ [];
      },
      operation,
    )

-- A branch takes a projected operation, or one that left the outbox, into its own journal.
pub adopt : Node → Operation → Node
adopt n existing =
    if n.is_branch
      && (is_queued existing.status
          && (contains existing.operation_id n.projected
              || not (contains existing.operation_id n.outbox)))
    then (let put = put_operation existing n in
        record put { outbox = add_once existing.operation_id n.outbox })
    else n

module _ (patch_json : Patch → ℕ) where
  abbrev pub same_patch : Patch → Patch → Bool
  same_patch left right = patch_json left == patch_json right

  -- `assertSameMetadataOperationIdentity`, as a test.
  pub same_identity : Operation → Operation → Bool
  same_identity current incoming =
      (current.session_id == incoming.session_id)
      && (same_patch current.patch incoming.patch
          && ((current.origin_control_node_id == incoming.origin_control_node_id)
              && same_authority current.authority incoming.authority))

  pub submit_new : Node → Patch → ℕ → ℕ → Result (Node × Operation)
  submit_new n patch origin now = elim (lookup patch.session_id n.sessions) [
    | none ↦ err not_found
    | some s ↦
        if n.is_branch
        then ok (propose n patch s origin now)
        else ok (commit_at_authority n patch s origin now now)
  ]

  pub submit_metadata_patch : Node → Patch → ℕ → ℕ → Result (Node × Operation)
  submit_metadata_patch n patch origin now =
      if not (valid_patch patch)
      then err invalid_input
      else if not (same_authority patch.expected_authority n.authority)
      then err fenced
      else elim (lookup patch.operation_id n.operations) [
        | none ↦ submit_new n patch origin now
        | some existing ↦
            if not (same_patch existing.patch patch)
              || not (existing.origin_control_node_id == origin)
            then err payload_mismatch
            else ok (adopt n existing, existing)
      ]

  pub commit_incoming : Node → Operation → ℕ → Result (Node × Operation)
  commit_incoming n incoming now = elim (lookup incoming.session_id n.sessions) [
    | none ↦ err not_found
    | some s ↦ ok (
        commit_at_authority n incoming.patch s incoming.origin_control_node_id incoming.created_at
          now)
  ]

  pub apply_at_authority : Node → Operation → ℕ → Result (Node × Operation)
  apply_at_authority n incoming now =
      if n.is_branch
      then err fenced
      else if not (valid_operation incoming)
      then err invalid_input
      else if not (same_authority incoming.authority n.authority)
      then err fenced
      else elim (lookup incoming.operation_id n.operations) [
        | none ↦ commit_incoming n incoming now
        | some existing ↦
            if not (same_identity existing incoming)
            then err payload_mismatch
            else if not (is_queued existing.status)
            then ok (n, existing)
            else commit_incoming n incoming now
      ]

-- The transaction of `settleMetadataOperation`.
pub settle_session : Node → Operation → Session → ℕ → Node
settle_session n o s now =
    let put = put_operation o n in
    let settled = record put { outbox = filter (λ id. not (id == o.operation_id)) n.outbox } in
    let advanced = record settled {
      sessions =
          insert o.session_id
            (record s {
              metadata = o.canonical;
              metadata_authority = o.authority;
              updated_at = now;
            })
            n.sessions;
      changes = n.changes ++ metadata_changed o.session_id o.canonical ∷ metadata_operation o ∷ [];
    } in
    let recorded = record settled { changes = n.changes ++ metadata_operation o ∷ [] } in
    enqueue_delivery s o.operation_id
      (if ltb s.metadata.revision o.canonical.revision then advanced else recorded)

module _ (snapshot_json : Snapshot → ℕ) where
  -- The checks that need the session; `is_known` tells that the operation is in the journal.
  pub settle_known : Node → Operation → Bool → Bool → ℕ → Result (Node × Operation)
  settle_known n o is_known authenticated_parent now = elim (lookup o.session_id n.sessions) [
    | none ↦ err not_found
    | some s ↦
        if not (same_authority s.metadata_authority o.authority)
        then err fenced
        else if not is_known && not (authenticated_parent && (n.is_branch && n.is_attached))
        then err fenced
        else if (o.canonical.revision == s.metadata.revision)
            && not (snapshot_json o.canonical == snapshot_json s.metadata)
        then err conflict
        else ok (settle_session n o s now, o)
  ]

  -- `#metadataImportedFromChild`.
  pub metadata_imported_from_child : Option Session → Snapshot → Result Snapshot
  metadata_imported_from_child none incoming = ok incoming
  metadata_imported_from_child (some current) incoming =
      if ltb incoming.revision current.metadata.revision
      then ok current.metadata
      else if not (incoming.revision == current.metadata.revision)
      then err fenced
      else if snapshot_json incoming == snapshot_json current.metadata
      then ok current.metadata
      else err conflict

module _ (patch_json : Patch → ℕ) (snapshot_json : Snapshot → ℕ)
    (operation_json : Operation → ℕ) where
  pub settle_metadata_operation : Node → Operation → Bool → ℕ → Result (Node × Operation)
  settle_metadata_operation n o authenticated_parent now =
      if not (valid_operation o)
      then err invalid_input
      else if is_queued o.status
      then err conflict
      else if not (same_authority o.authority n.authority)
      then err fenced
      else elim (lookup o.operation_id n.operations) [
        | none ↦ settle_known snapshot_json n o false authenticated_parent now
        | some current ↦
            if not (same_identity patch_json current o)
            then err payload_mismatch
            else if is_queued current.status
            then settle_known snapshot_json n o true authenticated_parent now
            else if operation_json current == operation_json o
            then ok (n, current)
            else err payload_mismatch
      ]
