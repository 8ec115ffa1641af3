-- ===== src/Metadata/Operations/Examples.antt =====
-- Tests: a branch proposes a patch, the authority commits it, and the branch settles it.
use agent_multiplex.Base.{ℕ, ◌≡◌, refl, Bool, true, false, none, some, [], ◌∷◌, lookup, arith}
use agent_multiplex.Errors.{Result, ok}
use agent_multiplex.Records.Authority.{AuthorityRef}
use agent_multiplex.Metadata.{Snapshot, Patch}
use agent_multiplex.Metadata.Operations.{
  Operation, Status, queued, committed, Session, Node, submit_metadata_patch, apply_at_authority,
  settle_metadata_operation,
}
use agent_multiplex.Metadata.Operations.Retry.{submit_all, submit_metadata_patch_again}
use agent_multiplex.Metadata.Operations.Stored.{Keyed}
use agent_multiplex.Metadata.Operations.Advance.{Later}
use agent_multiplex.Metadata.Operations.Monotone.{submit, settle, run, run-Later}
use agent_multiplex.Metadata.Operations.Settlement.{Converged, settle-apply_converges}

abbrev realm : AuthorityRef
realm = record { realm_id = 1; control_node_id = 1; epoch_id = 1 }

abbrev before : Snapshot
before = record { revision = 3; values = (1, 7) ∷ []; key_revisions = (1, 3) ∷ [] }

abbrev after : Snapshot
after = record { revision = 4; values = (1, 8) ∷ []; key_revisions = (1, 4) ∷ [] }

abbrev patch : Patch
patch = record {
  operation_id = 50;
  session_id = 30;
  expected_authority = realm;
  set = some ((1, 8) ∷ []);
  remove = none;
  if_key_revision = some ((1, some 3) ∷ []);
}

abbrev session_with : Snapshot → ℕ → Session
session_with metadata at = record {
  metadata = metadata;
  metadata_authority = realm;
  runtime_node_id = 20;
  is_open = true;
  updated_at = at;
}

abbrev node : Bool → Node
node is_branch = record {
  is_branch = is_branch;
  is_attached = is_branch;
  authority = realm;
  sessions = (30, session_with before 0) ∷ [];
  operations = [];
  projected = [];
  outbox = [];
  intents = [];
  changes = [];
}

abbrev proposal : Operation
proposal = record {
  operation_id = 50;
  session_id = 30;
  patch = patch;
  status = queued;
  canonical = before;
  optimistic = some record { revision = 3; values = (1, 8) ∷ []; key_revisions = (1, 3) ∷ [] };
  conflicts = none;
  origin_control_node_id = 2;
  authority = realm;
  created_at = 10;
  updated_at = 10;
}

abbrev receipt : Operation
receipt = record proposal {
  status = committed;
  canonical = after;
  optimistic = none;
  updated_at = 11;
}

-- Texts that tell the records of these tests apart.
abbrev patch_text : Patch → ℕ
patch_text p = p.operation_id

abbrev snapshot_text : Snapshot → ℕ
snapshot_text s = s.revision

abbrev operation_text : Operation → ℕ
operation_text o = o.updated_at

abbrev result_or {ℓ} : {A : Type ℓ} → A → Result A → A
result_or default (ok a) = a
result_or default _ = default

abbrev proposed : Node × Operation
proposed = result_or (node true, proposal) (submit_metadata_patch patch_text (node true) patch 2 10)

abbrev committed_node : Node × Operation
committed_node =
    result_or (node false, proposal) (apply_at_authority patch_text (node false) proposal 11)

abbrev settled_node : Node × Operation
settled_node =
    result_or (node true, proposal)
      (settle_metadata_operation patch_text snapshot_text operation_text proposed.0 receipt false
        12)

proposed-ok : submit_metadata_patch patch_text (node true) patch 2 10 ≡ ok (proposed.0, proposal)
unfolding submit_metadata_patch apply_at_authority settle_metadata_operation
    agent_multiplex.Metadata.Operations.submit_new agent_multiplex.Metadata.Operations.propose
    agent_multiplex.Metadata.Operations.put_operation agent_multiplex.Metadata.Operations.adopt
    agent_multiplex.Metadata.Operations.enqueue_delivery
    agent_multiplex.Metadata.Operations.commit_at_authority
    agent_multiplex.Metadata.Operations.commit_incoming
    agent_multiplex.Metadata.Operations.settle_known
    agent_multiplex.Metadata.Operations.settle_session
    agent_multiplex.Metadata.Operations.same_identity
    agent_multiplex.Metadata.Operations.valid_operation agent_multiplex.Metadata.valid_patch
    agent_multiplex.Metadata.optimistic_metadata agent_multiplex.Metadata.apply_metadata_patch
    agent_multiplex.Metadata.decide_patch agent_multiplex.Metadata.find_conflicts
    agent_multiplex.Metadata.next_snapshot agent_multiplex.Records.Authority.same_authority
proposed-ok = refl

committed-ok :
    apply_at_authority patch_text (node false) proposal 11 ≡ ok (committed_node.0, receipt)
unfolding submit_metadata_patch apply_at_authority settle_metadata_operation
    agent_multiplex.Metadata.Operations.submit_new agent_multiplex.Metadata.Operations.propose
    agent_multiplex.Metadata.Operations.put_operation agent_multiplex.Metadata.Operations.adopt
    agent_multiplex.Metadata.Operations.enqueue_delivery
    agent_multiplex.Metadata.Operations.commit_at_authority
    agent_multiplex.Metadata.Operations.commit_incoming
    agent_multiplex.Metadata.Operations.settle_known
    agent_multiplex.Metadata.Operations.settle_session
    agent_multiplex.Metadata.Operations.same_identity
    agent_multiplex.Metadata.Operations.valid_operation agent_multiplex.Metadata.valid_patch
    agent_multiplex.Metadata.optimistic_metadata agent_multiplex.Metadata.apply_metadata_patch
    agent_multiplex.Metadata.decide_patch agent_multiplex.Metadata.find_conflicts
    agent_multiplex.Metadata.next_snapshot agent_multiplex.Records.Authority.same_authority
committed-ok = refl

proposed-found : lookup 50 proposed.0.operations ≡ some proposal
unfolding submit_metadata_patch apply_at_authority settle_metadata_operation
    agent_multiplex.Metadata.Operations.submit_new agent_multiplex.Metadata.Operations.propose
    agent_multiplex.Metadata.Operations.put_operation agent_multiplex.Metadata.Operations.adopt
    agent_multiplex.Metadata.Operations.enqueue_delivery
    agent_multiplex.Metadata.Operations.commit_at_authority
    agent_multiplex.Metadata.Operations.commit_incoming
    agent_multiplex.Metadata.Operations.settle_known
    agent_multiplex.Metadata.Operations.settle_session
    agent_multiplex.Metadata.Operations.same_identity
    agent_multiplex.Metadata.Operations.valid_operation agent_multiplex.Metadata.valid_patch
    agent_multiplex.Metadata.optimistic_metadata agent_multiplex.Metadata.apply_metadata_patch
    agent_multiplex.Metadata.decide_patch agent_multiplex.Metadata.find_conflicts
    agent_multiplex.Metadata.next_snapshot agent_multiplex.Records.Authority.same_authority
proposed-found = refl

proposed-session : lookup 30 proposed.0.sessions ≡ some (session_with before 0)
unfolding submit_metadata_patch apply_at_authority settle_metadata_operation
    agent_multiplex.Metadata.Operations.submit_new agent_multiplex.Metadata.Operations.propose
    agent_multiplex.Metadata.Operations.put_operation agent_multiplex.Metadata.Operations.adopt
    agent_multiplex.Metadata.Operations.enqueue_delivery
    agent_multiplex.Metadata.Operations.commit_at_authority
    agent_multiplex.Metadata.Operations.commit_incoming
    agent_multiplex.Metadata.Operations.settle_known
    agent_multiplex.Metadata.Operations.settle_session
    agent_multiplex.Metadata.Operations.same_identity
    agent_multiplex.Metadata.Operations.valid_operation agent_multiplex.Metadata.valid_patch
    agent_multiplex.Metadata.optimistic_metadata agent_multiplex.Metadata.apply_metadata_patch
    agent_multiplex.Metadata.decide_patch agent_multiplex.Metadata.find_conflicts
    agent_multiplex.Metadata.next_snapshot agent_multiplex.Records.Authority.same_authority
proposed-session = refl

settled-ok :
    settle_metadata_operation patch_text snapshot_text operation_text proposed.0 receipt false 12
    ≡ ok (settled_node.0, receipt)
unfolding submit_metadata_patch apply_at_authority settle_metadata_operation
    agent_multiplex.Metadata.Operations.submit_new agent_multiplex.Metadata.Operations.propose
    agent_multiplex.Metadata.Operations.put_operation agent_multiplex.Metadata.Operations.adopt
    agent_multiplex.Metadata.Operations.enqueue_delivery
    agent_multiplex.Metadata.Operations.commit_at_authority
    agent_multiplex.Metadata.Operations.commit_incoming
    agent_multiplex.Metadata.Operations.settle_known
    agent_multiplex.Metadata.Operations.settle_session
    agent_multiplex.Metadata.Operations.same_identity
    agent_multiplex.Metadata.Operations.valid_operation agent_multiplex.Metadata.valid_patch
    agent_multiplex.Metadata.optimistic_metadata agent_multiplex.Metadata.apply_metadata_patch
    agent_multiplex.Metadata.decide_patch agent_multiplex.Metadata.find_conflicts
    agent_multiplex.Metadata.next_snapshot agent_multiplex.Records.Authority.same_authority
settled-ok = refl

settled-session : lookup 30 settled_node.0.sessions ≡ some (session_with after 12)
unfolding submit_metadata_patch apply_at_authority settle_metadata_operation
    agent_multiplex.Metadata.Operations.submit_new agent_multiplex.Metadata.Operations.propose
    agent_multiplex.Metadata.Operations.put_operation agent_multiplex.Metadata.Operations.adopt
    agent_multiplex.Metadata.Operations.enqueue_delivery
    agent_multiplex.Metadata.Operations.commit_at_authority
    agent_multiplex.Metadata.Operations.commit_incoming
    agent_multiplex.Metadata.Operations.settle_known
    agent_multiplex.Metadata.Operations.settle_session
    agent_multiplex.Metadata.Operations.same_identity
    agent_multiplex.Metadata.Operations.valid_operation agent_multiplex.Metadata.valid_patch
    agent_multiplex.Metadata.optimistic_metadata agent_multiplex.Metadata.apply_metadata_patch
    agent_multiplex.Metadata.decide_patch agent_multiplex.Metadata.find_conflicts
    agent_multiplex.Metadata.next_snapshot agent_multiplex.Records.Authority.same_authority
settled-session = refl

node-Keyed : Keyed (node true)
node-Keyed id stored e = absurd (ground (arith, e))

-- A patch of another operation identifier, for the same session.
abbrev other_patch : Patch
other_patch = record patch { operation_id = 51 }

submit_metadata_patch_again_example :
    submit_metadata_patch patch_text
      (submit_all patch_text proposed.0 ((other_patch, 2, 20) ∷ []))
      patch
      2
      99
    ≡ ok (submit_all patch_text proposed.0 ((other_patch, 2, 20) ∷ []), proposal)
submit_metadata_patch_again_example =
    submit_metadata_patch_again patch_text (node true) proposed.0 patch 2 10 99 proposal
      ((other_patch, 2, 20) ∷ []) node-Keyed proposed-ok (refl, tt)

run-Later_example : Later 30 (session_with before 0) (
    run patch_text snapshot_text operation_text
      (node true)
      (submit patch 2 10 ∷ settle receipt false 12 ∷ []))
run-Later_example =
    run-Later patch_text snapshot_text operation_text (node true)
      (submit patch 2 10 ∷ settle receipt false 12 ∷ []) 30 (session_with before 0) refl

settle-apply_converges_example : Converged settled_node.0 committed_node.0 30 50
settle-apply_converges_example =
    settle-apply_converges patch_text snapshot_text operation_text (node false) committed_node.0
      proposed.0 settled_node.0 proposal receipt proposal receipt (session_with before 0) false 11
      12 refl committed-ok proposed-found refl proposed-session (omega arith) settled-ok
