-- ===== src/Catalog/Roles.antt =====
-- The data role of a control node in packages/control-node-core/src/catalog.ts: attachment to a
-- parent, detachment and promotion to an authority. A call that throws leaves the node as it was.
-- Fresh identifiers and clock readings are arguments; peer enrollment and the topology descriptors
-- are left out.
mod Examples
pub mod Promotion
pub mod Transitions
use agent_multiplex.Base.{
  ℕ, Bool, true, false, ◌&&◌, ◌||◌, not, Option, none, some, List, [], ◌∷◌, ◌++◌, map, any, filter,
  take, ◌==◌, if◌then◌else◌,
}
use agent_multiplex.Errors.{Result, ok, err, conflict, fenced, ◌>>=◌, ◌>>◌, require}
use agent_multiplex.Records.Authority.{AuthorityRef, same_authority}
use agent_multiplex.Catalog.Feed.{Feed, append_control, rotate_control_feed}

-- `AttachedBranch` and `DetachedBranch` share these members.
pub record Lineage : Type 0 where
  pub parent_control_node_id : ℕ
  pub attachment_id : ℕ
  pub lineage_id : ℕ
  pub attached_at : ℕ

-- `ControlNodeDataRole`.
pub data Role : Type 0 where
  authority_role : (authority : AuthorityRef) → Role
  attached : (authority : AuthorityRef) → (branch : Lineage) → Role
  detached : (authority : AuthorityRef) → (branch : Lineage) → (detached_at : ℕ) → Role

abbrev pub authority_of : Role → AuthorityRef
authority_of (authority_role authority) = authority
authority_of (attached authority branch) = authority
authority_of (detached authority branch detached_at) = authority

pub same_lineage : Lineage → Lineage → Bool
same_lineage l r =
    l.parent_control_node_id == r.parent_control_node_id
    && (l.attachment_id == r.attachment_id
        && (l.lineage_id == r.lineage_id && l.attached_at == r.attached_at))

-- Equality of the canonical JSON of two roles.
pub same_role : Role → Role → Bool
same_role (authority_role a) (authority_role b) = same_authority a b
same_role (attached a l) (attached b r) = same_authority a b && same_lineage l r
same_role (detached a l s) (detached b r t) = same_authority a b && (same_lineage l r && s == t)
same_role _ _ = false

pub data Kind : Type 0 where
  attaches : Kind
  detaches : Kind
  force_detaches : Kind
  promotes : Kind

pub record Transition : Type 0 where
  pub transition_id : ℕ
  pub kind : Kind
  pub before : Role
  pub after : Role

-- The control changes that these calls append.
pub data Change : Type 0 where
  upserts : (role : Role) → Change
  reports_detached : (transition_id : ℕ) → Change
  reports_promoted : (transition_id : ℕ) → Change
  marks_unknown : (operation_id : ℕ) → Change

pub record Node : Type 0 where
  pub control_node_id : ℕ
  pub role : Role
  pub transitions : List Transition
  pub covered : List ℕ
  pub session_authorities : List (ℕ × AuthorityRef)
  pub queued_operations : List ℕ
  pub unknown_operations : List ℕ
  pub desired_upstream : Option ℕ
  pub feed : Feed Change

pub record Attachment : Type 0 where
  pub child_control_node_id : ℕ
  pub authority : AuthorityRef
  pub branch : Lineage

pub data Mode : Type 0 where
  graceful : Mode
  forced : (unresolved_metadata_operation_ids : List ℕ) → Mode

pub record Receipt : Type 0 where
  pub transition_id : ℕ
  pub mode : Mode
  pub child_control_node_id : ℕ
  pub former_parent_control_node_id : ℕ
  pub attachment_id : ℕ
  pub lineage_id : ℕ
  pub previous_authority : AuthorityRef
  pub detached_at : ℕ

abbrev pub member : ℕ → List ℕ → Bool
member x = any (λ y. y == x)

pub emit : Node → Change → Node
emit n change = record n { feed = append_control n.feed change }

-- `#setRole` and `#appendRoleTransition`.
pub set_role : Node → ℕ → Kind → Role → Node
set_role n transition_id kind after = record n {
  role = after;
  transitions =
      n.transitions
      ++ record { transition_id = transition_id; kind = kind; before = n.role; after = after } ∷ [];
}

pub rewrite_subtree_authority : Node → AuthorityRef → Node
rewrite_subtree_authority n authority = record n {
  session_authorities = map (λ (s : ℕ × AuthorityRef). (s.0, authority)) n.session_authorities;
}

pub mark_metadata_outcome_unknown : Node → ℕ → Node
mark_metadata_outcome_unknown n operation_id =
    if member operation_id n.queued_operations
    then emit
        record n {
          queued_operations = filter (λ id. not (id == operation_id)) n.queued_operations;
          unknown_operations = n.unknown_operations ++ operation_id ∷ [];
        }
        (marks_unknown operation_id)
    else n

abbrev pub mark_all_unknown : Node → List ℕ → Node
mark_all_unknown n [] = n
mark_all_unknown n (id ∷ ids) = mark_all_unknown (mark_metadata_outcome_unknown n id) ids

pub apply_parent_attachment : Node → Attachment → Result Node
apply_parent_attachment n a = do
  require (a.child_control_node_id == n.control_node_id) fenced
  require (not (member a.branch.parent_control_node_id n.covered)) conflict
  require (not (member a.authority.control_node_id n.covered)) conflict
  let after = attached a.authority a.branch
  let changed =
      emit
        (rewrite_subtree_authority (set_role n a.branch.attachment_id attaches after) a.authority)
        (upserts after)
  elim n.role [
    | attached authority branch ↦ if same_role n.role after then ok n else err fenced
    | authority_role authority ↦ ok changed
    | detached authority branch detached_at ↦ ok changed
  ]

abbrev pub receipt_matches : Receipt → AuthorityRef → Lineage → Bool
receipt_matches r authority branch =
    branch.parent_control_node_id == r.former_parent_control_node_id
    && (branch.attachment_id == r.attachment_id
        && (branch.lineage_id == r.lineage_id && same_authority authority r.previous_authority))

abbrev pub kind_of : Mode → Kind
kind_of graceful = detaches
kind_of (forced ids) = force_detaches

abbrev pub unresolved : Mode → List ℕ
unresolved graceful = []
unresolved (forced ids) = ids

pub apply_detachment_receipt : Node → Receipt → Result Node
apply_detachment_receipt n r = do
  require (r.child_control_node_id == n.control_node_id) fenced
  elim n.role [
    | authority_role authority ↦ err fenced
    | detached authority branch detached_at ↦ err fenced
    | attached authority branch ↦
        let after = detached authority branch r.detached_at in
        let marked =
          mark_all_unknown (set_role n r.transition_id (kind_of r.mode) after)
            (unresolved r.mode) in
        if receipt_matches r authority branch
        then ok (
            emit
              (emit (record marked { desired_upstream = none }) (reports_detached r.transition_id))
              (upserts after))
        else err fenced
  ]

pub record ForceDetachInput : Type 0 where
  pub control_node_id : ℕ
  pub expected_authority : AuthorityRef
  pub attachment_id : ℕ
  pub lineage_id : ℕ

-- The `limit` of the query for queued operations.
abbrev pub unknown_limit : ℕ
unknown_limit = 10000

pub force_detach : Node → ForceDetachInput → ℕ → ℕ → Result Node
force_detach n input transition_id now = do
  require (input.control_node_id == n.control_node_id) fenced
  require (same_authority input.expected_authority (authority_of n.role)) fenced
  elim n.role [
    | authority_role authority ↦ err fenced
    | detached authority branch detached_at ↦ err fenced
    | attached authority branch ↦
        let after = detached authority branch now in
        let marked =
          mark_all_unknown (set_role n transition_id force_detaches after)
            (take unknown_limit n.queued_operations) in
        if branch.attachment_id == input.attachment_id && branch.lineage_id == input.lineage_id
        then ok (emit (record marked { desired_upstream = none }) (reports_detached transition_id))
        else err fenced
  ]

pub record PromoteInput : Type 0 where
  pub control_node_id : ℕ
  pub expected_authority : AuthorityRef
  pub detachment_transition_id : ℕ
  -- `forcedDetachmentAudit !== undefined`
  pub has_forced_detachment_audit : Bool

-- The identifiers that `promote` draws within its transaction.
pub record Fresh : Type 0 where
  pub realm_id : ℕ
  pub epoch_id : ℕ
  pub feed_id : ℕ
  pub transition_id : ℕ

abbrev pub find_transition : ℕ → List Transition → Option Transition
find_transition id [] = none
find_transition id (t ∷ ts) = if t.transition_id == id then some t else find_transition id ts

-- The checks of `promote` on the transition that it names.
abbrev pub check_detachment : Transition → Role → Bool → Result (Unit {0})
check_detachment t before audited = elim t.kind [
  | attaches ↦ err fenced
  | promotes ↦ err fenced
  | detaches ↦ require (same_role t.after before) fenced
  | force_detaches ↦ require (same_role t.after before) fenced >> require audited fenced
]

-- The transaction of `promote`.
pub take_authority : Node → Fresh → Node
take_authority n fresh =
    let authority : AuthorityRef = record {
      realm_id = fresh.realm_id;
      control_node_id = n.control_node_id;
      epoch_id = fresh.epoch_id;
    } in
    let after = authority_role authority in
    let rotated = record n { feed = rotate_control_feed n.feed fresh.feed_id } in
    let promoted =
      rewrite_subtree_authority (set_role rotated fresh.transition_id promotes after) authority in
    emit (emit (record promoted { desired_upstream = none }) (reports_promoted fresh.transition_id))
      (upserts after)

pub promote : Node → PromoteInput → Fresh → Result Node
promote n input fresh = do
  require (input.control_node_id == n.control_node_id) fenced
  require (same_authority input.expected_authority (authority_of n.role)) fenced
  elim n.role [
    | authority_role authority ↦ err fenced
    | attached authority branch ↦ err fenced
    | detached authority branch detached_at ↦
        elim (find_transition input.detachment_transition_id n.transitions) [
          | none ↦ err fenced
          | some t ↦
              check_detachment t n.role input.has_forced_detachment_audit
              >> ok (take_authority n fresh)
        ]
  ]
