-- ===== src/Catalog/Roles/Transitions.antt =====
-- The role of a control node changes only along its lifecycle.
use agent_multiplex.Base.{ℕ, ◌≡◌, ◌∙◌, refl, sym, subst, List, [], ◌∷◌, take, arith}
use agent_multiplex.Errors.{Result, ok}
use agent_multiplex.Records.Authority.{AuthorityRef}
use agent_multiplex.Catalog.Roles.{
  Lineage, Role, authority_role, attached, detached, Kind, force_detaches, Node, Attachment,
  Receipt, emit, set_role, rewrite_subtree_authority, mark_metadata_outcome_unknown,
  mark_all_unknown, apply_parent_attachment, kind_of, unresolved, apply_detachment_receipt,
  ForceDetachInput, unknown_limit, force_detach, PromoteInput, Fresh, promote,
}
use agent_multiplex.Catalog.Roles.Promotion.{promote_lem}

pub data Operation : Type 0 where
  attach : (attachment : Attachment) → Operation
  receive : (receipt : Receipt) → Operation
  force : (input : ForceDetachInput) → (transition_id now : ℕ) → Operation
  promotion : (input : PromoteInput) → (fresh : Fresh) → Operation

unfoldable pub run_operation : Node → Operation → Result Node
run_operation n (attach attachment) = apply_parent_attachment n attachment
run_operation n (receive receipt) = apply_detachment_receipt n receipt
run_operation n (force input transition_id now) = force_detach n input transition_id now
run_operation n (promotion input fresh) = promote n input fresh

-- The lifecycle: an authority or a detached branch is attached, an attached branch is detached and
-- keeps its authority and lineage, and a detached branch is promoted to an authority of its own.
pub data Lifecycle (node : ℕ) : Role → Role → Type 0 where
  stays : (role : Role) → Lifecycle node role role
  joins :
      (old new : AuthorityRef) (branch : Lineage)
      → Lifecycle node (authority_role old) (attached new branch)
  rejoins :
      (old new : AuthorityRef) (before branch : Lineage) (at : ℕ)
      → Lifecycle node (detached old before at) (attached new branch)
  leaves :
      (authority : AuthorityRef) (branch : Lineage) (at : ℕ)
      → Lifecycle node (attached authority branch) (detached authority branch at)
  rises :
      (old new : AuthorityRef) (branch : Lineage) (at : ℕ)
      → new.control_node_id ≡ node
      → Lifecycle node (detached old branch at) (authority_role new)

mark_unknown-role :
    (n : Node) (id : ℕ)
    → ((mark_metadata_outcome_unknown n id).role ≡ n.role)
      × ((mark_metadata_outcome_unknown n id).transitions ≡ n.transitions)
unfolding mark_metadata_outcome_unknown emit
mark_unknown-role n id = (ground arith, ground arith)

mark_all_unknown-role :
    (n : Node) (ids : List ℕ)
    → ((mark_all_unknown n ids).role ≡ n.role)
      × ((mark_all_unknown n ids).transitions ≡ n.transitions)
mark_all_unknown-role n [] = (refl, refl)
mark_all_unknown-role n (id ∷ ids) =
    let first = mark_unknown-role n id in
    let rest = mark_all_unknown-role (mark_metadata_outcome_unknown n id) ids in
    (rest.0 ∙ first.0, rest.1 ∙ first.1)

set_role-role :
    (n : Node) (id : ℕ) (kind : Kind) (after : Role) → (set_role n id kind after).role ≡ after
unfolding set_role
set_role-role n id kind after = refl

attach-Lifecycle :
    (n m : Node) (a : Attachment) (r : Role)
    → n.role ≡ r
    → apply_parent_attachment n a ≡ ok m
    → Lifecycle n.control_node_id r m.role
unfolding apply_parent_attachment set_role rewrite_subtree_authority emit
attach-Lifecycle n m a (authority_role old) is e =
    subst (λ x. Lifecycle n.control_node_id (authority_role old) x) (ground arith)
      (joins old a.authority a.branch)
attach-Lifecycle n m a (attached authority branch) is e =
    subst (λ x. Lifecycle n.control_node_id (attached authority branch) x) (ground arith)
      (stays (attached authority branch))
attach-Lifecycle n m a (detached old before at) is e =
    subst (λ x. Lifecycle n.control_node_id (detached old before at) x) (ground arith)
      (rejoins old a.authority before a.branch at)

receive-Lifecycle :
    (n m : Node) (r : Receipt) (o : Role)
    → n.role ≡ o
    → apply_detachment_receipt n r ≡ ok m
    → Lifecycle n.control_node_id o m.role
unfolding apply_detachment_receipt emit
receive-Lifecycle n m r (authority_role old) is e = ground arith
receive-Lifecycle n m r (detached old before at) is e = ground arith
receive-Lifecycle n m r (attached authority branch) is e =
    let after = detached authority branch r.detached_at in
    let start = set_role n r.transition_id (kind_of r.mode) after in
    subst (λ x. Lifecycle n.control_node_id (attached authority branch) x)
      (ground (
        arith,
        (mark_all_unknown-role start (unresolved r.mode)).0,
        set_role-role n r.transition_id (kind_of r.mode) after,
      ))
      (leaves authority branch r.detached_at)

force-Lifecycle :
    (n m : Node) (i : ForceDetachInput) (id now : ℕ) (o : Role)
    → n.role ≡ o
    → force_detach n i id now ≡ ok m
    → Lifecycle n.control_node_id o m.role
unfolding force_detach emit
force-Lifecycle n m i id now (authority_role old) is e = ground arith
force-Lifecycle n m i id now (detached old before at) is e = ground arith
force-Lifecycle n m i id now (attached authority branch) is e =
    let after = detached authority branch now in
    let start = set_role n id force_detaches after in
    subst (λ x. Lifecycle n.control_node_id (attached authority branch) x)
      (ground (
        arith,
        (mark_all_unknown-role start (take unknown_limit n.queued_operations)).0,
        set_role-role n id force_detaches after,
      ))
      (leaves authority branch now)

-- Each operation that succeeds moves the role by one step of the lifecycle, or leaves it.
pub run_operation-Lifecycle :
    (n m : Node) (op : Operation)
    → run_operation n op ≡ ok m
    → Lifecycle n.control_node_id n.role m.role
unfolding run_operation
run_operation-Lifecycle n m (attach a) e = attach-Lifecycle n m a n.role refl e
run_operation-Lifecycle n m (receive r) e = receive-Lifecycle n m r n.role refl e
run_operation-Lifecycle n m (force i id now) e = force-Lifecycle n m i id now n.role refl e
run_operation-Lifecycle n m (promotion i fresh) e =
    let p = promote_lem n m i fresh e in
    subst (λ o. Lifecycle n.control_node_id o m.role) (sym p.was)
      (subst (λ o. Lifecycle n.control_node_id (detached p.old p.branch p.at) o) (sym p.is)
        (rises p.old p.authority p.branch p.at p.owner))
