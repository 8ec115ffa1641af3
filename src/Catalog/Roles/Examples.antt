-- ===== src/Catalog/Roles/Examples.antt =====
-- Tests: a branch that is detached by force, and then promoted.
use agent_multiplex.Base.{◌≡◌, refl, true, none, [], ◌∷◌}
use agent_multiplex.Errors.{ok}
use agent_multiplex.Records.Authority.{AuthorityRef}
use agent_multiplex.Catalog.Roles.{
  Lineage, Role, attached, detached, force_detaches, Node, ForceDetachInput, force_detach,
  PromoteInput, Fresh, take_authority, promote, set_role,
}
use agent_multiplex.Catalog.Roles.Promotion.{Promoted, promote_lem}
use agent_multiplex.Catalog.Roles.Transitions.{
  promotion, run_operation, Lifecycle, run_operation-Lifecycle,
}

abbrev upstream : AuthorityRef
upstream = record { realm_id = 1; control_node_id = 2; epoch_id = 3 }

abbrev lineage : Lineage
lineage = record {
  parent_control_node_id = 2;
  attachment_id = 8;
  lineage_id = 9;
  attached_at = 100;
}

abbrev away : Role
away = detached upstream lineage 200

abbrev branch_node : Node
branch_node = record {
  control_node_id = 5;
  role = away;
  transitions =
      record {
        transition_id = 77;
        kind = force_detaches;
        before = attached upstream lineage;
        after = away;
      }
      ∷ [];
  covered = 5 ∷ [];
  session_authorities = (40, upstream) ∷ [];
  queued_operations = [];
  unknown_operations = 60 ∷ [];
  desired_upstream = none;
  feed = record {
    feed_id = 4;
    events = [];
    last_cursor = 12;
    minimum_cursor = 12;
    published_cursor = 12;
  };
}

abbrev request : PromoteInput
request = record {
  control_node_id = 5;
  expected_authority = upstream;
  detachment_transition_id = 77;
  has_forced_detachment_audit = true;
}

abbrev fresh_ids : Fresh
fresh_ids = record { realm_id = 11; epoch_id = 12; feed_id = 13; transition_id = 14 }

promotes_branch : promote branch_node request fresh_ids ≡ ok (take_authority branch_node fresh_ids)
unfolding promote agent_multiplex.Records.Authority.same_authority
    agent_multiplex.Catalog.Roles.same_role agent_multiplex.Catalog.Roles.same_lineage
promotes_branch = refl

promotion_runs :
    run_operation branch_node (promotion request fresh_ids)
    ≡ ok (take_authority branch_node fresh_ids)
unfolding run_operation promote agent_multiplex.Records.Authority.same_authority
    agent_multiplex.Catalog.Roles.same_role agent_multiplex.Catalog.Roles.same_lineage
promotion_runs = refl

promote_lem_example : Promoted branch_node request fresh_ids (take_authority branch_node fresh_ids)
promote_lem_example =
    promote_lem branch_node (take_authority branch_node fresh_ids) request fresh_ids promotes_branch

run_operation-Lifecycle_example : Lifecycle 5 away (take_authority branch_node fresh_ids).role
run_operation-Lifecycle_example =
    run_operation-Lifecycle branch_node (take_authority branch_node fresh_ids)
      (promotion request fresh_ids) promotion_runs
