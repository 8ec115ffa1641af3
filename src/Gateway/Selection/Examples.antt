-- ===== src/Gateway/Selection/Examples.antt =====
-- Tests: a source that covers another one, and a third of another realm.
use Prim.Native.Nat.{compare}
use agent_multiplex.Base.{ℕ, ◌≡◌, refl, ◌⊎◌, inl, inr, true, false, none, some, List, [], ◌∷◌, All}
use agent_multiplex.Records.Authority.{same_authority}
use agent_multiplex.Gateway.{
  Manifest, SourceSnapshot, SourceState, connecting, selected, suppressed, Source, Candidate,
}
use agent_multiplex.Gateway.Coverage.{includes, overlaps, is_superset, Distinct}
use agent_multiplex.Gateway.Conflicts.{authority_of, coverage_of, conflicted_sources}
use agent_multiplex.Gateway.Selection.{select_sources, reselect}
use agent_multiplex.Gateway.Selection.Sorted.{In}
use agent_multiplex.Gateway.Selection.Exclusive.{select_sources-exclusive, select_sources-covers}

abbrev snapshot_of : ℕ → ℕ → List ℕ → SourceSnapshot
snapshot_of realm node coverage = record {
  manifest = record {
    source_control_node_id = node;
    source_control_node_boot_id = 1;
    authority = record { realm_id = realm; control_node_id = 1; epoch_id = 1 };
    covered_control_node_ids = coverage;
    feed_id = 1;
    control_cursor = 0;
  };
  control_nodes = [];
  runtime_nodes = [];
  sessions = [];
  interactions = [];
  metadata_operations = [];
}

abbrev branch : Candidate
branch = record { source_id = 10; priority = 5; snapshot = snapshot_of 1 2 (2 ∷ 3 ∷ []) }

abbrev root : Candidate
root = record { source_id = 11; priority = 0; snapshot = snapshot_of 1 1 (1 ∷ 2 ∷ 3 ∷ []) }

abbrev elsewhere : Candidate
elsewhere = record { source_id = 12; priority = 0; snapshot = snapshot_of 2 9 (9 ∷ []) }

abbrev candidates : List Candidate
candidates = branch ∷ root ∷ elsewhere ∷ []

abbrev source_of : Candidate → Source
source_of c = record {
  source_id = c.source_id;
  priority = c.priority;
  enabled = true;
  snapshot = some c.snapshot;
  state = connecting;
  generation = 0;
}

select_sources-candidates : (select_sources compare candidates none).0 ≡ root ∷ elsewhere ∷ []
unfolding conflicted_sources select_sources reselect is_superset overlaps same_authority
    agent_multiplex.Gateway.Selection.eligible_of agent_multiplex.Gateway.Selection.sort_sources
    agent_multiplex.Gateway.Selection.insert_source
    agent_multiplex.Gateway.Selection.compare_sources agent_multiplex.Gateway.Selection.select_from
    agent_multiplex.Gateway.Selection.suppresses agent_multiplex.Gateway.Selection.await_selection
    agent_multiplex.Gateway.Selection.candidates_of agent_multiplex.Gateway.Selection.settle_source
    agent_multiplex.Gateway.Conflicts.overlapping_record_conflict
    agent_multiplex.Gateway.Conflicts.shared_domain_identity_conflict
    agent_multiplex.Gateway.Conflicts.realm_pair_conflict
    agent_multiplex.Gateway.Conflicts.candidate_pair_conflict
    agent_multiplex.Gateway.Conflicts.conflicts_with
    agent_multiplex.Gateway.Conflicts.pair_conflicts
    agent_multiplex.Gateway.Conflicts.realm_conflicts
    agent_multiplex.Gateway.Conflicts.realm_groups_conflicts
    agent_multiplex.Gateway.Conflicts.failover_conflicts
    agent_multiplex.Gateway.Conflicts.failover_conflict
    agent_multiplex.Gateway.Conflicts.overlapping agent_multiplex.Gateway.Coverage.coverage_relation
select_sources-candidates = refl

reselect-candidates :
    (reselect compare (source_of branch ∷ source_of root ∷ source_of elsewhere ∷ []) none).1
    ≡ 11 ∷ 12 ∷ []
unfolding conflicted_sources select_sources reselect is_superset overlaps same_authority
    agent_multiplex.Gateway.Selection.eligible_of agent_multiplex.Gateway.Selection.sort_sources
    agent_multiplex.Gateway.Selection.insert_source
    agent_multiplex.Gateway.Selection.compare_sources agent_multiplex.Gateway.Selection.select_from
    agent_multiplex.Gateway.Selection.suppresses agent_multiplex.Gateway.Selection.await_selection
    agent_multiplex.Gateway.Selection.candidates_of agent_multiplex.Gateway.Selection.settle_source
    agent_multiplex.Gateway.Conflicts.overlapping_record_conflict
    agent_multiplex.Gateway.Conflicts.shared_domain_identity_conflict
    agent_multiplex.Gateway.Conflicts.realm_pair_conflict
    agent_multiplex.Gateway.Conflicts.candidate_pair_conflict
    agent_multiplex.Gateway.Conflicts.conflicts_with
    agent_multiplex.Gateway.Conflicts.pair_conflicts
    agent_multiplex.Gateway.Conflicts.realm_conflicts
    agent_multiplex.Gateway.Conflicts.realm_groups_conflicts
    agent_multiplex.Gateway.Conflicts.failover_conflicts
    agent_multiplex.Gateway.Conflicts.failover_conflict
    agent_multiplex.Gateway.Conflicts.overlapping agent_multiplex.Gateway.Coverage.coverage_relation
reselect-candidates = refl

In-root : In root (select_sources compare candidates none).0
unfolding conflicted_sources select_sources reselect is_superset overlaps same_authority
    agent_multiplex.Gateway.Selection.eligible_of agent_multiplex.Gateway.Selection.sort_sources
    agent_multiplex.Gateway.Selection.insert_source
    agent_multiplex.Gateway.Selection.compare_sources agent_multiplex.Gateway.Selection.select_from
    agent_multiplex.Gateway.Selection.suppresses agent_multiplex.Gateway.Selection.await_selection
    agent_multiplex.Gateway.Selection.candidates_of agent_multiplex.Gateway.Selection.settle_source
    agent_multiplex.Gateway.Conflicts.overlapping_record_conflict
    agent_multiplex.Gateway.Conflicts.shared_domain_identity_conflict
    agent_multiplex.Gateway.Conflicts.realm_pair_conflict
    agent_multiplex.Gateway.Conflicts.candidate_pair_conflict
    agent_multiplex.Gateway.Conflicts.conflicts_with
    agent_multiplex.Gateway.Conflicts.pair_conflicts
    agent_multiplex.Gateway.Conflicts.realm_conflicts
    agent_multiplex.Gateway.Conflicts.realm_groups_conflicts
    agent_multiplex.Gateway.Conflicts.failover_conflicts
    agent_multiplex.Gateway.Conflicts.failover_conflict
    agent_multiplex.Gateway.Conflicts.overlapping agent_multiplex.Gateway.Coverage.coverage_relation
In-root = inl refl

In-elsewhere : In elsewhere (select_sources compare candidates none).0
unfolding conflicted_sources select_sources reselect is_superset overlaps same_authority
    agent_multiplex.Gateway.Selection.eligible_of agent_multiplex.Gateway.Selection.sort_sources
    agent_multiplex.Gateway.Selection.insert_source
    agent_multiplex.Gateway.Selection.compare_sources agent_multiplex.Gateway.Selection.select_from
    agent_multiplex.Gateway.Selection.suppresses agent_multiplex.Gateway.Selection.await_selection
    agent_multiplex.Gateway.Selection.candidates_of agent_multiplex.Gateway.Selection.settle_source
    agent_multiplex.Gateway.Conflicts.overlapping_record_conflict
    agent_multiplex.Gateway.Conflicts.shared_domain_identity_conflict
    agent_multiplex.Gateway.Conflicts.realm_pair_conflict
    agent_multiplex.Gateway.Conflicts.candidate_pair_conflict
    agent_multiplex.Gateway.Conflicts.conflicts_with
    agent_multiplex.Gateway.Conflicts.pair_conflicts
    agent_multiplex.Gateway.Conflicts.realm_conflicts
    agent_multiplex.Gateway.Conflicts.realm_groups_conflicts
    agent_multiplex.Gateway.Conflicts.failover_conflicts
    agent_multiplex.Gateway.Conflicts.failover_conflict
    agent_multiplex.Gateway.Conflicts.overlapping agent_multiplex.Gateway.Coverage.coverage_relation
In-elsewhere = inr (inl refl)

branch-free : includes (conflicted_sources candidates none) 10 ≡ false
unfolding conflicted_sources select_sources reselect is_superset overlaps same_authority
    agent_multiplex.Gateway.Selection.eligible_of agent_multiplex.Gateway.Selection.sort_sources
    agent_multiplex.Gateway.Selection.insert_source
    agent_multiplex.Gateway.Selection.compare_sources agent_multiplex.Gateway.Selection.select_from
    agent_multiplex.Gateway.Selection.suppresses agent_multiplex.Gateway.Selection.await_selection
    agent_multiplex.Gateway.Selection.candidates_of agent_multiplex.Gateway.Selection.settle_source
    agent_multiplex.Gateway.Conflicts.overlapping_record_conflict
    agent_multiplex.Gateway.Conflicts.shared_domain_identity_conflict
    agent_multiplex.Gateway.Conflicts.realm_pair_conflict
    agent_multiplex.Gateway.Conflicts.candidate_pair_conflict
    agent_multiplex.Gateway.Conflicts.conflicts_with
    agent_multiplex.Gateway.Conflicts.pair_conflicts
    agent_multiplex.Gateway.Conflicts.realm_conflicts
    agent_multiplex.Gateway.Conflicts.realm_groups_conflicts
    agent_multiplex.Gateway.Conflicts.failover_conflicts
    agent_multiplex.Gateway.Conflicts.failover_conflict
    agent_multiplex.Gateway.Conflicts.overlapping agent_multiplex.Gateway.Coverage.coverage_relation
branch-free = refl

distinct : All (λ (c : Candidate). Distinct (coverage_of c)) candidates
distinct = ((refl, (refl, tt)), ((refl, (refl, (refl, tt))), ((refl, tt), tt)))

select_sources-exclusive_example : overlaps (coverage_of root) (coverage_of elsewhere) ≡ false
select_sources-exclusive_example =
    select_sources-exclusive compare candidates none distinct root elsewhere In-root In-elsewhere
      refl

select_sources-covers_example :
    In branch (select_sources compare candidates none).0
    ⊎ ((s : Candidate) × (In s (select_sources compare candidates none).0
          × ((same_authority (authority_of s) (authority_of branch) ≡ true)
              × (is_superset (coverage_of s) (coverage_of branch) ≡ true))))
select_sources-covers_example =
    select_sources-covers compare candidates none branch (inl refl) branch-free
