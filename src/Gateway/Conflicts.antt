-- ===== src/Gateway/Conflicts.antt =====
-- The conflicts that keep a source from being selected: `overlappingRecordConflict`,
-- `sharedDomainIdentityConflict`, and the loops of `#reselect` before the selection, in
-- packages/gateway-core/src/projection.ts. The reasons' texts are left out.
use agent_multiplex.Base.{
  ℕ, Bool, true, false, ◌&&◌, ◌||◌, not, Option, none, some, List, [], ◌∷◌, ◌++◌, map, filter, any,
  Table, lookup, insert, ◌==◌, if◌then◌else◌,
}
use agent_multiplex.Records.Authority.{AuthorityRef, same_authority}
use agent_multiplex.Gateway.{
  ControlNode, RuntimeNode, Session, Interaction, MetadataOperation, SourceSnapshot, Candidate,
}
use agent_multiplex.Gateway.Coverage.{Relation, disjoint, partial, includes, coverage_relation}

-- `indexBy`: of two records with one identity, the later one.
abbrev pub index_from {ℓ} : {A : Type ℓ} → (A → ℕ) → List A → Table A → Table A
index_from identity [] index = index
index_from identity (record_ ∷ records) index =
    index_from identity records (insert (identity record_) record_ index)

abbrev pub index_by {ℓ} : {A : Type ℓ} → (A → ℕ) → List A → Table A
index_by identity records = index_from identity records []

-- The test of two records of one identity.
abbrev pub clashes_with {ℓ} : {A : Type ℓ} → (A → A → Bool) → A → Option A → Bool
clashes_with test record_ none = false
clashes_with test record_ (some other) = test record_ other

-- Whether two snapshots have records of one identity that fail the test.
unfoldable pub overlapping {ℓ} : {A : Type ℓ} → (A → ℕ) → (A → A → Bool) → List A → List A → Bool
overlapping identity test left right =
    let others = index_by identity right in
    any (λ entry. clashes_with test entry.1 (lookup entry.0 others)) (index_by identity left)

abbrev pub role_conflict : ControlNode → ControlNode → Bool
role_conflict left right = not (left.data_role == right.data_role)

abbrev pub ownership_conflict : RuntimeNode → RuntimeNode → Bool
ownership_conflict left right = not (left.owner_control_node_id == right.owner_control_node_id)

abbrev pub session_conflict : Session → Session → Bool
session_conflict left right =
    not (left.session_binding == right.session_binding)
    || ((left.metadata_revision == right.metadata_revision)
        && not (left.metadata == right.metadata))

abbrev pub binding_conflict : Session → Session → Bool
binding_conflict left right = not (left.session_id == right.session_id)

abbrev pub interaction_conflict : Interaction → Interaction → Bool
interaction_conflict left right =
    not (left.immutable == right.immutable)
    || (not left.is_pending
        && (not right.is_pending && not (left.terminal_result == right.terminal_result)))

abbrev pub operation_conflict : MetadataOperation → MetadataOperation → Bool
operation_conflict left right =
    not (left.immutable == right.immutable)
    || (((left.canonical_revision == right.canonical_revision)
          && not (left.canonical == right.canonical))
        || (not left.is_queued && (not right.is_queued && not (left.content == right.content))))

unfoldable pub overlapping_record_conflict : SourceSnapshot → SourceSnapshot → Bool
overlapping_record_conflict left right =
    overlapping (λ r. r.control_node_id) role_conflict left.control_nodes right.control_nodes
    || (overlapping (λ r. r.runtime_node_id) ownership_conflict left.runtime_nodes
          right.runtime_nodes
        || (overlapping (λ r. r.session_id) session_conflict left.sessions right.sessions
            || (overlapping (λ r. r.native_binding) binding_conflict left.sessions right.sessions
                || (overlapping (λ r. r.interaction_id) interaction_conflict left.interactions
                      right.interactions
                    || overlapping (λ r. r.operation_id) operation_conflict left.metadata_operations
                        right.metadata_operations))))

-- `duplicate`: an identifier of both lists.
abbrev pub duplicate : List ℕ → List ℕ → Bool
duplicate left right = any (includes left) right

unfoldable pub shared_domain_identity_conflict : SourceSnapshot → SourceSnapshot → Bool
shared_domain_identity_conflict left right =
    duplicate (map (λ r. r.runtime_node_id) left.runtime_nodes)
      (map (λ r. r.runtime_node_id) right.runtime_nodes)
    || (duplicate (map (λ r. r.session_id) left.sessions) (map (λ r. r.session_id) right.sessions)
        || (duplicate (map (λ r. r.interaction_id) left.interactions)
              (map (λ r. r.interaction_id) right.interactions)
            || duplicate (map (λ r. r.operation_id) left.metadata_operations)
                (map (λ r. r.operation_id) right.metadata_operations)))

abbrev pub authority_of : Candidate → AuthorityRef
authority_of c = c.snapshot.manifest.authority

abbrev pub coverage_of : Candidate → List ℕ
coverage_of c = c.snapshot.manifest.covered_control_node_ids

abbrev pub realm_of : Candidate → ℕ
realm_of c = (authority_of c).realm_id

abbrev pub relation_of : Candidate → Candidate → Relation
relation_of left right = coverage_relation (coverage_of left) (coverage_of right)

abbrev pub is_disjoint : Relation → Bool
is_disjoint disjoint = true
is_disjoint _ = false

abbrev pub is_partial : Relation → Bool
is_partial partial = true
is_partial _ = false

-- Within one realm and one fence.
unfoldable pub realm_pair_conflict : Candidate → Candidate → Bool
realm_pair_conflict left right =
    if is_partial (relation_of left right)
    then true
    else not (is_disjoint (relation_of left right))
      && overlapping_record_conflict left.snapshot right.snapshot

-- Over all candidates.
unfoldable pub candidate_pair_conflict : Candidate → Candidate → Bool
candidate_pair_conflict left right =
    if is_disjoint (relation_of left right)
    then shared_domain_identity_conflict left.snapshot right.snapshot
    else not (realm_of left == realm_of right)

-- The loops over `leftIndex < rightIndex` that mark both sources of a pair that conflicts.
unfoldable pub conflicts_with : (Candidate → Candidate → Bool) → Candidate → List Candidate → List ℕ
conflicts_with conflict left [] = []
conflicts_with conflict left (right ∷ rest) =
    let others = conflicts_with conflict left rest in
    if conflict left right then left.source_id ∷ right.source_id ∷ others else others

unfoldable pub pair_conflicts : (Candidate → Candidate → Bool) → List Candidate → List ℕ
pair_conflicts conflict [] = []
pair_conflicts conflict (left ∷ rest) =
    conflicts_with conflict left rest ++ pair_conflicts conflict rest

-- `fences.size > 1`.
abbrev pub several_fences : List Candidate → Bool
several_fences [] = false
several_fences (first ∷ rest) =
    any (λ c. not (same_authority (authority_of first) (authority_of c))) rest

unfoldable pub realm_conflicts : List Candidate → List ℕ
realm_conflicts group =
    if several_fences group
    then map (λ c. c.source_id) group
    else pair_conflicts realm_pair_conflict group

-- The groups of `byRealm`, one for each realm that a candidate has.
unfoldable pub realm_groups_conflicts : List Candidate → List Candidate → List ℕ
realm_groups_conflicts candidates [] = []
realm_groups_conflicts candidates (c ∷ rest) =
    realm_conflicts (filter (λ other. realm_of other == realm_of c) candidates)
    ++ realm_groups_conflicts candidates rest

-- A candidate that does not fit what the unavailable source had shown.
unfoldable pub failover_conflict : SourceSnapshot → List ℕ → Candidate → Bool
failover_conflict reference conflicted candidate =
    let relation =
      coverage_relation reference.manifest.covered_control_node_ids (coverage_of candidate) in
    not (includes conflicted candidate.source_id)
    && (not (
          is_disjoint relation
          || not (same_authority reference.manifest.authority (authority_of candidate)))
        && (is_partial relation || overlapping_record_conflict reference candidate.snapshot))

unfoldable pub failover_conflicts : Option SourceSnapshot → List ℕ → List Candidate → List ℕ
failover_conflicts none conflicted candidates = []
failover_conflicts (some reference) conflicted candidates =
    map (λ c. c.source_id) (filter (failover_conflict reference conflicted) candidates)

-- The set `conflicted`.
unfoldable pub conflicted_sources : List Candidate → Option SourceSnapshot → List ℕ
conflicted_sources candidates reference =
    let marked =
      realm_groups_conflicts candidates candidates
      ++ pair_conflicts candidate_pair_conflict candidates in
    marked ++ failover_conflicts reference marked candidates
