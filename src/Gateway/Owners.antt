-- ===== src/Gateway/Owners.antt =====
-- `#claim` and `#rebuildOwners` of packages/gateway-core/src/projection.ts. A claim that throws leaves
-- the tables as far as they have been built.
use agent_multiplex.Base.{
  ℕ, Bool, true, false, ◌||◌, not, map, Option, none, some, List, [], ◌∷◌, Table, lookup, insert,
  same_option, ◌==◌, if◌then◌else◌,
}
use agent_multiplex.Gateway.{RuntimeNode, Session, Interaction, SourceSnapshot}

pub record Owners : Type 0 where
  pub control_nodes : Table ℕ
  pub runtime_nodes : Table ℕ
  pub sessions : Table ℕ
  pub interactions : Table ℕ

-- `#claim` with its test: another source has the key.
abbrev pub is_claimed_by_other : Option ℕ → ℕ → Bool
is_claimed_by_other none source_id = false
is_claimed_by_other (some existing) source_id = not (existing == source_id)

-- Whether the parent of a record, if it has to have one, is of the source.
abbrev pub has_parent : ℕ → Option ℕ → Table ℕ → Bool
has_parent source_id none parents = true
has_parent source_id (some id) parents = same_option (lookup id parents) (some source_id)

-- The loop over the records of a source, by their keys and parents: an owner for each key.
unfoldable pub claim_records : ℕ → Table ℕ → List (ℕ × Option ℕ) → Table ℕ → Table ℕ × Bool
claim_records source_id parents [] table = (table, true)
claim_records source_id parents ((key, parent) ∷ rest) table =
    let later = claim_records source_id parents rest (insert key source_id table) in
    if not (has_parent source_id parent parents) || is_claimed_by_other (lookup key table) source_id
    then (table, false)
    else later

-- One round of `#rebuildOwners`.
unfoldable pub claim_interactions : ℕ → List Interaction → Owners → Owners × Bool
claim_interactions source_id records o =
    let done =
      claim_records source_id o.sessions
        (map (λ (r : Interaction). (r.interaction_id, some r.session_id)) records) o.interactions in
    (record o { interactions = done.0 }, done.1)

unfoldable pub claim_sessions : ℕ → List Session → Owners → Owners × Bool
claim_sessions source_id records o =
    let done =
      claim_records source_id o.runtime_nodes
        (map (λ (r : Session). (r.session_id, some r.runtime_node_id)) records) o.sessions in
    (record o { sessions = done.0 }, done.1)

unfoldable pub claim_runtime_nodes : ℕ → List RuntimeNode → Owners → Owners × Bool
claim_runtime_nodes source_id records o =
    let done =
      claim_records source_id o.control_nodes
        (map (λ (r : RuntimeNode). (r.runtime_node_id, some r.owner_control_node_id)) records)
        o.runtime_nodes in
    (record o { runtime_nodes = done.0 }, done.1)

unfoldable pub claim_control_nodes : ℕ → List ℕ → Owners → Owners × Bool
claim_control_nodes source_id ids o =
    let no_parent : ℕ → ℕ × Option ℕ = (λ id. (id, none)) in
    let done = claim_records source_id [] (map no_parent ids) o.control_nodes in
    (record o { control_nodes = done.0 }, done.1)

-- The next stage, unless the one before has thrown.
abbrev pub and_then : Owners × Bool → (Owners → Owners × Bool) → Owners × Bool
and_then done next = if done.1 then next done.0 else done

unfoldable pub claim_source : ℕ → SourceSnapshot → Owners → Owners × Bool
claim_source source_id s o =
    and_then
      (and_then
        (and_then (claim_control_nodes source_id s.manifest.covered_control_node_ids o)
          (claim_runtime_nodes source_id s.runtime_nodes))
        (claim_sessions source_id s.sessions))
      (claim_interactions source_id s.interactions)

unfoldable pub claim_sources : List (ℕ × SourceSnapshot) → Owners → Owners × Bool
claim_sources [] o = (o, true)
claim_sources ((source_id, s) ∷ rest) o = and_then (claim_source source_id s o) (claim_sources rest)

abbrev pub no_owners : Owners
no_owners = record { control_nodes = []; runtime_nodes = []; sessions = []; interactions = [] }
