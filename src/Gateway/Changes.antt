-- ===== src/Gateway/Changes.antt =====
-- What `#applySourceControl` of packages/gateway-core/src/projection.ts makes of a source's snapshot.
use agent_multiplex.Base.{ℕ, false, List, [], ◌∷◌, map, ◌==◌, if◌then◌else◌}
use agent_multiplex.Gateway.{
  ControlNode, RuntimeNode, Session, Interaction, MetadataOperation, SourceSnapshot,
}

pub data Change : Type 0 where
  control_node_upsert : ControlNode → Change
  control_node_presence : (control_node_id presence : ℕ) → Change
  runtime_node_upsert : RuntimeNode → Change
  runtime_node_presence : (runtime_node_id presence : ℕ) → Change
  session_upsert : Session → Change
  session_unavailable : (session_id : ℕ) → Change
  metadata_changed : (session_id revision metadata : ℕ) → Change
  metadata_operation : MetadataOperation → Change
  interaction_changed : Interaction → Change
  -- with the record's identifier
  launch_changed archive_changed : ℕ → Change
  other_change : Change

-- `upsert`: in the place of the first record of the identity, or at the end.
abbrev pub upsert {ℓ} : {A : Type ℓ} → (A → ℕ) → A → List A → List A
upsert identity value [] = value ∷ []
upsert identity value (r ∷ records) =
    if identity r == identity value then value ∷ records else r ∷ upsert identity value records

abbrev pub set_node_presence : ℕ → ℕ → ControlNode → ControlNode
set_node_presence id presence r =
    if r.control_node_id == id then record r { presence = presence } else r

abbrev pub set_runtime_presence : ℕ → ℕ → RuntimeNode → RuntimeNode
set_runtime_presence id presence r =
    if r.runtime_node_id == id then record r { presence = presence } else r

abbrev pub set_unavailable : ℕ → Session → Session
set_unavailable id r = if r.session_id == id then record r { is_available = false } else r

abbrev pub set_metadata : ℕ → ℕ → ℕ → Session → Session
set_metadata id revision metadata r =
    if r.session_id == id then record r { metadata_revision = revision; metadata = metadata } else r

unfoldable pub apply_change : SourceSnapshot → Change → SourceSnapshot
apply_change s (control_node_upsert r) = record s {
  control_nodes = upsert (λ (x : ControlNode). x.control_node_id) r s.control_nodes;
}
apply_change s (control_node_presence id presence) = record s {
  control_nodes = map (set_node_presence id presence) s.control_nodes;
}
apply_change s (runtime_node_upsert r) = record s {
  runtime_nodes = upsert (λ (x : RuntimeNode). x.runtime_node_id) r s.runtime_nodes;
}
apply_change s (runtime_node_presence id presence) = record s {
  runtime_nodes = map (set_runtime_presence id presence) s.runtime_nodes;
}
apply_change s (session_upsert r) = record s {
  sessions = upsert (λ (x : Session). x.session_id) r s.sessions;
}
apply_change s (session_unavailable id) = record s {
  sessions = map (set_unavailable id) s.sessions;
}
apply_change s (metadata_changed id revision metadata) = record s {
  sessions = map (set_metadata id revision metadata) s.sessions;
}
apply_change s (metadata_operation r) = record s {
  metadata_operations = upsert (λ (x : MetadataOperation). x.operation_id) r s.metadata_operations;
}
apply_change s (interaction_changed r) = record s {
  interactions = upsert (λ (x : Interaction). x.interaction_id) r s.interactions;
}
apply_change s (launch_changed id) = s
apply_change s (archive_changed id) = s
apply_change s other_change = s
