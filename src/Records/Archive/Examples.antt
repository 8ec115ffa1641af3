-- ===== src/Records/Archive/Examples.antt =====
-- Tests: one archive operation that succeeds.
use agent_multiplex.Base.{ℕ, ◌≡◌, refl, none, some}
use agent_multiplex.Errors.{ok}
use agent_multiplex.Records.Authority.{AuthorityRef}
use agent_multiplex.Records.Archive.{
  Archive, releasing, succeeded, rank, is_terminal, same_archive_identity, merge_archive,
}

-- The texts of these records are written as their instants.
abbrev instant_of : ℕ → ℕ
instant_of text = text

abbrev realm : AuthorityRef
realm = record { realm_id = 1; control_node_id = 2; epoch_id = 3 }

abbrev releasing_archive : Archive
releasing_archive = record {
  archive_operation_id = 1;
  payload_hash = 2;
  session_id = 3;
  runtime_node_id = 4;
  binding_revision = 5;
  expected_authority = realm;
  authority = realm;
  state = releasing;
  released_at = none;
  catalog_revision = none;
  error = none;
  created_at = 100;
  updated_at = 110;
}

abbrev released : Archive
released = record releasing_archive {
  state = succeeded;
  released_at = some 115;
  catalog_revision = some 6;
  updated_at = 120;
}

releases : merge_archive instant_of releasing_archive released ≡ ok released
unfolding merge_archive same_archive_identity agent_multiplex.Records.Authority.same_authority
    agent_multiplex.Records.Archive.same_archive agent_multiplex.Records.Archive.advance_archive
releases = refl
