-- ===== src/Gateway/Feed/Examples.antt =====
-- Tests: a gateway with one selected source that owns a session.
use agent_multiplex.Base.{ℕ, ◌≡◌, refl, ◌⊎◌, true, false, none, some, List, [], ◌∷◌, ◌++◌, arith}
use agent_multiplex.Records.Authority.{AuthorityRef}
use agent_multiplex.Stream.{Cursor}
use agent_multiplex.EventHub.{Event}
use agent_multiplex.Gateway.{
  Manifest, RuntimeNode, Session, SourceSnapshot, Source, SourceState, selected,
}
use agent_multiplex.Gateway.Changes.{Change, other_change, session_upsert}
use agent_multiplex.Gateway.Feed.{
  Provenance, Item, control, native, native_gap, heartbeat, stream_reset, Projection,
}
use agent_multiplex.Gateway.Feed.Ingest.{ingest, ingest_all, ingest_native, is_owned}
use agent_multiplex.Gateway.Feed.Invariant.{Inv}
use agent_multiplex.Gateway.Feed.Preserved.{ingest_all-Inv}
use agent_multiplex.Gateway.Feed.Once.{Call}
use agent_multiplex.Gateway.Feed.Resume.{control_cursors, Consecutive}
use agent_multiplex.Gateway.Feed.Replay.{
  is_retained, initial_items-Consecutive, initial_items-ingest_all,
}
use agent_multiplex.Gateway.Feed.Subscribe.{initial_items}

abbrev authority : AuthorityRef
authority = record { realm_id = 1; control_node_id = 1; epoch_id = 1 }

abbrev session : Session
session = record {
  session_id = 30;
  runtime_node_id = 20;
  native_binding = 1;
  session_binding = 1;
  metadata_revision = 0;
  metadata = 0;
  is_available = true;
}

abbrev source : Source
source = record {
  source_id = 10;
  priority = 0;
  enabled = true;
  snapshot = some record {
    manifest = record {
      source_control_node_id = 1;
      source_control_node_boot_id = 1;
      authority = authority;
      covered_control_node_ids = 1 ∷ [];
      feed_id = 5;
      control_cursor = 7;
    };
    control_nodes = [];
    runtime_nodes = record { runtime_node_id = 20; owner_control_node_id = 1; presence = 1 } ∷ [];
    sessions = session ∷ [];
    interactions = [];
    metadata_operations = [];
  };
  state = selected;
  generation = 1;
}

abbrev start : Projection
start = record {
  sources = source ∷ [];
  selected = 10 ∷ [];
  owners = record {
    control_nodes = (1, 10) ∷ [];
    runtime_nodes = (20, 10) ∷ [];
    sessions = (30, 10) ∷ [];
    interactions = [];
  };
  launch_owners = [];
  archive_owners = [];
  session_lookup_hints = [];
  session_lookup_records = [];
  native_seen = [];
  native_journal = [];
  native_journal_capacity = 2;
  journal = [];
  feed_id = 100;
  control_cursor = 0;
  broadcast = [];
}

abbrev provenance : Provenance
provenance = record { origin_control_node_id = 1; authority = authority }

abbrev event_of : ℕ → ℕ → Event
event_of epoch sequence = record {
  session_id = 30;
  runtime_epoch = epoch;
  sequence = sequence;
  content = 0;
}

abbrev unsorted : List AuthorityRef → List AuthorityRef
unsorted refs = refs

-- A control item, two events, one of them again, and two more control items, one of them again.
abbrev traffic : List (ℕ × Item)
traffic =
    (10, control 5 8 provenance (session_upsert session))
    ∷ (10, native (event_of 1 1) provenance)
    ∷ (10, native (event_of 1 2) provenance)
    ∷ (10, native (event_of 1 2) provenance)
    ∷ (10, control 5 9 provenance other_change)
    ∷ (10, control 5 9 provenance other_change)
    ∷ []

abbrev reached : Projection
reached = ingest_all unsorted start traffic

abbrev cursor_at : ℕ → Cursor
cursor_at n = record { feed_id = 100; control_cursor = n; native = [] }

start-Inv : Inv start
start-Inv = record {
  chain = (1, refl);
  journal_bounded = omega arith;
  native_bounded = omega arith;
  seen = tt;
  in_order = tt;
}

reached-control_cursor : reached.control_cursor ≡ 2
unfolding ingest ingest_all ingest_native agent_multiplex.Gateway.Feed.valid_source_item
    agent_multiplex.Gateway.Feed.send agent_multiplex.Gateway.Feed.rebuild_owners
    agent_multiplex.Gateway.Feed.forget_unowned agent_multiplex.Gateway.Feed.remove_native_session
    agent_multiplex.Gateway.Feed.remember_change agent_multiplex.Gateway.Feed.Ingest.ingest_item
    agent_multiplex.Gateway.Feed.Ingest.ingest_control
    agent_multiplex.Gateway.Feed.Ingest.apply_source_control
    agent_multiplex.Gateway.Feed.Ingest.applied agent_multiplex.Gateway.Feed.Ingest.publish_control
    agent_multiplex.Gateway.Feed.Ingest.publish_native agent_multiplex.Gateway.Changes.apply_change
    agent_multiplex.Records.Authority.same_authority agent_multiplex.Gateway.Owners.claim_sources
    agent_multiplex.Gateway.Owners.claim_source agent_multiplex.Gateway.Owners.claim_control_nodes
    agent_multiplex.Gateway.Owners.claim_runtime_nodes agent_multiplex.Gateway.Owners.claim_sessions
    agent_multiplex.Gateway.Owners.claim_interactions agent_multiplex.Gateway.Owners.claim_records
reached-control_cursor = refl

reached-control_cursors : control_cursors reached.broadcast ≡ 1 ∷ 2 ∷ []
unfolding ingest ingest_all ingest_native agent_multiplex.Gateway.Feed.valid_source_item
    agent_multiplex.Gateway.Feed.send agent_multiplex.Gateway.Feed.rebuild_owners
    agent_multiplex.Gateway.Feed.forget_unowned agent_multiplex.Gateway.Feed.remove_native_session
    agent_multiplex.Gateway.Feed.remember_change agent_multiplex.Gateway.Feed.Ingest.ingest_item
    agent_multiplex.Gateway.Feed.Ingest.ingest_control
    agent_multiplex.Gateway.Feed.Ingest.apply_source_control
    agent_multiplex.Gateway.Feed.Ingest.applied agent_multiplex.Gateway.Feed.Ingest.publish_control
    agent_multiplex.Gateway.Feed.Ingest.publish_native agent_multiplex.Gateway.Changes.apply_change
    agent_multiplex.Records.Authority.same_authority agent_multiplex.Gateway.Owners.claim_sources
    agent_multiplex.Gateway.Owners.claim_source agent_multiplex.Gateway.Owners.claim_control_nodes
    agent_multiplex.Gateway.Owners.claim_runtime_nodes agent_multiplex.Gateway.Owners.claim_sessions
    agent_multiplex.Gateway.Owners.claim_interactions agent_multiplex.Gateway.Owners.claim_records
reached-control_cursors = refl

reached-retained : is_retained reached (cursor_at 1) ≡ true
unfolding ingest ingest_all ingest_native agent_multiplex.Gateway.Feed.valid_source_item
    agent_multiplex.Gateway.Feed.send agent_multiplex.Gateway.Feed.rebuild_owners
    agent_multiplex.Gateway.Feed.forget_unowned agent_multiplex.Gateway.Feed.remove_native_session
    agent_multiplex.Gateway.Feed.remember_change agent_multiplex.Gateway.Feed.Ingest.ingest_item
    agent_multiplex.Gateway.Feed.Ingest.ingest_control
    agent_multiplex.Gateway.Feed.Ingest.apply_source_control
    agent_multiplex.Gateway.Feed.Ingest.applied agent_multiplex.Gateway.Feed.Ingest.publish_control
    agent_multiplex.Gateway.Feed.Ingest.publish_native agent_multiplex.Gateway.Changes.apply_change
    agent_multiplex.Records.Authority.same_authority agent_multiplex.Gateway.Owners.claim_sources
    agent_multiplex.Gateway.Owners.claim_source agent_multiplex.Gateway.Owners.claim_control_nodes
    agent_multiplex.Gateway.Owners.claim_runtime_nodes agent_multiplex.Gateway.Owners.claim_sessions
    agent_multiplex.Gateway.Owners.claim_interactions agent_multiplex.Gateway.Owners.claim_records
reached-retained = refl

reached-Inv : Inv reached
reached-Inv = ingest_all-Inv unsorted start traffic start-Inv

ingest_all-Inv_example : Inv reached
ingest_all-Inv_example = ingest_all-Inv unsorted start traffic start-Inv

-- The first event once more after the second, and an event from a source that does not own the session.
abbrev calls : List Call
calls =
    record { source_id = 10; event = event_of 1 1; provenance = provenance }
    ∷ record { source_id = 10; event = event_of 1 2; provenance = provenance }
    ∷ record { source_id = 10; event = event_of 1 1; provenance = provenance }
    ∷ record { source_id = 11; event = event_of 1 3; provenance = provenance }
    ∷ []

initial_items-Consecutive_example :
    ((is_retained reached (cursor_at 1) ≡ true)
      × Consecutive 2 reached.control_cursor
          (control_cursors (initial_items unsorted reached (some (cursor_at 1)) none true)))
    ⊎ ((is_retained reached (cursor_at 1) ≡ false)
        × (initial_items unsorted reached (some (cursor_at 1)) none true
            ≡ stream_reset 100 reached.feed_id reached.control_cursor ∷ []))
initial_items-Consecutive_example =
    initial_items-Consecutive unsorted reached (cursor_at 1) none true reached-Inv

initial_items-ingest_all_example :
    (live : List Item) × (((ingest_all unsorted reached traffic).broadcast
        ≡ reached.broadcast ++ live)
      × Consecutive 2
          (ingest_all unsorted reached traffic).control_cursor
          (control_cursors (initial_items unsorted reached (some (cursor_at 1)) none true ++ live)))
initial_items-ingest_all_example =
    initial_items-ingest_all unsorted reached (cursor_at 1) none true reached-Inv reached-retained
      traffic
