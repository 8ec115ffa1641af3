-- ===== src/Records/Launch/Examples.antt =====
-- Tests: one launch that fails while it is prepared.
use agent_multiplex.Base.{ℕ, ◌≡◌, refl, true, none, some}
use agent_multiplex.Errors.{ok}
use agent_multiplex.Records.Launch.{
  Launch, preparing, failed, rank, is_terminal, valid_launch, restamp, merge_launch,
}

-- The texts of these records are written as their instants.
abbrev instant_of : ℕ → ℕ
instant_of text = text

abbrev prepared : Launch
prepared = record {
  launch_id = 1;
  payload_hash = 2;
  session_id = 3;
  runtime_node_id = 4;
  profile = 5;
  harness = 6;
  input = 7;
  metadata = none;
  implementation_version = 8;
  state = preparing;
  result = none;
  status_message = none;
  error = none;
  created_at = 100;
  updated_at = 110;
}

-- Reported with an older clock and another admission time.
abbrev reported_failure : Launch
reported_failure = record prepared {
  state = failed;
  error = some 13;
  created_at = 99;
  updated_at = 105;
}

abbrev failure : Launch
failure = record prepared { state = failed; error = some 13 }

fails : merge_launch instant_of prepared reported_failure ≡ ok failure
unfolding merge_launch valid_launch agent_multiplex.Records.Launch.same_launch_identity restamp
    agent_multiplex.Records.Launch.same_launch agent_multiplex.Records.Launch.advance_launch
fails = refl

prepared_is_valid : valid_launch prepared ≡ true
unfolding valid_launch
prepared_is_valid = refl
