-- ===== src/Records/Interaction/Examples.antt =====
-- Tests: decisions of one interaction.
use agent_multiplex.Base.{◌≡◌, ◌≢◌, refl, false, none, some, arith}
use agent_multiplex.Errors.{ok}
use agent_multiplex.Records.Interaction.{
  Interaction, pending, resolved, same_interaction_identity, merge_interaction,
}
use agent_multiplex.Records.Interaction.Merge.{merge_interaction_decides_once}

abbrev open_interaction : Interaction
open_interaction = record {
  interaction_id = 1;
  session_id = 2;
  harness = 3;
  runtime_epoch = 4;
  native_request_id = none;
  request_type = 5;
  payload = 6;
  ephemeral = false;
  state = pending;
  resolution = none;
  created_at = 100;
  expires_at = some 900;
  resolved_at = none;
}

abbrev decided : Interaction
decided = record open_interaction { state = resolved; resolution = some 7; resolved_at = some 120 }

decides : merge_interaction open_interaction decided ≡ ok decided
unfolding merge_interaction same_interaction_identity
    agent_multiplex.Records.Interaction.same_interaction
    agent_multiplex.Records.Interaction.merge_states
decides = refl

decides_again : merge_interaction decided decided ≡ ok decided
unfolding merge_interaction same_interaction_identity
    agent_multiplex.Records.Interaction.same_interaction
decides_again = refl

decided_not_pending : decided.state ≢ pending
decided_not_pending = λ e. ground arith

merge_interaction_decides_once_example : decided ≡ decided
merge_interaction_decides_once_example =
    merge_interaction_decides_once open_interaction decided decided decided refl decided_not_pending
      decided_not_pending decides decides_again
