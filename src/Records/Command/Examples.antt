-- ===== src/Records/Command/Examples.antt =====
-- Tests: merges of one command's records.
use agent_multiplex.Base.{◌≤◌, ◌≡◌, refl, ◌⊎◌, true, false, none, some}
use agent_multiplex.Errors.{ok}
use agent_multiplex.Records.Command.{
  Command, received, started, succeeded, is_terminal_command_state, same_command_request, restamp,
  merge_command,
}
use agent_multiplex.Records.Command.Merge.{progress, merge_command_cases, merge_command_commutes}

abbrev accepted_command : Command
accepted_command = record {
  command_id = 1;
  payload_hash = 22;
  session_id = some 3;
  runtime_node_id = 4;
  state = received;
  request = 5;
  result = none;
  error = none;
  created_at = 100;
  updated_at = 100;
}

abbrev started_command : Command
started_command = record accepted_command { state = started; updated_at = 110 }

abbrev done_command : Command
done_command = record accepted_command { state = succeeded; result = some 9; updated_at = 120 }

starts : merge_command accepted_command started_command false ≡ ok started_command
unfolding merge_command
starts = refl

ends : merge_command accepted_command done_command false ≡ ok done_command
unfolding merge_command
ends = refl

ends_from_started : merge_command started_command done_command false ≡ ok done_command
unfolding merge_command
ends_from_started = refl

ignores_late_start : merge_command done_command started_command false ≡ ok done_command
unfolding merge_command
ignores_late_start = refl

done_is_terminal : is_terminal_command_state done_command.state ≡ true
unfolding is_terminal_command_state
done_is_terminal = refl

merge_command_commutes_example :
    (done_command.state ≡ done_command.state)
    × (done_command.result ≡ done_command.result)
    × (done_command.error ≡ done_command.error)
merge_command_commutes_example =
    merge_command_commutes accepted_command started_command done_command started_command
      done_command done_command done_command starts ends_from_started ends ignores_late_start

merge_command_cases_example :
    ((done_command ≡ started_command) ⊎ (done_command ≡ restamp started_command done_command))
    × (progress started_command.state ≤ progress done_command.state)
    × (same_command_request started_command done_command ≡ true)
    × (done_command.created_at ≡ started_command.created_at)
merge_command_cases_example =
    merge_command_cases started_command done_command false {r = done_command} ends_from_started
