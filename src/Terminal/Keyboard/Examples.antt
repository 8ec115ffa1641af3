-- ===== src/Terminal/Keyboard/Examples.antt =====
-- Tests: inputs and a takeover of the keyboard.
use agent_multiplex.Base.{
  ℕ, ◌+◌, ◌≡◌, ◌≢◌, ◌⊎◌, refl, Bool, true, some, List, [], ◌∷◌, length, arith,
}
use agent_multiplex.Errors.{ok}
use agent_multiplex.Terminal.{Payload, write, resize, Lease}
use agent_multiplex.Terminal.Examples.{lease, terminal}
use agent_multiplex.Terminal.Keyboard.{
  Target, Holder, Input, AcquireInput, AcquireReceipt, AcquireResult, Broker, acquire, input,
}
use agent_multiplex.Terminal.Keyboard.Inputs.{Reached, input_reaches}
use agent_multiplex.Terminal.Keyboard.Retry.{input_all, input_after_others}
use agent_multiplex.Terminal.Keyboard.Takeover.{acquire_fences}

abbrev target : Target
target = record { session_id = 1; runtime_node_id = 2; binding_revision = 3; terminal_id = 4 }

abbrev broker : Broker
broker = record { target = target; terminal = terminal; acquire_receipts = [] }

-- Stand-ins for the platform's hashes and its test of UTF-8.
abbrev hash_secret : ℕ → ℕ
hash_secret token = token + 1

abbrev token_for : ℕ → ℕ
token_for request_id = request_id + 1000

abbrev fingerprint_of : AcquireInput → ℕ
fingerprint_of a = a.request_id + a.terminal_client_id

abbrev hash_payload : Payload → ℕ
hash_payload (write bytes) = length bytes
hash_payload (resize dimensions) = dimensions.columns

abbrev always_utf8 : List ℕ → Bool
always_utf8 bytes = true

abbrev holder : Holder
holder = record {
  target = target;
  terminal_client_id = 51;
  credential = record { terminal_lease_id = 50; token = 60 };
}

abbrev key : Input
key = record { holder = holder; input_sequence = 0; payload = write (97 ∷ []) }

abbrev typed : Broker
typed = record broker {
  terminal = record terminal {
    received = write (97 ∷ []) ∷ [];
    lease = some record lease {
      next_input_sequence = 1;
      receipts =
          (0, record { hash = 1; result = record { input_sequence = 0; accepted_at = 200 } }) ∷ [];
    };
  };
}

types :
    input hash_secret token_for fingerprint_of hash_payload always_utf8 broker key 200
    ≡ (typed, ok record { input_sequence = 0; accepted_at = 200 })
unfolding input agent_multiplex.Terminal.Keyboard.check_target
    agent_multiplex.Terminal.Keyboard.assert_running_writable
    agent_multiplex.Terminal.Keyboard.holds agent_multiplex.Terminal.expire_lease_if_needed
    agent_multiplex.Terminal.Keyboard.accept_input agent_multiplex.Terminal.Keyboard.apply_payload
    agent_multiplex.Terminal.Keyboard.settle_input
types = refl

-- The next input of the same client.
abbrev next_key : Input
next_key = record { holder = holder; input_sequence = 1; payload = write (98 ∷ []) }

abbrev typed_lease : Lease
typed_lease = record lease {
  next_input_sequence = 2;
  receipts =
      (0, record { hash = 1; result = record { input_sequence = 0; accepted_at = 200 } })
      ∷ (1, record { hash = 1; result = record { input_sequence = 1; accepted_at = 250 } })
      ∷ [];
}

abbrev typed_more : Broker
typed_more =
    input_all hash_secret token_for fingerprint_of hash_payload always_utf8 typed
      ((next_key, 250) ∷ [])

types_more : typed_more.terminal.lease ≡ some typed_lease
unfolding input agent_multiplex.Terminal.Keyboard.check_target
    agent_multiplex.Terminal.Keyboard.assert_running_writable
    agent_multiplex.Terminal.Keyboard.holds agent_multiplex.Terminal.expire_lease_if_needed
    agent_multiplex.Terminal.Keyboard.accept_input agent_multiplex.Terminal.Keyboard.apply_payload
    agent_multiplex.Terminal.Keyboard.settle_input
types_more = refl

input_after_others_example :
    input hash_secret token_for fingerprint_of hash_payload always_utf8 typed_more key 300
    ≡ (typed_more, ok record { input_sequence = 0; accepted_at = 200 })
input_after_others_example =
    input_after_others hash_secret token_for fingerprint_of hash_payload always_utf8 broker typed
      key 200 300 record { input_sequence = 0; accepted_at = 200 } lease ((next_key, 250) ∷ [])
      typed_lease refl tt types (omega arith, tt) (omega arith) types_more (omega arith)

input_reaches_example :
    let after =
      (input hash_secret token_for fingerprint_of hash_payload always_utf8 broker key 200).0 in
    (after.terminal.received ≡ [])
    ⊎ Reached hash_secret token_for fingerprint_of hash_payload always_utf8 broker key 200
        after.terminal
input_reaches_example =
    input_reaches hash_secret token_for fingerprint_of hash_payload always_utf8 broker key 200

abbrev takeover : AcquireInput
takeover = record {
  request_id = 70;
  target = target;
  terminal_client_id = 71;
  force_terminal_lease_id = some 50;
}

abbrev granted : AcquireResult
granted = record {
  lease = record { terminal_lease_id = 80; terminal_client_id = 71; expires_at = 15250 };
  credential = record { terminal_lease_id = 80; token = 1070 };
  next_input_sequence = 0;
}

abbrev taken : Broker
taken =
    (acquire hash_secret token_for fingerprint_of hash_payload always_utf8 broker takeover 250 80).0

takes :
    acquire hash_secret token_for fingerprint_of hash_payload always_utf8 broker takeover 250 80
    ≡ (taken, ok granted)
unfolding acquire agent_multiplex.Terminal.Keyboard.check_target
    agent_multiplex.Terminal.Keyboard.assert_running_writable
    agent_multiplex.Terminal.Keyboard.take_over agent_multiplex.Terminal.expire_lease_if_needed
    agent_multiplex.Terminal.Keyboard.grant agent_multiplex.Terminal.Keyboard.acquire_result
takes = refl

old_lease : key.holder.credential.terminal_lease_id ≢ 80
old_lease = λ e. omega arith

acquire_fences_example :
    (taken.terminal.received ≡ broker.terminal.received)
    × ((input hash_secret token_for fingerprint_of hash_payload always_utf8 taken key
          300).0.terminal.received
        ≡ broker.terminal.received)
acquire_fences_example =
    acquire_fences hash_secret token_for fingerprint_of hash_payload always_utf8 broker taken
      takeover key 250 300 80 granted refl takes old_lease
