-- ===== src/Terminal/Keyboard.antt =====
-- The keyboard lease of one terminal in packages/runtime-node-core/src/terminal.ts: `acquire`,
-- `renew`, `release` and `input` of `TerminalBroker`, with the state that a throwing call leaves.
-- A clock reading and a fresh identifier are arguments.
mod Examples
pub mod Inputs
pub mod Numbered
pub mod Receipts
pub mod Remembered
pub mod Retry
pub mod Takeover
use agent_multiplex.Base.{
  ℕ, zero, suc, ◌+◌, Bool, true, false, ◌&&◌, not, Option, none, some, List, [], ◌∷◌, ◌++◌, Table,
  lookup, insert, length, ltb, leb, ◌==◌, same_option, if◌then◌else◌,
}
use agent_multiplex.Errors.{
  Result, ok, err, conflict, fenced, unsupported, invalid_input, not_found,
}
use agent_multiplex.Terminal.{
  State, Summary, Dimensions, Payload, write, resize, InputResult, Receipt, Lease, Terminal,
  is_running, emit_changed, clear_lease, expire_lease_if_needed,
}

-- `TerminalTarget & { terminalId }`.
pub record Target : Type 0 where
  pub session_id : ℕ
  pub runtime_node_id : ℕ
  pub binding_revision : ℕ
  pub terminal_id : ℕ

pub record Credential : Type 0 where
  pub terminal_lease_id : ℕ
  pub token : ℕ

pub record AcquireInput : Type 0 where
  pub request_id : ℕ
  pub target : Target
  pub terminal_client_id : ℕ
  pub force_terminal_lease_id : Option ℕ

-- The members that `renew`, `release` and `input` share.
pub record Holder : Type 0 where
  pub target : Target
  pub terminal_client_id : ℕ
  pub credential : Credential

pub record Input : Type 0 where
  pub holder : Holder
  pub input_sequence : ℕ
  pub payload : Payload

pub record AcquireResult : Type 0 where
  pub lease : Summary
  pub credential : Credential
  pub next_input_sequence : ℕ

pub record AcquireReceipt : Type 0 where
  pub fingerprint : ℕ
  pub lease : Summary
  pub terminal_lease_id : ℕ
  pub next_input_sequence : ℕ

-- The broker with the terminal that is bound to the session of `target`.
pub record Broker : Type 0 where
  pub target : Target
  pub terminal : Terminal
  pub acquire_receipts : Table AcquireReceipt

abbrev pub acquire_receipt_limit : ℕ
acquire_receipt_limit = 4096

abbrev pub input_receipt_limit : ℕ
input_receipt_limit = 1024

-- The loop that deletes the oldest receipts.
abbrev pub forget_oldest {ℓ} : {V : Type ℓ} → ℕ → Table V → Table V
forget_oldest limit [] = []
forget_oldest limit (e ∷ l) = if ltb limit (suc (length l)) then forget_oldest limit l else e ∷ l

-- `#terminal` with `#assertTarget`.
pub check_target : Target → Target → Result (Unit {0})
check_target bound target =
    if not (bound.session_id == target.session_id)
    then err not_found
    else if not (bound.terminal_id == target.terminal_id)
    then err fenced
    else if not (
        bound.runtime_node_id == target.runtime_node_id
        && bound.binding_revision == target.binding_revision)
    then err fenced
    else ok tt

-- `#assertRunningWritable`.
pub assert_running_writable : Terminal → Result (Unit {0})
assert_running_writable t =
    if not (is_running t.state)
    then err conflict
    else if t.capabilities.can_write
    then ok tt
    else err unsupported

-- `secretHash` (SHA-256), `#leaseToken` (HMAC with the broker's secret), `acquisitionFingerprint`
-- and `inputHash`, over the cryptography of the platform, and its `isUtf8`.
module _ (secret_hash : ℕ → ℕ) (lease_token : ℕ → ℕ) (acquisition_fingerprint : AcquireInput → ℕ)
    (input_hash : Payload → ℕ) (is_utf8 : List ℕ → Bool) where
  pub acquire_result : ℕ → AcquireReceipt → AcquireResult
  acquire_result request_id receipt = record {
    lease = receipt.lease;
    credential = record {
      terminal_lease_id = receipt.terminal_lease_id;
      token = lease_token request_id;
    };
    next_input_sequence = receipt.next_input_sequence;
  }

  -- The takeover check of `acquire`, on a terminal whose lease has been expired if it was due.
  pub take_over : Terminal → Option ℕ → Result Terminal
  take_over t forced = elim t.lease [
    | none ↦ if same_option forced none then ok t else err fenced
    | some lease ↦
        if same_option forced (some lease.summary.terminal_lease_id)
        then ok (clear_lease t false)
        else err conflict
  ]

  pub grant : Broker → AcquireInput → ℕ → ℕ → Terminal → Broker × Result AcquireResult
  grant b input now terminal_lease_id t =
      let summary : Summary = record {
        terminal_lease_id = terminal_lease_id;
        terminal_client_id = input.terminal_client_id;
        expires_at = now + t.limits.lease_ttl_ms;
      } in
      let lease : Lease = record {
        summary = summary;
        token_hash = secret_hash (lease_token input.request_id);
        next_input_sequence = 0;
        receipts = [];
      } in
      let receipt : AcquireReceipt = record {
        fingerprint = acquisition_fingerprint input;
        lease = summary;
        terminal_lease_id = terminal_lease_id;
        next_input_sequence = 0;
      } in
      (
        record b {
          terminal = emit_changed (record t { lease = some lease });
          acquire_receipts =
              forget_oldest acquire_receipt_limit
                (insert input.request_id receipt b.acquire_receipts);
        },
        ok (acquire_result input.request_id receipt),
      )

  pub acquire : Broker → AcquireInput → ℕ → ℕ → Broker × Result AcquireResult
  acquire b input now terminal_lease_id = elim (lookup input.request_id b.acquire_receipts) [
    | some prior ↦
        if prior.fingerprint == acquisition_fingerprint input
        then (b, ok (acquire_result input.request_id prior))
        else (b, err conflict)
    | none ↦ elim (check_target b.target input.target) [
      | err e ↦ (b, err e)
      | ok _ ↦ elim (assert_running_writable b.terminal) [
        | err e ↦ (b, err e)
        | ok _ ↦
            let t = expire_lease_if_needed b.terminal now in
            elim (take_over t input.force_terminal_lease_id) [
              | err e ↦ (record b { terminal = t }, err e)
              | ok free ↦ grant b input now terminal_lease_id free
            ]
      ]
    ]
  ]

  -- `#lease`, on a terminal whose lease has been expired if it was due.
  pub holds : Terminal → Holder → Result Lease
  holds t holder = elim t.lease [
    | none ↦ err fenced
    | some lease ↦
        if lease.summary.terminal_lease_id == holder.credential.terminal_lease_id
          && lease.summary.terminal_client_id == holder.terminal_client_id
          && lease.token_hash == secret_hash holder.credential.token
        then ok lease
        else err fenced
  ]

  pub renew : Broker → Holder → ℕ → Broker × Result (Summary × ℕ)
  renew b holder now = elim (check_target b.target holder.target) [
    | err e ↦ (b, err e)
    | ok _ ↦
        let t = expire_lease_if_needed b.terminal now in
        elim (holds t holder) [
          | err e ↦ (record b { terminal = t }, err e)
          | ok lease ↦
              let summary = record lease.summary { expires_at = now + t.limits.lease_ttl_ms } in
              (
                record b {
                  terminal =
                      emit_changed (record t { lease = some record lease { summary = summary } });
                },
                ok (summary, lease.next_input_sequence),
              )
        ]
  ]

  pub release : Broker → Holder → ℕ → Broker × Result (Unit {0})
  release b holder now = elim (check_target b.target holder.target) [
    | err e ↦ (b, err e)
    | ok _ ↦
        let t = expire_lease_if_needed b.terminal now in
        elim (holds t holder) [
          | err e ↦ (record b { terminal = t }, err e)
          | ok lease ↦ (record b { terminal = clear_lease t true }, ok tt)
        ]
  ]

  -- The payload's way to the process, and to the terminal's dimensions.
  pub apply_payload : Terminal → Payload → Result Terminal
  apply_payload t (write bytes) =
      if is_utf8 bytes
      then ok (record t { received = t.received ++ write bytes ∷ [] })
      else err invalid_input
  apply_payload t (resize dimensions) =
      if t.capabilities.can_resize
      then ok (
          emit_changed
            (record t { received = t.received ++ resize dimensions ∷ []; dimensions = dimensions }))
      else err unsupported

  pub settle_input : Lease → Input → ℕ → Lease
  settle_input lease input now = record lease {
    next_input_sequence = suc lease.next_input_sequence;
    receipts = forget_oldest input_receipt_limit (
        insert input.input_sequence
          record {
            hash = input_hash input.payload;
            result = record { input_sequence = input.input_sequence; accepted_at = now };
          }
          lease.receipts);
  }

  -- `input` after the checks of the terminal and the lease.
  pub accept_input : Terminal → Lease → Input → ℕ → Terminal × Result InputResult
  accept_input t lease input now =
      if ltb input.input_sequence lease.next_input_sequence
      then elim (lookup input.input_sequence lease.receipts) [
        | none ↦ (t, err conflict)
        | some receipt ↦
            if receipt.hash == input_hash input.payload
            then (t, ok receipt.result)
            else (t, err conflict)
      ]
      else if ltb lease.next_input_sequence input.input_sequence
      then (t, err conflict)
      else elim (apply_payload t input.payload) [
        | err e ↦ (t, err e)
        | ok applied ↦ (
          record applied { lease = some (settle_input lease input now) },
          ok record { input_sequence = input.input_sequence; accepted_at = now },
        )
      ]

  pub input : Broker → Input → ℕ → Broker × Result InputResult
  input b i now = elim (check_target b.target i.holder.target) [
    | err e ↦ (b, err e)
    | ok _ ↦ elim (assert_running_writable b.terminal) [
      | err e ↦ (b, err e)
      | ok _ ↦
          let t = expire_lease_if_needed b.terminal now in
          elim (holds t i.holder) [
            | err e ↦ (record b { terminal = t }, err e)
            | ok lease ↦
                let (done, result) = accept_input t lease i now in
                (record b { terminal = done }, result)
          ]
    ]
  ]
