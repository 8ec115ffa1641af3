-- ===== src/Terminal/Keyboard/Takeover.antt =====
-- Acquiring the keyboard: a retried request, and what it means for the previous holder.
use agent_multiplex.Base.{
  ℕ, ◌+◌, ◌≡◌, ◌≢◌, ◌∙◌, refl, ap, Bool, Option, none, some, inl, inr, List, [], lookup, ==_refl,
  arith,
}
use agent_multiplex.Errors.{Result, ok, Result-cases}
use agent_multiplex.Terminal.{
  Payload, Lease, Terminal, emit_changed, clear_lease, expire_lease_if_needed,
}
use agent_multiplex.Terminal.Keyboard.{
  Input, AcquireInput, AcquireResult, AcquireReceipt, Broker, check_target, assert_running_writable,
  acquire_receipt_limit, take_over, grant, acquire, input,
}
use agent_multiplex.Terminal.Keyboard.Inputs.{input_reaches}
use agent_multiplex.Terminal.Keyboard.Receipts.{lookup-forget_oldest}

module _ (secret_hash : ℕ → ℕ) (lease_token : ℕ → ℕ) (acquisition_fingerprint : AcquireInput → ℕ)
    (input_hash : Payload → ℕ) (is_utf8 : List ℕ → Bool) where
  take_over-received :
      (t u : Terminal) (now : ℕ) (forced : Option ℕ)
      → take_over secret_hash lease_token acquisition_fingerprint input_hash is_utf8
          (expire_lease_if_needed t now)
          forced
        ≡ ok u
      → u.received ≡ t.received
  unfolding take_over expire_lease_if_needed clear_lease emit_changed
  take_over-received t u now forced e = ground arith

  granted_lease :
      (b : Broker) (a : AcquireInput) (now id : ℕ) (t : Terminal)
      → let c =
          (grant secret_hash lease_token acquisition_fingerprint input_hash is_utf8 b a now id
            t).0 in
        (lease : Lease) × (c.terminal.lease ≡ some lease)
        × (lease.summary.terminal_lease_id ≡ id)
        × (c.terminal.received ≡ t.received)
  unfolding grant emit_changed
  granted_lease b a now id t = (
    record {
      summary = record {
        terminal_lease_id = id;
        terminal_client_id = a.terminal_client_id;
        expires_at = now + t.limits.lease_ttl_ms;
      };
      token_hash = secret_hash (lease_token a.request_id);
      next_input_sequence = 0;
      receipts = [];
    },
    refl,
    refl,
    refl,
  )

  -- A request that has no receipt and succeeds was granted on some terminal.
  acquire_new :
      (b c : Broker) (a : AcquireInput) (now id : ℕ) (r : AcquireResult)
      → lookup a.request_id b.acquire_receipts ≡ none
      → acquire secret_hash lease_token acquisition_fingerprint input_hash is_utf8 b a now id
        ≡ (c, ok r)
      → (t : Terminal) × ((c, ok r)
          ≡ grant secret_hash lease_token acquisition_fingerprint input_hash is_utf8 b a now id t)
        × (t.received ≡ b.terminal.received)
  unfolding acquire
  acquire_new b c a now id r new e = elim (Result-cases (check_target b.target a.target)) [
    | inr (code, failed) ↦ ground arith
    | inl (_, target) ↦ elim (Result-cases (assert_running_writable b.terminal)) [
      | inr (code, failed) ↦ ground arith
      | inl (_, writable) ↦
          elim (Result-cases (
            take_over secret_hash lease_token acquisition_fingerprint input_hash is_utf8
              (expire_lease_if_needed b.terminal now) a.force_terminal_lease_id)) [
                | inr (code, failed) ↦ ground arith
                | inl (t, free) ↦ (
                  t,
                  ground arith,
                  take_over-received b.terminal t now a.force_terminal_lease_id free,
                )
              ]
    ]
  ]

  -- A request that was new to the broker and is granted, and is sent again with nothing in between,
  -- whatever the clock then reads: it gets the same lease and credential, and changes nothing.
  pub acquire_again :
      (b c : Broker) (a : AcquireInput) (now later id id' : ℕ) (r : AcquireResult)
      → lookup a.request_id b.acquire_receipts ≡ none
      → acquire secret_hash lease_token acquisition_fingerprint input_hash is_utf8 b a now id
        ≡ (c, ok r)
      → acquire secret_hash lease_token acquisition_fingerprint input_hash is_utf8 c a later id'
        ≡ (c, ok r)
  unfolding acquire grant
  acquire_again b c a now later id id' r new e =
      let (t, granted, received) = acquire_new b c a now id r new e in
      let receipt : AcquireReceipt = record {
        fingerprint = acquisition_fingerprint a;
        lease = record {
          terminal_lease_id = id;
          terminal_client_id = a.terminal_client_id;
          expires_at = now + t.limits.lease_ttl_ms;
        };
        terminal_lease_id = id;
        next_input_sequence = 0;
      } in
      let kept =
        lookup-forget_oldest acquire_receipt_limit a.request_id receipt b.acquire_receipts
          (omega arith) new in
      ground (arith, kept, granted, ==_refl (acquisition_fingerprint a))

  -- A grant to a new request fences every other lease: it brings nothing to the process itself, nor
  -- does an input after it, with the credential of a lease of another identifier.
  pub acquire_fences :
      (b c : Broker) (a : AcquireInput) (i : Input) (now later id : ℕ) (r : AcquireResult)
      → lookup a.request_id b.acquire_receipts ≡ none
      → acquire secret_hash lease_token acquisition_fingerprint input_hash is_utf8 b a now id
        ≡ (c, ok r)
      → i.holder.credential.terminal_lease_id ≢ id
      → (c.terminal.received ≡ b.terminal.received)
        × ((input secret_hash lease_token acquisition_fingerprint input_hash is_utf8 c i
              later).0.terminal.received
            ≡ b.terminal.received)
  acquire_fences b c a i now later id r new e other =
      let (t, granted, received) = acquire_new b c a now id r new e in
      let (lease, held, is, same) = granted_lease b a now id t in
      let got : c
          ≡ (grant secret_hash lease_token acquisition_fingerprint input_hash is_utf8 b a now id
              t).0 =
        ap (λ (x : Broker × Result AcquireResult). x.0) granted in
      let kept : c.terminal.received ≡ b.terminal.received =
        ap (λ (x : Broker). x.terminal.received) got ∙ same ∙ received in
      (
        kept,
        elim (input_reaches secret_hash lease_token acquisition_fingerprint input_hash is_utf8 c i
            later) [
              | inl nothing ↦ nothing ∙ kept
              | inr reached ↦ ground (
                arith,
                reached.held,
                reached.is_lease,
                held,
                is,
                ap (λ (x : Broker). x.terminal.lease) got,
              )
            ],
      )
