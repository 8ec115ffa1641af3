-- ===== src/Terminal/Keyboard/Inputs.antt =====
-- Input reaches the process at the sequence that is due, and only from the holder of the lease.
use agent_multiplex.Base.{
  ℕ, suc, ◌<◌, ◌≡◌, refl, sym, ap, subst, Bool, ◌||◌, some, Bool-cases, ◌⊎◌, inl, inr, List, [],
  ◌∷◌, ◌++◌, ltb, arith,
}
use agent_multiplex.Errors.{ErrorCode, Result, ok, err, Result-cases}
use agent_multiplex.Terminal.{
  Payload, write, resize, InputResult, Lease, Terminal, emit_changed, expire_lease_if_needed,
}
use agent_multiplex.Terminal.Keyboard.{
  Holder, Input, AcquireInput, Broker, check_target, assert_running_writable, holds, apply_payload,
  settle_input, accept_input, input,
}
use agent_multiplex.Terminal.Keyboard.Receipts.{expire-kept, expire-live, expire-lease}

module _ (secret_hash : ℕ → ℕ) (lease_token : ℕ → ℕ) (acquisition_fingerprint : AcquireInput → ℕ)
    (input_hash : Payload → ℕ) (is_utf8 : List ℕ → Bool) where
  abbrev pub accepted : Terminal → Lease → Input → ℕ → Terminal × Result InputResult
  accepted = accept_input secret_hash lease_token acquisition_fingerprint input_hash is_utf8

  pub accept_input-kept :
      (t u : Terminal) (lease : Lease) (i : Input) (now : ℕ) (r : Result InputResult)
      → accepted t lease i now ≡ (u, r)
      → (u.state ≡ t.state) × (u.capabilities ≡ t.capabilities)
  unfolding accept_input apply_payload emit_changed
  accept_input-kept t u lease i now r e = kept i.payload refl
    where
      kept : (p : Payload) → i.payload ≡ p → (u.state ≡ t.state) × (u.capabilities ≡ t.capabilities)
      kept (write bytes) is = (ground arith, ground arith)
      kept (resize d) is = (ground arith, ground arith)

  pub holds-lease :
      (t : Terminal) (h : Holder) (lease : Lease)
      → holds secret_hash lease_token acquisition_fingerprint input_hash is_utf8 t h ≡ ok lease
      → t.lease ≡ some lease
  unfolding holds
  holds-lease t h lease e = ground arith

  pub holds-same :
      (t u : Terminal) (h : Holder) (lease after : Lease)
      → t.lease ≡ some lease
      → u.lease ≡ some after
      → after.summary ≡ lease.summary
      → after.token_hash ≡ lease.token_hash
      → holds secret_hash lease_token acquisition_fingerprint input_hash is_utf8 t h ≡ ok lease
      → holds secret_hash lease_token acquisition_fingerprint input_hash is_utf8 u h ≡ ok after
  unfolding holds
  holds-same t u h lease after e f s k o = ground arith

  -- What has to hold for an input to get as far as its sequence.
  pub record Admitted (b : Broker) (i : Input) (now : ℕ) (lease : Lease) : Type 0 where
    pub target : check_target b.target i.holder.target ≡ ok tt
    pub writable : assert_running_writable b.terminal ≡ ok tt
    pub held : b.terminal.lease ≡ some lease
    pub live : now < lease.summary.expires_at
    pub holder :
        holds secret_hash lease_token acquisition_fingerprint input_hash is_utf8 b.terminal i.holder
        ≡ ok lease

  pub input-Admitted :
      (b : Broker) (i : Input) (now : ℕ) (lease : Lease)
      → Admitted b i now lease
      → input secret_hash lease_token acquisition_fingerprint input_hash is_utf8 b i now ≡ (
        record b { terminal = (accepted b.terminal lease i now).0 },
        (accepted b.terminal lease i now).1,
      )
  unfolding input
  input-Admitted b i now lease a = ground (arith, expire-live b.terminal now lease a.held a.live)

  -- An input is input-Admitted, or fails and leaves to the process what it had.
  pub admit :
      (b : Broker) (i : Input) (now : ℕ)
      → ((lease : Lease) × Admitted b i now lease)
        ⊎ ((code : ErrorCode) × ((input secret_hash lease_token acquisition_fingerprint input_hash
                is_utf8 b i now).1
              ≡ err code)
            × ((input secret_hash lease_token acquisition_fingerprint input_hash is_utf8 b i
                  now).0.terminal.received
                ≡ b.terminal.received))
  unfolding input
  admit b i now = elim (Result-cases (check_target b.target i.holder.target)) [
    | inr (code, e) ↦ inr (code, ground arith, ground arith)
    | inl (_, target) ↦ elim (Result-cases (assert_running_writable b.terminal)) [
      | inr (code, e) ↦ inr (code, ground arith, ground arith)
      | inl (_, writable) ↦
          elim (Result-cases (
            holds secret_hash lease_token acquisition_fingerprint input_hash is_utf8
              (expire_lease_if_needed b.terminal now) i.holder)) [
                | inr (code, e) ↦
                    inr (code, ground arith, ground (arith, expire-kept b.terminal now))
                | inl (lease, holder) ↦
                    let left =
                      expire-lease b.terminal now lease (
                        holds-lease (expire_lease_if_needed b.terminal now) i.holder lease
                          holder) in
                    inl (
                      lease,
                      record {
                        target = target;
                        writable = writable;
                        held = left.0;
                        live = left.1;
                        holder =
                            subst
                              (λ t.
                                holds secret_hash lease_token acquisition_fingerprint input_hash
                                  is_utf8 t i.holder
                                ≡ ok lease)
                              (expire-live b.terminal now lease left.0 left.1) holder;
                      },
                    )
              ]
    ]
  ]

  -- What `input` has done when the process got something.
  pub record Reached (b : Broker) (i : Input) (now : ℕ) (u : Terminal) : Type 0 where
    pub received : u.received ≡ b.terminal.received ++ i.payload ∷ []
    pub lease : Lease
    pub after : Lease
    pub held : b.terminal.lease ≡ some lease
    pub held_after : u.lease ≡ some after
    pub live : now < lease.summary.expires_at
    pub is_lease : lease.summary.terminal_lease_id ≡ i.holder.credential.terminal_lease_id
    pub is_client : lease.summary.terminal_client_id ≡ i.holder.terminal_client_id
    pub is_token : lease.token_hash ≡ secret_hash i.holder.credential.token
    pub due : lease.next_input_sequence ≡ i.input_sequence
    pub next : after.next_input_sequence ≡ suc i.input_sequence

  holds-matches :
      (t : Terminal) (h : Holder) (lease : Lease)
      → holds secret_hash lease_token acquisition_fingerprint input_hash is_utf8 t h ≡ ok lease
      → (lease.summary.terminal_lease_id ≡ h.credential.terminal_lease_id)
        × (lease.summary.terminal_client_id ≡ h.terminal_client_id)
        × (lease.token_hash ≡ secret_hash h.credential.token)
  unfolding holds
  holds-matches t h lease e = (ground arith, ground arith, ground arith)

  apply_payload-received :
      (t u : Terminal) (p : Payload)
      → apply_payload secret_hash lease_token acquisition_fingerprint input_hash is_utf8 t p ≡ ok u
      → u.received ≡ t.received ++ p ∷ []
  unfolding apply_payload emit_changed
  apply_payload-received t u (write bytes) e = ground arith
  apply_payload-received t u (resize d) e = ground arith

  accept_input-reaches :
      (t : Terminal) (lease : Lease) (i : Input) (now : ℕ)
      → ((accepted t lease i now).0 ≡ t)
        ⊎ (((accepted t lease i now).0.received ≡ t.received ++ i.payload ∷ [])
            × (lease.next_input_sequence ≡ i.input_sequence)
            × (after : Lease) × ((accepted t lease i now).0.lease ≡ some after)
            × (after.next_input_sequence ≡ suc i.input_sequence))
  unfolding accept_input settle_input
  accept_input-reaches t lease i now =
      elim (Bool-cases (
        ltb i.input_sequence lease.next_input_sequence
        || ltb lease.next_input_sequence i.input_sequence)) [
          | inl off ↦ inl (ground arith)
          | inr due ↦
              elim (Result-cases (
                apply_payload secret_hash lease_token acquisition_fingerprint input_hash is_utf8 t
                  i.payload)) [
                    | inr (code, e) ↦ inl (ground arith)
                    | inl (u, e) ↦ inr (
                      ground (arith, apply_payload-received t u i.payload e),
                      ground arith,
                      settle_input secret_hash lease_token acquisition_fingerprint input_hash
                          is_utf8 lease i now,
                      ground arith,
                      ground arith,
                    )
                  ]
        ]

  -- Whatever a call of `input` returns, either the process gets nothing, or it gets exactly the
  -- payload of this call: then the call's sequence is the one that the lease expects next, the caller
  -- is the client of that lease with its token, the lease has not expired, and it then expects the
  -- next sequence.
  pub input_reaches :
      (b : Broker) (i : Input) (now : ℕ)
      → let c =
          (input secret_hash lease_token acquisition_fingerprint input_hash is_utf8 b i now).0 in
        (c.terminal.received ≡ b.terminal.received) ⊎ Reached b i now c.terminal
  input_reaches b i now = elim (admit b i now) [
    | inr (code, failed, kept) ↦ inl kept
    | inl (lease, a) ↦
        subst
          (λ (c : Broker × Result InputResult).
            (c.0.terminal.received ≡ b.terminal.received) ⊎ Reached b i now c.0.terminal)
          (sym (input-Admitted b i now lease a))
          (elim (accept_input-reaches b.terminal lease i now) [
            | inl same ↦ inl (ap (λ (t : Terminal). t.received) same)
            | inr (received, due, after, held_after, next) ↦
                let (is_lease, is_client, is_token) =
                  holds-matches b.terminal i.holder lease a.holder in
                inr record {
                  received = received;
                  lease = lease;
                  after = after;
                  held = a.held;
                  held_after = held_after;
                  live = a.live;
                  is_lease = is_lease;
                  is_client = is_client;
                  is_token = is_token;
                  due = due;
                  next = next;
                }
          ])
  ]
