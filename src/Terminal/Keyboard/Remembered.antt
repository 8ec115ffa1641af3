-- ===== src/Terminal/Keyboard/Remembered.antt =====
-- What a terminal remembers of an input that was accepted, while other inputs come after it.
use agent_multiplex.Base.{
  ℕ, suc, ◌+◌, ◌<◌, ◌≡◌, ◌∙◌, refl, sym, ap, subst, Bool, ◌||◌, some, Bool-cases, Option-cases, ◌⊎◌,
  inl, inr, List, lookup, lookup-insert, insert, ltb, arith,
}
use agent_multiplex.Errors.{Result, ok, Result-cases}
use agent_multiplex.Terminal.{Payload, InputResult, Receipt, Lease, Terminal}
use agent_multiplex.Terminal.Keyboard.{
  Input, AcquireInput, Broker, input_receipt_limit, apply_payload, settle_input, accept_input,
  input,
}
use agent_multiplex.Terminal.Keyboard.Numbered.{
  Numbered, Numbered-Below, Numbered-insert, Numbered-forget_oldest, forget_oldest-recent,
}
use agent_multiplex.Terminal.Keyboard.Receipts.{lookup-forget_oldest, Below-lookup}
use agent_multiplex.Terminal.Keyboard.Inputs.{accepted, accept_input-kept}

-- The terminal `t` holds the lease of `begun`, and has not forgotten the receipt of the sequence `s`
-- unless too many inputs have come after it.
pub record Remembers (begun : Terminal) (lease : Lease) (s : ℕ) (receipt : Receipt) (t : Terminal)
    : Type 0 where
  pub now_lease : Lease
  pub held : t.lease ≡ some now_lease
  pub summary : now_lease.summary ≡ lease.summary
  pub token_hash : now_lease.token_hash ≡ lease.token_hash
  pub state : t.state ≡ begun.state
  pub capabilities : t.capabilities ≡ begun.capabilities
  pub numbered : Numbered now_lease.next_input_sequence now_lease.receipts
  pub past : s < now_lease.next_input_sequence
  pub found :
      (s + input_receipt_limit < now_lease.next_input_sequence)
      ⊎ (lookup s now_lease.receipts ≡ some receipt)

module _ (secret_hash : ℕ → ℕ) (lease_token : ℕ → ℕ) (acquisition_fingerprint : AcquireInput → ℕ)
    (input_hash : Payload → ℕ) (is_utf8 : List ℕ → Bool) where
  abbrev settled : Lease → Input → ℕ → Lease
  settled = settle_input secret_hash lease_token acquisition_fingerprint input_hash is_utf8

  abbrev pub takes : Terminal → Lease → Input → ℕ → Terminal × Result InputResult
  takes = accepted secret_hash lease_token acquisition_fingerprint input_hash is_utf8

  abbrev inputs : Broker → Input → ℕ → Broker × Result InputResult
  inputs = input secret_hash lease_token acquisition_fingerprint input_hash is_utf8

  settle_input-Numbered :
      (lease : Lease) (i : Input) (now : ℕ)
      → Numbered lease.next_input_sequence lease.receipts
      → i.input_sequence ≡ lease.next_input_sequence
      → Numbered (settled lease i now).next_input_sequence (settled lease i now).receipts
  unfolding settle_input
  settle_input-Numbered lease i now h due = rw due (
      Numbered-forget_oldest input_receipt_limit (suc lease.next_input_sequence)
        (insert lease.next_input_sequence
          record {
            hash = input_hash i.payload;
            result = record { input_sequence = lease.next_input_sequence; accepted_at = now };
          }
          lease.receipts)
        (Numbered-insert lease.next_input_sequence
          record {
            hash = input_hash i.payload;
            result = record { input_sequence = lease.next_input_sequence; accepted_at = now };
          }
          lease.receipts h))

  settle_input-found :
      (lease : Lease) (i : Input) (now s : ℕ) (receipt : Receipt)
      → Numbered lease.next_input_sequence lease.receipts
      → i.input_sequence ≡ lease.next_input_sequence
      → s < lease.next_input_sequence
      → (s + input_receipt_limit < lease.next_input_sequence)
        ⊎ (lookup s lease.receipts ≡ some receipt)
      → (s + input_receipt_limit < (settled lease i now).next_input_sequence)
        ⊎ (lookup s (settled lease i now).receipts ≡ some receipt)
  unfolding settle_input
  settle_input-found lease i now s receipt h due past (inl gone) = inl (omega (arith, gone))
  settle_input-found lease i now s receipt h due past (inr found) =
      elim (Bool-cases (ltb (s + input_receipt_limit) (suc lease.next_input_sequence))) [
        | inl over ↦ inl (ground arith)
        | inr within ↦
            let r : Receipt = record {
              hash = input_hash i.payload;
              result = record { input_sequence = i.input_sequence; accepted_at = now };
            } in
            inr (
              forget_oldest-recent input_receipt_limit (suc lease.next_input_sequence) s receipt
                (insert i.input_sequence r lease.receipts)
                (subst (λ k. Numbered (suc lease.next_input_sequence) (insert k r lease.receipts))
                  (sym due) (Numbered-insert lease.next_input_sequence r lease.receipts h))
                (ground arith) (ground (arith, lookup-insert i.input_sequence s r lease.receipts)))
      ]

  settle_input-receipt :
      (lease : Lease) (i : Input) (now : ℕ)
      → Numbered lease.next_input_sequence lease.receipts
      → i.input_sequence ≡ lease.next_input_sequence
      → lookup i.input_sequence (settled lease i now).receipts
        ≡ some record {
          hash = input_hash i.payload;
          result = record { input_sequence = i.input_sequence; accepted_at = now };
        }
  unfolding settle_input
  settle_input-receipt lease i now h due =
      lookup-forget_oldest input_receipt_limit i.input_sequence
        record {
          hash = input_hash i.payload;
          result = record { input_sequence = i.input_sequence; accepted_at = now };
        }
        lease.receipts (omega arith)
        (ap (λ n. lookup n lease.receipts) due
          ∙ Below-lookup lease.next_input_sequence lease.receipts
              (Numbered-Below lease.next_input_sequence lease.receipts h))

  settle_input-kept :
      (lease : Lease) (i : Input) (now : ℕ)
      → ((settled lease i now).summary ≡ lease.summary)
        × ((settled lease i now).token_hash ≡ lease.token_hash)
        × ((settled lease i now).next_input_sequence ≡ suc lease.next_input_sequence)
  unfolding settle_input
  settle_input-kept lease i now = (refl, refl, refl)

  -- What `accept_input` makes of a call that succeeds.
  takes-ok :
      (t u : Terminal) (lease : Lease) (i : Input) (now : ℕ) (r : InputResult)
      → takes t lease i now ≡ (u, ok r)
      → ((u ≡ t)
          × (i.input_sequence < lease.next_input_sequence)
          × (receipt : Receipt) × (lookup i.input_sequence lease.receipts ≡ some receipt)
          × (receipt.hash ≡ input_hash i.payload)
          × (receipt.result ≡ r))
        ⊎ ((i.input_sequence ≡ lease.next_input_sequence)
            × (u.lease ≡ some (settled lease i now))
            × (r ≡ record { input_sequence = i.input_sequence; accepted_at = now }))
  unfolding accept_input
  takes-ok t u lease i now r e =
      elim (Bool-cases (ltb i.input_sequence lease.next_input_sequence)) [
        | inl old ↦ elim (Option-cases (lookup i.input_sequence lease.receipts)) [
          | inl missing ↦ ground arith
          | inr (receipt, there) ↦
              inl (ground arith, ground arith, receipt, there, ground arith, ground arith)
        ]
        | inr new ↦ inr (ground arith, ground arith, ground arith)
      ]

  takes-any :
      (t : Terminal) (lease : Lease) (j : Input) (x : ℕ)
      → ((takes t lease j x).0 ≡ t)
        ⊎ ((j.input_sequence ≡ lease.next_input_sequence)
            × ((takes t lease j x).0.lease ≡ some (settled lease j x)))
  unfolding accept_input
  takes-any t lease j x =
      elim (Bool-cases (
        ltb j.input_sequence lease.next_input_sequence
        || ltb lease.next_input_sequence j.input_sequence)) [
          | inl off ↦ inl (ground arith)
          | inr due ↦
              elim (Result-cases (
                apply_payload secret_hash lease_token acquisition_fingerprint input_hash is_utf8 t
                  j.payload)) [
                    | inr (code, e) ↦ inl (ground arith)
                    | inl (u, e) ↦ inr (ground arith, ground arith)
                  ]
        ]

  -- A new receipt, or the one that there was.
  pub takes-Remembers :
      (t u : Terminal) (lease : Lease) (i : Input) (now : ℕ) (r : InputResult)
      → t.lease ≡ some lease
      → Numbered lease.next_input_sequence lease.receipts
      → takes t lease i now ≡ (u, ok r)
      → (receipt : Receipt) × Remembers t lease i.input_sequence receipt u
        × (receipt.hash ≡ input_hash i.payload)
        × (receipt.result ≡ r)
  takes-Remembers t u lease i now r held h e = elim (takes-ok t u lease i now r e) [
    | inl (same, past, receipt, there, hash, result) ↦ (
      receipt,
      record {
        now_lease = lease;
        held = rw same held;
        summary = refl;
        token_hash = refl;
        state = rw same refl;
        capabilities = rw same refl;
        numbered = h;
        past = past;
        found = inr there;
      },
      hash,
      result,
    )
    | inr (due, held', result) ↦
        let (summary, token_hash, next) = settle_input-kept lease i now in
        let (state, capabilities) =
          accept_input-kept secret_hash lease_token acquisition_fingerprint input_hash is_utf8 t u
            lease i now (ok r) e in
        (
          record {
            hash = input_hash i.payload;
            result = record { input_sequence = i.input_sequence; accepted_at = now };
          },
          record {
            now_lease = settled lease i now;
            held = held';
            summary = summary;
            token_hash = token_hash;
            state = state;
            capabilities = capabilities;
            numbered = settle_input-Numbered lease i now h due;
            past = omega (arith, due, next);
            found = inr (settle_input-receipt lease i now h due);
          },
          refl,
          sym result,
        )
  ]

  pub takes-still :
      (begun t : Terminal) (lease : Lease) (s : ℕ) (receipt : Receipt) (j : Input) (x : ℕ)
      → (m : Remembers begun lease s receipt t)
      → Remembers begun lease s receipt (takes t m.now_lease j x).0
  takes-still begun t lease s receipt j x m = elim (takes-any t m.now_lease j x) [
    | inl same ↦ subst (λ u. Remembers begun lease s receipt u) (sym same) m
    | inr (due, held') ↦
        let u = (takes t m.now_lease j x).0 in
        let (summary, token_hash, next) = settle_input-kept m.now_lease j x in
        let (state, capabilities) =
          accept_input-kept secret_hash lease_token acquisition_fingerprint input_hash is_utf8 t u
            m.now_lease j x (takes t m.now_lease j x).1 refl in
        record {
          now_lease = settled m.now_lease j x;
          held = held';
          summary = summary ∙ m.summary;
          token_hash = token_hash ∙ m.token_hash;
          state = state ∙ m.state;
          capabilities = capabilities ∙ m.capabilities;
          numbered = settle_input-Numbered m.now_lease j x m.numbered due;
          past = omega (arith, m.past, next);
          found = settle_input-found m.now_lease j x s receipt m.numbered due m.past m.found;
        }
  ]
