-- ===== src/Terminal/Keyboard/Retry.antt =====
-- An input that was accepted can be sent again, also after other inputs.
use agent_multiplex.Base.{
  ℕ, ◌+◌, ◌<◌, ◌≤◌, ◌≡◌, ◌∙◌, refl, sym, ap, subst, Bool, some, ◌⊎◌, inl, inr, List, [], ◌∷◌, All,
  lookup, ==_refl, arith,
}
use agent_multiplex.Errors.{Result, ok, Result-cases}
use agent_multiplex.Terminal.{
  Summary, Payload, InputResult, Receipt, Lease, Terminal, expire_lease_if_needed,
}
use agent_multiplex.Terminal.Keyboard.{
  Input, AcquireInput, Broker, check_target, assert_running_writable, input_receipt_limit, holds,
  accept_input, input,
}
use agent_multiplex.Terminal.Keyboard.Numbered.{Numbered}
use agent_multiplex.Terminal.Keyboard.Receipts.{expire-live}
use agent_multiplex.Terminal.Keyboard.Inputs.{
  Admitted, admit, holds-lease, holds-same, input-Admitted,
}
use agent_multiplex.Terminal.Keyboard.Remembered.{Remembers, takes, takes-Remembers, takes-still}

module _ (secret_hash : ℕ → ℕ) (lease_token : ℕ → ℕ) (acquisition_fingerprint : AcquireInput → ℕ)
    (input_hash : Payload → ℕ) (is_utf8 : List ℕ → Bool) where
  abbrev inputs : Broker → Input → ℕ → Broker × Result InputResult
  inputs = input secret_hash lease_token acquisition_fingerprint input_hash is_utf8

  abbrev takes_input : Terminal → Lease → Input → ℕ → Terminal × Result InputResult
  takes_input = takes secret_hash lease_token acquisition_fingerprint input_hash is_utf8

  -- Calls of `input`, with the clock reading of each, whatever they return.
  abbrev pub input_all : Broker → List (Input × ℕ) → Broker
  input_all b [] = b
  input_all b ((i, now) ∷ calls) = input_all (inputs b i now).0 calls

  input-live :
      (b : Broker) (lease : Lease) (j : Input) (x : ℕ)
      → b.terminal.lease ≡ some lease
      → x < lease.summary.expires_at
      → ((inputs b j x).0 ≡ b)
        ⊎ ((inputs b j x).0 ≡ record b { terminal = (takes_input b.terminal lease j x).0 })
  unfolding input
  input-live b lease j x held live = elim (Result-cases (check_target b.target j.holder.target)) [
    | inr (code, e) ↦ inl (ground arith)
    | inl (_, target) ↦ elim (Result-cases (assert_running_writable b.terminal)) [
      | inr (code, e) ↦ inl (ground arith)
      | inl (_, writable) ↦
          let same = expire-live b.terminal x lease held live in
          elim (Result-cases (
            holds secret_hash lease_token acquisition_fingerprint input_hash is_utf8
              (expire_lease_if_needed b.terminal x) j.holder)) [
                | inr (code, e) ↦ inl (ground (arith, same))
                | inl (other, e) ↦
                    let is : some other ≡ some lease =
                      sym (
                        holds-lease secret_hash lease_token acquisition_fingerprint input_hash
                          is_utf8 (expire_lease_if_needed b.terminal x) j.holder other e)
                      ∙ ap (λ (t : Terminal). t.lease) same
                      ∙ held in
                    inr (ground (arith, same, is))
              ]
    ]
  ]

  input_all-Remembers :
      (begun : Terminal) (lease : Lease) (s : ℕ) (receipt : Receipt) (b : Broker)
      (calls : List (Input × ℕ))
      → Remembers begun lease s receipt b.terminal
      → All (λ (call : Input × ℕ). call.1 < lease.summary.expires_at) calls
      → Remembers begun lease s receipt (input_all b calls).terminal
        × ((input_all b calls).target ≡ b.target)
  input_all-Remembers begun lease s receipt b [] m live = (m, refl)
  input_all-Remembers begun lease s receipt b ((j, x) ∷ calls) m live =
      let in_time = subst (λ (u : Summary). x < u.expires_at) (sym m.summary) live.0 in
      let goes = (λ (c : Broker).
        Remembers begun lease s receipt (input_all c calls).terminal
        × ((input_all c calls).target ≡ b.target)) in
      elim (input-live b m.now_lease j x m.held in_time) [
        | inl same ↦
            subst goes (sym same) (input_all-Remembers begun lease s receipt b calls m live.1)
        | inr same ↦ subst goes (sym same) (
            input_all-Remembers begun lease s receipt
              (record b { terminal = (takes_input b.terminal m.now_lease j x).0 }) calls
              (takes-still secret_hash lease_token acquisition_fingerprint input_hash is_utf8 begun
                b.terminal lease s receipt j x m)
              live.1)
      ]

  again :
      (t : Terminal) (lease : Lease) (i : Input) (later : ℕ) (receipt : Receipt) (r : InputResult)
      → i.input_sequence < lease.next_input_sequence
      → lookup i.input_sequence lease.receipts ≡ some receipt
      → receipt.hash ≡ input_hash i.payload
      → receipt.result ≡ r
      → takes_input t lease i later ≡ (t, ok r)
  unfolding accept_input
  again t lease i later receipt r past there hash result =
      ground (arith, there, hash, result, ==_refl (input_hash i.payload))

  remembered_again :
      (b d : Broker) (i : Input) (now later : ℕ) (r : InputResult) (lease after : Lease)
      (receipt : Receipt)
      → Admitted secret_hash lease_token acquisition_fingerprint input_hash is_utf8 b i now lease
      → Remembers b.terminal lease i.input_sequence receipt d.terminal
      → d.target ≡ b.target
      → receipt.hash ≡ input_hash i.payload
      → receipt.result ≡ r
      → later < lease.summary.expires_at
      → d.terminal.lease ≡ some after
      → after.next_input_sequence ≤ i.input_sequence + input_receipt_limit
      → inputs d i later ≡ (d, ok r)
  unfolding assert_running_writable
  remembered_again b d i now later r lease after receipt a m target hash result valid held near =
      let now_lease = m.now_lease in
      let is : some after ≡ some now_lease = sym held ∙ m.held in
      let same : after ≡ now_lease = ground arith in
      let near' : now_lease.next_input_sequence ≤ i.input_sequence + input_receipt_limit =
        subst (λ (l : Lease). l.next_input_sequence ≤ i.input_sequence + input_receipt_limit) same
          near in
      let there : lookup i.input_sequence now_lease.receipts ≡ some receipt = elim m.found [
        | inl gone ↦ absurd (omega (arith, gone, near'))
        | inr found ↦ found
      ] in
      let a' : Admitted secret_hash lease_token acquisition_fingerprint input_hash is_utf8 d i later
          now_lease =
        record {
          target = rw target a.target;
          writable = rw (m.state, m.capabilities) a.writable;
          held = m.held;
          live = subst (λ (x : Summary). later < x.expires_at) (sym m.summary) valid;
          holder =
              holds-same secret_hash lease_token acquisition_fingerprint input_hash is_utf8
                b.terminal d.terminal i.holder lease now_lease a.held m.held m.summary m.token_hash
                a.holder;
        } in
      input-Admitted secret_hash lease_token acquisition_fingerprint input_hash is_utf8 d i later
        now_lease a'
      ∙ ap (λ (x : Terminal × Result InputResult). (record d { terminal = x.0 }, x.1))
          (again d.terminal now_lease i later receipt r m.past there hash result)

  -- An input that is accepted can be sent again, after any further calls of `input`, whoever makes
  -- them and whatever they return: it has the same result, and changes nothing. The receipts of the
  -- lease are numbered up to the next sequence, the lease has not expired at any of these calls, and
  -- it has not gone more than 1024 sequences on from this input.
  pub input_after_others :
      (b c : Broker) (i : Input) (now later : ℕ) (r : InputResult) (lease : Lease)
      (calls : List (Input × ℕ)) (after : Lease)
      → b.terminal.lease ≡ some lease
      → Numbered lease.next_input_sequence lease.receipts
      → inputs b i now ≡ (c, ok r)
      → All (λ (call : Input × ℕ). call.1 < lease.summary.expires_at) calls
      → later < lease.summary.expires_at
      → (input_all c calls).terminal.lease ≡ some after
      → after.next_input_sequence ≤ i.input_sequence + input_receipt_limit
      → inputs (input_all c calls) i later ≡ (input_all c calls, ok r)
  input_after_others b c i now later r lease calls after held numbered e live valid held' near =
      elim (admit secret_hash lease_token acquisition_fingerprint input_hash is_utf8 b i now) [
        | inr (code, failed, kept) ↦ ground arith
        | inl (admitted_lease, admitted) ↦
            let is : some admitted_lease ≡ some lease = sym admitted.held ∙ held in
            let same : admitted_lease ≡ lease = ground arith in
            let a =
              subst
                (λ l.
                  Admitted secret_hash lease_token acquisition_fingerprint input_hash is_utf8 b i
                    now l)
                same admitted in
            let u = (takes_input b.terminal lease i now).0 in
            let done = (takes_input b.terminal lease i now).1 in
            let out : (record b { terminal = u }, done) ≡ (c, ok r) =
              sym (
                input-Admitted secret_hash lease_token acquisition_fingerprint input_hash is_utf8 b
                  i now lease a)
              ∙ e in
            let given : done ≡ ok r = ap (λ (x : Broker × Result InputResult). x.1) out in
            let (receipt, m, hash, result) =
              takes-Remembers secret_hash lease_token acquisition_fingerprint input_hash is_utf8
                b.terminal u lease i now r held numbered (ap (λ d. (u, d)) given) in
            let (m', target) =
              input_all-Remembers b.terminal lease i.input_sequence receipt c calls
                (subst (λ t. Remembers b.terminal lease i.input_sequence receipt t)
                  (ap (λ (x : Broker × Result InputResult). x.0.terminal) out) m)
                live in
            remembered_again b (input_all c calls) i now later r lease after receipt a m'
              (target ∙ sym (ap (λ (x : Broker × Result InputResult). x.0.target) out)) hash result
              valid held' near
      ]
