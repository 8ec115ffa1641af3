-- ===== src/Metadata/Operations/Monotone.antt =====
-- Canonical metadata only moves forward, over every sequence of calls.
use agent_multiplex.Base.{
  ℕ, ◌≡◌, ◌∙◌, ap, refl, subst, inl, inr, Bool, true, false, some, List, [], ◌∷◌, lookup, ltb,
  Bool-cases, Option-cases, arith,
}
use agent_multiplex.Errors.{Result, ok, err, Result-cases}
use agent_multiplex.Metadata.{Snapshot, Patch}
use agent_multiplex.Metadata.Operations.{
  Operation, Session, Node, is_queued, put_operation, enqueue_delivery, commit_at_authority,
  propose, adopt, submit_new, submit_metadata_patch, commit_incoming, apply_at_authority,
  settle_session, settle_known, settle_metadata_operation, valid_operation,
}
use agent_multiplex.Metadata.Operations.Advance.{
  Later, Advances, Moves, Moves-Later, commit-Advances,
}

-- The calls that change metadata, with the clock's reading.
pub data Call : Type 0 where
  submit : Patch → (origin now : ℕ) → Call
  apply : Operation → (now : ℕ) → Call
  settle : Operation → (authenticated_parent : Bool) (now : ℕ) → Call

-- A call that throws leaves the node.
abbrev pub node_after : Node → Result (Node × Operation) → Node
node_after n (err code) = n
node_after n (ok r) = r.0

module _ (patch_json : Patch → ℕ) (snapshot_json : Snapshot → ℕ)
    (operation_json : Operation → ℕ) where
  pub call : Node → Call → Result (Node × Operation)
  call n (submit patch origin now) = submit_metadata_patch patch_json n patch origin now
  call n (apply o now) = apply_at_authority patch_json n o now
  call n (settle o authenticated_parent now) =
      settle_metadata_operation patch_json snapshot_json operation_json n o authenticated_parent now

  pub run : Node → List Call → Node
  run n [] = n
  run n (c ∷ cs) = run (node_after n (call n c)) cs

  submit-Moves :
      (n n' : Node) (patch : Patch) (origin now : ℕ) (o : Operation)
      → submit_metadata_patch patch_json n patch origin now ≡ ok (n', o)
      → Moves n n'
  unfolding submit_metadata_patch submit_new propose put_operation adopt
  submit-Moves n n' patch origin now o e =
      elim (Option-cases (lookup patch.operation_id n.operations)) [
        | inr (stored, there) ↦ inl (ground (arith, there))
        | inl new ↦ elim (Option-cases (lookup patch.session_id n.sessions)) [
          | inl none_there ↦ absurd (ground (arith, new, none_there))
          | inr (s, there) ↦ elim (Bool-cases n.is_branch) [
            | inl b ↦ inl (ground (arith, new, there, b))
            | inr b ↦
                let given = commit_at_authority n patch s origin now now in
                let same : given.0 ≡ n' = ground (arith, new, there, b) in
                let (s', a) = commit-Advances n patch s origin now now there in
                inr (
                  patch.session_id,
                  s,
                  s',
                  subst (λ (m : Node). Advances n m patch.session_id s s') same a,
                )
          ]
        ]
      ]

  commit_incoming-Moves :
      (n n' : Node) (incoming : Operation) (now : ℕ) (o : Operation)
      → valid_operation incoming ≡ true
      → commit_incoming patch_json n incoming now ≡ ok (n', o)
      → Moves n n'
  unfolding commit_incoming valid_operation
  commit_incoming-Moves n n' incoming now o v e =
      elim (Option-cases (lookup incoming.session_id n.sessions)) [
        | inl none_there ↦ absurd (ground (arith, none_there))
        | inr (s, there) ↦
            let patch = incoming.patch in
            let is : patch.session_id ≡ incoming.session_id = ground arith in
            let there' : lookup patch.session_id n.sessions ≡ some s =
              ap (λ id. lookup id n.sessions) is ∙ there in
            let given =
              commit_at_authority n patch s incoming.origin_control_node_id incoming.created_at
                now in
            let same : given.0 ≡ n' = ground (arith, there) in
            let (s', a) =
              commit-Advances n patch s incoming.origin_control_node_id incoming.created_at now
                there' in
            inr (
              patch.session_id,
              s,
              s',
              subst (λ (m : Node). Advances n m patch.session_id s s') same a,
            )
      ]

  apply-Moves :
      (n n' : Node) (incoming : Operation) (now : ℕ) (o : Operation)
      → apply_at_authority patch_json n incoming now ≡ ok (n', o)
      → Moves n n'
  unfolding apply_at_authority
  apply-Moves n n' incoming now o e = elim (Bool-cases (valid_operation incoming)) [
    | inr invalid ↦ absurd (ground (arith, invalid))
    | inl v ↦ elim (Option-cases (lookup incoming.operation_id n.operations)) [
      | inl new ↦ commit_incoming-Moves n n' incoming now o v (ground (arith, new, v))
      | inr (stored, there) ↦ elim (Bool-cases (is_queued stored.status)) [
        | inl q ↦ commit_incoming-Moves n n' incoming now o v (ground (arith, there, v, q))
        | inr q ↦ inl (ground (arith, there, v, q))
      ]
    ]
  ]

  settle_session-Moves :
      (n : Node) (o : Operation) (s : Session) (now : ℕ)
      → lookup o.session_id n.sessions ≡ some s
      → Moves n (settle_session n o s now)
  unfolding settle_session enqueue_delivery put_operation
  settle_session-Moves n o s now there =
      elim (Bool-cases (ltb s.metadata.revision o.canonical.revision)) [
        | inr l ↦ inl (ground (arith, l))
        | inl l ↦
            let s' = record s {
              metadata = o.canonical;
              metadata_authority = o.authority;
              updated_at = now;
            } in
            inr (
              o.session_id,
              s,
              s',
              record { sessions = ground (arith, l); found = there; newer = ground (arith, l) },
            )
      ]

  settle_known-Moves :
      (n n' : Node) (o : Operation) (is_known authenticated_parent : Bool) (now : ℕ) (r : Operation)
      → settle_known snapshot_json n o is_known authenticated_parent now ≡ ok (n', r)
      → Moves n n'
  unfolding settle_known
  settle_known-Moves n n' o is_known authenticated_parent now r e =
      elim (Option-cases (lookup o.session_id n.sessions)) [
        | inl none_there ↦ absurd (ground (arith, none_there))
        | inr (s, there) ↦
            let same : settle_session n o s now ≡ n' = ground (arith, there) in
            subst (Moves n) same (settle_session-Moves n o s now there)
      ]

  settle-Moves :
      (n n' : Node) (o : Operation) (authenticated_parent : Bool) (now : ℕ) (r : Operation)
      → settle_metadata_operation patch_json snapshot_json operation_json n o authenticated_parent
          now
        ≡ ok (n', r)
      → Moves n n'
  unfolding settle_metadata_operation
  settle-Moves n n' o authenticated_parent now r e =
      elim (Option-cases (lookup o.operation_id n.operations)) [
        | inl new ↦ settle_known-Moves n n' o false authenticated_parent now r (ground (arith, new))
        | inr (stored, there) ↦ elim (Bool-cases (is_queued stored.status)) [
          | inl q ↦
              settle_known-Moves n n' o true authenticated_parent now r (ground (arith, there, q))
          | inr q ↦ inl (ground (arith, there, q))
        ]
      ]

  call-Moves : (n : Node) (c : Call) → Moves n (node_after n (call n c))
  unfolding call
  call-Moves n (submit patch origin now) = elim (Result-cases (call n (submit patch origin now))) [
    | inl (r, e) ↦ rw e (submit-Moves n r.0 patch origin now r.1 e)
    | inr (code, e) ↦ rw e (inl refl)
  ]
  call-Moves n (apply o now) = elim (Result-cases (call n (apply o now))) [
    | inl (r, e) ↦ rw e (apply-Moves n r.0 o now r.1 e)
    | inr (code, e) ↦ rw e (inl refl)
  ]
  call-Moves n (settle o authenticated_parent now) =
      elim (Result-cases (call n (settle o authenticated_parent now))) [
        | inl (r, e) ↦ rw e (settle-Moves n r.0 o authenticated_parent now r.1 e)
        | inr (code, e) ↦ rw e (inl refl)
      ]

  -- Over every sequence of submissions, commits of an authority and settlements, at an authority or a
  -- branch, the revision of a session's canonical metadata never falls, and no session is lost.
  pub run-Later :
      (n : Node) (cs : List Call) (session_id : ℕ) (s : Session)
      → lookup session_id n.sessions ≡ some s
      → Later session_id s (run n cs)
  unfolding run
  run-Later n [] session_id s e = (s, (e, omega arith))
  run-Later n (c ∷ cs) session_id s e =
      let n' = node_after n (call n c) in
      let (t, (there, newer)) = Moves-Later n n' (call-Moves n c) session_id s e in
      let (u, (there', newer')) = run-Later n' cs session_id t there in
      (u, (there', omega (arith, newer, newer')))
