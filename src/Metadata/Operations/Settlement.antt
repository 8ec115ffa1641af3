-- ===== src/Metadata/Operations/Settlement.antt =====
-- The round of a branch's patch: the authority commits it, and its receipt settles it at the branch.
use agent_multiplex.Base.{
  ℕ, inl, inr, ◌<◌, ◌≡◌, ◌∙◌, sym, ap, refl, Bool, true, false, none, some, lookup, lookup-insert,
  ltb, ==_refl, Option-cases, arith,
}
use agent_multiplex.Errors.{ok}
use agent_multiplex.Metadata.{Snapshot, Patch, apply_metadata_patch, contains}
use agent_multiplex.Metadata.Operations.Adopted.{contains-filter}
use agent_multiplex.Metadata.Operations.{
  Operation, Session, Node, is_queued, put_operation, committed_as, enqueue_delivery,
  commit_at_authority, commit_incoming, apply_at_authority, settle_session, settle_known,
  settle_metadata_operation,
}

-- The session of a commit has the snapshot that the receipt tells.
commit-canonical :
    (n : Node) (patch : Patch) (s : Session) (origin created_at now : ℕ)
    → (s' : Session) × ((lookup patch.session_id
            (commit_at_authority n patch s origin created_at now).0.sessions
          ≡ some s')
        × ((s'.metadata ≡ (commit_at_authority n patch s origin created_at now).1.canonical)
            × ((commit_at_authority n patch s origin created_at now).1.session_id
                ≡ patch.session_id)))
unfolding commit_at_authority put_operation enqueue_delivery
commit-canonical n patch s origin created_at now =
    let s' = record s {
      metadata = (committed_as (apply_metadata_patch s.metadata patch)).1.0;
      metadata_authority = n.authority;
      updated_at = now;
    } in
    (
      s',
      (
        ground (
          arith,
          lookup-insert patch.session_id patch.session_id s' n.sessions,
          ==_refl patch.session_id,
        ),
        (refl, refl),
      ),
    )

-- A settlement that is ahead of the session.
settle_session-canonical :
    (n : Node) (o : Operation) (s : Session) (now : ℕ)
    → s.metadata.revision < o.canonical.revision
    → (s' : Session) × ((lookup o.session_id (settle_session n o s now).sessions ≡ some s')
        × ((s'.metadata ≡ o.canonical)
            × (contains o.operation_id (settle_session n o s now).outbox ≡ false)))
unfolding settle_session put_operation enqueue_delivery
settle_session-canonical n o s now l =
    let s' = record s {
      metadata = o.canonical;
      metadata_authority = o.authority;
      updated_at = now;
    } in
    let ahead : ltb s.metadata.revision o.canonical.revision ≡ true = ground arith in
    (
      s',
      (
        ground (
          arith,
          ahead,
          lookup-insert o.session_id o.session_id s' n.sessions,
          ==_refl o.session_id,
        ),
        (refl, ground (arith, ahead, contains-filter o.operation_id n.outbox)),
      ),
    )

-- The two sides of a session after the round.
pub record Converged (branch authority : Node) (session_id operation_id : ℕ) : Type 0 where
  pub at_branch : Session
  pub at_authority : Session
  pub branch_has : lookup session_id branch.sessions ≡ some at_branch
  pub authority_has : lookup session_id authority.sessions ≡ some at_authority
  pub same : at_branch.metadata ≡ at_authority.metadata
  pub settled : contains operation_id branch.outbox ≡ false

module _ (patch_json : Patch → ℕ) (snapshot_json : Snapshot → ℕ)
    (operation_json : Operation → ℕ) where
  apply-canonical :
      (n n' : Node) (incoming receipt : Operation) (now : ℕ)
      → lookup incoming.operation_id n.operations ≡ none
      → apply_at_authority patch_json n incoming now ≡ ok (n', receipt)
      → (s : Session) × ((lookup receipt.session_id n'.sessions ≡ some s)
          × (s.metadata ≡ receipt.canonical))
  unfolding apply_at_authority commit_incoming
  apply-canonical n n' incoming receipt now new e =
      elim (Option-cases (lookup incoming.session_id n.sessions)) [
        | inl none_there ↦ absurd (ground (arith, new, none_there))
        | inr (s, there) ↦
            let patch = incoming.patch in
            let given =
              commit_at_authority n patch s incoming.origin_control_node_id incoming.created_at
                now in
            let same : given ≡ (n', receipt) = ground (arith, new, there) in
            let (s', (found, (canonical, id))) =
              commit-canonical n patch s incoming.origin_control_node_id incoming.created_at now in
            let known : lookup given.1.session_id given.0.sessions ≡ some s' =
              ap (λ i. lookup i given.0.sessions) id ∙ found in
            (
              s',
              (
                ap (λ (r : Node × Operation). lookup r.1.session_id r.0.sessions) (sym same)
                    ∙ known,
                canonical ∙ ap (λ (r : Node × Operation). r.1.canonical) same,
              ),
            )
      ]

  -- An authority commits an operation that is new to it, and gives a receipt. A branch at which the
  -- operation is queued, and whose session is behind the receipt, settles it. Then branch and
  -- authority have the same metadata of the session, and the operation has left the branch's outbox.
  pub settle-apply_converges :
      (authority authority' branch branch' : Node) (incoming receipt mine given : Operation)
      (s : Session) (authenticated_parent : Bool) (now later : ℕ)
      → lookup incoming.operation_id authority.operations ≡ none
      → apply_at_authority patch_json authority incoming now ≡ ok (authority', receipt)
      → lookup receipt.operation_id branch.operations ≡ some mine
      → is_queued mine.status ≡ true
      → lookup receipt.session_id branch.sessions ≡ some s
      → s.metadata.revision < receipt.canonical.revision
      → settle_metadata_operation patch_json snapshot_json operation_json branch receipt
          authenticated_parent later
        ≡ ok (branch', given)
      → Converged branch' authority' receipt.session_id receipt.operation_id
  unfolding settle_metadata_operation settle_known
  settle-apply_converges authority authority' branch branch' incoming receipt mine given s
        authenticated_parent now later new applied there q found l e =
      let (at_authority, (has, canonical)) =
        apply-canonical authority authority' incoming receipt now new applied in
      let settled : settle_session branch receipt s later ≡ branch' =
        ground (arith, there, q, found) in
      let (at_branch, (branch_has, (same, gone))) =
        settle_session-canonical branch receipt s later l in
      record {
        at_branch = at_branch;
        at_authority = at_authority;
        branch_has =
            ap (λ (n : Node). lookup receipt.session_id n.sessions) (sym settled) ∙ branch_has;
        authority_has = has;
        same = same ∙ sym canonical;
        settled = ap (λ (n : Node). contains receipt.operation_id n.outbox) (sym settled) ∙ gone;
      }
