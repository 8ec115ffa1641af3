-- ===== src/Metadata/Operations/Advance.antt =====
-- What one call makes of the sessions of a node: at most one session's metadata, and never back.
use agent_multiplex.Base.{
  ℕ, ◌≤◌, ◌≡◌, ◌∙◌, sym, ap, refl, ◌⊎◌, inl, inr, some, List, [], ◌∷◌, lookup, insert,
  lookup-insert, ◌==◌, Bool-cases, arith,
}
use agent_multiplex.Metadata.{
  Snapshot, Patch, Conflict, next_snapshot, decide_patch, find_conflicts, apply_metadata_patch,
  or_empty,
}
use agent_multiplex.Metadata.Operations.{
  Session, Node, put_operation, committed_as, enqueue_delivery, commit_at_authority,
}

-- The session's metadata after a call, which is no older.
abbrev pub Later : ℕ → Session → Node → Type 0
Later session_id s n' =
    (s' : Session) × ((lookup session_id n'.sessions ≡ some s')
      × (s.metadata.revision ≤ s'.metadata.revision))

-- Sessions are as they were but for one, whose metadata is no older.
pub record Advances (n n' : Node) (session_id : ℕ) (s s' : Session) : Type 0 where
  pub sessions : n'.sessions ≡ insert session_id s' n.sessions
  pub found : lookup session_id n.sessions ≡ some s
  pub newer : s.metadata.revision ≤ s'.metadata.revision

Advances-Later :
    (n n' : Node) (changed : ℕ) (s s' : Session)
    → Advances n n' changed s s'
    → (session_id : ℕ) (t : Session) → lookup session_id n.sessions ≡ some t
    → Later session_id t n'
Advances-Later n n' changed s s' a session_id t e =
    let inserted = lookup-insert changed session_id s' n.sessions in
    elim (Bool-cases (changed == session_id)) [
      | inl same ↦
          let is : changed ≡ session_id = ground arith in
          let which : some t ≡ some s =
            sym e ∙ ap (λ id. lookup id n.sessions) (sym is) ∙ a.found in
          let t_is : t ≡ s = ground (arith, which) in
          (s', (ground (arith, a.sessions, inserted), ground (arith, a.newer, t_is)))
      | inr other ↦ (t, (ground (arith, a.sessions, inserted, e), omega arith))
    ]

same-Later :
    (n n' : Node) (session_id : ℕ) (t : Session)
    → n'.sessions ≡ n.sessions
    → lookup session_id n.sessions ≡ some t
    → Later session_id t n'
same-Later n n' session_id t same e = (t, (ground (arith, same, e), omega arith))

committed_as-newer :
    (s : Snapshot) (patch : Patch)
    → s.revision ≤ (committed_as (apply_metadata_patch s patch)).1.0.revision
unfolding apply_metadata_patch decide_patch next_snapshot
committed_as-newer s patch = by_conflicts (find_conflicts s (or_empty patch.if_key_revision)) refl
  where
    by_conflicts :
        (l : List Conflict)
        → find_conflicts s (or_empty patch.if_key_revision) ≡ l
        → s.revision ≤ (committed_as (apply_metadata_patch s patch)).1.0.revision
    by_conflicts [] e = ground (arith, e)
    by_conflicts (c ∷ l) e = ground (arith, e)

enqueue_delivery-sessions :
    (s : Session) (id : ℕ) (n : Node) → (enqueue_delivery s id n).sessions ≡ n.sessions
unfolding enqueue_delivery
enqueue_delivery-sessions s id n = ground arith

pub commit-Advances :
    (n : Node) (patch : Patch) (s : Session) (origin created_at now : ℕ)
    → lookup patch.session_id n.sessions ≡ some s
    → (s' : Session) × Advances n
        (commit_at_authority n patch s origin created_at now).0
        patch.session_id
        s
        s'
unfolding commit_at_authority put_operation enqueue_delivery
commit-Advances n patch s origin created_at now e =
    let snapshot = (committed_as (apply_metadata_patch s.metadata patch)).1.0 in
    (
      record s { metadata = snapshot; metadata_authority = n.authority; updated_at = now },
      record { sessions = ground arith; found = e; newer = committed_as-newer s.metadata patch },
    )

-- A call gives a node whose sessions are the same, or one of which has advanced.
abbrev pub Moves : Node → Node → Type 0
Moves n n' =
    (n'.sessions ≡ n.sessions)
    ⊎ ((session_id : ℕ) × (s : Session) × (s' : Session) × Advances n n' session_id s s')

pub Moves-Later :
    (n n' : Node)
    → Moves n n'
    → (session_id : ℕ) (t : Session) → lookup session_id n.sessions ≡ some t
    → Later session_id t n'
Moves-Later n n' (inl same) session_id t e = same-Later n n' session_id t same e
Moves-Later n n' (inr (changed, s, s', a)) session_id t e =
    Advances-Later n n' changed s s' a session_id t e
