-- ===== src/Metadata/Operations/Stored.antt =====
-- What a submission that succeeds has stored.
use agent_multiplex.Base.{
  ℕ, ◌≡◌, ◌∙◌, sym, ap, refl, subst, ◌⊎◌, inl, inr, false, some, insert, lookup, lookup-insert,
  ◌==◌, ==_refl, Bool-cases, Option-cases, arith,
}
use agent_multiplex.Errors.{ok}
use agent_multiplex.Metadata.{Patch}
use agent_multiplex.Metadata.Operations.{
  Operation, Session, Node, put_operation, enqueue_delivery, commit_at_authority, propose, adopt,
  submit_new, submit_metadata_patch,
}
use agent_multiplex.Metadata.Operations.Adopted.{
  contains-filter, contains-last, adopt-Stands, is_adopted, Stands,
}

-- The journal has its operations under their identifiers.
abbrev pub Keyed : Node → Type 0
Keyed m =
    (id : ℕ) (stored : Operation) → lookup id m.operations ≡ some stored → stored.operation_id ≡ id

put-Keyed :
    (m m' : Node) (o : Operation)
    → m'.operations ≡ insert o.operation_id o m.operations
    → Keyed m
    → Keyed m'
put-Keyed m m' o same k id stored e =
    let there : lookup id (insert o.operation_id o m.operations) ≡ some stored =
      ap (λ t. lookup id t) (sym same) ∙ e in
    elim (Bool-cases (o.operation_id == id)) [
      | inl here ↦ ground (arith, lookup-insert o.operation_id id o m.operations)
      | inr other ↦ k id stored (ground (arith, lookup-insert o.operation_id id o m.operations))
    ]

pub adopt-Keyed : (m : Node) (o : Operation) → Keyed m → Keyed (adopt m o)
unfolding adopt put_operation
adopt-Keyed m o k = elim (Bool-cases (is_adopted m o)) [
  | inl adopted ↦ let same : m ≡ adopt m o = ground arith in subst (λ x. Keyed x) same k
  | inr left ↦ put-Keyed m (adopt m o) o (ground arith) k
]

module _ (patch_json : Patch → ℕ) where
  -- What the first submission has stored.
  pub record Stored (n m : Node) (o : Operation) (patch : Patch) (origin : ℕ) : Type 0 where
    pub stands : Stands n m o
    pub key : o.operation_id ≡ patch.operation_id
    pub same_patch : patch_json o.patch ≡ patch_json patch
    pub same_origin : o.origin_control_node_id ≡ origin
    pub keyed : Keyed m

  propose-Stored :
      (n : Node) (patch : Patch) (s : Session) (origin now : ℕ)
      → Keyed n
      → Stored n (propose n patch s origin now).0 (propose n patch s origin now).1 patch origin
  unfolding propose put_operation
  propose-Stored n patch s origin now k =
      let o = (propose n patch s origin now).1 in
      record {
        stands = record {
          found = ground (
            arith,
            lookup-insert patch.operation_id patch.operation_id o n.operations,
            ==_refl patch.operation_id,
          );
          adopted = ground (
            arith,
            contains-filter patch.operation_id n.projected,
            contains-last patch.operation_id n.outbox,
          );
          authority = refl;
        };
        key = refl;
        same_patch = refl;
        same_origin = refl;
        keyed = put-Keyed n (propose n patch s origin now).0 o refl k;
      }

  commit-Stored :
      (n : Node) (patch : Patch) (s : Session) (origin created_at now : ℕ)
      → n.is_branch ≡ false
      → Keyed n
      → Stored n
          (commit_at_authority n patch s origin created_at now).0
          (commit_at_authority n patch s origin created_at now).1
          patch
          origin
  unfolding commit_at_authority put_operation enqueue_delivery
  commit-Stored n patch s origin created_at now b k =
      let o = (commit_at_authority n patch s origin created_at now).1 in
      record {
        stands = record {
          found = ground (
            arith,
            lookup-insert patch.operation_id patch.operation_id o n.operations,
            ==_refl patch.operation_id,
          );
          adopted = ground (arith, b);
          authority = ground arith;
        };
        key = refl;
        same_patch = refl;
        same_origin = refl;
        keyed =
            put-Keyed n (commit_at_authority n patch s origin created_at now).0 o (ground arith) k;
      }

  -- How a submission succeeds.
  pub submit-cases :
      (m m' : Node) (q : Patch) (origin now : ℕ) (p : Operation)
      → submit_metadata_patch patch_json m q origin now ≡ ok (m', p)
      → ((lookup q.operation_id m.operations ≡ some p)
          × (adopt m p ≡ m')
          × (patch_json p.patch ≡ patch_json q)
          × (p.origin_control_node_id ≡ origin))
        ⊎ ((s : Session) × (propose m q s origin now ≡ (m', p)))
        ⊎ ((s : Session) × (m.is_branch ≡ false)
            × (commit_at_authority m q s origin now now ≡ (m', p)))
  unfolding submit_metadata_patch submit_new
  submit-cases m m' q origin now p e = elim (Option-cases (lookup q.operation_id m.operations)) [
    | inr (stored, there) ↦
        inl (
          ground (arith, there),
          ground (arith, there),
          ground (arith, there),
          ground (arith, there),
        )
    | inl new ↦ elim (Option-cases (lookup q.session_id m.sessions)) [
      | inl missing ↦ absurd (ground (arith, new, missing))
      | inr (s, there) ↦ elim (Bool-cases m.is_branch) [
        | inl b ↦ inr (inl (s, ground (arith, new, there, b)))
        | inr b ↦ inr (inr (s, b, ground (arith, new, there, b)))
      ]
    ]
  ]

  pub submit-Stored :
      (n n' : Node) (patch : Patch) (origin now : ℕ) (o : Operation)
      → Keyed n
      → submit_metadata_patch patch_json n patch origin now ≡ ok (n', o)
      → Stored n n' o patch origin
  submit-Stored n n' patch origin now o k e = elim (submit-cases n n' patch origin now o e) [
    | inr (inl (s, same)) ↦
        subst (λ (r : Node × Operation). Stored n r.0 r.1 patch origin) same
          (propose-Stored n patch s origin now k)
    | inr (inr (s, b, same)) ↦
        subst (λ (r : Node × Operation). Stored n r.0 r.1 patch origin) same
          (commit-Stored n patch s origin now now b k)
    | inl (there, same, text, from) ↦
        let key = k patch.operation_id o there in
        subst (λ m. Stored n m o patch origin) same
          record {
            stands = adopt-Stands n o (ap (λ id. lookup id n.operations) key ∙ there);
            key = key;
            same_patch = text;
            same_origin = from;
            keyed = adopt-Keyed n o k;
          }
  ]
