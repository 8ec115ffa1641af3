-- ===== src/Metadata/Operations/Adopted.antt =====
-- What a later operation leaves of an earlier one in the journal and the outbox.
use agent_multiplex.Base.{
  ℕ, ◌≡◌, refl, true, false, ◌&&◌, ◌||◌, not, Bool, some, List, [], ◌∷◌, ◌++◌, filter, lookup,
  lookup-insert, ◌==◌, ==_refl, arith,
}
use agent_multiplex.Metadata.{Patch, contains}
use agent_multiplex.Metadata.Operations.{
  Operation, Session, Node, is_queued, put_operation, add_once, enqueue_delivery,
  commit_at_authority, propose, adopt,
}

pub contains-filter :
    (id : ℕ) (ids : List ℕ) → contains id (filter (λ x. not (x == id)) ids) ≡ false
contains-filter id [] = refl
contains-filter id (x ∷ ids) = ground (arith, contains-filter id ids)

contains-other :
    (id other : ℕ) (ids : List ℕ)
    → contains id ids ≡ false
    → contains id (filter (λ x. not (x == other)) ids) ≡ false
contains-other id other [] e = refl
contains-other id other (x ∷ ids) e = ground (arith, contains-other id other ids)

contains-more :
    (id other : ℕ) (ids : List ℕ) → contains id ids ≡ true → contains id (ids ++ other ∷ []) ≡ true
contains-more id other [] e = ground arith
contains-more id other (x ∷ ids) e = ground (arith, contains-more id other ids)

contains-add_more :
    (id other : ℕ) (ids : List ℕ) → contains id ids ≡ true → contains id (add_once other ids) ≡ true
contains-add_more id other ids e = ground (arith, contains-more id other ids e)

pub contains-last : (id : ℕ) (ids : List ℕ) → contains id (ids ++ id ∷ []) ≡ true
contains-last id [] = ground (arith, ==_refl id)
contains-last id (x ∷ ids) = ground (arith, contains-last id ids)

contains-added : (id : ℕ) (ids : List ℕ) → contains id (add_once id ids) ≡ true
contains-added id ids = ground (arith, contains-last id ids)

-- Nothing of the operation is left to adopt.
abbrev pub is_adopted : Node → Operation → Bool
is_adopted n o = not (
    n.is_branch
    && (is_queued o.status
        && (contains o.operation_id n.projected || not (contains o.operation_id n.outbox))))

pub adopt-adopted : (m : Node) (o : Operation) → is_adopted m o ≡ true → adopt m o ≡ m
unfolding adopt
adopt-adopted m o e = ground arith

-- The journal has the operation, which the node has adopted, under the node's authority.
pub record Stands (n m : Node) (o : Operation) : Type 0 where
  pub found : lookup o.operation_id m.operations ≡ some o
  pub adopted : is_adopted m o ≡ true
  pub authority : m.authority ≡ n.authority

pub adopt-Stands :
    (m : Node) (o : Operation)
    → lookup o.operation_id m.operations ≡ some o
    → Stands m (adopt m o) o
unfolding adopt put_operation
adopt-Stands m o e = record {
  found =
      ground
        (arith, lookup-insert o.operation_id o.operation_id o m.operations, ==_refl o.operation_id);
  adopted =
      ground
        (arith, contains-filter o.operation_id m.projected, contains-added o.operation_id m.outbox);
  authority = ground arith;
}

pub adopt-other :
    (n m : Node) (o other : Operation)
    → (other.operation_id == o.operation_id) ≡ false
    → Stands n m o
    → Stands n (adopt m other) o
unfolding adopt put_operation
adopt-other n m o other e s = record {
  found =
      ground (arith, s.found, lookup-insert other.operation_id o.operation_id other m.operations);
  adopted = ground (
    arith,
    s.adopted,
    contains-other o.operation_id other.operation_id m.projected,
    contains-add_more o.operation_id other.operation_id m.outbox,
  );
  authority = ground (arith, s.authority);
}

pub propose-other :
    (n m : Node) (o : Operation) (q : Patch) (s : Session) (origin now : ℕ)
    → (q.operation_id == o.operation_id) ≡ false
    → Stands n m o
    → Stands n (propose m q s origin now).0 o
unfolding propose put_operation
propose-other n m o q s origin now e st = record {
  found = ground (
    arith,
    st.found,
    lookup-insert q.operation_id o.operation_id (propose m q s origin now).1 m.operations,
  );
  adopted = ground (
    arith,
    st.adopted,
    contains-other o.operation_id q.operation_id m.projected,
    contains-more o.operation_id q.operation_id m.outbox,
  );
  authority = st.authority;
}

pub commit-other :
    (n m : Node) (o : Operation) (q : Patch) (s : Session) (origin created_at now : ℕ)
    → (q.operation_id == o.operation_id) ≡ false
    → m.is_branch ≡ false
    → Stands n m o
    → Stands n (commit_at_authority m q s origin created_at now).0 o
unfolding commit_at_authority put_operation enqueue_delivery
commit-other n m o q s origin created_at now e b st = record {
  found = ground (
    arith,
    st.found,
    lookup-insert q.operation_id o.operation_id (commit_at_authority m q s origin created_at now).1
        m.operations,
  );
  adopted = ground (arith, b);
  authority = ground (arith, st.authority);
}
