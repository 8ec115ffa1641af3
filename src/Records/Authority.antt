-- ===== src/Records/Authority.antt =====
-- `AuthorityRef` of packages/protocol/src/authority.ts and `sameAuthority` of
-- packages/control-node-core/src/catalog.ts: the fence that every canonical write carries.
use agent_multiplex.Base.{ℕ, ◌≡◌, ◌↔◌, Bool, true, ◌&&◌, ◌==◌, arith}

pub record AuthorityRef : Type 0 where
  pub realm_id : ℕ
  pub control_node_id : ℕ
  pub epoch_id : ℕ

unfoldable pub same_authority : AuthorityRef → AuthorityRef → Bool
same_authority l r =
    (l.realm_id == r.realm_id)
    && ((l.control_node_id == r.control_node_id) && (l.epoch_id == r.epoch_id))

pub same_authority_iff : (l r : AuthorityRef) → (same_authority l r ≡ true) ↔ (l ≡ r)
unfolding same_authority
same_authority_iff l r = ground arith
