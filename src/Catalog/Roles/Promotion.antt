-- ===== src/Catalog/Roles/Promotion.antt =====
-- What a promotion rests on, and what it does.
use agent_multiplex.Base.{
  ℕ, ◌≡◌, ◌↔◌, ◌⊎◌, inl, inr, refl, ap, subst, Bool, true, none, some, ◌++◌, Option-cases, List, [],
  ◌∷◌, map, All, arith,
}
use agent_multiplex.Errors.{ok, Result-cases}
use agent_multiplex.Records.Authority.{AuthorityRef, same_authority_iff}
use agent_multiplex.Catalog.Feed.{Feed, append_control, rotate_control_feed}
use agent_multiplex.Catalog.Roles.{
  Lineage, Role, authority_role, attached, detached, same_lineage, same_role, Kind, attaches,
  detaches, force_detaches, promotes, Transition, Change, upserts, reports_promoted, Node, emit,
  set_role, rewrite_subtree_authority, PromoteInput, Fresh, find_transition, check_detachment,
  take_authority, promote,
}

pub same_lineage_iff : (l r : Lineage) → (same_lineage l r ≡ true) ↔ (l ≡ r)
unfolding same_lineage
same_lineage_iff l r = ground arith

pub same_role_lem : (a b : Role) → same_role a b ≡ true → a ≡ b
unfolding same_role
same_role_lem (authority_role a) (authority_role b) h = ground (arith, same_authority_iff a b)
same_role_lem (authority_role a) (attached b l) h = ground arith
same_role_lem (authority_role a) (detached b l t) h = ground arith
same_role_lem (attached a l) (authority_role b) h = ground arith
same_role_lem (attached a l) (attached b r) h =
    ground (arith, same_authority_iff a b, same_lineage_iff l r)
same_role_lem (attached a l) (detached b r t) h = ground arith
same_role_lem (detached a l s) (authority_role b) h = ground arith
same_role_lem (detached a l s) (attached b r) h = ground arith
same_role_lem (detached a l s) (detached b r t) h =
    ground (arith, same_authority_iff a b, same_lineage_iff l r)

-- What a promotion has done, and what it rests on.
pub record Promoted (n : Node) (input : PromoteInput) (fresh : Fresh) (m : Node) : Type 0 where
  pub old : AuthorityRef
  pub branch : Lineage
  pub at : ℕ
  pub was : n.role ≡ detached old branch at
  pub expected : input.expected_authority ≡ old
  pub detachment : Transition
  pub found : find_transition input.detachment_transition_id n.transitions ≡ some detachment
  pub current : detachment.after ≡ n.role
  pub audited :
      (detachment.kind ≡ detaches)
      ⊎ ((detachment.kind ≡ force_detaches) × (input.has_forced_detachment_audit ≡ true))
  pub authority : AuthorityRef
  pub owner : authority.control_node_id ≡ n.control_node_id
  pub is : m.role ≡ authority_role authority
  pub sessions : All (λ (s : ℕ × AuthorityRef). s.1 ≡ authority) m.session_authorities
  pub feed_id : m.feed.feed_id ≡ fresh.feed_id
  pub events :
      m.feed.events
      ≡ (1, reports_promoted fresh.transition_id) ∷ (2, upserts (authority_role authority)) ∷ []
  pub cursor : m.feed.last_cursor ≡ 2
  pub all_replayable : m.feed.minimum_cursor ≡ 0
  pub recorded :
      m.transitions
      ≡ n.transitions
        ++ record {
          transition_id = fresh.transition_id;
          kind = promotes;
          before = n.role;
          after = authority_role authority;
        }
          ∷ []
  pub upstream : m.desired_upstream ≡ none

abbrev new_authority : Node → Fresh → AuthorityRef
new_authority n fresh = record {
  realm_id = fresh.realm_id;
  control_node_id = n.control_node_id;
  epoch_id = fresh.epoch_id;
}

all_rewritten :
    (a : AuthorityRef) (l : List (ℕ × AuthorityRef))
    → All (λ (s : ℕ × AuthorityRef). s.1 ≡ a) (map (λ (s : ℕ × AuthorityRef). (s.0, a)) l)
all_rewritten a [] = tt
all_rewritten a (s ∷ l) = (refl, all_rewritten a l)

new_feed :
    (n : Node) (fresh : Fresh)
    → (take_authority n fresh).feed ≡ record {
      feed_id = fresh.feed_id;
      events =
          (1, reports_promoted fresh.transition_id)
          ∷ (2, upserts (authority_role (new_authority n fresh)))
          ∷ [];
      last_cursor = 2;
      minimum_cursor = 0;
      published_cursor = 0;
    }
unfolding take_authority set_role rewrite_subtree_authority emit append_control rotate_control_feed
new_feed n fresh = refl

taken :
    (n : Node) (fresh : Fresh)
    → ((take_authority n fresh).role ≡ authority_role (new_authority n fresh))
      × All
          (λ (s : ℕ × AuthorityRef). s.1 ≡ new_authority n fresh)
          (take_authority n fresh).session_authorities
      × ((take_authority n fresh).transitions
          ≡ n.transitions
            ++ record {
              transition_id = fresh.transition_id;
              kind = promotes;
              before = n.role;
              after = authority_role (new_authority n fresh);
            }
              ∷ [])
      × ((take_authority n fresh).desired_upstream ≡ none)
unfolding take_authority set_role rewrite_subtree_authority emit
taken n fresh = (refl, all_rewritten (new_authority n fresh) n.session_authorities, refl, refl)

check_detachment_lem :
    (t : Transition) (o : Role) (audited : Bool) (k : Kind)
    → t.kind ≡ k
    → check_detachment t o audited ≡ ok tt
    → (t.after ≡ o) × ((t.kind ≡ detaches) ⊎ ((t.kind ≡ force_detaches) × (audited ≡ true)))
check_detachment_lem t o audited attaches is e = ground arith
check_detachment_lem t o audited promotes is e = ground arith
check_detachment_lem t o audited detaches is e = (same_role_lem t.after o (ground arith), inl is)
check_detachment_lem t o audited force_detaches is e =
    (same_role_lem t.after o (ground arith), inr (is, ground arith))

-- A promotion that succeeds was of a detached branch under the authority that the caller expects,
-- and named a recorded detachment into this very role, acknowledged if it was forced. It makes the
-- node an authority that it owns itself, gives every session that authority, records the transition,
-- leaves no upstream, and replaces the control feed by a new one whose rows are exactly two: the
-- promotion at cursor 1 and the new role at cursor 2.
pub promote_lem :
    (n m : Node) (input : PromoteInput) (fresh : Fresh)
    → promote n input fresh ≡ ok m
    → Promoted n input fresh m
unfolding promote
promote_lem n m input fresh e = promoted n.role refl
  where
    promoted : (o : Role) → n.role ≡ o → Promoted n input fresh m
    promoted (authority_role old) was = ground arith
    promoted (attached old branch) was = ground arith
    promoted (detached old branch at) was =
        elim (Option-cases (find_transition input.detachment_transition_id n.transitions)) [
          | inl missing ↦ ground arith
          | inr (t, found) ↦
              elim (Result-cases (check_detachment t n.role input.has_forced_detachment_audit)) [
                | inr (code, failed) ↦ ground arith
                | inl (_, passed) ↦
                    let (current, audited) =
                      check_detachment_lem t n.role input.has_forced_detachment_audit t.kind refl
                        passed in
                    let feed = new_feed n fresh in
                    let same : take_authority n fresh ≡ m = ground arith in
                    subst (λ x. Promoted n input fresh x) same
                      record {
                        old = old;
                        branch = branch;
                        at = at;
                        was = was;
                        expected = ground (arith, same_authority_iff input.expected_authority old);
                        detachment = t;
                        found = found;
                        current = current;
                        audited = audited;
                        authority = new_authority n fresh;
                        owner = refl;
                        is = (taken n fresh).0;
                        sessions = (taken n fresh).1;
                        feed_id = ap (λ (f : Feed Change). f.feed_id) feed;
                        events = ap (λ (f : Feed Change). f.events) feed;
                        cursor = ap (λ (f : Feed Change). f.last_cursor) feed;
                        all_replayable = ap (λ (f : Feed Change). f.minimum_cursor) feed;
                        recorded = (taken n fresh).2;
                        upstream = (taken n fresh).3;
                      }
              ]
        ]
