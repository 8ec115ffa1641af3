-- ===== src/Gateway/Feed/Publication.antt =====
-- What a change of the owners, and each publication, keeps of the gateway's feed.
use agent_multiplex.Base.{
  ℕ, suc, ◌-◌, ◌≡◌, ◌∙◌, sym, ap, refl, inl, inr, true, false, not, some, List, [], ◌∷◌, ◌++◌,
  filter, length, length-filter-le, All, All-append, All-drop, Table, lookup, has, insert, delete,
  lookup-insert, lookup-delete, ◌==◌, ==_refl, Bool-cases, arith,
}
use agent_multiplex.Stream.{Position}
use agent_multiplex.EventHub.{Event, is_replay, is_new_epoch}
use agent_multiplex.Gateway.{SourceSnapshot, Source}
use agent_multiplex.Gateway.Changes.{
  Change, control_node_upsert, control_node_presence, runtime_node_upsert, runtime_node_presence,
  session_upsert, session_unavailable, metadata_changed, metadata_operation, interaction_changed,
  launch_changed, archive_changed, other_change,
}
use agent_multiplex.Gateway.Coverage.{includes}
use agent_multiplex.Gateway.Owners.{claim_sources, no_owners}
use agent_multiplex.Gateway.Feed.{
  Provenance, Entry, Projection, maximum_journal_items, put_source, send, of_session,
  remove_native_session, selected_snapshots, forget_unowned, keys, rebuild_owners, remember_change,
}
use agent_multiplex.Gateway.Feed.Ingest.{
  applied, apply_source_control, publish_control, publish_native,
}
use agent_multiplex.Gateway.Feed.Invariant.{
  known, Known, in_sequence, Inv, Chain-append, Chain-drop, length-push_bounded, InSequence-drop,
  InSequence-filter, InSequence-append,
}

pub All-map :
    {A : Type 0} (P Q : A → Type 0) → ((x : A) → P x → Q x) → (l : List A) → All P l → All Q l
All-map P Q f [] h = tt
All-map P Q f (x ∷ l) h = (f x h.0, All-map P Q f l h.1)

-- What the invariant reads is the same.
pub record SameFeed (p q : Projection) : Type 0 where
  pub feed_id : q.feed_id ≡ p.feed_id
  pub control_cursor : q.control_cursor ≡ p.control_cursor
  pub journal : q.journal ≡ p.journal
  pub native_seen : q.native_seen ≡ p.native_seen
  pub native_journal : q.native_journal ≡ p.native_journal
  pub capacity : q.native_journal_capacity ≡ p.native_journal_capacity
  pub broadcast : q.broadcast ≡ p.broadcast

pub SameFeed-Inv : (p q : Projection) → SameFeed p q → Inv p → Inv q
SameFeed-Inv p q s i =
    let (next, c) = i.chain in
    record {
      chain = (next, rw (s.control_cursor, s.journal) c);
      journal_bounded = ground arith;
      native_bounded = ground arith;
      seen = rw (s.native_seen, s.native_journal) i.seen;
      in_order = rw s.native_journal i.in_order;
    }

pub remember_change-SameFeed :
    (source_id : ℕ) (change : Change) (p : Projection)
    → SameFeed p (remember_change source_id change p)
unfolding remember_change
remember_change-SameFeed source_id (control_node_upsert r) p = ground arith
remember_change-SameFeed source_id (control_node_presence id presence) p = ground arith
remember_change-SameFeed source_id (runtime_node_upsert r) p = ground arith
remember_change-SameFeed source_id (runtime_node_presence id presence) p = ground arith
remember_change-SameFeed source_id (session_upsert r) p = ground arith
remember_change-SameFeed source_id (session_unavailable id) p = ground arith
remember_change-SameFeed source_id (metadata_changed id revision metadata) p = ground arith
remember_change-SameFeed source_id (metadata_operation r) p = ground arith
remember_change-SameFeed source_id (interaction_changed r) p = ground arith
remember_change-SameFeed source_id (launch_changed id) p = ground arith
remember_change-SameFeed source_id (archive_changed id) p = ground arith
remember_change-SameFeed source_id other_change p = ground arith

-- An event of another session is known as well after the session is forgotten.
Known-delete :
    (id : ℕ) (seen : Table Position) (l : List (Event × Provenance))
    → All (Known seen) l
    → All (Known (delete id seen)) (filter (λ entry. not (of_session id entry)) l)
Known-delete id seen [] h = tt
Known-delete id seen (x ∷ l) h = elim (Bool-cases (of_session id x)) [
  | inl e ↦ rw e (Known-delete id seen l h.1)
  | inr e ↦
      let here : Known (delete id seen) x =
        ground (arith, h.0, lookup-delete id x.0.session_id seen) in
      rw e (here, Known-delete id seen l h.1)
]

forget_session-Inv :
    (id : ℕ) (p : Projection)
    → Inv p
    → Inv (remove_native_session id (record p { native_seen = delete id p.native_seen }))
unfolding remove_native_session
forget_session-Inv id p i = record {
  chain = i.chain;
  journal_bounded = i.journal_bounded;
  native_bounded = omega (
    arith,
    i.native_bounded,
    length-filter-le (λ entry. not (of_session id entry)) p.native_journal,
  );
  seen = Known-delete id p.native_seen p.native_journal i.seen;
  in_order = InSequence-filter (λ entry. not (of_session id entry)) p.native_journal i.in_order;
}

forget_unowned-Inv : (ids : List ℕ) (p : Projection) → Inv p → Inv (forget_unowned ids p)
unfolding forget_unowned
forget_unowned-Inv [] p i = i
forget_unowned-Inv (id ∷ ids) p i = elim (Bool-cases (has id p.owners.sessions)) [
  | inl e ↦ rw e (forget_unowned-Inv ids p i)
  | inr e ↦ rw e (
      forget_unowned-Inv ids
        (remove_native_session id (record p { native_seen = delete id p.native_seen }))
        (forget_session-Inv id p i))
]

pub rebuild_owners-Inv : (p : Projection) → Inv p → Inv (rebuild_owners p).0
unfolding rebuild_owners
rebuild_owners-Inv p i =
    let claimed = claim_sources (selected_snapshots p.selected p.sources) no_owners in
    let p' = record p { owners = claimed.0 } in
    let i' : Inv p' = SameFeed-Inv p p' (ground arith) i in
    elim (Bool-cases claimed.1) [
      | inl e ↦ rw e (forget_unowned-Inv (keys p.native_seen) p' i')
      | inr e ↦ rw e i'
    ]

pub apply_source_control-Inv :
    (p : Projection) (source : Source) (s : SourceSnapshot) (cursor : ℕ) (change : Change)
    → Inv p
    → Inv (apply_source_control p source s cursor change).0
unfolding apply_source_control
apply_source_control-Inv p source s cursor change i =
    let updated = record p {
      sources = put_source (record source { snapshot = some (applied s cursor change) }) p.sources;
    } in
    let i' : Inv updated = SameFeed-Inv p updated (ground arith) i in
    let remembered = remember_change source.source_id change updated in
    let i'' =
      SameFeed-Inv updated remembered (remember_change-SameFeed source.source_id change updated)
        i' in
    elim (Bool-cases (includes p.selected source.source_id)) [
      | inl e ↦ rw e (rebuild_owners-Inv remembered i'')
      | inr e ↦ rw e i'
    ]

pub publish_control-Inv :
    (provenance : Provenance) (change : Change) (p : Projection)
    → Inv p
    → Inv (publish_control provenance change p)
unfolding publish_control send
publish_control-Inv provenance change p i =
    let e : Entry = record {
      cursor = suc p.control_cursor;
      provenance = provenance;
      change = change;
    } in
    let longer = p.journal ++ e ∷ [] in
    let (next, c) = i.chain in
    record {
      chain =
          Chain-drop (length longer - maximum_journal_items) next (suc p.control_cursor) longer
            (Chain-append next p.control_cursor p.journal e c refl);
      journal_bounded = length-push_bounded maximum_journal_items p.journal e;
      native_bounded = i.native_bounded;
      seen = i.seen;
      in_order = i.in_order;
    }

-- An entry of the journal that a new event may follow.
abbrev pub Before : Event × Provenance → Table Position → Event × Provenance → Type 0
Before x seen e =
    (in_sequence e x ≡ true)
    × (Known
        (insert x.0.session_id record { runtime_epoch = x.0.runtime_epoch; sequence = x.0.sequence }
          seen)
        e)

pub publish_native-Inv :
    (event : Event) (provenance : Provenance) (p : Projection)
    → Inv p
    → All (Before (event, provenance) p.native_seen) p.native_journal
    → Inv (publish_native event provenance p)
unfolding publish_native send
publish_native-Inv event provenance p i b =
    let x : Event × Provenance = (event, provenance) in
    let pos : Position = record {
      runtime_epoch = event.runtime_epoch;
      sequence = event.sequence;
    } in
    let seen' = insert event.session_id pos p.native_seen in
    let excess = length (p.native_journal ++ x ∷ []) - p.native_journal_capacity in
    let order =
      All-map (Before x p.native_seen) (λ e. in_sequence e x ≡ true) (λ e h. h.0) p.native_journal
        b in
    let kept = All-map (Before x p.native_seen) (Known seen') (λ e h. h.1) p.native_journal b in
    let here : Known seen' x = ground (
      arith,
      lookup-insert event.session_id event.session_id pos p.native_seen,
      ==_refl event.session_id,
      ==_refl event.runtime_epoch,
    ) in
    record {
      chain = i.chain;
      journal_bounded = i.journal_bounded;
      native_bounded = length-push_bounded p.native_journal_capacity p.native_journal x;
      seen =
          All-drop (Known seen') excess (p.native_journal ++ x ∷ [])
            (All-append (Known seen') p.native_journal (x ∷ []) kept (here, tt));
      in_order =
          InSequence-drop excess (p.native_journal ++ x ∷ [])
            (InSequence-append p.native_journal x i.in_order order);
    }

pub Known-Before :
    (x e : Event × Provenance) (seen : Table Position)
    → is_replay (lookup x.0.session_id seen) x.0 ≡ false
    → is_new_epoch (lookup x.0.session_id seen) x.0 ≡ false
    → Known seen e
    → Before x seen e
Known-Before x e seen fresh same k =
    let pos : Position = record { runtime_epoch = x.0.runtime_epoch; sequence = x.0.sequence } in
    let inserted = lookup-insert x.0.session_id e.0.session_id pos seen in
    elim (Bool-cases (x.0.session_id == e.0.session_id)) [
      | inr d ↦ (ground arith, ground (arith, inserted))
      | inl d ↦
          let is : e.0.session_id ≡ x.0.session_id = ground arith in
          let k' : known (lookup x.0.session_id seen) e.0 ≡ true =
            ap (λ id. known (lookup id seen) e.0) (sym is) ∙ k in
          (ground (arith, k'), ground (arith, inserted, k'))
    ]

-- Once a session is forgotten, what is left is of other sessions.
pub other-Before :
    (x : Event × Provenance) (seen : Table Position) (l : List (Event × Provenance))
    → All (Known seen) l
    → All (Before x seen) (filter (λ entry. not (of_session x.0.session_id entry)) l)
other-Before x seen [] h = tt
other-Before x seen (e ∷ l) h = elim (Bool-cases (of_session x.0.session_id e)) [
  | inl d ↦ rw d (other-Before x seen l h.1)
  | inr d ↦
      let pos : Position = record { runtime_epoch = x.0.runtime_epoch; sequence = x.0.sequence } in
      let inserted = lookup-insert x.0.session_id e.0.session_id pos seen in
      let apart : in_sequence e x ≡ true = ground arith in
      let kept : Known (insert x.0.session_id pos seen) e = ground (arith, inserted, h.0) in
      rw d ((apart, kept), other-Before x seen l h.1)
]
