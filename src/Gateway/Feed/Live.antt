-- ===== src/Gateway/Feed/Live.antt =====
-- From a subscriber's cursor to the newest item: the first items of `#subscribe`, then what `ingest`
-- broadcasts.
use agent_multiplex.Base.{
  ℕ, suc, ◌∙◌, sym, ap, refl, subst, inl, inr, Bool, ◌||◌, not, List, [], ◌∷◌, ◌++◌, ltb, leb,
  lookup, Bool-cases, arith,
}
use mathlib.Core.List.{append_assoc}
use agent_multiplex.Errors.{Result}
use agent_multiplex.Records.Authority.{AuthorityRef}
use agent_multiplex.EventHub.{Event, is_replay, is_new_epoch}
use agent_multiplex.Gateway.{SourceSnapshot, Source}
use agent_multiplex.Gateway.Changes.{Change}
use agent_multiplex.Gateway.Coverage.{includes}
use agent_multiplex.Gateway.Feed.{
  Provenance, Item, control, native, native_gap, heartbeat, stream_reset, Projection, send,
  remove_native_session,
}
use agent_multiplex.Gateway.Feed.Ingest.{
  apply_source_control, ingest_control, publish_native, ingest_native, is_owned, ingest_item,
  ingest, ingest_all, authority_refs,
}
use agent_multiplex.Gateway.Feed.Preserved.{ingest-cases}
use agent_multiplex.Gateway.Feed.Resume.{
  control_cursors, Consecutive, control_cursors-append, Consecutive-append, Sends, Quiet,
  Quiet-Sends, send-Sends, publish_control-Sends, apply_source_control-Quiet,
}

abbrev SomeSends : Projection → Projection → Type 0
SomeSends p q = (items : List Item) × Sends p q items

same-Sends : (p : Projection) → SomeSends p p
same-Sends p = ([], Quiet-Sends p p (ground arith))

ingest_control-Sends :
    (p : Projection) (source : Source) (s : SourceSnapshot) (cursor : ℕ) (provenance : Provenance)
    (change : Change)
    → SomeSends p (ingest_control p source s cursor provenance change).0
unfolding ingest_control
ingest_control-Sends p source s cursor provenance change =
    let done = apply_source_control p source s cursor change in
    let quiet = apply_source_control-Quiet p source s cursor change in
    elim (Bool-cases (leb cursor s.manifest.control_cursor)) [
      | inl e ↦ rw e (same-Sends p)
      | inr e ↦ elim (Bool-cases done.1) [
        | inr d ↦ rw (e, d) ([], Quiet-Sends p done.0 quiet)
        | inl d ↦ elim (Bool-cases (includes p.selected source.source_id)) [
          | inl m ↦
              rw (e, d, m)
                (
                  control done.0.feed_id (suc done.0.control_cursor) provenance change ∷ [],
                  publish_control-Sends provenance change p done.0 quiet,
                )
          | inr m ↦ rw (e, d, m) ([], Quiet-Sends p done.0 quiet)
        ]
      ]
    ]

publish_native-Sends :
    (event : Event) (provenance : Provenance) (p q : Projection)
    → Quiet p q
    → Sends p (publish_native event provenance q) (native event provenance ∷ [])
unfolding publish_native send
publish_native-Sends event provenance p q h = record {
  broadcast = ap (λ l. l ++ native event provenance ∷ []) h.broadcast;
  feed_id = h.feed_id;
  consecutive = ap suc (sym h.control_cursor);
}

ingest_native-Sends :
    (p : Projection) (source_id : ℕ) (event : Event) (provenance : Provenance)
    → SomeSends p (ingest_native p source_id event provenance).0
unfolding ingest_native remove_native_session
ingest_native-Sends p source_id event provenance =
    let previous = lookup event.session_id p.native_seen in
    let forgotten = remove_native_session event.session_id p in
    let quiet : Quiet p forgotten = ground arith in
    let same : Quiet p p = ground arith in
    elim (Bool-cases (not (is_owned p source_id event.session_id) || is_replay previous event)) [
      | inl e ↦ rw e (same-Sends p)
      | inr e ↦ elim (Bool-cases (is_new_epoch previous event)) [
        | inl n ↦
            rw (e, n)
              (
                native event provenance ∷ [],
                publish_native-Sends event provenance p forgotten quiet,
              )
        | inr n ↦
            rw (e, n) (native event provenance ∷ [], publish_native-Sends event provenance p p same)
      ]
    ]

module _ (sort_authorities : List AuthorityRef → List AuthorityRef) where
  ingest_item-Sends :
      (p : Projection) (source : Source) (s : SourceSnapshot) (item : Item)
      → SomeSends p (ingest_item sort_authorities p source s item).0
  unfolding ingest_item
  ingest_item-Sends p source s (control feed_id cursor provenance change) =
      ingest_control-Sends p source s cursor provenance change
  ingest_item-Sends p source s (heartbeat feed_id control_cursor refs) =
      let beat = heartbeat p.feed_id p.control_cursor (authority_refs sort_authorities p) in
      elim (Bool-cases (ltb s.manifest.control_cursor control_cursor)) [
        | inl e ↦ rw e (same-Sends p)
        | inr e ↦ elim (Bool-cases (includes p.selected source.source_id)) [
          | inl m ↦ rw (e, m) (beat ∷ [], send-Sends p p beat (ground arith) refl)
          | inr m ↦ rw (e, m) (same-Sends p)
        ]
      ]
  ingest_item-Sends p source s (stream_reset previous_feed_id feed_id control_cursor) = same-Sends p
  ingest_item-Sends p source s (native event provenance) =
      ingest_native-Sends p source.source_id event provenance
  ingest_item-Sends p source s (native_gap session_id provenance) =
      elim (Bool-cases (is_owned p source.source_id session_id)) [
        | inl m ↦ rw m (
          native_gap session_id provenance ∷ [],
          send-Sends p p (native_gap session_id provenance) (ground arith) refl,
        )
        | inr m ↦ rw m (same-Sends p)
      ]

  ingest-Sends :
      (p : Projection) (source_id : ℕ) (item : Item)
      → SomeSends p (ingest sort_authorities p source_id item).0
  ingest-Sends p source_id item = elim (ingest-cases sort_authorities p source_id item) [
    | inl (code, e) ↦
        subst (λ (r : Projection × Result Bool). SomeSends p r.0) (sym e) (same-Sends p)
    | inr (source, s, found, v, e) ↦
        subst (λ (r : Projection × Result Bool). SomeSends p r.0) (sym e)
          (ingest_item-Sends p source s item)
  ]

  Sends-trans :
      (p q r : Projection) (xs ys : List Item) → Sends p q xs → Sends q r ys → Sends p r (xs ++ ys)
  Sends-trans p q r xs ys h k = record {
    broadcast = k.broadcast ∙ ap (λ l. l ++ ys) h.broadcast ∙ append_assoc p.broadcast xs ys;
    feed_id = k.feed_id ∙ h.feed_id;
    consecutive =
        subst (Consecutive (suc p.control_cursor) r.control_cursor)
          (sym (control_cursors-append xs ys))
          (Consecutive-append (suc p.control_cursor) q.control_cursor r.control_cursor
            (control_cursors xs) (control_cursors ys) h.consecutive k.consecutive);
  }

  -- Whatever the sources send, the gateway broadcasts the control items of its own feed under
  -- consecutive cursors, from the one after its cursor to its new cursor.
  pub ingest_all-Sends :
      (p : Projection) (items : List (ℕ × Item)) → SomeSends p (ingest_all sort_authorities p items)
  unfolding ingest_all
  ingest_all-Sends p [] = same-Sends p
  ingest_all-Sends p ((source_id, item) ∷ rest) =
      let next = (ingest sort_authorities p source_id item).0 in
      let (xs, h) = ingest-Sends p source_id item in
      let (ys, k) = ingest_all-Sends next rest in
      (xs ++ ys, Sends-trans p next (ingest_all sort_authorities next rest) xs ys h k)
