-- ===== src/Gateway/Feed/Preserved.antt =====
-- Every call of `ingest` keeps the invariant of the gateway's feed.
use agent_multiplex.Base.{
  ℕ, ◌≡◌, sym, subst, ◌⊎◌, inl, inr, Bool, true, false, ◌||◌, not, some, List, [], ◌∷◌,
  length-filter-le, lookup, Bool-cases, Option-cases, arith,
}
use agent_multiplex.Errors.{ErrorCode, Result, err, not_found, unavailable, conflict}
use agent_multiplex.Records.Authority.{AuthorityRef}
use agent_multiplex.EventHub.{Event, is_replay, is_new_epoch}
use agent_multiplex.Gateway.{SourceSnapshot, Source}
use agent_multiplex.Gateway.Changes.{Change}
use agent_multiplex.Gateway.Feed.{
  Provenance, Item, control, native, native_gap, heartbeat, stream_reset, Projection, find_source,
  send, of_session, remove_native_session, valid_source_item,
}
use agent_multiplex.Gateway.Feed.Ingest.{
  apply_source_control, ingest_control, ingest_native, is_owned, authority_refs, ingest_item,
  ingest, ingest_all,
}
use agent_multiplex.Gateway.Feed.Invariant.{Known, Inv, All-filter, InSequence-filter}
use agent_multiplex.Gateway.Feed.Publication.{
  All-map, Before, apply_source_control-Inv, publish_control-Inv, publish_native-Inv, Known-Before,
  other-Before,
}

ingest_native-Inv :
    (p : Projection) (source_id : ℕ) (event : Event) (provenance : Provenance)
    → Inv p
    → Inv (ingest_native p source_id event provenance).0
unfolding ingest_native remove_native_session
ingest_native-Inv p source_id event provenance i =
    let x : Event × Provenance = (event, provenance) in
    let previous = lookup event.session_id p.native_seen in
    elim (Bool-cases (not (is_owned p source_id event.session_id) || is_replay previous event)) [
      | inl e ↦ rw e i
      | inr e ↦ elim (Bool-cases (is_new_epoch previous event)) [
        | inl n ↦
            let forgotten = remove_native_session event.session_id p in
            let i' : Inv forgotten = record {
              chain = i.chain;
              journal_bounded = i.journal_bounded;
              native_bounded = omega (
                arith,
                i.native_bounded,
                length-filter-le (λ entry. not (of_session event.session_id entry))
                    p.native_journal,
              );
              seen =
                  All-filter (Known p.native_seen)
                    (λ entry. not (of_session event.session_id entry)) p.native_journal i.seen;
              in_order =
                  InSequence-filter (λ entry. not (of_session event.session_id entry))
                    p.native_journal i.in_order;
            } in
            rw (e, n)
              (publish_native-Inv event provenance forgotten i'
                (other-Before x p.native_seen p.native_journal i.seen))
        | inr n ↦
            let fresh : is_replay previous event ≡ false = ground arith in
            rw (e, n)
              (publish_native-Inv event provenance p i (
                All-map (Known p.native_seen) (Before x p.native_seen)
                  (λ y k. Known-Before x y p.native_seen fresh n k) p.native_journal i.seen))
      ]
    ]

ingest_control-Inv :
    (p : Projection) (source : Source) (s : SourceSnapshot) (cursor : ℕ) (provenance : Provenance)
    (change : Change)
    → Inv p
    → Inv (ingest_control p source s cursor provenance change).0
unfolding ingest_control
ingest_control-Inv p source s cursor provenance change i =
    let done = apply_source_control p source s cursor change in
    let i' = apply_source_control-Inv p source s cursor change i in
    let i'' = publish_control-Inv provenance change done.0 i' in ground (arith, i, i', i'')

module _ (sort_authorities : List AuthorityRef → List AuthorityRef) where
  send-Inv : (item : Item) (p : Projection) → Inv p → Inv (send item p)
  unfolding send
  send-Inv item p i = record {
    chain = i.chain;
    journal_bounded = i.journal_bounded;
    native_bounded = i.native_bounded;
    seen = i.seen;
    in_order = i.in_order;
  }

  ingest_item-Inv :
      (p : Projection) (source : Source) (s : SourceSnapshot) (item : Item)
      → Inv p
      → Inv (ingest_item sort_authorities p source s item).0
  unfolding ingest_item
  ingest_item-Inv p source s (control feed_id cursor provenance change) i =
      ingest_control-Inv p source s cursor provenance change i
  ingest_item-Inv p source s (heartbeat feed_id control_cursor refs) i =
      let sent =
        send-Inv (heartbeat p.feed_id p.control_cursor (authority_refs sort_authorities p)) p i in
      ground (arith, i, sent)
  ingest_item-Inv p source s (stream_reset previous_feed_id feed_id control_cursor) i = i
  ingest_item-Inv p source s (native event provenance) i =
      ingest_native-Inv p source.source_id event provenance i
  ingest_item-Inv p source s (native_gap session_id provenance) i =
      let sent = send-Inv (native_gap session_id provenance) p i in ground (arith, i, sent)

  -- A call fails and changes nothing, or handles an item that its source may send.
  pub ingest-cases :
      (p : Projection) (source_id : ℕ) (item : Item)
      → ((code : ErrorCode) × (ingest sort_authorities p source_id item ≡ (p, err code)))
        ⊎ ((source : Source) × (s : SourceSnapshot) × (find_source source_id p.sources
              ≡ some source)
            × (valid_source_item s.manifest item ≡ true)
            × (ingest sort_authorities p source_id item
                ≡ ingest_item sort_authorities p source s item))
  unfolding ingest
  ingest-cases p source_id item = elim (Option-cases (find_source source_id p.sources)) [
    | inl e ↦ inl (not_found, ground (arith, e))
    | inr (source, e) ↦ elim (Option-cases source.snapshot) [
      | inl n ↦ inl (unavailable, ground (arith, e, n))
      | inr (s, n) ↦ elim (Bool-cases (valid_source_item s.manifest item)) [
        | inl v ↦ inr (source, s, e, v, ground (arith, e, n, v))
        | inr v ↦ inl (conflict, ground (arith, e, n, v))
      ]
    ]
  ]

  ingest-Inv :
      (p : Projection) (source_id : ℕ) (item : Item)
      → Inv p
      → Inv (ingest sort_authorities p source_id item).0
  ingest-Inv p source_id item i = elim (ingest-cases p source_id item) [
    | inl (code, e) ↦ subst (λ (r : Projection × Result Bool). Inv r.0) (sym e) i
    | inr (source, s, found, v, e) ↦
        subst (λ (r : Projection × Result Bool). Inv r.0) (sym e)
          (ingest_item-Inv p source s item i)
  ]

  -- If the invariant of the feed holds before, it holds after, whatever the sources send, in whatever
  -- order: the journals stay within their capacity, the control journal holds consecutive cursors up
  -- to the newest one of the feed, and every event of the native journal is of the epoch last seen of
  -- its session, in increasing sequence.
  pub ingest_all-Inv :
      (p : Projection) (items : List (ℕ × Item)) → Inv p → Inv (ingest_all sort_authorities p items)
  unfolding ingest_all
  ingest_all-Inv p [] i = i
  ingest_all-Inv p ((source_id, item) ∷ rest) i =
      ingest_all-Inv (ingest sort_authorities p source_id item).0 rest
        (ingest-Inv p source_id item i)
