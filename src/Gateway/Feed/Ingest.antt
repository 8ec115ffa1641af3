-- ===== src/Gateway/Feed/Ingest.antt =====
-- `ingest` of packages/gateway-core/src/projection.ts, with the state that a throwing call leaves. The
-- sort by `authorityKey` of `#authorityRefs` is a parameter.
use agent_multiplex.Base.{
  ℕ, suc, Bool, true, false, ◌&&◌, ◌||◌, not, none, some, List, [], ◌∷◌, ◌++◌, map, any, lookup,
  insert, same_option, ltb, leb, if◌then◌else◌,
}
use agent_multiplex.Errors.{Result, ok, err, not_found, unavailable, conflict}
use agent_multiplex.Records.Authority.{AuthorityRef, same_authority}
use agent_multiplex.EventHub.{Event, is_replay, is_new_epoch}
use agent_multiplex.Gateway.{SourceSnapshot, Source}
use agent_multiplex.Gateway.Changes.{Change, apply_change}
use agent_multiplex.Gateway.Coverage.{includes}
use agent_multiplex.Gateway.Feed.{
  Provenance, Item, control, native, native_gap, heartbeat, stream_reset, Projection,
  maximum_journal_items, find_source, put_source, push_bounded, send, remove_native_session,
  selected_snapshots, rebuild_owners, valid_source_item, remember_change,
}

-- `#applySourceControl` on the source's snapshot.
unfoldable pub applied : SourceSnapshot → ℕ → Change → SourceSnapshot
applied s cursor change =
    let s' = apply_change s change in
    record s' { manifest = record s.manifest { control_cursor = cursor } }

unfoldable pub apply_source_control :
    Projection → Source → SourceSnapshot → ℕ → Change → Projection × Bool
apply_source_control p source s cursor change =
    let updated = record p {
      sources = put_source (record source { snapshot = some (applied s cursor change) }) p.sources;
    } in
    if includes p.selected source.source_id
    then rebuild_owners (remember_change source.source_id change updated)
    else (updated, true)

-- A control item of a selected source, in the gateway's feed.
unfoldable pub publish_control : Provenance → Change → Projection → Projection
publish_control provenance change p =
    let cursor = suc p.control_cursor in
    send (control p.feed_id cursor provenance change) record p {
      control_cursor = cursor;
      journal =
          push_bounded maximum_journal_items p.journal
            record { cursor = cursor; provenance = provenance; change = change };
    }

unfoldable pub ingest_control :
    Projection → Source → SourceSnapshot → ℕ → Provenance → Change → Projection × Result Bool
ingest_control p source s cursor provenance change =
    let done = apply_source_control p source s cursor change in
    if leb cursor s.manifest.control_cursor
    then (p, ok false)
    else if not done.1
    then (done.0, err conflict)
    else if includes p.selected source.source_id
    then (publish_control provenance change done.0, ok true)
    else (done.0, ok false)

-- `#nativeSeen.set`, the push onto the journal, and the broadcast.
unfoldable pub publish_native : Event → Provenance → Projection → Projection
publish_native event provenance p = send (native event provenance) record p {
  native_seen =
      insert event.session_id
        record { runtime_epoch = event.runtime_epoch; sequence = event.sequence } p.native_seen;
  native_journal = push_bounded p.native_journal_capacity p.native_journal (event, provenance);
}

abbrev pub is_owned : Projection → ℕ → ℕ → Bool
is_owned p source_id session_id =
    includes p.selected source_id
    && same_option (lookup session_id p.owners.sessions) (some source_id)

unfoldable pub ingest_native : Projection → ℕ → Event → Provenance → Projection × Result Bool
ingest_native p source_id event provenance =
    let previous = lookup event.session_id p.native_seen in
    if not (is_owned p source_id event.session_id) || is_replay previous event
    then (p, ok false)
    else if is_new_epoch previous event
    then (publish_native event provenance (remove_native_session event.session_id p), ok true)
    else (publish_native event provenance p, ok true)

module _ (sort_authorities : List AuthorityRef → List AuthorityRef) where
  abbrev pub distinct_authorities : List AuthorityRef → List AuthorityRef → List AuthorityRef
  distinct_authorities kept [] = kept
  distinct_authorities kept (a ∷ rest) =
      if any (λ other. same_authority a other) kept
      then distinct_authorities kept rest
      else distinct_authorities (kept ++ a ∷ []) rest

  -- `#authorityRefs`.
  pub authority_refs : Projection → List AuthorityRef
  authority_refs p =
      let authority_of : ℕ × SourceSnapshot → AuthorityRef =
        (λ entry. entry.1.manifest.authority) in
      sort_authorities
        (distinct_authorities [] (map authority_of (selected_snapshots p.selected p.sources)))

  unfoldable pub ingest_item :
      Projection → Source → SourceSnapshot → Item → Projection × Result Bool
  ingest_item p source s (control feed_id cursor provenance change) =
      ingest_control p source s cursor provenance change
  ingest_item p source s (heartbeat feed_id control_cursor refs) =
      if ltb s.manifest.control_cursor control_cursor
      then (p, err conflict)
      else if includes p.selected source.source_id
      then (send (heartbeat p.feed_id p.control_cursor (authority_refs p)) p, ok true)
      else (p, ok false)
  ingest_item p source s (stream_reset previous_feed_id feed_id control_cursor) = (p, ok false)
  ingest_item p source s (native event provenance) =
      ingest_native p source.source_id event provenance
  ingest_item p source s (native_gap session_id provenance) =
      if is_owned p source.source_id session_id
      then (send (native_gap session_id provenance) p, ok true)
      else (p, ok false)

  unfoldable pub ingest : Projection → ℕ → Item → Projection × Result Bool
  ingest p source_id item = elim (find_source source_id p.sources) [
    | none ↦ (p, err not_found)
    | some source ↦ elim source.snapshot [
      | none ↦ (p, err unavailable)
      | some s ↦
          if valid_source_item s.manifest item
          then ingest_item p source s item
          else (p, err conflict)
    ]
  ]

  -- A sequence of calls; the gateway goes on after one that throws.
  unfoldable pub ingest_all : Projection → List (ℕ × Item) → Projection
  ingest_all p [] = p
  ingest_all p ((source_id, item) ∷ rest) = ingest_all (ingest p source_id item).0 rest
