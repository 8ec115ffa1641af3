-- ===== src/Gateway/Feed/Subscribe.antt =====
-- The items that `#subscribe` of packages/gateway-core/src/projection.ts gives before the live ones,
-- with `#nativeReplay`. As in EventHub, `next_wanted` is the source's `wantedSequence + 1`. The texts
-- and the reasons of gaps and resets are left out.
use agent_multiplex.Base.{
  ℕ, suc, Bool, true, false, ◌&&◌, ◌||◌, not, Option, none, some, List, [], ◌∷◌, ◌++◌, map, filter,
  head?, lookup, ltb, leb, ◌==◌, if◌then◌else◌,
}
use agent_multiplex.Records.Authority.{AuthorityRef}
use agent_multiplex.Stream.{Position, Cursor}
use agent_multiplex.EventHub.{Event, next_wanted}
use agent_multiplex.Gateway.{SourceSnapshot}
use agent_multiplex.Gateway.Coverage.{includes}
use agent_multiplex.Gateway.Feed.{
  Provenance, Item, control, native, native_gap, heartbeat, stream_reset, Entry, Projection,
  of_session, find_source, found_snapshot,
}
use agent_multiplex.Gateway.Feed.Ingest.{authority_refs}

-- `sessions === null || sessions.has(sessionId)`.
abbrev pub is_wanted : Option (List ℕ) → ℕ → Bool
is_wanted none session_id = true
is_wanted (some sessions) session_id = includes sessions session_id

-- `#nativeProvenance`.
abbrev pub provenance_of : Option SourceSnapshot → Option Provenance
provenance_of none = none
provenance_of (some s) = some record {
  origin_control_node_id = s.manifest.source_control_node_id;
  authority = s.manifest.authority;
}

abbrev pub owner_provenance : Projection → Option ℕ → Option Provenance
owner_provenance p none = none
owner_provenance p (some source_id) =
    provenance_of (found_snapshot (find_source source_id p.sources))

-- The retained events of a session and an epoch.
unfoldable pub retained_of : Projection → ℕ → ℕ → List (Event × Provenance)
retained_of p session_id epoch =
    filter (λ entry. of_session session_id entry && (entry.0.runtime_epoch == epoch))
      p.native_journal

-- `first?.provenance ?? this.#nativeProvenance(sessionId)`.
abbrev pub gap_provenance : Projection → ℕ → Option (Event × Provenance) → Option Provenance
gap_provenance p session_id (some first) = some first.1
gap_provenance p session_id none = owner_provenance p (lookup session_id p.owners.sessions)

-- `wantedSequence + 1` is before the first retained event, or there is none.
abbrev pub starts_after : Option (Event × Provenance) → ℕ → Bool
starts_after none next = true
starts_after (some first) next = ltb next first.0.sequence

-- `requestedAhead || missingTail`.
abbrev pub cannot_replay : ℕ → ℕ → Option (Event × Provenance) → Bool
cannot_replay next latest first =
    ltb (suc latest) next || (leb next latest && starts_after first next)

-- One round of the loop over `#nativeSeen`: the gap that it pushes.
unfoldable pub native_gap_of :
    Projection → Cursor → Option (List ℕ) → ℕ → Position → Option Provenance
native_gap_of p cursor sessions session_id latest =
    let first = head? (retained_of p session_id latest.runtime_epoch) in
    let next = next_wanted (lookup session_id cursor.native) latest.runtime_epoch in
    if is_wanted sessions session_id && cannot_replay next latest.sequence first
    then gap_provenance p session_id first
    else none

abbrev pub gap_entry : ℕ → Option Provenance → List (ℕ × Provenance)
gap_entry session_id none = []
gap_entry session_id (some provenance) = (session_id, provenance) ∷ []

unfoldable pub gaps_from :
    Projection → Cursor → Option (List ℕ) → List (ℕ × Position) → List (ℕ × Provenance)
gaps_from p cursor sessions [] = []
gaps_from p cursor sessions ((session_id, latest) ∷ rest) =
    gap_entry session_id (native_gap_of p cursor sessions session_id latest)
    ++ gaps_from p cursor sessions rest

-- The filter of the replay.
abbrev pub is_replayed : Option Position → Option Position → Event → Bool
is_replayed none wanted event = false
is_replayed (some latest) wanted event =
    (latest.runtime_epoch == event.runtime_epoch)
    && leb (next_wanted wanted event.runtime_epoch) event.sequence

unfoldable pub replays : Projection → Cursor → Option (List ℕ) → List ℕ → Event × Provenance → Bool
replays p cursor sessions gapped entry =
    let session_id = entry.0.session_id in
    not (includes gapped session_id)
    && (is_wanted sessions session_id
        && is_replayed (lookup session_id p.native_seen) (lookup session_id cursor.native) entry.0)

abbrev pub gap_item : ℕ × Provenance → Item
gap_item gap = native_gap gap.0 gap.1

abbrev pub native_item : Event × Provenance → Item
native_item entry = native entry.0 entry.1

-- `#nativeReplay`.
unfoldable pub native_replay : Projection → Cursor → Option (List ℕ) → List Item
native_replay p cursor sessions =
    let gaps = gaps_from p cursor sessions p.native_seen in
    let gapped = map (λ (gap : ℕ × Provenance). gap.0) gaps in
    map gap_item gaps
    ++ map native_item (filter (replays p cursor sessions gapped) p.native_journal)

abbrev pub control_item : ℕ → Entry → Item
control_item feed_id e = control feed_id e.cursor e.provenance e.change

-- `this.#journal[0]?.cursor ?? this.#controlCursor + 1`.
abbrev pub minimum_retained : Option Entry → ℕ → ℕ
minimum_retained none control_cursor = suc control_cursor
minimum_retained (some first) control_cursor = first.cursor

unfoldable pub entries_after : ℕ → List Entry → List Entry
entries_after cursor journal = filter (λ (e : Entry). ltb cursor e.cursor) journal

module _ (sort_authorities : List AuthorityRef → List AuthorityRef) where
  unfoldable pub initial_items : Projection → Option Cursor → Option (List ℕ) → Bool → List Item
  initial_items p none sessions include_native =
      heartbeat p.feed_id p.control_cursor (authority_refs sort_authorities p) ∷ []
  initial_items p (some cursor) sessions include_native =
      if not (cursor.feed_id == p.feed_id)
      then stream_reset cursor.feed_id p.feed_id p.control_cursor ∷ []
      else if ltb p.control_cursor cursor.control_cursor
          || ltb (suc cursor.control_cursor) (minimum_retained (head? p.journal) p.control_cursor)
      then stream_reset cursor.feed_id p.feed_id p.control_cursor ∷ []
      else map (control_item p.feed_id) (entries_after cursor.control_cursor p.journal)
        ++ ((if include_native then native_replay p cursor sessions else [])
            ++ heartbeat p.feed_id p.control_cursor (authority_refs sort_authorities p) ∷ [])
