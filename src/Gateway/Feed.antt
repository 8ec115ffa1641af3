-- ===== src/Gateway/Feed.antt =====
-- The feed of `AccessGatewayProjection` in packages/gateway-core/src/projection.ts: `ingest` with what
-- it calls, `#rotateFeed`, `#nativeReplay` and the first items of `#subscribe`. The terminal routes
-- that an ownership change aborts are left out.
mod Examples
pub mod Ingest
pub mod Invariant
pub mod Live
pub mod Once
pub mod Preserved
pub mod Publication
pub mod Replay
pub mod Resume
pub mod Subscribe
use agent_multiplex.Base.{
  ℕ, suc, ◌+◌, ◌-◌, Bool, true, false, ◌&&◌, ◌||◌, not, Option, none, some, List, [], ◌∷◌, ◌++◌,
  map, filter, any, drop, length, head?, Table, lookup, has, insert, delete, same_option, ltb, leb,
  ◌==◌, if◌then◌else◌,
}
use agent_multiplex.Errors.{Result, ok, err, not_found, unavailable, conflict}
use agent_multiplex.Records.Authority.{AuthorityRef, same_authority}
use agent_multiplex.Stream.{Position, Cursor}
use agent_multiplex.EventHub.{Event, is_replay, is_new_epoch, next_wanted, of_epoch, before}
use agent_multiplex.Gateway.{Manifest, SourceSnapshot, Source, Session}
use agent_multiplex.Gateway.Changes.{
  Change, session_upsert, launch_changed, archive_changed, apply_change,
}
use agent_multiplex.Gateway.Coverage.{includes}
use agent_multiplex.Gateway.Owners.{Owners, no_owners, claim_sources}

pub record Provenance : Type 0 where
  pub origin_control_node_id : ℕ
  pub authority : AuthorityRef

-- The items that a source gives to `ingest`, and those that the gateway broadcasts.
pub data Item : Type 0 where
  control : (feed_id cursor : ℕ) (provenance : Provenance) (change : Change) → Item
  native : (event : Event) (provenance : Provenance) → Item
  native_gap : (session_id : ℕ) (provenance : Provenance) → Item
  heartbeat : (feed_id control_cursor : ℕ) (authority_refs : List AuthorityRef) → Item
  stream_reset : (previous_feed_id feed_id control_cursor : ℕ) → Item

-- What stands in the journal: a control item of the gateway's feed.
pub record Entry : Type 0 where
  pub cursor : ℕ
  pub provenance : Provenance
  pub change : Change

pub record Projection : Type 0 where
  pub sources : List Source
  pub selected : List ℕ
  pub owners : Owners
  pub launch_owners : Table ℕ
  pub archive_owners : Table ℕ
  pub session_lookup_hints : Table ℕ
  pub session_lookup_records : Table Session
  pub native_seen : Table Position
  pub native_journal : List (Event × Provenance)
  pub native_journal_capacity : ℕ
  pub journal : List Entry
  pub feed_id : ℕ
  pub control_cursor : ℕ
  -- the items given to `#broadcast`, in order
  pub broadcast : List Item

abbrev pub maximum_journal_items : ℕ
maximum_journal_items = 4096

abbrev pub maximum_owner_hints : ℕ
maximum_owner_hints = 4096

abbrev pub find_source : ℕ → List Source → Option Source
find_source id [] = none
find_source id (s ∷ rest) = if s.source_id == id then some s else find_source id rest

abbrev pub put_source : Source → List Source → List Source
put_source s [] = []
put_source s (x ∷ rest) = if x.source_id == s.source_id then s ∷ rest else x ∷ put_source s rest

-- `push` or `set`, and the loop that drops the oldest.
abbrev pub push_bounded {ℓ} : {A : Type ℓ} → ℕ → List A → A → List A
push_bounded capacity l x = let longer = l ++ x ∷ [] in drop (length longer - capacity) longer

-- `#rememberOwner`.
abbrev pub remember_owner {ℓ} : {V : Type ℓ} → ℕ → V → Table V → Table V
remember_owner key value table = push_bounded maximum_owner_hints (delete key table) (key, value)

pub send : Item → Projection → Projection
send item p = record p { broadcast = p.broadcast ++ item ∷ [] }

abbrev pub of_session : ℕ → Event × Provenance → Bool
of_session session_id entry = entry.0.session_id == session_id

-- `#removeNativeSession`.
pub remove_native_session : ℕ → Projection → Projection
remove_native_session session_id p = record p {
  native_journal = filter (λ entry. not (of_session session_id entry)) p.native_journal;
}

-- The snapshots of the selected sources, which all have one.
abbrev pub snapshot_entry : ℕ → Option SourceSnapshot → List (ℕ × SourceSnapshot)
snapshot_entry id none = []
snapshot_entry id (some s) = (id, s) ∷ []

abbrev pub found_snapshot : Option Source → Option SourceSnapshot
found_snapshot none = none
found_snapshot (some s) = s.snapshot

abbrev pub selected_snapshots : List ℕ → List Source → List (ℕ × SourceSnapshot)
selected_snapshots [] sources = []
selected_snapshots (id ∷ ids) sources =
    snapshot_entry id (found_snapshot (find_source id sources)) ++ selected_snapshots ids sources

-- The sessions that have lost their owner are forgotten.
pub forget_unowned : List ℕ → Projection → Projection
forget_unowned [] p = p
forget_unowned (id ∷ ids) p =
    if has id p.owners.sessions
    then forget_unowned ids p
    else forget_unowned ids
        (remove_native_session id (record p { native_seen = delete id p.native_seen }))

abbrev pub keys {ℓ} : {V : Type ℓ} → Table V → List ℕ
keys [] = []
keys ((k, v) ∷ t) = k ∷ keys t

-- `#rebuildOwners`, with whether it returns.
pub rebuild_owners : Projection → Projection × Bool
rebuild_owners p =
    let claimed = claim_sources (selected_snapshots p.selected p.sources) no_owners in
    let p' = record p { owners = claimed.0 } in
    if claimed.1 then (forget_unowned (keys p.native_seen) p', true) else (p', false)

-- `#rotateFeed`, to a fresh feed.
pub rotate_feed : ℕ → Projection → Projection
rotate_feed new_feed_id p = send (stream_reset p.feed_id new_feed_id 0) record p {
  feed_id = new_feed_id;
  control_cursor = 0;
  launch_owners = [];
  archive_owners = [];
  session_lookup_hints = [];
  session_lookup_records = [];
  native_seen = [];
  native_journal = [];
  journal = [];
}

-- `#validateSourceItem`.
pub valid_source_item : Manifest → Item → Bool
valid_source_item m (control feed_id cursor provenance change) =
    (feed_id == m.feed_id)
    && (same_authority provenance.authority m.authority
        && (includes m.covered_control_node_ids provenance.origin_control_node_id
            && leb cursor (suc m.control_cursor)))
valid_source_item m (native event provenance) =
    same_authority provenance.authority m.authority
    && includes m.covered_control_node_ids provenance.origin_control_node_id
valid_source_item m (native_gap session_id provenance) =
    same_authority provenance.authority m.authority
    && includes m.covered_control_node_ids provenance.origin_control_node_id
valid_source_item m (heartbeat feed_id control_cursor authority_refs) =
    (feed_id == m.feed_id) && any (λ authority. same_authority authority m.authority) authority_refs
valid_source_item m (stream_reset previous_feed_id feed_id control_cursor) = true

-- The hints that a change of a selected source gives.
pub remember_change : ℕ → Change → Projection → Projection
remember_change source_id (session_upsert r) p = record p {
  session_lookup_records = remember_owner r.session_id r p.session_lookup_records;
  session_lookup_hints = remember_owner r.session_id source_id p.session_lookup_hints;
}
remember_change source_id (launch_changed id) p = record p {
  launch_owners = remember_owner id source_id p.launch_owners;
}
remember_change source_id (archive_changed id) p = record p {
  archive_owners = remember_owner id source_id p.archive_owners;
}
remember_change source_id _ p = p
