-- ===== src/Gateway/Feed/Once.antt =====
-- Over a history of native events, the gateway broadcasts of every session the newer events of the
-- source that owns it, once.
use mathlib.Core.List.{append-nil}
use agent_multiplex.Base.{
  ℕ, ◌&&◌, same_option, ◌≡◌, ◌∙◌, ap, refl, true, false, some, List, [], ◌∷◌, ◌++◌, filter,
  filter-append, lookup, lookup-insert, ◌==◌, ==_refl, if◌then◌else◌, arith,
}
use agent_multiplex.EventHub.{Event, is_replay}
use agent_multiplex.EventHub.Once.{
  position, in_session, newer_events, in_own_session, in_own_session,
}
use agent_multiplex.Gateway.Coverage.{includes}
use agent_multiplex.Gateway.Feed.{
  Provenance, Item, control, native, native_gap, heartbeat, stream_reset, Projection, send,
  remove_native_session,
}
use agent_multiplex.Gateway.Feed.Ingest.{publish_native, ingest_native, is_owned}

-- One native event as a source gives it.
pub record Call : Type 0 where
  pub source_id : ℕ
  pub event : Event
  pub provenance : Provenance

abbrev pub ingest_native_all : Projection → List Call → Projection
ingest_native_all p [] = p
ingest_native_all p (c ∷ calls) =
    ingest_native_all (ingest_native p c.source_id c.event c.provenance).0 calls

-- The events that come from a selected source that owns their session.
abbrev pub owned_events : Projection → List Call → List Event
owned_events p [] = []
owned_events p (c ∷ calls) =
    if includes p.selected c.source_id
      && same_option (lookup c.event.session_id p.owners.sessions) (some c.source_id)
    then c.event ∷ owned_events p calls
    else owned_events p calls

abbrev pub native_events : List Item → List Event
native_events [] = []
native_events (native event provenance ∷ items) = event ∷ native_events items
native_events (_ ∷ items) = native_events items

native_events-append :
    (items more : List Item)
    → native_events (items ++ more) ≡ native_events items ++ native_events more
native_events-append [] more = refl
native_events-append (native event provenance ∷ items) more =
    ap (λ l. event ∷ l) (native_events-append items more)
native_events-append (control f c p x ∷ items) more = native_events-append items more
native_events-append (native_gap s p ∷ items) more = native_events-append items more
native_events-append (heartbeat f c a ∷ items) more = native_events-append items more
native_events-append (stream_reset f g c ∷ items) more = native_events-append items more

module _ (p : Projection) (c : Call) where
  ingest_native-new :
      is_owned p c.source_id c.event.session_id ≡ true
      → is_replay (lookup c.event.session_id p.native_seen) c.event ≡ false
      → ((ingest_native p c.source_id c.event c.provenance).0.broadcast
          ≡ p.broadcast ++ native c.event c.provenance ∷ [])
        × (lookup c.event.session_id
              (ingest_native p c.source_id c.event c.provenance).0.native_seen
            ≡ some (position c.event))
  unfolding ingest_native publish_native send remove_native_session
  ingest_native-new o e =
      rw (o, e)
        (
          ground arith,
          ground (
            arith,
            ==_refl c.event.session_id,
            lookup-insert c.event.session_id c.event.session_id (position c.event) p.native_seen,
          ),
        )

  ingest_native-sent :
      is_owned p c.source_id c.event.session_id ≡ true
      → is_replay (lookup c.event.session_id p.native_seen) c.event ≡ false
      → native_events (ingest_native p c.source_id c.event c.provenance).0.broadcast
        ≡ native_events p.broadcast ++ c.event ∷ []
  ingest_native-sent o e =
      ap native_events (ingest_native-new o e).0
      ∙ native_events-append p.broadcast (native c.event c.provenance ∷ [])

  ingest_native-other :
      (s : ℕ)
      → (c.event.session_id == s) ≡ false
      → lookup s (ingest_native p c.source_id c.event c.provenance).0.native_seen
        ≡ lookup s p.native_seen
  unfolding ingest_native publish_native send remove_native_session
  ingest_native-other s other =
      ground (arith, lookup-insert c.event.session_id s (position c.event) p.native_seen)

  -- What a call adds for a session, before the newer ones of the events that follow.
  Added : ℕ → List Event → Projection → Type 0
  Added s rest q =
      filter (in_session s) (native_events q.broadcast)
        ++ newer_events (lookup s q.native_seen) (filter (in_session s) rest)
      ≡ filter (in_session s) (native_events p.broadcast)
        ++ newer_events (lookup s p.native_seen) (
            filter (in_session s)
              (if is_owned p c.source_id c.event.session_id then c.event ∷ rest else rest))

  other :
      (s : ℕ) (rest : List Event)
      → (c.event.session_id == s) ≡ false
      → is_owned p c.source_id c.event.session_id ≡ true
      → is_replay (lookup c.event.session_id p.native_seen) c.event ≡ false
      → Added s rest (ingest_native p c.source_id c.event c.provenance).0
  unfolding Added
  other s rest elsewhere o e =
      rw
        (
          o,
          elsewhere,
          ingest_native-other s elsewhere,
          ingest_native-sent o e,
          filter-append (in_session s) (native_events p.broadcast) (c.event ∷ []),
          elsewhere,
          append-nil (filter (in_session s) (native_events p.broadcast)),
        )
        refl
