-- ===== src/Gateway/Feed/Replay.antt =====
-- A subscriber's replay and the live items after it join without a gap.
use agent_multiplex.Base.{
  ℕ, suc, ◌+◌, ◌≤◌, ◌<◌, ◌≡◌, ◌∙◌, sym, ap, refl, subst, ◌⊎◌, inl, inr, Bool, true, false, ◌&&◌,
  Option, some, List, [], ◌∷◌, ◌++◌, map, filter, head?, length, ltb, leb, ◌==◌, Bool-cases,
  if◌then◌else◌, arith,
}
use mathlib.Core.List.{append-nil}
use agent_multiplex.Records.Authority.{AuthorityRef}
use agent_multiplex.Stream.{Cursor}
use agent_multiplex.EventHub.{Event}
use agent_multiplex.Gateway.Feed.{Provenance, Item, heartbeat, stream_reset, Entry, Projection}
use agent_multiplex.Gateway.Feed.Ingest.{ingest_all, authority_refs}
use agent_multiplex.Gateway.Feed.Invariant.{Chain, Inv}
use agent_multiplex.Gateway.Feed.Live.{ingest_all-Sends}
use agent_multiplex.Gateway.Feed.Resume.{
  control_cursors, Consecutive, control_cursors-append, Consecutive-append,
}
use agent_multiplex.Gateway.Feed.Subscribe.{
  gap_item, native_item, control_item, native_replay, gaps_from, replays, minimum_retained,
  entries_after, initial_items,
}

Chain-length : (next last : ℕ) (l : List Entry) → Chain next last l → next + length l ≡ suc last
Chain-length next last [] c = omega arith
Chain-length next last (e ∷ l) c = omega (arith, Chain-length (suc next) last l c.1)

Chain-minimum :
    (next last : ℕ) (l : List Entry) → Chain next last l → minimum_retained (head? l) last ≡ next
Chain-minimum next last [] c = sym c
Chain-minimum next last (e ∷ l) c = c.0

entries_after-all :
    (next last cursor : ℕ) (l : List Entry)
    → Chain next last l
    → cursor < next
    → entries_after cursor l ≡ l
unfolding entries_after
entries_after-all next last cursor [] c h = refl
entries_after-all next last cursor (e ∷ l) c h =
    let rest = entries_after-all (suc next) last cursor l c.1 (omega arith) in
    let kept : ltb cursor e.cursor ≡ true = ground (arith, c.0) in rw kept (ap (◌∷◌ e) rest)

entries_after-Chain :
    (next last cursor : ℕ) (l : List Entry)
    → Chain next last l
    → next ≤ suc cursor
    → cursor ≤ last
    → Chain (suc cursor) last (entries_after cursor l)
unfolding entries_after
entries_after-Chain next last cursor [] c h k = omega arith
entries_after-Chain next last cursor (e ∷ l) c h k = elim (Bool-cases (ltb cursor e.cursor)) [
  | inl kept ↦
      let rest = entries_after-all (suc next) last cursor l c.1 (ground (arith, c.0)) in
      let is : next ≡ suc cursor = ground (arith, c.0) in
      let here : e.cursor ≡ suc cursor = c.0 ∙ is in
      let later : Chain (suc (suc cursor)) last (entries_after cursor l) =
        subst (Chain (suc (suc cursor)) last) (sym rest)
          (subst (λ n. Chain (suc n) last l) is c.1) in
      rw kept (here, later)
  | inr dropped ↦
      rw dropped (entries_after-Chain (suc next) last cursor l c.1 (ground (arith, c.0)) k)
]

-- Control items stand for their entries.
Chain-Consecutive :
    (next last feed_id : ℕ) (l : List Entry)
    → Chain next last l
    → Consecutive next last (control_cursors (map (control_item feed_id) l))
Chain-Consecutive next last feed_id [] c = c
Chain-Consecutive next last feed_id (e ∷ l) c =
    (c.0, Chain-Consecutive (suc next) last feed_id l c.1)

control_cursors-gaps : (l : List (ℕ × Provenance)) → control_cursors (map gap_item l) ≡ []
control_cursors-gaps [] = refl
control_cursors-gaps (g ∷ l) = control_cursors-gaps l

control_cursors-natives : (l : List (Event × Provenance)) → control_cursors (map native_item l) ≡ []
control_cursors-natives [] = refl
control_cursors-natives (e ∷ l) = control_cursors-natives l

control_cursors-native_replay :
    (p : Projection) (cursor : Cursor) (sessions : Option (List ℕ))
    → control_cursors (native_replay p cursor sessions) ≡ []
unfolding native_replay
control_cursors-native_replay p cursor sessions =
    let gaps = gaps_from p cursor sessions p.native_seen in
    let gapped = map (λ (gap : ℕ × Provenance). gap.0) gaps in
    let events = filter (replays p cursor sessions gapped) p.native_journal in
    control_cursors-append (map gap_item gaps) (map native_item events)
    ∙ ap (λ l. l ++ control_cursors (map native_item events)) (control_cursors-gaps gaps)
    ∙ control_cursors-natives events

-- A cursor of the feed, no newer than the gateway, for which all later items are in the journal.
abbrev pub is_retained : Projection → Cursor → Bool
is_retained p cursor =
    (cursor.feed_id == p.feed_id)
    && (leb cursor.control_cursor p.control_cursor
        && leb p.control_cursor (cursor.control_cursor + length p.journal))

module _ (sort_authorities : List AuthorityRef → List AuthorityRef) where
  abbrev pub beat : Projection → Item
  beat p = heartbeat p.feed_id p.control_cursor (authority_refs sort_authorities p)

  abbrev natives : Projection → Cursor → Option (List ℕ) → Bool → List Item
  natives p cursor sessions include_native =
      if include_native then native_replay p cursor sessions else []

  control_cursors-natives-beat :
      (p : Projection) (cursor : Cursor) (sessions : Option (List ℕ)) (include_native : Bool)
      → control_cursors (natives p cursor sessions include_native ++ beat p ∷ []) ≡ []
  control_cursors-natives-beat p cursor sessions true =
      control_cursors-append (native_replay p cursor sessions) (beat p ∷ [])
      ∙ ap (λ l. l ++ []) (control_cursors-native_replay p cursor sessions)
  control_cursors-natives-beat p cursor sessions false = refl

  -- Under the invariant of the feed, a subscriber whose cursor the journal retains is given the control
  -- items after its cursor, each once and in order; any other cursor gets a reset alone.
  pub initial_items-Consecutive :
      (p : Projection) (cursor : Cursor) (sessions : Option (List ℕ)) (include_native : Bool)
      → Inv p
      → ((is_retained p cursor ≡ true)
          × Consecutive (suc cursor.control_cursor) p.control_cursor (
              control_cursors
                (initial_items sort_authorities p (some cursor) sessions include_native)))
        ⊎ ((is_retained p cursor ≡ false)
            × (initial_items sort_authorities p (some cursor) sessions include_native
                ≡ stream_reset cursor.feed_id p.feed_id p.control_cursor ∷ []))
  unfolding initial_items
  initial_items-Consecutive p cursor sessions include_native i =
      let (next, c) = i.chain in
      let whole = Chain-length next p.control_cursor p.journal c in
      let minimum = Chain-minimum next p.control_cursor p.journal c in
      elim (Bool-cases (is_retained p cursor)) [
        | inr r ↦ inr (r, ground (arith, whole, minimum))
        | inl r ↦
            let entries = entries_after cursor.control_cursor p.journal in
            let after =
              entries_after-Chain next p.control_cursor cursor.control_cursor p.journal c
                (ground (arith, whole)) (ground arith) in
            let rest = natives p cursor sessions include_native ++ beat p ∷ [] in
            let shape : initial_items sort_authorities p (some cursor) sessions include_native
                ≡ map (control_item p.feed_id) entries ++ rest =
              ground (arith, whole, minimum) in
            let cursors : control_cursors
                  (initial_items sort_authorities p (some cursor) sessions include_native)
                ≡ control_cursors (map (control_item p.feed_id) entries) =
              ap control_cursors shape
              ∙ control_cursors-append (map (control_item p.feed_id) entries) rest
              ∙ ap (λ l. control_cursors (map (control_item p.feed_id) entries) ++ l)
                  (control_cursors-natives-beat p cursor sessions include_native)
              ∙ append-nil (control_cursors (map (control_item p.feed_id) entries)) in
            inl (
              r,
              subst (Consecutive (suc cursor.control_cursor) p.control_cursor) (sym cursors) (
                  Chain-Consecutive (suc cursor.control_cursor) p.control_cursor p.feed_id entries
                    after),
            )
      ]

  -- Under the invariant of the feed, for a subscriber whose cursor the journal retains: its first
  -- items, with all that `ingest` then broadcasts, are the control items from the one after its cursor
  -- to the newest, each once and in order, whatever the sources send.
  pub initial_items-ingest_all :
      (p : Projection) (cursor : Cursor) (sessions : Option (List ℕ)) (include_native : Bool)
      → Inv p
      → is_retained p cursor ≡ true
      → (items : List (ℕ × Item))
      → (live : List Item) × (((ingest_all sort_authorities p items).broadcast
            ≡ p.broadcast ++ live)
          × Consecutive
              (suc cursor.control_cursor)
              (ingest_all sort_authorities p items).control_cursor
              (control_cursors
                (initial_items sort_authorities p (some cursor) sessions include_native ++ live)))
  initial_items-ingest_all p cursor sessions include_native i r items =
      let (live, sends) = ingest_all-Sends sort_authorities p items in
      let after = ingest_all sort_authorities p items in
      let first = initial_items sort_authorities p (some cursor) sessions include_native in
      elim (initial_items-Consecutive p cursor sessions include_native i) [
        | inr (f, e) ↦ absurd (ground (arith, r, f))
        | inl (t, c) ↦ (
          live,
          (
            sends.broadcast,
            subst (Consecutive (suc cursor.control_cursor) after.control_cursor)
                (sym (control_cursors-append first live))
                (Consecutive-append (suc cursor.control_cursor) p.control_cursor
                  after.control_cursor (control_cursors first) (control_cursors live) c
                  sends.consecutive),
          ),
        )
      ]
