-- ===== src/Gateway/Feed/Resume.antt =====
-- A subscriber gets the control items of the gateway's feed without a gap, over the replay and the
-- live items.
use agent_multiplex.Base.{
  ℕ, suc, ◌≡◌, ◌∙◌, sym, ap, refl, subst, inl, inr, some, List, [], ◌∷◌, ◌++◌, has, delete,
  Bool-cases, arith,
}
use mathlib.Core.List.{append-nil}
use agent_multiplex.Gateway.{SourceSnapshot, Source}
use agent_multiplex.Gateway.Changes.{Change}
use agent_multiplex.Gateway.Coverage.{includes}
use agent_multiplex.Gateway.Owners.{claim_sources, no_owners}
use agent_multiplex.Gateway.Feed.{
  Provenance, Item, control, native, native_gap, heartbeat, stream_reset, Projection, put_source,
  send, remove_native_session, selected_snapshots, forget_unowned, keys, rebuild_owners,
  remember_change,
}
use agent_multiplex.Gateway.Feed.Ingest.{applied, apply_source_control, publish_control}
use agent_multiplex.Gateway.Feed.Publication.{remember_change-SameFeed}

-- The cursors of the control items among some items, in order.
abbrev pub control_cursors : List Item → List ℕ
control_cursors [] = []
control_cursors (control feed_id cursor provenance change ∷ items) = cursor ∷ control_cursors items
control_cursors (native event provenance ∷ items) = control_cursors items
control_cursors (native_gap session_id provenance ∷ items) = control_cursors items
control_cursors (heartbeat feed_id cursor refs ∷ items) = control_cursors items
control_cursors (stream_reset previous feed_id cursor ∷ items) = control_cursors items

-- The numbers from `next` to `last`.
abbrev pub Consecutive : ℕ → ℕ → List ℕ → Type 0
Consecutive next last [] = next ≡ suc last
Consecutive next last (x ∷ xs) = (x ≡ next) × Consecutive (suc next) last xs

pub control_cursors-append :
    (xs ys : List Item) → control_cursors (xs ++ ys) ≡ control_cursors xs ++ control_cursors ys
control_cursors-append [] ys = refl
control_cursors-append (control feed_id cursor provenance change ∷ xs) ys =
    ap (◌∷◌ cursor) (control_cursors-append xs ys)
control_cursors-append (native event provenance ∷ xs) ys = control_cursors-append xs ys
control_cursors-append (native_gap session_id provenance ∷ xs) ys = control_cursors-append xs ys
control_cursors-append (heartbeat feed_id cursor refs ∷ xs) ys = control_cursors-append xs ys
control_cursors-append (stream_reset previous feed_id cursor ∷ xs) ys = control_cursors-append xs ys

pub Consecutive-append :
    (next middle last : ℕ) (xs ys : List ℕ)
    → Consecutive next middle xs
    → Consecutive (suc middle) last ys
    → Consecutive next last (xs ++ ys)
Consecutive-append next middle last [] ys c d = subst (λ n. Consecutive n last ys) (sym c) d
Consecutive-append next middle last (x ∷ xs) ys c d =
    (c.0, Consecutive-append (suc next) middle last xs ys c.1 d)

-- What a call broadcasts: the control items that it adds to the feed.
pub record Sends (p q : Projection) (items : List Item) : Type 0 where
  pub broadcast : q.broadcast ≡ p.broadcast ++ items
  pub feed_id : q.feed_id ≡ p.feed_id
  pub consecutive : Consecutive (suc p.control_cursor) q.control_cursor (control_cursors items)

-- A call that broadcasts nothing.
pub record Quiet (p q : Projection) : Type 0 where
  pub broadcast : q.broadcast ≡ p.broadcast
  pub feed_id : q.feed_id ≡ p.feed_id
  pub control_cursor : q.control_cursor ≡ p.control_cursor

Quiet-trans : (p q r : Projection) → Quiet p q → Quiet q r → Quiet p r
Quiet-trans p q r h k = ground arith

forget_unowned-Quiet : (ids : List ℕ) (p : Projection) → Quiet p (forget_unowned ids p)
unfolding forget_unowned remove_native_session
forget_unowned-Quiet [] p = ground arith
forget_unowned-Quiet (id ∷ ids) p =
    let forgotten = remove_native_session id (record p { native_seen = delete id p.native_seen }) in
    let here : Quiet p forgotten = ground arith in
    elim (Bool-cases (has id p.owners.sessions)) [
      | inl e ↦ rw e (forget_unowned-Quiet ids p)
      | inr e ↦ rw e (
          Quiet-trans p forgotten (forget_unowned ids forgotten) here
            (forget_unowned-Quiet ids forgotten))
    ]

rebuild_owners-Quiet : (p : Projection) → Quiet p (rebuild_owners p).0
unfolding rebuild_owners
rebuild_owners-Quiet p =
    let claimed = claim_sources (selected_snapshots p.selected p.sources) no_owners in
    let p' = record p { owners = claimed.0 } in
    let here : Quiet p p' = ground arith in
    let forgotten =
      Quiet-trans p p' (forget_unowned (keys p.native_seen) p') here
        (forget_unowned-Quiet (keys p.native_seen) p') in
    elim (Bool-cases claimed.1) [ inl e ↦ rw e forgotten | inr e ↦ rw e here ]

pub apply_source_control-Quiet :
    (p : Projection) (source : Source) (s : SourceSnapshot) (cursor : ℕ) (change : Change)
    → Quiet p (apply_source_control p source s cursor change).0
unfolding apply_source_control
apply_source_control-Quiet p source s cursor change =
    let updated = record p {
      sources = put_source (record source { snapshot = some (applied s cursor change) }) p.sources;
    } in
    let remembered = remember_change source.source_id change updated in
    let same = remember_change-SameFeed source.source_id change updated in
    let here : Quiet p updated = ground arith in
    let here' : Quiet p remembered = ground (arith, same) in
    let rebuilt =
      Quiet-trans p remembered (rebuild_owners remembered).0 here'
        (rebuild_owners-Quiet remembered) in
    elim (Bool-cases (includes p.selected source.source_id)) [
      | inl e ↦ rw e rebuilt
      | inr e ↦ rw e here
    ]

pub Quiet-Sends : (p q : Projection) → Quiet p q → Sends p q []
Quiet-Sends p q h = record {
  broadcast = h.broadcast ∙ sym (append-nil p.broadcast);
  feed_id = h.feed_id;
  consecutive = ap suc (sym h.control_cursor);
}

-- An item that is no control item, broadcast after a quiet change.
pub send-Sends :
    (p q : Projection) (item : Item)
    → Quiet p q
    → control_cursors (item ∷ []) ≡ []
    → Sends p (send item q) (item ∷ [])
unfolding send
send-Sends p q item h e = record {
  broadcast = ap (λ l. l ++ item ∷ []) h.broadcast;
  feed_id = h.feed_id;
  consecutive = rw e (ap suc (sym h.control_cursor));
}

pub publish_control-Sends :
    (provenance : Provenance) (change : Change) (p q : Projection)
    → Quiet p q
    → Sends p
        (publish_control provenance change q)
        (control q.feed_id (suc q.control_cursor) provenance change ∷ [])
unfolding publish_control send
publish_control-Sends provenance change p q h = record {
  broadcast =
      ap (λ l. l ++ control q.feed_id (suc q.control_cursor) provenance change ∷ []) h.broadcast;
  feed_id = h.feed_id;
  consecutive = (ap suc h.control_cursor, ap (λ n. suc (suc n)) (sym h.control_cursor));
}
