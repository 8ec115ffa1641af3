-- ===== src/Client/Watch/Redelivery.antt =====
-- What the application gets from a watch, and how its cursor moves.
use agent_multiplex.Base.{
  ℕ, subst, sym, ap, ◌≤◌, ◌<◌, ◌≡◌, ◌∙◌, refl, Bool, true, false, not, Option, none, some,
  Option-cases, inl, inr, List, [], ◌∷◌, ◌++◌, filter, All, lookup, ◌==◌, max, arith,
}
use agent_multiplex.Stream.{Cursor, Item, control, native, native_gap, heartbeat, stream_reset}
use agent_multiplex.Client.Cursor.{
  at_or_after, advance_feed, advance_native, advance_access_cursor, AccessCursor, observe_feed,
  observe_native, observe,
}
use agent_multiplex.Client.Watch.{
  Watch, position, has_seen, same_key, evict, commit, already_committed, note_pending, settle,
  commit_item, on_data,
}

abbrev pub keeper : Watch → AccessCursor
keeper w = record { cursor = w.cursor; pending_native = w.pending_native }

-- Whether a native item is not behind the position that the cursor holds for its session.
abbrev pub in_order : Option Cursor → Item → Bool
in_order none item = true
in_order (some c) (native session_id runtime_epoch sequence content) =
    not (at_or_after (lookup session_id c.native) runtime_epoch sequence)
in_order (some c) _ = true

-- Except for a native item at or behind its session's position, a committed item moves the cursor of
-- a watch, and the positions that it holds back until the feed is known, as `AccessCursor` does.
pub commit_item-observe :
    (w : Watch) (item : Item)
    → in_order w.cursor item ≡ true
    → keeper (commit_item w item) ≡ observe (keeper w) item
unfolding commit_item note_pending settle advance_access_cursor advance_feed advance_native observe
    observe_feed observe_native
commit_item-observe w (control feed_id cursor content) o = ground arith
commit_item-observe w (heartbeat feed_id cursor) o = ground arith
commit_item-observe w (native session_id runtime_epoch sequence content) o = ground arith
commit_item-observe w (native_gap session_id content) o = ground arith
commit_item-observe w (stream_reset feed_id cursor content) o = ground arith

-- Control and native items have an identity by which a replay is known.
abbrev pub replayable : Item → Bool
replayable (control feed_id cursor content) = true
replayable (native session_id runtime_epoch sequence content) = true
replayable _ = false

position-append :
    (l : List ((ℕ × ℕ) × ℕ)) (s e n : ℕ)
    → position (filter (λ x. not (same_key s e x)) l ++ ((s, e), n) ∷ []) s e ≡ some n
position-append [] s e n = ground arith
position-append (x ∷ l) s e n = ground (arith, position-append l s e n)

position-evict :
    (l : List ((ℕ × ℕ) × ℕ)) (s e n : ℕ)
    → position (evict (filter (λ x. not (same_key s e x)) l ++ ((s, e), n) ∷ [])) s e ≡ some n
position-evict [] s e n = ground arith
position-evict (x ∷ l) s e n = ground (arith, position-evict l s e n, position-append l s e n)

committed :
    (w : Watch) (item : Item)
    → replayable item ≡ true
    → already_committed (commit_item w item) item ≡ true
    → already_committed (on_data w item true).0 item ≡ true
unfolding on_data
committed w item r c = ground (arith, c)

commits :
    (w : Watch) (item : Item)
    → replayable item ≡ true
    → already_committed (commit_item w item) item ≡ true
unfolding commit_item commit note_pending settle advance_access_cursor advance_feed advance_native
    already_committed has_seen
commits w (control feed_id cursor content) r = ground arith
commits w (native session_id runtime_epoch sequence content) r = ground (
  arith,
  position-evict
      (settle w.cursor (advance_native w.cursor session_id runtime_epoch sequence) false
        (note_pending w (native session_id runtime_epoch sequence content)) w).seen
      session_id runtime_epoch sequence,
)
commits w (native_gap session_id content) r = ground arith
commits w (heartbeat feed_id cursor) r = ground arith
commits w (stream_reset feed_id cursor content) r = ground arith

-- After an accepted control or native item, a replay of the same item changes nothing, and the
-- application does not get it again; after a rejected one, the state is as before it.
pub on_data_once :
    (w : Watch) (item : Item) (accepted : Bool)
    → replayable item ≡ true
    → (on_data (on_data w item true).0 item accepted ≡ ((on_data w item true).0, none))
      × ((on_data w item false).0 ≡ w)
unfolding on_data
on_data_once w item accepted r = ground (arith, committed w item r (commits w item r))

abbrev with_got : Option Item → List Item → List Item
with_got none items = items
with_got (some item) items = item ∷ items

-- The items of a stream, one after the other, with those that the application gets.
abbrev pub watch_all : Watch → List Item → List Item
watch_all w [] = []
watch_all w (item ∷ items) =
    with_got (on_data w item true).1 (watch_all (on_data w item true).0 items)

-- The feed that an item names, if it continues one.
abbrev pub continues : ℕ → Item → Bool
continues feed (control feed_id cursor content) = feed == feed_id
continues feed (heartbeat feed_id cursor) = feed == feed_id
continues feed (stream_reset feed_id cursor content) = false
continues feed _ = true

abbrev pub controls : List Item → List ℕ
controls [] = []
controls (control feed_id cursor content ∷ l) = cursor ∷ controls l
controls (native session_id runtime_epoch sequence content ∷ l) = controls l
controls (native_gap session_id content ∷ l) = controls l
controls (heartbeat feed_id cursor ∷ l) = controls l
controls (stream_reset feed_id cursor content ∷ l) = controls l

abbrev pub Increasing : ℕ → List ℕ → Type 0
Increasing n [] = Unit
Increasing n (k ∷ l) = (n < k) × Increasing k l

Increasing-le : (n m : ℕ) (l : List ℕ) → n ≤ m → Increasing m l → Increasing n l
Increasing-le n m [] h i = tt
Increasing-le n m (k ∷ l) h i = (omega (arith, i.0), i.1)

Increasing-controls :
    (n m : ℕ) (item : Item) (items : List Item)
    → Increasing m (controls items)
    → n ≤ m
    → ((feed k content : ℕ) → item ≡ control feed k content → (n < k) × (k ≤ m))
    → Increasing n (controls (item ∷ items))
Increasing-controls n m (control feed_id k content) items i le h =
    let (above, below) = h feed_id k content refl in
    (above, Increasing-le k m (controls items) below i)
Increasing-controls n m (native session_id runtime_epoch sequence content) items i le h =
    Increasing-le n m (controls items) le i
Increasing-controls n m (native_gap session_id content) items i le h =
    Increasing-le n m (controls items) le i
Increasing-controls n m (heartbeat feed_id cursor) items i le h =
    Increasing-le n m (controls items) le i
Increasing-controls n m (stream_reset feed_id cursor content) items i le h =
    Increasing-le n m (controls items) le i

-- An item of the watch's feed keeps the feed and moves the control cursor forward; a control item
-- that the application gets lies between the old cursor and the new one.
on_data_forward :
    (w : Watch) (c : Cursor) (item : Item)
    → w.cursor ≡ some c
    → continues c.feed_id item ≡ true
    → (d : Cursor) × ((on_data w item true).0.cursor ≡ some d)
      × (d.feed_id ≡ c.feed_id)
      × (c.control_cursor ≤ d.control_cursor)
      × ((feed k content : ℕ)
          → (on_data w item true).1 ≡ some (control feed k content)
          → (c.control_cursor < k) × (k ≤ d.control_cursor))
unfolding on_data commit_item note_pending settle advance_access_cursor advance_feed advance_native
    already_committed has_seen
on_data_forward w c (control feed_id cursor content) e f = (
  record c { control_cursor = max c.control_cursor cursor },
  ground arith,
  refl,
  omega arith,
  λ feed k content' h. ground arith,
)
on_data_forward w c (native session_id runtime_epoch sequence content) e f =
    elim (Option-cases
      (on_data w (native session_id runtime_epoch sequence content) true).0.cursor) [
        | inl lost ↦ ground arith
        | inr (d, kept) ↦ (d, kept, ground arith, ground arith, λ feed k content' h. ground arith)
      ]
on_data_forward w c (native_gap session_id content) e f =
    (c, ground arith, refl, omega arith, λ feed k content' h. ground arith)
on_data_forward w c (heartbeat feed_id cursor) e f = (
  record c { control_cursor = max c.control_cursor cursor },
  ground arith,
  refl,
  omega arith,
  λ feed k content' h. ground arith,
)
on_data_forward w c (stream_reset feed_id cursor content) e f = ground arith

-- While a stream continues one feed, the control items that the application gets from it have
-- increasing cursors, all above the cursor that the watch started from.
pub watch_all-Increasing :
    (w : Watch) (c : Cursor) (items : List Item)
    → w.cursor ≡ some c
    → All (λ item. continues c.feed_id item ≡ true) items
    → Increasing c.control_cursor (controls (watch_all w items))
watch_all-Increasing w c [] e h = tt
watch_all-Increasing w c (item ∷ items) e h =
    let (d, e', f, le, between) = on_data_forward w c item e h.0 in
    let rest =
      watch_all-Increasing (on_data w item true).0 d items e'
        (subst (λ n. All (λ i. continues n i ≡ true) items) (sym f) h.1) in
    elim (Option-cases (on_data w item true).1) [
      | inl none_got ↦
          subst
            (λ o.
              Increasing c.control_cursor
                (controls (with_got o (watch_all (on_data w item true).0 items))))
            (sym none_got)
            (Increasing-le c.control_cursor d.control_cursor
              (controls (watch_all (on_data w item true).0 items)) le rest)
      | inr (got, some_got) ↦
          subst
            (λ o.
              Increasing c.control_cursor
                (controls (with_got o (watch_all (on_data w item true).0 items))))
            (sym some_got)
            (Increasing-controls c.control_cursor d.control_cursor got
              (watch_all (on_data w item true).0 items) rest le
              (λ feed k content is. between feed k content (some_got ∙ ap some is)))
    ]
