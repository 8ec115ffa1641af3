-- ===== src/Client/Cursor/Progress.antt =====
-- Cursors only move forward within a feed, and the two cursor keepers agree.
use agent_multiplex.Base.{
  ◌≢◌, ◌⊎◌, ℕ, ◌≤◌, ◌≡◌, false, Option, none, some, Bool-cases, inl, inr, lookup, lookup-insert,
  ◌==◌, arith,
}
use agent_multiplex.Stream.{
  Position, Cursor, Item, control, native, native_gap, heartbeat, stream_reset, is_stream_reset,
}
use agent_multiplex.Client.Cursor.{at_or_after, advance_feed, advance_native, advance_access_cursor}

abbrev pub Reached : Option Position → Position → Type 0
Reached none p = ⊥
Reached (some q) p = (q.runtime_epoch ≢ p.runtime_epoch) ⊎ (p.sequence ≤ q.sequence)

Reached-some :
    (o : Option Position) (q p : Position)
    → o ≡ some q
    → (q.runtime_epoch ≢ p.runtime_epoch) ⊎ (p.sequence ≤ q.sequence)
    → Reached o p
Reached-some none q p e h = ground arith
Reached-some (some o) q p e (inl h) = inl (λ i. h (ground (arith, i)))
Reached-some (some o) q p e (inr h) = inr (ground arith)

abbrev Forward : Cursor → Cursor → Type 0
Forward c d =
    (c.control_cursor ≤ d.control_cursor)
    × ((session_id : ℕ) (p : Position)
        → lookup session_id c.native ≡ some p
        → Reached (lookup session_id d.native) p)

feed-Forward :
    (c : Cursor) (feed_id cursor : ℕ)
    → c.feed_id ≡ (advance_feed (some c) feed_id cursor).feed_id
    → Forward c (advance_feed (some c) feed_id cursor)
unfolding advance_feed
feed-Forward c feed_id cursor same = elim (Bool-cases (c.feed_id == feed_id)) [
  | inl e ↦ (
    ground arith,
    λ s p h.
        Reached-some (lookup s (advance_feed (some c) feed_id cursor).native) p p (ground arith)
          (inr (omega arith)),
  )
  | inr e ↦ ground arith
]

native-Forward :
    (c d : Cursor) (session_id runtime_epoch sequence : ℕ)
    → advance_native (some c) session_id runtime_epoch sequence ≡ some d
    → Forward c d
unfolding advance_native at_or_after
native-Forward c d session_id runtime_epoch sequence e =
    let new : Position = record { runtime_epoch = runtime_epoch; sequence = sequence } in
    elim (Bool-cases (at_or_after (lookup session_id c.native) runtime_epoch sequence)) [
      | inl old ↦ (
        ground arith,
        λ s p h. Reached-some (lookup s d.native) p p (ground arith) (inr (omega arith)),
      )
      | inr fresh ↦ (
        ground arith,
        λ s p h. elim (Bool-cases (session_id == s)) [
          | inl here ↦
              Reached-some (lookup s d.native) new p
                (ground (arith, lookup-insert session_id s new c.native)) (ground arith)
          | inr other ↦
              Reached-some (lookup s d.native) p p
                (ground (arith, lookup-insert session_id s new c.native)) (inr (omega arith))
        ],
      )
    ]

progress :
    (c d : Cursor) (item : Item)
    → advance_access_cursor (some c) item ≡ some d
    → is_stream_reset item ≡ false
    → c.feed_id ≡ d.feed_id
    → Forward c d
unfolding advance_access_cursor
progress c d (control feed_id cursor content) e r same =
    ground (arith, feed-Forward c feed_id cursor)
progress c d (heartbeat feed_id cursor) e r same = ground (arith, feed-Forward c feed_id cursor)
progress c d (native session_id runtime_epoch sequence content) e r same =
    native-Forward c d session_id runtime_epoch sequence e
progress c d (native_gap session_id content) e r same =
    (ground arith, λ s p h. Reached-some (lookup s d.native) p p (ground arith) (inr (omega arith)))
progress c d (stream_reset feed_id cursor content) e r same = ground arith

-- An item other than a reset that leaves the cursor in its feed moves neither the control cursor
-- back, nor the position of any session within its runtime epoch, and forgets no session.
pub advance_access_cursor_progress :
    (c d : Cursor) (item : Item) (session_id : ℕ) (p : Position)
    → advance_access_cursor (some c) item ≡ some d
    → is_stream_reset item ≡ false
    → c.feed_id ≡ d.feed_id
    → lookup session_id c.native ≡ some p
    → (c.control_cursor ≤ d.control_cursor) × Reached (lookup session_id d.native) p
advance_access_cursor_progress c d item session_id p e r same h =
    let (forward, positions) = progress c d item e r same in (forward, positions session_id p h)
