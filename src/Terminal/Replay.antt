-- ===== src/Terminal/Replay.antt =====
-- The replay ring holds the newest items with no gap, and a subscriber resumes without loss.
use agent_multiplex.Base.{
  ℕ, zero, suc, ◌+◌, ◌-◌, ◌≤◌, ◌≡◌, refl, subst, Bool, true, false, ◌||◌, Option, none, some,
  Bool-cases, inl, inr, List, [], ◌∷◌, ◌++◌, map, length, take, drop, if◌then◌else◌, length-append,
  ltb, leb, arith,
}
use agent_multiplex.Terminal.{
  State, Limits, Lease, StreamItem, output, changed, sequence_of, Terminal, is_running, descriptor,
  shrink, publish, publish_frame, publish_frames, accept_output, emit_changed, clear_lease,
  expire_lease_if_needed, retire, max_frame_bytes,
}

-- The items' sequences count up from the successor of `n`.
abbrev pub Numbered : ℕ → List StreamItem → Type 0
Numbered n [] = Unit
Numbered n (item ∷ l) = (sequence_of item ≡ suc n) × Numbered (suc n) l

abbrev pub items_of : List (StreamItem × ℕ) → List StreamItem
items_of = map (λ (e : StreamItem × ℕ). e.0)

abbrev pub total : List (StreamItem × ℕ) → ℕ
total [] = 0
total (e ∷ l) = e.1 + total l

-- The ring ends at the terminal's sequence, and its limits and its byte count are right.
pub record Ring (t : Terminal) : Type 0 where
  pub start : ℕ
  pub numbered : Numbered start (items_of t.replay)
  pub ends : start + length t.replay ≡ t.sequence
  pub counted : t.replay_bytes ≡ total t.replay
  pub few : length t.replay ≤ t.limits.replay_items
  pub small : t.replay_bytes ≤ t.limits.replay_bytes

record Shrunk (limits : Limits) (n : ℕ) (before : ℕ) (after : List (StreamItem × ℕ) × ℕ)
    : Type 0 where
  pub start : ℕ
  pub numbered : Numbered start (items_of after.0)
  pub ends : start + length after.0 ≡ n + before
  pub counted : after.1 ≡ total after.0
  pub few : length after.0 ≤ limits.replay_items
  pub small : after.1 ≤ limits.replay_bytes

shrink-Shrunk :
    (limits : Limits) (n : ℕ) (l : List (StreamItem × ℕ)) (bytes : ℕ)
    → Numbered n (items_of l)
    → bytes ≡ total l
    → Shrunk limits n (length l) (shrink limits l bytes)
shrink-Shrunk limits n [] bytes h e = record {
  start = n;
  numbered = tt;
  ends = refl;
  counted = e;
  few = omega arith;
  small = omega arith;
}
shrink-Shrunk limits n (entry ∷ rest) bytes h e =
    elim (Bool-cases
      (ltb limits.replay_items (suc (length rest)) || ltb limits.replay_bytes bytes)) [
        | inl full ↦
            let s = shrink-Shrunk limits (suc n) rest (bytes - entry.1) h.1 (omega arith) in
            subst (λ r. Shrunk limits n (length (entry ∷ rest)) r) (ground arith)
              record {
                start = s.start;
                numbered = s.numbered;
                ends = omega (arith, s.ends);
                counted = s.counted;
                few = s.few;
                small = s.small;
              }
        | inr fits ↦
            let same : (entry ∷ rest, bytes) ≡ shrink limits (entry ∷ rest) bytes = ground arith in
            subst (λ r. Shrunk limits n (length (entry ∷ rest)) r) same
              record {
                start = n;
                numbered = h;
                ends = refl;
                counted = e;
                few = ground arith;
                small = ground arith;
              }
      ]

Numbered-append :
    (n : ℕ) (l : List (StreamItem × ℕ)) (item : StreamItem) (bytes : ℕ)
    → Numbered n (items_of l)
    → sequence_of item ≡ suc (n + length l)
    → Numbered n (items_of (l ++ (item, bytes) ∷ []))
Numbered-append n [] item bytes h e = (omega arith, tt)
Numbered-append n (x ∷ l) item bytes h e =
    (h.0, Numbered-append (suc n) l item bytes h.1 (omega arith))

total-append : (l m : List (StreamItem × ℕ)) → total (l ++ m) ≡ total l + total m
total-append [] m = omega arith
total-append (e ∷ l) m = omega (arith, total-append l m)

-- Publishing the next item of a terminal keeps its ring.
publish-Ring :
    (t : Terminal) (item : StreamItem) (bytes : ℕ) (n : ℕ)
    → (r : Ring (record t { sequence = n })) → t.sequence ≡ suc n
    → sequence_of item ≡ suc n
    → Ring (publish t item bytes)
unfolding publish
publish-Ring t item bytes n r e i =
    let s =
      shrink-Shrunk t.limits r.start (t.replay ++ (item, bytes) ∷ []) (t.replay_bytes + bytes)
        (Numbered-append r.start t.replay item bytes r.numbered (omega (arith, r.ends)))
        (omega (arith, r.counted, total-append t.replay ((item, bytes) ∷ []))) in
    record {
      start = s.start;
      numbered = s.numbered;
      ends = omega (arith, s.ends, r.ends, length-append t.replay ((item, bytes) ∷ []));
      counted = s.counted;
      few = s.few;
      small = s.small;
    }

publish_frame-Ring : (t : Terminal) (frame : List ℕ) → Ring t → Ring (publish_frame t frame)
unfolding publish_frame
publish_frame-Ring t frame r =
    publish-Ring (record t { sequence = suc t.sequence; last_output_sequence = suc t.sequence })
      (output (suc t.sequence) frame) (length frame) t.sequence
      record {
        start = r.start;
        numbered = r.numbered;
        ends = r.ends;
        counted = r.counted;
        few = r.few;
        small = r.small;
      }
      refl refl

publish_frames-Ring :
    (fuel : ℕ) (t : Terminal) (bytes : List ℕ) → Ring t → Ring (publish_frames fuel t bytes)
publish_frames-Ring zero t bytes r = r
publish_frames-Ring (suc fuel) t [] r = r
publish_frames-Ring (suc fuel) t (b ∷ bytes) r =
    publish_frames-Ring fuel (publish_frame t (take max_frame_bytes (b ∷ bytes)))
      (drop max_frame_bytes (b ∷ bytes)) (publish_frame-Ring t (take max_frame_bytes (b ∷ bytes)) r)

if_Ring : (b : Bool) (t u : Terminal) → Ring t → Ring u → Ring (if b then t else u)
if_Ring true t u r s = r
if_Ring false t u r s = s

pub accept_output-Ring : (t : Terminal) (bytes : List ℕ) → Ring t → Ring (accept_output t bytes)
unfolding accept_output
accept_output-Ring t bytes r =
    if_Ring (is_running t.state) (publish_frames (length bytes) t bytes) t
      (publish_frames-Ring (length bytes) t bytes r) r

pub emit_changed-Ring : (t : Terminal) → Ring t → Ring (emit_changed t)
unfolding emit_changed
emit_changed-Ring t r =
    publish-Ring (record t { sequence = suc t.sequence })
      (changed (suc t.sequence) (descriptor (record t { sequence = suc t.sequence }))) 256
      t.sequence
      record {
        start = r.start;
        numbered = r.numbered;
        ends = r.ends;
        counted = r.counted;
        few = r.few;
        small = r.small;
      }
      refl refl

clear_lease-Ring : (t : Terminal) (emit : Bool) → Ring t → Ring (clear_lease t emit)
unfolding clear_lease
clear_lease-Ring t emit r = cleared t.lease emit
  where
    bare : Ring (record t { lease = none })
    bare = record {
      start = r.start;
      numbered = r.numbered;
      ends = r.ends;
      counted = r.counted;
      few = r.few;
      small = r.small;
    }

    cleared :
        (l : Option Lease) (emit : Bool)
        → Ring (elim l [
          | none ↦ t
          | some lease ↦
              if emit then emit_changed (record t { lease = none }) else record t { lease = none }
        ])
    cleared none emit = r
    cleared (some lease) true = emit_changed-Ring (record t { lease = none }) bare
    cleared (some lease) false = bare

pub expire_lease_if_needed-Ring :
    (t : Terminal) (now : ℕ) → Ring t → Ring (expire_lease_if_needed t now)
unfolding expire_lease_if_needed
expire_lease_if_needed-Ring t now r = expired t.lease
  where
    expired :
        (l : Option Lease)
        → Ring (elim l [
          | none ↦ t
          | some lease ↦ if leb lease.summary.expires_at now then clear_lease t true else t
        ])
    expired none = r
    expired (some lease) =
        if_Ring (leb lease.summary.expires_at now) (clear_lease t true) t
          (clear_lease-Ring t true r) r

pub retire-Ring : (t : Terminal) (exit : ℕ) (state : State) → Ring t → Ring (retire t exit state)
unfolding retire
retire-Ring t exit state r =
    let ended = record t { state = state; exit = some exit } in
    let ended_Ring : Ring ended = record {
      start = r.start;
      numbered = r.numbered;
      ends = r.ends;
      counted = r.counted;
      few = r.few;
      small = r.small;
    } in
    if_Ring (is_running t.state) (emit_changed (clear_lease ended false)) t
      (emit_changed-Ring (clear_lease ended false) (clear_lease-Ring ended false ended_Ring)) r

-- What the process, the clock and the broker do to a terminal's stream.
pub data Event : Type 0 where
  outputs : (bytes : List ℕ) → Event
  changes : Event
  ticks : (now : ℕ) → Event
  retires : (exit : ℕ) → (state : State) → Event

pub happen : Terminal → Event → Terminal
happen t (outputs bytes) = accept_output t bytes
happen t changes = emit_changed t
happen t (ticks now) = expire_lease_if_needed t now
happen t (retires exit state) = retire t exit state

pub happen_all : Terminal → List Event → Terminal
happen_all t [] = t
happen_all t (e ∷ events) = happen_all (happen t e) events

-- Over every history of a terminal whose replay ring is within both of its limits and holds the items
-- up to the current sequence, numbered with no gap, the ring stays so.
pub happen_all-Ring : (t : Terminal) (events : List Event) → Ring t → Ring (happen_all t events)
unfolding happen_all happen
happen_all-Ring t [] r = r
happen_all-Ring t (outputs bytes ∷ events) r =
    happen_all-Ring (accept_output t bytes) events (accept_output-Ring t bytes r)
happen_all-Ring t (changes ∷ events) r =
    happen_all-Ring (emit_changed t) events (emit_changed-Ring t r)
happen_all-Ring t (ticks now ∷ events) r =
    happen_all-Ring (expire_lease_if_needed t now) events (expire_lease_if_needed-Ring t now r)
happen_all-Ring t (retires exit state ∷ events) r =
    happen_all-Ring (retire t exit state) events (retire-Ring t exit state r)
