-- ===== src/Terminal/Output.antt =====
-- Framing and coalescing keep every byte of the process's output, in order.
use mathlib.Core.List.{append-nil, append_assoc}
use agent_multiplex.Base.{
  ℕ, zero, suc, ◌≤◌, ◌≡◌, ◌∙◌, refl, sym, ap, Option, none, some, Bool-cases, inl, inr, List, [],
  ◌∷◌, ◌++◌, length, take, drop, take-append-drop, length-drop, All, arith,
}
use agent_multiplex.Terminal.{
  Dimensions, StreamItem, output, changed, resized, replay_start, replay_end, reset, heartbeat,
  Terminal, publish, publish_frame, publish_frames, accept_output, max_frame_bytes, running,
}
use agent_multiplex.Terminal.Attach.{flush, joined, overfull, same_dimensions, coalesce}

-- The bytes of the output items, in order.
abbrev pub output_bytes : List StreamItem → List ℕ
output_bytes [] = []
output_bytes (output sequence bytes ∷ l) = bytes ++ output_bytes l
output_bytes (changed sequence terminal ∷ l) = output_bytes l
output_bytes (resized sequence dimensions ∷ l) = output_bytes l
output_bytes (replay_start dimensions terminal ∷ l) = output_bytes l
output_bytes (replay_end sequence terminal ∷ l) = output_bytes l
output_bytes (reset reason sequence screen terminal ∷ l) = output_bytes l
output_bytes (heartbeat sequence ∷ l) = output_bytes l

abbrev pub Fits : StreamItem → Type 0
Fits (output sequence bytes) = length bytes ≤ max_frame_bytes
Fits _ = Unit

output_bytes-append :
    (l m : List StreamItem) → output_bytes (l ++ m) ≡ output_bytes l ++ output_bytes m
output_bytes-append [] m = refl
output_bytes-append (output sequence bytes ∷ l) m =
    ap (λ x. bytes ++ x) (output_bytes-append l m)
    ∙ sym (append_assoc bytes (output_bytes l) (output_bytes m))
output_bytes-append (changed sequence terminal ∷ l) m = output_bytes-append l m
output_bytes-append (resized sequence dimensions ∷ l) m = output_bytes-append l m
output_bytes-append (replay_start dimensions terminal ∷ l) m = output_bytes-append l m
output_bytes-append (replay_end sequence terminal ∷ l) m = output_bytes-append l m
output_bytes-append (reset reason sequence screen terminal ∷ l) m = output_bytes-append l m
output_bytes-append (heartbeat sequence ∷ l) m = output_bytes-append l m

abbrev held : Option (ℕ × List ℕ) → List ℕ
held none = []
held (some (sequence, bytes)) = bytes

abbrev Small : Option (ℕ × List ℕ) → Type 0
Small p = length (held p) ≤ max_frame_bytes

output_bytes-flush : (p : Option (ℕ × List ℕ)) → output_bytes (flush p) ≡ held p
output_bytes-flush none = refl
output_bytes-flush (some (sequence, bytes)) = append-nil bytes

held-joined : (p : Option (ℕ × List ℕ)) (bytes : List ℕ) → joined p bytes ≡ held p ++ bytes
held-joined none bytes = refl
held-joined (some (sequence, pending)) bytes = refl

-- A replay from the opening state carries the same output bytes in the same order as the items that
-- it is made of.
pub coalesce_bytes :
    (d : Dimensions) (p : Option (ℕ × List ℕ)) (items : List StreamItem)
    → output_bytes (coalesce d p items) ≡ held p ++ output_bytes items
coalesce_bytes d p [] = output_bytes-flush p ∙ sym (append-nil (held p))
coalesce_bytes d p (output sequence bytes ∷ items) = elim (Bool-cases (overfull p bytes)) [
  | inl full ↦ ground (
    arith,
    output_bytes-append (flush p) (coalesce d (some (sequence, bytes)) items),
    output_bytes-flush p,
    coalesce_bytes d (some (sequence, bytes)) items,
  )
  | inr room ↦ ground (
    arith,
    coalesce_bytes d (some (sequence, joined p bytes)) items,
    held-joined p bytes,
    append_assoc (held p) bytes (output_bytes items),
  )
]
coalesce_bytes d p (changed sequence terminal ∷ items) =
    elim (Bool-cases (same_dimensions terminal.dimensions d)) [
      | inl same ↦ ground (arith, same, coalesce_bytes d p items)
      | inr other ↦ ground (
        arith,
        output_bytes-append (flush p)
            (resized sequence terminal.dimensions ∷ coalesce terminal.dimensions none items),
        output_bytes-flush p,
        coalesce_bytes terminal.dimensions none items,
      )
    ]
coalesce_bytes d p (resized sequence dimensions ∷ items) = coalesce_bytes d p items
coalesce_bytes d p (replay_start dimensions terminal ∷ items) = coalesce_bytes d p items
coalesce_bytes d p (replay_end sequence terminal ∷ items) = coalesce_bytes d p items
coalesce_bytes d p (reset reason sequence screen terminal ∷ items) = coalesce_bytes d p items
coalesce_bytes d p (heartbeat sequence ∷ items) = coalesce_bytes d p items

length-take-le : (n : ℕ) (l : List ℕ) → length (take n l) ≤ n
length-take-le zero l = omega arith
length-take-le (suc n) [] = omega arith
length-take-le (suc n) (x ∷ l) = omega (arith, length-take-le n l)

-- The frames of some output are published after what was published before; together they are its
-- bytes in order, and each is within the limit.
publish_frames_lem :
    (fuel : ℕ) (t : Terminal) (bytes : List ℕ)
    → length bytes ≤ fuel
    → (frames : List StreamItem) × ((publish_frames fuel t bytes).published ≡ t.published ++ frames)
      × (output_bytes frames ≡ bytes)
      × All Fits frames
unfolding publish_frame publish
publish_frames_lem zero t [] h = ([], sym (append-nil t.published), refl, tt)
publish_frames_lem zero t (b ∷ bytes) h = absurd (omega arith)
publish_frames_lem (suc fuel) t [] h = ([], sym (append-nil t.published), refl, tt)
publish_frames_lem (suc fuel) t (b ∷ bytes) h =
    let frame = take max_frame_bytes (b ∷ bytes) in
    let rest = drop max_frame_bytes (b ∷ bytes) in
    let (frames, published, whole, fit) =
      publish_frames_lem fuel (publish_frame t frame) rest
        (omega (arith, length-drop max_frame_bytes (b ∷ bytes))) in
    (
      output (suc t.sequence) frame ∷ frames,
      published ∙ append_assoc t.published (output (suc t.sequence) frame ∷ []) frames,
      ap (λ l. frame ++ l) whole ∙ take-append-drop max_frame_bytes (b ∷ bytes),
      (length-take-le max_frame_bytes (b ∷ bytes), fit),
    )

-- A running terminal publishes all output of its process: the new items carry exactly its bytes, in
-- order, in frames of at most 16 384 bytes.
pub accept_output_bytes :
    (t : Terminal) (bytes : List ℕ)
    → t.state ≡ running
    → (frames : List StreamItem) × ((accept_output t bytes).published ≡ t.published ++ frames)
      × (output_bytes frames ≡ bytes)
      × All Fits frames
unfolding accept_output
accept_output_bytes t bytes r =
    let (frames, published, whole, fit) = publish_frames_lem (length bytes) t bytes (omega arith) in
    (frames, ground (arith, published), whole, fit)
