-- ===== src/Gateway/Feed/Invariant.antt =====
-- What `ingest` keeps: the journals are bounded, the control journal ends in the newest items of the
-- feed, and the native journal agrees with what was seen of each session.
use agent_multiplex.Base.{
  ℕ, zero, suc, ◌-◌, ◌≤◌, ◌≡◌, inl, inr, Bool, true, false, ◌&&◌, ◌||◌, not, Option, none, some,
  List, [], ◌∷◌, ◌++◌, filter, drop, length, length-drop, All, All-append, Table, lookup, ltb, leb,
  ◌==◌, Bool-cases, arith,
}
use agent_multiplex.Stream.{Position}
use agent_multiplex.EventHub.{Event}
use agent_multiplex.Gateway.Feed.{
  Provenance, Entry, Projection, maximum_journal_items, push_bounded,
}

-- Entries with the cursors from `next` on, the last of which is `last`.
abbrev pub Chain : ℕ → ℕ → List Entry → Type 0
Chain next last [] = next ≡ suc last
Chain next last (e ∷ entries) = (e.cursor ≡ next) × Chain (suc next) last entries

-- What was seen of the session of an event is of its epoch, and no older.
abbrev pub known : Option Position → Event → Bool
known none event = false
known (some seen) event =
    (seen.runtime_epoch == event.runtime_epoch) && leb event.sequence seen.sequence

abbrev pub Known : Table Position → Event × Provenance → Type 0
Known seen entry = known (lookup entry.0.session_id seen) entry.0 ≡ true

-- Of the events of one session, the later one has the greater sequence.
abbrev pub in_sequence : Event × Provenance → Event × Provenance → Bool
in_sequence first later =
    not (later.0.session_id == first.0.session_id) || ltb first.0.sequence later.0.sequence

abbrev pub InSequence : List (Event × Provenance) → Type 0
InSequence [] = Unit
InSequence (e ∷ entries) = All (λ later. in_sequence e later ≡ true) entries × InSequence entries

pub record Inv (p : Projection) : Type 0 where
  pub chain : (next : ℕ) × Chain next p.control_cursor p.journal
  pub journal_bounded : length p.journal ≤ maximum_journal_items
  pub native_bounded : length p.native_journal ≤ p.native_journal_capacity
  pub seen : All (Known p.native_seen) p.native_journal
  pub in_order : InSequence p.native_journal

pub Chain-append :
    (next last : ℕ) (entries : List Entry) (e : Entry)
    → Chain next last entries
    → e.cursor ≡ suc last
    → Chain next (suc last) (entries ++ e ∷ [])
Chain-append next last [] e c h = (ground arith, ground arith)
Chain-append next last (x ∷ entries) e c h = (c.0, Chain-append (suc next) last entries e c.1 h)

pub Chain-drop :
    (n next last : ℕ) (entries : List Entry)
    → Chain next last entries
    → (next' : ℕ) × Chain next' last (drop n entries)
Chain-drop zero next last entries c = (next, c)
Chain-drop (suc n) next last [] c = (next, c)
Chain-drop (suc n) next last (x ∷ entries) c = Chain-drop n (suc next) last entries c.1

pub length-push_bounded :
    {A : Type 0} (capacity : ℕ) (l : List A) (x : A) → length (push_bounded capacity l x) ≤ capacity
length-push_bounded capacity l x =
    omega (arith, length-drop (length (l ++ x ∷ []) - capacity) (l ++ x ∷ []))

pub InSequence-drop : (n : ℕ) (l : List (Event × Provenance)) → InSequence l → InSequence (drop n l)
InSequence-drop zero l h = h
InSequence-drop (suc n) [] h = h
InSequence-drop (suc n) (x ∷ l) h = InSequence-drop n l h.1

pub All-filter :
    {A : Type 0} (P : A → Type 0) (p : A → Bool) (l : List A) → All P l → All P (filter p l)
All-filter P p [] h = tt
All-filter P p (x ∷ l) h = elim (Bool-cases (p x)) [
  | inl e ↦ rw e (h.0, All-filter P p l h.1)
  | inr e ↦ rw e (All-filter P p l h.1)
]

pub InSequence-filter :
    (p : Event × Provenance → Bool) (l : List (Event × Provenance))
    → InSequence l
    → InSequence (filter p l)
InSequence-filter p [] h = tt
InSequence-filter p (x ∷ l) h = elim (Bool-cases (p x)) [
  | inl e ↦
      rw e (All-filter (λ later. in_sequence x later ≡ true) p l h.0, InSequence-filter p l h.1)
  | inr e ↦ rw e (InSequence-filter p l h.1)
]

pub InSequence-append :
    (l : List (Event × Provenance)) (x : Event × Provenance)
    → InSequence l
    → All (λ e. in_sequence e x ≡ true) l
    → InSequence (l ++ x ∷ [])
InSequence-append [] x h a = (tt, tt)
InSequence-append (e ∷ l) x h a = (
  All-append (λ later. in_sequence e later ≡ true) l (x ∷ []) h.0 (a.0, tt),
  InSequence-append l x h.1 a.1,
)
