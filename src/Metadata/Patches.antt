-- ===== src/Metadata/Patches.antt =====
-- When a patch is accepted, what fences a lost update, and how the optimistic view meets the
-- canonical one.
use agent_multiplex.Base.{
  ℕ, ◌+◌, ◌≤◌, ◌≡◌, refl, subst, ◌∙◌, ◌≢◌, ◌↔◌, ◌⊎◌, inl, inr, true, Option, some, List, [], ◌∷◌,
  Table, lookup, same_option, same_option_iff, All, Bool-cases, arith,
}
use agent_multiplex.Metadata.{
  Snapshot, Patch, Conflict, accepted, rejected, or_empty, find_conflicts, next_snapshot,
  decide_patch, apply_metadata_patch, overlay_values, overlay_metadata,
}
use agent_multiplex.Metadata.Touch.{touches, next_snapshot_lem}

abbrev pub Holds : Snapshot → ℕ × Option ℕ → Type 0
Holds s (key, expected) = lookup key s.key_revisions ≡ expected

-- A conflict is a condition that fails, told with the actual revision and value of its key.
abbrev pub Reports : Snapshot → Conflict → Type 0
Reports s c =
    (c.actual_revision ≢ c.expected_revision)
    × (c.actual_revision ≡ lookup c.key s.key_revisions)
    × (c.actual_value ≡ lookup c.key s.values)

find_conflicts-nil :
    (s : Snapshot) (conditions : Table (Option ℕ))
    → All (Holds s) conditions
    → find_conflicts s conditions ≡ []
unfolding find_conflicts
find_conflicts-nil s [] h = refl
find_conflicts-nil s ((key, expected) ∷ rest) h =
    ground
      (arith, same_option_iff (lookup key s.key_revisions) expected, find_conflicts-nil s rest h.1)

All-find_conflicts :
    (s : Snapshot) (conditions : Table (Option ℕ))
    → find_conflicts s conditions ≡ []
    → All (Holds s) conditions
unfolding find_conflicts
All-find_conflicts s [] e = tt
All-find_conflicts s ((key, expected) ∷ rest) e =
    ground (arith, same_option_iff (lookup key s.key_revisions) expected, All-find_conflicts s rest)

find_conflicts-Reports :
    (s : Snapshot) (conditions : Table (Option ℕ)) → All (Reports s) (find_conflicts s conditions)
unfolding find_conflicts
find_conflicts-Reports s [] = tt
find_conflicts-Reports s ((key, expected) ∷ rest) =
    elim (Bool-cases (same_option (lookup key s.key_revisions) expected)) [
      | inl same ↦ rw same (find_conflicts-Reports s rest)
      | inr differs ↦ rw differs (
        ((λ e. ground (arith, same_option_iff (lookup key s.key_revisions) expected)), refl, refl),
        find_conflicts-Reports s rest,
      )
    ]

-- A patch is accepted exactly when every revision that it names is the key's own, and then gives
-- the next snapshot.
pub apply_metadata_patch_accepts :
    (s : Snapshot) (p : Patch)
    → (apply_metadata_patch s p ≡ accepted (next_snapshot s p))
      ↔ All (Holds s) (or_empty p.if_key_revision)
unfolding apply_metadata_patch
apply_metadata_patch_accepts s p = (
  λ e.
      All-find_conflicts s (or_empty p.if_key_revision)
        (decide_patch_accepts (find_conflicts s (or_empty p.if_key_revision)) e),
  λ h. rw (find_conflicts-nil s (or_empty p.if_key_revision) h) refl,
)
  where
    decide_patch_accepts :
        (cs : List Conflict) → decide_patch s p cs ≡ accepted (next_snapshot s p) → cs ≡ []
    decide_patch_accepts [] e = refl
    decide_patch_accepts (c ∷ cs) e = cc

-- A patch that is not accepted leaves the snapshot as it is and reports at least one conflict,
-- each a revision that does not hold, with what is there instead.
pub apply_metadata_patch_rejects :
    (s : Snapshot) (p : Patch)
    → apply_metadata_patch s p ≢ accepted (next_snapshot s p)
    → (c : Conflict) × (cs : List Conflict) × (apply_metadata_patch s p ≡ rejected s (c ∷ cs))
      × All (Reports s) (c ∷ cs)
unfolding apply_metadata_patch
apply_metadata_patch_rejects s p n =
    reject (find_conflicts s (or_empty p.if_key_revision)) n
      (find_conflicts-Reports s (or_empty p.if_key_revision))
  where
    reject :
        (l : List Conflict)
        → decide_patch s p l ≢ accepted (next_snapshot s p)
        → All (Reports s) l
        → (c : Conflict) × (cs : List Conflict) × (decide_patch s p l ≡ rejected s (c ∷ cs))
          × All (Reports s) (c ∷ cs)
    reject [] n r = absurd (n refl)
    reject (c ∷ cs) n r = (c, cs, refl, r)

-- No key is ahead of the snapshot.
abbrev pub Bounded : Snapshot → Type 0
Bounded s = (k r : ℕ) → lookup k s.key_revisions ≡ some r → r ≤ s.revision

pub next_snapshot-Bounded : (s : Snapshot) (p : Patch) → Bounded s → Bounded (next_snapshot s p)
next_snapshot-Bounded s p b k r e = ground (arith, next_snapshot_lem s p k, b k r)

-- The condition that a key has a given revision, or none, is among the conditions.
abbrev pub Demands : ℕ → Option ℕ → Table (Option ℕ) → Type 0
Demands k expected [] = ⊥
Demands k expected ((j, e) ∷ rest) = ((j ≡ k) × (e ≡ expected)) ⊎ Demands k expected rest

All-Demands :
    (s : Snapshot) (k : ℕ) (expected : Option ℕ) (conditions : Table (Option ℕ))
    → All (Holds s) conditions
    → Demands k expected conditions
    → lookup k s.key_revisions ≡ expected
All-Demands s k expected [] h d = absurd d
All-Demands s k expected ((j, e) ∷ rest) h (inl (same_key, same)) =
    subst (λ i. lookup i s.key_revisions ≡ expected) same_key (h.0 ∙ same)
All-Demands s k expected ((j, e) ∷ rest) h (inr d) = All-Demands s k expected rest h.1 d

-- No lost update: of two patches that were both written against one revision of a key, the second
-- is refused once the first has been applied.
pub apply_metadata_patch_lost_update :
    (s : Snapshot) (first second : Patch) (k : ℕ)
    → Bounded s
    → touches first k ≡ true
    → Demands k (lookup k s.key_revisions) (or_empty second.if_key_revision)
    → apply_metadata_patch (next_snapshot s first) second
      ≢ accepted (next_snapshot (next_snapshot s first) second)
apply_metadata_patch_lost_update s first second k b t x e = ground (
  arith,
  next_snapshot_lem s first k,
  All-Demands (next_snapshot s first) k (lookup k s.key_revisions) (or_empty second.if_key_revision)
      ((apply_metadata_patch_accepts (next_snapshot s first) second).0 e) x,
  b k (s.revision + 1),
)

-- Accepting the pending patches one after another.
pub accept_all : Snapshot → List Patch → Snapshot
accept_all s [] = s
accept_all s (p ∷ ps) = accept_all (next_snapshot s p) ps

-- The overlay shows the very values that the authority will have if it accepts all pending patches
-- in order, under the canonical revision of now.
pub overlay_metadata-accept_all :
    (s : Snapshot) (pending : List Patch)
    → ((overlay_metadata s pending).values ≡ (accept_all s pending).values)
      × ((overlay_metadata s pending).revision ≡ s.revision)
      × ((overlay_metadata s pending).key_revisions ≡ s.key_revisions)
unfolding overlay_metadata overlay_values accept_all next_snapshot
overlay_metadata-accept_all s [] = (refl, refl, refl)
overlay_metadata-accept_all s (p ∷ ps) =
    ((overlay_metadata-accept_all (next_snapshot s p) ps).0, refl, refl)
