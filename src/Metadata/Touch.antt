-- ===== src/Metadata/Touch.antt =====
-- What one patch does to each key.
use agent_multiplex.Base.{
  ℕ, ◌+◌, ◌≡◌, refl, Bool, ◌||◌, Option, none, some, List, [], ◌∷◌, Table, lookup, has, insert,
  delete, ◌==◌, if◌then◌else◌, lookup-insert, lookup-delete, arith,
}
use agent_multiplex.Metadata.{
  Snapshot, Patch, or_empty, contains, insert_all, stamp_keys, stamp_all, delete_all, next_snapshot,
}

abbrev pub or_else : Option ℕ → Option ℕ → Option ℕ
or_else (some a) b = some a
or_else none b = b

-- The value that the last entry of a key gives.
abbrev pub last_entry : ℕ → Table ℕ → Option ℕ
last_entry k [] = none
last_entry k ((j, v) ∷ t) = or_else (last_entry k t) (if j == k then some v else none)

pub lookup-insert_all :
    (k : ℕ) (entries t : Table ℕ)
    → lookup k (insert_all entries t) ≡ or_else (last_entry k entries) (lookup k t)
lookup-insert_all k [] t = refl
lookup-insert_all k ((j, v) ∷ entries) t =
    ground (arith, lookup-insert_all k entries (insert j v t), lookup-insert j k v t)

pub lookup-delete_all :
    (k : ℕ) (keys : List ℕ) (t : Table ℕ)
    → lookup k (delete_all keys t) ≡ (if contains k keys then none else lookup k t)
lookup-delete_all k [] t = refl
lookup-delete_all k (j ∷ keys) t =
    ground (arith, lookup-delete_all k keys (delete j t), lookup-delete j k t)

pub lookup-stamp_all :
    (revision k : ℕ) (keys : List ℕ) (t : Table ℕ)
    → lookup k (stamp_all revision keys t) ≡ (if contains k keys then some revision else lookup k t)
lookup-stamp_all revision k [] t = refl
lookup-stamp_all revision k (j ∷ keys) t =
    ground
      (arith, lookup-stamp_all revision k keys (insert j revision t), lookup-insert j k revision t)

pub lookup-stamp_keys :
    (revision k : ℕ) (entries t : Table ℕ)
    → lookup k (stamp_keys revision entries t)
      ≡ (if has k entries then some revision else lookup k t)
lookup-stamp_keys revision k [] t = refl
lookup-stamp_keys revision k ((j, v) ∷ entries) t = ground (
  arith,
  lookup-stamp_keys revision k entries (insert j revision t),
  lookup-insert j k revision t,
)

abbrev pub touches : Patch → ℕ → Bool
touches p k = contains k (or_empty p.remove) || has k (or_empty p.set)

-- An applied patch raises the revision by one, stamps exactly the keys that it touches with the
-- new revision, gives a set key its value, drops a removed key and keeps every other entry.
pub next_snapshot_lem :
    (s : Snapshot) (p : Patch) (k : ℕ)
    → ((next_snapshot s p).revision ≡ s.revision + 1)
      × (lookup k (next_snapshot s p).key_revisions
          ≡ (if touches p k then some (s.revision + 1) else lookup k s.key_revisions))
      × (lookup k (next_snapshot s p).values ≡ (
          if contains k (or_empty p.remove)
          then none
          else or_else (last_entry k (or_empty p.set)) (lookup k s.values)))
unfolding next_snapshot
next_snapshot_lem s p k = (refl, stamped, stored)
  where
    stamped :
        lookup k (
          stamp_all
            (s.revision + 1)
            (or_empty p.remove)
            (stamp_keys (s.revision + 1) (or_empty p.set) s.key_revisions))
        ≡ (if touches p k then some (s.revision + 1) else lookup k s.key_revisions)
    stamped = ground (
      arith,
      lookup-stamp_all (s.revision + 1) k (or_empty p.remove)
          (stamp_keys (s.revision + 1) (or_empty p.set) s.key_revisions),
      lookup-stamp_keys (s.revision + 1) k (or_empty p.set) s.key_revisions,
    )

    stored : lookup k (delete_all (or_empty p.remove) (insert_all (or_empty p.set) s.values)) ≡ (
        if contains k (or_empty p.remove)
        then none
        else or_else (last_entry k (or_empty p.set)) (lookup k s.values))
    stored = ground (
      arith,
      lookup-delete_all k (or_empty p.remove) (insert_all (or_empty p.set) s.values),
      lookup-insert_all k (or_empty p.set) s.values,
    )
