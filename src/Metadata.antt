-- ===== src/Metadata.antt =====
-- Session metadata: packages/protocol/src/metadata.ts, and `applyMetadataPatch` and
-- `optimisticMetadata` of packages/control-node-core/src/catalog.ts. Keys and JSON values are
-- numbers for their text; an absent field of a patch is `none`.
mod Examples
pub mod Operations
pub mod Touch
pub mod Patches
use agent_multiplex.Base.{
  ℕ, suc, ◌+◌, Bool, true, false, not, ◌&&◌, ◌||◌, Option, none, some, List, [], ◌∷◌, ◌++◌, Table,
  lookup, has, insert, delete, any, ◌==◌, same_option, if◌then◌else◌, leb, length,
}
use agent_multiplex.Records.Authority.{AuthorityRef}

pub record Snapshot : Type 0 where
  pub revision : ℕ
  pub values : Table ℕ
  pub key_revisions : Table ℕ

pub empty_metadata_snapshot : Snapshot
empty_metadata_snapshot = record { revision = 0; values = []; key_revisions = [] }

pub record Patch : Type 0 where
  pub operation_id : ℕ
  pub session_id : ℕ
  pub expected_authority : AuthorityRef
  pub set : Option (Table ℕ)
  pub remove : Option (List ℕ)
  pub if_key_revision : Option (Table (Option ℕ))

-- `field ?? {}` and `field ?? []`.
abbrev pub or_empty {ℓ} : {A : Type ℓ} → Option (List A) → List A
or_empty none = []
or_empty (some l) = l

abbrev pub contains : ℕ → List ℕ → Bool
contains k [] = false
contains k (j ∷ l) = (j == k) || contains k l

abbrev has_duplicate : List ℕ → Bool
has_duplicate [] = false
has_duplicate (k ∷ l) = contains k l || has_duplicate l

abbrev is_nil {ℓ} : {A : Type ℓ} → List A → Bool
is_nil [] = true
is_nil (x ∷ l) = false

-- The bound on `remove` and the three refinements of `metadataPatchSchema`.
pub valid_patch : Patch → Bool
valid_patch p =
    not (is_nil (or_empty p.set) && is_nil (or_empty p.remove))
    && (not (has_duplicate (or_empty p.remove))
        && (not (any (λ k. has k (or_empty p.set)) (or_empty p.remove))
            && leb (length (or_empty p.remove)) 1024))

pub record Conflict : Type 0 where
  pub key : ℕ
  pub expected_revision : Option ℕ
  pub actual_revision : Option ℕ
  pub actual_value : Option ℕ

pub data PatchResult : Type 0 where
  -- a patch that is accepted gives the new snapshot
  accepted : Snapshot → PatchResult
  rejected : Snapshot → List Conflict → PatchResult

-- `{ ...t, ...entries }`
abbrev pub insert_all : Table ℕ → Table ℕ → Table ℕ
insert_all [] t = t
insert_all ((k, v) ∷ entries) t = insert_all entries (insert k v t)

-- `for (const [key] of entries) t[key] = revision`
abbrev pub stamp_keys : ℕ → Table ℕ → Table ℕ → Table ℕ
stamp_keys revision [] t = t
stamp_keys revision ((k, v) ∷ entries) t = stamp_keys revision entries (insert k revision t)

-- `for (const key of keys) t[key] = revision`
abbrev pub stamp_all : ℕ → List ℕ → Table ℕ → Table ℕ
stamp_all revision [] t = t
stamp_all revision (k ∷ keys) t = stamp_all revision keys (insert k revision t)

-- `for (const key of keys) delete t[key]`
abbrev pub delete_all : List ℕ → Table ℕ → Table ℕ
delete_all [] t = t
delete_all (k ∷ keys) t = delete_all keys (delete k t)

-- The `flatMap` of `applyMetadataPatch`.
pub find_conflicts : Snapshot → Table (Option ℕ) → List Conflict
find_conflicts s [] = []
find_conflicts s ((key, expected) ∷ rest) =
    let later = find_conflicts s rest in
    if same_option (lookup key s.key_revisions) expected
    then later
    else record {
      key = key;
      expected_revision = expected;
      actual_revision = lookup key s.key_revisions;
      actual_value = lookup key s.values;
    }
      ∷ later

pub next_snapshot : Snapshot → Patch → Snapshot
next_snapshot s p = record {
  revision = s.revision + 1;
  values = delete_all (or_empty p.remove) (insert_all (or_empty p.set) s.values);
  key_revisions =
      stamp_all (s.revision + 1) (or_empty p.remove)
        (stamp_keys (s.revision + 1) (or_empty p.set) s.key_revisions);
}

-- `if (conflicts.length > 0) ... else ...`
pub decide_patch : Snapshot → Patch → List Conflict → PatchResult
decide_patch s p [] = accepted (next_snapshot s p)
decide_patch s p (c ∷ conflicts) = rejected s (c ∷ conflicts)

pub apply_metadata_patch : Snapshot → Patch → PatchResult
unfolding decide_patch
apply_metadata_patch s p = decide_patch s p (find_conflicts s (or_empty p.if_key_revision))

pub optimistic_metadata : Snapshot → Patch → Snapshot
optimistic_metadata s p = record s {
  values = delete_all (or_empty p.remove) (insert_all (or_empty p.set) s.values);
}

-- The loop of `overlayMetadata` over the pending patches.
pub overlay_values : List Patch → Table ℕ → Table ℕ
overlay_values [] t = t
overlay_values (p ∷ pending) t =
    overlay_values pending (delete_all (or_empty p.remove) (insert_all (or_empty p.set) t))

pub overlay_metadata : Snapshot → List Patch → Snapshot
overlay_metadata canonical pending = record canonical {
  values = overlay_values pending canonical.values;
}
