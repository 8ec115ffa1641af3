-- ===== src/Metadata/Examples.antt =====
-- Tests: two clients that patch one key.
use agent_multiplex.Base.{
  ℕ, ◌≡◌, ◌≢◌, ◌↔◌, refl, true, none, some, Option, List, [], ◌∷◌, inl, All, arith,
}
use agent_multiplex.Metadata.{
  Snapshot, Patch, Conflict, accepted, rejected, next_snapshot, apply_metadata_patch,
}
use agent_multiplex.Metadata.Touch.{touches}
use agent_multiplex.Metadata.Patches.{
  Holds, Reports, Bounded, apply_metadata_patch_accepts, apply_metadata_patch_rejects,
  apply_metadata_patch_lost_update,
}

abbrev snapshot : Snapshot
snapshot = record { revision = 3; values = (1, 10) ∷ []; key_revisions = (1, 3) ∷ [] }

abbrev patch : ℕ → Option ℕ → Patch
patch id expected = record {
  operation_id = id;
  session_id = 2;
  expected_authority = record { realm_id = 1; control_node_id = 2; epoch_id = 3 };
  set = some ((1, 20) ∷ []);
  remove = none;
  if_key_revision = some ((1, expected) ∷ []);
}

snapshot-Bounded : Bounded snapshot
snapshot-Bounded k r e = ground arith

touches_key : touches (patch 5 (some 3)) 1 ≡ true
touches_key = refl

fails_stale :
    apply_metadata_patch snapshot (patch 5 (some 2))
    ≢ accepted (next_snapshot snapshot (patch 5 (some 2)))
fails_stale =
    λ e. ground (arith, ((apply_metadata_patch_accepts snapshot (patch 5 (some 2))).0 e).0)

apply_metadata_patch_lost_update_example :
    apply_metadata_patch (next_snapshot snapshot (patch 5 (some 3))) (patch 6 (some 3))
    ≢ accepted (next_snapshot (next_snapshot snapshot (patch 5 (some 3))) (patch 6 (some 3)))
apply_metadata_patch_lost_update_example =
    apply_metadata_patch_lost_update snapshot (patch 5 (some 3)) (patch 6 (some 3)) 1
      snapshot-Bounded touches_key (inl (refl, refl))

apply_metadata_patch_accepts_example :
    (apply_metadata_patch snapshot (patch 5 (some 3))
      ≡ accepted (next_snapshot snapshot (patch 5 (some 3))))
    ↔ All (Holds snapshot) ((1, some 3) ∷ [])
apply_metadata_patch_accepts_example = apply_metadata_patch_accepts snapshot (patch 5 (some 3))

apply_metadata_patch_rejects_example :
    (c : Conflict) × (cs : List Conflict) × (apply_metadata_patch snapshot (patch 5 (some 2))
      ≡ rejected snapshot (c ∷ cs))
    × All (Reports snapshot) (c ∷ cs)
apply_metadata_patch_rejects_example =
    apply_metadata_patch_rejects snapshot (patch 5 (some 2)) fails_stale
