-- ===== src/Records/Archive/Merge.antt =====
-- What a merge of archive records can do.
use agent_multiplex.Base.{
  Bool-cases, ℕ, ◌≤◌, ◌≡◌, ◌⊎◌, inl, inr, true, false, same_option_iff, arith,
}
use agent_multiplex.Errors.{ok}
use agent_multiplex.Records.Authority.{same_authority_iff}
use agent_multiplex.Records.Archive.{
  Archive, rank, is_terminal, same_archive_identity, same_archive, advance_archive, merge_archive,
}

same_archive_identity_refl : (a : Archive) → same_archive_identity a a ≡ true
unfolding same_archive_identity
same_archive_identity_refl a = ground (
  arith,
  same_authority_iff a.expected_authority a.expected_authority,
  same_authority_iff a.authority a.authority,
)

same_archive_refl : (a : Archive) → same_archive a a ≡ true
unfolding same_archive
same_archive_refl a = ground (
  arith,
  same_archive_identity_refl a,
  same_option_iff a.released_at a.released_at,
  same_option_iff a.catalog_revision a.catalog_revision,
  same_option_iff a.error a.error,
)

module _ (instant : ℕ → ℕ) where
  advance_archive_cases :
      (cur inc : Archive) {r : Archive}
      → advance_archive instant cur inc ≡ ok r
      → ((r ≡ cur) ⊎ (r ≡ inc))
        × (rank cur.state ≤ rank r.state)
        × (instant cur.updated_at ≤ instant r.updated_at)
        × (is_terminal cur.state ≡ false)
  unfolding advance_archive
  advance_archive_cases cur inc h = ground arith

  merge_archive_advances :
      (cur inc : Archive) {r : Archive}
      → merge_archive instant cur inc ≡ ok r
      → ((r ≡ cur) ⊎ (r ≡ inc))
        × (rank cur.state ≤ rank r.state)
        × (instant cur.updated_at ≤ instant r.updated_at)
        × (same_archive_identity cur inc ≡ true)
        × (is_terminal cur.state ≡ true → r ≡ cur)
  unfolding merge_archive
  merge_archive_advances cur inc {r} h = ground (arith, advance_archive_cases cur inc {r = r})

  merge_archive_self : (a : Archive) → merge_archive instant a a ≡ ok a
  unfolding merge_archive
  merge_archive_self a = ground (arith, same_archive_identity_refl a, same_archive_refl a)

  -- A replay of an observation that was merged changes nothing.
  pub merge_archive_replay :
      (cur inc r : Archive)
      → merge_archive instant cur inc ≡ ok r
      → merge_archive instant r inc ≡ ok r
  merge_archive_replay cur inc r h = elim (merge_archive_advances cur inc h).0 [
    | inl kept ↦ cc
    | inr taken ↦ rw taken (merge_archive_self inc)
  ]

  -- A merge that succeeds gives one of the two records; neither the rank nor the update time
  -- falls, and a terminal record is final.
  pub merge_archive_cases :
      (cur inc : Archive) {r : Archive}
      → merge_archive instant cur inc ≡ ok r
      → ((r ≡ cur) ⊎ (r ≡ inc))
        × (rank cur.state ≤ rank r.state)
        × (instant cur.updated_at ≤ instant r.updated_at)
        × (same_archive_identity cur inc ≡ true)
        × ((is_terminal cur.state ≡ false) ⊎ (r ≡ cur))
  merge_archive_cases cur inc e =
      let (which, up, later, same, final) = merge_archive_advances cur inc e in
      (
        which,
        up,
        later,
        same,
        elim (Bool-cases (is_terminal cur.state)) [
          | inl ended ↦ inr (final ended)
          | inr open_still ↦ inl open_still
        ],
      )
