-- ===== src/Records/Launch/Merge.antt =====
-- What a merge of launch records can do.
use agent_multiplex.Base.{
  ℕ, ◌≤◌, ◌≡◌, refl, ◌⊎◌, inl, inr, Bool, true, false, Option, none, some, same_option_iff,
  Bool-cases, arith,
}
use agent_multiplex.Errors.{ok}
use agent_multiplex.Records.Timestamp.{compare_operation_timestamp, is_negative}
use agent_multiplex.Records.Launch.{
  LaunchState, Launch, LaunchResult, rank, is_terminal, refine_launch, valid_launch, same_result,
  same_launch_identity, same_launch, restamp, advance_launch, merge_launch,
}

same_result_refl : (a : Option LaunchResult) → same_result a a ≡ true
same_result_refl none = refl
same_result_refl (some a) = ground arith

same_launch_identity_refl : (a : Launch) → same_launch_identity a a ≡ true
unfolding same_launch_identity
same_launch_identity_refl a = ground (arith, same_option_iff a.metadata a.metadata)

same_launch_refl : (a : Launch) → same_launch a a ≡ true
unfolding same_launch
same_launch_refl a = ground (
  arith,
  same_launch_identity_refl a,
  same_result_refl a.result,
  same_option_iff a.status_message a.status_message,
  same_option_iff a.error a.error,
)

module _ (instant : ℕ → ℕ) where
  refine-restamp :
      (s : LaunchState) (cur inc : Launch)
      → refine_launch s inc ≡ true
      → refine_launch s (restamp instant cur inc) ≡ true
  unfolding refine_launch restamp
  refine-restamp LaunchState.accepted cur inc h = h
  refine-restamp _ cur inc h = h

  advance_launch_cases :
      (cur inc : Launch) (stale : Bool) {r : Launch}
      → advance_launch instant cur inc stale ≡ ok r
      → ((r ≡ cur) ⊎ (r ≡ inc))
        × (rank cur.state ≤ rank r.state)
        × (is_terminal cur.state ≡ true → r ≡ cur)
  unfolding advance_launch
  advance_launch_cases cur inc stale h = ground arith

  merge_launch_advances :
      (cur inc : Launch) {r : Launch}
      → merge_launch instant cur inc ≡ ok r
      → ((r ≡ cur) ⊎ (r ≡ restamp instant cur inc))
        × (rank cur.state ≤ rank r.state)
        × (instant cur.updated_at ≤ instant r.updated_at)
        × (r.created_at ≡ cur.created_at)
        × (is_terminal cur.state ≡ true → r ≡ cur)
  unfolding merge_launch restamp
  merge_launch_advances cur inc {r} h = ground (
    arith,
    advance_launch_cases cur (restamp instant cur inc)
        (is_negative (compare_operation_timestamp instant inc.updated_at cur.updated_at)) {r = r},
  )

  -- A merge into a well-formed record that succeeds gives a well-formed one: its result, its error and
  -- its state agree.
  pub merge_launch-valid :
      (cur inc r : Launch)
      → valid_launch cur ≡ true
      → merge_launch instant cur inc ≡ ok r
      → valid_launch r ≡ true
  unfolding merge_launch valid_launch restamp
  merge_launch-valid cur inc r v h = ground (
    arith,
    refine-restamp inc.state cur inc,
    advance_launch_cases cur (restamp instant cur inc)
        (is_negative (compare_operation_timestamp instant inc.updated_at cur.updated_at)) {r = r},
  )

  restamp_twice :
      (cur inc : Launch) → restamp instant (restamp instant cur inc) inc ≡ restamp instant cur inc
  unfolding restamp
  restamp_twice cur inc = ground arith

  merge_launch_fixed :
      (r inc : Launch)
      → valid_launch inc ≡ true
      → restamp instant r inc ≡ r
      → merge_launch instant r inc ≡ ok r
  unfolding merge_launch
  merge_launch_fixed r inc v e =
      rw e (rw (v, same_launch_identity_refl r, same_launch_refl r, merge_launch) refl)

  merged_input_valid :
      (cur inc : Launch) {r : Launch}
      → merge_launch instant cur inc ≡ ok r
      → valid_launch inc ≡ true
  unfolding merge_launch
  merged_input_valid cur inc h = ground arith

  -- A replay of an observation that was merged changes nothing.
  pub merge_launch_replay :
      (cur inc r : Launch) → merge_launch instant cur inc ≡ ok r → merge_launch instant r inc ≡ ok r
  merge_launch_replay cur inc r h = elim (merge_launch_advances cur inc h).0 [
    | inl kept ↦ cc
    | inr taken ↦ rw taken (
        merge_launch_fixed (restamp instant cur inc) inc (merged_input_valid cur inc h)
          (restamp_twice cur inc))
  ]

  -- A merge that succeeds gives the stored record or the incoming one with the stored admission
  -- time; rank and update time never fall, the identity stays, a terminal record is final.
  pub merge_launch_cases :
      (cur inc : Launch) {r : Launch}
      → merge_launch instant cur inc ≡ ok r
      → ((r ≡ cur) ⊎ (r ≡ restamp instant cur inc))
        × (rank cur.state ≤ rank r.state)
        × (instant cur.updated_at ≤ instant r.updated_at)
        × (r.created_at ≡ cur.created_at)
        × ((is_terminal cur.state ≡ false) ⊎ (r ≡ cur))
  merge_launch_cases cur inc e =
      let (which, up, later, same, final) = merge_launch_advances cur inc e in
      (
        which,
        up,
        later,
        same,
        elim (Bool-cases (is_terminal cur.state)) [
          | inl ended ↦ inr (final ended)
          | inr open_still ↦ inl open_still
        ],
      )
