-- ===== src/Records/Interaction/Merge.antt =====
-- What a merge of interaction records can do.
use agent_multiplex.Base.{◌≡◌, ◌≢◌, ◌⊎◌, inl, inr, Bool, true, same_option_iff, Bool-cases, arith}
use agent_multiplex.Errors.{ok}
use agent_multiplex.Records.Interaction.{
  InteractionState, pending, Interaction, same_interaction_identity, same_interaction, same_flag,
  same_state, merge_states, merge_interaction,
}

same_interaction_identity_refl : (a : Interaction) → same_interaction_identity a a ≡ true
unfolding same_interaction_identity
same_interaction_identity_refl a = ground (
  arith,
  same_option_iff a.native_request_id a.native_request_id,
  same_option_iff a.expires_at a.expires_at,
)

same_interaction_refl : (a : Interaction) → same_interaction a a ≡ true
unfolding same_interaction
same_interaction_refl a = ground (
  arith,
  same_interaction_identity_refl a,
  same_option_iff a.resolution a.resolution,
  same_option_iff a.resolved_at a.resolved_at,
)

record SameIdentity (a b : Interaction) : Type 0 where
  interaction_id : a.interaction_id ≡ b.interaction_id
  session_id : a.session_id ≡ b.session_id
  harness : a.harness ≡ b.harness
  runtime_epoch : a.runtime_epoch ≡ b.runtime_epoch
  native_request_id : a.native_request_id ≡ b.native_request_id
  request_type : a.request_type ≡ b.request_type
  payload : a.payload ≡ b.payload
  ephemeral : a.ephemeral ≡ b.ephemeral
  created_at : a.created_at ≡ b.created_at
  expires_at : a.expires_at ≡ b.expires_at

same_flag-eq : (a b : Bool) → same_flag a b ≡ true → a ≡ b
same_flag-eq a b h = ground arith

same_state-eq : (a b : InteractionState) → same_state a b ≡ true → a ≡ b
same_state-eq a b h = ground arith

same_interaction_identity-eq :
    (a b : Interaction) → same_interaction_identity a b ≡ true → SameIdentity a b
unfolding same_interaction_identity
same_interaction_identity-eq a b h = grind (arith, same_option_iff, same_flag-eq)

same_interaction-eq : (a b : Interaction) → same_interaction a b ≡ true → a ≡ b
unfolding same_interaction
same_interaction-eq a b h = ground (
  arith,
  same_interaction_identity-eq a b,
  same_option_iff a.resolution b.resolution,
  same_option_iff a.resolved_at b.resolved_at,
)

merge_states_cases :
    (s t : InteractionState) (cur inc r : Interaction)
    → merge_states s t cur inc ≡ ok r
    → ((r ≡ cur) × (s ≢ pending) × (t ≡ pending)) ⊎ ((r ≡ inc) × (s ≡ pending) × (t ≢ pending))
unfolding merge_states
merge_states_cases pending pending cur inc r h = ground arith
merge_states_cases _ _ cur inc r h = ground arith

-- A merge that succeeds keeps the stored record, or decides a pending one by the incoming record
-- of the same identity.
pub merge_interaction_cases :
    (cur inc r : Interaction)
    → merge_interaction cur inc ≡ ok r
    → (same_interaction_identity cur inc ≡ true)
      × ((r ≡ cur) ⊎ ((r ≡ inc) × (cur.state ≡ pending) × (inc.state ≢ pending)))
unfolding merge_interaction
merge_interaction_cases cur inc r h = elim (Bool-cases (same_interaction_identity cur inc)) [
  | inl same ↦ elim (Bool-cases (same_interaction cur inc)) [
    | inl equal ↦ (same, inl (ground arith))
    | inr differs ↦ elim (merge_states_cases cur.state inc.state cur inc r (ground arith)) [
      | inl kept ↦ (same, inl kept.0)
      | inr taken ↦ (same, inr taken)
    ]
  ]
  | inr other ↦ ground arith
]

merge_interaction_self : (a : Interaction) → merge_interaction a a ≡ ok a
unfolding merge_interaction
merge_interaction_self a = ground (arith, same_interaction_identity_refl a, same_interaction_refl a)

-- A replay of an observation that was merged changes nothing.
pub merge_interaction_replay :
    (cur inc r : Interaction) → merge_interaction cur inc ≡ ok r → merge_interaction r inc ≡ ok r
merge_interaction_replay cur inc r h = elim (merge_interaction_cases cur inc r h).1 [
  | inl kept ↦ rw kept (rw kept at h)
  | inr taken ↦ rw (taken.0) (merge_interaction_self inc)
]

-- A decision is final: a record that is not pending comes out of a merge as it went in.
merge_interaction_final :
    (cur inc r : Interaction) → cur.state ≢ pending → merge_interaction cur inc ≡ ok r → r ≡ cur
merge_interaction_final cur inc r n h = ground (arith, merge_interaction_cases cur inc r h)

-- Of two decisions of one pending interaction at most one is taken: when a first decision has
-- been merged, a second merges only if it is the same record.
pub merge_interaction_decides_once :
    (cur a b r : Interaction)
    → cur.state ≡ pending
    → a.state ≢ pending
    → b.state ≢ pending
    → merge_interaction cur a ≡ ok a
    → merge_interaction a b ≡ ok r
    → a ≡ b
unfolding merge_interaction
merge_interaction_decides_once cur a b r p na nb h k =
    elim (Bool-cases (same_interaction_identity a b)) [
      | inl same ↦ elim (Bool-cases (same_interaction a b)) [
        | inl equal ↦ same_interaction-eq a b equal
        | inr differs ↦ elim (merge_states_cases a.state b.state a b r (ground arith)) [
          | inl kept ↦ absurd (nb kept.2)
          | inr taken ↦ absurd (na taken.1)
        ]
      ]
      | inr other ↦ ground arith
    ]
