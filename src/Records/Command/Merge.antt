-- ===== src/Records/Command/Merge.antt =====
-- What a merge of command records can do, and that replays and reorderings of observations agree.
use agent_multiplex.Base.{
  ℕ, ◌≤◌, ◌<◌, ◌≡◌, refl, ◌⊎◌, inl, inr, Bool, true, false, same_option_iff, arith,
}
use agent_multiplex.Errors.{conflict, ok, err}
use agent_multiplex.Records.Command.{
  CommandState, received, started, succeeded, failed, outcome_unknown, Command,
  is_terminal_command_state, same_command_request, same_command_state_data, same_command,
  merge_states, restamp, merge_command,
}

same_command-eq : (a b : Command) → same_command a b ≡ true → a ≡ b
unfolding same_command
same_command-eq a b h = ground (
  arith,
  same_option_iff a.session_id b.session_id,
  same_option_iff a.result b.result,
  same_option_iff a.error b.error,
)

same_command_refl : (a : Command) → same_command a a ≡ true
unfolding same_command
same_command_refl a = ground (
  arith,
  same_option_iff a.session_id a.session_id,
  same_option_iff a.result a.result,
  same_option_iff a.error a.error,
)

-- How far a command has come; a known outcome stands above an unknown one.
abbrev pub progress : CommandState → ℕ
progress received = 0
progress started = 1
progress outcome_unknown = 2
progress succeeded = 3
progress failed = 3

merge_states_cases :
    (s t : CommandState) (cur inc : Command) (recover : Bool) {r : Command}
    → s ≡ cur.state
    → t ≡ inc.state
    → merge_states s t cur inc recover ≡ ok r
    → ((r ≡ cur) ⊎ (r ≡ inc)) × (progress s ≤ progress r.state)
unfolding merge_states
merge_states_cases received received cur inc recover p q h = ground arith
merge_states_cases _ _ cur inc recover p q h = ground arith

-- A merge that succeeds gives the stored record or the incoming one under the stored `createdAt`,
-- of the same request, and never less advanced.
pub merge_command_cases :
    (cur inc : Command) (recover : Bool) {r : Command}
    → merge_command cur inc recover ≡ ok r
    → ((r ≡ cur) ⊎ (r ≡ restamp cur inc))
      × (progress cur.state ≤ progress r.state)
      × (same_command_request cur r ≡ true)
      × (r.created_at ≡ cur.created_at)
unfolding merge_command same_command_request
merge_command_cases cur inc recover h = ground (
  arith,
  merge_states_cases cur.state inc.state cur (restamp cur inc) recover refl refl,
  same_option_iff cur.session_id inc.session_id,
  same_option_iff cur.session_id cur.session_id,
)

same_command_request_refl : (c : Command) → same_command_request c c ≡ true
unfolding same_command_request
same_command_request_refl c = ground (arith, same_option_iff c.session_id c.session_id)

merge_command_self :
    (cur inc : Command) (recover : Bool)
    → merge_command (restamp cur inc) inc recover ≡ ok (restamp cur inc)
unfolding merge_command same_command_request
merge_command_self cur inc recover =
    ground
      (arith, same_command_refl (restamp cur inc), same_option_iff inc.session_id inc.session_id)

-- A replay of an observation that was merged changes nothing.
pub merge_command_replay :
    (cur inc : Command) (recover : Bool) (r : Command)
    → merge_command cur inc recover ≡ ok r
    → merge_command r inc recover ≡ ok r
merge_command_replay cur inc recover r h = elim (merge_command_cases cur inc recover h).0 [
  | inl kept ↦ cc
  | inr taken ↦ rw taken (merge_command_self cur inc recover)
]

-- Without recovery a terminal record is never replaced: a merge gives it back or throws.
pub merge_command_terminal :
    (cur inc : Command) (r : Command)
    → is_terminal_command_state cur.state ≡ true
    → merge_command cur inc false ≡ ok r
    → r ≡ cur
unfolding merge_command merge_states is_terminal_command_state
merge_command_terminal cur inc r t h = ground arith

-- Recovery replaces an unknown outcome, and only by a known one.
pub merge_command_recovers :
    (cur inc : Command)
    → cur.state ≡ outcome_unknown
    → same_command_request cur inc ≡ true
    → (inc.state ≡ succeeded) ⊎ (inc.state ≡ failed)
    → (merge_command cur inc true ≡ ok (restamp cur inc))
      × (merge_command cur inc false ≡ err conflict)
unfolding merge_command merge_states same_command same_command_state_data
merge_command_recovers cur inc u q s = ground arith

-- The three phases of a command that the merge without recovery tells apart.
abbrev phase : CommandState → ℕ
phase received = 0
phase started = 1
phase _ = 2

record SameData (a b : Command) : Type 0 where
  state : a.state ≡ b.state
  result : a.result ≡ b.result
  error : a.error ≡ b.error

same_command_state_data-SameData :
    (a b : Command) → same_command_state_data a b ≡ true → SameData a b
unfolding same_command_state_data
same_command_state_data-SameData a b h = ground (
  arith,
  same_option_iff a.session_id b.session_id,
  same_option_iff a.result b.result,
  same_option_iff a.error b.error,
)

same_command-SameData :
    (cur inc : Command) → same_command cur (restamp cur inc) ≡ true → SameData cur inc
unfolding same_command
same_command-SameData cur inc h =
    ground (arith, same_command_state_data-SameData cur (restamp cur inc))

merge_states-phase :
    (s t : CommandState) (cur inc : Command) {r : Command}
    → s ≡ cur.state
    → t ≡ inc.state
    → merge_states s t cur inc false ≡ ok r
    → (phase s < phase t → r ≡ inc)
      × (phase t < phase s → r ≡ cur)
      × (phase s ≡ phase t → (r ≡ cur) × (same_command_state_data cur inc ≡ true))
unfolding merge_states
merge_states-phase received received cur inc p q h = ground arith
merge_states-phase _ _ cur inc p q h = ground arith

-- The later of the two phases decides; in one phase the two agree.
merge_command-phase :
    (cur inc : Command) {r : Command}
    → merge_command cur inc false ≡ ok r
    → (phase cur.state < phase inc.state → SameData r inc)
      × (phase inc.state < phase cur.state → SameData r cur)
      × (phase cur.state ≡ phase inc.state → SameData r cur × SameData r inc)
unfolding merge_command
merge_command-phase cur inc {r} h = ground (
  arith,
  same_command-SameData cur inc,
  same_command_state_data-SameData cur (restamp cur inc),
  merge_states-phase cur.state inc.state cur (restamp cur inc) {r = r} refl refl,
)

-- Two observations that merge without recovery in either order, where all four merges succeed, lead
-- to the same state, result and error.
pub merge_command_commutes :
    (cur a b ra rab rb rba : Command)
    → merge_command cur a false ≡ ok ra
    → merge_command ra b false ≡ ok rab
    → merge_command cur b false ≡ ok rb
    → merge_command rb a false ≡ ok rba
    → (rab.state ≡ rba.state) × (rab.result ≡ rba.result) × (rab.error ≡ rba.error)
merge_command_commutes cur a b ra rab rb rba h k h' k' = ground (
  arith,
  merge_command-phase cur a h,
  merge_command-phase ra b k,
  merge_command-phase cur b h',
  merge_command-phase rb a k',
)
