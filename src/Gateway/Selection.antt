-- ===== src/Gateway/Selection.antt =====
-- `compareSources` and the selection of `#reselect` in packages/gateway-core/src/projection.ts: which
-- sources a gateway projects. `localeCompare` is a parameter.
mod Examples
pub mod Sorted
pub mod Compatible
pub mod Exclusive
use Prim.Native.Nat.{compare, Ordering}
use agent_multiplex.Base.{
  ℕ, Bool, true, false, ◌&&◌, not, Option, none, some, List, [], ◌∷◌, ◌++◌, map, filter, length,
  Table, lookup, if◌then◌else◌,
}
use agent_multiplex.Records.Authority.{same_authority}
use agent_multiplex.Gateway.{
  SourceSnapshot, SourceState, disabled, connecting, synchronizing, unavailable, conflict, selected,
  suppressed, Source, Candidate,
}
use agent_multiplex.Gateway.Coverage.{includes, is_superset}
use agent_multiplex.Gateway.Conflicts.{authority_of, coverage_of, conflicted_sources}

-- The first loop: the state that a source has while the others are compared.
abbrev pub awaiting : Bool → Option SourceSnapshot → SourceState → SourceState
awaiting false snapshot state = disabled
awaiting true none state = state
awaiting true (some snapshot) unavailable = unavailable
awaiting true (some snapshot) state = synchronizing

pub await_selection : Source → Source
await_selection s = record s { state = awaiting s.enabled s.snapshot s.state }

-- The filter `candidates`.
abbrev pub candidate_with : ℕ → ℕ → Option SourceSnapshot → SourceState → List Candidate
candidate_with source_id priority none state = []
candidate_with source_id priority (some snapshot) unavailable = []
candidate_with source_id priority (some snapshot) disabled = []
candidate_with source_id priority (some snapshot) state =
    record { source_id = source_id; priority = priority; snapshot = snapshot } ∷ []

pub candidates_of : List Source → List Candidate
candidates_of [] = []
candidates_of (s ∷ rest) =
    candidate_with s.source_id s.priority s.snapshot s.state ++ candidates_of rest

-- `other` is a selected one that covers the candidate under its fence.
pub suppresses : Candidate → Candidate → Bool
suppresses candidate other =
    same_authority (authority_of other) (authority_of candidate)
    && is_superset (coverage_of other) (coverage_of candidate)

abbrev pub find : (Candidate → Bool) → List Candidate → Option Candidate
find p [] = none
find p (c ∷ rest) = if p c then some c else find p rest

-- The loop over `eligible`; the selected stand in its order. It gives them, and every verdict.
pub select_from : List Candidate → List Candidate → List Candidate × Table SourceState
select_from [] chosen = (chosen, [])
select_from (c ∷ rest) chosen = elim (find (suppresses c) chosen) [
  | none ↦
      let done = select_from rest (chosen ++ c ∷ []) in (done.0, (c.source_id, selected) ∷ done.1)
  | some other ↦
      let done = select_from rest chosen in
      (done.0, (c.source_id, suppressed other.source_id) ∷ done.1)
]

-- The state that the comparison leaves to a source.
abbrev pub verdict : SourceState → Option SourceState → SourceState
verdict before none = before
verdict before (some after) = after

pub settle_source : List ℕ → Table SourceState → Source → Source
settle_source conflicted verdicts s = record s {
  state =
      if includes conflicted s.source_id
      then conflict
      else verdict s.state (lookup s.source_id verdicts);
}

module _ (locale_compare : ℕ → ℕ → Ordering) where
  pub compare_sources : Candidate → Candidate → Ordering
  compare_sources left right =
      elim (compare (length (coverage_of right)) (length (coverage_of left))) [
        | Ordering.lt ↦ Ordering.lt
        | Ordering.gt ↦ Ordering.gt
        | Ordering.eq ↦ elim (compare right.priority left.priority) [
          | Ordering.lt ↦ Ordering.lt
          | Ordering.gt ↦ Ordering.gt
          | Ordering.eq ↦
              elim (locale_compare left.snapshot.manifest.source_control_node_id
                right.snapshot.manifest.source_control_node_id) [
                  | Ordering.lt ↦ Ordering.lt
                  | Ordering.gt ↦ Ordering.gt
                  | Ordering.eq ↦ locale_compare left.source_id right.source_id
                ]
        ]
      ]

  -- The stable sort by `compareSources`.
  pub insert_source : Candidate → List Candidate → List Candidate
  insert_source c [] = c ∷ []
  insert_source c (other ∷ rest) =
      let later = insert_source c rest in
      elim (compare_sources c other) [ Ordering.gt ↦ other ∷ later | _ ↦ c ∷ other ∷ rest ]

  pub sort_sources : List Candidate → List Candidate
  sort_sources [] = []
  sort_sources (c ∷ rest) = insert_source c (sort_sources rest)

  -- The candidates that conflict with nothing, in the order of the sort.
  pub eligible_of : List Candidate → Option SourceSnapshot → List Candidate
  eligible_of candidates reference =
      let conflicted = conflicted_sources candidates reference in
      sort_sources (filter (λ c. not (includes conflicted c.source_id)) candidates)

  pub select_sources : List Candidate → Option SourceSnapshot → List Candidate × Table SourceState
  select_sources candidates reference = select_from (eligible_of candidates reference) []

  -- `#reselect` on the sources, with the identifiers of the selected.
  pub reselect : List Source → Option SourceSnapshot → List Source × List ℕ
  reselect sources reference =
      let waiting = map await_selection sources in
      let candidates = candidates_of waiting in
      let conflicted = conflicted_sources candidates reference in
      let chosen = select_sources candidates reference in
      (map (settle_source conflicted chosen.1) waiting, map (λ c. c.source_id) chosen.0)
