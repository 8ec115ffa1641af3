-- ===== src/Gateway/Coverage.antt =====
-- `coverageRelation` and `isSuperset` of packages/gateway-core/src/projection.ts.
use agent_multiplex.Base.{
  ℕ, suc, ◌<◌, ◌≤◌, ◌≡◌, ◌⊎◌, inl, inr, refl, Bool, true, false, ◌&&◌, not, List, [], ◌∷◌, any, all,
  length, ◌==◌, ==_refl, if◌then◌else◌, Bool-cases, arith,
}

pub data Relation : Type 0 where
  disjoint equal left_superset right_superset partial : Relation

abbrev pub includes : List ℕ → ℕ → Bool
includes ids id = any (λ x. x == id) ids

unfoldable pub is_superset : List ℕ → List ℕ → Bool
is_superset left right = all (λ id. includes left id) right

unfoldable pub overlaps : List ℕ → List ℕ → Bool
overlaps left right = any (λ id. includes right id) left

unfoldable pub coverage_relation : List ℕ → List ℕ → Relation
coverage_relation left right =
    if not (overlaps left right)
    then disjoint
    else if is_superset left right && is_superset right left
    then equal
    else if is_superset left right
    then left_superset
    else if is_superset right left
    then right_superset
    else partial

-- No identifier stands twice in a list.
abbrev pub Distinct : List ℕ → Type 0
Distinct [] = Unit
Distinct (id ∷ ids) = (includes ids id ≡ false) × Distinct ids

-- A list without one identifier.
without : ℕ → List ℕ → List ℕ
without id [] = []
without id (x ∷ xs) = if x == id then xs else x ∷ without id xs

length-without :
    (id : ℕ) (xs : List ℕ) → includes xs id ≡ true → suc (length (without id xs)) ≡ length xs
unfolding without
length-without id [] h = absurd (ground arith)
length-without id (x ∷ xs) h = elim (Bool-cases (x == id)) [
  | inl e ↦ ground arith
  | inr e ↦ ground (arith, length-without id xs (ground arith))
]

includes-without :
    (id other : ℕ) (xs : List ℕ)
    → includes xs other ≡ true
    → (other == id) ≡ false
    → includes (without id xs) other ≡ true
unfolding without
includes-without id other [] h d = h
includes-without id other (x ∷ xs) h d = elim (Bool-cases (x == other)) [
  | inl e ↦ ground arith
  | inr e ↦ let rest = includes-without id other xs (ground arith) d in ground arith
]

-- What does not include an identifier is as good without it.
superset-without :
    (id : ℕ) (left right : List ℕ)
    → is_superset left right ≡ true
    → includes right id ≡ false
    → is_superset (without id left) right ≡ true
unfolding is_superset
superset-without id left [] h d = refl
superset-without id left (x ∷ right) h d =
    let rest = superset-without id left right (ground arith) (ground arith) in
    let first = includes-without id x left (ground arith) (ground arith) in ground arith

-- A superset of distinct identifiers is no shorter.
pub length-superset :
    (left right : List ℕ)
    → Distinct right
    → is_superset left right ≡ true
    → length right ≤ length left
unfolding is_superset
length-superset left [] d h = omega arith
length-superset left (x ∷ right) d h =
    let (apart, d') = d in
    let found : includes left x ≡ true = ground arith in
    let shorter = length-without x left found in
    let rest =
      length-superset (without x left) right d'
        (superset-without x left right (ground arith) apart) in
    omega (arith, shorter, rest)

-- What a list that is no superset lacks.
lacking :
    (right left : List ℕ)
    → is_superset right left ≡ false
    → (x : ℕ) × ((includes left x ≡ true) × (includes right x ≡ false))
unfolding is_superset
lacking right [] h = absurd (ground arith)
lacking right (x ∷ left) h = elim (Bool-cases (includes right x)) [
  | inr e ↦ (x, (ground (arith, ==_refl x), e))
  | inl e ↦ let (y, (l, r)) = lacking right left (ground arith) in (y, (ground arith, r))
]

-- Of two lists of distinct identifiers, one that covers the other and is covered by it not is longer.
pub length-strict_superset :
    (left right : List ℕ)
    → Distinct right
    → is_superset left right ≡ true
    → is_superset right left ≡ false
    → length right < length left
length-strict_superset left right d h n =
    let (x, (l, r)) = lacking right left n in
    let shorter = length-without x left l in
    let rest = length-superset (without x left) right d (superset-without x left right h r) in
    omega (arith, shorter, rest)

-- What two lists share, both include.
pub overlaps-includes :
    (left right : List ℕ) (id : ℕ)
    → overlaps left right ≡ false
    → includes left id ≡ true
    → includes right id ≡ false
unfolding overlaps
overlaps-includes [] right id h l = absurd (ground arith)
overlaps-includes (x ∷ left) right id h l = elim (Bool-cases (x == id)) [
  | inl e ↦ let same : x ≡ id = ground arith in ground (arith, same)
  | inr e ↦ overlaps-includes left right id (ground arith) (ground arith)
]

-- Candidates whose coverage is no partial overlap: one covers the other, or they share nothing.
pub coverage_relation-cases :
    (left right : List ℕ)
    → ((coverage_relation left right ≡ disjoint) × (overlaps left right ≡ false))
      ⊎ (((overlaps left right ≡ true)
            × ((is_superset left right ≡ true) ⊎ (is_superset right left ≡ true)))
          ⊎ (coverage_relation left right ≡ partial))
unfolding coverage_relation
coverage_relation-cases left right = ground arith
