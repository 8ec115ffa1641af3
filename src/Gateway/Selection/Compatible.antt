-- ===== src/Gateway/Selection/Compatible.antt =====
-- Candidates that conflict with nothing share no control node, or one covers the other under one
-- fence.
use agent_multiplex.Base.{
  ℕ, ◌≡◌, refl, sym, ap, ◌∙◌, ◌⊎◌, inl, inr, Bool, true, false, ◌||◌, not, List, [], ◌∷◌, ◌++◌,
  filter, map, any, ◌==◌, ==_refl, Option, Bool-cases, arith,
}
use agent_multiplex.Records.Authority.{same_authority, same_authority_iff}
use agent_multiplex.Gateway.{SourceSnapshot, Candidate}
use agent_multiplex.Gateway.Coverage.{
  includes, overlaps, is_superset, coverage_relation, coverage_relation-cases,
}
use agent_multiplex.Gateway.Conflicts.{
  authority_of, coverage_of, realm_of, realm_pair_conflict, candidate_pair_conflict, conflicts_with,
  pair_conflicts, several_fences, realm_conflicts, realm_groups_conflicts, failover_conflicts,
  conflicted_sources,
}
use agent_multiplex.Gateway.Selection.Sorted.{In, filter-In}

includes-append :
    (xs ys : List ℕ) (id : ℕ) → includes (xs ++ ys) id ≡ (includes xs id || includes ys id)
includes-append [] ys id = refl
includes-append (x ∷ xs) ys id = ground (arith, includes-append xs ys id)

abbrev pub Apart : Candidate → Candidate → Type 0
Apart a b = (a.source_id == b.source_id) ≡ false

-- The pair is free of the conflict in the order in which the loops look at it.
abbrev Free : (Candidate → Candidate → Bool) → Candidate → Candidate → Type 0
Free conflict a b = (conflict a b ≡ false) ⊎ (conflict b a ≡ false)

conflicts_with-right :
    (conflict : Candidate → Candidate → Bool) (a b : Candidate) (rest : List Candidate)
    → In b rest
    → includes (conflicts_with conflict a rest) b.source_id ≡ false
    → conflict a b ≡ false
unfolding conflicts_with
conflicts_with-right conflict a b [] i h = absurd i
conflicts_with-right conflict a b (x ∷ rest) (inl e) h =
    let h' : includes (conflicts_with conflict a (x ∷ rest)) x.source_id ≡ false =
      ap (λ (c : Candidate). includes (conflicts_with conflict a (x ∷ rest)) c.source_id) (sym e)
      ∙ h in
    let free : conflict a x ≡ false = ground (arith, h', ==_refl x.source_id) in
    ap (conflict a) e ∙ free
conflicts_with-right conflict a b (x ∷ rest) (inr i) h =
    conflicts_with-right conflict a b rest i (ground arith)

pair_conflicts-Free :
    (conflict : Candidate → Candidate → Bool) (a b : Candidate) (l : List Candidate)
    → In a l
    → In b l
    → Apart a b
    → includes (pair_conflicts conflict l) a.source_id ≡ false
    → includes (pair_conflicts conflict l) b.source_id ≡ false
    → Free conflict a b
unfolding pair_conflicts
pair_conflicts-Free conflict a b [] i j d ha hb = absurd i
pair_conflicts-Free conflict a b (x ∷ rest) i j d ha hb =
    let first = conflicts_with conflict x rest in
    let later = pair_conflicts conflict rest in
    let split_a = includes-append first later a.source_id in
    let split_b = includes-append first later b.source_id in
    let fa : includes first a.source_id ≡ false = ground (arith, split_a) in
    let fb : includes first b.source_id ≡ false = ground (arith, split_b) in
    let la : includes later a.source_id ≡ false = ground (arith, split_a) in
    let lb : includes later b.source_id ≡ false = ground (arith, split_b) in
    elim i [
      | inl ea ↦ elim j [
        | inl eb ↦
            let same : a.source_id ≡ b.source_id =
              ap (λ (c : Candidate). c.source_id) (ea ∙ sym eb) in
            absurd (ground (arith, same))
        | inr jb ↦ inl (ap (λ c. conflict c b) ea ∙ conflicts_with-right conflict x b rest jb fb)
      ]
      | inr ia ↦ elim j [
        | inl eb ↦ inr (ap (λ c. conflict c a) eb ∙ conflicts_with-right conflict x a rest ia fa)
        | inr jb ↦ pair_conflicts-Free conflict a b rest ia jb d la lb
      ]
    ]

-- Either one has no control node of the other, or they have one fence and one covers the other.
abbrev pub Compatible : Candidate → Candidate → Type 0
Compatible a b =
    (overlaps (coverage_of a) (coverage_of b) ≡ false)
    ⊎ ((same_authority (authority_of a) (authority_of b) ≡ true)
        × ((is_superset (coverage_of a) (coverage_of b) ≡ true)
            ⊎ (is_superset (coverage_of b) (coverage_of a) ≡ true)))

overlaps-left :
    (left right : List ℕ) (id : ℕ)
    → includes left id ≡ true
    → includes right id ≡ true
    → overlaps left right ≡ true
unfolding overlaps
overlaps-left [] right id l r = absurd (ground arith)
overlaps-left (x ∷ left) right id l r = elim (Bool-cases (x == id)) [
  | inl e ↦ let same : x ≡ id = ground arith in ground (arith, same)
  | inr e ↦ let rest = overlaps-left left right id (ground arith) r in ground arith
]

overlaps-find :
    (left right : List ℕ)
    → overlaps left right ≡ true
    → (id : ℕ) × ((includes left id ≡ true) × (includes right id ≡ true))
unfolding overlaps
overlaps-find [] right h = absurd (ground arith)
overlaps-find (x ∷ left) right h = elim (Bool-cases (includes right x)) [
  | inl e ↦ (x, (ground (arith, ==_refl x), e))
  | inr e ↦ let (id, (l, r)) = overlaps-find left right (ground arith) in (id, (ground arith, r))
]

pub overlaps_comm :
    (left right : List ℕ) → overlaps left right ≡ false → overlaps right left ≡ false
overlaps_comm left right h = elim (Bool-cases (overlaps right left)) [
  | inr e ↦ e
  | inl e ↦
      let (id, (r, l)) = overlaps-find right left e in
      let found = overlaps-left left right id l r in absurd (ground arith)
]

-- What two orders of a test without conflict say of the coverage.
realm_pair_conflict-covers :
    (a b : Candidate)
    → realm_pair_conflict a b ≡ false
    → (overlaps (coverage_of a) (coverage_of b) ≡ false)
      ⊎ ((is_superset (coverage_of a) (coverage_of b) ≡ true)
          ⊎ (is_superset (coverage_of b) (coverage_of a) ≡ true))
unfolding realm_pair_conflict
realm_pair_conflict-covers a b h =
    ground (arith, coverage_relation-cases (coverage_of a) (coverage_of b))

candidate_pair_conflict-realm :
    (a b : Candidate)
    → candidate_pair_conflict a b ≡ false
    → (overlaps (coverage_of a) (coverage_of b) ≡ false) ⊎ (realm_of a ≡ realm_of b)
unfolding candidate_pair_conflict coverage_relation
candidate_pair_conflict-realm a b h = ground arith

includes-map :
    (c : Candidate) (l : List Candidate)
    → In c l
    → includes (map (λ (x : Candidate). x.source_id) l) c.source_id ≡ true
includes-map c [] i = absurd i
includes-map c (x ∷ l) (inl e) =
    let same : x.source_id ≡ c.source_id = ap (λ (y : Candidate). y.source_id) (sym e) in
    ground (arith, same)
includes-map c (x ∷ l) (inr i) = ground (arith, includes-map c l i)

-- All members of a group with one fence have the fence of its first.
first_fence :
    (first c : Candidate) (rest : List Candidate)
    → any (λ o. not (same_authority (authority_of first) (authority_of o))) rest ≡ false
    → In c rest
    → authority_of first ≡ authority_of c
first_fence first c [] h i = absurd i
first_fence first c (x ∷ rest) h (inl e) =
    let same : same_authority (authority_of first) (authority_of x) ≡ true = ground arith in
    (same_authority_iff (authority_of first) (authority_of x)).0 same
    ∙ ap (λ (y : Candidate). authority_of y) (sym e)
first_fence first c (x ∷ rest) h (inr i) = first_fence first c rest (ground arith) i

one_fence :
    (a b : Candidate) (l : List Candidate)
    → several_fences l ≡ false
    → In a l
    → In b l
    → same_authority (authority_of a) (authority_of b) ≡ true
one_fence a b [] h i j = absurd i
one_fence a b (x ∷ l) h i j =
    (same_authority_iff (authority_of a) (authority_of b)).1 (sym (of_first a i) ∙ of_first b j)
  where
    of_first : (c : Candidate) → In c (x ∷ l) → authority_of x ≡ authority_of c
    of_first c (inl e) = ap (λ (y : Candidate). authority_of y) (sym e)
    of_first c (inr i') = first_fence x c l h i'

abbrev group_of : List Candidate → Candidate → List Candidate
group_of candidates c = filter (λ other. realm_of other == realm_of c) candidates

realm_groups_conflicts-group :
    (candidates l : List Candidate) (c : Candidate) (id : ℕ)
    → In c l
    → includes (realm_groups_conflicts candidates l) id ≡ false
    → includes (realm_conflicts (group_of candidates c)) id ≡ false
unfolding realm_groups_conflicts
realm_groups_conflicts-group candidates [] c id i h = absurd i
realm_groups_conflicts-group candidates (x ∷ l) c id i h =
    let here = realm_conflicts (group_of candidates x) in
    let split = includes-append here (realm_groups_conflicts candidates l) id in
    elim i [
      | inl e ↦
          ap (λ (y : Candidate). includes (realm_conflicts (group_of candidates y)) id) e
          ∙ ground (arith, split)
      | inr i' ↦ realm_groups_conflicts-group candidates l c id i' (ground (arith, split))
    ]

-- Two members of a group without conflict.
realm_conflicts-Compatible :
    (a b : Candidate) (group : List Candidate)
    → In a group
    → In b group
    → Apart a b
    → includes (realm_conflicts group) a.source_id ≡ false
    → includes (realm_conflicts group) b.source_id ≡ false
    → Compatible a b
unfolding realm_conflicts
realm_conflicts-Compatible a b group i j d ha hb = elim (Bool-cases (several_fences group)) [
  | inl e ↦ absurd (ground (arith, includes-map a group i))
  | inr e ↦
      let fence = one_fence a b group e i j in
      let pair = pair_conflicts realm_pair_conflict group in
      let ha' : includes pair a.source_id ≡ false = ground arith in
      let hb' : includes pair b.source_id ≡ false = ground arith in
      elim (pair_conflicts-Free realm_pair_conflict a b group i j d ha' hb') [
        | inl f ↦ let covers = realm_pair_conflict-covers a b f in ground (arith, fence, covers)
        | inr f ↦ elim (realm_pair_conflict-covers b a f) [
          | inl o ↦ inl (overlaps_comm (coverage_of b) (coverage_of a) o)
          | inr covers ↦ ground (arith, fence, covers)
        ]
      ]
]

pub conflicted_sources-Compatible :
    (candidates : List Candidate) (reference : Option SourceSnapshot) (a b : Candidate)
    → In a candidates
    → In b candidates
    → Apart a b
    → includes (conflicted_sources candidates reference) a.source_id ≡ false
    → includes (conflicted_sources candidates reference) b.source_id ≡ false
    → Compatible a b
unfolding conflicted_sources
conflicted_sources-Compatible candidates reference a b i j d ha hb =
    let groups = realm_groups_conflicts candidates candidates in
    let pairs = pair_conflicts candidate_pair_conflict candidates in
    let marked = groups ++ pairs in
    let failover = failover_conflicts reference marked candidates in
    let ga : includes groups a.source_id ≡ false = ground (
      arith,
      includes-append marked failover a.source_id,
      includes-append groups pairs a.source_id,
    ) in
    let gb : includes groups b.source_id ≡ false = ground (
      arith,
      includes-append marked failover b.source_id,
      includes-append groups pairs b.source_id,
    ) in
    let pa : includes pairs a.source_id ≡ false = ground (
      arith,
      includes-append marked failover a.source_id,
      includes-append groups pairs a.source_id,
    ) in
    let pb : includes pairs b.source_id ≡ false = ground (
      arith,
      includes-append marked failover b.source_id,
      includes-append groups pairs b.source_id,
    ) in
    let in_realm : realm_of a ≡ realm_of b → Compatible a b = (λ e.
      let group = group_of candidates a in
      realm_conflicts-Compatible a b group
        (filter-In (λ other. realm_of other == realm_of a) a candidates i (==_refl (realm_of a)))
        (filter-In (λ other. realm_of other == realm_of a) b candidates j (ground (arith, e))) d
        (realm_groups_conflicts-group candidates candidates a a.source_id i ga)
        (realm_groups_conflicts-group candidates candidates a b.source_id i gb)) in
    elim (pair_conflicts-Free candidate_pair_conflict a b candidates i j d pa pb) [
      | inl f ↦ elim (candidate_pair_conflict-realm a b f) [ inl o ↦ inl o | inr e ↦ in_realm e ]
      | inr f ↦ elim (candidate_pair_conflict-realm b a f) [
        | inl o ↦ inl (overlaps_comm (coverage_of b) (coverage_of a) o)
        | inr e ↦ in_realm (sym e)
      ]
    ]
