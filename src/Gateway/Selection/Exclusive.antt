-- ===== src/Gateway/Selection/Exclusive.antt =====
-- The selected sources own disjoint sets of control nodes, and between them all that can be owned.
use Prim.Native.Nat.{Ordering}
use agent_multiplex.Base.{
  ℕ, All, ◌≡◌, ap, ◌∙◌, refl, sym, subst, ◌⊎◌, inl, inr, Bool, true, false, not, Option, none, some,
  List, [], ◌∷◌, ◌++◌, filter, ◌==◌, Bool-cases, Option-cases, arith,
}
use agent_multiplex.Records.Authority.{same_authority}
use agent_multiplex.Gateway.{SourceSnapshot, Candidate}
use agent_multiplex.Gateway.Coverage.{
  includes, overlaps, is_superset, Distinct, length-strict_superset,
}
use agent_multiplex.Gateway.Conflicts.{authority_of, coverage_of, conflicted_sources}
use agent_multiplex.Gateway.Selection.{suppresses, find, select_from, eligible_of, select_sources}
use agent_multiplex.Gateway.Selection.Sorted.{
  In, In-append, In-append_left, In-append_right, filter-In, In-filter, All-In, Shorter, Descending,
  sort_sources-Descending, sort_sources-In,
}
use agent_multiplex.Gateway.Selection.Compatible.{
  Apart, Compatible, overlaps_comm, conflicted_sources-Compatible,
}

find-none :
    (p : Candidate → Bool) (c : Candidate) (l : List Candidate)
    → find p l ≡ none
    → In c l
    → p c ≡ false
find-none p c [] h i = absurd i
find-none p c (x ∷ l) h (inl e) = let rejected : p x ≡ false = ground arith in ap p e ∙ rejected
find-none p c (x ∷ l) h (inr i) = find-none p c l (ground arith) i

find-some :
    (p : Candidate → Bool) (c : Candidate) (l : List Candidate)
    → find p l ≡ some c
    → In c l × (p c ≡ true)
find-some p c [] h = absurd (ground arith)
find-some p c (x ∷ l) h = elim (Bool-cases (p x)) [
  | inl e ↦ (inl (ground arith), ground arith)
  | inr e ↦ let (i, t) = find-some p c l (ground arith) in (inr i, t)
]

-- A compatible source that is no shorter and does not suppress a candidate shares nothing with it.
suppresses-disjoint :
    (s c : Candidate)
    → Compatible s c
    → Shorter s c
    → Distinct (coverage_of s)
    → suppresses c s ≡ false
    → overlaps (coverage_of s) (coverage_of c) ≡ false
unfolding suppresses
suppresses-disjoint s c (inl o) l d n = o
suppresses-disjoint s c (inr (same, inl covers)) l d n = absurd (ground arith)
suppresses-disjoint s c (inr (same, inr covered)) l d n =
    let lacks : is_superset (coverage_of s) (coverage_of c) ≡ false = ground arith in
    absurd (ground (arith, length-strict_superset (coverage_of c) (coverage_of s) d covered lacks))

-- Different members share no control node.
abbrev Separate : List Candidate → Type 0
Separate l =
    (a b : Candidate)
    → In a l
    → In b l
    → Apart a b
    → overlaps (coverage_of a) (coverage_of b) ≡ false

-- The selected so far, and one more that shares nothing with them.
Separate-append :
    (l : List Candidate) (c : Candidate)
    → Separate l
    → ((s : Candidate) → In s l → Apart s c → overlaps (coverage_of s) (coverage_of c) ≡ false)
    → Separate (l ++ c ∷ [])
Separate-append l c sep new a b i j d = elim (In-append a l (c ∷ []) i) [
  | inl i' ↦ elim (In-append b l (c ∷ []) j) [
    | inl j' ↦ sep a b i' j' d
    | inr (inl e) ↦
        subst (λ (x : Candidate). Apart a x → overlaps (coverage_of a) (coverage_of x) ≡ false)
          (sym e) (new a i') d
    | inr (inr e) ↦ absurd e
  ]
  | inr (inl e) ↦ elim (In-append b l (c ∷ []) j) [
    | inl j' ↦
        let d' : Apart b c = ground (arith, d, ap (λ (x : Candidate). x.source_id) e) in
        let apart = overlaps_comm (coverage_of b) (coverage_of c) (new b j' d') in
        ap (λ (x : Candidate). overlaps (coverage_of x) (coverage_of b)) e ∙ apart
    | inr (inl e') ↦
        let same : a.source_id ≡ b.source_id = ap (λ (x : Candidate). x.source_id) (e ∙ sym e') in
        absurd (ground (arith, same))
    | inr (inr e') ↦ absurd e'
  ]
  | inr (inr e) ↦ absurd e
]

select_from-grows :
    (c : Candidate) (rest chosen : List Candidate) → In c chosen → In c (select_from rest chosen).0
unfolding select_from
select_from-grows c [] chosen i = i
select_from-grows c (x ∷ rest) chosen i = elim (Option-cases (find (suppresses x) chosen)) [
  | inl e ↦
      let step : (select_from (x ∷ rest) chosen).0 ≡ (select_from rest (chosen ++ x ∷ [])).0 =
        ground (arith, e) in
      subst (In c) (sym step)
        (select_from-grows c rest (chosen ++ x ∷ []) (In-append_left c chosen (x ∷ []) i))
  | inr (s, e) ↦
      let step : (select_from (x ∷ rest) chosen).0 ≡ (select_from rest chosen).0 =
        ground (arith, e) in
      subst (In c) (sym step) (select_from-grows c rest chosen i)
]

-- A list of candidates that are part of another.
abbrev Within : List Candidate → List Candidate → Type 0
Within l m = (c : Candidate) → In c l → In c m

-- What holds between two rounds of the loop.
record Round (eligible rest chosen : List Candidate) : Type 0 where
  pub ahead : Within rest eligible
  pub taken : Within chosen eligible
  pub descending : Descending rest
  pub longer : (s c : Candidate) → In s chosen → In c rest → Shorter s c
  pub separate : Separate chosen

module _ (eligible : List Candidate)
    (compatible : (a b : Candidate) → In a eligible → In b eligible → Apart a b → Compatible a b)
    (distinct : (a : Candidate) → In a eligible → Distinct (coverage_of a)) where
  Round-skip :
      (c : Candidate) (rest chosen : List Candidate)
      → Round eligible (c ∷ rest) chosen
      → Round eligible rest chosen
  Round-skip c rest chosen r = record {
    ahead = λ x i. r.ahead x (inr i);
    taken = r.taken;
    descending = r.descending.1;
    longer = λ s x i j. r.longer s x i (inr j);
    separate = r.separate;
  }

  Round-take :
      (c : Candidate) (rest chosen : List Candidate)
      → Round eligible (c ∷ rest) chosen
      → find (suppresses c) chosen ≡ none
      → Round eligible rest (chosen ++ c ∷ [])
  Round-take c rest chosen r n = record {
    ahead = λ x i. r.ahead x (inr i);
    taken = λ x i. elim (In-append x chosen (c ∷ []) i) [
      | inl i' ↦ r.taken x i'
      | inr (inl e) ↦ subst (λ y. In y eligible) (sym e) (r.ahead c (inl refl))
      | inr (inr e) ↦ absurd e
    ];
    descending = r.descending.1;
    longer = λ s x i j. elim (In-append s chosen (c ∷ []) i) [
      | inl i' ↦ r.longer s x i' (inr j)
      | inr (inl e) ↦ subst (λ y. Shorter y x) (sym e) (All-In (Shorter c) x rest r.descending.0 j)
      | inr (inr e) ↦ absurd e
    ];
    separate = Separate-append chosen c r.separate (λ s i d.
        suppresses-disjoint s c (compatible s c (r.taken s i) (r.ahead c (inl refl)) d)
          (r.longer s c i (inl refl)) (distinct s (r.taken s i))
          (find-none (suppresses c) s chosen n i));
  }

  select_from-Separate :
      (rest chosen : List Candidate)
      → Round eligible rest chosen
      → Separate (select_from rest chosen).0
  unfolding select_from
  select_from-Separate [] chosen r = r.separate
  select_from-Separate (c ∷ rest) chosen r = elim (Option-cases (find (suppresses c) chosen)) [
    | inl e ↦
        let step : (select_from (c ∷ rest) chosen).0 ≡ (select_from rest (chosen ++ c ∷ [])).0 =
          ground (arith, e) in
        subst Separate (sym step)
          (select_from-Separate rest (chosen ++ c ∷ []) (Round-take c rest chosen r e))
    | inr (s, e) ↦
        let step : (select_from (c ∷ rest) chosen).0 ≡ (select_from rest chosen).0 =
          ground (arith, e) in
        subst Separate (sym step) (select_from-Separate rest chosen (Round-skip c rest chosen r))
  ]

-- The loop selects of its list alone.
select_from-In :
    (c : Candidate) (rest chosen : List Candidate)
    → In c (select_from rest chosen).0
    → In c chosen ⊎ In c rest
unfolding select_from
select_from-In c [] chosen i = inl i
select_from-In c (x ∷ rest) chosen i = elim (Option-cases (find (suppresses x) chosen)) [
  | inl e ↦
      let step : (select_from (x ∷ rest) chosen).0 ≡ (select_from rest (chosen ++ x ∷ [])).0 =
        ground (arith, e) in
      elim (select_from-In c rest (chosen ++ x ∷ []) (subst (In c) step i)) [
        | inr later ↦ inr (inr later)
        | inl now ↦ elim (In-append c chosen (x ∷ []) now) [
          | inl before ↦ inl before
          | inr (inl is) ↦ inr (inl is)
          | inr (inr none_left) ↦ absurd none_left
        ]
      ]
  | inr (s, e) ↦
      let step : (select_from (x ∷ rest) chosen).0 ≡ (select_from rest chosen).0 =
        ground (arith, e) in
      elim (select_from-In c rest chosen (subst (In c) step i)) [
        | inl before ↦ inl before
        | inr later ↦ inr (inr later)
      ]
]

-- A candidate is selected, or a selected one covers it under its fence.
abbrev Covered : Candidate → List Candidate → Type 0
Covered c chosen = In c chosen ⊎ ((s : Candidate) × (In s chosen × (suppresses c s ≡ true)))

select_from-Covered :
    (c : Candidate) (rest chosen : List Candidate)
    → In c rest
    → Covered c (select_from rest chosen).0
unfolding select_from
select_from-Covered c [] chosen i = absurd i
select_from-Covered c (x ∷ rest) chosen i = elim (Option-cases (find (suppresses x) chosen)) [
  | inl e ↦
      let step : (select_from (x ∷ rest) chosen).0 ≡ (select_from rest (chosen ++ x ∷ [])).0 =
        ground (arith, e) in
      subst (Covered c) (sym step) (elim i [
        | inl is ↦ inl (
            select_from-grows c rest (chosen ++ x ∷ [])
              (In-append_right c chosen (x ∷ []) (inl is)))
        | inr i' ↦ select_from-Covered c rest (chosen ++ x ∷ []) i'
      ])
  | inr (s, e) ↦
      let step : (select_from (x ∷ rest) chosen).0 ≡ (select_from rest chosen).0 =
        ground (arith, e) in
      let (there, covers) = find-some (suppresses x) s chosen e in
      subst (Covered c) (sym step) (elim i [
        | inl is ↦
            inr (s, (select_from-grows s rest chosen there, ap (λ y. suppresses y s) is ∙ covers))
        | inr i' ↦ select_from-Covered c rest chosen i'
      ])
]

module _ (locale_compare : ℕ → ℕ → Ordering) (candidates : List Candidate)
    (reference : Option SourceSnapshot) where
  eligible_of-In :
      (c : Candidate)
      → In c (eligible_of locale_compare candidates reference)
      → In c candidates × (includes (conflicted_sources candidates reference) c.source_id ≡ false)
  unfolding eligible_of
  eligible_of-In c i =
      let free =
        λ (x : Candidate). not (includes (conflicted_sources candidates reference) x.source_id) in
      let i' = (sort_sources-In locale_compare c (filter free candidates)).0 i in
      let (there, t) = In-filter free c candidates i' in (there, ground arith)

  eligible_of-Round :
      Round
        (eligible_of locale_compare candidates reference)
        (eligible_of locale_compare candidates reference)
        []
  unfolding eligible_of
  eligible_of-Round = record {
    ahead = λ c i. i;
    taken = λ c i. absurd i;
    descending = sort_sources-Descending locale_compare (
        filter
          (λ (x : Candidate). not (includes (conflicted_sources candidates reference) x.source_id))
          candidates);
    longer = λ s c i j. absurd i;
    separate = λ a b i j d. absurd i;
  }

  eligible_of-Compatible :
      (a b : Candidate)
      → In a (eligible_of locale_compare candidates reference)
      → In b (eligible_of locale_compare candidates reference)
      → Apart a b
      → Compatible a b
  eligible_of-Compatible a b i j d =
      let (i', fa) = eligible_of-In a i in
      let (j', fb) = eligible_of-In b j in
      conflicted_sources-Compatible candidates reference a b i' j' d fa fb

  -- Two different sources that are selected have no control node in common, whatever the candidates
  -- show. This needs that no candidate advertises a control node twice.
  pub select_sources-exclusive :
      All (λ (c : Candidate). Distinct (coverage_of c)) candidates
      → (a b : Candidate) → In a (select_sources locale_compare candidates reference).0
      → In b (select_sources locale_compare candidates reference).0
      → (a.source_id == b.source_id) ≡ false
      → overlaps (coverage_of a) (coverage_of b) ≡ false
  unfolding select_sources
  select_sources-exclusive distinct =
      select_from-Separate (eligible_of locale_compare candidates reference) eligible_of-Compatible
        (λ c i. All-In (λ x. Distinct (coverage_of x)) c candidates distinct (eligible_of-In c i).0)
        (eligible_of locale_compare candidates reference) [] eligible_of-Round

  -- A selected source is a candidate that conflicts with nothing.
  pub select_sources-eligible :
      (c : Candidate)
      → In c (select_sources locale_compare candidates reference).0
      → In c candidates × (includes (conflicted_sources candidates reference) c.source_id ≡ false)
  unfolding select_sources
  select_sources-eligible c i =
      elim (select_from-In c (eligible_of locale_compare candidates reference) [] i) [
        | inl before ↦ absurd before
        | inr there ↦ eligible_of-In c there
      ]

  -- A candidate that conflicts with nothing is selected, or a selected source of its fence covers all
  -- of its control nodes.
  pub select_sources-covers :
      (c : Candidate)
      → In c candidates
      → includes (conflicted_sources candidates reference) c.source_id ≡ false
      → In c (select_sources locale_compare candidates reference).0
        ⊎ ((s : Candidate) × (In s (select_sources locale_compare candidates reference).0
              × ((same_authority (authority_of s) (authority_of c) ≡ true)
                  × (is_superset (coverage_of s) (coverage_of c) ≡ true))))
  unfolding select_sources eligible_of suppresses
  select_sources-covers c i free =
      let test =
        λ (x : Candidate). not (includes (conflicted_sources candidates reference) x.source_id) in
      let kept = filter-In test c candidates i (ground arith) in
      let sorted = (sort_sources-In locale_compare c (filter test candidates)).1 kept in
      elim (select_from-Covered c (eligible_of locale_compare candidates reference) [] sorted) [
        | inl there ↦ inl there
        | inr (s, (there, covers)) ↦ inr (s, (there, ground arith))
      ]
