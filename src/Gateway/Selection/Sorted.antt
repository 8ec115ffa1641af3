-- ===== src/Gateway/Selection/Sorted.antt =====
-- The order in which candidates are considered: the longer coverage first.
use Prim.Native.Nat.{Ordering}
use agent_multiplex.Base.{
  ℕ, ◌≤◌, ◌≡◌, ap, ◌∙◌, sym, ◌⊎◌, inl, inr, Bool, true, List, [], ◌∷◌, ◌++◌, filter, length, All,
  Bool-cases, arith, subst,
}
use agent_multiplex.Gateway.{Candidate}
use agent_multiplex.Gateway.Conflicts.{coverage_of}
use agent_multiplex.Gateway.Selection.{compare_sources, insert_source, sort_sources}

abbrev pub In : Candidate → List Candidate → Type 0
In c [] = ⊥
In c (x ∷ xs) = (c ≡ x) ⊎ In c xs

abbrev pub Shorter : Candidate → Candidate → Type 0
Shorter c other = length (coverage_of other) ≤ length (coverage_of c)

abbrev pub Descending : List Candidate → Type 0
Descending [] = Unit
Descending (c ∷ rest) = All (Shorter c) rest × Descending rest

pub In-append : (c : Candidate) (xs ys : List Candidate) → In c (xs ++ ys) → In c xs ⊎ In c ys
In-append c [] ys h = inr h
In-append c (x ∷ xs) ys (inl e) = inl (inl e)
In-append c (x ∷ xs) ys (inr h) = elim (In-append c xs ys h) [ inl l ↦ inl (inr l) | inr r ↦ inr r ]

pub In-append_left : (c : Candidate) (xs ys : List Candidate) → In c xs → In c (xs ++ ys)
In-append_left c [] ys h = absurd h
In-append_left c (x ∷ xs) ys (inl e) = inl e
In-append_left c (x ∷ xs) ys (inr h) = inr (In-append_left c xs ys h)

pub In-append_right : (c : Candidate) (xs ys : List Candidate) → In c ys → In c (xs ++ ys)
In-append_right c [] ys h = h
In-append_right c (x ∷ xs) ys h = inr (In-append_right c xs ys h)

-- A filter keeps the elements that pass, and no other.
pub filter-In :
    (p : Candidate → Bool) (c : Candidate) (xs : List Candidate)
    → In c xs
    → p c ≡ true
    → In c (filter p xs)
filter-In p c [] h t = h
filter-In p c (x ∷ xs) (inl is) t = let e : p x ≡ true = ap p (sym is) ∙ t in rw e (inl is)
filter-In p c (x ∷ xs) (inr h) t = elim (Bool-cases (p x)) [
  | inl e ↦ rw e (inr (filter-In p c xs h t))
  | inr e ↦ rw e (filter-In p c xs h t)
]

pub In-filter :
    (p : Candidate → Bool) (c : Candidate) (xs : List Candidate)
    → In c (filter p xs)
    → In c xs × (p c ≡ true)
In-filter p c [] h = absurd h
In-filter p c (x ∷ xs) h = elim (Bool-cases (p x)) [
  | inl e ↦
      let kept : filter p (x ∷ xs) ≡ x ∷ filter p xs = ground (arith, e) in
      let h' : In c (x ∷ filter p xs) = subst (In c) kept h in
      elim h' [
        | inl is ↦ (inl is, ap p is ∙ e)
        | inr l ↦ let (i, t) = In-filter p c xs l in (inr i, t)
      ]
  | inr e ↦
      let dropped : filter p (x ∷ xs) ≡ filter p xs = ground (arith, e) in
      let (i, t) = In-filter p c xs (subst (In c) dropped h) in (inr i, t)
]

pub All-In :
    (P : Candidate → Type 0) (c : Candidate) (xs : List Candidate) → All P xs → In c xs → P c
All-In P c [] a h = absurd h
All-In P c (x ∷ xs) a (inl e) = subst P (sym e) a.0
All-In P c (x ∷ xs) a (inr h) = All-In P c xs a.1 h

swap : {A B C : Type 0} → A ⊎ (B ⊎ C) → B ⊎ (A ⊎ C)
swap (inl a) = inr (inl a)
swap (inr (inl b)) = inl b
swap (inr (inr c)) = inr (inr c)

map_right : {A B C : Type 0} → (B → C) → A ⊎ B → A ⊎ C
map_right f (inl a) = inl a
map_right f (inr b) = inr (f b)

All-Shorter :
    (c other : Candidate) (rest : List Candidate)
    → Shorter c other
    → All (Shorter other) rest
    → All (Shorter c) rest
All-Shorter c other [] h a = tt
All-Shorter c other (x ∷ rest) h a = (omega (arith, a.0), All-Shorter c other rest h a.1)

module _ (locale_compare : ℕ → ℕ → Ordering) where
  insert_source-cases :
      (c other : Candidate) (rest : List Candidate)
      → ((insert_source locale_compare c (other ∷ rest)
            ≡ other ∷ insert_source locale_compare c rest)
          × Shorter other c)
        ⊎ ((insert_source locale_compare c (other ∷ rest) ≡ c ∷ other ∷ rest) × Shorter c other)
  unfolding insert_source compare_sources
  insert_source-cases c other rest = ground arith

  insert_source-All :
      (P : Candidate → Type 0) (c : Candidate) (rest : List Candidate)
      → P c
      → All P rest
      → All P (insert_source locale_compare c rest)
  unfolding insert_source
  insert_source-All P c [] h a = (h, tt)
  insert_source-All P c (x ∷ rest) h a = elim (insert_source-cases c x rest) [
    | inl (e, s) ↦ subst (All P) (sym e) (a.0, insert_source-All P c rest h a.1)
    | inr (e, s) ↦ subst (All P) (sym e) (h, a)
  ]

  insert_source-Descending :
      (c : Candidate) (rest : List Candidate)
      → Descending rest
      → Descending (insert_source locale_compare c rest)
  unfolding insert_source
  insert_source-Descending c [] d = (tt, tt)
  insert_source-Descending c (x ∷ rest) (a, d) = elim (insert_source-cases c x rest) [
    | inl (e, s) ↦
        subst Descending (sym e)
          (insert_source-All (Shorter x) c rest s a, insert_source-Descending c rest d)
    | inr (e, s) ↦ subst Descending (sym e) ((s, All-Shorter c x rest s a), (a, d))
  ]

  pub sort_sources-Descending : (l : List Candidate) → Descending (sort_sources locale_compare l)
  unfolding sort_sources
  sort_sources-Descending [] = tt
  sort_sources-Descending (c ∷ rest) =
      insert_source-Descending c (sort_sources locale_compare rest) (sort_sources-Descending rest)

  insert_source-In :
      (c x : Candidate) (rest : List Candidate)
      → (In x (insert_source locale_compare c rest) → (x ≡ c) ⊎ In x rest)
        × ((x ≡ c) ⊎ In x rest → In x (insert_source locale_compare c rest))
  unfolding insert_source
  insert_source-In c x [] = (λ h. h, λ h. h)
  insert_source-In c x (y ∷ rest) =
      let (there, back) = insert_source-In c x rest in
      elim (insert_source-cases c y rest) [
        | inl (e, s) ↦ (
          λ h. swap (map_right there (subst (In x) e h)),
          λ h. subst (In x) (sym e) (map_right back (swap h)),
        )
        | inr (e, s) ↦ (λ h. subst (In x) e h, λ h. subst (In x) (sym e) h)
      ]

  -- The sort keeps what it sorts.
  pub sort_sources-In :
      (x : Candidate) (l : List Candidate)
      → (In x (sort_sources locale_compare l) → In x l)
        × (In x l → In x (sort_sources locale_compare l))
  unfolding sort_sources
  sort_sources-In x [] = (λ h. h, λ h. h)
  sort_sources-In x (c ∷ rest) =
      let (there, back) = sort_sources-In x rest in
      let (there', back') = insert_source-In c x (sort_sources locale_compare rest) in
      (λ h. map_right there (there' h), λ h. back' (map_right back h))
