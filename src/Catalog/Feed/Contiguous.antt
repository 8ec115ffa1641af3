-- ===== src/Catalog/Feed/Contiguous.antt =====
-- The journal holds exactly the cursors above the minimum, and a replay leaves none out.
use agent_multiplex.Base.{
  ℕ, zero, suc, ◌+◌, ◌-◌, ◌≤◌, ◌<◌, ◌≡◌, refl, sym, subst, ◌∙◌, List, [], ◌∷◌, ◌++◌, length, take,
  drop, filter, ltb, leb, length-append, length-drop, arith, Bool-cases, drop_of_length-le, inl,
  inr, ◌⊎◌, max,
}
use agent_multiplex.Errors.{ok, err, cursor_expired}
use agent_multiplex.Catalog.Feed.{
  Feed, can_replay, after, control_events_after, append_control, compact_control_events,
  rotate_control_feed,
}

module _ {C : Type 0} where
  abbrev pub Contiguous : ℕ → List (ℕ × C) → Type 0
  Contiguous n [] = Unit
  Contiguous n ((c, change) ∷ l) = (c ≡ suc n) × Contiguous (suc n) l

  pub record Inv (f : Feed C) : Type 0 where
    pub rows : Contiguous f.minimum_cursor f.events
    pub count : f.last_cursor ≡ f.minimum_cursor + length f.events
    pub unpublished : f.minimum_cursor ≤ f.published_cursor
    pub published : f.published_cursor ≤ f.last_cursor

  Contiguous-append :
      (n m : ℕ) (l : List (ℕ × C)) (c : C)
      → Contiguous n l
      → m ≡ n + length l
      → Contiguous n (l ++ (suc m, c) ∷ [])
  Contiguous-append n m [] c h e = (omega arith, tt)
  Contiguous-append n m (x ∷ l) c h e = (h.0, Contiguous-append (suc n) m l c h.1 (omega arith))

  pub Contiguous-drop :
      (k n : ℕ) (l : List (ℕ × C)) → Contiguous n l → k ≤ length l → Contiguous (n + k) (drop k l)
  Contiguous-drop zero n l h le = subst (λ m. Contiguous m l) (omega arith) h
  Contiguous-drop (suc k) n [] h le = absurd (omega arith)
  Contiguous-drop (suc k) n (x ∷ l) h le =
      subst (λ m. Contiguous m (drop k l)) (omega arith)
        (Contiguous-drop k (suc n) l h.1 (omega arith))

  filter-after_all :
      (n cursor : ℕ) (l : List (ℕ × C)) → Contiguous n l → cursor ≤ n → filter (after cursor) l ≡ l
  filter-after_all n cursor [] h le = refl
  filter-after_all n cursor ((c, change) ∷ l) h le =
      ground (arith, filter-after_all (suc n) cursor l h.1)

  drop-suc : {k : ℕ} (j : ℕ) (x : ℕ × C) (l : List (ℕ × C)) → k ≡ suc j → drop k (x ∷ l) ≡ drop j l
  drop-suc j x l e = rw e

  drop_none : {k : ℕ} (l : List (ℕ × C)) → k ≡ 0 → drop k l ≡ l
  drop_none l e = rw e

  -- Above the cursor stand all rows but the first ones.
  pub filter-after :
      (n cursor : ℕ) (l : List (ℕ × C))
      → Contiguous n l
      → n ≤ cursor
      → filter (after cursor) l ≡ drop (cursor - n) l
  filter-after n cursor [] h le = sym (drop_of_length-le (cursor - n) [] (omega arith))
  filter-after n cursor ((c, change) ∷ l) h le = elim (Bool-cases (ltb n cursor)) [
    | inl above ↦
        let skip : drop (cursor - n) ((c, change) ∷ l) ≡ drop (cursor - suc n) l =
          drop-suc (cursor - suc n) (c, change) l (ground arith) in
        ground (arith, skip, filter-after (suc n) cursor l h.1)
    | inr here ↦
        filter-after_all n cursor ((c, change) ∷ l) h (ground arith)
        ∙ sym (drop_none ((c, change) ∷ l) (ground arith))
  ]

  -- In a well-formed journal a cursor from the minimum to the last one gets the events after it, up to
  -- the limit, and these are numbered from its successor with no gap.
  pub control_events_after_complete :
      (f : Feed C) (cursor limit : ℕ)
      → Inv f
      → f.minimum_cursor ≤ cursor
      → cursor ≤ f.last_cursor
      → (control_events_after f cursor limit
          ≡ ok (take limit (drop (cursor - f.minimum_cursor) f.events)))
        × Contiguous cursor (drop (cursor - f.minimum_cursor) f.events)
  unfolding control_events_after can_replay
  control_events_after_complete f cursor limit v lo hi = (
    ground (arith, filter-after f.minimum_cursor cursor f.events v.rows),
    subst (λ m. Contiguous m (drop (cursor - f.minimum_cursor) f.events)) (omega arith)
        (Contiguous-drop (cursor - f.minimum_cursor) f.minimum_cursor f.events v.rows
          (omega (arith, v.count))),
  )

  -- A cursor outside the retained range is refused.
  pub control_events_after_expired :
      (f : Feed C) (cursor limit : ℕ)
      → (cursor < f.minimum_cursor) ⊎ (f.last_cursor < cursor)
      → control_events_after f cursor limit ≡ err cursor_expired
  unfolding control_events_after can_replay
  control_events_after_expired f cursor limit h = ground arith

  pub append_control-Inv : (f : Feed C) (c : C) → Inv f → Inv (append_control f c)
  unfolding append_control
  append_control-Inv f c v = record {
    rows = Contiguous-append f.minimum_cursor f.last_cursor f.events c v.rows v.count;
    count = omega (arith, v.count, length-append f.events ((suc f.last_cursor, c) ∷ []));
    unpublished = v.unpublished;
    published = omega arith;
  }

  pub rotate_control_feed-Inv : (f : Feed C) (id : ℕ) → Inv (rotate_control_feed f id)
  unfolding rotate_control_feed
  rotate_control_feed-Inv f id = ground arith

  abbrev pub compacted : Feed C → ℕ → Feed C
  compacted f through = record f {
    events = drop (through - f.minimum_cursor) f.events;
    minimum_cursor = max through f.minimum_cursor;
  }

  compacted-Inv :
      (f : Feed C) (through : ℕ) → Inv f → through ≤ f.published_cursor → Inv (compacted f through)
  compacted-Inv f through v le = record {
    rows =
        subst (λ m. Contiguous m (drop (through - f.minimum_cursor) f.events)) (omega arith)
          (Contiguous-drop (through - f.minimum_cursor) f.minimum_cursor f.events v.rows
            (omega (arith, v)));
    count = omega (arith, v, length-drop (through - f.minimum_cursor) f.events);
    unpublished = omega (arith, v);
    published = v.published;
  }

  -- Compaction of a well-formed journal through a published cursor deletes exactly the rows up to that
  -- cursor, returns their number, and leaves a well-formed journal.
  pub compact_control_events-Inv :
      (f : Feed C) (through : ℕ)
      → Inv f
      → through ≤ f.published_cursor
      → (compact_control_events f through ≡ ok (compacted f through, through - f.minimum_cursor))
        × Inv (compacted f through)
  unfolding compact_control_events
  compact_control_events-Inv f through v le = (
    elim (Bool-cases (leb through f.minimum_cursor)) [
      | inl old ↦
          let keep : max through f.minimum_cursor ≡ f.minimum_cursor = ground arith in
          let none_of_it : through - f.minimum_cursor ≡ 0 = ground arith in
          ground (arith, drop_none {k = through - f.minimum_cursor} f.events none_of_it, keep)
      | inr new ↦
          let kept = filter-after f.minimum_cursor through f.events v.rows (ground arith) in
          let moved : max through f.minimum_cursor ≡ through = ground arith in
          ground (arith, kept, moved, length-drop (through - f.minimum_cursor) f.events, v)
    ],
    compacted-Inv f through v le,
  )
