-- ===== src/Catalog/Feed/Publish.antt =====
-- Each commit publishes its own events once, in order, and keeps the journal within its limit.
use mathlib.Core.List.{append-nil, append_assoc}
use agent_multiplex.Base.{
  ℕ, zero, suc, ◌+◌, ◌-◌, ◌≤◌, ◌<◌, ◌≡◌, refl, sym, subst, ap, ◌∙◌, inl, inr, List, [], ◌∷◌, ◌++◌,
  length, take, drop, ltb, min, length-drop, take-append-drop, Bool-cases, arith,
}
use agent_multiplex.Errors.{ok}
use agent_multiplex.Catalog.Feed.{
  Feed, emit_batch, publish_rounds, publish_new_controls, append_control, append_all,
  compact_to_limit, mutate,
}
use agent_multiplex.Catalog.Feed.Contiguous.{
  Contiguous, Inv, control_events_after_complete, append_control-Inv, compact_control_events-Inv,
  compacted,
}

module _ {C : Type 0} where
  length-take : (n : ℕ) (l : List (ℕ × C)) → length (take n l) ≡ min n (length l)
  length-take zero l = omega arith
  length-take (suc n) [] = omega arith
  length-take (suc n) (x ∷ l) = omega (arith, length-take n l)

  take_all : (n : ℕ) (l : List (ℕ × C)) → length l ≤ n → take n l ≡ l
  take_all zero [] h = refl
  take_all zero (x ∷ l) h = absurd (omega arith)
  take_all (suc n) [] h = refl
  take_all (suc n) (x ∷ l) h = ap (◌∷◌ x) (take_all n l (omega arith))

  drop_at : {k j : ℕ} (l : List (ℕ × C)) → k ≡ j → drop k l ≡ drop j l
  drop_at l e = rw e

  drop_nil : (n : ℕ) → drop {A = ℕ × C} n [] ≡ []
  drop_nil zero = refl
  drop_nil (suc n) = refl

  drop-drop : (m n : ℕ) (l : List (ℕ × C)) → drop n (drop m l) ≡ drop (m + n) l
  drop-drop zero n l = drop_at l (omega arith)
  drop-drop (suc m) n [] = drop_nil n ∙ sym (drop_nil (suc m + n))
  drop-drop (suc m) n (x ∷ l) =
      let e : suc (m + n) ≡ suc m + n = omega arith in
      drop-drop m n l ∙ drop_at {k = suc (m + n)} (x ∷ l) e

  emit_batch_lem :
      (p n : ℕ) (l : List (ℕ × C)) → Contiguous p l → emit_batch p (take n l) ≡ p + min n (length l)
  emit_batch_lem p zero l h = omega arith
  emit_batch_lem p (suc n) [] h = omega arith
  emit_batch_lem p (suc n) ((c, change) ∷ l) h =
      subst (λ q. emit_batch q (take n l) ≡ p + min (suc n) (suc (length l))) (sym h.0)
        (omega (arith, emit_batch_lem (suc p) n l h.1))

  abbrev pub backlog : Feed C → List (ℕ × C)
  backlog f = drop (f.published_cursor - f.minimum_cursor) f.events

  length-backlog : (f : Feed C) → Inv f → f.published_cursor + length (backlog f) ≡ f.last_cursor
  length-backlog f v =
      omega (arith, v, length-drop (f.published_cursor - f.minimum_cursor) f.events)

  publish_rounds_lem :
      (fuel batch : ℕ) (f : Feed C)
      → Inv f
      → 0 < batch
      → f.last_cursor < f.published_cursor + fuel
      → publish_rounds fuel batch f ≡ ok (record f { published_cursor = f.last_cursor }, backlog f)
  unfolding publish_rounds
  publish_rounds_lem zero batch f v b h = absurd (omega (arith, v.published))
  publish_rounds_lem (suc fuel) batch f v b h =
      let found =
        control_events_after_complete f f.published_cursor batch v v.unpublished v.published in
      let emitted = emit_batch_lem f.published_cursor batch (backlog f) found.1 in
      let whole = length-backlog f v in
      elim (Bool-cases (ltb (length (take batch (backlog f))) batch)) [
        | inl last ↦
            let short : length (backlog f) < batch =
              ground (arith, length-take batch (backlog f)) in
            let all_of_it = take_all batch (backlog f) (omega (arith, short)) in
            let reached : emit_batch f.published_cursor (take batch (backlog f)) ≡ f.last_cursor =
              omega (arith, emitted, whole, short) in
            rw (found.0, reached, all_of_it) (ground arith)
        | inr more ↦
            let long : batch ≤ length (backlog f) = ground (arith, length-take batch (backlog f)) in
            let g = record f { published_cursor = f.published_cursor + batch } in
            let reached : emit_batch f.published_cursor (take batch (backlog f))
                ≡ f.published_cursor + batch =
              omega (arith, emitted, long) in
            let later =
              publish_rounds_lem fuel batch g
                record {
                  rows = v.rows;
                  count = v.count;
                  unpublished = omega (arith, v.unpublished);
                  published = omega (arith, whole, long);
                }
                b (omega arith) in
            let left : backlog g ≡ drop batch (backlog f) =
              drop_at f.events (omega (arith, v.unpublished))
              ∙ sym (drop-drop (f.published_cursor - f.minimum_cursor) batch f.events) in
            rw (found.0, reached, later, left, more, take-append-drop batch (backlog f)) refl
      ]

  -- For a well-formed journal and a positive query limit, publishing terminates, emits the rows above
  -- the published cursor, each once and in order, and moves the published cursor to the last cursor.
  pub publish_new_controls_lem :
      (batch : ℕ) (f : Feed C)
      → Inv f
      → 0 < batch
      → (publish_new_controls batch f
          ≡ ok (record f { published_cursor = f.last_cursor }, backlog f))
        × Contiguous f.published_cursor (backlog f)
  unfolding publish_new_controls
  publish_new_controls_lem batch f v b = (
    publish_rounds_lem (suc (length f.events)) batch f v b (omega (arith, v)),
    (control_events_after_complete f f.published_cursor batch v v.unpublished v.published).1,
  )

  -- The changes with the cursors that follow `n`.
  abbrev pub numbered : ℕ → List C → List (ℕ × C)
  numbered n [] = []
  numbered n (c ∷ cs) = (suc n, c) ∷ numbered (suc n) cs

  append_all-Inv : (f : Feed C) (cs : List C) → Inv f → Inv (append_all f cs)
  append_all-Inv f [] v = v
  append_all-Inv f (c ∷ cs) v = append_all-Inv (append_control f c) cs (append_control-Inv f c v)

  append_all_lem :
      (f : Feed C) (cs : List C)
      → append_all f cs ≡ record f {
        events = f.events ++ numbered f.last_cursor cs;
        last_cursor = f.last_cursor + length cs;
      }
  unfolding append_control
  append_all_lem f [] = ground (arith, append-nil f.events)
  append_all_lem f (c ∷ cs) =
      append_all_lem (append_control f c) cs
      ∙ grind (
        arith,
        append_assoc f.events ((suc f.last_cursor, c) ∷ []) (numbered (suc f.last_cursor) cs),
      )

  drop_append : (l m : List (ℕ × C)) → drop (length l) (l ++ m) ≡ m
  drop_append [] m = refl
  drop_append (x ∷ l) m = drop_append l m

  -- After a compaction to the limit, at most `retention` rows remain, the newest ones.
  pub compact_to_limit-Inv :
      (retention : ℕ) (f : Feed C)
      → Inv f
      → f.published_cursor ≡ f.last_cursor
      → (g : Feed C) × (compact_to_limit retention f ≡ ok g)
        × Inv g
        × (length g.events ≤ retention)
        × (g.events ≡ drop (length f.events - retention) f.events)
        × (g.last_cursor ≡ f.last_cursor)
        × (g.published_cursor ≡ f.published_cursor)
  unfolding compact_to_limit
  compact_to_limit-Inv retention f v e =
      elim (Bool-cases (ltb f.minimum_cursor (f.last_cursor - retention))) [
        | inl full ↦
            let through = f.last_cursor - retention in
            let (run, kept) = compact_control_events-Inv f through v (omega arith) in
            (
              compacted f through,
              rw (run, full) refl,
              kept,
              ground (arith, v, length-drop (through - f.minimum_cursor) f.events),
              drop_at f.events (ground (arith, v)),
              refl,
              refl,
            )
        | inr small ↦
            let fits : length f.events - retention ≡ 0 = ground (arith, v) in
            (f, ground arith, v, ground (arith, v), sym (drop_at {j = 0} f.events fits), refl, refl)
      ]

  -- On a well-formed journal all of whose events are published, with a positive query limit, a
  -- transaction that appends changes emits exactly these, each once, at the cursors that follow the
  -- last one; afterwards the journal is well formed and wholly published, and of the old rows and
  -- the new ones it holds the newest `retention`.
  pub mutate_emits :
      (batch retention : ℕ) (f : Feed C) (cs : List C)
      → Inv f
      → f.published_cursor ≡ f.last_cursor
      → 0 < batch
      → (g : Feed C) × (mutate batch retention f cs ≡ ok (g, numbered f.last_cursor cs))
        × Inv g
        × (g.published_cursor ≡ g.last_cursor)
        × (g.last_cursor ≡ f.last_cursor + length cs)
        × (length g.events ≤ retention)
        × (let rows = f.events ++ numbered f.last_cursor cs in
            g.events ≡ drop (length rows - retention) rows)
  unfolding mutate
  mutate_emits batch retention f cs v e b =
      let h = append_all f cs in
      let shape = append_all_lem f cs in
      let iv = append_all-Inv f cs v in
      let out = (publish_new_controls_lem batch h iv b).0 in
      let k = record h { published_cursor = h.last_cursor } in
      let kv : Inv k = record {
        rows = iv.rows;
        count = iv.count;
        unpublished = omega (arith, iv);
        published = omega arith;
      } in
      let (g, fits, gv, small, rows, last, published) = compact_to_limit-Inv retention k kv refl in
      let new : backlog h ≡ numbered f.last_cursor cs =
        ap (λ (x : Feed C). backlog x) shape
        ∙ drop_at (f.events ++ numbered f.last_cursor cs) (omega (arith, v, e))
        ∙ drop_append f.events (numbered f.last_cursor cs) in
      (
        g,
        rw (out, fits, new) refl,
        gv,
        published ∙ sym last,
        last ∙ ap (λ (x : Feed C). x.last_cursor) shape,
        small,
        rows ∙ ap (λ (x : Feed C). drop (length x.events - retention) x.events) shape,
      )
