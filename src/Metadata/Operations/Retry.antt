-- ===== src/Metadata/Operations/Retry.antt =====
-- A metadata patch that is submitted again, also after other patches.
use agent_multiplex.Base.{
  ℕ, ◌≡◌, ◌∙◌, sym, ap, subst, inl, inr, true, false, some, List, [], ◌∷◌, All, lookup, ◌==◌,
  ==_refl, arith,
}
use agent_multiplex.Errors.{ok, err, Result, Result-cases}
use agent_multiplex.Records.Authority.{same_authority}
use agent_multiplex.Metadata.{Patch, valid_patch}
use agent_multiplex.Metadata.Operations.{Operation, Node, adopt, submit_metadata_patch}
use agent_multiplex.Metadata.Operations.Adopted.{
  adopt-other, propose-other, commit-other, adopt-adopted, Stands,
}
use agent_multiplex.Metadata.Operations.Stored.{Keyed, Stored, submit-cases, submit-Stored}

-- The node after a submission, which leaves it as it was when it fails.
abbrev pub after_submission : Node → Result (Node × Operation) → Node
after_submission m (ok (next, o)) = next
after_submission m (err code) = m

module _ (patch_json : Patch → ℕ) where
  -- Submissions, each with its origin and the clock reading.
  abbrev pub submit_all : Node → List (Patch × ℕ × ℕ) → Node
  submit_all m [] = m
  submit_all m ((q, origin, now) ∷ calls) =
      submit_all (after_submission m (submit_metadata_patch patch_json m q origin now)) calls

  submit-other :
      (n m m' : Node) (o p : Operation) (q : Patch) (origin now : ℕ)
      → Keyed m
      → (q.operation_id == o.operation_id) ≡ false
      → Stands n m o
      → submit_metadata_patch patch_json m q origin now ≡ ok (m', p)
      → Stands n m' o
  submit-other n m m' o p q origin now k other st e =
      elim (submit-cases patch_json m m' q origin now p e) [
        | inr (inl (s, same)) ↦
            subst (λ (r : Node × Operation). Stands n r.0 o) same
              (propose-other n m o q s origin now other st)
        | inr (inr (s, b, same)) ↦
            subst (λ (r : Node × Operation). Stands n r.0 o) same
              (commit-other n m o q s origin now now other b st)
        | inl (there, same, text, from) ↦
            subst (λ x. Stands n x o) same
              (adopt-other n m o p
                (subst (λ id. (id == o.operation_id) ≡ false) (sym (k q.operation_id p there))
                  other)
                st)
      ]

  submit_all-Stored :
      (n m : Node) (o : Operation) (patch : Patch) (origin : ℕ) (calls : List (Patch × ℕ × ℕ))
      → Stored patch_json n m o patch origin
      → All (λ (call : Patch × ℕ × ℕ). (call.0.operation_id == patch.operation_id) ≡ false) calls
      → Stored patch_json n (submit_all m calls) o patch origin
  submit_all-Stored n m o patch origin [] st others = st
  submit_all-Stored n m o patch origin ((q, from, now) ∷ calls) st others =
      elim (Result-cases (submit_metadata_patch patch_json m q from now)) [
        | inr (code, e) ↦
            let same : m ≡ after_submission m (submit_metadata_patch patch_json m q from now) =
              ground (arith, e) in
            subst (λ x. Stored patch_json n (submit_all x calls) o patch origin) same
              (submit_all-Stored n m o patch origin calls st others.1)
        | inl ((next, p), e) ↦
            let same : next ≡ after_submission m (submit_metadata_patch patch_json m q from now) =
              ground (arith, e) in
            let made = submit-Stored patch_json m next q from now p st.keyed e in
            let other = subst (λ id. (q.operation_id == id) ≡ false) (sym st.key) others.0 in
            subst (λ x. Stored patch_json n (submit_all x calls) o patch origin) same
              (submit_all-Stored n next o patch origin calls
                record {
                  stands = submit-other n m next o p q from now st.keyed other st.stands e;
                  key = st.key;
                  same_patch = st.same_patch;
                  same_origin = st.same_origin;
                  keyed = made.keyed;
                }
                others.1)
      ]

  submit-admitted :
      (m m' : Node) (q : Patch) (origin now : ℕ) (p : Operation)
      → submit_metadata_patch patch_json m q origin now ≡ ok (m', p)
      → (valid_patch q ≡ true) × (same_authority q.expected_authority m.authority ≡ true)
  unfolding submit_metadata_patch
  submit-admitted m m' q origin now p e = (ground arith, ground arith)

  retry :
      (m : Node) (q : Patch) (o : Operation) (origin later : ℕ)
      → valid_patch q ≡ true
      → same_authority q.expected_authority m.authority ≡ true
      → lookup q.operation_id m.operations ≡ some o
      → patch_json o.patch ≡ patch_json q
      → o.origin_control_node_id ≡ origin
      → adopt m o ≡ m
      → submit_metadata_patch patch_json m q origin later ≡ ok (m, o)
  unfolding submit_metadata_patch
  retry m q o origin later valid allowed found text from unchanged =
      ground (arith, found, unchanged, text, from, ==_refl (patch_json q), ==_refl origin)

  -- A patch that was submitted, at an authority or at a branch, can be submitted again after any
  -- submissions of other patches, that is of other operation identifiers, whether they succeed or fail
  -- and whatever the clock then reads: the same operation is given, and the journal, the outbox, the
  -- sessions and the deliveries stay as they are. The journal of the start has its operations under
  -- their identifiers, and between the two submissions there is neither a settlement nor a change of
  -- role.
  pub submit_metadata_patch_again :
      (n n' : Node) (patch : Patch) (origin now later : ℕ) (o : Operation)
      (calls : List (Patch × ℕ × ℕ))
      → Keyed n
      → submit_metadata_patch patch_json n patch origin now ≡ ok (n', o)
      → All (λ (call : Patch × ℕ × ℕ). (call.0.operation_id == patch.operation_id) ≡ false) calls
      → submit_metadata_patch patch_json (submit_all n' calls) patch origin later
        ≡ ok (submit_all n' calls, o)
  submit_metadata_patch_again n n' patch origin now later o calls k e others =
      let m = submit_all n' calls in
      let st =
        submit_all-Stored n n' o patch origin calls
          (submit-Stored patch_json n n' patch origin now o k e) others in
      let found : lookup patch.operation_id m.operations ≡ some o =
        ap (λ id. lookup id m.operations) (sym st.key) ∙ st.stands.found in
      let (valid, allowed) = submit-admitted n n' patch origin now o e in
      let allowed' : same_authority patch.expected_authority m.authority ≡ true =
        ap (λ a. same_authority patch.expected_authority a) st.stands.authority ∙ allowed in
      let unchanged : adopt m o ≡ m = adopt-adopted m o st.stands.adopted in
      retry m patch o origin later valid allowed' found st.same_patch st.same_origin unchanged
