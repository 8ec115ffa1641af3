-- ===== src/Terminal/Keyboard/Receipts.antt =====
-- Tables of receipts, and the expiry of a lease.
use agent_multiplex.Base.{ℕ, ◌<◌, ◌≡◌, refl, none, some, [], ◌∷◌, Table, lookup, insert, arith}
use agent_multiplex.Terminal.{Lease, Terminal, emit_changed, clear_lease, expire_lease_if_needed}
use agent_multiplex.Terminal.Keyboard.{forget_oldest}

module _ {ℓ} {V : Type ℓ} where
  pub lookup_last :
      (k : ℕ) (v : V) (l : Table V) → lookup k l ≡ none → lookup k (insert k v l) ≡ some v
  lookup_last k v [] h = ground arith
  lookup_last k v ((j, w) ∷ l) h = ground (arith, lookup_last k v l)

  -- A new entry is the last to go.
  pub lookup-forget_oldest :
      (limit k : ℕ) (v : V) (l : Table V)
      → 0 < limit
      → lookup k l ≡ none
      → lookup k (forget_oldest limit (insert k v l)) ≡ some v
  lookup-forget_oldest limit k v [] b h = ground arith
  lookup-forget_oldest limit k v ((j, w) ∷ l) b h =
      ground (arith, lookup-forget_oldest limit k v l b, lookup_last k v l)

  abbrev pub Below : ℕ → Table V → Type 0
  Below n [] = Unit
  Below n ((k, v) ∷ l) = (k < n) × Below n l

  pub Below-lookup : (n : ℕ) (l : Table V) → Below n l → lookup n l ≡ none
  Below-lookup n [] h = refl
  Below-lookup n ((k, v) ∷ l) h = ground (arith, Below-lookup n l)

pub emit_changed-lease :
    (t : Terminal)
    → ((emit_changed t).lease ≡ t.lease)
      × ((emit_changed t).received ≡ t.received)
      × ((emit_changed t).state ≡ t.state)
      × ((emit_changed t).capabilities ≡ t.capabilities)
unfolding emit_changed
emit_changed-lease t = (refl, refl, refl, refl)

pub expire-kept :
    (t : Terminal) (now : ℕ)
    → ((expire_lease_if_needed t now).received ≡ t.received)
      × ((expire_lease_if_needed t now).state ≡ t.state)
      × ((expire_lease_if_needed t now).capabilities ≡ t.capabilities)
unfolding expire_lease_if_needed clear_lease emit_changed
expire-kept t now = (ground arith, ground arith, ground arith)

pub expire-live :
    (t : Terminal) (now : ℕ) (lease : Lease)
    → t.lease ≡ some lease
    → now < lease.summary.expires_at
    → expire_lease_if_needed t now ≡ t
unfolding expire_lease_if_needed
expire-live t now lease held live = ground arith

-- The lease that is left was there, and has not expired.
pub expire-lease :
    (t : Terminal) (now : ℕ) (lease : Lease)
    → (expire_lease_if_needed t now).lease ≡ some lease
    → (t.lease ≡ some lease) × (now < lease.summary.expires_at)
unfolding expire_lease_if_needed clear_lease emit_changed
expire-lease t now lease e = ground arith
