-- ===== src/Base/Maps.antt =====
-- A JavaScript `Map` (or plain object) with numbers for keys, as the list of its entries in
-- insertion order: `set` on a present key keeps its place, and a new key goes to the end.
use Prim.Native.Nat.{ℕ}
use mathlib.Core.Path.{◌≡◌, refl}
use mathlib.Core.Bool.{Bool, true, false}
use mathlib.Core.List.{List, [], ◌∷◌}
use mathlib.Core.Option.{Option, none, some}
use native.Mathlib.Omega.{arith}
use agent_multiplex.Base.Tests.{◌==◌, if◌then◌else◌}

abbrev pub Table {ℓ} : Type ℓ → Type ℓ
Table V = List (ℕ × V)

module _ {ℓ} {V : Type ℓ} where
  abbrev pub lookup : ℕ → Table V → Option V
  lookup k [] = none
  lookup k ((j, v) ∷ t) = if j == k then some v else lookup k t

  abbrev pub has : ℕ → Table V → Bool
  has k [] = false
  has k ((j, v) ∷ t) = if j == k then true else has k t

  abbrev pub insert : ℕ → V → Table V → Table V
  insert k v [] = (k, v) ∷ []
  insert k v ((j, w) ∷ t) = if j == k then (j, v) ∷ t else (j, w) ∷ insert k v t

  abbrev pub delete : ℕ → Table V → Table V
  delete k [] = []
  delete k ((j, w) ∷ t) = if j == k then delete k t else (j, w) ∷ delete k t

  pub lookup-insert :
      (k j : ℕ) (v : V) (t : Table V)
      → lookup j (insert k v t) ≡ (if k == j then some v else lookup j t)
  lookup-insert k j v [] = refl
  lookup-insert k j v ((i, w) ∷ t) = ground (arith, lookup-insert k j v t)

  pub lookup-delete :
      (k j : ℕ) (t : Table V) → lookup j (delete k t) ≡ (if k == j then none else lookup j t)
  lookup-delete k j [] = ground arith
  lookup-delete k j ((i, w) ∷ t) = ground (arith, lookup-delete k j t)
