-- ===== src/Records/Timestamp.antt =====
-- `compareOperationTimestamp` of packages/control-node-core/src/catalog.ts. A timestamp is a text;
-- `instant` is JavaScript's `Date.parse`, which several texts may share.
use Prim.Native.Nat.{compare, Ordering}
use agent_multiplex.Base.{ℕ, Bool, true, false}

abbrev pub compare_operation_timestamp : (ℕ → ℕ) → ℕ → ℕ → Ordering
compare_operation_timestamp instant left right = compare (instant left) (instant right)

-- `< 0` and `> 0` of that sign.
abbrev pub is_negative : Ordering → Bool
is_negative Ordering.lt = true
is_negative _ = false

abbrev pub is_positive : Ordering → Bool
is_positive Ordering.gt = true
is_positive _ = false
