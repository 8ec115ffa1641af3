-- ===== src/Mailbox/Examples.antt =====
-- Tests: a mailbox of two values that overflows.
use agent_multiplex.Base.{ℕ, ◌≡◌, refl, false, List, [], ◌∷◌, ◌++◌}
use agent_multiplex.Mailbox.{
  Kind, keeping, discarding, Mailbox, create, Call, pushes, closes, reads, step, run,
}
use agent_multiplex.Mailbox.Order.{delivered, pushed, create-Inv, run_prefix, run_complete}

abbrev small : Mailbox ℕ
small = create discarding 2

abbrev overflowing : List (Call ℕ)
overflowing =
    reads 1 ∷ pushes 7 ∷ pushes 8 ∷ pushes 9 ∷ reads 2 ∷ pushes 5 ∷ pushes 6 ∷ reads 3 ∷ []

abbrev healthy : List (Call ℕ)
healthy = reads 1 ∷ pushes 7 ∷ pushes 8 ∷ reads 2 ∷ pushes 9 ∷ []

small_stays_open : (run small healthy).0.closed ≡ false
unfolding run step agent_multiplex.Mailbox.push agent_multiplex.Mailbox.next create
small_stays_open = refl

run_prefix_example :
    (rest : List ℕ) × (delivered (run small overflowing).1 ++ rest
      ≡ small.values ++ pushed overflowing)
run_prefix_example = run_prefix small overflowing (create-Inv discarding 2)

run_complete_example :
    delivered (run small healthy).1 ++ (run small healthy).0.values ≡ small.values ++ pushed healthy
run_complete_example = run_complete small healthy (create-Inv discarding 2) small_stays_open
