-- ===== src/Fsm/Fifo/Tests.antt =====
-- The circular array at work.
use deploykit.Base.{ℕ, ◌≡◌, refl, none, some, List, [], ◌∷◌, arith}
use deploykit.Fsm.Fifo.{new_fifo, push, pop}
use deploykit.Fsm.Fifo.History.{Op, pushed, popped, run, run_list, run-new_fifo}

-- Three pushes on an array of two, with a pop between: it wraps, and then grows.
abbrev wrap_and_grow : List (Op ℕ)
wrap_and_grow =
    pushed (some 1)
    ∷ pushed (some 2)
    ∷ popped
    ∷ pushed (some 3)
    ∷ pushed (some 4)
    ∷ popped
    ∷ popped
    ∷ popped
    ∷ popped
    ∷ []

run-wrap_and_grow :
    run (new_fifo 2) wrap_and_grow ≡ some (some 1 ∷ some 2 ∷ some 3 ∷ some 4 ∷ none ∷ [])
unfolding run new_fifo push pop
run-wrap_and_grow = refl

run-new_fifo_example : run (new_fifo 2) wrap_and_grow ≡ some (run_list [] wrap_and_grow)
run-new_fifo_example = run-new_fifo 2 wrap_and_grow (omega arith)
