-- ===== src/Fsm/Fifo/History.antt =====
-- Any sequence of pushes and pops on the circular array does what it does on a list.
use deploykit.Base.{
  ℕ, ◌<◌, ◌≡◌, refl, sym, ap, ◌∙◌, Option, none, some, List, [], ◌∷◌, ◌++◌, arith, ◌==◌, Bool-cases,
  inl, inr,
}
use mathlib.Core.Option
use deploykit.Fsm.Fifo.{Fifo, new_fifo, push, pop}
use deploykit.Fsm.Fifo.Grow.{entries, IsQueue, new_fifo-IsQueue}
use deploykit.Fsm.Fifo.Refine.{push-Stored, pop-Popped, pop-empty, entries-empty}

-- What a caller does with the queue.
pub data Op (A : Type 0) : Type 0 where
  pushed : Option A → Op A
  popped : Op A

module _ {A : Type 0} where
  -- The nodes that the pops return; `none` is a panic.
  unfoldable pub run : Fifo A → List (Op A) → Option (List (Option A))
  run q [] = some []
  run q (pushed n ∷ ops) = elim (push q n) [ none ↦ none | some q' ↦ run q' ops ]
  run q (popped ∷ ops) = elim (pop q) [
    | none ↦ none
    | some (x, q') ↦ Option.map (◌∷◌ x) (run q' ops)
  ]

  -- The same of a list, the oldest node first.
  unfoldable pub run_list : List (Option A) → List (Op A) → List (Option A)
  run_list l [] = []
  run_list l (pushed n ∷ ops) = run_list (l ++ n ∷ []) ops
  run_list [] (popped ∷ ops) = none ∷ run_list [] ops
  run_list (x ∷ l) (popped ∷ ops) = x ∷ run_list l ops

  run_list-nil :
      (l : List (Option A)) (ops : List (Op A))
      → l ≡ []
      → run_list l (popped ∷ ops) ≡ none ∷ run_list l ops
  unfolding run_list
  run_list-nil l ops e = rw e

  run_list-cons :
      (l : List (Option A)) (x : Option A) (l' : List (Option A)) (ops : List (Op A))
      → l ≡ x ∷ l'
      → run_list l (popped ∷ ops) ≡ x ∷ run_list l' ops
  unfolding run_list
  run_list-cons l x l' ops e = rw e

  run-eq-run_list :
      (q : Fifo A) (ops : List (Op A)) → IsQueue q → run q ops ≡ some (run_list (entries q) ops)
  unfolding run run_list
  run-eq-run_list q [] v = refl
  run-eq-run_list q (pushed n ∷ ops) v =
      let (q', p, v', grown) = push-Stored q n v in
      rw (p, run) (run-eq-run_list q' ops v' ∙ ap (λ l. some (run_list l ops)) grown)
  run-eq-run_list q (popped ∷ ops) v = elim (Bool-cases (q.count == 0)) [
    | inl p ↦
        let z : q.count ≡ 0 = ground arith in
        rw (pop-empty q z, run)
          (ap (Option.map (◌∷◌ none)) (run-eq-run_list q ops v)
            ∙ ap some (sym (run_list-nil (entries q) ops (entries-empty q z))))
    | inr p ↦
        let (x, q', took, v', split) = pop-Popped q v (ground arith) in
        rw (took, run)
          (ap (Option.map (◌∷◌ x)) (run-eq-run_list q' ops v')
            ∙ ap some (sym (run_list-cons (entries q) x (entries q') ops split)))
  ]

  -- From newFifo of a positive size, no sequence of pushes and pops panics, and the pops return
  -- what they return from a list: the nodes in the order of the pushes, and nil where none is
  -- left, also across wrapping and growing.
  pub run-new_fifo :
      (size : ℕ) (ops : List (Op A)) → 0 < size → run (new_fifo size) ops ≡ some (run_list [] ops)
  run-new_fifo size ops h =
      run-eq-run_list (new_fifo size) ops (new_fifo-IsQueue size h)
      ∙ ap (λ l. some (run_list l ops)) (entries-empty (new_fifo size) (unfold new_fifo in refl))
