-- ===== src/Fsm/Queue/Fuel.antt =====
-- The fuel of the heap's loops is enough: from there on, more of it changes nothing.
use deploykit.Base.{
  ℕ, zero, suc, ◌+◌, ◌-◌, ◌*◌, ◌/◌, ◌<◌, ◌≤◌, ◌≡◌, refl, ◌==◌, leb, arith, Bool-cases, inl, inr,
}
use deploykit.Fsm.Queue.{Timers, less, look, look_below, swap, up, smaller_child, down}

-- Sifting up from `j` needs no more than `j + 1`, and sifting down from `i` within `n` no more than `n - i`.
up_fuel : (f g j : ℕ) (t : Timers) → j < f → j < g → up f t j ≡ up g t j
unfolding up
up_fuel zero g j t h k = absurd (omega arith)
up_fuel (suc f) zero j t h k = absurd (omega arith)
up_fuel (suc f) (suc g) j t h k =
    let i = (j - 1) / 2 in
    elim (Bool-cases (i == j)) [
      | inl p ↦ rw (p, up) refl
      | inr p ↦ elim (Bool-cases (less t j i)) [
        | inr q ↦ rw (p, q, up) refl
        | inl q ↦
            rw (p, q, up) (up_fuel f g i (swap (look t j i) i j) (ground arith) (ground arith))
      ]
    ]

smaller_child-gt : (t : Timers) (i n : ℕ) → i < smaller_child t i n
unfolding smaller_child
smaller_child-gt t i n = ground arith

down_fuel : (f g i n : ℕ) (t : Timers) → n ≤ i + f → n ≤ i + g → down f t i n ≡ down g t i n
unfolding down
down_fuel zero zero i n t h k = refl
down_fuel zero (suc g) i n t h k = ground arith
down_fuel (suc f) zero i n t h k = ground arith
down_fuel (suc f) (suc g) i n t h k =
    let j = smaller_child t i n in
    let lt = smaller_child-gt t i n in
    elim (Bool-cases (leb n (2 * i + 1))) [
      | inl p ↦ rw (p, down) refl
      | inr p ↦ elim (Bool-cases (less t j i)) [
        | inr q ↦ rw (p, q, down) refl
        | inl q ↦
            rw (p, q, down)
              (down_fuel f g j n (swap (look_below t i n) i j) (omega arith) (omega arith))
      ]
    ]

-- With the fuel that the operations of the heap are given, or more, sifting up from a place and
-- sifting down from it within a bound come to their ends: more fuel gives the same queue.
sift_fuel :
    (t : Timers) (j n more : ℕ)
    → (up (j + 1) t j ≡ up (j + 1 + more) t j) × (down (n + 1) t j n ≡ down (n + 1 + more) t j n)
sift_fuel t j n more = (
  up_fuel (j + 1) (j + 1 + more) j t (omega arith) (omega arith),
  down_fuel (n + 1) (n + 1 + more) j n t (omega arith) (omega arith),
)
