-- ===== src/Fsm/Queue/Removal.antt =====
-- `heap.Remove` of the deadline queue takes off the instance that stands at the place.
use deploykit.Base.{
  ℕ, zero, suc, ◌+◌, ◌-◌, ◌/◌, ◌<◌, ◌≡◌, refl, ap, ◌∙◌, some, ◌==◌, length, get_elem?, get_or, set,
  arith, Bool-cases, inl, inr, get_elem?-lt, get_elem?-eq-get_or, length-set,
}
use deploykit.Base.Int.{pos, ltb_ℤ, pos_part}
use deploykit.Fsm.Queue.{
  Ref, Timers, minus_one, look, swap, up, down, settle, heap_remove, index_of, remove,
}
use deploykit.Fsm.Queue.Refs.{length-swap, length-down}
use deploykit.Fsm.Queue.Places.{Placed, get_elem?-set, Placed-swap, Placed-settle, Placed-pop_last}
use deploykit.Fsm.Queue.Moves.{IsOut, HasPlaces-modify, pop_last-IsOut, settle_above}

length-up : (f : ℕ) (t : Timers) (j : ℕ) → length (up f t j).queue ≡ length t.queue
unfolding up look
length-up zero t j = refl
length-up (suc f) t j =
    let i = (j - 1) / 2 in
    ground (arith, length-up f (swap (look t j i) i j) i, length-swap (look t j i) i j)

length-settle : (t : Timers) (i n : ℕ) → length (settle t i n).queue ≡ length t.queue
unfolding settle
length-settle t i n =
    ground (arith, length-down (n + 1) t i n, length-up (i + 1) (down (n + 1) t i n).0 i)

swap_last :
    (t : Timers) (i n : ℕ) (r : Ref)
    → n < length t.queue
    → get_elem? t.queue i ≡ some r
    → get_elem? (swap t i n).queue n ≡ some r
unfolding swap
swap_last t i n r h e =
    let lt = get_elem?-lt t.queue i e in
    let read = get_elem?-eq-get_or t.queue i 0 lt in
    ground (
      arith,
      get_elem?-set (set t.queue i (get_or t.queue n 0)) n (get_or t.queue i 0) n,
      length-set t.queue i (get_or t.queue n 0),
    )

-- Removing the place of an instance stays in the slice, and leaves the instance without a place.
heap_remove-Placed :
    (t : Timers) (i : ℕ) (r : Ref)
    → get_elem? t.queue i ≡ some r
    → Placed t
    → Placed (heap_remove t i) × IsOut (heap_remove t i).store r
unfolding heap_remove
heap_remove-Placed t i r e v =
    let n = length t.queue - 1 in
    let lt = get_elem?-lt t.queue i e in
    elim (Bool-cases (n == i)) [
      | inl p ↦
          let same : n ≡ i = ground arith in
          rw (p, heap_remove)
            (
              Placed-pop_last t (omega arith) v,
              pop_last-IsOut t r v (ap (get_elem? t.queue) same ∙ e),
            )
      | inr p ↦
          let below : i < n = ground arith in
          let swapped = swap t i n in
          let long = length-swap t i n in
          let lowered = settle swapped i n in
          let same = length-settle swapped i n ∙ long in
          let placed =
            Placed-settle swapped i n (omega arith) (omega arith)
              (Placed-swap t i n lt (omega arith) v) in
          let there =
            settle_above swapped i n below (omega arith) ∙ swap_last t i n r (omega arith) e in
          rw (p, heap_remove)
            (
              Placed-pop_last lowered (omega arith) placed,
              pop_last-IsOut lowered r placed
                  (ap (λ k. get_elem? lowered.queue (k - 1)) same ∙ there),
            )
    ]

pub Placed-remove : (t : Timers) (r : Ref) → Placed t → Placed (remove t r)
unfolding remove
Placed-remove t r v =
    let k = index_of (get_elem? t.store r) in
    elim (Bool-cases (ltb_ℤ (pos 0) k)) [
      | inl p ↦
          let at : k ≡ pos (pos_part k) = ground arith in
          let (placed, out) = heap_remove-Placed t (pos_part k) r ((v.1 (pos_part k) r).1 at) v in
          rw (p, remove)
            (
              placed.0,
              HasPlaces-modify (heap_remove t (pos_part k)).queue (heap_remove t (pos_part k)).store
                  r (λ x. record x { index = minus_one }) (λ x. refl) out placed.1,
            )
      | inr p ↦ rw (p, remove) v
    ]
