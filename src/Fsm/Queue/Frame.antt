-- ===== src/Fsm/Queue/Frame.antt =====
-- The deadline queue writes no field of an instance but its index.
use deploykit.Base.{
  ℕ, zero, suc, ◌+◌, ◌-◌, ◌/◌, ◌≡◌, refl, ◌∙◌, List, map, length, get_elem?, arith, map-modify_same,
  Bool-cases, inl, inr, Option-cases,
}
use deploykit.Base.Int.{ℤ, pos, ltb_ℤ, pos_part}
use deploykit.Fsm.Queue.{
  Instance, Timers, minus_one, set_index, look, look_below, swap, up, smaller_child, down, enqueue,
  pop_last, dequeue, settle, heap_remove, index_of, remove, update,
}

abbrev pub core : Instance → Instance
core i = record i { index = minus_one }

-- The instances, their queue positions left out.
abbrev pub cores : Timers → List Instance
cores t = map core t.store

cores-set_index : (r : ℕ) (k : ℤ) (st : List Instance) → map core (set_index r k st) ≡ map core st
cores-set_index r k st = map-modify_same core st r _ (λ x. refl)

cores-swap : (t : Timers) (i j : ℕ) → cores (swap t i j) ≡ cores t
unfolding swap
cores-swap t i j = cores-set_index _ (pos j) _ ∙ cores-set_index _ (pos i) t.store

cores-up : (f : ℕ) (t : Timers) (j : ℕ) → cores (up f t j) ≡ cores t
unfolding up look
cores-up zero t j = refl
cores-up (suc f) t j =
    let i = (j - 1) / 2 in
    ground (arith, cores-up f (swap (look t j i) i j) i, cores-swap (look t j i) i j)

cores-down : (f : ℕ) (t : Timers) (i n : ℕ) → cores (down f t i n).0 ≡ cores t
unfolding down look_below
cores-down zero t i n = refl
cores-down (suc f) t i n =
    let j = smaller_child t i n in
    let seen = look_below t i n in
    ground (arith, cores-down f (swap seen i j) j n, cores-swap seen i j)

pub cores-enqueue : (t : Timers) (r : ℕ) → cores (enqueue t r) ≡ cores t
unfolding enqueue
cores-enqueue t r = cores-up _ _ (length t.queue) ∙ cores-set_index r _ t.store

cores-pop_last : (t : Timers) → cores (pop_last t).1 ≡ cores t
unfolding pop_last
cores-pop_last t = elim (Option-cases (get_elem? t.queue (length t.queue - 1))) [
  | inl e ↦ rw (e, pop_last) refl
  | inr (r, e) ↦ rw (e, pop_last) (cores-set_index r _ t.store)
]

pub cores-dequeue : (t : Timers) → cores (dequeue t).1 ≡ cores t
unfolding dequeue
cores-dequeue t =
    cores-pop_last _
    ∙ (cores-down _ (swap t 0 (length t.queue - 1)) 0 (length t.queue - 1) ∙ cores-swap t 0 _)

cores-settle : (t : Timers) (i n : ℕ) → cores (settle t i n) ≡ cores t
unfolding settle
cores-settle t i n =
    ground (arith, cores-down (n + 1) t i n, cores-up (i + 1) (down (n + 1) t i n).0 i)

cores-heap_remove : (t : Timers) (i : ℕ) → cores (heap_remove t i) ≡ cores t
unfolding heap_remove
cores-heap_remove t i =
    let n = length t.queue - 1 in
    cores-pop_last _ ∙ ground (arith, cores-settle (swap t i n) i n, cores-swap t i n)

pub cores-remove : (t : Timers) (r : ℕ) → cores (remove t r) ≡ cores t
unfolding remove
cores-remove t r =
    let k = index_of (get_elem? t.store r) in
    elim (Bool-cases (ltb_ℤ (pos 0) k)) [
      | inl p ↦
          rw (p, remove)
            (cores-set_index r _ (heap_remove t (pos_part k)).store
              ∙ cores-heap_remove t (pos_part k))
      | inr p ↦ rw (p, remove) refl
    ]

pub cores-update : (t : Timers) (r : ℕ) → cores (update t r) ≡ cores t
unfolding update
cores-update t r =
    ground (arith, cores-settle t (pos_part (index_of (get_elem? t.store r))) (length t.queue))
