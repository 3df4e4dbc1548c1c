-- ===== src/Fsm/Queue/Moves.antt =====
-- The operations of the deadline queue stay within the slice, where each instance knows its place.
use deploykit.Base.{
  ℕ, zero, suc, ◌+◌, ◌-◌, ◌*◌, ◌/◌, ◌<◌, ◌≡◌, ◌≢◌, refl, ◌∙◌, some, List, [], ◌∷◌, ◌++◌, length,
  ltb, leb, get_elem?, get_or, set, modify, arith, Bool-cases, inl, inr, Option-cases,
  get_elem?-modify, get_elem?-lt, get_elem?-total, length-set, get_elem?-append_one, length-append,
}
use deploykit.Base.Int.{pos, ltb_ℤ, pos_part}
use deploykit.Fsm.Queue.{
  Instance, Ref, Timers, minus_one, set_index, less, look, look_below, swap, up, smaller_child,
  down, enqueue, pop_last, dequeue, settle, index_of, update,
}
use deploykit.Fsm.Queue.Refs.{length-swap, length-down}
use deploykit.Fsm.Queue.Places.{
  index_at, HasPlaces, Placed, index_at-set_index, stored_of_index, get_elem?-set, smaller_child-lt,
  Placed-swap, Placed-up, Placed-down, Placed-settle, Placed-pop_last,
}

-- The instance has no place in the queue.
abbrev pub IsOut : List Instance → Ref → Type 0
IsOut store r = (k : ℕ) → index_at store r ≢ pos k

-- What is changed of an instance without a place leaves it without one.
pub HasPlaces-modify :
    (queue : List Ref) (store : List Instance) (r : Ref) (f : Instance → Instance)
    → ((x : Instance) → (f x).index ≡ minus_one)
    → IsOut store r
    → HasPlaces queue store
    → HasPlaces queue (modify store r f)
HasPlaces-modify queue store r f out free h k q =
    let after = get_elem?-modify store r q f in
    elim (Option-cases (get_elem? store q)) [
      | inl e ↦ (λ p. ground (arith, (h k q).0), λ p. ground (arith, (h k q).1))
      | inr (x, e) ↦ (
        λ p. ground (arith, out x, (h k q).0, free k),
        λ p. ground (arith, out x, (h k q).1, free k),
      )
    ]

-- The same for a change that leaves the index.
pub HasPlaces-same :
    (queue : List Ref) (store : List Instance) (r : Ref) (f : Instance → Instance)
    → ((x : Instance) → (f x).index ≡ x.index)
    → HasPlaces queue store
    → HasPlaces queue (modify store r f)
HasPlaces-same queue store r f same h k q =
    let after = get_elem?-modify store r q f in
    elim (Option-cases (get_elem? store q)) [
      | inl e ↦ (λ p. ground (arith, (h k q).0), λ p. ground (arith, (h k q).1))
      | inr (x, e) ↦
          (λ p. ground (arith, same x, (h k q).0), λ p. ground (arith, same x, (h k q).1))
    ]

-- A new instance has no place.
pub HasPlaces-append :
    (queue : List Ref) (store : List Instance) (x : Instance)
    → x.index ≡ minus_one
    → HasPlaces queue store
    → HasPlaces queue (store ++ x ∷ [])
HasPlaces-append queue store x out h k q =
    let after = get_elem?-append_one store x q in
    elim (Option-cases (get_elem? store q)) [
      | inl e ↦ (λ p. ground (arith, (h k q).0), λ p. ground (arith, (h k q).1))
      | inr (y, e) ↦ (
        λ p. ground (arith, (h k q).0, get_elem?-lt store q e),
        λ p. ground (arith, (h k q).1, get_elem?-lt store q e),
      )
    ]

-- The instance that the last place points to has none when it is taken off.
pub pop_last-IsOut :
    (t : Timers) (r : Ref)
    → Placed t
    → get_elem? t.queue (length t.queue - 1) ≡ some r
    → IsOut (pop_last t).1.store r
unfolding pop_last
pop_last-IsOut t r (clean, v) e k =
    let n = length t.queue - 1 in
    let (x, s) = stored_of_index t.store r ((v n r).0 e) in
    let after = index_at-set_index r minus_one t.store r s in rw (e, pop_last) (λ p. ground arith)

pub dequeue-IsOut :
    (t : Timers) (r : Ref)
    → 0 < length t.queue
    → Placed t
    → (dequeue t).0 ≡ some r
    → IsOut (dequeue t).1.store r
unfolding dequeue pop_last
dequeue-IsOut t r h v e =
    let n = length t.queue - 1 in
    let lowered = (down (n + 1) (swap t 0 n) 0 n).0 in
    let same = length-down (n + 1) (swap t 0 n) 0 n ∙ length-swap t 0 n in
    let (q, there) = get_elem?-total lowered.queue (length lowered.queue - 1) (omega arith) in
    pop_last-IsOut lowered r
      (Placed-down (n + 1) (swap t 0 n) 0 n (omega (arith, length-swap t 0 n))
        (Placed-swap t 0 n (omega arith) (omega arith) v))
      (there ∙ ground arith)

pub Placed-dequeue : (t : Timers) → 0 < length t.queue → Placed t → Placed (dequeue t).1
unfolding dequeue
Placed-dequeue t h v =
    let n = length t.queue - 1 in
    let same = length-down (n + 1) (swap t 0 n) 0 n ∙ length-swap t 0 n in
    Placed-pop_last _ (omega arith) (
      Placed-down (n + 1) (swap t 0 n) 0 n (omega (arith, length-swap t 0 n))
        (Placed-swap t 0 n (omega arith) (omega arith) v))

pub Placed-enqueue :
    (t : Timers) (r : Ref) → r < length t.store → IsOut t.store r → Placed t → Placed (enqueue t r)
unfolding enqueue
Placed-enqueue t r lt free (clean, v) =
    let n = length t.queue in
    Placed-up (n + 1) _ n (omega (arith, length-append t.queue (r ∷ []))) (clean, placed)
  where
    placed : HasPlaces (t.queue ++ r ∷ []) (set_index r (pos (length t.queue)) t.store)
    placed k q =
        let (x, s) = get_elem?-total t.store r lt in
        let after = index_at-set_index r (pos (length t.queue)) t.store q s in
        let longer = get_elem?-append_one t.queue r k in
        let bounded : get_elem? t.queue k ≡ some q → k < length t.queue = get_elem?-lt t.queue k in
        (
          λ p. ground (arith, (v k q).0, free k, bounded),
          λ p. ground (arith, (v k q).1, free k, bounded),
        )

pub Placed-update : (t : Timers) (r : Ref) → Placed t → Placed (update t r)
unfolding update
Placed-update t r v =
    let k = index_of (get_elem? t.store r) in
    elim (Bool-cases (ltb_ℤ (pos 0) k)) [
      | inl p ↦
          let at : k ≡ pos (pos_part k) = ground arith in
          rw (p, update)
            (Placed-settle t (pos_part k) (length t.queue)
              (get_elem?-lt t.queue (pos_part k) ((v.1 (pos_part k) r).1 at)) (omega arith) v)
      | inr p ↦ rw (p, update) v
    ]

-- What stands at a place stays there while only places below it are moved.
swap_above :
    (t : Timers) (i j n : ℕ)
    → i < n
    → j < n
    → n < length t.queue
    → get_elem? (swap t i j).queue n ≡ get_elem? t.queue n
unfolding swap
swap_above t i j n hi hj h = ground (
  arith,
  get_elem?-set t.queue i (get_or t.queue j 0) n,
  get_elem?-set (set t.queue i (get_or t.queue j 0)) j (get_or t.queue i 0) n,
  length-set t.queue i (get_or t.queue j 0),
)

up_above :
    (f : ℕ) (t : Timers) (j n : ℕ)
    → j < n
    → n < length t.queue
    → get_elem? (up f t j).queue n ≡ get_elem? t.queue n
unfolding up look
up_above zero t j n h k = refl
up_above (suc f) t j n h k =
    let i = (j - 1) / 2 in
    let seen = look t j i in
    let lt : i < n = omega arith in
    let moved =
      up_above f (swap seen i j) i n lt (omega (arith, length-swap seen i j))
      ∙ swap_above seen i j n lt h k in
    ground arith

down_above :
    (f : ℕ) (t : Timers) (i n : ℕ)
    → n < length t.queue
    → get_elem? (down f t i n).0.queue n ≡ get_elem? t.queue n
unfolding down look_below
down_above zero t i n k = refl
down_above (suc f) t i n k =
    let j = smaller_child t i n in
    let seen = look_below t i n in
    elim (Bool-cases (leb n (2 * i + 1))) [
      | inl p ↦ rw (p, down) refl
      | inr p ↦
          let lt = smaller_child-lt t i n (ground arith) in
          let moved =
            down_above f (swap seen i j) j n (omega (arith, length-swap seen i j))
            ∙ swap_above seen i j n (ground arith) lt k in
          elim (Bool-cases (less t j i)) [
            | inl q ↦ rw (p, q, down) moved
            | inr q ↦ rw (p, q, down) refl
          ]
    ]

pub settle_above :
    (t : Timers) (i n : ℕ)
    → i < n
    → n < length t.queue
    → get_elem? (settle t i n).queue n ≡ get_elem? t.queue n
unfolding settle
settle_above t i n h k =
    let lower = down_above (n + 1) t i n k in
    let same = length-down (n + 1) t i n in
    elim (Bool-cases (ltb i (down (n + 1) t i n).1)) [
      | inl p ↦ rw p lower
      | inr p ↦ rw p (up_above (i + 1) (down (n + 1) t i n).0 i n h (omega arith) ∙ lower)
    ]
