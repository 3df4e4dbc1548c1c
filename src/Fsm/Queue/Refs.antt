-- ===== src/Fsm/Queue/Refs.antt =====
-- The deadline queue points to allocated instances only, and gives one where it is not empty.
use deploykit.Base.{
  ℕ, zero, suc, ◌+◌, ◌-◌, ◌*◌, ◌/◌, ◌<◌, ◌≡◌, ◌⊎◌, refl, subst, ◌∙◌, some, List, [], ◌∷◌, length,
  ◌==◌, ltb, leb, get_elem?, get_or, set, arith, length-set, length-take, Bool-cases, inl, inr,
  Option-cases, All, All-set, All-get_or, All-get_elem?, All-take, All-append_one, get_elem?-total,
}
use deploykit.Base.Int.{pos, ltb_ℤ}
use deploykit.Fsm.Queue.{
  Ref, Timers, less, look, look_below, swap, up, smaller_child, down, enqueue, pop_last, dequeue,
  settle, heap_remove, index_of, remove, update,
}

abbrev pub RefsBelow : ℕ → List Ref → Type 0
RefsBelow n = All (λ r. r < n)

queue_cases : (q : List Ref) → (q ≡ []) ⊎ ((x : Ref) × (l : List Ref) × (q ≡ x ∷ l))
queue_cases [] = inl refl
queue_cases (x ∷ l) = inr (x, l, refl)

module _ (n : ℕ) where
  RefsBelow-swap : (t : Timers) (i j : ℕ) → RefsBelow n t.queue → RefsBelow n (swap t i j).queue
  unfolding swap
  RefsBelow-swap t i j h = elim (queue_cases t.queue) [
    | inl e ↦ rw e tt
    | inr (x, l, e) ↦
        let zero_ok : 0 < n = omega (arith, (subst (RefsBelow n) e h).0) in
        let at = λ (k : ℕ). All-get_or (λ r. r < n) t.queue k 0 h zero_ok in
        All-set (λ r. r < n) (set t.queue i (get_or t.queue j 0)) j _
          (All-set (λ r. r < n) t.queue i _ h (at j)) (at i)
  ]

  RefsBelow-up : (f : ℕ) (t : Timers) (j : ℕ) → RefsBelow n t.queue → RefsBelow n (up f t j).queue
  unfolding up look
  RefsBelow-up zero t j h = h
  RefsBelow-up (suc f) t j h =
      let i = (j - 1) / 2 in
      let swapped = swap (look t j i) i j in
      let kept = RefsBelow-up f swapped i (RefsBelow-swap (look t j i) i j h) in
      elim (Bool-cases (i == j)) [
        | inl p ↦ rw (p, up) h
        | inr p ↦ elim (Bool-cases (less t j i)) [
          | inl q ↦ rw (p, q, up) kept
          | inr q ↦ rw (p, q, up) h
        ]
      ]

  RefsBelow-down :
      (f : ℕ) (t : Timers) (i m : ℕ) → RefsBelow n t.queue → RefsBelow n (down f t i m).0.queue
  unfolding down look_below
  RefsBelow-down zero t i m h = h
  RefsBelow-down (suc f) t i m h =
      let j = smaller_child t i m in
      let seen = look_below t i m in
      let kept = RefsBelow-down f (swap seen i j) j m (RefsBelow-swap seen i j h) in
      elim (Bool-cases (leb m (2 * i + 1))) [
        | inl p ↦ rw (p, down) h
        | inr p ↦ elim (Bool-cases (less t j i)) [
          | inl q ↦ rw (p, q, down) kept
          | inr q ↦ rw (p, q, down) h
        ]
      ]

  RefsBelow-settle : (t : Timers) (i m : ℕ) → RefsBelow n t.queue → RefsBelow n (settle t i m).queue
  unfolding settle
  RefsBelow-settle t i m h =
      let h₁ = RefsBelow-down (m + 1) t i m h in
      elim (Bool-cases (ltb i (down (m + 1) t i m).1)) [
        | inl p ↦ rw p h₁
        | inr p ↦ rw p (RefsBelow-up (i + 1) (down (m + 1) t i m).0 i h₁)
      ]

  RefsBelow-pop_last : (t : Timers) → RefsBelow n t.queue → RefsBelow n (pop_last t).1.queue
  unfolding pop_last
  RefsBelow-pop_last t h = elim (Option-cases (get_elem? t.queue (length t.queue - 1))) [
    | inl e ↦ rw (e, pop_last) h
    | inr (r, e) ↦ rw (e, pop_last) (All-take (λ r. r < n) (length t.queue - 1) t.queue h)
  ]

  pub RefsBelow-enqueue :
      (t : Timers) (r : Ref) → r < n → RefsBelow n t.queue → RefsBelow n (enqueue t r).queue
  unfolding enqueue
  RefsBelow-enqueue t r p h =
      RefsBelow-up (length t.queue + 1) _ (length t.queue)
        (All-append_one (λ r. r < n) t.queue r h p)

  pub RefsBelow-dequeue : (t : Timers) → RefsBelow n t.queue → RefsBelow n (dequeue t).1.queue
  unfolding dequeue
  RefsBelow-dequeue t h =
      let m = length t.queue - 1 in
      RefsBelow-pop_last _ (RefsBelow-down (m + 1) (swap t 0 m) 0 m (RefsBelow-swap t 0 m h))

  RefsBelow-heap_remove :
      (t : Timers) (i : ℕ) → RefsBelow n t.queue → RefsBelow n (heap_remove t i).queue
  unfolding heap_remove
  RefsBelow-heap_remove t i h =
      let m = length t.queue - 1 in
      RefsBelow-pop_last _ (elim (Bool-cases (m == i)) [
        | inl p ↦ rw p h
        | inr p ↦ rw p (RefsBelow-settle (swap t i m) i m (RefsBelow-swap t i m h))
      ])

  pub RefsBelow-remove :
      (t : Timers) (r : Ref) → RefsBelow n t.queue → RefsBelow n (remove t r).queue
  unfolding remove
  RefsBelow-remove t r h = elim (Bool-cases (ltb_ℤ (pos 0) (index_of (get_elem? t.store r)))) [
    | inl p ↦ rw (p, remove) (RefsBelow-heap_remove t _ h)
    | inr p ↦ rw (p, remove) h
  ]

  pub RefsBelow-update :
      (t : Timers) (r : Ref) → RefsBelow n t.queue → RefsBelow n (update t r).queue
  unfolding update
  RefsBelow-update t r h = elim (Bool-cases (ltb_ℤ (pos 0) (index_of (get_elem? t.store r)))) [
    | inl p ↦ rw (p, update) (RefsBelow-settle t _ (length t.queue) h)
    | inr p ↦ rw (p, update) h
  ]

pub length-swap : (t : Timers) (i j : ℕ) → length (swap t i j).queue ≡ length t.queue
unfolding swap
length-swap t i j = length-set _ j _ ∙ length-set t.queue i _

pub length-down : (f : ℕ) (t : Timers) (i m : ℕ) → length (down f t i m).0.queue ≡ length t.queue
unfolding down look_below
length-down zero t i m = refl
length-down (suc f) t i m =
    let j = smaller_child t i m in
    let seen = look_below t i m in
    ground (arith, length-down f (swap seen i j) j m, length-swap seen i j)

pop_last-some :
    (n : ℕ) (t : Timers)
    → 0 < length t.queue
    → RefsBelow n t.queue
    → (r : Ref) × ((pop_last t).0 ≡ some r) × (r < n)
unfolding pop_last
pop_last-some n t h v =
    let (r, e) = get_elem?-total t.queue (length t.queue - 1) (omega arith) in
    (r, rw (e, pop_last), All-get_elem? (λ x. x < n) t.queue (length t.queue - 1) v e)

-- Where the queue has a head, `dequeue` gives an allocated instance.
pub dequeue-some :
    (n : ℕ) (t : Timers)
    → 0 < length t.queue
    → RefsBelow n t.queue
    → (r : Ref) × ((dequeue t).0 ≡ some r) × (r < n)
unfolding dequeue
dequeue-some n t h v =
    let m = length t.queue - 1 in
    pop_last-some n _ (omega (arith, length-down (m + 1) (swap t 0 m) 0 m, length-swap t 0 m))
      (RefsBelow-down n (m + 1) (swap t 0 m) 0 m (RefsBelow-swap n t 0 m v))

length-pop_last :
    (t : Timers) → 0 < length t.queue → length (pop_last t).1.queue + 1 ≡ length t.queue
unfolding pop_last
length-pop_last t h =
    let (r, e) = get_elem?-total t.queue (length t.queue - 1) (omega arith) in
    rw (e, pop_last) (omega (arith, length-take (length t.queue - 1) t.queue))

-- `dequeue` takes one off.
pub length-dequeue :
    (t : Timers) → 0 < length t.queue → length (dequeue t).1.queue + 1 ≡ length t.queue
unfolding dequeue
length-dequeue t h =
    let m = length t.queue - 1 in
    let same = length-down (m + 1) (swap t 0 m) 0 m ∙ length-swap t 0 m in
    length-pop_last _ (omega (arith, same)) ∙ same
