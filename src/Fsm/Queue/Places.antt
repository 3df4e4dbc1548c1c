-- ===== src/Fsm/Queue/Places.antt =====
-- Each instance of the deadline queue knows its place, so that no operation leaves the slice.
use deploykit.Base.{
  ℕ, zero, suc, ◌+◌, ◌-◌, ◌*◌, ◌/◌, ◌<◌, ◌≤◌, ◌≡◌, ◌↔◌, refl, none, some, false, List, [], ◌∷◌,
  ◌==◌, if◌then◌else◌, length, ltb, leb, get_elem?, get_or, set, arith, Bool-cases, inl, inr,
  Option-cases, get_elem?-set_self, get_elem?-set_ne, get_elem?-eq-get_or, get_elem?-modify,
  get_elem?-lt, get_elem?-total, length-set, length-modify, take,
}
use deploykit.Base.Int.{ℤ, pos}
use deploykit.Fsm.Queue.{
  Instance, Ref, Timers, minus_one, set_index, less, look, look_below, swap, up, smaller_child,
  down, pop_last, settle, index_of,
}
use deploykit.Fsm.Queue.Refs.{length-swap, length-down}

-- The index of an instance of the store, -1 where there is none.
abbrev pub index_at : List Instance → Ref → ℤ
index_at store r = index_of (get_elem? store r)

-- An instance stands at a place exactly where its index is that place.
abbrev pub HasPlaces : List Ref → List Instance → Type 0
HasPlaces queue store =
    (k : ℕ) (r : Ref) → (get_elem? queue k ≡ some r) ↔ (index_at store r ≡ pos k)

-- No operation has left the slice, and the instances have their places.
abbrev pub Placed : Timers → Type 0
Placed t = (t.stray ≡ false) × HasPlaces t.queue t.store

pub index_at-set_index :
    (r : Ref) (k : ℤ) (store : List Instance) (q : Ref) {i : Instance}
    → get_elem? store r ≡ some i
    → index_at (set_index r k store) q ≡ (if r == q then k else index_at store q)
index_at-set_index r k store q e =
    ground (arith, get_elem?-modify store r q (λ x. record x { index = k }))

pub get_elem?-set :
    (xs : List Ref) (i : ℕ) (v : Ref) (j : ℕ)
    → i < length xs
    → get_elem? (set xs i v) j ≡ (if i == j then some v else get_elem? xs j)
get_elem?-set xs i v j h = elim (Bool-cases (i == j)) [
  | inl p ↦ ground (arith, get_elem?-set_self xs i v h)
  | inr p ↦ rw (p, get_elem?-set_ne xs {i = i} {j = j} v (λ e. absurd (ground arith))) refl
]

pub stored_of_index :
    (store : List Instance) (r : Ref) {k : ℕ}
    → index_at store r ≡ pos k
    → (x : Instance) × (get_elem? store r ≡ some x)
stored_of_index store r e = elim (Option-cases (get_elem? store r)) [
  | inl p ↦ absurd (ground arith)
  | inr (x, p) ↦ (x, p)
]

stored_after :
    (r : Ref) (n : ℤ) (store : List Instance) (q : Ref) {x : Instance}
    → get_elem? store q ≡ some x
    → (z : Instance) × (get_elem? (set_index r n store) q ≡ some z)
stored_after r n store q e =
    get_elem?-total (set_index r n store) q
      (omega (arith, length-modify store r (λ x. record x { index = n }), get_elem?-lt store q e))

-- Two places change their instances.
HasPlaces-swap :
    (queue : List Ref) (store : List Instance) (i j ri rj : ℕ)
    → HasPlaces queue store
    → get_elem? queue i ≡ some ri
    → get_elem? queue j ≡ some rj
    → HasPlaces (set (set queue i rj) j ri) (set_index ri (pos j) (set_index rj (pos i) store))
HasPlaces-swap queue store i j ri rj h ei ej k r =
    let index_i = (h i ri).0 ei in
    let index_j = (h j rj).0 ej in
    let (x, sj) = stored_of_index store rj index_j in
    let (y, si) = stored_of_index store ri index_i in
    let first = index_at-set_index rj (pos i) store r sj in
    let (z, s') = stored_after rj (pos i) store ri si in
    let second = index_at-set_index ri (pos j) (set_index rj (pos i) store) r s' in
    let inner = get_elem?-set queue i rj k (get_elem?-lt queue i ei) in
    let outer =
      get_elem?-set (set queue i rj) j ri k
        (omega (arith, length-set queue i rj, get_elem?-lt queue j ej)) in
    let there = (h k r).0 in
    let back = (h k r).1 in
    (λ e. ground (arith, (h i r).0, (h j r).0), λ e. ground (arith, (h i r).0, (h j r).0))

in_slice :
    (t : Timers) (i : ℕ) → i < length t.queue → get_elem? t.queue i ≡ some (get_or t.queue i 0)
in_slice t i h = get_elem?-eq-get_or t.queue i 0 h

Placed-look :
    (t : Timers) (i j : ℕ)
    → i < length t.queue
    → j < length t.queue
    → Placed t
    → Placed (look t i j)
unfolding look
Placed-look t i j hi hj (clean, h) = (ground arith, h)

same_slice : (t : Timers) (i j : ℕ) → length (look t i j).queue ≡ length t.queue
unfolding look
same_slice t i j = refl

same_below : (t : Timers) (i n : ℕ) → length (look_below t i n).queue ≡ length t.queue
unfolding look_below
same_below t i n = refl

pub Placed-swap :
    (t : Timers) (i j : ℕ)
    → i < length t.queue
    → j < length t.queue
    → Placed t
    → Placed (swap t i j)
unfolding swap look
Placed-swap t i j hi hj (clean, h) =
    (ground arith, HasPlaces-swap t.queue t.store i j _ _ h (in_slice t i hi) (in_slice t j hj))

pub Placed-up : (f : ℕ) (t : Timers) (j : ℕ) → j < length t.queue → Placed t → Placed (up f t j)
unfolding up
Placed-up zero t j h v = v
Placed-up (suc f) t j h v =
    let i = (j - 1) / 2 in
    let lt : i < length t.queue = omega arith in
    let seen = Placed-look t j i h lt v in
    let same = length-swap (look t j i) i j in
    elim (Bool-cases (i == j)) [
      | inl p ↦ rw (p, up) v
      | inr p ↦ elim (Bool-cases (less t j i)) [
        | inl q ↦
            rw (p, q, up)
              (Placed-up f (swap (look t j i) i j) i (omega (arith, same, same_slice t j i)) (
                Placed-swap (look t j i) i j (omega (arith, same_slice t j i))
                  (omega (arith, same_slice t j i)) seen))
        | inr q ↦ rw (p, q, up) seen
      ]
    ]

pub smaller_child-lt : (t : Timers) (i n : ℕ) → 2 * i + 1 < n → smaller_child t i n < n
unfolding smaller_child
smaller_child-lt t i n h = ground arith

Placed-look_below :
    (t : Timers) (i n : ℕ)
    → 2 * i + 1 < n
    → n ≤ length t.queue
    → Placed t
    → Placed (look_below t i n)
unfolding look_below
Placed-look_below t i n h k (clean, v) = (ground (arith, smaller_child-lt t i n), v)

pub Placed-down :
    (f : ℕ) (t : Timers) (i n : ℕ) → n ≤ length t.queue → Placed t → Placed (down f t i n).0
unfolding down
Placed-down zero t i n k v = v
Placed-down (suc f) t i n k v =
    let j = smaller_child t i n in
    let seen = look_below t i n in
    elim (Bool-cases (leb n (2 * i + 1))) [
      | inl p ↦ rw (p, down) v
      | inr p ↦
          let room : 2 * i + 1 < n = ground arith in
          let lt = smaller_child-lt t i n room in
          let placed = Placed-look_below t i n room k v in
          elim (Bool-cases (less t j i)) [
            | inl q ↦
                rw (p, q, down)
                  (Placed-down f (swap seen i j) j n
                    (omega (arith, length-swap seen i j, same_below t i n))
                    (Placed-swap seen i j (omega (arith, same_below t i n))
                      (omega (arith, same_below t i n)) placed))
            | inr q ↦ rw (p, q, down) placed
          ]
    ]

pub Placed-settle :
    (t : Timers) (i n : ℕ)
    → i < length t.queue
    → n ≤ length t.queue
    → Placed t
    → Placed (settle t i n)
unfolding settle
Placed-settle t i n h k v =
    let moved = Placed-down (n + 1) t i n k v in
    elim (Bool-cases (ltb i (down (n + 1) t i n).1)) [
      | inl p ↦ rw p moved
      | inr p ↦ rw p (
          Placed-up (i + 1) (down (n + 1) t i n).0 i (omega (arith, length-down (n + 1) t i n))
            moved)
    ]

get_elem?-take :
    (n : ℕ) (xs : List Ref) (k : ℕ)
    → get_elem? (take n xs) k ≡ (if ltb k n then get_elem? xs k else none)
get_elem?-take zero xs k = ground arith
get_elem?-take (suc n) [] k = ground arith
get_elem?-take (suc n) (x ∷ xs) zero = ground arith
get_elem?-take (suc n) (x ∷ xs) (suc k) = ground (arith, get_elem?-take n xs k)

-- The last place is taken off, and its instance has none.
HasPlaces-take :
    (queue : List Ref) (store : List Instance) (n : ℕ) (r : Ref)
    → length queue ≡ n + 1
    → get_elem? queue n ≡ some r
    → HasPlaces queue store
    → HasPlaces (take n queue) (set_index r minus_one store)
HasPlaces-take queue store n r len e h k q =
    let index_r = (h n r).0 e in
    let (x, s) = stored_of_index store r index_r in
    let after = index_at-set_index r minus_one store q s in
    let shorter = get_elem?-take n queue k in
    let bounded : get_elem? queue k ≡ some q → k < length queue = get_elem?-lt queue k in
    (
      λ p. ground (arith, (h k q).0, get_elem?-lt (take n queue) k p),
      λ p. ground (arith, (h k q).1, (h k q).0, bounded),
    )

pub Placed-pop_last : (t : Timers) → 0 < length t.queue → Placed t → Placed (pop_last t).1
unfolding pop_last
Placed-pop_last t h (clean, v) =
    let n = length t.queue - 1 in
    let (r, e) = get_elem?-total t.queue n (omega arith) in
    rw (e, pop_last) (clean, HasPlaces-take t.queue t.store n r (omega arith) e v)
