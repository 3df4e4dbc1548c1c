-- ===== src/Fsm/Queue.antt =====
-- pkg/fsm/queue.go: the queue of deadlines, a `container/heap` of pointers to instances; and the
-- instances that it points to (instance.go). The loops are those of the standard library's heap.
pub mod Frame
pub mod Refs
pub mod Fuel
pub mod Places
pub mod Moves
pub mod Removal
use deploykit.Base.{
  ℕ, zero, suc, ◌+◌, ◌-◌, ◌*◌, ◌/◌, Option, none, some, Bool, true, List, [], ◌∷◌, ◌++◌, length,
  not, ◌&&◌, ◌||◌, if◌then◌else◌, ◌==◌, ltb, leb, take, get_elem?, get_or, set, modify,
}
use deploykit.Base.Int.{ℤ, pos, negsuc, ltb_ℤ, pos_part}
use deploykit.Base.Dict.{Dict}
use deploykit.Fsm.Types.{Index, InstanceId, Time, Payload}
use deploykit.Fsm.Flap.{History}

-- `index` is the position in the queue, or -1. The lock and the pointer to the set are left out.
pub record Instance : Type 0 where
  pub id : InstanceId
  pub state : Index
  pub payload : Payload
  pub flaps : History
  pub start : Time
  pub deadline : Time
  pub index : ℤ
  pub visits : Dict Index ℤ

-- A pointer to an instance is its place in the store.
abbrev pub Ref : Type 0
Ref = ℕ

-- The instances that were ever allocated, and the slice of pointers that is the queue. `stray` is
-- set where a place outside the slice is read or written, which panics in Go; the handlers stop there.
pub record Timers : Type 0 where
  pub store : List Instance
  pub queue : List Ref
  pub stray : Bool

abbrev pub minus_one : ℤ
minus_one = negsuc 0

abbrev pub deadline_of : Option Instance → Time
deadline_of none = pos 0
deadline_of (some i) = i.deadline

-- Whether two places are in the slice.
abbrev pub in_range : Timers → ℕ → ℕ → Bool
in_range t i j = ltb i (length t.queue) && ltb j (length t.queue)

-- A read or a write of two places.
unfoldable pub look : Timers → ℕ → ℕ → Timers
look t i j = record t { stray = not (in_range t i j) || t.stray }

-- `pq[i].deadline`. Outside the slice the answer does not matter: the read makes the queue stray.
unfoldable pub deadline_at : Timers → ℕ → Time
deadline_at t i = deadline_of (get_elem? t.store (get_or t.queue i 0))

-- `Less`; `look` is called with it, for what it reads.
unfoldable pub less : Timers → ℕ → ℕ → Bool
unfolding deadline_at
less t i j = ltb_ℤ (deadline_at t i) (deadline_at t j)

-- `pq[k].index = …` for the instance at `r`.
abbrev pub set_index : Ref → ℤ → List Instance → List Instance
set_index r k store = modify store r (λ x. record x { index = k })

-- `Swap`.
unfoldable pub swap : Timers → ℕ → ℕ → Timers
unfolding look
swap t i j =
    let ri = get_or t.queue i 0 in
    let rj = get_or t.queue j 0 in
    record (look t i j) {
      queue = set (set t.queue i rj) j ri;
      store = set_index ri (pos j) (set_index rj (pos i) t.store);
    }

-- `heap.up`. The fuel is above `j`, which falls in each round; `(j - 1) / 2` is 0 at 0, as in Go.
unfoldable pub up : ℕ → Timers → ℕ → Timers
up zero t j = t
up (suc fuel) t j =
    let i = (j - 1) / 2 in
    let seen = look t j i in
    let rest = up fuel (swap seen i j) i in
    if i == j then t else (if less t j i then rest else seen)

-- The child that `heap.down` compares with, below a bound.
unfoldable pub smaller_child : Timers → ℕ → ℕ → ℕ
smaller_child t i n = let j = 2 * i + 1 in if ltb (j + 1) n && less t (j + 1) j then j + 1 else j

-- What a round of `heap.down` compares: the two children where there are two, and the child chosen
-- with its parent.
unfoldable pub look_below : Timers → ℕ → ℕ → Timers
unfolding smaller_child
look_below t i n =
    let j = 2 * i + 1 in
    record t {
      stray =
          (ltb (j + 1) n && not (in_range t (j + 1) j))
          || (not (in_range t (smaller_child t i n) i) || t.stray);
    }

-- `heap.down`, with the place where it ends. The fuel is at least `n`, and the place grows.
unfoldable pub down : ℕ → Timers → ℕ → ℕ → Timers × ℕ
down zero t i n = (t, i)
down (suc fuel) t i n =
    let j = smaller_child t i n in
    let seen = look_below t i n in
    let rest = down fuel (swap seen i j) j n in
    if leb n (2 * i + 1) then (t, i) else (if less t j i then rest else (seen, i))

-- `queue.Push` and `heap.Push`.
unfoldable pub enqueue : Timers → Ref → Timers
enqueue t r =
    let n = length t.queue in
    up (n + 1) (record t { store = set_index r (pos n) t.store; queue = t.queue ++ r ∷ [] }) n

-- `queue.Pop`: the last pointer is taken off the slice; there is none to read in an empty one.
unfoldable pub pop_last : Timers → Option Ref × Timers
pop_last t =
    let n = length t.queue in
    elim (get_elem? t.queue (n - 1)) [
      | none ↦ (none, record t { stray = true })
      | some r ↦
          (some r, record t { store = set_index r minus_one t.store; queue = take (n - 1) t.queue })
    ]

-- `heap.Pop`.
unfoldable pub dequeue : Timers → Option Ref × Timers
dequeue t = let n = length t.queue - 1 in pop_last (down (n + 1) (swap t 0 n) 0 n).0

-- `down`, and `up` where `down` moved nothing: the common part of `heap.Fix` and `heap.Remove`.
unfoldable pub settle : Timers → ℕ → ℕ → Timers
settle t i n =
    let (moved, last) = down (n + 1) t i n in if ltb i last then moved else up (i + 1) moved i

-- `heap.Remove`.
unfoldable pub heap_remove : Timers → ℕ → Timers
heap_remove t i =
    let n = length t.queue - 1 in (pop_last (if n == i then t else settle (swap t i n) i n)).1

abbrev pub index_of : Option Instance → ℤ
index_of none = minus_one
index_of (some i) = i.index

-- `queue.remove`: nothing happens to the instance at index 0, the head.
unfoldable pub remove : Timers → Ref → Timers
remove t r =
    let k = index_of (get_elem? t.store r) in
    if ltb_ℤ (pos 0) k
    then (let t' = heap_remove t (pos_part k) in
        record t' { store = set_index r minus_one t'.store })
    else t

-- `queue.update`: the same holds here.
unfoldable pub update : Timers → Ref → Timers
update t r =
    let k = index_of (get_elem? t.store r) in
    if ltb_ℤ (pos 0) k then settle t (pos_part k) (length t.queue) else t

-- `queue.peek`.
unfoldable pub peek : Timers → Option Ref
peek t = get_elem? t.queue 0
