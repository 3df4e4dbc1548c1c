-- ===== src/Fsm/Fifo.antt =====
-- pkg/fsm/fifo.go: a queue on a circular array that grows.
pub mod Grow
pub mod Refine
pub mod History
mod Tests
use deploykit.Base.{
  ℕ, zero, suc, ◌+◌, ◌-◌, ◌%◌, Option, none, some, List, [], ◌∷◌, length, ◌&&◌, if◌then◌else◌, ◌==◌,
  ltb, take, drop, get_elem?, set, replicate,
}

-- A node is an event or nil.
pub record Fifo (A : Type 0) : Type 0 where
  pub nodes : List (Option A)
  pub size : ℕ
  pub head : ℕ
  pub tail : ℕ
  pub count : ℕ

module _ {A : Type 0} where
  -- `copy(dst[offset:], src)`.
  unfoldable pub copy_at : List A → ℕ → List A → List A
  copy_at [] offset src = []
  copy_at (d ∷ dst) (suc offset) src = d ∷ copy_at dst offset src
  copy_at (d ∷ dst) zero [] = d ∷ dst
  copy_at (d ∷ dst) zero (s ∷ src) = s ∷ copy_at dst zero src

module _ {A : Type 0} where
  -- `newFifo`.
  unfoldable pub new_fifo : ℕ → Fifo A
  new_fifo size = record { nodes = replicate size none; size = size; head = 0; tail = 0; count = 0 }

  -- The first branch of `push`: a full array is copied into a larger one, its head first.
  unfoldable pub grow : Fifo A → Fifo A
  unfolding copy_at
  grow q =
      let len = length q.nodes in
      let nodes : List (Option A) = replicate (len + q.size) none in
      let nodes₁ = copy_at nodes 0 (drop q.head q.nodes) in
      let nodes₂ = copy_at nodes₁ (len - q.head) (take q.head q.nodes) in
      record q { head = 0; tail = len; nodes = nodes₂ }

  -- The rest of `push`; `none` is the panic of an index out of range or of a remainder by 0.
  unfoldable pub store : Fifo A → Option A → Option (Fifo A)
  store q n =
      if ltb q.tail (length q.nodes)
      then some (record q {
        nodes = set q.nodes q.tail n;
        tail = (q.tail + 1) % length q.nodes;
        count = q.count + 1;
      })
      else none

  unfoldable pub push : Fifo A → Option A → Option (Fifo A)
  unfolding grow store
  push q n = store (if q.head == q.tail && ltb 0 q.count then grow q else q) n

  -- `pop`: the node, nil where the queue is empty, and the queue that is left.
  unfoldable pub pop : Fifo A → Option (Option A × Fifo A)
  pop q = if q.count == 0 then some (none, q) else elim (get_elem? q.nodes q.head) [
    | none ↦ none
    | some node ↦
        some (node, record q { head = (q.head + 1) % length q.nodes; count = q.count - 1 })
  ]
