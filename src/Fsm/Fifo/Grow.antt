-- ===== src/Fsm/Fifo/Grow.antt =====
-- The entries of the circular array, and the copy into a larger one.
use deploykit.Base.{
  ℕ, zero, suc, ◌+◌, ◌-◌, ◌%◌, ◌<◌, ◌≤◌, ◌≡◌, refl, sym, ap, ◌∙◌, Option, none, true, false, List,
  [], ◌∷◌, length, if◌then◌else◌, ltb, take, drop, replicate, arith, get_or, tabulate, get_or-drop,
  get_or-take, length-replicate, length-drop, length-take, Bool-cases, inl, inr,
}
use native.Mathlib.Nat.{mod-eq_of_lt, mod-eq-sub-mod}
use deploykit.Fsm.Fifo.{Fifo, copy_at, new_fifo, grow}

module _ {A : Type 0} where
  pub length-copy_at :
      (dst : List A) (off : ℕ) (src : List A) → length (copy_at dst off src) ≡ length dst
  unfolding copy_at
  length-copy_at [] off src = refl
  length-copy_at (d ∷ dst) (suc off) src = ap suc (length-copy_at dst off src)
  length-copy_at (d ∷ dst) zero [] = refl
  length-copy_at (d ∷ dst) zero (s ∷ src) = ap suc (length-copy_at dst zero src)

  -- What a copy wrote, and what it left.
  pub get_or-copy_at_in :
      (dst : List A) (off : ℕ) (src : List A) (i : ℕ) (z : A)
      → off ≤ i
      → i < off + length src
      → i < length dst
      → get_or (copy_at dst off src) i z ≡ get_or src (i - off) z
  unfolding copy_at
  get_or-copy_at_in [] off src i z h k l = absurd (omega arith)
  get_or-copy_at_in (d ∷ dst) (suc off) src zero z h k l = absurd (omega arith)
  get_or-copy_at_in (d ∷ dst) (suc off) src (suc i) z h k l =
      get_or-copy_at_in dst off src i z (omega arith) (omega arith) (omega arith)
      ∙ ap (λ j. get_or src j z) {x = i - off} (omega arith)
  get_or-copy_at_in (d ∷ dst) zero [] i z h k l = absurd (omega arith)
  get_or-copy_at_in (d ∷ dst) zero (s ∷ src) zero z h k l = refl
  get_or-copy_at_in (d ∷ dst) zero (s ∷ src) (suc i) z h k l =
      get_or-copy_at_in dst zero src i z (omega arith) (omega arith) (omega arith)
      ∙ ap (λ j. get_or (s ∷ src) j z) {x = suc (i - 0)} (omega arith)

  pub get_or-copy_at_out :
      (dst : List A) (off : ℕ) (src : List A) (i : ℕ) (z : A)
      → i < off
      → get_or (copy_at dst off src) i z ≡ get_or dst i z
  unfolding copy_at
  get_or-copy_at_out dst zero src i z h = absurd (omega arith)
  get_or-copy_at_out [] (suc off) src i z h = refl
  get_or-copy_at_out (d ∷ dst) (suc off) src zero z h = refl
  get_or-copy_at_out (d ∷ dst) (suc off) src (suc i) z h =
      get_or-copy_at_out dst off src i z (omega arith)

-- The remainder by the length of the array, for an index that wraps at most once.
pub mod_once : (x n : ℕ) → 0 < n → x < n + n → x % n ≡ (if ltb x n then x else x - n)
mod_once x n h k = elim (Bool-cases (ltb x n)) [
  | inl p ↦ rw p (mod-eq_of_lt (ground arith))
  | inr p ↦ rw p (mod-eq-sub-mod (ground arith) ∙ mod-eq_of_lt (omega arith))
]

abbrev no_node : (A : Type 0) → Option A
no_node A = none

module _ {A : Type 0} where
  -- The queue's entries, the oldest first.
  abbrev pub entries : Fifo A → List (Option A)
  entries q = tabulate q.count (λ k. get_or q.nodes ((q.head + k) % length q.nodes) none)

  pub record IsQueue (q : Fifo A) : Type 0 where
    pub can_grow : 0 < q.size
    pub room : 0 < length q.nodes
    pub head_in : q.head < length q.nodes
    pub fits : q.count ≤ length q.nodes
    pub tail_at : q.tail ≡ (q.head + q.count) % length q.nodes

  pub new_fifo-IsQueue : (size : ℕ) → 0 < size → IsQueue (new_fifo {A = A} size)
  unfolding new_fifo
  new_fifo-IsQueue size h =
      let long = length-replicate size (no_node A) in
      record {
        can_grow = h;
        room = omega arith;
        head_in = omega arith;
        fits = omega arith;
        tail_at = sym (mod-eq_of_lt (omega arith) ∙ omega arith);
      }

  -- Growing keeps the entries, and leaves room.
  pub length-grow : (q : Fifo A) → length (grow q).nodes ≡ length q.nodes + q.size
  unfolding grow
  length-grow q = simp (length-copy_at, length-replicate)

  pub get_or-grow :
      (q : Fifo A) (k : ℕ)
      → IsQueue q
      → k < length q.nodes
      → get_or (grow q).nodes k none ≡ get_or q.nodes ((q.head + k) % length q.nodes) none
  unfolding grow
  get_or-grow q k v h = elim (Bool-cases (ltb k (length q.nodes - q.head))) [
    | inl p ↦
        get_or-copy_at_out first (length q.nodes - q.head) (take q.head q.nodes) k none
          (ground arith)
        ∙ (get_or-copy_at_in blank 0 (drop q.head q.nodes) k none (omega arith)
              (omega (arith, length-drop q.head q.nodes, before p)) (omega (arith, long))
            ∙ (get_or-drop q.head (k - 0) q.nodes none
                ∙ ap (λ j. get_or q.nodes j none) {x = q.head + (k - 0)}
                    (omega arith ∙ sym (mod-eq_of_lt (omega (arith, before p))))))
    | inr p ↦
        get_or-copy_at_in first (length q.nodes - q.head) (take q.head q.nodes) k none
          (omega (arith, after p)) (omega (arith, length-take q.head q.nodes))
          (omega (arith, long, length-copy_at blank 0 (drop q.head q.nodes)))
        ∙ (get_or-take q.head (k - (length q.nodes - q.head)) q.nodes none (omega (arith, after p))
            ∙ ap (λ j. get_or q.nodes j none) {x = k - (length q.nodes - q.head)}
                (sym (
                  mod-eq-sub-mod (omega (arith, after p))
                  ∙ (mod-eq_of_lt (omega arith) ∙ omega (arith, after p)))))
  ]
    where
      blank : List (Option A)
      blank = replicate (length q.nodes + q.size) none

      first : List (Option A)
      first = copy_at blank 0 (drop q.head q.nodes)

      long : length blank ≡ length q.nodes + q.size
      long = length-replicate (length q.nodes + q.size) (no_node A)

      before : ltb k (length q.nodes - q.head) ≡ true → k < length q.nodes - q.head
      before p = ground arith

      after : ltb k (length q.nodes - q.head) ≡ false → length q.nodes - q.head ≤ k
      after p = ground arith
