-- ===== src/Fsm/Fifo/Refine.antt =====
-- The circular array holds a list: `push` appends to it and `pop` takes its first entry.
use deploykit.Base.{
  ℕ, suc, ◌+◌, ◌-◌, ◌%◌, ◌<◌, ◌≡◌, sym, ap, ap₂, ◌∙◌, Option, none, some, true, false, [], ◌∷◌,
  ◌++◌, length, ◌&&◌, ◌==◌, ltb, get_elem?, set, arith, get_or, tabulate, tabulate_ext,
  tabulate-suc, get_or-set_self, get_or-set_ne, get_elem?-eq-get_or, length-set, Bool-cases, inl,
  inr,
}
use native.Mathlib.Nat.{mod-eq_of_lt, mod-lt, mod-add-mod, add_assoc}
use deploykit.Fsm.Fifo.Grow.{entries, IsQueue, length-grow, get_or-grow, mod_once}
use deploykit.Fsm.Fifo.{Fifo, grow, store, push, pop}

mod_apart : (h c k n : ℕ) → h < n → k < c → c < n → (h + c) % n ≡ (h + k) % n → ⊥
mod_apart h c k n p q r e = ground (
  arith,
  mod_once (h + c) n (omega arith) (omega arith),
  mod_once (h + k) n (omega arith) (omega arith),
)

module _ {A : Type 0} where
  full_of_test :
      (q : Fifo A)
      → IsQueue q
      → (q.head == q.tail && ltb 0 q.count) ≡ true
      → q.count ≡ length q.nodes
  full_of_test q v h =
      ground (arith, mod_once (q.head + q.count) (length q.nodes) v.room (omega arith))

  room_of_test :
      (q : Fifo A)
      → IsQueue q
      → (q.head == q.tail && ltb 0 q.count) ≡ false
      → q.count < length q.nodes
  room_of_test q v h =
      ground (arith, mod_once (q.head + q.count) (length q.nodes) v.room (omega arith))

  grow-IsQueue : (q : Fifo A) → IsQueue q → q.count ≡ length q.nodes → IsQueue (grow q)
  grow-IsQueue q v full = record {
    can_grow = unfold grow in v.can_grow;
    room = omega (arith, length-grow q);
    head_in = unfold grow in omega (arith, length-grow q);
    fits = unfold grow in omega (arith, length-grow q);
    tail_at = unfold grow in sym (mod-eq_of_lt (omega (arith, length-grow q)) ∙ omega arith);
  }

  entries-grow : (q : Fifo A) → IsQueue q → q.count ≡ length q.nodes → entries (grow q) ≡ entries q
  unfolding grow
  entries-grow q v full = tabulate_ext q.count _ _ (λ k lt.
      ap (λ j. get_or (grow q).nodes j none) {x = (0 + k) % length (grow q).nodes}
        (mod-eq_of_lt (omega (arith, length-grow q)) ∙ omega arith)
      ∙ get_or-grow q k v (omega arith))

  abbrev pub Stored : Fifo A → Option A → Option (Fifo A) → Type 0
  Stored q n r = (q' : Fifo A) × (r ≡ some q') × IsQueue q' × (entries q' ≡ entries q ++ n ∷ [])

  store-Stored :
      (q : Fifo A) (n : Option A) → IsQueue q → q.count < length q.nodes → Stored q n (store q n)
  unfolding store
  store-Stored q n v h = (q', ground arith, valid, appended)
    where
      q' : Fifo A
      q' = record q {
        nodes = set q.nodes q.tail n;
        tail = (q.tail + 1) % length q.nodes;
        count = q.count + 1;
      }

      tail_lt : q.tail < length q.nodes
      tail_lt = omega (arith, mod-lt (q.head + q.count) v.room)

      same_length : length q'.nodes ≡ length q.nodes
      same_length = length-set q.nodes q.tail n

      next_tail : (q.tail + 1) % length q.nodes ≡ (q.head + (q.count + 1)) % length q.nodes
      next_tail =
          ap (λ t. (t + 1) % length q.nodes) v.tail_at
          ∙ (mod-add-mod (q.head + q.count) (length q.nodes) 1
              ∙ ap (λ t. t % length q.nodes) (add_assoc q.head q.count 1))

      valid : IsQueue q'
      valid = record {
        can_grow = v.can_grow;
        room = omega (arith, same_length);
        head_in = omega (arith, same_length);
        fits = omega (arith, same_length);
        tail_at = rw same_length next_tail;
      }

      slot : ℕ → Option A
      slot k = get_or q'.nodes ((q.head + k) % length q'.nodes) none

      old_slots :
          (k : ℕ) → k < q.count → slot k ≡ get_or q.nodes ((q.head + k) % length q.nodes) none
      old_slots k lt = rw same_length (
          get_or-set_ne q.nodes q.tail _ n none
            (λ e. mod_apart q.head q.count k (length q.nodes) v.head_in lt h (omega arith)))

      new_slot : slot q.count ≡ n
      new_slot = rw (same_length, ← v.tail_at) (get_or-set_self q.nodes q.tail n none tail_lt)

      appended : entries q' ≡ entries q ++ n ∷ []
      appended =
          ap (λ c. tabulate c slot) {x = q.count + 1} {y = suc q.count} (omega arith)
          ∙ (tabulate-suc q.count slot
              ∙ ap₂ (λ l x. l ++ x ∷ []) (tabulate_ext q.count _ _ old_slots) new_slot)

  -- `push` never fails on a queue that `newFifo` made with a positive size, and appends its node to
  -- the entries, also when the array is full and grows.
  pub push-Stored : (q : Fifo A) (n : Option A) → IsQueue q → Stored q n (push q n)
  unfolding push
  push-Stored q n v = elim (Bool-cases (q.head == q.tail && ltb 0 q.count)) [
    | inl p ↦
        let full = full_of_test q v p in
        let (q', e, v', same) =
          store-Stored (grow q) n (grow-IsQueue q v full)
            (unfold grow in omega (arith, length-grow q, v.can_grow)) in
        (q', rw (p, push) e, v', same ∙ ap (λ l. l ++ n ∷ []) (entries-grow q v full))
    | inr p ↦ rw (p, push) (store-Stored q n v (room_of_test q v p))
  ]

  pub pop-empty : (q : Fifo A) → q.count ≡ 0 → pop q ≡ some (none, q)
  unfolding pop
  pop-empty q e = ground arith

  abbrev pub Popped : Fifo A → Option (Option A × Fifo A) → Type 0
  Popped q r =
      (x : Option A) × (q' : Fifo A) × (r ≡ some (x, q'))
      × IsQueue q'
      × (entries q ≡ x ∷ entries q')

  pub pop-Popped : (q : Fifo A) → IsQueue q → 0 < q.count → Popped q (pop q)
  unfolding pop
  pop-Popped q v h = (first, q', taken, valid, split)
    where
      first : Option A
      first = get_or q.nodes q.head none

      q' : Fifo A
      q' = record q { head = (q.head + 1) % length q.nodes; count = q.count - 1 }

      found : get_elem? q.nodes q.head ≡ some first
      found = get_elem?-eq-get_or q.nodes q.head none v.head_in

      taken : pop q ≡ some (first, q')
      taken = ground (arith, found)

      next : (k : ℕ) → (q'.head + k) % length q.nodes ≡ (q.head + (k + 1)) % length q.nodes
      next k =
          mod-add-mod (q.head + 1) (length q.nodes) k
          ∙ ap (λ t. t % length q.nodes) {x = q.head + 1 + k} (omega arith)

      valid : IsQueue q'
      valid = record {
        can_grow = v.can_grow;
        room = v.room;
        head_in = mod-lt (q.head + 1) v.room;
        fits = omega arith;
        tail_at =
            v.tail_at
            ∙ (ap (λ t. (q.head + t) % length q.nodes) {y = q.count - 1 + 1} (omega arith)
                ∙ sym (next (q.count - 1)));
      }

      slot : ℕ → Option A
      slot k = get_or q.nodes ((q.head + k) % length q.nodes) none

      split : entries q ≡ first ∷ entries q'
      split =
          ap (λ c. tabulate c slot) {x = q.count} {y = suc (q.count - 1)} (omega arith)
          ∙ ap₂ ◌∷◌
              (ap (λ j. get_or q.nodes j none) {x = (q.head + 0) % length q.nodes}
                (mod-eq_of_lt (omega arith) ∙ omega arith))
              (tabulate_ext (q.count - 1) _ _ (λ k lt.
                ap (λ j. get_or q.nodes j none) {x = (q.head + suc k) % length q.nodes}
                  (ap (λ t. (q.head + t) % length q.nodes) {x = suc k} {y = k + 1} (omega arith)
                    ∙ sym (next k))))

  pub entries-empty : (q : Fifo A) → q.count ≡ 0 → entries q ≡ []
  entries-empty q e = rw e
