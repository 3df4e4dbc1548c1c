-- ===== src/Fsm/Flap/Oscillation.antt =====
-- How the history of moves counts an oscillation.
use deploykit.Base.{
  ℕ, zero, suc, ◌+◌, ◌-◌, ◌/◌, ◌<◌, ◌≤◌, ◌≡◌, ◌≢◌, refl, sym, ap, ◌∙◌, Option, none, some, true,
  List, [], ◌∷◌, ◌++◌, length, if◌then◌else◌, take, drop, get_elem?, arith, length-append,
  drop-append_length, Bool-cases, inl, inr,
}
use deploykit.Base.Int.{ℤ, eqb_ℤ}
use deploykit.Fsm.Types.{Index}
use deploykit.Fsm.Flap.{
  History, equals, equal_items, last_two, record_move, count_from, ends_in, count,
}
use mathlib.Core.List.{append_assoc}

eqb_ℤ_refl : (a : ℤ) → eqb_ℤ a a ≡ true
unfolding eqb_ℤ
eqb_ℤ_refl a = ground arith

equal_items_refl : (l : List Index) → equal_items l l ≡ true
unfolding equal_items
equal_items_refl [] = refl
equal_items_refl (x ∷ l) = rw (eqb_ℤ_refl x) (equal_items_refl l)

equals_refl : (l : List Index) → equals l l ≡ true
unfolding equals
equals_refl l = ground (arith, equal_items_refl l)

-- On a history that does not have exactly one state, record slices within bounds, and leaves a
-- history that again does not have exactly one state.
pub record_move_total :
    (h : History) (a b : Index)
    → length h ≢ 1
    → (h' : History) × (record_move h a b ≡ some h') × (length h' ≢ 1)
unfolding record_move last_two
record_move_total [] a b n = (a ∷ b ∷ [], refl, omega arith)
record_move_total (x ∷ []) a b n = absurd (n refl)
record_move_total (x ∷ y ∷ h) a b n =
    elim (Bool-cases (equals (drop (length h) (x ∷ y ∷ h)) (b ∷ a ∷ []))) [
      | inl p ↦ ((x ∷ y ∷ h) ++ b ∷ [], ground arith, ground (arith, length-append h (b ∷ [])))
      | inr p ↦ ([], ground arith, omega arith)
    ]

-- `a, b, a, …`, n states long.
abbrev pub alternate : ℕ → Index → Index → History
alternate zero a b = []
alternate (suc n) a b = a ∷ alternate n b a

-- The moves a → b, b → a, … , n of them, recorded one after the other.
abbrev pub oscillate : ℕ → Index → Index → History → Option History
oscillate zero a b h = some h
oscillate (suc n) a b h = elim (record_move h a b) [ none ↦ none | some h' ↦ oscillate n b a h' ]

length-alternate : (n : ℕ) (a b : Index) → length (alternate n a b) ≡ n
length-alternate zero a b = refl
length-alternate (suc n) a b = ap suc (length-alternate n b a)

record_move_long :
    (h : History) (a b : Index)
    → 2 ≤ length h
    → record_move h a b
      ≡ some (if equals (drop (length h - 2) h) (b ∷ a ∷ []) then h ++ b ∷ [] else [])
unfolding record_move last_two
record_move_long [] a b n = absurd (omega arith)
record_move_long (x ∷ h) a b n = ground arith

-- One more move of the oscillation is appended.
record_move_back :
    (g : History) (c d : Index)
    → record_move (g ++ d ∷ c ∷ []) c d ≡ some ((g ++ d ∷ []) ++ c ∷ d ∷ [])
record_move_back g c d =
    let whole : length (g ++ d ∷ c ∷ []) ≡ length g + 2 = length-append g (d ∷ c ∷ []) in
    let last : drop (length (g ++ d ∷ c ∷ []) - 2) (g ++ d ∷ c ∷ []) ≡ d ∷ c ∷ [] =
      ap (λ k. drop k (g ++ d ∷ c ∷ [])) (omega arith) ∙ drop-append_length g (d ∷ c ∷ []) in
    record_move_long (g ++ d ∷ c ∷ []) c d (omega arith)
    ∙ rw (last, equals_refl (d ∷ c ∷ []))
        (ap some
          (append_assoc g (d ∷ c ∷ []) (d ∷ []) ∙ sym (append_assoc g (d ∷ []) (c ∷ d ∷ []))))

oscillate_from :
    (n : ℕ) (g : History) (c d : Index)
    → oscillate n c d (g ++ d ∷ c ∷ []) ≡ some (g ++ d ∷ c ∷ alternate n d c)
oscillate_from zero g c d = refl
oscillate_from (suc n) g c d =
    rw (record_move_back g c d, oscillate)
      (oscillate_from n (g ++ d ∷ []) d c ∙ ap some (append_assoc g (d ∷ []) _))

pub oscillate-alternate :
    (n : ℕ) (a b : Index) → oscillate (suc n) a b [] ≡ some (alternate (suc (suc n)) a b)
unfolding record_move
oscillate-alternate n a b = oscillate_from n [] b a

-- The state at a place of `alternate`.
abbrev pick : ℕ → Index → Index → Index
pick zero a b = a
pick (suc n) a b = pick n b a

drop-alternate :
    (j n : ℕ) (a b : Index)
    → j ≤ n
    → drop j (alternate n a b) ≡ alternate (n - j) (pick j a b) (pick j b a)
drop-alternate zero n a b h = ap (λ (k : ℕ). alternate k a b) (omega arith)
drop-alternate (suc j) zero a b h = elim h [ ]
drop-alternate (suc j) (suc n) a b h =
    drop-alternate j n b a (omega arith)
    ∙ ap (λ k. alternate k (pick j b a) (pick j a b)) (omega arith)

window :
    (j n : ℕ) (a b : Index)
    → j + 3 ≤ n
    → take 3 (drop j (alternate n a b)) ≡ alternate 3 (pick j a b) (pick j b a)
window j n a b h = ap (take 3) (
    drop-alternate j n a b (omega arith)
    ∙ ap (λ k. alternate k (pick j a b) (pick j b a))
        (let e : n - j ≡ suc (suc (suc (n - j - 3))) = omega arith in e))

count_from-alternate :
    (j n c : ℕ) (a b : Index)
    → j < n
    → count_from (alternate n a b) (alternate 3 (pick j a b) (pick j b a)) (suc j) c ≡ c + j / 2
unfolding count_from
count_from-alternate zero n c a b h = omega arith
count_from-alternate (suc zero) n c a b h = omega arith
count_from-alternate (suc (suc j)) n c a b h =
    rw (window j n a b (omega arith), equals_refl (alternate 3 (pick j a b) (pick j b a)))
      (count_from-alternate j n (c + 1) a b (omega arith) ∙ omega arith)

get_elem?-alternate :
    (j n : ℕ) (a b : Index) → j < n → get_elem? (alternate n a b) j ≡ some (pick j a b)
get_elem?-alternate j zero a b h = absurd (omega arith)
get_elem?-alternate zero (suc n) a b h = refl
get_elem?-alternate (suc j) (suc n) a b h = get_elem?-alternate j n b a (omega arith)

-- Whichever of the two states is last, `count` searches for it around the other.
search_last :
    (j : ℕ) (h : History) (a b : Index)
    → get_elem? h (length h - 1) ≡ some (pick j a b)
    → (if ends_in h b then b ∷ a ∷ b ∷ [] else a ∷ b ∷ a ∷ [])
      ≡ alternate 3 (pick j a b) (pick j b a)
unfolding ends_in eqb_ℤ
search_last zero h a b e = ground arith
search_last (suc zero) h a b e = ground arith
search_last (suc (suc j)) h a b e = search_last j h a b e

-- The n + 1 moves of an oscillation between two states, recorded from an empty history, leave
-- the n + 2 states visited, and count as (n + 1) / 2 flaps.
pub count-oscillate :
    (n : ℕ) (a b : Index)
    → (h : History) × (oscillate (suc n) a b [] ≡ some h)
      × (h ≡ alternate (n + 2) a b)
      × (count h a b ≡ (n + 1) / 2)
unfolding count
count-oscillate n a b = (
  h,
  oscillate-alternate n a b,
  ap (λ k. alternate k a b) {x = suc (suc n)} (omega arith),
  counted,
)
  where
    h : History
    h = alternate (suc (suc n)) a b

    counted : count h a b ≡ (n + 1) / 2
    counted =
        let long = length-alternate (suc (suc n)) a b in
        let place : length h - 1 ≡ suc n = omega arith in
        let last =
          ap (get_elem? h) place ∙ get_elem?-alternate (suc n) (suc (suc n)) a b (omega arith) in
        let found : count_from h (alternate 3 (pick (suc n) a b) (pick (suc n) b a)) (suc (suc n)) 0
            ≡ (n + 1) / 2 =
          count_from-alternate (suc n) (suc (suc n)) 0 a b (omega arith) ∙ omega arith in
        ground (arith, search_last (suc n) h a b last, found, length-alternate n a b)
