-- ===== src/Fsm/Flap.antt =====
-- pkg/fsm/flap.go: limits on the oscillation between two adjacent states.
pub mod Watch
pub mod Oscillation
mod Tests
use deploykit.Base.{
  ℕ, zero, suc, ◌+◌, ◌-◌, Option, none, some, Bool, true, false, List, [], ◌∷◌, ◌++◌, length, ◌&&◌,
  if◌then◌else◌, ◌==◌, ltb, take, drop, get_elem?,
}
use deploykit.Base.Int.{ltb_ℤ, eqb_ℤ}
use deploykit.Base.Dict.{Dict, lookup, insert, has}
use deploykit.Fsm.Types.{
  Index, Flap, unknown_state, Result, ok, ◌>>=◌, ◌>>◌, guard, index_key, pair_key,
}
use deploykit.Fsm.Spec.{Spec}

-- The key under which both directions of a pair are kept, the smaller index first.
unfoldable pub flap_key : Index → Index → Index × Index
flap_key a b = if ltb_ℤ b a then (b, a) else (a, b)

-- `Spec.flap`; `none` is nil.
unfoldable pub flap : Spec → Index → Index → Option Flap
unfolding flap_key
flap s a b = lookup (flap_key a b) s.flaps

-- The loop of `CheckFlapping`.
unfoldable pub collect_flaps :
    Spec → List Flap → Dict (Index × Index) Flap → Result (Dict (Index × Index) Flap)
collect_flaps s [] flaps = ok flaps
collect_flaps s (check ∷ checks) flaps = do
  guard (has check.first s.states) (unknown_state check.first)
  guard (has check.second s.states) (unknown_state check.second)
  collect_flaps s checks (insert (flap_key check.first check.second) check flaps)

-- `Spec.CheckFlapping`.
unfoldable pub check_flapping : Spec → List Flap → Result Spec
check_flapping s checks = do flaps ← collect_flaps s checks []; ok (record s { flaps = flaps })

-- `type flaps`, its `history` oldest first.
abbrev pub History : Type 0
History = List Index

unfoldable pub equal_items : List Index → List Index → Bool
equal_items (x ∷ i) (y ∷ j) = eqb_ℤ x y && equal_items i j
equal_items _ _ = true

unfoldable pub equals : List Index → List Index → Bool
unfolding equal_items
equals i j = length j == length i && equal_items i j

-- `history[len(history)-2:]`; `none` is the panic of a bound below 0.
unfoldable pub last_two : History → Option History
last_two h = if ltb (length h) 2 then none else some (drop (length h - 2) h)

-- `flaps.record`.
unfoldable pub record_move : History → Index → Index → Option History
record_move [] a b = some (a ∷ b ∷ [])
record_move (x ∷ h) a b = elim (last_two (x ∷ h)) [
  | none ↦ none
  | some last ↦ some (if equals last (b ∷ a ∷ []) then (x ∷ h) ++ b ∷ [] else [])
]

-- The loop of `flaps.count`, from the end of the history in steps of two.
unfoldable pub count_from : History → List Index → ℕ → ℕ → ℕ
count_from h search (suc (suc (suc i))) count =
    count_from h search (suc i) (if equals (take 3 (drop i h)) search then count + 1 else count)
count_from h search (suc (suc zero)) count = count
count_from h search (suc zero) count = count
count_from h search zero count = count

-- Whether the last state of the history is `b`.
unfoldable pub ends_in : History → Index → Bool
ends_in h b = elim (get_elem? h (length h - 1)) [ none ↦ false | some x ↦ eqb_ℤ x b ]

-- `flaps.count`.
unfoldable pub count : History → Index → Index → ℕ
count h a b =
    if ltb (length h) 2
    then 0
    else count_from h (if ends_in h b then b ∷ a ∷ b ∷ [] else a ∷ b ∷ a ∷ []) (length h) 0
