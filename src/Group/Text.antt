-- ===== src/Group/Text.antt =====
-- Go strings: their equality and the order of their bytes.
use Prim.Native.String.{String, [], ◌∷◌, compare}
use Prim.Native.String.compare.{nil-cons, cons-nil, cons-cons}
use Prim.Native.Char.{Char, code}
use Prim.Native.Nat.{Ordering}
use text.Mathlib.Text.{◌==◌}
use text.Mathlib.TextEquality.{eq_iff, Char-path}
use deploykit.Base.{◌≡◌, refl, Bool, true, false, arith, ap₂, ltb, if◌then◌else◌, ◌==◌ as ◌==ℕ◌}
use deploykit.Base.Dict.{Key}

abbrev pub eqb_str : String → String → Bool
eqb_str s t = s == t

unfoldable pub string_dec : Discrete String
string_dec s t = decided (s == t) refl
  where
    decided : (b : Bool) → (s == t) ≡ b → Dec (s ≡ t)
    decided true e = yes ((eq_iff s t).0 e)
    decided false e = no (λ p. absurd (cc ((eq_iff s t).1 p)))

instance abbrev pub string_key : Key String
string_key = record { dec_eq = string_dec }

-- `s < t`.
unfoldable pub lt_str : String → String → Bool
lt_str s t = elim (compare s t) [ Ordering.lt ↦ true | _ ↦ false ]

lt_cons :
    (c d : Char) (s t : String)
    → lt_str (c ∷ s) (d ∷ t)
      ≡ (if ltb (code c) (code d) then true else (if code c ==ℕ code d then lt_str s t else false))
unfolding lt_str
lt_cons c d s t = rw (lt_str, cons-cons c d s t) (ground arith)

lt_empty : (d : Char) (t : String) → lt_str [] (d ∷ t) ≡ true
unfolding lt_str
lt_empty d t = rw (lt_str, nil-cons d t) refl

not_lt_empty : (c : Char) (s : String) → lt_str (c ∷ s) [] ≡ false
unfolding lt_str
not_lt_empty c s = rw (lt_str, cons-nil c s) refl

lt_irrefl_empty : lt_str [] [] ≡ false
unfolding lt_str
lt_irrefl_empty = refl

-- The order is asymmetric, total on different strings, and what is below one is below the other, or
-- above it.
pub lt_str_asymm : (s t : String) → lt_str s t ≡ true → lt_str t s ≡ false
lt_str_asymm [] [] h = absurd (ground (arith, lt_irrefl_empty))
lt_str_asymm [] (d ∷ t) h = not_lt_empty d t
lt_str_asymm (c ∷ s) [] h = absurd (ground (arith, not_lt_empty c s))
lt_str_asymm (c ∷ s) (d ∷ t) h = ground (arith, lt_str_asymm s t, lt_cons c d s t, lt_cons d c t s)

pub lt_str_total : (s t : String) → lt_str s t ≡ false → lt_str t s ≡ false → s ≡ t
lt_str_total [] [] h k = refl
lt_str_total [] (d ∷ t) h k = absurd (ground (arith, lt_empty d t))
lt_str_total (c ∷ s) [] h k = absurd (ground (arith, lt_empty c s))
lt_str_total (c ∷ s) (d ∷ t) h k =
    ap₂ ◌∷◌ (Char-path c d (ground (arith, lt_cons c d s t, lt_cons d c t s))) (
      lt_str_total s t (ground (arith, lt_cons c d s t, lt_cons d c t s))
        (ground (arith, lt_cons c d s t, lt_cons d c t s)))

pub lt_str_cotrans : (z x y : String) → lt_str z y ≡ true → lt_str z x ≡ false → lt_str x y ≡ true
lt_str_cotrans [] [] y h k = h
lt_str_cotrans [] (b ∷ r) y h k = absurd (ground (arith, lt_empty b r))
lt_str_cotrans (c ∷ s) x [] h k = absurd (ground (arith, not_lt_empty c s))
lt_str_cotrans (c ∷ s) [] (d ∷ t) h k = lt_empty d t
lt_str_cotrans (c ∷ s) (b ∷ r) (d ∷ t) h k =
    ground (arith, lt_str_cotrans s r t, lt_cons c d s t, lt_cons c b s r, lt_cons b d r t)
