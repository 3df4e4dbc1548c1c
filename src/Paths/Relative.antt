-- ===== src/Paths/Relative.antt =====
-- Join, Rel and the order of paths.
use Prim.Native.String.{String}
use text.Mathlib.TextEquality.{eq_iff}
use text.Mathlib.TextPositions.{eq_refl}
use mathlib.Core.List.{reverse_aux, append-nil}
use deploykit.Base.{
  ◌≡◌, ◌≢◌, refl, sym, ◌∙◌, ap, some, Bool, true, false, List, [], ◌∷◌, ◌++◌, arith, All, inl, inr,
  length, take,
}
use deploykit.Group.Text.{string_dec}
use deploykit.Paths.{
  PathName, dot, clean, clean_from, last_or, is_open, strip, join, rel, equal, after,
  path_from_string, split_slash,
}
use deploykit.Paths.Clean.{
  IsName, IsHead, IsClean, ending, clean_of_IsClean, last_or-IsName, last_or-ending,
  clean_from-names, reverse_twice, reverse-cons_form,
}

take_init :
    (v x : String) (vs : List String) → take (length (vs ++ x ∷ [])) (v ∷ vs ++ x ∷ []) ≡ v ∷ vs
take_init v x [] = refl
take_init v x (w ∷ vs) = ap (◌∷◌ v) (take_init w x vs)

strip_closed : (v : String) (vs : List String) → strip (v ∷ vs ++ "" ∷ []) ≡ some (v ∷ vs)
strip_closed v vs = rw (last_or-ending v vs) (ap some (take_init v "" vs))

strip_named :
    (v w : String) (vs : List String) → All IsName (w ∷ vs) → strip (v ∷ w ∷ vs) ≡ some (v ∷ w ∷ vs)
strip_named v w vs h = ground (arith, last_or-IsName w vs h.0 h.1, eq_iff (last_or w vs) "")

strip_one : (v : String) → v ≢ "" → strip (v ∷ []) ≡ some (v ∷ [])
strip_one v h = ground (arith, eq_iff v "")

All-append : (xs ys : List String) → All IsName xs → All IsName ys → All IsName (xs ++ ys)
All-append [] ys h k = k
All-append (x ∷ xs) ys h k = (h.0, All-append xs ys h.1 k)

after-append : (p c : PathName) → after (p ++ c) p ≡ some c
unfolding after
after-append [] [] = refl
after-append [] (x ∷ c) = refl
after-append (v ∷ p) c = ground (arith, eq_refl v, after-append p c)

clean_names : (v : String) (vs : List String) → All IsName (v ∷ vs) → clean (v ∷ vs) ≡ v ∷ vs
clean_names v vs h =
    clean_of_IsClean (v ∷ vs) (inr (v, vs, false, inl h.0, h.1, ap (◌∷◌ v) (sym (append-nil vs))))

clean_below :
    (v : String) (vs c : PathName)
    → IsHead v
    → All IsName vs
    → All IsName c
    → clean ((v ∷ vs) ++ c) ≡ (v ∷ vs) ++ c
clean_below v vs c h k n =
    clean_of_IsClean (v ∷ vs ++ c)
      (inr (v, vs ++ c, false, h, All-append vs c k n, ap (◌∷◌ v) (sym (append-nil (vs ++ c)))))

clean_dot : (v : String) (vs : List String) → All IsName (v ∷ vs) → clean ("." ∷ v ∷ vs) ≡ v ∷ vs
unfolding clean clean_from
clean_dot v vs h =
    let kept : clean_from true [] ("." ∷ v ∷ vs) ≡ some (reverse_aux vs (v ∷ [])) =
      ap (clean_from false []) (sym (append-nil (v ∷ vs)))
      ∙ clean_from-names false [] (v ∷ vs) [] h in
    let (w, ws, form) = reverse-cons_form vs [] v in
    let back : reverse_aux (w ∷ ws) [] ≡ v ∷ vs = rw⁻¹ form (reverse_twice vs (v ∷ [])) in
    let shut : is_open ("." ∷ v ∷ vs) ≡ false =
      ground
        (arith, last_or-IsName v vs h.0 h.1, eq_iff (last_or v vs) "", eq_iff (last_or v vs) ".") in
    rw (clean, kept, form, back, shut) refl

head-ne-dot : (v : String) → IsHead v → v ≢ "."
head-ne-dot v (inl n) = n.1
head-ne-dot v (inr (inl e)) = λ p. absurd (cc)
head-ne-dot v (inr (inr e)) = λ p. absurd (cc ((eq_iff ".." ".").1 (sym e ∙ p)))

dot_string : path_from_string "." ≡ dot
unfolding path_from_string clean clean_from split_slash
dot_string = refl

not_dot : (v : String) (vs : List String) → IsHead v → equal (v ∷ vs) (path_from_string ".") ≡ false
unfolding equal
not_dot v vs h = rw dot_string (ground (arith, eq_iff v ".", head-ne-dot v h))

-- What is joined to a path is found again relative to it.
abbrev IsFound : PathName → PathName → Type 0
IsFound p c = (q : PathName) × (join p c ≡ some q) × (rel q p ≡ some c)

found_below :
    (p c pp q : PathName)
    → clean p ≡ p
    → strip p ≡ some pp
    → equal p (path_from_string ".") ≡ false
    → clean (pp ++ c) ≡ q
    → clean q ≡ q
    → after q pp ≡ some c
    → (join p c ≡ some q) × (rel q p ≡ some c)
unfolding join rel
found_below p c pp q a b n d e f = (rw (join, a, b, d) refl, rw (rel, n, a, b, e, f) refl)

open_parent :
    (v : String) (vs : List String) (closed : Bool) (c : PathName)
    → IsHead v
    → All IsName vs
    → All IsName c
    → (strip (v ∷ vs ++ ending closed) ≡ some (v ∷ vs))
    → IsFound (v ∷ vs ++ ending closed) c
open_parent v vs closed c h k n e =
    let whole = clean_of_IsClean (v ∷ vs ++ ending closed) (inr (v, vs, closed, h, k, refl)) in
    let below = clean_below v vs c h k n in
    let (joined, related) =
      found_below _ c (v ∷ vs) ((v ∷ vs) ++ c) whole e (not_dot v (vs ++ ending closed) h) below
        below (after-append (v ∷ vs) c) in
    ((v ∷ vs) ++ c, joined, related)

from_dot :
    (x : String) (xs : List String)
    → All IsName (x ∷ xs)
    → (join dot (x ∷ xs) ≡ some (x ∷ xs)) × (rel (x ∷ xs) dot ≡ some (x ∷ xs))
unfolding join rel equal
from_dot x xs n = (rw (join, clean_dot x xs n) refl, refl)

at_root : (x : String) (xs : List String) → All IsName (x ∷ xs) → IsFound ("" ∷ []) (x ∷ xs)
at_root x xs n =
    let named = clean_names x xs n in
    let whole = clean_of_IsClean ("" ∷ []) (inr ("", [], false, inr (inl refl), tt, refl)) in
    let (joined, related) =
      found_below ("" ∷ []) (x ∷ xs) [] (x ∷ xs) whole refl (not_dot "" [] (inr (inl refl))) named
        named (after-append [] (x ∷ xs)) in
    (x ∷ xs, joined, related)

-- Join to a clean path of a child that is a list of names yields a path without a panic, and Rel
-- finds that child in it again.
pub rel-join :
    (p c : PathName)
    → IsClean p
    → All IsName c
    → c ≢ []
    → (q : PathName) × (join p c ≡ some q) × (rel q p ≡ some c)
rel-join p [] k n h = absurd (h refl)
rel-join p (x ∷ xs) (inl e) n h =
    let (joined, related) = from_dot x xs n in rw e (x ∷ xs, joined, related)
rel-join p (x ∷ xs) (inr (v, vs, true, a, b, e)) n h =
    rw e (open_parent v vs true (x ∷ xs) a b n (strip_closed v vs))
rel-join p (x ∷ xs) (inr (v, w ∷ vs, false, a, b, e)) n h =
    rw e (open_parent v (w ∷ vs) false (x ∷ xs) a b n (rw (append-nil vs) (strip_named v w vs b)))
rel-join p (x ∷ xs) (inr (v, [], false, a, b, e)) n h = elim (string_dec v "") [
  | yes q ↦ rw (e, q) (at_root x xs n)
  | no nq ↦ rw e (open_parent v [] false (x ∷ xs) a tt n (strip_one v nq))
]
