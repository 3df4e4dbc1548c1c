-- ===== src/Paths/Print.antt =====
-- PathFromString and String: reading back what was printed.
use Prim.Native.Char.{code}
use Prim.Native.String.{String, [], ◌∷◌, ◌++◌ as ◌<>◌}
use text.Mathlib.TextEquality.{eq_iff}
use text.Mathlib.TextLemmas.{nil-append, cons-append}
use mathlib.Core.List.{reverse_aux}
use deploykit.Base.{
  ◌≡◌, ◌≢◌, ◌⊎◌, refl, sym, ◌∙◌, ap, none, some, Bool, true, false, List, [], ◌∷◌, arith,
  ℕ_discrete, All, All-append_one, Bool-cases, inl, inr, drop,
}
use deploykit.Group.Text.{eqb_str}
use deploykit.Paths.{
  PathName, slash, split_slash, join_slash, clean_from, clean, is_open, path_from_string,
  path_string,
}
use deploykit.Paths.Clean.{IsClean, clean-IsClean, clean_of_IsClean}

abbrev pub NoSlash : String → Type 0
NoSlash [] = Unit
NoSlash (c ∷ s) = (code c ≢ code slash) × NoSlash s

split_slash-cons :
    (s : String)
    → (v : String) × (vs : List String) × (split_slash s ≡ v ∷ vs) × All NoSlash (v ∷ vs)
unfolding split_slash
split_slash-cons [] = ("", [], refl, (tt, tt))
split_slash-cons (c ∷ s) =
    let (v, vs, e, h) = split_slash-cons s in
    elim (ℕ_discrete (code c) (code slash)) [
      | yes p ↦ ("", split_slash s, ground arith, (tt, rw e h))
      | no np ↦ (c ∷ v, vs, ground arith, ((np, h.0), h.1))
    ]

split_slash-NoSlash : (s : String) → All NoSlash (split_slash s)
split_slash-NoSlash s = let (v, vs, e, h) = split_slash-cons s in rw e h

split_one : (v : String) → NoSlash v → split_slash v ≡ v ∷ []
unfolding split_slash
split_one [] h = refl
split_one (c ∷ v) h = ground (arith, split_one v h.1)

split_more :
    (v rest : String) → NoSlash v → split_slash (v <> (slash ∷ rest)) ≡ v ∷ split_slash rest
unfolding split_slash
split_more [] rest h = rw nil-append refl
split_more (c ∷ v) rest h = rw cons-append (ground (arith, split_more v rest h.1))

split_slash-join_slash :
    (v : String) (vs : List String)
    → All NoSlash (v ∷ vs)
    → split_slash (join_slash (v ∷ vs)) ≡ v ∷ vs
unfolding join_slash
split_slash-join_slash v [] h = split_one v h.0
split_slash-join_slash v (w ∷ vs) h =
    split_more v (join_slash (w ∷ vs)) h.0 ∙ ap (◌∷◌ v) (split_slash-join_slash w vs h.1)

-- Clean keeps a property of the components that it adds as well.
module _ (P : String → Type 0) (at_root : P "") (at_dot : P ".") (at_up : P "..") where
  All-drop_one : (xs : List String) → All P xs → All P (drop 1 xs)
  All-drop_one [] h = tt
  All-drop_one (x ∷ xs) h = h.1

  clean_from-All :
      (first : Bool) (stack vs : List String)
      → All P stack
      → All P vs
      → (clean_from first stack vs ≡ none)
        ⊎ ((out : List String) × (clean_from first stack vs ≡ some out) × All P out)
  unfolding clean_from
  clean_from-All first stack [] h k = inr (stack, refl, h)
  clean_from-All first stack (v ∷ vs) h k = ground (
    arith,
    clean_from-All false stack vs h k.1,
    clean_from-All false ("" ∷ stack) vs (at_root, h) k.1,
    clean_from-All false (".." ∷ stack) vs (at_up, h) k.1,
    clean_from-All false (v ∷ stack) vs (k.0, h) k.1,
    clean_from-All false (drop 1 stack) vs (All-drop_one stack h) k.1,
  )

  All-reverse_aux : (xs ys : List String) → All P xs → All P ys → All P (reverse_aux xs ys)
  All-reverse_aux [] ys h k = k
  All-reverse_aux (x ∷ xs) ys h k = All-reverse_aux xs (x ∷ ys) h.1 (h.0, k)

  clean-All : (p : PathName) → All P p → All P (clean p)
  unfolding clean
  clean-All p h = elim (clean_from-All true [] p tt h) [
    | inl e ↦ rw (clean, e) tt
    | inr ([], e, k) ↦ rw (clean, e) (at_dot, tt)
    | inr (v ∷ out, e, k) ↦
        let turned = All-reverse_aux (v ∷ out) [] k tt in
        elim (Bool-cases (is_open p)) [
          | inl q ↦ rw (clean, e, q) (All-append_one P _ "" turned at_root)
          | inr q ↦ rw (clean, e, q) turned
        ]
  ]

join_slash-ne-empty :
    (v : String) (vs : List String)
    → All NoSlash (v ∷ vs)
    → ◌≢◌ {A = PathName} (v ∷ vs) ("" ∷ [])
    → join_slash (v ∷ vs) ≢ ""
unfolding split_slash
join_slash-ne-empty v vs h n e = n (sym (split_slash-join_slash v vs h) ∙ ap split_slash e)

path_from_string-ne : (s : String) → s ≢ "" → path_from_string s ≡ clean (split_slash s)
unfolding path_from_string
path_from_string-ne s h = ground (arith, eq_iff s "")

path_string-cons : (v : String) (vs : List String) → path_string (v ∷ vs) ≡ join_slash (v ∷ vs)
unfolding path_string
path_string-cons v vs = ground arith

-- A path without a detour is read back as it is, unless it prints as nothing.
pub path_from_string-path_string :
    (p : PathName) → IsClean p → All NoSlash p → p ≢ "" ∷ [] → path_from_string (path_string p) ≡ p
path_from_string-path_string [] c h n = absurd (not_clean c)
  where
    not_clean : IsClean [] → ⊥
    not_clean (inl e) = cc
    not_clean (inr (v, vs, closed, a, b, e)) = cc
path_from_string-path_string (v ∷ vs) c h n = rw (path_string-cons v vs) (
    path_from_string-ne (join_slash (v ∷ vs)) (join_slash-ne-empty v vs h n)
    ∙ (ap clean (split_slash-join_slash v vs h) ∙ clean_of_IsClean (v ∷ vs) c))

read_cleaned :
    (s : String) → (parts : List String) × (path_from_string s ≡ clean parts) × All NoSlash parts
unfolding path_from_string
read_cleaned s = elim (Bool-cases (eqb_str s "")) [
  | inl p ↦ ([], rw (path_from_string, p) refl, tt)
  | inr p ↦ (split_slash s, rw (path_from_string, p) refl, split_slash-NoSlash s)
]

-- What PathFromString makes of a string is read back from what String prints of it, unless it is
-- NullPath or the path whose only component is empty.
pub path_from_string_reads :
    (s : String)
    → path_from_string s ≢ []
    → path_from_string s ≢ "" ∷ []
    → path_from_string (path_string (path_from_string s)) ≡ path_from_string s
path_from_string_reads s h k =
    let (parts, e, plain) = read_cleaned s in
    path_from_string-path_string (path_from_string s) (rw e (clean-IsClean parts (rw e at h)))
      (rw e (clean-All NoSlash tt dot_plain up_plain parts plain)) k
  where
    dot_plain : NoSlash "."
    dot_plain = ground arith

    up_plain : NoSlash ".."
    up_plain = ground arith
