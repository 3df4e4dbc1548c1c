-- ===== src/Paths/Clean.antt =====
-- Clean: the paths that it returns, and that it leaves as they are.
use Prim.Native.String.{String}
use text.Mathlib.TextEquality.{eq_iff}
use deploykit.Base.{
  ◌≡◌, ◌≢◌, ◌⊎◌, inl, inr, refl, sym, Option-cases, ◌∙◌, some, Bool, true, false, List, [], ◌∷◌,
  ◌++◌, arith, All, length-append, drop, if◌then◌else◌,
}
use deploykit.Paths.{PathName, dot, clean_from, last_or, is_open, clean}
use mathlib.Core.List.{reverse_aux, append-nil}
use deploykit.Group.Text.{string_dec}

-- A component that names something.
abbrev pub IsName : String → Type 0
IsName v = (v ≢ "") × (v ≢ ".") × (v ≢ "..")

-- What a path may start with: a name, the root, or one step up.
abbrev pub IsHead : String → Type 0
IsHead v = IsName v ⊎ (v ≡ "") ⊎ (v ≡ "..")

-- The separator at the end.
abbrev pub ending : Bool → List String
ending true = "" ∷ []
ending false = []

-- The paths without a detour: the dot, or a start and names, with or without a separator at the end.
abbrev pub IsClean : PathName → Type 0
IsClean p =
    (p ≡ dot)
    ⊎ ((v : String) × (vs : List String) × (closed : Bool) × IsHead v
        × All IsName vs
        × (p ≡ v ∷ vs ++ ending closed))

-- A stack of components, the last of which is the start.
abbrev Stacked : List String → Type 0
Stacked [] = Unit
Stacked (v ∷ []) = IsHead v
Stacked (v ∷ w ∷ stack) = IsName v × Stacked (w ∷ stack)

-- The stack is empty before the first component.
abbrev Begun : Bool → List String → Type 0
Begun true stack = stack ≡ []
Begun false stack = Unit

Stacked-push : (v : String) (stack : List String) → IsName v → Stacked stack → Stacked (v ∷ stack)
Stacked-push v [] n h = inl n
Stacked-push v (w ∷ stack) n h = (n, h)

Stacked-drop : (stack : List String) → Stacked stack → Stacked (drop 1 stack)
Stacked-drop [] h = tt
Stacked-drop (v ∷ []) h = tt
Stacked-drop (v ∷ w ∷ stack) h = h.1

kind_of : (v : String) → (v ≡ ".") ⊎ (v ≡ "") ⊎ (v ≡ "..") ⊎ IsName v
kind_of v = elim (string_dec v ".") [
  | yes p ↦ inl p
  | no np ↦ elim (string_dec v "") [
    | yes p ↦ inr (inl p)
    | no nq ↦ elim (string_dec v "..") [
      | yes p ↦ inr (inr (inl p))
      | no nr ↦ inr (inr (inr (nq, np, nr)))
    ]
  ]
]

clean_from_name :
    (first : Bool) (stack vs : List String) (v : String)
    → IsName v
    → clean_from first stack (v ∷ vs) ≡ clean_from false (v ∷ stack) vs
unfolding clean_from
clean_from_name first stack vs v h = ground (arith, eq_iff v "", eq_iff v ".", eq_iff v "..")

clean_from-Stacked :
    (first : Bool) (stack vs : List String) {out : List String}
    → Begun first stack
    → Stacked stack
    → clean_from first stack vs ≡ some out
    → Stacked out
unfolding clean_from
clean_from-Stacked first stack [] b h e = ground arith
clean_from-Stacked first stack (v ∷ vs) b h e = elim (kind_of v) [
  | inl p ↦ clean_from-Stacked false stack vs tt h (rw p at e)
  | inr (inl p) ↦
      on_empty first stack vs b h (λ st k. clean_from-Stacked false st vs tt k) (rw p at e)
  | inr (inr (inl p)) ↦ on_up stack vs h (λ st k. clean_from-Stacked false st vs tt k) (rw p at e)
  | inr (inr (inr n)) ↦
      clean_from-Stacked false (v ∷ stack) vs tt (Stacked-push v stack n h)
        (sym (clean_from_name first stack vs v n) ∙ e)
]
  where
    on_empty :
        (first : Bool) (stack vs : List String) {out : List String}
        → Begun first stack
        → Stacked stack
        → ((st : List String) → Stacked st → clean_from false st vs ≡ some out → Stacked out)
        → clean_from first stack ("" ∷ vs) ≡ some out
        → Stacked out
    on_empty true stack vs b h more e = more ("" ∷ stack) (rw b (inr (inl refl))) e
    on_empty false stack vs b h more e = more stack h e

    on_up :
        (stack vs : List String) {out : List String}
        → Stacked stack
        → ((st : List String) → Stacked st → clean_from false st vs ≡ some out → Stacked out)
        → clean_from first stack (".." ∷ vs) ≡ some out
        → Stacked out
    on_up [] vs h more e = more (".." ∷ []) (inr (inr refl)) e
    on_up (v ∷ []) vs h more e = absurd (cc)
    on_up (v ∷ w ∷ stack) vs h more e = more (w ∷ stack) h.1 (ground arith)

-- Turned around, a stack is a start and names.
reverse-Stacked :
    (v : String) (stack names : List String)
    → Stacked (v ∷ stack)
    → All IsName names
    → (w : String) × (ws : List String) × IsHead w
      × All IsName ws
      × (reverse_aux (v ∷ stack) names ≡ w ∷ ws)
reverse-Stacked v [] names h k = (v, names, h, k, refl)
reverse-Stacked v (w ∷ stack) names h k = reverse-Stacked w stack (v ∷ names) h.1 (h.0, k)

closing :
    (closed : Bool) (w : String) (ws : List String)
    → (if closed then (w ∷ ws) ++ "" ∷ [] else w ∷ ws) ≡ w ∷ ws ++ ending closed
closing true w ws = refl
closing false w ws = sym (append-nil _)

-- Clean returns NullPath or a path without a detour.
pub clean-IsClean : (p : PathName) → clean p ≢ [] → IsClean (clean p)
unfolding clean
clean-IsClean p h = elim (Option-cases (clean_from true [] p)) [
  | inl e ↦ absurd (h (rw (clean, e) refl))
  | inr ([], e) ↦ inl (rw (clean, e) refl)
  | inr (v ∷ stack, e) ↦
      let (w, ws, a, b, same) =
        reverse-Stacked v stack [] (clean_from-Stacked true [] p refl tt e) tt in
      inr (w, ws, is_open p, a, b, rw (clean, e, same) (closing (is_open p) w ws))
]

pub clean_from-names :
    (first : Bool) (stack names rest : List String)
    → All IsName names
    → clean_from false stack (names ++ rest) ≡ clean_from false (reverse_aux names stack) rest
clean_from-names first stack [] rest h = refl
clean_from-names first stack (v ∷ names) rest h =
    clean_from_name false stack (names ++ rest) v h.0
    ∙ clean_from-names first (v ∷ stack) names rest h.1

clean_from-head :
    (v : String) (vs : List String)
    → IsHead v
    → clean_from true [] (v ∷ vs) ≡ clean_from false (v ∷ []) vs
unfolding clean_from
clean_from-head v vs (inl n) = clean_from_name true [] vs v n
clean_from-head v vs (inr (inl e)) = rw e refl
clean_from-head v vs (inr (inr e)) = rw e refl

clean_from-ending :
    (closed : Bool) (stack : List String) → clean_from false stack (ending closed) ≡ some stack
unfolding clean_from
clean_from-ending true stack = refl
clean_from-ending false stack = refl

pub last_or-ending : (v : String) (vs : List String) → last_or v (vs ++ "" ∷ []) ≡ ""
last_or-ending v [] = refl
last_or-ending v (w ∷ vs) = last_or-ending w vs

pub last_or-IsName :
    (v : String) (vs : List String) → IsName v → All IsName vs → IsName (last_or v vs)
last_or-IsName v [] n h = n
last_or-IsName v (w ∷ vs) n h = last_or-IsName w vs h.0 h.1

is_open-ending :
    (closed : Bool) (v : String) (vs : List String)
    → IsHead v
    → All IsName vs
    → is_open (v ∷ vs ++ ending closed) ≡ closed
is_open-ending true v vs h k = rw (last_or-ending v vs) (ground (arith, length-append vs ("" ∷ [])))
is_open-ending false v [] h k = ground arith
is_open-ending false v (w ∷ vs) h k = rw (append-nil vs) (
    ground
      (arith, last_or-IsName w vs k.0 k.1, eq_iff (last_or w vs) "", eq_iff (last_or w vs) "."))

pub reverse_twice :
    (vs acc : List String) → reverse_aux (reverse_aux vs acc) [] ≡ reverse_aux acc vs
reverse_twice [] acc = refl
reverse_twice (v ∷ vs) acc = reverse_twice vs (v ∷ acc)

pub reverse-cons_form :
    (vs acc : List String) (v : String)
    → (w : String) × (ws : List String) × (reverse_aux vs (v ∷ acc) ≡ w ∷ ws)
reverse-cons_form [] acc v = (v, acc, refl)
reverse-cons_form (x ∷ vs) acc v = reverse-cons_form vs (v ∷ acc) x

-- Clean leaves a path without a detour as it is.
pub clean_of_IsClean : (p : PathName) → IsClean p → clean p ≡ p
unfolding clean clean_from
clean_of_IsClean p (inl e) = rw e refl
clean_of_IsClean p (inr (v, vs, closed, h, k, e)) =
    let kept : clean_from true [] p ≡ some (reverse_aux vs (v ∷ [])) = rw e (
      clean_from-head v (vs ++ ending closed) h
      ∙ clean_from-names false (v ∷ []) vs (ending closed) k
      ∙ clean_from-ending closed _) in
    let (w, ws, form) = reverse-cons_form vs [] v in
    let back : reverse_aux (w ∷ ws) [] ≡ v ∷ vs = rw⁻¹ form (reverse_twice vs (v ∷ [])) in
    let closes : is_open p ≡ closed = rw e (is_open-ending closed v vs h k) in
    rw (clean, kept, form, back, closes) (closing closed v vs ∙ sym e)

-- Clean changes nothing in what it returned, unless that is NullPath.
pub clean_idempotent : (p : PathName) → clean p ≢ [] → clean (clean p) ≡ clean p
clean_idempotent p h = clean_of_IsClean (clean p) (clean-IsClean p h)
