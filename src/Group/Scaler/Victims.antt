-- ===== src/Group/Scaler/Victims.antt =====
-- Which instances a scaling group destroys: the choice does not depend on the order of the listing.
use mathlib.Core.List.{Permᴰ}
use deploykit.Base.{
  ℕ, suc, ◌≡◌, ◌≢◌, refl, sym, ap, subst, ◌∙◌, none, List, [], ◌∷◌, length, arith, Bool-cases, inl,
  inr, All,
}
use deploykit.Group.Text.{lt_str, lt_str_asymm, lt_str_total, lt_str_cotrans}
use deploykit.Group.Types.{Description, less_by_id, insert_by, sort_by}
use deploykit.Group.Scaler.{scaler_jobs}

-- No two instances have the same id.
abbrev pub Distinct : List Description → Type 0
Distinct [] = Unit
Distinct (x ∷ l) = All (λ y. x.id ≢ y.id) l × Distinct l

All-Permᴰ : (P : Description → Type 0) {l l' : List Description} → Permᴰ l l' → All P l → All P l'
All-Permᴰ P Permᴰ.nil h = tt
All-Permᴰ P (Permᴰ.cons e d) h = (subst P e h.0, All-Permᴰ P d h.1)
All-Permᴰ P (Permᴰ.swap e e') h = (subst P e' h.1.0, (subst P e h.0, h.1.1))
All-Permᴰ P (Permᴰ.trans d d') h = All-Permᴰ P d' (All-Permᴰ P d h)

Distinct-Permᴰ : {l l' : List Description} → Permᴰ l l' → Distinct l → Distinct l'
Distinct-Permᴰ Permᴰ.nil h = tt
Distinct-Permᴰ (Permᴰ.cons {l₂ = l₂} e d) h =
    (subst (λ x. All (λ y. x.id ≢ y.id) l₂) e (All-Permᴰ _ d h.0), Distinct-Permᴰ d h.1)
Distinct-Permᴰ (Permᴰ.swap {l = l} e e') h = (
  (
    λ p. h.0.0 (ap (λ x. x.id) e ∙ sym p ∙ sym (ap (λ x. x.id) e')),
    subst (λ x. All (λ y. x.id ≢ y.id) l) e' h.1.0,
  ),
  (subst (λ x. All (λ y. x.id ≢ y.id) l) e h.0.1, h.1.1),
)
Distinct-Permᴰ (Permᴰ.trans d d') h = Distinct-Permᴰ d' (Distinct-Permᴰ d h)

insert_by_comm :
    (x y : Description) (l : List Description)
    → x.id ≢ y.id
    → insert_by (less_by_id none) x (insert_by (less_by_id none) y l)
      ≡ insert_by (less_by_id none) y (insert_by (less_by_id none) x l)
unfolding insert_by less_by_id
insert_by_comm x y [] ne = elim (Bool-cases (lt_str y.id x.id)) [
  | inl p ↦ ground (arith, lt_str_asymm y.id x.id)
  | inr p ↦ ground (arith, lt_str_total x.id y.id)
]
insert_by_comm x y (z ∷ l) ne = ground (
  arith,
  insert_by_comm x y l,
  lt_str_asymm y.id x.id,
  lt_str_asymm x.id y.id,
  lt_str_total x.id y.id,
  lt_str_cotrans z.id x.id y.id,
  lt_str_cotrans z.id y.id x.id,
)

sort_by-Permᴰ :
    {l l' : List Description}
    → Permᴰ l l'
    → Distinct l
    → sort_by (less_by_id none) l ≡ sort_by (less_by_id none) l'
unfolding sort_by
sort_by-Permᴰ Permᴰ.nil h = refl
sort_by-Permᴰ (Permᴰ.cons {a = a} {l₂ = l₂} e d) h =
    ap (insert_by (less_by_id none) a) (sort_by-Permᴰ d h.1)
    ∙ ap (λ x. insert_by (less_by_id none) x (sort_by (less_by_id none) l₂)) e
sort_by-Permᴰ (Permᴰ.swap {a = a} {b = b} {a' = a'} {l = l} e e') h =
    insert_by_comm a b (sort_by (less_by_id none) l) h.0.0
    ∙ ap
        (λ x.
          insert_by (less_by_id none) x
            (insert_by (less_by_id none) a (sort_by (less_by_id none) l)))
        e'
    ∙ ap
        (λ x.
          insert_by (less_by_id none) a'
            (insert_by (less_by_id none) x (sort_by (less_by_id none) l)))
        e
sort_by-Permᴰ (Permᴰ.trans d d') h = sort_by-Permᴰ d h ∙ sort_by-Permᴰ d' (Distinct-Permᴰ d h)

length-Permᴰ : {l l' : List Description} → Permᴰ l l' → length l ≡ length l'
length-Permᴰ Permᴰ.nil = refl
length-Permᴰ (Permᴰ.cons e d) = ap suc (length-Permᴰ d)
length-Permᴰ (Permᴰ.swap e e') = refl
length-Permᴰ (Permᴰ.trans d d') = length-Permᴰ d ∙ length-Permᴰ d'

-- Two listings of the same instances, in any order, whose ids are all different, lead a scaling
-- group to the same jobs: the same instances are destroyed, in the same order, or as many are
-- created.
pub scaler_jobs-Permᴰ :
    (l l' : List Description) (size : ℕ)
    → Permᴰ l l'
    → Distinct l
    → scaler_jobs l size ≡ scaler_jobs l' size
unfolding scaler_jobs
scaler_jobs-Permᴰ l l' size d h = rw (length-Permᴰ d, sort_by-Permᴰ d h) refl
