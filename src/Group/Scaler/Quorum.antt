-- ===== src/Group/Scaler/Quorum.antt =====
-- Which instances a quorum destroys, and which it creates, in terms of the listing and its ids.
use Prim.Native.String.{String}
use mathlib.Core.List.{Memᴰ}
use text.Mathlib.TextEquality.{eq_iff}
use text.Mathlib.TextPositions.{eq_refl}
use deploykit.Base.{
  ◌≡◌, ◌≢◌, ◌↔◌, refl, sym, ap, ◌∙◌, some, true, false, List, [], ◌∷◌, ◌++◌, map, arith, Bool-cases,
  inl, inr, Option-cases,
}
use deploykit.Group.Text.{eqb_str}
use deploykit.Group.Types.{Description}
use deploykit.Group.Scaler.{
  destroy_job, create_job, has_logical_id, is_expected, is_unknown, unknown_instances, is_present,
  missing_ids, quorum_jobs,
}

is_expected-Memᴰ : (ids : List String) (l : String) → is_expected ids l ≡ true → Memᴰ l ids
unfolding is_expected
is_expected-Memᴰ [] l e = absurd (cc)
is_expected-Memᴰ (x ∷ ids) l e = elim (Bool-cases (eqb_str x l)) [
  | inl p ↦ Memᴰ.head (sym ((eq_iff x l).0 p))
  | inr p ↦ Memᴰ.tail (is_expected-Memᴰ ids l (ground arith))
]

Memᴰ-is_expected : (ids : List String) (l : String) → Memᴰ l ids → is_expected ids l ≡ true
unfolding is_expected
Memᴰ-is_expected [] l m = elim m [ ]
Memᴰ-is_expected (x ∷ ids) l m = elim m [
  | Memᴰ.head e ↦ rw (e, is_expected, eq_refl x) refl
  | Memᴰ.tail m' ↦ ground (arith, Memᴰ-is_expected ids l m')
]

has_logical_id-eq :
    (x : String) (d : Description) → has_logical_id x d ≡ true → d.logical_id ≡ some x
unfolding has_logical_id
has_logical_id-eq x d e = elim (Option-cases d.logical_id) [
  | inl p ↦ absurd (ground arith)
  | inr (l, p) ↦ p ∙ ap some (sym ((eq_iff x l).0 (ground arith)))
]

eq-has_logical_id :
    (x : String) (d : Description) → d.logical_id ≡ some x → has_logical_id x d ≡ true
unfolding has_logical_id
eq-has_logical_id x d e = rw (e, has_logical_id) (eq_refl x)

-- The instance has a logical id, and it is not one of the ids.
abbrev pub IsStray : List String → Description → Type 0
IsStray ids d = (l : String) × (d.logical_id ≡ some l) × (Memᴰ l ids → ⊥)

-- The id is one of the ids, and no instance of the listing has it.
abbrev pub IsVacant : List String → List Description → String → Type 0
IsVacant ids descriptions x =
    Memᴰ x ids × ((d : Description) → Memᴰ d descriptions → d.logical_id ≢ some x)

is_unknown_iff : (ids : List String) (d : Description) → (is_unknown ids d ≡ true) ↔ IsStray ids d
unfolding is_unknown
is_unknown_iff ids d = (
  λ e. elim (Option-cases d.logical_id) [
    | inl p ↦ absurd (ground arith)
    | inr (l, p) ↦ (l, p, λ m. absurd (ground (arith, Memᴰ-is_expected ids l m)))
  ],
  λ (l, p, far). elim (Bool-cases (is_expected ids l)) [
    | inl q ↦ absurd (far (is_expected-Memᴰ ids l q))
    | inr q ↦ rw (p, is_unknown, q) refl
  ],
)

Memᴰ-unknown_instances :
    (ids : List String) (l : List Description) (d : Description)
    → Memᴰ d (unknown_instances ids l) ↔ (Memᴰ d l × (is_unknown ids d ≡ true))
unfolding unknown_instances
Memᴰ-unknown_instances ids [] d = (λ m. elim m [ ], λ (m, e). elim m [ ])
Memᴰ-unknown_instances ids (x ∷ l) d = elim (Bool-cases (is_unknown ids x)) [
  | inl p ↦
      rw (p, unknown_instances)
        (
          (λ m. elim m [
            | Memᴰ.head e ↦ (Memᴰ.head e, ap (is_unknown ids) e ∙ p)
            | Memᴰ.tail m' ↦ let (a, b) = (Memᴰ-unknown_instances ids l d).0 m' in (Memᴰ.tail a, b)
          ]),
          (λ (m, e). elim m [
            | Memᴰ.head e' ↦ Memᴰ.head e'
            | Memᴰ.tail m' ↦ Memᴰ.tail ((Memᴰ-unknown_instances ids l d).1 (m', e))
          ]),
        )
  | inr p ↦
      rw (p, unknown_instances)
        (
          (λ m. let (a, b) = (Memᴰ-unknown_instances ids l d).0 m in (Memᴰ.tail a, b)),
          (λ (m, e). elim m [
            | Memᴰ.head e' ↦ absurd (ground (arith, ap (is_unknown ids) e'))
            | Memᴰ.tail m' ↦ (Memᴰ-unknown_instances ids l d).1 (m', e)
          ]),
        )
]

is_present_sound :
    (l : List Description) (x : String)
    → is_present l x ≡ true
    → (d : Description) × Memᴰ d l × (d.logical_id ≡ some x)
unfolding is_present
is_present_sound [] x e = absurd (cc)
is_present_sound (d ∷ l) x e = elim (Bool-cases (has_logical_id x d)) [
  | inl p ↦ (d, Memᴰ.head refl, has_logical_id-eq x d p)
  | inr p ↦ let (d', m, q) = is_present_sound l x (ground arith) in (d', Memᴰ.tail m, q)
]

is_present_complete :
    (l : List Description) (x : String) (d : Description)
    → Memᴰ d l
    → d.logical_id ≡ some x
    → is_present l x ≡ true
unfolding is_present
is_present_complete [] x d m e = elim m [ ]
is_present_complete (y ∷ l) x d m e = elim m [
  | Memᴰ.head q ↦
      let here = eq-has_logical_id x y (ap (λ z. z.logical_id) (sym q) ∙ e) in ground arith
  | Memᴰ.tail m' ↦ ground (arith, is_present_complete l x d m' e)
]

Memᴰ-missing_ids :
    (l : List Description) (ids : List String) (x : String)
    → Memᴰ x (missing_ids l ids) ↔ (Memᴰ x ids × (is_present l x ≡ false))
unfolding missing_ids
Memᴰ-missing_ids l [] x = (λ m. elim m [ ], λ (m, e). elim m [ ])
Memᴰ-missing_ids l (y ∷ ids) x = elim (Bool-cases (is_present l y)) [
  | inr p ↦
      rw (p, missing_ids)
        (
          (λ m. elim m [
            | Memᴰ.head e ↦ (Memᴰ.head e, ap (is_present l) e ∙ p)
            | Memᴰ.tail m' ↦ let (a, b) = (Memᴰ-missing_ids l ids x).0 m' in (Memᴰ.tail a, b)
          ]),
          (λ (m, e). elim m [
            | Memᴰ.head e' ↦ Memᴰ.head e'
            | Memᴰ.tail m' ↦ Memᴰ.tail ((Memᴰ-missing_ids l ids x).1 (m', e))
          ]),
        )
  | inl p ↦
      rw (p, missing_ids)
        (
          (λ m. let (a, b) = (Memᴰ-missing_ids l ids x).0 m in (Memᴰ.tail a, b)),
          (λ (m, e). elim m [
            | Memᴰ.head e' ↦ absurd (ground (arith, ap (is_present l) e'))
            | Memᴰ.tail m' ↦ (Memᴰ-missing_ids l ids x).1 (m', e)
          ]),
        )
]

-- Where jobs of the two kinds stand in the list of both.
Memᴰ-destroys :
    (a : List Description) (b : List String) (d : Description)
    → Memᴰ (destroy_job d) (map destroy_job a ++ map (λ l. create_job (some l)) b) ↔ Memᴰ d a
Memᴰ-destroys [] [] d = (λ m. elim m [ ], λ m. elim m [ ])
Memᴰ-destroys [] (x ∷ b) d = (
  λ m. elim m [ Memᴰ.head e ↦ absurd (cc) | Memᴰ.tail m' ↦ (Memᴰ-destroys [] b d).0 m' ],
  λ m. elim m [ ],
)
Memᴰ-destroys (y ∷ a) b d = (
  λ m. elim m [
    | Memᴰ.head e ↦ Memᴰ.head (cc)
    | Memᴰ.tail m' ↦ Memᴰ.tail ((Memᴰ-destroys a b d).0 m')
  ],
  λ m. elim m [
    | Memᴰ.head e ↦ Memᴰ.head (ap destroy_job e)
    | Memᴰ.tail m' ↦ Memᴰ.tail ((Memᴰ-destroys a b d).1 m')
  ],
)

Memᴰ-creates :
    (a : List Description) (b : List String) (x : String)
    → Memᴰ (create_job (some x)) (map destroy_job a ++ map (λ l. create_job (some l)) b) ↔ Memᴰ x b
Memᴰ-creates [] [] x = (λ m. elim m [ ], λ m. elim m [ ])
Memᴰ-creates [] (y ∷ b) x = (
  λ m. elim m [
    | Memᴰ.head e ↦ Memᴰ.head (cc)
    | Memᴰ.tail m' ↦ Memᴰ.tail ((Memᴰ-creates [] b x).0 m')
  ],
  λ m. elim m [
    | Memᴰ.head e ↦ Memᴰ.head (ap (λ l. create_job (some l)) e)
    | Memᴰ.tail m' ↦ Memᴰ.tail ((Memᴰ-creates [] b x).1 m')
  ],
)
Memᴰ-creates (y ∷ a) b x = (
  λ m. elim m [ Memᴰ.head e ↦ absurd (cc) | Memᴰ.tail m' ↦ (Memᴰ-creates a b x).0 m' ],
  λ m. Memᴰ.tail ((Memᴰ-creates a b x).1 m),
)

-- A round of a quorum destroys an instance exactly where it is listed with a logical id that is
-- not one of the quorum's, and creates an instance of a logical id exactly where the id is one
-- of the quorum's and no instance that is listed has it.
pub quorum_jobs_iff :
    (ids : List String) (descriptions : List Description)
    → ((d : Description)
        → Memᴰ (destroy_job d) (quorum_jobs ids descriptions)
          ↔ (Memᴰ d descriptions × IsStray ids d))
      × ((x : String)
          → Memᴰ (create_job (some x)) (quorum_jobs ids descriptions) ↔ IsVacant ids descriptions x)
unfolding quorum_jobs
quorum_jobs_iff ids descriptions = (
  λ d. (
    λ m.
        let (a, b) = (Memᴰ-unknown_instances ids descriptions d).0 ((Memᴰ-destroys _ _ d).0 m) in
        (a, (is_unknown_iff ids d).0 b),
    λ (a, b).
        (Memᴰ-destroys _ _ d).1
          ((Memᴰ-unknown_instances ids descriptions d).1 (a, (is_unknown_iff ids d).1 b)),
  ),
  λ x. (
    λ m.
        let (a, b) = (Memᴰ-missing_ids descriptions ids x).0 ((Memᴰ-creates _ _ x).0 m) in
        (a, λ d l e. absurd (ground (arith, is_present_complete descriptions x d l e))),
    λ (a, far). (Memᴰ-creates _ _ x).1 ((Memᴰ-missing_ids descriptions ids x).1 (a, absent x far)),
  ),
)
  where
    absent :
        (x : String)
        → ((d : Description) → Memᴰ d descriptions → d.logical_id ≢ some x)
        → is_present descriptions x ≡ false
    absent x far = elim (Bool-cases (is_present descriptions x)) [
      | inl p ↦ let (d, m, e) = is_present_sound descriptions x p in absurd (far d m e)
      | inr p ↦ p
    ]
