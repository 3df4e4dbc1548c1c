-- ===== src/Group/Scaler/Convergence.antt =====
-- Where the jobs of a round lead: the next round has nothing to do.
use Prim.Native.String.{String}
use text.Mathlib.TextEquality.{eq_iff}
use text.Mathlib.TextPositions.{eq_refl}
use deploykit.Base.{
  ℕ, zero, suc, ◌+◌, ◌-◌, ◌≡◌, refl, sym, ap, ap₂, subst, ◌∙◌, ◌⊎◌, Option, none, some, Bool, true,
  false, List, [], ◌∷◌, ◌++◌, map, ◌||◌, not, take, replicate, length, if◌then◌else◌, ltb, ◌==◌,
  arith, Bool-cases, inl, inr, All, length-take,
}
use deploykit.Group.Text.{eqb_str}
use deploykit.Group.Types.{Description, less_by_id, insert_by, sort_by}
use deploykit.Group.Scaler.{
  Job, destroy_job, create_job, scaler_jobs, has_logical_id, is_expected, is_unknown,
  unknown_instances, is_present, missing_ids, quorum_jobs,
}

-- The instances that a round of a quorum leaves.
abbrev kept : List String → List Description → List Description
kept ids [] = []
kept ids (d ∷ descriptions) =
    let rest = kept ids descriptions in if is_unknown ids d then rest else d ∷ rest

is_present-append :
    (l m : List Description) (x : String)
    → is_present (l ++ m) x ≡ (is_present l x || is_present m x)
unfolding is_present
is_present-append [] m x = refl
is_present-append (d ∷ l) m x = ground (arith, is_present-append l m x)

unknown_instances-append :
    (ids : List String) (l m : List Description)
    → unknown_instances ids (l ++ m) ≡ unknown_instances ids l ++ unknown_instances ids m
unfolding unknown_instances
unknown_instances-append ids [] m = refl
unknown_instances-append ids (d ∷ l) m = ground (arith, unknown_instances-append ids l m)

unknown_instances-kept :
    (ids : List String) (l : List Description) → unknown_instances ids (kept ids l) ≡ []
unfolding unknown_instances
unknown_instances-kept ids [] = refl
unknown_instances-kept ids (d ∷ l) = ground (arith, unknown_instances-kept ids l)

is_unknown-has_logical_id :
    (ids : List String) (d : Description) (x : String)
    → is_expected ids x ≡ true
    → has_logical_id x d ≡ true
    → is_unknown ids d ≡ false
unfolding is_unknown has_logical_id
is_unknown-has_logical_id ids d x h q = go d.logical_id q
  where
    go :
        (o : Option String)
        → elim o [ none ↦ false | some l ↦ eqb_str x l ] ≡ true
        → elim o [ none ↦ false | some l ↦ not (is_expected ids l) ] ≡ false
    go none q = refl
    go (some l) q = ap not (ap (is_expected ids) (sym ((eq_iff x l).0 q)) ∙ h)

-- An expected id that is present is still present.
is_present-kept :
    (ids : List String) (l : List Description) (x : String)
    → is_expected ids x ≡ true
    → is_present l x ≡ true
    → is_present (kept ids l) x ≡ true
unfolding is_present
is_present-kept ids [] x h q = q
is_present-kept ids (d ∷ l) x h q = elim (Bool-cases (has_logical_id x d)) [
  | inl p ↦ ground (arith, is_unknown-has_logical_id ids d x)
  | inr p ↦ ground (arith, is_present-kept ids l x)
]

All-is_expected :
    (all ids : List String)
    → ((x : String) → is_expected ids x ≡ true → is_expected all x ≡ true)
    → All (λ x. is_expected all x ≡ true) ids
unfolding is_expected
All-is_expected all [] f = tt
All-is_expected all (x ∷ ids) f =
    (f x (ground (arith, eq_refl x)), All-is_expected all ids (λ y h. f y (ground arith)))

All-missing_ids :
    (P : String → Type 0) (descriptions : List Description) (ids : List String)
    → All P ids
    → All P (missing_ids descriptions ids)
unfolding missing_ids
All-missing_ids P descriptions [] h = tt
All-missing_ids P descriptions (x ∷ ids) h = elim (Bool-cases (is_present descriptions x)) [
  | inl p ↦ rw (p, missing_ids) (All-missing_ids P descriptions ids h.1)
  | inr p ↦ rw (p, missing_ids) (h.0, All-missing_ids P descriptions ids h.1)
]

abbrev logical : Description → Option String
logical d = d.logical_id

-- What was created has the ids that were asked for.
unknown_instances-created :
    (ids xs : List String) (created : List Description)
    → map logical created ≡ map some xs
    → All (λ x. is_expected ids x ≡ true) xs
    → unknown_instances ids created ≡ []
unfolding unknown_instances is_unknown
unknown_instances-created ids xs [] e h = refl
unknown_instances-created ids [] (d ∷ created) e h = absurd (cc)
unknown_instances-created ids (x ∷ xs) (d ∷ created) e h =
    let head : d.logical_id ≡ some x = cc in
    let rest = unknown_instances-created ids xs created (cc) h.1 in
    rw (head, unknown_instances, is_unknown, h.0) rest

present_created :
    (xs : List String) (created : List Description)
    → map logical created ≡ map some xs
    → All (λ x. is_present created x ≡ true) xs
unfolding is_present has_logical_id
present_created [] created e = tt
present_created (x ∷ xs) [] e = absurd (cc)
present_created (x ∷ xs) (d ∷ created) e =
    let head : d.logical_id ≡ some x = cc in
    (
      rw (head, is_present, has_logical_id) (ground (arith, eq_refl x)),
      weaken xs (present_created xs created (cc)),
    )
  where
    weaken :
        (ys : List String)
        → All (λ x. is_present created x ≡ true) ys
        → All (λ x. is_present (d ∷ created) x ≡ true) ys
    weaken [] h = tt
    weaken (y ∷ ys) h = (ground arith, weaken ys h.1)

present-All :
    (descriptions l : List Description) (ids sub : List String)
    → All (λ x. is_expected ids x ≡ true) sub
    → ((x : String)
        → is_expected ids x ≡ true
        → is_present descriptions x ≡ true
        → is_present l x ≡ true)
    → All (λ x. is_present l x ≡ true) (missing_ids descriptions sub)
    → missing_ids l sub ≡ []
unfolding missing_ids
present-All descriptions l ids [] h f k = refl
present-All descriptions l ids (x ∷ sub) h f k = elim (Bool-cases (is_present descriptions x)) [
  | inl p ↦
      let step : missing_ids descriptions (x ∷ sub) ≡ missing_ids descriptions sub = ground arith in
      rw (missing_ids, f x h.0 p)
        (present-All descriptions l ids sub h.1 f (subst (All (λ x. is_present l x ≡ true)) step k))
  | inr p ↦
      let step : missing_ids descriptions (x ∷ sub) ≡ x ∷ missing_ids descriptions sub =
        ground arith in
      let k' = subst (All (λ x. is_present l x ≡ true)) step k in
      rw (missing_ids, k'.0) (present-All descriptions l ids sub h.1 f k'.1)
]

-- What is present in the second part is present in the whole.
present_right :
    (l m : List Description) (xs : List String)
    → All (λ x. is_present m x ≡ true) xs
    → All (λ x. is_present (l ++ m) x ≡ true) xs
present_right l m [] h = tt
present_right l m (x ∷ xs) h = (ground (arith, is_present-append l m x), present_right l m xs h.1)

-- From a listing of a quorum without the instances whose logical id is not one of the quorum's,
-- and with new instances of the logical ids that the round asks for, the next round has nothing
-- to do.
quorum_jobs_converge :
    (ids : List String) (descriptions created : List Description)
    → map (λ d. d.logical_id) created ≡ map some (missing_ids descriptions ids)
    → quorum_jobs ids (kept ids descriptions ++ created) ≡ []
unfolding quorum_jobs
quorum_jobs_converge ids descriptions created e = rw (no_unknown, no_missing) refl
  where
    expected : All (λ x. is_expected ids x ≡ true) ids
    expected = All-is_expected ids ids (λ x h. h)

    no_unknown : unknown_instances ids (kept ids descriptions ++ created) ≡ []
    no_unknown =
        unknown_instances-append ids (kept ids descriptions) created
        ∙ ap₂ ◌++◌ (unknown_instances-kept ids descriptions) (
            unknown_instances-created ids (missing_ids descriptions ids) created e
              (All-missing_ids _ descriptions ids expected))

    no_missing : missing_ids (kept ids descriptions ++ created) ids ≡ []
    no_missing =
        present-All descriptions (kept ids descriptions ++ created) ids ids expected
          (λ x h q. ground (
            arith,
            is_present-append (kept ids descriptions) created x,
            is_present-kept ids descriptions x,
          ))
          (present_right (kept ids descriptions) created _
            (present_created (missing_ids descriptions ids) created e))

abbrev pub creates : List Job → ℕ
creates [] = 0
creates (destroy_job d ∷ jobs) = creates jobs
creates (create_job l ∷ jobs) = suc (creates jobs)

abbrev pub destroys : List Job → ℕ
destroys [] = 0
destroys (destroy_job d ∷ jobs) = suc (destroys jobs)
destroys (create_job l ∷ jobs) = destroys jobs

count-map :
    (l : List Description)
    → (destroys (map destroy_job l) ≡ length l) × (creates (map destroy_job l) ≡ 0)
count-map [] = (refl, refl)
count-map (d ∷ l) = let (a, b) = count-map l in (ap suc a, b)

count-replicate :
    (n : ℕ)
    → (creates (replicate n (create_job none)) ≡ n) × (destroys (replicate n (create_job none)) ≡ 0)
count-replicate zero = (refl, refl)
count-replicate (suc n) = let (a, b) = count-replicate n in (ap suc a, b)

length-insert_by :
    (less : Description → Description → Bool) (x : Description) (l : List Description)
    → length (insert_by less x l) ≡ suc (length l)
unfolding insert_by
length-insert_by less x [] = refl
length-insert_by less x (y ∷ l) = ground (arith, length-insert_by less x l)

length-sort_by :
    (less : Description → Description → Bool) (l : List Description)
    → length (sort_by less l) ≡ length l
unfolding sort_by
length-sort_by less [] = refl
length-sort_by less (x ∷ l) =
    length-insert_by less x (sort_by less l) ∙ ap suc (length-sort_by less l)

-- The jobs of a scaling group create what is missing to its size and destroy what exceeds it,
-- and never do both.
pub scaler_jobs_balance :
    (l : List Description) (size : ℕ)
    → (length l + creates (scaler_jobs l size) ≡ size + destroys (scaler_jobs l size))
      × ((creates (scaler_jobs l size) ≡ 0) ⊎ (destroys (scaler_jobs l size) ≡ 0))
unfolding scaler_jobs
scaler_jobs_balance l size =
    let (a, b) = count-map (take (length l - size) (sort_by (less_by_id none) l)) in
    let (c, d) = count-replicate (size - length l) in
    let short = length-take (length l - size) (sort_by (less_by_id none) l) in
    let same = length-sort_by (less_by_id none) l in
    elim (Bool-cases (length l == size)) [
      | inl p ↦ rw (p, scaler_jobs) (ground arith, inl refl)
      | inr p ↦ elim (Bool-cases (ltb size (length l))) [
        | inl q ↦ rw (p, q, scaler_jobs) (ground arith, inl b)
        | inr q ↦ rw (p, q, scaler_jobs) (ground arith, inr d)
      ]
    ]
