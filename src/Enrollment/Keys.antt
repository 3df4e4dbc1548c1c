-- ===== src/Enrollment/Keys.antt =====
-- Index, Select and Delta in terms of the keys that the two lists have.
use Prim.Native.String.{String}
use text.Mathlib.TextEquality.{eq_iff}
use text.Mathlib.TextPositions.{eq_refl}
use mathlib.Core.List.{Memᴰ}
use deploykit.Base.{
  ◌≡◌, ◌⊎◌, refl, sym, ◌∙◌, ap, Option, none, some, Bool, true, false, not, ◌&&◌, ◌||◌, List, [],
  ◌∷◌, ◌++◌, arith, is_some, Bool-cases, Option-cases, inl, inr,
}
use deploykit.Base.Dict.{Dict, lookup, insert, lookup-insert}
use deploykit.Group.Text.{eqb_str, string_dec, string_key}
use deploykit.Group.Types.{Description, sort_by, insert_by}
use deploykit.Enrollment.{
  contains, KeySets, IsLawful, KeyFunc, or_zero, by_id, Policies, DescriptionIndex, index_from,
  index, pick, select, delta,
}

abbrev pub any : (Description → Bool) → List Description → Bool
any p [] = false
any p (d ∷ list) = p d || any p list

abbrev pub is_key : Option String → String → Bool
is_key none k = false
is_key (some j) k = eqb_str j k

-- Whether some entry has the key.
abbrev pub has_key : KeyFunc → String → List Description → Bool
has_key key k = any λ d. is_key (key d) k

pub any-append :
    (p : Description → Bool) (xs ys : List Description) → any p (xs ++ ys) ≡ (any p xs || any p ys)
any-append p [] ys = refl
any-append p (x ∷ xs) ys = ground (arith, any-append p xs ys)

pub any_same :
    (p q : Description → Bool) (xs : List Description)
    → ((d : Description) → Memᴰ d xs → p d ≡ q d)
    → any p xs ≡ any q xs
any_same p q [] h = refl
any_same p q (x ∷ xs) h = rw (h x (Memᴰ.head refl), any_same p q xs (λ d m. h d (Memᴰ.tail m))) refl

pub any_none :
    (p : Description → Bool) (xs : List Description)
    → ((d : Description) → Memᴰ d xs → p d ≡ false)
    → any p xs ≡ false
any_none p [] h = refl
any_none p (x ∷ xs) h = rw (h x (Memᴰ.head refl)) (any_none p xs (λ d m. h d (Memᴰ.tail m)))

pub any_some :
    (p : Description → Bool) (xs : List Description)
    → any p xs ≡ true
    → (d : Description) × Memᴰ d xs × (p d ≡ true)
any_some p [] h = absurd (cc)
any_some p (x ∷ xs) h = elim (Bool-cases (p x)) [
  | inl e ↦ (x, Memᴰ.head refl, e)
  | inr e ↦ let (d, m, k) = any_some p xs (ground arith) in (d, Memᴰ.tail m, k)
]

any-insert_by :
    (p : Description → Bool) (less : Description → Description → Bool) (x : Description)
    (l : List Description)
    → any p (insert_by less x l) ≡ (p x || any p l)
unfolding insert_by
any-insert_by p less x [] = refl
any-insert_by p less x (y ∷ l) = ground (arith, any-insert_by p less x l)

pub any-sort_by :
    (p : Description → Bool) (less : Description → Description → Bool) (l : List Description)
    → any p (sort_by less l) ≡ any p l
unfolding sort_by
any-sort_by p less [] = refl
any-sort_by p less (x ∷ l) =
    any-insert_by p less x (sort_by less l) ∙ ap (◌||◌ (p x)) (any-sort_by p less l)

contains_nothing : (keys : List String) → ((k : String) → contains k keys ≡ false) → keys ≡ []
contains_nothing [] h = refl
contains_nothing (k ∷ keys) h = absurd (ground (arith, h k, eq_refl k))

abbrev pub any_key : (String → Bool) → List String → Bool
any_key p [] = false
any_key p (k ∷ keys) = p k || any_key p keys

pub any_key-eqb :
    (j : String) (keys : List String) → any_key (λ k. eqb_str k j) keys ≡ contains j keys
any_key-eqb j [] = refl
any_key-eqb j (k ∷ keys) = ap (◌||◌ (eqb_str k j)) (any_key-eqb j keys)

pub any_key_same :
    (p q : String → Bool) (keys : List String)
    → ((k : String) → contains k keys ≡ true → p k ≡ q k)
    → any_key p keys ≡ any_key q keys
any_key_same p q [] h = refl
any_key_same p q (k ∷ keys) h =
    rw (h k (ground (arith, eq_refl k)), any_key_same p q keys (λ j m. h j (ground arith))) refl

any_key_some :
    (p : String → Bool) (keys : List String)
    → any_key p keys ≡ true
    → (k : String) × (contains k keys ≡ true) × (p k ≡ true)
any_key_some p [] h = absurd (cc)
any_key_some p (k ∷ keys) h = elim (Bool-cases (p k)) [
  | inl e ↦ (k, ground (arith, eq_refl k), e)
  | inr e ↦ let (j, m, q) = any_key_some p keys (ground arith) in (j, ground arith, q)
]

any_key_of :
    (p : String → Bool) (k : String) (keys : List String)
    → contains k keys ≡ true
    → p k ≡ true
    → any_key p keys ≡ true
any_key_of p k [] h e = absurd (cc)
any_key_of p k (j ∷ keys) h e = elim (string_dec j k) [
  | yes same ↦ rw same (ground arith)
  | no other ↦ ground (arith, eq_iff j k, any_key_of p k keys)
]

module _ (S : KeySets) (law : IsLawful S) where
  contains-index_from :
      (key : KeyFunc) (i : DescriptionIndex S) (list : List Description) (k : String)
      → contains k (S.iter (index_from S key i list).keys)
        ≡ (contains k (S.iter i.keys) || has_key key k list)
  unfolding index_from
  contains-index_from key i [] k = ground arith
  contains-index_from key i (d ∷ list) k = elim (Option-cases (key d)) [
    | inl p ↦ rw (index_from, p) (contains-index_from key (record i { error = true }) list k)
    | inr (j, p) ↦
        rw (index_from, p)
          (contains-index_from key (record i { keys = S.add i.keys j; map = insert j d i.map }) list
              k
            ∙ ground (arith, law.contains-add i.keys j k))
  ]

  pub contains-index :
      (key : KeyFunc) (list : List Description) (k : String)
      → contains k (S.iter (index S key list).keys) ≡ has_key key k list
  unfolding index
  contains-index key list k = rw (contains-index_from key _ list k, law.iter-new) refl

  lookup-index_from :
      (key : KeyFunc) (i : DescriptionIndex S) (list : List Description) (k : String)
      {d : Description}
      → lookup k (index_from S key i list).map ≡ some d
      → (lookup k i.map ≡ some d) ⊎ (Memᴰ d list × (key d ≡ some k))
  unfolding index_from
  lookup-index_from key i [] k e = inl e
  lookup-index_from key i (d ∷ list) k {d = c} e = elim (Option-cases (key d)) [
    | inl p ↦
        elim (lookup-index_from key (record i { error = true }) list k {d = c}
          (rw (index_from, p) at e)) [ inl q ↦ inl q | inr (m, q) ↦ inr (Memᴰ.tail m, q) ]
    | inr (j, p) ↦
        elim (lookup-index_from key (record i { keys = S.add i.keys j; map = insert j d i.map })
          list k {d = c} (rw (index_from, p) at e)) [
            | inl q ↦ elim (string_dec j k) [
              | yes same ↦ inr (
                Memᴰ.head (ground (arith, lookup-insert j k d i.map)),
                ground (arith, lookup-insert j k d i.map),
              )
              | no other ↦ inl (ground (arith, lookup-insert j k d i.map))
            ]
            | inr (m, q) ↦ inr (Memᴰ.tail m, q)
          ]
  ]

  is_some-lookup :
      (key : KeyFunc) (i : DescriptionIndex S) (list : List Description) (k : String)
      → is_some (lookup k (index_from S key i list).map)
        ≡ (is_some (lookup k i.map) || has_key key k list)
  unfolding index_from
  is_some-lookup key i [] k = ground arith
  is_some-lookup key i (d ∷ list) k = elim (Option-cases (key d)) [
    | inl p ↦ rw (index_from, p) (is_some-lookup key (record i { error = true }) list k)
    | inr (j, p) ↦
        rw (index_from, p)
          (is_some-lookup key (record i { keys = S.add i.keys j; map = insert j d i.map }) list k
            ∙ on_insert j d i.map)
  ]
    where
      on_insert :
          (j : String) (d : Description) (m : Dict String Description)
          → (is_some (lookup k (insert j d m)) || has_key key k list)
            ≡ (is_some (lookup k m) || (eqb_str j k || has_key key k list))
      on_insert j d m = elim (string_dec j k) [
        | yes same ↦ ground (arith, lookup-insert j k d m, eq_iff j k)
        | no other ↦ ground (arith, lookup-insert j k d m, eq_iff j k)
      ]

  -- The entry that the index holds under a key.
  pub lookup-index :
      (key : KeyFunc) (list : List Description) (k : String)
      → has_key key k list ≡ true
      → (d : Description) × (lookup k (index S key list).map ≡ some d)
        × Memᴰ d list
        × (key d ≡ some k)
  unfolding index lookup
  lookup-index key list k h =
      let start : DescriptionIndex S = record { keys = S.new; map = []; error = false } in
      let there : is_some (lookup k (index_from S key start list).map) ≡ true =
        is_some-lookup key start list k ∙ h in
      elim (Option-cases (lookup k (index_from S key start list).map)) [
        | inl p ↦ absurd (ground arith)
        | inr (d, p) ↦ elim (lookup-index_from key start list k {d = d} p) [
          | inl q ↦ absurd (cc)
          | inr (m, q) ↦ (d, p, m, q)
        ]
      ]

  any-pick :
      (p : Description → Bool) (m : Dict String Description) (keys : List String)
      → any p (pick S m keys) ≡ any_key (λ k. p (or_zero (lookup k m))) keys
  unfolding pick
  any-pick p m [] = refl
  any-pick p m (k ∷ keys) = ap (◌||◌ (p (or_zero (lookup k m)))) (any-pick p m keys)

  pub any-select :
      (p : Description → Bool) (i : DescriptionIndex S) (keys : S.Keys)
      → any p (select S i keys) ≡ any_key (λ k. p (or_zero (lookup k i.map))) (S.iter keys)
  unfolding select
  any-select p i keys =
      any-sort_by p by_id (pick S i.map (S.iter keys)) ∙ any-pick p i.map (S.iter keys)

  -- Which keys a difference of two indexes has.
  pub contains-difference :
      (f g : KeyFunc) (xs ys : List Description) (k : String)
      → contains k (S.iter (S.difference (index S f xs).keys (index S g ys).keys))
        ≡ (has_key f k xs && not (has_key g k ys))
  contains-difference f g xs ys k =
      rw
        (
          law.contains-difference (index S f xs).keys (index S g ys).keys k,
          contains-index f xs k,
          contains-index g ys k,
        )
        refl

  select-nothing :
      (f g : KeyFunc) (xs ys : List Description)
      → ((k : String) → has_key f k xs ≡ has_key g k ys)
      → select S (index S f xs) (S.difference (index S f xs).keys (index S g ys).keys) ≡ []
  unfolding select pick sort_by
  select-nothing f g xs ys h =
      rw
        (
          select,
          contains_nothing (S.iter (S.difference (index S f xs).keys (index S g ys).keys))
              (λ k. ground (arith, contains-difference f g xs ys k, h k)),
        )
        refl

  -- Two lists with the same keys need no change.
  pub delta_same :
      (f g : KeyFunc) (xs ys : List Description) (p : Policies)
      → ((k : String) → has_key f k xs ≡ has_key g k ys)
      → delta S xs f ys g p ≡ ([], [])
  unfolding delta
  delta_same f g xs ys p h =
      ground (arith, select-nothing f g xs ys h, select-nothing g f ys xs (λ k. sym (h k)))

  -- What Select returns of a difference: entries of the list whose keys the other one lacks, and one
  -- for each such key.
  abbrev pub lacking : KeyFunc → List Description → KeyFunc → List Description → List Description
  lacking f xs g ys = select S (index S f xs) (S.difference (index S f xs).keys (index S g ys).keys)

  pub lacking_sound :
      (p : Description → Bool) (f g : KeyFunc) (xs ys : List Description)
      → any p (lacking f xs g ys) ≡ true
      → (d : Description) × (k : String) × Memᴰ d xs
        × (f d ≡ some k)
        × (has_key g k ys ≡ false)
        × (p d ≡ true)
  lacking_sound p f g xs ys h =
      let (k, m, e) =
        any_key_some (λ k. p (or_zero (lookup k (index S f xs).map)))
          (S.iter (S.difference (index S f xs).keys (index S g ys).keys))
          (sym (any-select p (index S f xs) _) ∙ h) in
      let here = contains-difference f g xs ys k in
      let (d, found, mem, key) = lookup-index f xs k (ground arith) in
      (d, k, mem, key, ground arith, ground arith)

  pub lacking_of :
      (f g : KeyFunc) (xs ys : List Description) (k : String)
      → has_key f k xs ≡ true
      → has_key g k ys ≡ false
      → (d : Description) × Memᴰ d xs
        × (f d ≡ some k)
        × ((p : Description → Bool) → p d ≡ true → any p (lacking f xs g ys) ≡ true)
  lacking_of f g xs ys k a b =
      let (d, found, mem, key) = lookup-index f xs k a in
      (
        d,
        mem,
        key,
        λ p e.
            any-select p (index S f xs) _
            ∙ any_key_of _ k _ (contains-difference f g xs ys k ∙ ground arith) (ground arith),
      )

  -- The keys of the difference, for a list that is indexed by its ids.
  pub lacking_ids :
      (g : KeyFunc) (xs ys : List Description) (k : String)
      → any (λ d. eqb_str d.id k) (lacking (λ d. some d.id) xs g ys)
        ≡ (has_key (λ d. some d.id) k xs && not (has_key g k ys))
  lacking_ids g xs ys k =
      any-select (λ d. eqb_str d.id k) (index S (λ d. some d.id) xs) _
      ∙ (any_key_same _ (λ j. eqb_str j k) _ own
          ∙ (any_key-eqb k _ ∙ contains-difference (λ d. some d.id) g xs ys k))
    where
      own :
          (j : String)
          → contains j
              (S.iter (S.difference (index S (λ d. some d.id) xs).keys (index S g ys).keys))
            ≡ true
          → eqb_str (or_zero (lookup j (index S (λ d. some d.id) xs).map)).id k ≡ eqb_str j k
      own j m =
          let here = contains-difference (λ d. some d.id) g xs ys j in
          let (d, found, mem, key) = lookup-index (λ d. some d.id) xs j (ground arith) in
          ground arith
