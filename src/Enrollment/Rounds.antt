-- ===== src/Enrollment/Rounds.antt =====
-- A round of synchronization over a plugin that does what it is asked to: the next round has
-- nothing to do.
use Prim.Native.String.{String}
use text.Mathlib.TextEquality.{eq_iff}
use text.Mathlib.TextPositions.{eq_refl}
use mathlib.Core.Bool.{true≢false}
use mathlib.Core.List.{Memᴰ, append_assoc, append-nil}
use deploykit.Base.{
  ◌≡◌, refl, sym, ◌∙◌, ap, subst, none, some, Bool, true, false, not, ◌&&◌, List, [], ◌∷◌, ◌++◌,
  arith, Bool-cases, Option-cases, inl, inr, if◌then◌else◌,
}
use deploykit.Base.Dict.{lookup, insert}
use deploykit.Group.Text.{eqb_str, string_dec, string_key}
use deploykit.Group.Types.{Description, InstanceSpec, Plugins, Context, termination, reply, give}
use deploykit.Enrollment.{KeySets, IsLawful, KeyFunc, Policies, delta}
use deploykit.Enrollment.Keys.{
  any, any_same, any-append, is_key, has_key, delta_same, lacking, lacking_sound, lacking_of,
  lacking_ids,
}
use deploykit.Enrollment.Sync.{
  source_id_tag, Enroller, source_key, enrolled_key, labels_of, instances, enroll_all, remove_all,
  carry_out, apply_delta, get_source_instances, get_enrolled_instances, sync,
}

-- The list without the instance of the id.
abbrev pub without : String → List Description → List Description
without id [] = []
without id (d ∷ list) = if eqb_str d.id id then without id list else d ∷ without id list

abbrev pub has_id : String → List Description → Bool
has_id id = any λ d. eqb_str d.id id

-- A plugin that lists every instance where no label is asked for, gives a new instance an id of its own
-- and the tags it is asked for, and destroys the instance of an id and no other.
pub record IsFaithful {W : Type 0} (P : Plugins W) (view : W → List Description) : Type 0 where
  pub lists : (q : Bool) (w : W) → P.describe_instances [] q w ≡ (reply (view w), w)
  pub provisions :
      (spec : InstanceSpec) (w : W)
      → (id : String) × (w' : W) × (P.provision spec w ≡ (reply id, w'))
        × (has_id id (view w) ≡ false)
        × (view w'
            ≡ view w ++ record { id = id; logical_id = spec.logical_id; tags = spec.tags } ∷ [])
  pub destroys :
      (id : String) (c : Context) (w : W)
      → (w' : W) × (P.destroy_instance id c w ≡ (reply tt, w')) × (view w' ≡ without id (view w))

abbrev without_all : List Description → List Description → List Description
without_all [] list = list
without_all (n ∷ remove) list = without_all remove (without n.id list)

eqb_str_comm : (s t : String) → eqb_str s t ≡ eqb_str t s
eqb_str_comm s t = elim (string_dec s t) [
  | yes e ↦ ground (arith, eq_iff s t, eq_iff t s)
  | no n ↦ ground (arith, eq_iff s t, eq_iff t s)
]

any-without :
    (p : Description → Bool) (id : String) (list : List Description)
    → any p (without id list) ≡ any (λ d. p d && not (eqb_str d.id id)) list
any-without p id [] = refl
any-without p id (d ∷ list) = ground (arith, any-without p id list)

any-without_all :
    (p : Description → Bool) (remove list : List Description)
    → any p (without_all remove list) ≡ any (λ d. p d && not (has_id d.id remove)) list
any-without_all p [] list = any_same p _ list (λ d m. ground arith)
any-without_all p (n ∷ remove) list =
    any-without_all p remove (without n.id list)
    ∙ (any-without (λ d. p d && not (has_id d.id remove)) n.id list
        ∙ any_same _ _ list (λ d m. ground (arith, eqb_str_comm d.id n.id)))

-- An enroller without labels and without templates: the key of a source is its id, that of an
-- enrollment the tag with the id of its source.
abbrev pub plain_enroller : String → Policies → Enroller
plain_enroller name policies = record {
  name = name;
  labels = none;
  source_template = none;
  enrollment_template = none;
  properties_template = none;
  policies = policies;
}

abbrev pub tag_of : KeyFunc
tag_of d = lookup source_id_tag d.tags

tag_of_labels :
    (name : String) (p : Policies) (n : Description)
    → lookup source_id_tag (labels_of (plain_enroller name p) n).0 ≡ some n.id
unfolding labels_of insert lookup string_dec
tag_of_labels name p n = refl

module _ {W : Type 0} (P : Plugins W) (view : W → List Description) (good : IsFaithful P view)
    (S : KeySets) where
  remove_all_lem :
      (remove : List Description) (w : W)
      → (w' : W) × (remove_all S P remove w ≡ (reply tt, w'))
        × (view w' ≡ without_all remove (view w))
  unfolding remove_all
  remove_all_lem [] w = (w, refl, refl)
  remove_all_lem (n ∷ remove) w =
      let (w₁, e, v) = good.destroys n.id termination w in
      let (w₂, f, u) = remove_all_lem remove w₁ in
      (w₂, rw (e, f) refl, u ∙ ap (without_all remove) v)

  -- What the loop over the additions makes.
  record Made (name : String) (p : Policies) (add : List Description) (w : W) : Type 0 where
    made : List Description
    after : W
    returns : enroll_all S P (plain_enroller name p) add w ≡ (reply (plain_enroller name p), after)
    appended : view after ≡ view w ++ made
    tagged : (k : String) → has_key tag_of k made ≡ has_id k add
    apart : (d : Description) → Memᴰ d made → has_id d.id (view w) ≡ false

  enroll_all-Made :
      (name : String) (p : Policies) (add : List Description) (w : W) → Made name p add w
  unfolding enroll_all labels_of
  enroll_all-Made name p [] w = record {
    made = [];
    after = w;
    returns = refl;
    appended = sym (append-nil (view w));
    tagged = λ k. refl;
    apart = λ d m. elim m [ ];
  }
  enroll_all-Made name p (n ∷ add) w =
      let l = plain_enroller name p in
      let (id, w₁, e, free, v) =
        good.provisions (record { tags = (labels_of l n).0; logical_id = none }) w in
      let rest = enroll_all-Made name p add w₁ in
      let m : Description = record { id = id; logical_id = none; tags = (labels_of l n).0 } in
      let grown : view rest.after ≡ view w ++ m ∷ rest.made =
        rest.appended ∙ (ap (λ xs. xs ++ rest.made) v ∙ append_assoc (view w) (m ∷ []) rest.made) in
      record {
        made = m ∷ rest.made;
        after = rest.after;
        returns = rw e rest.returns;
        appended = grown;
        tagged = λ k. ground (arith, rest.tagged k, tag_of_labels name p n);
        apart = λ d q. elim q [
          | Memᴰ.head same ↦
              subst (λ (c : Description). has_id c.id (view w) ≡ false) (sym same) free
          | Memᴰ.tail q' ↦
              ground (arith, rest.apart d q', any-append (λ c. eqb_str c.id d.id) (view w) (m ∷ []))
        ];
      }

-- Both policies let a round go on where keys cannot be told.
abbrev pub enable : Policies
enable = record { disable_destroy = false; disable_provision = false }

any_both :
    (p : Description → Bool) (c : Bool) (xs : List Description)
    → any (λ d. p d && c) xs ≡ (any p xs && c)
any_both p c [] = refl
any_both p c (x ∷ xs) = ground (arith, any_both p c xs)

any_of :
    (p : Description → Bool) (xs : List Description) {d : Description}
    → Memᴰ d xs
    → p d ≡ true
    → any p xs ≡ true
any_of p [] m h = elim m [ ]
any_of p (x ∷ xs) {d} (Memᴰ.head e) h = rw (← e, h) refl
any_of p (x ∷ xs) {d} (Memᴰ.tail m) h = ground (arith, any_of p xs m h)

module _ (S : KeySets) (law : IsLawful S) (sources enrolled : List Description) where
  abbrev id_of : KeyFunc
  id_of d = some d.id

  abbrev added : List Description
  added = lacking S law id_of sources tag_of enrolled

  abbrev removed : List Description
  removed = lacking S law tag_of enrolled id_of sources

  delta-enable : delta S sources id_of enrolled tag_of enable ≡ (added, removed)
  unfolding delta
  delta-enable = ground arith

  removed-has_id : (x : String) → has_id x removed ≡ true → has_id x enrolled ≡ true
  removed-has_id x h =
      let (d, k, m, a, b, e) =
        lacking_sound S law (λ d. eqb_str d.id x) tag_of id_of enrolled sources h in
      any_of (λ d. eqb_str d.id x) enrolled m e

  module _
      (same_key : (d e : Description)
        → Memᴰ d enrolled
        → Memᴰ e enrolled
        → d.id ≡ e.id
        → tag_of d ≡ tag_of e)
      (same_id : (d e : Description) (k : String)
        → Memᴰ d enrolled
        → Memᴰ e enrolled
        → tag_of d ≡ some k
        → tag_of e ≡ some k
        → d.id ≡ e.id) where
    -- An enrolled instance is removed exactly where its source is gone.
    kept_iff :
        (d : Description) (k : String)
        → Memᴰ d enrolled
        → tag_of d ≡ some k
        → not (has_id d.id removed) ≡ has_id k sources
    kept_iff d k m e = elim (Bool-cases (has_id k sources)) [
      | inl p ↦ elim (Bool-cases (has_id d.id removed)) [
        | inl q ↦
            let (r, j, n, a, b, c) =
              lacking_sound S law (λ x. eqb_str x.id d.id) tag_of id_of enrolled sources q in
            let tags = same_key r d n m ((eq_iff r.id d.id).0 c) in absurd (ground arith)
        | inr q ↦ rw (p, q) refl
      ]
      | inr p ↦
          let there : has_key tag_of k enrolled ≡ true = any_of _ enrolled m (rw e (eq_refl k)) in
          let (r, n, a, all) = lacking_of S law tag_of id_of enrolled sources k there p in
          let same = same_id r d k n m a e in
          rw (p, all (λ x. eqb_str x.id d.id) ((eq_iff r.id d.id).1 same)) refl
    ]

    kept_keys :
        (k : String)
        → any (λ d. is_key (tag_of d) k && not (has_id d.id removed)) enrolled
          ≡ (has_key tag_of k enrolled && has_id k sources)
    kept_keys k =
        any_same _ (λ d. is_key (tag_of d) k && has_id k sources) enrolled
          (λ d m. elim (Option-cases (tag_of d)) [
            | inl p ↦ rw p refl
            | inr (j, p) ↦ elim (string_dec j k) [
              | yes same ↦ rw p (ap (◌&&◌ (eqb_str j k)) (kept_iff d k m (p ∙ ap some same)))
              | no other ↦ ground (arith, eq_iff j k)
            ]
          ])
        ∙ any_both _ (has_id k sources) enrolled

module _ {W : Type 0} (P : Plugins W) (view : W → List Description) (good : IsFaithful P view)
    (S : KeySets) (law : IsLawful S) where
  -- What a round does once it has the two listings.
  sync_listed :
      (name : String) (sources : List Description) (w : W)
      → sync S P (give tt) (instances sources) (plain_enroller name enable) w
        ≡ apply_delta S P (give tt) (plain_enroller name enable) sources (view w) w
  unfolding sync get_source_instances get_enrolled_instances
  sync_listed name sources w = rw (good.lists true w) refl

  apply_listed :
      (name : String) (sources add remove : List Description) (w w₁ w₂ : W)
      → delta S sources (λ d. some d.id) (view w) tag_of enable ≡ (add, remove)
      → enroll_all S P (plain_enroller name enable) add w ≡ (reply (plain_enroller name enable), w₁)
      → remove_all S P remove w₁ ≡ (reply tt, w₂)
      → apply_delta S P (give tt) (plain_enroller name enable) sources (view w) w
        ≡ (reply (plain_enroller name enable), w₂)
  unfolding apply_delta source_key enrolled_key carry_out
  apply_listed name sources add remove w w₁ w₂ a b c =
      ap (λ changes. carry_out S P (give tt) (plain_enroller name enable) changes w) a
      ∙ rw (b, c) refl

  -- Where the keys of the two lists are the same, a round changes nothing.
  sync_same :
      (name : String) (sources : List Description) (w : W)
      → ((k : String) → has_id k sources ≡ has_key tag_of k (view w))
      → sync S P (give tt) (instances sources) (plain_enroller name enable) w
        ≡ (reply (plain_enroller name enable), w)
  unfolding enroll_all remove_all source_key enrolled_key
  sync_same name sources w h =
      sync_listed name sources w
      ∙ apply_listed name sources [] [] w w w
          (delta_same S law (λ d. some d.id) tag_of sources (view w) enable h) refl refl

  -- With an instance plugin that lists, provisions and destroys what it is asked to, without
  -- labels and templates and with both policies enabling, where enrolled instances with one id
  -- have one tag and those with the tag of one source have one id: after a round of sync over a
  -- static list of sources the enrolled instances are tagged with exactly the ids of the
  -- sources, and a second round changes nothing.
  pub sync_settles :
      (name : String) (sources : List Description) (w : W)
      → ((d e : Description)
          → Memᴰ d (view w)
          → Memᴰ e (view w)
          → d.id ≡ e.id
          → tag_of d ≡ tag_of e)
      → ((d e : Description) (k : String)
          → Memᴰ d (view w)
          → Memᴰ e (view w)
          → tag_of d ≡ some k
          → tag_of e ≡ some k
          → d.id ≡ e.id)
      → let round = sync S P (give tt) (instances sources) (plain_enroller name enable) in
        (w' : W) × (round w ≡ (reply (plain_enroller name enable), w'))
        × ((k : String) → has_key tag_of k (view w') ≡ has_id k sources)
        × (round w' ≡ (reply (plain_enroller name enable), w'))
  unfolding source_key enrolled_key
  sync_settles name sources w one_key one_id =
      let enrolled = view w in
      let gone = removed S law sources enrolled in
      let m = enroll_all-Made P view good S name enable (added S law sources enrolled) w in
      let (w', e, v) = remove_all_lem P view good S gone m.after in
      let listed : view w' ≡ without_all gone (enrolled ++ m.made) =
        v ∙ ap (without_all gone) m.appended in
      let stays : (k : String) (d : Description)
          → has_id d.id gone ≡ false
          → (is_key (tag_of d) k && not (has_id d.id gone)) ≡ is_key (tag_of d) k =
        λ k d h. ground arith in
      let made_apart : (d : Description) → Memᴰ d m.made → has_id d.id gone ≡ false = λ d q.
        elim (Bool-cases (has_id d.id gone)) [
          | inl p ↦
              absurd (true≢false (sym (removed-has_id S law sources enrolled d.id p) ∙ m.apart d q))
          | inr p ↦ p
        ] in
      let enrolls : (k : String) → has_key tag_of k (view w') ≡ has_id k sources = λ k. rw listed (
        any-without_all (λ d. is_key (tag_of d) k) gone (enrolled ++ m.made)
        ∙ (any-append (λ d. is_key (tag_of d) k && not (has_id d.id gone)) enrolled m.made
            ∙ ground (
              arith,
              kept_keys S law sources enrolled one_key one_id k,
              any_same (λ d. is_key (tag_of d) k && not (has_id d.id gone))
                  (λ d. is_key (tag_of d) k) m.made (λ d q. stays k d (made_apart d q)),
              m.tagged k,
              lacking_ids S law tag_of sources enrolled k,
            ))) in
      (
        w',
        sync_listed name sources w
            ∙ apply_listed name sources (added S law sources enrolled) gone w m.after w'
                (delta-enable S law sources enrolled) m.returns e,
        enrolls,
        sync_same name sources w' (λ k. sym (enrolls k)),
      )
