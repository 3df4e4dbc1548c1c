-- ===== src/Group/Controller/Resize.antt =====
-- What `SetSize` leaves.
use Prim.Native.String.{String}
use text.Mathlib.TextEquality.{eq_iff}
use deploykit.Base.{
  ℕ, ◌≡◌, refl, sym, ap, subst, ◌∙◌, inl, inr, ite, Option, none, some, false, List, [], ◌∷◌,
  length, ltb, arith, Bool-cases,
}
use deploykit.Base.Int.{pos}
use deploykit.Group.Text.{string_dec, eqb_str}
use deploykit.Group.Types.{GroupSettings, reply, Plugins}
use deploykit.Group.Controller.{GroupSpec, Checks, Controller, commit_group}
use deploykit.Group.Controller.Commit.{Reply-cases, validate_parts, reply_inj, and_then-eq-reply}
use deploykit.Group.Controller.Table.{settings_at, commit_group-Committed}
use deploykit.Group.Controller.Sizes.{
  inspect_groups, find_spec, parse_found, read_spec, commit_size, set_size,
}

find_spec-id :
    {P : Type 0} (k : Checks P) (gid : String) (all : List (GroupSpec P)) (spec : GroupSpec P)
    → find_spec k gid all ≡ some spec
    → spec.id ≡ gid
unfolding find_spec
find_spec-id k gid [] spec h = absurd (cc)
find_spec-id k gid (x ∷ all) spec h = elim (Bool-cases (eqb_str x.id gid)) [
  | inl q ↦
      let found : x ≡ spec = ground arith in sym (ap (λ v. v.id) found) ∙ (eq_iff x.id gid).0 q
  | inr q ↦ find_spec-id k gid all spec (ground arith)
]

read_spec-id :
    {P : Type 0} (k : Checks P) (gid : String) (c : Controller) (spec : GroupSpec P)
    (g : GroupSettings)
    → read_spec k gid c ≡ reply (spec, g)
    → spec.id ≡ gid
unfolding read_spec
read_spec-id {P = P} k gid c spec g h =
    let (all, listed, parsed) = and_then-eq-reply (inspect_groups k c) _ h in
    go all (find_spec k gid all) (find_spec-id k gid all) parsed
  where
    go :
        (all : List (GroupSpec P)) (o : Option (GroupSpec P))
        → ((x : GroupSpec P) → o ≡ some x → x.id ≡ gid)
        → parse_found k o ≡ reply (spec, g)
        → spec.id ≡ gid
    go all none f e = absurd (cc)
    go all (some x) f e =
        let (y, read, same) = and_then-eq-reply (k.parse_properties x.properties) _ e in
        let same_spec : x ≡ spec = ap (λ v. v.0) (reply_inj same) in
        sym (ap (λ v. v.id) same_spec) ∙ f x refl

-- The group has settings with the size, and the other groups have theirs.
abbrev pub Resized : String → ℕ → Controller → Controller → Type 0
Resized gid n c c' =
    (x : GroupSettings) × (x.size ≡ n)
    × ((j : String) → settings_at j c' ≡ ite (string_dec gid j) (some (x, x)) (settings_at j c))

module _ {W P : Type 0} (p : Plugins W) (k : Checks P)
    (round_trip : (g : GroupSettings) (document : P)
      → k.unparse_properties g ≡ reply document
      → k.parse_properties document ≡ reply (record g { self = none })) where
  commit_size-Resized :
      (spec : GroupSpec P) (g : GroupSettings) (n : ℕ) (c c' : Controller) (w w' : W)
      → commit_size p k spec g n (c, w) ≡ some (reply tt, (c', w'))
      → Resized spec.id n c c'
  unfolding commit_size
  commit_size-Resized spec g n c c' w w' h =
      elim (Reply-cases (k.unparse_properties (record g { size = n }))) [
        | inl (e, q) ↦ absurd (ground arith)
        | inr (document, q) ↦
            let spec' = record spec { properties = document } in
            let committed : commit_group p k spec' false (c, w) ≡ some (reply tt, (c', w')) =
              ground arith in
            let (x, valid, at) = commit_group-Committed p k spec' c w (reply tt) c' w' committed in
            let same : record g { size = n; self = none } ≡ x = reply_inj (
              sym (round_trip (record g { size = n }) document q)
              ∙ (validate_parts k spec' x valid).0) in
            (record x { self = c.self }, sym (ap (λ v. v.size) same), at)
      ]

  -- Where documents can be read back as they were written, but for the controller's own id, a
  -- SetSize that succeeds gives the group the size, in the settings that the group has and that
  -- its instances are created with, and leaves the settings of the other groups.
  pub set_size_lem :
      (gid : String) (n : ℕ) (c c' : Controller) (w w' : W)
      → set_size p k gid (pos n) (c, w) ≡ some (reply tt, (c', w'))
      → Resized gid n c c'
  unfolding set_size
  set_size_lem gid n c c' w w' h = elim (Reply-cases (read_spec k gid c)) [
    | inl (e, q) ↦ absurd (ground arith)
    | inr ((spec, g), q) ↦ elim (Bool-cases (ltb 0 (length g.logical_ids))) [
      | inl r ↦ absurd (ground arith)
      | inr r ↦
          subst (λ i. Resized i n c c') (read_spec-id k gid c spec g q)
            (commit_size-Resized spec g n c c' w w' (ground arith))
    ]
  ]
