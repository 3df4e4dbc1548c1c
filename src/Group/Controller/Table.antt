-- ===== src/Group/Controller/Table.antt =====
-- The settings of the groups, before and after a commit or a release.
use mathlib.Core.Option
use Prim.Native.String.{String}
use deploykit.Base.{
  ◌≡◌, refl, ap, subst, ◌∙◌, ite, inl, inr, Option, none, some, false, List, [], ◌∷◌, ◌++◌,
  Option-cases, arith,
}
use deploykit.Base.Dict.{lookup, insert, erase, lookup-insert, lookup-erase}
use deploykit.Group.Text.{string_key, string_dec}
use deploykit.Group.Types.{GroupSettings, Reply, failed, reply, Plugins}
use deploykit.Group.Controller.{
  GroupSpec, GroupSettings, Checks, Supervisor, UpdatePlan, GroupContext, Launch, Controller,
  validate, new_supervisor, stop_updating, start_update, plan_update, planned, commit_existing,
  commit_new, commit_valid, commit_group, do_free, group_tag, run_supervisor, stop_supervisor,
}
use deploykit.Group.Controller.Commit.{Reply-cases}

abbrev both : GroupContext → GroupSettings × GroupSettings
both x = (x.settings, x.scaled.settings)

-- The settings of a group, and those that its instances are created with.
abbrev pub settings_at : String → Controller → Option (GroupSettings × GroupSettings)
settings_at j c = Option.map both (lookup j c.groups)

settings_at-stop_updating :
    (id j : String) (context : GroupContext) (c : Controller)
    → lookup id c.groups ≡ some context
    → settings_at j (stop_updating id context c) ≡ settings_at j c
unfolding stop_updating
settings_at-stop_updating id j context c h =
    ground (arith, lookup-insert id j (record context { update = none }) c.groups)

-- What a commit leaves: all settings where it fails, and the new ones at its group where it does not.
abbrev pub Settled : Controller → String → GroupSettings → Reply (Unit {0}) → Controller → Type 0
Settled c id settings (failed e) c' = (j : String) → settings_at j c' ≡ settings_at j c
Settled c id settings (reply a) c' =
    (j : String)
    → settings_at j c' ≡ ite (string_dec id j) (some (settings, settings)) (settings_at j c)

settings_at-insert :
    (id j : String) (x : GroupContext) (c : Controller) (l : List Launch)
    → settings_at j (record c { groups = insert id x c.groups; launches = l })
      ≡ ite (string_dec id j) (some (both x)) (settings_at j c)
settings_at-insert id j x c l = ground (arith, lookup-insert id j x c.groups)

settings_at-start_update :
    (id j : String) (context : GroupContext) (plan : UpdatePlan) (settings : GroupSettings)
    (c : Controller)
    → settings_at j (start_update id context plan settings c)
      ≡ ite (string_dec id j) (some (settings, settings)) (settings_at j c)
unfolding start_update
settings_at-start_update id j context plan settings c = settings_at-insert id j _ c []

settings_at-erase :
    (id j : String) (c : Controller) (l : List Launch)
    → settings_at j (record c { groups = erase id c.groups; launches = l })
      ≡ ite (string_dec id j) none (settings_at j c)
settings_at-erase id j c l = ground (arith, lookup-erase id j c.groups)

module _ {W : Type 0} (p : Plugins W) where
  planned-Settled :
      (id : String) (context : GroupContext) (settings : GroupSettings) (c c₁ : Controller)
      (x : Reply UpdatePlan × W)
      → ((j : String) → settings_at j c₁ ≡ settings_at j c)
      → let y = planned p id context settings false c₁ x in Settled c id settings y.0 y.1.0
  planned-Settled id context settings c c₁ (failed e, w) h = h
  planned-Settled id context settings c c₁ (reply plan, w) h = λ j.
      settings_at-start_update id j context plan settings c₁
      ∙ ap (ite (string_dec id j) (some (settings, settings))) (h j)

  commit_existing-Settled :
      (id : String) (context : GroupContext) (settings : GroupSettings) (c : Controller) (w : W)
      → lookup id c.groups ≡ some context
      → let y = commit_existing p id context settings false (c, w) in
        Settled c id settings y.0 y.1.0
  unfolding commit_existing
  commit_existing-Settled id context settings c w h =
      planned-Settled id context settings c (stop_updating id context c)
        (plan_update p context settings w) (λ j. settings_at-stop_updating id j context c h)

-- The same with the settings that the document was parsed to.
abbrev pub Committed :
    {P : Type 0} → Checks P → GroupSpec P → Controller → Reply (Unit {0}) → Controller → Type 0
Committed k spec c (failed e) c' = (j : String) → settings_at j c' ≡ settings_at j c
Committed k spec c (reply a) c' =
    (parsed : GroupSettings) × (validate k spec ≡ reply parsed)
    × ((j : String)
        → settings_at j c'
          ≡ ite (string_dec spec.id j)
              (some (record parsed { self = c.self }, record parsed { self = c.self }))
              (settings_at j c))

module _ {P : Type 0} (k : Checks P) (spec : GroupSpec P) (c : Controller) where
  Committed-Settled :
      (parsed : GroupSettings) (r : Reply (Unit {0})) (c' : Controller)
      → validate k spec ≡ reply parsed
      → Settled c spec.id (record parsed { self = c.self }) r c'
      → Committed k spec c r c'
  Committed-Settled parsed (failed e) c' v h = h
  Committed-Settled parsed (reply a) c' v h = (parsed, v, h)

module _ {W P : Type 0} (p : Plugins W) (k : Checks P) (spec : GroupSpec P) (c : Controller)
    (w : W) where
  abbrev Good : Option (Reply (Unit {0}) × (Controller × W)) → Type 0
  Good none = Unit
  Good (some (r, (c', w'))) = Committed k spec c r c'

  commit_new-Good :
      (parsed : GroupSettings)
      → validate k spec ≡ reply parsed
      → Good (commit_new p spec.id (record parsed { self = c.self }) false (c, w))
  unfolding commit_new
  commit_new-Good parsed v = go (new_supervisor (record parsed { self = c.self }))
    where
      go :
          (o : Option Supervisor)
          → Good (elim o [
            | none ↦ none
            | some supervisor ↦ some (
              reply tt,
              (
                record c {
                  groups =
                      insert spec.id
                        (record {
                          settings = record parsed { self = c.self };
                          supervisor = supervisor;
                          scaled = record {
                            settings = record parsed { self = c.self };
                            member_tags = (group_tag, spec.id) ∷ [];
                          };
                          update = none;
                        })
                        c.groups;
                  launches = c.launches ++ run_supervisor spec.id ∷ [];
                },
                w,
              ),
            )
          ])
      go none = tt
      go (some s) = (
        parsed,
        v,
        λ j.
            settings_at-insert spec.id j
              (record {
                settings = record parsed { self = c.self };
                supervisor = s;
                scaled = record {
                  settings = record parsed { self = c.self };
                  member_tags = (group_tag, spec.id) ∷ [];
                };
                update = none;
              })
              c [],
      )

  commit_group-Good : Good (commit_group p k spec false (c, w))
  unfolding commit_group
  commit_group-Good = elim (Reply-cases (validate k spec)) [
    | inl (e, q) ↦ rw (q, commit_group, commit_valid) (λ j. refl)
    | inr (parsed, q) ↦ elim (Option-cases (lookup spec.id c.groups)) [
      | inl f ↦ rw (q, commit_group, f, commit_valid) (commit_new-Good parsed q)
      | inr (context, f) ↦
          rw (q, commit_group, f, commit_valid)
            (Committed-Settled k spec c parsed _ _ q
              (commit_existing-Settled p spec.id context (record parsed { self = c.self }) c w f))
    ]
  ]

  -- A commit that is not pretended, and that fails, leaves the settings of every group as they
  -- were. One that succeeds has a valid document, whose settings with the controller's own id
  -- the group then has, the ones that it creates instances with included, and leaves those of
  -- all other groups.
  pub commit_group-Committed :
      (r : Reply (Unit {0})) (c' : Controller) (w' : W)
      → commit_group p k spec false (c, w) ≡ some (r, (c', w'))
      → Committed k spec c r c'
  commit_group-Committed r c' w' h = subst Good h commit_group-Good

-- Releasing a group stops its update and its supervisor, and takes out of the table that group
-- and no other.
pub do_free_lem :
    (id : String) (c c' : Controller) (context : GroupContext)
    → do_free id c ≡ some (context, c')
    → (lookup id c.groups ≡ some context)
      × (c'.launches ≡ (stop_updating id context c).launches ++ stop_supervisor id ∷ [])
      × ((j : String) → settings_at j c' ≡ ite (string_dec id j) none (settings_at j c))
unfolding do_free
do_free_lem id c c' context h = elim (Option-cases (lookup id c.groups)) [
  | inl f ↦ absurd (ground arith)
  | inr (x, f) ↦
      let found : x ≡ context = ground arith in
      let made : c' ≡ record (stop_updating id context c) {
        groups = erase id (stop_updating id context c).groups;
        launches = (stop_updating id context c).launches ++ stop_supervisor id ∷ [];
      } =
        ground arith in
      (
        ground arith,
        ap (λ v. v.launches) made,
        λ j.
            ap (settings_at j) made
            ∙ settings_at-erase id j (stop_updating id context c) []
            ∙ ap (ite (string_dec id j) none)
                (settings_at-stop_updating id j context c (ground arith)),
      )
]
