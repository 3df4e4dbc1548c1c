-- ===== src/Group/Controller/Commit.antt =====
-- What a commit does to the table of groups.
use Prim.Native.String.{String}
use deploykit.Base.{
  ap, ◌≡◌, ◌≢◌, refl, sym, subst, ◌∙◌, ◌⊎◌, inl, inr, Option, none, Bool, false, Bool-cases,
  Option-cases, arith,
}
use deploykit.Base.Dict.{lookup}
use deploykit.Group.Text.{string_key, eqb_str}
use deploykit.Group.Types.{GroupSettings, Reply, failed, reply, Plugins}
use deploykit.Group.Controller.{
  GroupSpec, GroupSettings, Checks, Controller, check_parsed, and_then, validate, new_supervisor,
  commit_new, commit_valid, commit_group,
}

pub Reply-cases :
    {A : Type 0} (r : Reply A) → ((e : String) × (r ≡ failed e)) ⊎ ((a : A) × (r ≡ reply a))
Reply-cases (failed e) = inl (e, refl)
Reply-cases (reply a) = inr (a, refl)

pub reply_inj : {A : Type 0} {a b : A} → reply a ≡ reply b → a ≡ b
reply_inj e = cc

-- What is valid has an allocation.
check_parsed_same : (x y : GroupSettings) → check_parsed x ≡ reply y → x ≡ y
unfolding check_parsed
check_parsed_same x y h = ground arith

check_parsed-ne-none : (x y : GroupSettings) → check_parsed x ≡ reply y → new_supervisor x ≢ none
unfolding check_parsed new_supervisor
check_parsed-ne-none x y h = ground arith

pub and_then-eq-reply :
    {A B : Type 0} (r : Reply A) (f : A → Reply B) {b : B}
    → and_then r f ≡ reply b
    → (a : A) × (r ≡ reply a) × (f a ≡ reply b)
and_then-eq-reply (failed e) f h = absurd (cc)
and_then-eq-reply (reply a) f h = (a, refl, h)

-- A valid document is one that parses to what has an allocation.
pub validate_parts :
    {P : Type 0} (k : Checks P) (spec : GroupSpec P) (y : GroupSettings)
    → validate k spec ≡ reply y
    → (k.parse_properties spec.properties ≡ reply y) × (check_parsed y ≡ reply y)
unfolding validate
validate_parts k spec y h = elim (Bool-cases (eqb_str spec.id "")) [
  | inl q ↦ absurd (ground arith)
  | inr q ↦
      let (x, read, h₁) = and_then-eq-reply (k.parse_properties spec.properties) _ (chained q) in
      let (z, checked, h₂) = and_then-eq-reply (check_parsed x) _ h₁ in
      let (a, flavor, h₃) = and_then-eq-reply (k.validate_flavor z) _ h₂ in
      let (b, inst, h₄) = and_then-eq-reply (k.validate_instance z) _ h₃ in
      let same : z ≡ y = reply_inj h₄ in
      let first : x ≡ y = check_parsed_same x z checked ∙ same in
      (read ∙ ap reply first, subst (λ v. check_parsed v ≡ reply y) first (checked ∙ ap reply same))
]
  where
    chained :
        eqb_str spec.id "" ≡ false
        → and_then (k.parse_properties spec.properties) (λ read.
          and_then (check_parsed read) (λ parsed.
            and_then
              (k.validate_flavor parsed)
              (λ a. and_then (k.validate_instance parsed) (λ b. reply parsed))))
          ≡ reply y
    chained q = ground arith

validate-ne-none :
    {P : Type 0} (k : Checks P) (spec : GroupSpec P) (y : GroupSettings)
    → validate k spec ≡ reply y
    → new_supervisor y ≢ none
validate-ne-none k spec y h = check_parsed-ne-none y y (validate_parts k spec y h).1

new_supervisor_self :
    (g : GroupSettings) (self : Option String)
    → new_supervisor (record g { self = self }) ≡ new_supervisor g
unfolding new_supervisor
new_supervisor_self g self = refl

-- The controller and its plugins survive whatever is committed: the panic on an empty allocation
-- is not reached.
pub commit_group-ne-none :
    {W P : Type 0} (p : Plugins W) (k : Checks P) (spec : GroupSpec P) (pretend : Bool)
    (s : Controller × W)
    → commit_group p k spec pretend s ≢ none
unfolding commit_group commit_new
commit_group-ne-none p k spec pretend (c, w) = elim (Reply-cases (validate k spec)) [
  | inl (e, q) ↦ rw (q, commit_group) (ground arith)
  | inr (parsed, q) ↦
      let settings = record parsed { self = c.self } in
      elim (Option-cases (lookup spec.id c.groups)) [
        | inr (context, f) ↦ rw (q, commit_group, f, commit_valid) (ground arith)
        | inl f ↦ elim (Option-cases (new_supervisor settings)) [
          | inl e ↦
              absurd
                (validate-ne-none k spec parsed q (sym (new_supervisor_self parsed c.self) ∙ e))
          | inr (s, e) ↦ rw (q, commit_group, f, commit_valid, e, commit_new) (ground arith)
        ]
      ]
]
