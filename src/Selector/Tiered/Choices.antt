-- ===== src/Selector/Tiered/Choices.antt =====
-- Which choice the tiered selector takes.
use Prim.Native.String.{String}
use deploykit.Base.{
  ◌≡◌, ◌↔◌, ◌⊎◌, inl, inr, ap, sym, ◌∙◌, refl, Option, none, some, List, [], ◌∷◌, ◌++◌,
  Option-cases,
}
use deploykit.Base.Dict.{Dict, lookup}
use deploykit.Group.Text.{string_key}
use deploykit.Group.Types.{Reply, failed, reply}
use deploykit.Group.Controller.Commit.{Reply-cases}
use deploykit.Selector.{Choice}
use deploykit.Selector.Tiered.{Provisioner, visit_choices, visit_tier, provision_tiered}

module _ {W P : Type 0} (client : String → Reply (Option (Provisioner W P)))
    (cprops : Dict String (Option P)) where
  -- The plugin of a choice is reached, and answers its properties.
  abbrev pub Answers : Choice → W → Reply (Option String) → W → Type 0
  Answers c w r w' =
      (p : Provisioner W P) × (properties : P) × (client c.name ≡ reply (some p))
      × (lookup c.name cprops ≡ some (some properties))
      × (p properties w ≡ (r, w'))

  -- An answer without an instance.
  abbrev pub IsRefusal : Reply (Option String) → Type 0
  IsRefusal (failed e) = Unit {0}
  IsRefusal (reply none) = Unit {0}
  IsRefusal (reply (some id)) = ⊥

  -- The choices that are passed over: they cannot be reached, or refuse.
  pub data Passes : List Choice → W → W → Type 0 where
    none_left : {w : W} → Passes [] w w
    unreached :
        {c : Choice} {choices : List Choice} {w w' : W}
        → client c.name ≡ reply none
        → Passes choices w w'
        → Passes (c ∷ choices) w w'
    refused :
        {c : Choice} {choices : List Choice} {w w₁ w' : W} {r : Reply (Option String)}
        → Answers c w r w₁
        → IsRefusal r
        → Passes choices w₁ w'
        → Passes (c ∷ choices) w w'

  -- An instance of one choice, all the choices before it passed over.
  abbrev pub Provides : List Choice → W → String → W → Type 0
  Provides choices w id w' =
      (front : List Choice) × (c : Choice) × (back : List Choice) × (w₁ : W) × (choices
        ≡ front ++ c ∷ back)
      × Passes front w w₁
      × Answers c w₁ (reply (some id)) w'

  -- The steps of the visit.
  tiered-unreached :
      (c : Choice) (choices : List Choice) (w : W)
      → client c.name ≡ reply none
      → provision_tiered client cprops (c ∷ choices) w ≡ provision_tiered client cprops choices w
  unfolding provision_tiered visit_choices
  tiered-unreached c choices w e = rw (provision_tiered, visit_choices, e) refl

  tiered-Answers :
      (c : Choice) (choices : List Choice) (w : W) {id : String} {w' : W}
      → Answers c w (reply (some id)) w'
      → provision_tiered client cprops (c ∷ choices) w ≡ (reply id, w')
  unfolding provision_tiered visit_choices visit_tier
  tiered-Answers c choices w (p, properties, e, found, answer) =
      rw (provision_tiered, visit_choices, e, visit_tier, found, answer) refl

  tiered-refused :
      (c : Choice) (choices : List Choice) (w w₁ : W) (r : Reply (Option String))
      → IsRefusal r
      → Answers c w r w₁
      → provision_tiered client cprops (c ∷ choices) w ≡ provision_tiered client cprops choices w₁
  unfolding provision_tiered visit_choices visit_tier
  tiered-refused c choices w w₁ (failed x) h (p, properties, e, found, answer) =
      rw (provision_tiered, visit_choices, e, visit_tier, found, answer) refl
  tiered-refused c choices w w₁ (reply none) h (p, properties, e, found, answer) =
      rw (provision_tiered, visit_choices, e, visit_tier, found, answer) refl
  tiered-refused c choices w w₁ (reply (some id)) h a = absurd h

  tiered-Passes :
      (choices : List Choice) {front : List Choice} {w w₁ : W}
      → Passes front w w₁
      → provision_tiered client cprops (front ++ choices) w
        ≡ provision_tiered client cprops choices w₁
  tiered-Passes choices none_left = refl
  tiered-Passes choices (unreached {c} {choices = front} {w} e passes) =
      tiered-unreached c (front ++ choices) w e ∙ tiered-Passes choices passes
  tiered-Passes choices (refused {c} {choices = front} {w} {w₁} {r} answers refuses passes) =
      tiered-refused c (front ++ choices) w w₁ r refuses answers ∙ tiered-Passes choices passes

  -- The errors that end the visit.
  tiered-failed :
      (c : Choice) (choices : List Choice) (w : W) {e : String}
      → client c.name ≡ failed e
      → provision_tiered client cprops (c ∷ choices) w ≡ (failed "cannot provision instance", w)
  unfolding provision_tiered visit_choices
  tiered-failed c choices w h = rw (provision_tiered, visit_choices, h) refl

  tiered_unconfigured :
      (c : Choice) (choices : List Choice) (w : W) {p : Provisioner W P}
      → client c.name ≡ reply (some p)
      → (lookup c.name cprops ≡ none) ⊎ (lookup c.name cprops ≡ some none)
      → provision_tiered client cprops (c ∷ choices) w ≡ (failed "cannot provision instance", w)
  unfolding provision_tiered visit_choices visit_tier
  tiered_unconfigured c choices w h (inl e) =
      rw (provision_tiered, visit_choices, h, visit_tier, e) refl
  tiered_unconfigured c choices w h (inr e) =
      rw (provision_tiered, visit_choices, h, visit_tier, e) refl

  abbrev as_some : Reply String → Reply (Option String)
  as_some (failed e) = failed e
  as_some (reply id) = reply (some id)

  skip_one :
      (c : Choice) (choices : List Choice) {w w₁ w' : W} {id : String}
      → ((front : List Choice) (w₂ : W) → Passes front w₁ w₂ → Passes (c ∷ front) w w₂)
      → Provides choices w₁ id w'
      → Provides (c ∷ choices) w id w'
  skip_one c choices one (front, d, back, w₂, split, passes, answers) =
      (c ∷ front, d, back, w₂, ap (λ l. c ∷ l) split, one front w₂ passes, answers)

  answered_step :
      (c : Choice) (choices : List Choice) (w : W) (r : Reply (Option String)) (w₁ : W)
      {id : String} {w' : W}
      → Answers c w r w₁
      → provision_tiered client cprops (c ∷ choices) w ≡ (reply id, w')
      → (provision_tiered client cprops choices w₁ ≡ (reply id, w') → Provides choices w₁ id w')
      → Provides (c ∷ choices) w id w'
  answered_step c choices w (failed x) w₁ a e rest =
      skip_one c choices (λ front w₂ passes. refused a tt passes)
        (rest (sym (tiered-refused c choices w w₁ (failed x) tt a) ∙ e))
  answered_step c choices w (reply none) w₁ a e rest =
      skip_one c choices (λ front w₂ passes. refused a tt passes)
        (rest (sym (tiered-refused c choices w w₁ (reply none) tt a) ∙ e))
  answered_step c choices w (reply (some x)) w₁ a e rest =
      let (p, properties, reached, found, answer) = a in
      let same = sym (tiered-Answers c choices w a) ∙ e in
      (
        [],
        c,
        choices,
        w,
        refl,
        none_left,
        (p, properties, reached, found, answer ∙ ap (λ z. (as_some z.0, z.1)) same),
      )

  provides :
      (choices : List Choice) (w : W) {id : String} {w' : W}
      → provision_tiered client cprops choices w ≡ (reply id, w')
      → Provides choices w id w'
  unfolding provision_tiered visit_choices
  provides [] w e = absurd (cc)
  provides (c ∷ choices) w e = elim (Reply-cases (client c.name)) [
    | inl (x, h) ↦ absurd (cc (sym (tiered-failed c choices w h) ∙ e))
    | inr (none, h) ↦
        skip_one c choices (λ front w₂ passes. unreached h passes)
          (provides choices w (sym (tiered-unreached c choices w h) ∙ e))
    | inr (some p, h) ↦ elim (Option-cases (lookup c.name cprops)) [
      | inl k ↦ absurd (cc (sym (tiered_unconfigured c choices w h (inl k)) ∙ e))
      | inr (none, k) ↦ absurd (cc (sym (tiered_unconfigured c choices w h (inr k)) ∙ e))
      | inr (some properties, k) ↦
          let (r, w₁) = p properties w in
          answered_step c choices w r w₁ (p, properties, h, k, refl) e (provides choices w₁)
    ]
  ]

  -- The tiered Provision answers an id exactly where the plugin of a choice that has properties
  -- answers it to them, in the world that the choices before it leave, each of which either
  -- could not be reached, or has properties that its plugin answered with an error or without an
  -- id; no choice after it is asked.
  pub provision_tiered_iff :
      (choices : List Choice) (w : W) (id : String) (w' : W)
      → (provision_tiered client cprops choices w ≡ (reply id, w')) ↔ Provides choices w id w'
  provision_tiered_iff choices w id w' = (
    provides choices w,
    λ (front, c, back, w₁, split, passes, answers).
        ap (λ l. provision_tiered client cprops l w) split
        ∙ tiered-Passes (c ∷ back) passes
        ∙ tiered-Answers c back w₁ answers,
  )
