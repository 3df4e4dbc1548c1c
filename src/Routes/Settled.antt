-- ===== src/Routes/Settled.antt =====
-- The routes that a load balancer has after it was configured.
use mathlib.Core.List.{append-nil, append_assoc}
use text.Mathlib.TextPositions.{eq_refl}
use deploykit.Base.{
  ◌≡◌, ◌∙◌, ap, ap₂, sym, refl, false, List, [], ◌∷◌, ◌++◌, if◌then◌else◌, Bool-cases, inl, inr,
  arith,
}
use deploykit.Base.Int.{ℤ, eqb_ℤ}
use deploykit.Group.Types.{reply}
use deploykit.Routes.{
  or_empty, Route, Balancer, differs, Sorted, sort_out, publish_all, change_all, unpublish_all,
  apply_sorted, configure_l4,
}
use deploykit.Routes.Sorting.{at, Agree, Compatible, sort_out_none, sort_out_one, eqb_self, head_on}

-- A load balancer that does what it is asked: publishing adds a route, and unpublishing removes those
-- of a port and no others.
pub record IsFaithful {W : Type 0} (elb : Balancer W) (view : W → List Route) : Type 0 where
  pub routes : (w : W) → elb.routes w ≡ (reply (view w), w)
  pub publish : (l : Route) (w : W) → (elb.publish l w).0 ≡ reply tt
  pub unpublish : (p : ℤ) (w : W) → (elb.unpublish p w).0 ≡ reply tt
  pub view-publish :
      (l : Route) (w : W) (q : ℤ) → at q (view (elb.publish l w).1) ≡ at q (view w) ++ at q (l ∷ [])
  pub view-unpublish :
      (p : ℤ) (w : W) (q : ℤ)
      → at q (view (elb.unpublish p w).1) ≡ (if eqb_ℤ p q then [] else at q (view w))

at_cons : (p : ℤ) (l : Route) (rs : List Route) → at p (l ∷ []) ++ at p rs ≡ at p (l ∷ rs)
at_cons p l rs = ground arith

module _ {W : Type 0} {elb : Balancer W} {view : W → List Route}
    (faithful : IsFaithful elb view) where
  publishes : (l : Route) (w : W) → elb.publish l w ≡ (reply tt, (elb.publish l w).1)
  publishes l w = λ i. (faithful.publish l w i, (elb.publish l w).1)

  unpublishes : (q : ℤ) (w : W) → elb.unpublish q w ≡ (reply tt, (elb.unpublish q w).1)
  unpublishes q w = λ i. (faithful.unpublish q w i, (elb.unpublish q w).1)

  publish_all_lem :
      (p : ℤ) (rs : List Route) (w : W)
      → ((publish_all elb rs w).0 ≡ reply tt)
        × (at p (view (publish_all elb rs w).1) ≡ at p (view w) ++ at p rs)
  unfolding publish_all
  publish_all_lem p [] w = (refl, sym (append-nil (at p (view w))))
  publish_all_lem p (l ∷ rs) w =
      let w₁ = (elb.publish l w).1 in
      let (done, left) = publish_all_lem p rs w₁ in
      rw (publish_all, publishes l w)
        (
          done,
          left
              ∙ ap (λ x. x ++ at p rs) (faithful.view-publish l w p)
              ∙ append_assoc (at p (view w)) (at p (l ∷ [])) (at p rs)
              ∙ ap (λ x. at p (view w) ++ x) (at_cons p l rs),
        )

  -- The routes of a port after one is taken off and put back.
  republished :
      (p : ℤ) (l : Route) (w : W)
      → at p (view (elb.publish l (elb.unpublish l.load_balancer_port w).1).1)
        ≡ (if eqb_ℤ l.load_balancer_port p then [] else at p (view w)) ++ at p (l ∷ [])
  republished p l w =
      faithful.view-publish l (elb.unpublish l.load_balancer_port w).1 p
      ∙ ap (λ x. x ++ at p (l ∷ [])) (faithful.view-unpublish l.load_balancer_port w p)

  change_all_none :
      (p : ℤ) (rs : List Route) (w : W)
      → at p rs ≡ []
      → ((change_all elb rs w).0 ≡ reply tt) × (at p (view (change_all elb rs w).1) ≡ at p (view w))
  unfolding change_all
  change_all_none p [] w e = (refl, refl)
  change_all_none p (l ∷ rs) w e = elim (Bool-cases (eqb_ℤ l.load_balancer_port p)) [
    | inl q ↦ absurd (ground arith)
    | inr q ↦
        let w₁ = (elb.unpublish l.load_balancer_port w).1 in
        let w₂ = (elb.publish l w₁).1 in
        let (done, left) = change_all_none p rs w₂ (ground arith) in
        rw (change_all, unpublishes l.load_balancer_port w, publishes l w₁)
          (done, left ∙ republished p l w ∙ rw q (append-nil (at p (view w))))
  ]

  change_all_one :
      (p : ℤ) (rs : List Route) (w : W) (d : Route)
      → at p rs ≡ d ∷ []
      → ((change_all elb rs w).0 ≡ reply tt) × (at p (view (change_all elb rs w).1) ≡ d ∷ [])
  unfolding change_all
  change_all_one p [] w d e = absurd (cc)
  change_all_one p (l ∷ rs) w d e = elim (Bool-cases (eqb_ℤ l.load_balancer_port p)) [
    | inl q ↦
        let (same, none_left) = head_on p l d rs q e in
        let w₁ = (elb.unpublish l.load_balancer_port w).1 in
        let w₂ = (elb.publish l w₁).1 in
        let (done, left) = change_all_none p rs w₂ none_left in
        rw (change_all, unpublishes l.load_balancer_port w, publishes l w₁)
          (done, left ∙ republished p l w ∙ rw q (ap (λ x. x ∷ []) same))
    | inr q ↦
        let w₁ = (elb.unpublish l.load_balancer_port w).1 in
        let w₂ = (elb.publish l w₁).1 in
        let (done, left) = change_all_one p rs w₂ d (ground arith) in
        rw (change_all, unpublishes l.load_balancer_port w, publishes l w₁) (done, left)
  ]

  abbrev kept : List Route → List Route → List Route
  kept [] now = now
  kept (c ∷ rs) now = []

  kept_none : (rs : List Route) → kept rs [] ≡ []
  kept_none [] = refl
  kept_none (c ∷ rs) = refl

  unpublish_all_lem :
      (p : ℤ) (rs : List Route) (w : W)
      → ((unpublish_all elb rs w).0 ≡ reply tt)
        × (at p (view (unpublish_all elb rs w).1) ≡ kept (at p rs) (at p (view w)))
  unfolding unpublish_all
  unpublish_all_lem p [] w = (refl, refl)
  unpublish_all_lem p (l ∷ rs) w =
      let w₁ = (elb.unpublish l.load_balancer_port w).1 in
      let (done, left) = unpublish_all_lem p rs w₁ in
      let gone = faithful.view-unpublish l.load_balancer_port w p in
      rw (unpublish_all, unpublishes l.load_balancer_port w)
        (
          done,
          elim (Bool-cases (eqb_ℤ l.load_balancer_port p)) [
            | inl q ↦ left ∙ ap (kept (at p rs)) gone ∙ rw q (kept_none (at p rs))
            | inr q ↦ left ∙ ap (kept (at p rs)) gone ∙ rw q refl
          ],
        )

  kept_self : (rs : List Route) → kept rs rs ≡ []
  kept_self [] = refl
  kept_self (c ∷ rs) = refl

  -- The three loops, one after the other, for a port that the second one leaves alone.
  apply_unchanged :
      (p : ℤ) (s : Sorted) (w : W)
      → at p s.to_change ≡ []
      → ((apply_sorted elb s w).0 ≡ reply tt)
        × (at p (view (apply_sorted elb s w).1)
            ≡ kept (at p s.routes) (at p (view w) ++ at p s.to_create))
  unfolding apply_sorted
  apply_unchanged p s w e =
      let w₁ = (publish_all elb s.to_create w).1 in
      let w₂ = (change_all elb s.to_change w₁).1 in
      let first = publish_all_lem p s.to_create w in
      let second = change_all_none p s.to_change w₁ e in
      let third = unpublish_all_lem p s.routes w₂ in
      let run₁ : publish_all elb s.to_create w ≡ (reply tt, w₁) = λ i. (first.0 i, w₁) in
      let run₂ : change_all elb s.to_change w₁ ≡ (reply tt, w₂) = λ i. (second.0 i, w₂) in
      rw (apply_sorted, run₁, run₂)
        (third.0, third.1 ∙ ap (kept (at p s.routes)) (second.1 ∙ first.1))

  apply_changed :
      (p : ℤ) (s : Sorted) (w : W) (d : Route)
      → at p s.to_change ≡ d ∷ []
      → at p s.routes ≡ []
      → ((apply_sorted elb s w).0 ≡ reply tt) × (at p (view (apply_sorted elb s w).1) ≡ d ∷ [])
  unfolding apply_sorted
  apply_changed p s w d e none_left =
      let w₁ = (publish_all elb s.to_create w).1 in
      let w₂ = (change_all elb s.to_change w₁).1 in
      let first = publish_all_lem p s.to_create w in
      let second = change_all_one p s.to_change w₁ d e in
      let third = unpublish_all_lem p s.routes w₂ in
      let run₁ : publish_all elb s.to_create w ≡ (reply tt, w₁) = λ i. (first.0 i, w₁) in
      let run₂ : change_all elb s.to_change w₁ ≡ (reply tt, w₂) = λ i. (second.0 i, w₂) in
      rw (apply_sorted, run₁, run₂)
        (third.0, third.1 ∙ ap (λ x. kept x (at p (view w₂))) none_left ∙ second.1)

-- A port has no desired route, or one that agrees with a route that it may have.
abbrev pub Fits : List Route → List Route → Type 0
Fits now [] = Unit {0}
Fits now (d ∷ []) = Compatible now d
Fits now (d ∷ b ∷ ds) = ⊥

-- The routes of a port are what is desired of it: none, or one that a further round would not change.
abbrev pub IsServed : List Route → List Route → Type 0
IsServed now [] = now ≡ []
IsServed now (d ∷ ds) = (r : Route) × (now ≡ r ∷ []) × Agree r d × (differs r d ≡ false)

differs_self : (d : Route) → differs d d ≡ false
differs_self d = ground (
  arith,
  eqb_self d.port,
  eq_refl (or_empty d.certificate),
  eq_refl (or_empty d.health_monitor_path),
)

module _ {W : Type 0} {elb : Balancer W} {view : W → List Route}
    (faithful : IsFaithful elb view) where
  settle :
      (p : ℤ) (w : W) (now desired wanted : List Route)
      → at p (view w) ≡ now
      → at p desired ≡ wanted
      → Fits now wanted
      → ((apply_sorted elb (sort_out (view w) desired) w).0 ≡ reply tt)
        × IsServed (at p (view (apply_sorted elb (sort_out (view w) desired) w).1)) wanted
  settle p w now desired [] here want fits =
      let (none_new, none_changed, all) = sort_out_none p (view w) desired want in
      let (done, left) = apply_unchanged faithful p (sort_out (view w) desired) w none_changed in
      (
        done,
        left
            ∙ ap₂ (kept faithful) all
                (ap (λ x. at p (view w) ++ x) none_new ∙ append-nil (at p (view w)))
            ∙ kept_self faithful (at p (view w)),
      )
  settle p w [] desired (d ∷ []) here want fits =
      let (one_new, none_changed, none_left) =
        sort_out_one p (view w) [] desired d here fits want in
      let (done, left) = apply_unchanged faithful p (sort_out (view w) desired) w none_changed in
      (
        done,
        (
          d,
          left ∙ ap₂ (kept faithful) none_left (ap₂ (λ x y. x ++ y) here one_new),
          (refl, refl),
          differs_self d,
        ),
      )
  settle p w (c ∷ []) desired (d ∷ []) here want fits =
      let sorted = sort_out_one p (view w) (c ∷ []) desired d here fits want in
      elim (Bool-cases (differs c d)) [
        | inl q ↦
            let (done, left) =
              apply_changed faithful p (sort_out (view w) desired) w d (sorted.1 ∙ rw q refl)
                sorted.2 in
            (done, (d, left, (refl, refl), differs_self d))
        | inr q ↦
            let (done, left) =
              apply_unchanged faithful p (sort_out (view w) desired) w (sorted.1 ∙ rw q refl) in
            (
              done,
              (
                c,
                left
                    ∙ ap₂ (kept faithful) sorted.2
                        (ap₂ (λ x y. x ++ y) here (sorted.0 ∙ rw q refl)),
                fits,
                q,
              ),
            )
      ]
  settle p w (c ∷ b ∷ now) desired (d ∷ []) here want fits = absurd fits
  settle p w now desired (d ∷ b ∷ wanted) here want fits = absurd fits

  -- On a load balancer that does what it is asked, configureL4 succeeds, and leaves a port
  -- without a desired route none; a port with a single desired route, whose protocols are those
  -- of the one route that the port may have, it leaves a single route that another round would
  -- find to match and not to differ.
  pub configure_l4_lem :
      (p : ℤ) (w : W) (desired : List Route)
      → Fits (at p (view w)) (at p desired)
      → ((configure_l4 elb desired w).0 ≡ reply tt)
        × IsServed (at p (view (configure_l4 elb desired w).1)) (at p desired)
  unfolding configure_l4
  configure_l4_lem p w desired fits =
      rw (configure_l4, faithful.routes w)
        (settle p w (at p (view w)) desired (at p desired) refl refl fits)
