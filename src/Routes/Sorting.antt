-- ===== src/Routes/Sorting.antt =====
-- Which routes of a port are created, changed and removed.
use text.Mathlib.TextPositions.{eq_refl}
use deploykit.Base.{
  ◌≡◌, ◌∙◌, ap, ap₂, subst, sym, refl, true, false, List, [], ◌∷◌, if◌then◌else◌, Bool-cases, inl,
  inr, arith,
}
use deploykit.Base.Int.{ℤ, eqb_ℤ}
use deploykit.Routes.{
  Route, RouteOp, create_op, change_op, noop, matches, differs, get_route_operation, Sorted,
  sort_out, add,
}

-- The routes of a port of the load balancer.
abbrev pub at : ℤ → List Route → List Route
at p [] = []
at p (r ∷ rs) = if eqb_ℤ r.load_balancer_port p then r ∷ at p rs else at p rs

pub eqb_self : (a : ℤ) → eqb_ℤ a a ≡ true
unfolding eqb_ℤ
eqb_self a = ground arith

eqb_same : (a b : ℤ) → eqb_ℤ a b ≡ true → a ≡ b
unfolding eqb_ℤ
eqb_same a b h = ground arith

match_port : (r d : Route) → matches r d ≡ true → r.load_balancer_port ≡ d.load_balancer_port
match_port r d m = eqb_same r.load_balancer_port d.load_balancer_port (ground arith)

-- What the operation leaves of a port.
operation_other :
    (p : ℤ) (rs : List Route) (d : Route)
    → eqb_ℤ d.load_balancer_port p ≡ false
    → at p (get_route_operation rs d).1 ≡ at p rs
unfolding get_route_operation
operation_other p [] d h = refl
operation_other p (r ∷ rs) d h = elim (Bool-cases (matches r d)) [
  | inl m ↦
      let q : eqb_ℤ r.load_balancer_port p ≡ false = ap (λ a. eqb_ℤ a p) (match_port r d m) ∙ h in
      rw (get_route_operation, m, q) refl
  | inr m ↦ rw (get_route_operation, m) (ground (arith, operation_other p rs d h))
]

operation_none :
    (rs : List Route) (d : Route)
    → at d.load_balancer_port rs ≡ []
    → ((get_route_operation rs d).0 ≡ create_op)
      × (at d.load_balancer_port (get_route_operation rs d).1 ≡ [])
unfolding get_route_operation
operation_none [] d e = (refl, refl)
operation_none (r ∷ rs) d e = elim (Bool-cases (eqb_ℤ r.load_balancer_port d.load_balancer_port)) [
  | inl q ↦ absurd (ground arith)
  | inr q ↦
      let m : matches r d ≡ false = ground arith in
      let rest = operation_none rs d (ground arith) in
      rw (get_route_operation, m) (ground (arith, rest))
]

-- The protocols of a route and a desired one.
abbrev pub Agree : Route → Route → Type 0
Agree c d = (c.protocol ≡ d.protocol) × (c.load_balancer_protocol ≡ d.load_balancer_protocol)

operation_one :
    (rs : List Route) (c d : Route)
    → at d.load_balancer_port rs ≡ c ∷ []
    → Agree c d
    → ((get_route_operation rs d).0 ≡ (if differs c d then change_op else noop))
      × (at d.load_balancer_port (get_route_operation rs d).1 ≡ [])
unfolding get_route_operation
operation_one [] c d e a = absurd (cc)
operation_one (r ∷ rs) c d e a =
    elim (Bool-cases (eqb_ℤ r.load_balancer_port d.load_balancer_port)) [
      | inl q ↦
          let here : r ≡ c = ground arith in
          let m : matches r d ≡ true =
            ground (arith, here, a, eq_refl d.protocol, eq_refl d.load_balancer_protocol) in
          let none_left : at d.load_balancer_port rs ≡ [] = ground arith in
          rw (get_route_operation, m)
            (ap (λ x. if differs x d then change_op else noop) here, none_left)
      | inr q ↦
          let m : matches r d ≡ false = ground arith in
          let rest = operation_one rs c d (ground arith) a in
          rw (get_route_operation, m) (ground (arith, rest))
    ]

-- At most one route, of the desired protocols.
abbrev pub Compatible : List Route → Route → Type 0
Compatible [] d = Unit {0}
Compatible (c ∷ []) d = Agree c d
Compatible (c ∷ b ∷ rs) d = ⊥

abbrev pub expected : List Route → Route → RouteOp
expected [] d = create_op
expected (c ∷ rs) d = if differs c d then change_op else noop

operation_at :
    (rs now : List Route) (d : Route)
    → at d.load_balancer_port rs ≡ now
    → Compatible now d
    → ((get_route_operation rs d).0 ≡ expected now d)
      × (at d.load_balancer_port (get_route_operation rs d).1 ≡ [])
operation_at rs [] d e h = operation_none rs d e
operation_at rs (c ∷ []) d e h = operation_one rs c d e h
operation_at rs (c ∷ b ∷ now) d e h = absurd h

abbrev pub created : RouteOp → Route → List Route
created create_op d = d ∷ []
created change_op d = []
created noop d = []

abbrev pub changed : RouteOp → Route → List Route
changed create_op d = []
changed change_op d = d ∷ []
changed noop d = []

-- What a list of a port says of its head and its tail.
pub head_on :
    (p : ℤ) (l d : Route) (ds : List Route)
    → eqb_ℤ l.load_balancer_port p ≡ true
    → at p (l ∷ ds) ≡ d ∷ []
    → (l ≡ d) × (at p ds ≡ [])
head_on p l d ds q e = ground arith

module _ (p : ℤ) (l : Route) (s : Sorted) where
  add_other :
      (op : RouteOp)
      → eqb_ℤ l.load_balancer_port p ≡ false
      → (at p (add op l s).to_create ≡ at p s.to_create)
        × (at p (add op l s).to_change ≡ at p s.to_change)
        × (at p (add op l s).routes ≡ at p s.routes)
  add_other create_op h = rw h (refl, refl, refl)
  add_other change_op h = rw h (refl, refl, refl)
  add_other noop h = (refl, refl, refl)

  add_here :
      (op : RouteOp)
      → eqb_ℤ l.load_balancer_port p ≡ true
      → at p s.to_create ≡ []
      → at p s.to_change ≡ []
      → (at p (add op l s).to_create ≡ created op l)
        × (at p (add op l s).to_change ≡ changed op l)
        × (at p (add op l s).routes ≡ at p s.routes)
  add_here create_op h a b = rw h (ap (λ x. l ∷ x) a, b, refl)
  add_here change_op h a b = rw h (a, ap (λ x. l ∷ x) b, refl)
  add_here noop h a b = (a, b, refl)

pub sort_out_none :
    (p : ℤ) (rs ds : List Route)
    → at p ds ≡ []
    → (at p (sort_out rs ds).to_create ≡ [])
      × (at p (sort_out rs ds).to_change ≡ [])
      × (at p (sort_out rs ds).routes ≡ at p rs)
unfolding sort_out
sort_out_none p rs [] e = (refl, refl, refl)
sort_out_none p rs (l ∷ ds) e = elim (Bool-cases (eqb_ℤ l.load_balancer_port p)) [
  | inl q ↦ absurd (ground arith)
  | inr q ↦
      let found = get_route_operation rs l in
      let rest = sort_out_none p found.1 ds (ground arith) in
      let here = add_other p l (sort_out found.1 ds) found.0 q in
      (here.0 ∙ rest.0, here.1 ∙ rest.1, here.2 ∙ rest.2 ∙ operation_other p rs l q)
]

pub sort_out_one :
    (p : ℤ) (rs now ds : List Route) (d : Route)
    → at p rs ≡ now
    → Compatible now d
    → at p ds ≡ d ∷ []
    → (at p (sort_out rs ds).to_create ≡ created (expected now d) d)
      × (at p (sort_out rs ds).to_change ≡ changed (expected now d) d)
      × (at p (sort_out rs ds).routes ≡ [])
unfolding sort_out
sort_out_one p rs now [] d here fits e = absurd (cc)
sort_out_one p rs now (l ∷ ds) d here fits e = elim (Bool-cases (eqb_ℤ l.load_balancer_port p)) [
  | inl q ↦
      let (same, none_left) = head_on p l d ds q e in
      let port : l.load_balancer_port ≡ p = eqb_same l.load_balancer_port p q in
      let found = get_route_operation rs l in
      let op =
        operation_at rs now l (ap (λ a. at a rs) port ∙ here)
          (subst (Compatible now) (sym same) fits) in
      let rest = sort_out_none p found.1 ds none_left in
      let added = add_here p l (sort_out found.1 ds) found.0 q rest.0 rest.1 in
      let goes : found.0 ≡ expected now d = op.0 ∙ ap (expected now) same in
      (
        added.0 ∙ ap₂ created goes same,
        added.1 ∙ ap₂ changed goes same,
        added.2 ∙ rest.2 ∙ ap (λ a. at a found.1) (sym port) ∙ op.1,
      )
  | inr q ↦
      let found = get_route_operation rs l in
      let rest =
        sort_out_one p found.1 now ds d (operation_other p rs l q ∙ here) fits (ground arith) in
      let added = add_other p l (sort_out found.1 ds) found.0 q in
      (added.0 ∙ rest.0, added.1 ∙ rest.1, added.2 ∙ rest.2)
]
