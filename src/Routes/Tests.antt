-- ===== src/Routes/Tests.antt =====
-- A load balancer that keeps a list of routes, the theorem at it, and a route whose protocol changes.
use Prim.Native.String.{String}
use deploykit.Base.{◌≡◌, refl, none, List, [], ◌∷◌, ◌++◌, if◌then◌else◌, arith}
use deploykit.Base.Int.{ℤ, pos, eqb_ℤ, ℤ-discrete}
use deploykit.Group.Types.{reply}
use deploykit.Routes.{
  Route, Balancer, get_route_operation, sort_out, publish_all, change_all, unpublish_all,
  apply_sorted, configure_l4,
}
use deploykit.Routes.Sorting.{at}
use deploykit.Routes.Settled.{IsFaithful, IsServed, configure_l4_lem}

abbrev without : ℤ → List Route → List Route
without p [] = []
without p (r ∷ rs) = if eqb_ℤ p r.load_balancer_port then without p rs else r ∷ without p rs

abbrev list_balancer : Balancer (List Route)
list_balancer = record {
  routes = λ w. (reply w, w);
  publish = λ l w. (reply tt, w ++ l ∷ []);
  unpublish = λ p w. (reply tt, without p w);
}

at-append : (p : ℤ) (xs ys : List Route) → at p (xs ++ ys) ≡ at p xs ++ at p ys
at-append p [] ys = refl
at-append p (x ∷ xs) ys = ground (arith, at-append p xs ys)

at-without : (p q : ℤ) (rs : List Route) → at q (without p rs) ≡ (if eqb_ℤ p q then [] else at q rs)
unfolding eqb_ℤ
at-without p q [] = ground arith
at-without p q (r ∷ rs) = ground (arith, at-without p q rs)

list_balancer-IsFaithful : IsFaithful list_balancer (λ w. w)
list_balancer-IsFaithful = record {
  routes = λ w. refl;
  publish = λ l w. refl;
  unpublish = λ p w. refl;
  view-publish = λ l w q. at-append q w (l ∷ []);
  view-unpublish = λ p w q. at-without p q w;
}

abbrev route_of : String → ℤ → ℤ → Route
route_of protocol port load_balancer_port = record {
  port = port;
  protocol = protocol;
  load_balancer_port = load_balancer_port;
  load_balancer_protocol = protocol;
  certificate = none;
  health_monitor_path = none;
}

-- The backend port of 80 changes, 81 is new, and 82 is no longer wanted.
abbrev before : List Route
before = route_of "TCP" (pos 30000) (pos 80) ∷ route_of "TCP" (pos 30002) (pos 82) ∷ []

abbrev wanted : List Route
wanted = route_of "TCP" (pos 30001) (pos 80) ∷ route_of "TCP" (pos 30003) (pos 81) ∷ []

configure_l4_lem_example :
    ((configure_l4 list_balancer wanted before).0 ≡ reply tt)
    × IsServed (at (pos 80) (configure_l4 list_balancer wanted before).1) (at (pos 80) wanted)
unfolding eqb_ℤ ℤ-discrete
configure_l4_lem_example =
    configure_l4_lem list_balancer-IsFaithful (pos 80) before wanted (refl, refl)

configured :
    (configure_l4 list_balancer wanted before).1
    ≡ route_of "TCP" (pos 30003) (pos 81) ∷ route_of "TCP" (pos 30001) (pos 80) ∷ []
unfolding configure_l4 sort_out get_route_operation apply_sorted publish_all change_all
    unpublish_all eqb_ℤ ℤ-discrete
configured = refl

-- A route of another protocol is created first, and then taken off with the old one.
protocol_lost :
    (configure_l4 list_balancer
      (route_of "HTTP" (pos 30000) (pos 80) ∷ [])
      (route_of "TCP" (pos 30000) (pos 80) ∷ [])).1
    ≡ []
unfolding configure_l4 sort_out get_route_operation apply_sorted publish_all change_all
    unpublish_all eqb_ℤ ℤ-discrete
protocol_lost = refl
