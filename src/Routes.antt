-- ===== src/Routes.antt =====
-- pkg/controller/ingress/l4.go: the routes of a load balancer are brought to those that are desired.
pub mod Sorting
pub mod Settled
mod Tests
use Prim.Native.String.{String}
use deploykit.Base.{Option, none, some, Bool, not, ◌&&◌, ◌||◌, List, [], ◌∷◌, if◌then◌else◌}
use deploykit.Base.Int.{ℤ, eqb_ℤ}
use deploykit.Group.Text.{eqb_str}
use deploykit.Group.Types.{Proc, give, ◌>>=◌, ◌>>◌}

-- `loadbalancer.Route`.
pub record Route : Type 0 where
  pub port : ℤ
  pub protocol : String
  pub load_balancer_port : ℤ
  pub load_balancer_protocol : String
  pub certificate : Option String
  pub health_monitor_path : Option String

-- What the code calls of `loadbalancer.L4`.
pub record Balancer (W : Type 0) : Type 0 where
  pub routes : Proc W (List Route)
  pub publish : Route → Proc W (Unit {0})
  pub unpublish : ℤ → Proc W (Unit {0})

-- `operation`.
pub data RouteOp : Type 0 where
  create_op change_op noop : RouteOp

abbrev pub or_empty : Option String → String
or_empty none = ""
or_empty (some s) = s

-- The test of a match, and that of a change of what matches.
abbrev pub matches : Route → Route → Bool
matches route desired =
    eqb_ℤ route.load_balancer_port desired.load_balancer_port
    && (eqb_str route.protocol desired.protocol
        && eqb_str route.load_balancer_protocol desired.load_balancer_protocol)

abbrev pub differs : Route → Route → Bool
differs route desired =
    not (eqb_ℤ route.port desired.port)
    || (not (eqb_str (or_empty route.certificate) (or_empty desired.certificate))
        || not
            (eqb_str (or_empty route.health_monitor_path) (or_empty desired.health_monitor_path)))

-- `getRouteOperation`, and the list without the match.
abbrev pub keep : Route → RouteOp × List Route → RouteOp × List Route
keep route (op, routes) = (op, route ∷ routes)

unfoldable pub get_route_operation : List Route → Route → RouteOp × List Route
get_route_operation [] desired = (create_op, [])
get_route_operation (route ∷ routes) desired =
    let rest = get_route_operation routes desired in
    if matches route desired
    then ((if differs route desired then change_op else noop), routes)
    else keep route rest

-- The three lists of `configureL4`: what is to create, to change, and to remove.
pub record Sorted : Type 0 where
  pub to_create : List Route
  pub to_change : List Route
  pub routes : List Route

abbrev pub add : RouteOp → Route → Sorted → Sorted
add create_op l s = record s { to_create = l ∷ s.to_create }
add change_op l s = record s { to_change = l ∷ s.to_change }
add noop l s = s

-- The loop over the desired routes.
unfoldable pub sort_out : List Route → List Route → Sorted
unfolding get_route_operation
sort_out routes [] = record { to_create = []; to_change = []; routes = routes }
sort_out routes (l ∷ desired) =
    let found = get_route_operation routes l in add found.0 l (sort_out found.1 desired)

module _ {W : Type 0} (elb : Balancer W) where
  unfoldable pub publish_all : List Route → Proc W (Unit {0})
  publish_all [] = give tt
  publish_all (l ∷ routes) = elb.publish l >> publish_all routes

  unfoldable pub change_all : List Route → Proc W (Unit {0})
  change_all [] = give tt
  change_all (l ∷ routes) = elb.unpublish l.load_balancer_port >> elb.publish l >> change_all routes

  unfoldable pub unpublish_all : List Route → Proc W (Unit {0})
  unpublish_all [] = give tt
  unpublish_all (l ∷ routes) = elb.unpublish l.load_balancer_port >> unpublish_all routes

  unfoldable pub apply_sorted : Sorted → Proc W (Unit {0})
  unfolding publish_all change_all unpublish_all
  apply_sorted s = publish_all s.to_create >> change_all s.to_change >> unpublish_all s.routes

  unfoldable pub configure_l4 : List Route → Proc W (Unit {0})
  unfolding sort_out apply_sorted
  configure_l4 desired = elb.routes >>= (λ routes. apply_sorted (sort_out routes desired))
