-- ===== src/Api/Router/Laws.antt =====
-- What axum does with the table of the routes.
use mathlib.Core.List.{Memᴰ}
use nap_cat_qq_rs.Prelude.{
  String, ◌==◌, ◌≡◌, refl, Bool, true, false, not, ◌&&◌, Option, some, List, [], ◌∷◌, any,
}
use nap_cat_qq_rs.Protocol.OneBot.{Method, get, post}
use nap_cat_qq_rs.Api.Router.{Handler, Route, routes}

abbrev pub same_method : Method → Method → Bool
same_method get get = true
same_method post post = true
same_method _ _ = false

-- Two routes that a request could both mean, for which `Router::route` panics.
abbrev pub overlaps : Route → Route → Bool
overlaps a b = a.path == b.path && same_method a.method b.method

-- No two routes of the table overlap.
abbrev pub is_unambiguous : List Route → Bool
is_unambiguous [] = true
is_unambiguous (first ∷ rest) = not (any (overlaps first) rest) && is_unambiguous rest

-- The handler that axum finds, which is that of the route with the path and the method, in a table
-- whose routes do not overlap.
pub record Axum : Type 0 where
  pub find : List Route → Method → String → Option Handler
  pub finds :
      (table : List Route) (r : Route)
      → is_unambiguous table ≡ true
      → Memᴰ r table
      → find table r.method r.path ≡ some r.handler

routes_unambiguous : is_unambiguous routes ≡ true
unfolding routes any
routes_unambiguous = refl

-- The routes do not overlap, so that `router` does not panic, and a request with the path and the
-- method of a route reaches its handler.
pub every_route_served :
    (axum : Axum) (r : Route)
    → Memᴰ r routes
    → (is_unambiguous routes ≡ true) × (axum.find routes r.method r.path ≡ some r.handler)
every_route_served axum r h = (routes_unambiguous, axum.finds routes r routes_unambiguous h)
