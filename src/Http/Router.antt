-- ===== src/Http/Router.antt =====
-- The router of internal/order/controller/http (router.go). A request's path is clean: the mux
-- redirects other paths to their clean form first.
use checkout_saga.Common.{ℕ, Bool, ◌||◌, ◌==◌, List, [], ◌∷◌, Option, if◌then◌else◌}
use checkout_saga.Common.Int.{ℤ}
use checkout_saga.Common.Text.{Text, codes, text_eq, is_empty}
use checkout_saga.UseCase.{OrderRepo}
use checkout_saga.Jwt.{Manager}
use checkout_saga.Jwt.Golang.{TokenLibrary}
use checkout_saga.Http.Wire.{Request, Reply, text_body, Decoder, Validator}
use checkout_saga.Http.Middleware.{Handler, Response, traced, auth_middleware}
use checkout_saga.Http.Handlers.{create, get_by_id, issue}

-- The three patterns, and the replies of the mux where none matches: 404, or 405 for a path that has
-- a pattern for another method.
pub data Route : Type 0 where
  login create_order : Route
  get_order : Text → Route
  unrouted : ℕ → Route

-- A GET pattern takes HEAD requests as well.
abbrev pub is_get : Text → Bool
unfolding text_eq codes
is_get method = text_eq method (codes "GET") || text_eq method (codes "HEAD")

abbrev pub is_post : Text → Bool
unfolding text_eq codes
is_post method = text_eq method (codes "POST")

unfoldable pub route_of : Text → List Text → Route
unfolding text_eq codes
route_of method (first ∷ []) =
    if text_eq first (codes "login")
    then (if is_post method then login else unrouted 405)
    else if text_eq first (codes "orders")
    then (if is_post method then create_order else unrouted 405)
    else unrouted 404
route_of method (first ∷ second ∷ []) =
    if text_eq first (codes "orders")
    then (if is_empty second
        then unrouted 404
        else if is_get method
        then get_order second
        else unrouted 405)
    else unrouted 404
route_of method _ = unrouted 404

abbrev pub mux_reply : ℕ → Reply
mux_reply status = record {
  status = status;
  content_type = "text/plain; charset=utf-8";
  body = text_body (if status == 404 then "404 page not found" else "Method Not Allowed");
}

-- What a request meets outside the repository: the clock and the random bytes.
pub record Moment : Type 0 where
  pub now : ℤ
  pub random : Option (List ℕ)

module _ (repo : OrderRepo) (lib : TokenLibrary) (m : Manager) (json : Decoder)
    (v : Validator) where
  open repo use {Store}

  unfoldable pub dispatch : Moment → Route → Handler Store
  dispatch moment login ctx r s = (issue lib m json v moment.now r, s)
  dispatch moment create_order ctx r s =
      auth_middleware lib m moment.now (create repo json v) ctx r s
  dispatch moment (get_order id) ctx r s =
      auth_middleware lib m moment.now (λ ctx r s. (get_by_id repo json v id s, s)) ctx r s
  dispatch moment (unrouted status) ctx r s = (mux_reply status, s)

  -- NewRouter's handler
  unfoldable pub serve : Moment → Request → Store → Response × Store
  serve moment r s = traced moment.random (dispatch moment (route_of r.method r.path)) r s
