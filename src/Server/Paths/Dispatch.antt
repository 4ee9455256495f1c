-- ===== src/Server/Paths/Dispatch.antt =====
-- Where requests go, whatever the prefix of the service is.
use diddifree_id.Prelude.{
  String, Option, some, List, [], ◌∷◌, ◌++◌, ◌≡◌, ◌≢◌, refl, ◌∙◌, ap, subst, sym, eq_iff,
  find_first, is_some, if◌then◌else◌, arith,
}
use diddifree_id.Server.Paths.{
  Method, get, patch, Route, Segment, Handler, me, update_me, backfill, get_user, change_role, jwks,
  path_fits, matched, handler_of, include_router, literals, literal, health, at, routes, dispatch,
  auth_router, users_router, admin_router, jwks_router,
}

path_fits-literals :
    (prefix : List String) (path : List Segment) (segments : List String)
    → path_fits (literals prefix ++ path) (prefix ++ segments) ≡ path_fits path segments
path_fits-literals [] path segments = refl
path_fits-literals (s ∷ ss) path segments =
    ground (arith, (eq_iff s s).1 refl, path_fits-literals ss path segments)

module _ (prefix : List String) (method : Method) (segments : List String) where
  -- Behind the prefix, a router matches as it does without it.
  included :
      (router later : List Route)
      → handler_of
          (find_first (matched method (prefix ++ segments)) (include_router prefix router ++ later))
        ≡ (if is_some (find_first (matched method segments) router)
            then handler_of (find_first (matched method segments) router)
            else handler_of (find_first (matched method (prefix ++ segments)) later))
  unfolding find_first
  included [] later = refl
  included (r ∷ rs) later =
      ground (arith, path_fits-literals prefix r.path segments, included rs later)

  -- The handler that a router gives to a request, or the one that is left to the later routes.
  abbrev from_router : List Route → Option Handler → Option Handler
  from_router router later =
      if is_some (find_first (matched method segments) router)
      then handler_of (find_first (matched method segments) router)
      else later

  abbrev root_routes : List Route
  root_routes = include_router [] jwks_router ++ at get (literal "health" ∷ []) health ∷ []

  -- A request behind the prefix is matched without it, by each router in turn.
  dispatch_prefixed :
      dispatch prefix method (prefix ++ segments)
      ≡ from_router auth_router (
          from_router users_router (
            from_router admin_router (
              from_router jwks_router
                (handler_of (find_first (matched method (prefix ++ segments)) root_routes)))))
  unfolding dispatch routes find_first
  dispatch_prefixed =
      included auth_router (
        include_router prefix users_router
        ++ (include_router prefix admin_router
            ++ (include_router prefix jwks_router ++ root_routes)))
      ∙ ap (from_router auth_router) (
          included users_router (
            include_router prefix admin_router
            ++ (include_router prefix jwks_router ++ root_routes))
          ∙ ap (from_router users_router) (
              included admin_router (include_router prefix jwks_router ++ root_routes)
              ∙ ap (from_router admin_router) (included jwks_router root_routes)))

-- Where requests of users_router.py and jwks_router.py go: `me` and `backfill` are no ids, and the
-- key document has two addresses.
pub record IsRoutingTable (prefix : List String) (id : String) : Type 0 where
  pub own : dispatch prefix get (prefix ++ "users" ∷ "me" ∷ []) ≡ some me
  pub own_update : dispatch prefix patch (prefix ++ "users" ∷ "me" ∷ []) ≡ some update_me
  pub catch_up : dispatch prefix get (prefix ++ "users" ∷ "backfill" ∷ []) ≡ some backfill
  pub lookup :
      id ≢ "me"
      → id ≢ "backfill"
      → dispatch prefix get (prefix ++ "users" ∷ id ∷ []) ≡ some get_user
  pub role : dispatch prefix patch (prefix ++ "users" ∷ id ∷ "role" ∷ []) ≡ some change_role
  pub keys : dispatch prefix get (prefix ++ ".well-known" ∷ "jwks.json" ∷ []) ≡ some jwks
  pub keys_at_root :
      (p : String) (ps : List String)
      → prefix ≡ p ∷ ps
      → p ≢ ".well-known"
      → dispatch prefix get (".well-known" ∷ "jwks.json" ∷ []) ≡ some jwks

-- Behind any prefix, GET users/me and GET users/backfill reach the profile of the caller and the
-- backfill, never the lookup by id; every other GET users/{id} reaches the lookup, PATCH users/me
-- the update and PATCH users/{id}/role the change of role, where the id is not empty. The key
-- document is served behind the prefix, and at the root unless the prefix starts with .well-known
-- itself or is empty.
pub dispatch-IsRoutingTable :
    (prefix : List String) (id : String) → id ≢ "" → IsRoutingTable prefix id
unfolding find_first dispatch
dispatch-IsRoutingTable prefix id given = record {
  own = dispatch_prefixed prefix get ("users" ∷ "me" ∷ []);
  own_update = dispatch_prefixed prefix patch ("users" ∷ "me" ∷ []);
  catch_up = dispatch_prefixed prefix get ("users" ∷ "backfill" ∷ []);
  lookup = λ a b. ground (
    arith,
    dispatch_prefixed prefix get ("users" ∷ id ∷ []),
    eq_iff "me" id,
    eq_iff "backfill" id,
    eq_iff id "",
    given,
    a,
    b,
  );
  role =
      ground
        (arith, dispatch_prefixed prefix patch ("users" ∷ id ∷ "role" ∷ []), eq_iff id "", given);
  keys = dispatch_prefixed prefix get (".well-known" ∷ "jwks.json" ∷ []);
  keys_at_root = λ p ps e ne.
      subst (λ x. dispatch x get (".well-known" ∷ "jwks.json" ∷ []) ≡ some jwks) (sym e)
        (ground (arith, eq_iff p ".well-known", ne));
}
