-- ===== src/Server/Paths.antt =====
-- The addresses of the routes: the decorators of identity_app/modules/identity/presentation, the
-- prefixes and the order in which identity_app/main.py includes the routers. FastAPI gives a
-- request to the first route whose method and path match.
pub mod Dispatch
use diddifree_id.Prelude.{
  String, Bool, true, false, not, ◌&&◌, Option, none, some, List, [], ◌∷◌, ◌++◌, ◌≡◌, refl, str_eq,
  find_first, if◌then◌else◌, arith,
}

pub data Method : Type 0 where
  get post patch : Method

abbrev pub method_eq : Method → Method → Bool
method_eq get get = true
method_eq post post = true
method_eq patch patch = true
method_eq _ _ = false

-- A segment of the path of a route: a text, or a parameter.
pub data Segment : Type 0 where
  literal : String → Segment
  parameter : Segment

-- The handlers, by their names and routers.
pub data Handler : Type 0 where
  register request_otp verify_otp refresh logout : Handler
  me update_me backfill get_user change_role : Handler
  list_users change_status decide_kyc : Handler
  jwks health : Handler

pub record Route : Type 0 where
  pub method : Method
  pub path : List Segment
  pub handler : Handler

abbrev pub at : Method → List Segment → Handler → Route
at method path handler = record { method = method; path = path; handler = handler }

abbrev pub auth_router : List Route
auth_router =
    at post (literal "auth" ∷ literal "register" ∷ []) register
    ∷ at post (literal "auth" ∷ literal "otp" ∷ literal "request" ∷ []) request_otp
    ∷ at post (literal "auth" ∷ literal "otp" ∷ literal "verify" ∷ []) verify_otp
    ∷ at post (literal "auth" ∷ literal "refresh" ∷ []) refresh
    ∷ at post (literal "auth" ∷ literal "logout" ∷ []) logout
    ∷ []

abbrev pub users_router : List Route
users_router =
    at get (literal "users" ∷ literal "me" ∷ []) me
    ∷ at patch (literal "users" ∷ literal "me" ∷ []) update_me
    ∷ at get (literal "users" ∷ literal "backfill" ∷ []) backfill
    ∷ at get (literal "users" ∷ parameter ∷ []) get_user
    ∷ at patch (literal "users" ∷ parameter ∷ literal "role" ∷ []) change_role
    ∷ []

abbrev pub admin_router : List Route
admin_router =
    at get (literal "admin" ∷ literal "users" ∷ []) list_users
    ∷ at patch (literal "admin" ∷ literal "users" ∷ parameter ∷ literal "status" ∷ []) change_status
    ∷ at patch (literal "admin" ∷ literal "users" ∷ parameter ∷ literal "kyc" ∷ []) decide_kyc
    ∷ []

abbrev pub jwks_router : List Route
jwks_router = at get (literal ".well-known" ∷ literal "jwks.json" ∷ []) jwks ∷ []

abbrev pub literals : List String → List Segment
literals [] = []
literals (s ∷ ss) = literal s ∷ literals ss

-- `include_router(router, prefix=...)`
abbrev pub include_router : List String → List Route → List Route
include_router prefix [] = []
include_router prefix (r ∷ rs) =
    record r { path = literals prefix ++ r.path } ∷ include_router prefix rs

-- The routes of the app, in order of inclusion.
unfoldable pub routes : List String → List Route
routes api_prefix =
    include_router api_prefix auth_router
    ++ (include_router api_prefix users_router
        ++ (include_router api_prefix admin_router
            ++ (include_router api_prefix jwks_router
                ++ (include_router [] jwks_router ++ at get (literal "health" ∷ []) health ∷ []))))

abbrev pub path_fits : List Segment → List String → Bool
path_fits [] [] = true
path_fits (literal s ∷ path) (t ∷ ts) = str_eq s t && path_fits path ts
path_fits (parameter ∷ path) (t ∷ ts) = not (str_eq t "") && path_fits path ts
path_fits _ _ = false

abbrev pub matched : Method → List String → Route → Bool
matched method segments r = method_eq r.method method && path_fits r.path segments

abbrev pub handler_of : Option Route → Option Handler
handler_of none = none
handler_of (some r) = some r.handler

-- The handler of a request, by its method and the segments of its path.
unfoldable pub dispatch : List String → Method → List String → Option Handler
unfolding routes find_first
dispatch api_prefix method segments =
    handler_of (find_first (matched method segments) (routes api_prefix))
