-- ===== src/Server/Startup.antt =====
-- identity_app/core/lifespan.py, with what its `app.state` gives to requests: get_token_service of
-- identity_app/core/deps.py and get_redis of identity_app/core/redis.py.
use diddifree_id.Prelude.{
  String, Bool, true, false, Option, none, some, List, [], ◌∷◌, ◌≡◌, refl, ap, subst, sym, ◌⊎◌, inl,
  inr, All, if◌then◌else◌, arith,
}
use diddifree_id.Platform.Environment.{Env}
use diddifree_id.Infra.TokenService.{KeyRing}
use diddifree_id.Infra.Keys.{Loaded, loaded, refused, RuntimeError, get_key_ring}

-- A process: the `lru_cache` of get_key_ring, and `app.state` with the token service, by its key
-- ring, and the URL of the Redis client.
pub record Process : Type 0 where
  pub cached : Option KeyRing
  pub tokens : Option KeyRing
  pub redis : Option String

-- Before the lifespan has run.
abbrev pub new_process : Process
new_process = record { cached = none; tokens = none; redis = none }

-- How a start ends: requests are served, or an exception stops the process.
pub data Start : Type 0 where
  started : Process → Start
  database_unreachable : Start
  keys_refused : RuntimeError → Start

Loaded-cases :
    (r : Loaded KeyRing)
    → ((ring : KeyRing) × (r ≡ loaded ring)) ⊎ ((e : RuntimeError) × (r ≡ refused e))
Loaded-cases (loaded ring) = inl (ring, refl)
Loaded-cases (refused e) = inr (e, refl)

module _ ⦃env : Env⦄ where
  remember : Process → Loaded KeyRing → Loaded KeyRing × Process
  remember p (loaded ring) = (loaded ring, record p { cached = some ring })
  remember p (refused e) = (refused e, p)

  -- `get_key_ring()` in a process: an exception is not cached.
  read_ring : Process → Loaded KeyRing × Process
  unfolding remember get_key_ring
  read_ring p = elim p.cached [ none ↦ remember p get_key_ring | some ring ↦ (loaded ring, p) ]

  start_with : Loaded KeyRing × Process → Start
  start_with (loaded ring, p) =
      started (record p { tokens = some ring; redis = some env.settings.redis_url })
  start_with (refused e, p) = keys_refused e

  -- The lifespan up to its `yield`; `reachable` tells whether `SELECT 1` returned.
  unfoldable pub lifespan : Bool → Process → Start
  unfolding start_with read_ring
  lifespan reachable p = if reachable then start_with (read_ring p) else database_unreachable

  keep_service : Loaded KeyRing × Process → Loaded KeyRing × Process
  keep_service (loaded ring, p) = (loaded ring, record p { tokens = some ring })
  keep_service (refused e, p) = (refused e, p)

  -- The service that is there, or a new one, which is kept.
  unfoldable pub get_token_service : Process → Loaded KeyRing × Process
  unfolding keep_service read_ring
  get_token_service p = elim p.tokens [
    | none ↦ keep_service (read_ring p)
    | some ring ↦ (loaded ring, p)
  ]

  -- The URL of the client that a request gets: the shared one, or one of its own.
  unfoldable pub get_redis : Process → String
  get_redis app = elim app.redis [ none ↦ env.settings.redis_url | some url ↦ url ]

-- The key rings that requests get one after the other, each in the environment of its time: files
-- and settings may change while the process runs.
unfoldable pub rings_of : List Env → Process → List (Loaded KeyRing)
unfolding get_token_service
rings_of [] app = []
rings_of (e ∷ es) app =
    let (ring, app') = get_token_service ⦃env = e⦄ app in ring ∷ rings_of es app'

rings_of_kept :
    (es : List Env) (app : Process) (ring : KeyRing)
    → app.tokens ≡ some ring
    → All (λ r. r ≡ loaded ring) (rings_of es app)
unfolding rings_of get_token_service
rings_of_kept [] app ring h = tt
rings_of_kept (e ∷ es) app ring h =
    let same : get_token_service ⦃env = e⦄ app ≡ (loaded ring, app) = ground (arith, h) in
    (
      ap (λ p. p.0) same,
      subst (λ p. All (λ r. r ≡ loaded ring) (rings_of es p.1)) (sym same)
          (rings_of_kept es app ring h),
    )

module _ ⦃env : Env⦄ where
  -- A process that started had its database reachable and a key ring that loaded, and every
  -- request to it, however files and settings change meanwhile, gets exactly that ring, and the
  -- Redis URL of the start.
  pub rings_of-lifespan :
      (reachable : Bool) (es : List Env) {app : Process}
      → lifespan reachable new_process ≡ started app
      → (reachable ≡ true)
        × ((ring : KeyRing) × (get_key_ring ≡ loaded ring)
            × All (λ r. r ≡ loaded ring) (rings_of es app))
        × ((e : Env) → get_redis ⦃env = e⦄ app ≡ env.settings.redis_url)
  unfolding lifespan get_redis
  rings_of-lifespan false es h = absurd (ground (arith, h))
  rings_of-lifespan true es {app} h = elim (Loaded-cases get_key_ring) [
    | inl (ring, e) ↦ (
      refl,
      (ring, e, rings_of_kept es app ring (ground (arith, h, e))),
      λ f. ground (arith, h, e),
    )
    | inr (problem, e) ↦ absurd (ground (arith, h, e))
  ]
