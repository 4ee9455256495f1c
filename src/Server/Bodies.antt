-- ===== src/Server/Bodies.antt =====
-- identity_app/modules/identity/presentation/schemas.py: what a request body is checked for before
-- its handler runs, and `_client_ip` of auth_router.py.
use Prim.Native.Char.{code}
use diddifree_id.Prelude.{
  ℕ, ◌≡◌, refl, ◌∙◌, ap, String, Bool, true, ◌&&◌, not, Option, none, some, List, [], ◌∷◌, leb,
  ◌==◌, str_eq, arith, Bool-cases, inl, inr, if◌then◌else◌,
}
use diddifree_id.Platform.Environment.{Env}
use diddifree_id.Platform.Monad.{World}
use diddifree_id.Application.Validation.{length, all_decimal}
use diddifree_id.Infra.TokenService.{KeyRing}
use diddifree_id.Server.Routes.{
  Request, register, otp_request, otp_verify, refresh, log_out, update_me, role_change,
  status_change, kyc_decision, handle, serve,
}

-- `max_length` of an optional field
abbrev fits : ℕ → Option String → Bool
fits n none = true
fits n (some text) = leb (length text) n

module _ ⦃env : Env⦄ where
  -- `pattern=r"^\d{6}$"`
  abbrev is_code : String → Bool
  unfolding all_decimal
  is_code text = (length text == 6) && all_decimal text

  unfoldable pub is_valid : Request → Bool
  unfolding is_code
  is_valid (register phone full_name) = fits 120 full_name
  is_valid (otp_request phone client_ip) = true
  is_valid (otp_verify phone text device_info) = is_code text && fits 200 device_info
  is_valid (refresh refresh_token device_info) = fits 200 device_info
  is_valid (log_out refresh_token all_devices) = true
  is_valid (update_me credentials full_name) = fits 120 full_name
  is_valid (role_change key credentials user_id role reason) = true
  is_valid (status_change credentials user_id status reason) = true
  is_valid (kyc_decision credentials user_id approved reason) = true

  -- A body that is refused is answered with 422 VALIDATION_ERROR, or as its guard refuses the
  -- caller; no handler runs, and the tables stay as they are.
  unfoldable pub receive : KeyRing → Request → World → World
  unfolding is_valid handle
  receive ring request w = if is_valid request then handle ring request w else w

  unfoldable pub receive_all : KeyRing → List Request → World → World
  unfolding receive
  receive_all ring [] w = w
  receive_all ring (r ∷ rs) w = receive_all ring rs (receive ring r w)

  -- `str.strip`
  skip_spaces : String → String
  skip_spaces String.[] = String.[]
  skip_spaces (String.◌∷◌ c s) =
      let rest = skip_spaces s in if env.is_space c then rest else String.◌∷◌ c s

  strip_end : String → String
  strip_end String.[] = String.[]
  strip_end (String.◌∷◌ c s) =
      let rest = strip_end s in
      if str_eq rest "" && env.is_space c then String.[] else String.◌∷◌ c rest

  -- `text.split(",")[0]`
  first_field : String → String
  first_field String.[] = String.[]
  first_field (String.◌∷◌ c s) =
      let rest = first_field s in if code c == b',' then String.[] else String.◌∷◌ c rest

  -- `forwarded` is the header X-Forwarded-For, and `host` the peer.
  unfoldable pub client_ip : Option String → Option String → Option String
  unfolding skip_spaces strip_end first_field
  client_ip none host = host
  client_ip (some String.[]) host = host
  client_ip (some (String.◌∷◌ c s)) host =
      some (strip_end (skip_spaces (first_field (String.◌∷◌ c s))))

  -- The requests whose bodies are accepted.
  accepted : List Request → List Request
  accepted [] = []
  accepted (r ∷ rs) = let rest = accepted rs in if is_valid r then r ∷ rest else rest

  -- A request that is refused is as if it were not sent.
  serve-accepted :
      (ring : KeyRing) (requests : List Request) (w : World)
      → receive_all ring requests w ≡ serve ring (accepted requests) w
  unfolding receive_all receive accepted serve
  serve-accepted ring [] w = refl
  serve-accepted ring (r ∷ rs) w = elim (Bool-cases (is_valid r)) [
    | inl e ↦ rw e (serve-accepted ring rs (handle ring r w))
    | inr e ↦ rw e (serve-accepted ring rs w)
  ]

-- An address: a text without commas and without white space.
module _ ⦃env : Env⦄ where
  abbrev is_address : String → Bool
  is_address String.[] = true
  is_address (String.◌∷◌ c s) = not (code c == b',') && not (env.is_space c) && is_address s

  abbrev before_comma : String → String → String
  before_comma String.[] rest = String.◌∷◌ "," rest
  before_comma (String.◌∷◌ c s) rest = String.◌∷◌ c (before_comma s rest)

  first_field-before_comma :
      (ip rest : String) → is_address ip ≡ true → first_field (before_comma ip rest) ≡ ip
  unfolding first_field
  first_field-before_comma String.[] rest h = refl
  first_field-before_comma (String.◌∷◌ c s) rest h =
      let i = first_field-before_comma s rest (ground (arith, h)) in ground (arith, h, i)

  strip_end_address : (ip : String) → is_address ip ≡ true → strip_end ip ≡ ip
  unfolding strip_end
  strip_end_address String.[] h = refl
  strip_end_address (String.◌∷◌ c s) h =
      let i = strip_end_address s (ground (arith, h)) in ground (arith, h, i)

  skip_spaces_address : (ip : String) → is_address ip ≡ true → skip_spaces ip ≡ ip
  unfolding skip_spaces
  skip_spaces_address String.[] h = refl
  skip_spaces_address (String.◌∷◌ c s) h = ground (arith, h)

  -- Behind a gateway the address that is counted is the first one of the header, whoever the peer
  -- is.
  client_ip_first :
      (ip rest : String) (host : Option String)
      → is_address ip ≡ true
      → client_ip (some (before_comma ip rest)) host ≡ some ip
  unfolding client_ip first_field
  client_ip_first String.[] rest host h = refl
  client_ip_first (String.◌∷◌ c s) rest host h =
      let ip = String.◌∷◌ c s in
      ap (λ t. some (strip_end (skip_spaces t))) (first_field-before_comma ip rest h)
      ∙ ap (λ t. some (strip_end t)) (skip_spaces_address ip h)
      ∙ ap some (strip_end_address ip h)
