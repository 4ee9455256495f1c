-- ===== src/Contract/Verifier.antt =====
-- identity_app/shared_kernel/contracts/identity_provider.py: `JwksIdentityVerifier`.
use diddifree_id.Prelude.{
  ℕ, ◌+◌, ◌-◌, String, Bool, true, false, ◌||◌, Option, none, some, List, [], ◌∷◌, str_eq, ltb,
  is_some, not, or_else, if◌then◌else◌,
}
use diddifree_id.Platform.Environment.{
  Env, DecodedClaims, JwtResult, decoded, expired_signature, invalid_token,
}
use diddifree_id.Infra.Keys.{Jwk}

-- The network and the clock of a consuming service, by the number of the call. `fetch` is the
-- reply to `GET /.well-known/jwks.json`: `none` is an error of the transport, of the status or of
-- the JSON text. `key_of` is `PyJWK.from_dict`, `none` its refusal; a key is the text of its PEM.
pub record Network : Type 0 where
  pub fetch : ℕ → Option (List Jwk)
  pub key_of : Jwk → Option String
  pub monotonic : ℕ → ℕ
  pub wall_clock : ℕ → ℕ

pub data IdentityError : Type 0 where
  token_expired token_invalid user_not_active : IdentityError
  -- what `_refresh` lets through, and the `KeyError` of a token without `role`
  refresh_failed : IdentityError
  missing_role : IdentityError

pub record VerifiedIdentity : Type 0 where
  pub user_id : ℕ
  pub role : String
  pub status : String

-- `fetches` and `ticks` count the requests and the readings of the clocks.
pub record Verifier : Type 0 where
  pub keys : List (String × String)
  pub fetched_at : ℕ
  pub issuer : String
  pub ttl : ℕ
  pub fetches : ℕ
  pub ticks : ℕ

-- `__init__`
abbrev pub new_verifier : String → ℕ → Verifier
new_verifier issuer ttl = record {
  keys = [];
  fetched_at = 0;
  issuer = issuer;
  ttl = ttl;
  fetches = 0;
  ticks = 0;
}

pub data Verdict (A : Type 0) : Type 0 where
  returned : A → Verdict A
  raised : IdentityError → Verdict A

abbrev pub V : Type 0 → Type 0
V A = Verifier → Verdict A × Verifier

infixl 5 ◌>>=◌ ◌>>◌
abbrev pub ◌>>=◌ : {A B : Type 0} → V A → (A → V B) → V B
◌>>=◌ m f v = let (r, v') = m v in elim r [ returned a ↦ f a v' | raised e ↦ (raised e, v') ]

abbrev pub ◌>>◌ : {A B : Type 0} → V A → V B → V B
m >> k = m >>= λ _. k

module _ {A : Type 0} where
  abbrev pub give : A → V A
  give a v = (returned a, v)

  abbrev pub fail : IdentityError → V A
  fail e v = (raised e, v)

  abbrev pub or_fail : Option A → IdentityError → V A
  or_fail none e = fail e
  or_fail (some a) e = give a

abbrev pub read_clock : (ℕ → ℕ) → V ℕ
read_clock clock v = (returned (clock v.ticks), record v { ticks = v.ticks + 1 })

-- A dictionary: an assignment over a key that is there keeps its place.
unfoldable pub assign_key : String → String → List (String × String) → List (String × String)
assign_key kid key [] = (kid, key) ∷ []
assign_key kid key ((k, x) ∷ rest) =
    let later = assign_key kid key rest in if str_eq k kid then (k, key) ∷ rest else (k, x) ∷ later

unfoldable pub key_for : String → List (String × String) → Option String
key_for kid [] = none
key_for kid ((k, x) ∷ rest) = let later = key_for kid rest in if str_eq k kid then some x else later

abbrev pub has_keys : List (String × String) → Bool
has_keys [] = false
has_keys (k ∷ ks) = true

module _ ⦃net : Network⦄ where
  -- `{jwk["kid"]: PyJWK.from_dict(jwk) for jwk in ...}`
  unfoldable pub parse_keys : List Jwk → List (String × String) → Option (List (String × String))
  unfolding assign_key
  parse_keys [] keys = some keys
  parse_keys (jwk ∷ jwks) keys = elim (net.key_of jwk) [
    | none ↦ none
    | some key ↦ parse_keys jwks (assign_key jwk.kid key keys)
  ]

  get_document : V (Option (List Jwk))
  get_document v = (returned (net.fetch v.fetches), record v { fetches = v.fetches + 1 })

  abbrev parsed : Option (List Jwk) → Option (List (String × String))
  parsed none = none
  parsed (some document) = parse_keys document []

  abbrev store_keys : List (String × String) → ℕ → V Unit
  store_keys keys at v = (returned tt, record v { keys = keys; fetched_at = at })

  unfoldable pub refresh : V Unit
  unfolding get_document parse_keys
  refresh = do
    document ← get_document
    keys ← or_fail (parsed document) refresh_failed
    at ← read_clock net.monotonic
    store_keys keys at

  refresh_if : Bool → V Unit
  unfolding refresh
  refresh_if true = refresh
  refresh_if false = give tt

  -- `not self._keys or stale`, and `kid not in self._keys`
  needs_refresh : ℕ → V Bool
  needs_refresh now v = (returned (not (has_keys v.keys) || ltb v.ttl (now - v.fetched_at)), v)

  is_unknown : String → V Bool
  unfolding key_for
  is_unknown kid v = (returned (not (is_some (key_for kid v.keys))), v)

  look_up : String → V (Option String)
  unfolding key_for
  look_up kid v = (returned (key_for kid v.keys), v)

  unfoldable pub find_key : String → V String
  unfolding needs_refresh is_unknown look_up refresh_if
  find_key kid = do
    now ← read_clock net.monotonic
    due ← needs_refresh now
    refresh_if due
    unknown ← is_unknown kid
    refresh_if unknown
    key ← look_up kid
    or_fail key token_invalid

-- `header.get("kid")` if it is true in a condition.
abbrev pub usable_kid : Option (Option String) → Option String
usable_kid none = none
usable_kid (some none) = none
usable_kid (some (some kid)) = if str_eq kid "" then none else some kid

-- What `verify` makes of the result of `jwt.decode`.
abbrev pub read_result : JwtResult → V DecodedClaims
read_result (decoded c) = give c
read_result expired_signature = fail token_expired
read_result invalid_token = fail token_invalid

module _ ⦃env : Env⦄ where
  abbrev pub subject_id : Option String → Option ℕ
  subject_id none = none
  subject_id (some s) = env.uuid_of_text s

  -- What `verify` makes of the claims of a token that it could decode.
  unfoldable pub judge : DecodedClaims → V VerifiedIdentity
  judge claims =
      let status = or_else claims.status "active" in
      if str_eq status "active"
      then (do
        user_id ← or_fail (subject_id claims.sub) token_invalid
        role ← or_fail claims.role missing_role
        give (record { user_id = user_id; role = role; status = status }))
      else fail user_not_active

  module _ ⦃net : Network⦄ where
    decode_with : String → String → V DecodedClaims
    decode_with token key v =
        let now = net.wall_clock v.ticks in
        read_result (env.jwt_decode now token key v.issuer) (record v { ticks = v.ticks + 1 })

    unfoldable pub verify : String → V VerifiedIdentity
    unfolding find_key decode_with judge
    verify token = do
      kid ← or_fail (usable_kid (env.jwt_kid token)) token_invalid
      key ← find_key kid
      claims ← decode_with token key
      judge claims
