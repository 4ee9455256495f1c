-- ===== src/Platform/Environment.antt =====
-- The code outside the repository, as a parameter of every definition that calls it. A source
-- of time, randomness or ids is a function of the number of the call. The Redis server is a
-- function of the commands sent to it so far, the last one first: it may answer anything, and
-- may fail at every command (`none`, or `false`).
use Prim.Native.Char.{Char}
use diddifree_id.Prelude.{ℕ, ◌*◌, ◌/◌, String, Bool, Option, List}
use diddifree_id.Platform.Settings.{Settings}
use diddifree_id.Platform.Redis.{RedisCall, RedisValue, TtlReply}

-- An instant as a JWT carries it: `jwt.encode` cuts `iat` and `exp` to whole seconds.
abbrev pub whole_second : ℕ → ℕ
whole_second t = t / 1000000 * 1000000

-- The payload of an access token that is handed to `jwt.encode`, with the datetimes as they are.
pub record Claims : Type 0 where
  pub sub : String
  pub role : String
  pub status : String
  pub iss : String
  pub iat : ℕ
  pub exp : ℕ
  -- the name of a service, in its tokens only
  pub service : Option String

-- The payload of a token that was verified: `none` is a claim that it lacks.
pub record DecodedClaims : Type 0 where
  pub sub : Option String
  pub role : Option String
  pub status : Option String

pub data JwtResult : Type 0 where
  decoded : DecodedClaims → JwtResult
  expired_signature : JwtResult
  invalid_token : JwtResult

pub record Env : Type 0 where
  pub settings : Settings
  -- `datetime.now(UTC)`, `uuid4()`, `randbelow(n)`, `token_urlsafe(n)`
  pub clock : ℕ → ℕ
  pub uuid4 : ℕ → ℕ
  pub random_below : ℕ → ℕ → ℕ
  pub token_urlsafe : ℕ → ℕ → String
  -- `str(uuid)`, and `UUID(text)` with `none` for the `ValueError`
  pub uuid_text : ℕ → String
  pub uuid_of_text : String → Option ℕ
  -- `uuid5(NAMESPACE_URL, name)`
  pub uuid5 : String → ℕ
  -- `sha256(text).hexdigest()`, and `hmac.new(key, text, sha256).hexdigest()`
  pub sha256_hex : String → String
  pub hmac_hex : String → String → String
  -- `jwt.encode(payload, key, headers={"kid": kid})`
  pub jwt_encode : Claims → String → String → String
  -- `jwt.get_unverified_header(token).get("kid")`, `none` if the token is malformed
  pub jwt_kid : String → Option (Option String)
  -- `jwt.decode(token, key, issuer=...)` at an instant
  pub jwt_decode : ℕ → String → String → String → JwtResult
  -- the files of the key paths
  pub read_file : String → Option String
  -- `load_pem_public_key(pem).public_numbers()` as `(n, e)`, `none` for a text that is no PEM or a
  -- key that is not RSA; `urlsafe_b64encode(raw).decode().rstrip("=")`
  pub rsa_public_numbers : String → Option (ℕ × ℕ)
  pub b64url : List ℕ → String
  -- `str.isspace` and the class `\d`, of one character
  pub is_space : Char → Bool
  pub is_decimal : Char → Bool
  -- the replies of Redis, and whether a command that replies nothing of interest went through
  pub redis_get : List RedisCall → Option (Option RedisValue)
  pub redis_ttl : List RedisCall → Option TtlReply
  pub redis_incr : List RedisCall → Option ℕ
  pub redis_done : List RedisCall → Bool
