-- ===== src/Infra/Keys.antt =====
-- identity_app/core/keys.py: the loading of the key ring, and the document of its public keys,
-- which queries/get_jwks.py serves.
pub mod Loading
pub mod Bytes
use diddifree_id.Prelude.{
  ℕ, zero, suc, ◌/◌, ◌%◌, String, Bool, true, false, ◌&&◌, ◌||◌, Option, none, some, List, [], ◌∷◌,
  ◌++◌, ◌==◌, str_eq, if◌then◌else◌,
}
use diddifree_id.Platform.Environment.{Env}
use diddifree_id.Infra.TokenService.{KeyRing, PublicKeyEntry}

-- The `RuntimeError` of a start that is refused.
pub data RuntimeError : Type 0 where
  file_not_found : (path : String) → RuntimeError
  half_configured_rotation : RuntimeError
  not_an_rsa_key : (kid : String) → RuntimeError

pub data Loaded (A : Type 0) : Type 0 where
  loaded : A → Loaded A
  refused : RuntimeError → Loaded A

infixl 5 ◌>>=◌
abbrev pub ◌>>=◌ : {A B : Type 0} → Loaded A → (A → Loaded B) → Loaded B
loaded a >>= f = f a
refused e >>= f = refused e

-- Whether an optional text is true in a condition.
abbrev pub is_set : Option String → Bool
is_set none = false
is_set (some s) = if str_eq s "" then false else true

abbrev pub text_of : Option String → String
text_of none = ""
text_of (some s) = s

-- `value.to_bytes((value.bit_length() + 7) // 8, "big")`, with fuel for the digits.
unfoldable pub to_bytes : ℕ → ℕ → List ℕ
to_bytes zero value = []
to_bytes (suc fuel) value = elim (value == 0) [
  | true ↦ []
  | false ↦ to_bytes fuel (value / 256) ++ (value % 256) ∷ []
]

-- An entry of the document.
pub record Jwk : Type 0 where
  pub kid : String
  pub kty : String
  pub usage : String
  pub alg : String
  pub n : String
  pub e : String

module _ ⦃env : Env⦄ where
  unfoldable pub b64url_uint : ℕ → String
  unfolding to_bytes
  b64url_uint value = env.b64url (to_bytes value value)

  read : String → Loaded String
  read path = elim (env.read_file path) [
    | none ↦ refused (file_not_found path)
    | some text ↦ loaded text
  ]

  abbrev pub jwk_of : String → ℕ × ℕ → Jwk
  jwk_of kid numbers = record {
    kid = kid;
    kty = "RSA";
    usage = "sig";
    alg = "RS256";
    n = b64url_uint numbers.0;
    e = b64url_uint numbers.1;
  }

  unfoldable pub to_jwk : PublicKeyEntry → Loaded Jwk
  to_jwk entry = elim (env.rsa_public_numbers entry.pem) [
    | none ↦ refused (not_an_rsa_key entry.kid)
    | some numbers ↦ loaded (jwk_of entry.kid numbers)
  ]

  unfoldable pub to_jwks : List PublicKeyEntry → Loaded (List Jwk)
  unfolding to_jwk
  to_jwks [] = loaded []
  to_jwks (entry ∷ entries) = do jwk ← to_jwk entry; rest ← to_jwks entries; loaded (jwk ∷ rest)

  -- `KeyRing.jwks`, `TokenService.jwks` and `GetJwks`: the document is its list `keys`.
  unfoldable pub jwks : KeyRing → Loaded (List Jwk)
  unfolding to_jwks
  jwks ring = to_jwks ring.public_keys

  -- The entries of the ring: the active key, and the previous one during a rotation.
  previous_entries : Loaded (List PublicKeyEntry)
  unfolding read
  previous_entries =
      if is_set env.settings.jwt_previous_public_key_path && is_set env.settings.jwt_previous_kid
      then (do
        pem ← read (text_of env.settings.jwt_previous_public_key_path)
        loaded ((record { kid = text_of env.settings.jwt_previous_kid; pem = pem }) ∷ []))
      else if is_set env.settings.jwt_previous_public_key_path
          || is_set env.settings.jwt_previous_kid
      then refused half_configured_rotation
      else loaded []

  unfoldable pub get_key_ring : Loaded KeyRing
  unfolding read previous_entries
  get_key_ring = do
    private_pem ← read env.settings.jwt_private_key_path
    public_pem ← read env.settings.jwt_public_key_path
    previous ← previous_entries
    loaded (record {
      active_kid = env.settings.jwt_active_kid;
      private_pem = private_pem;
      public_keys = (record { kid = env.settings.jwt_active_kid; pem = public_pem }) ∷ previous;
    })
