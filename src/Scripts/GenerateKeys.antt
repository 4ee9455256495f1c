-- ===== src/Scripts/GenerateKeys.antt =====
-- scripts/generate_keys.py: `generate`, and the service started with what it writes.
use Prim.Native.String.{◌++◌ as str_append}
use text.Mathlib.TextLemmas.{append_cancel_left}
use diddifree_id.Prelude.{
  String, Bool, true, false, ◌&&◌, not, Option, none, some, List, [], ◌∷◌, ◌≡◌, ◌≢◌, str_eq, eq_iff,
  is_some, if◌then◌else◌, arith,
}
use diddifree_id.Platform.Environment.{Env}
use diddifree_id.Infra.Keys.{loaded, get_key_ring}

-- The files, by their paths.
abbrev pub Files : Type 0
Files = String → Option String

abbrev pub write_bytes : String → String → Files → Files
write_bytes path content files p = if str_eq p path then some content else files p

-- `rsa.generate_private_key`, with both keys as PEM.
pub record RsaKey : Type 0 where
  pub private_pem : String
  pub public_pem : String

-- The lines to add to `.env`.
pub record EnvLines : Type 0 where
  pub jwt_private_key_path : String
  pub jwt_public_key_path : String
  pub jwt_active_kid : String

pub data Outcome : Type 0 where
  wrote : EnvLines → Outcome
  system_exit : (existing : List String) → Outcome

abbrev pub private_path : String → String
private_path out_dir = str_append out_dir "/private.pem"

abbrev pub public_path : String → String
public_path out_dir = str_append out_dir "/public.pem"

abbrev keep_existing : Files → List String → List String
keep_existing files [] = []
keep_existing files (p ∷ ps) =
    let rest = keep_existing files ps in if is_some (files p) then p ∷ rest else rest

abbrev none_exist : List String → Bool
none_exist [] = true
none_exist (p ∷ ps) = false

unfoldable pub generate : String → String → Bool → RsaKey → Files → Outcome × Files
generate out_dir kid force key files =
    let existing = keep_existing files (private_path out_dir ∷ public_path out_dir ∷ []) in
    if not (none_exist existing) && not force then (system_exit existing, files) else (
      wrote (record {
        jwt_private_key_path = private_path out_dir;
        jwt_public_key_path = public_path out_dir;
        jwt_active_kid = kid;
      }),
      write_bytes (public_path out_dir) key.public_pem
          (write_bytes (private_path out_dir) key.private_pem files),
    )

-- Whoever does not force it overwrites no file.
pub generate_keeps :
    (out_dir kid : String) (key : RsaKey) (files : Files) (path : String) {content : String}
    → files path ≡ some content
    → (generate out_dir kid false key files).1 path ≡ some content
unfolding generate
generate_keeps out_dir kid key files path h =
    ground (arith, h, eq_iff path (private_path out_dir), eq_iff path (public_path out_dir))

path-ne : (out_dir : String) → private_path out_dir ≢ public_path out_dir
path-ne out_dir h = absurd (
    ground (
      arith,
      eq_iff "/private.pem" "/public.pem",
      append_cancel_left out_dir "/private.pem" "/public.pem" h,
    ))

-- The service with the lines in its `.env`, and no rotation.
abbrev pub configured : Env → Files → EnvLines → Env
configured env files lines = record env {
  read_file = files;
  settings = record env.settings {
    jwt_private_key_path = lines.jwt_private_key_path;
    jwt_public_key_path = lines.jwt_public_key_path;
    jwt_active_kid = lines.jwt_active_kid;
    jwt_previous_public_key_path = none;
    jwt_previous_kid = none;
  };
}

-- What is on disk once the lines are printed.
generate_wrote :
    (out_dir kid : String) (force : Bool) (key : RsaKey) (files : Files) {lines : EnvLines}
    {files' : Files}
    → generate out_dir kid force key files ≡ (wrote lines, files')
    → (lines.jwt_active_kid ≡ kid)
      × (files' lines.jwt_private_key_path ≡ some key.private_pem)
      × (files' lines.jwt_public_key_path ≡ some key.public_pem)
unfolding generate
generate_wrote out_dir kid force key files h =
    let private = private_path out_dir in
    let public = public_path out_dir in
    ground (
      arith,
      h,
      path-ne out_dir,
      eq_iff private public,
      eq_iff private private,
      eq_iff public public,
    )

-- If the script wrote a pair of keys, the service with the printed lines in its settings, no
-- rotation and those files loads the ring of that pair under the kid that was asked for.
pub get_key_ring-generate :
    (env : Env) (out_dir kid : String) (force : Bool) (key : RsaKey) (files : Files)
    {lines : EnvLines} {files' : Files}
    → generate out_dir kid force key files ≡ (wrote lines, files')
    → get_key_ring ⦃env = configured env files' lines⦄
      ≡ loaded (record {
        active_kid = kid;
        private_pem = key.private_pem;
        public_keys = (record { kid = kid; pem = key.public_pem }) ∷ [];
      })
unfolding get_key_ring
get_key_ring-generate env out_dir kid force key files h =
    let (k, p, q) = generate_wrote out_dir kid force key files h in ground (arith, k, p, q)
