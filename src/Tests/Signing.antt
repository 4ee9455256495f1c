-- ===== src/Tests/Signing.antt =====
-- Tokens that are texts of their claims, and the theorems on tokens and keys at work on them.
use Prim.Native.Char.{Char, code}
use diddifree_id.Prelude.{◌≡◌, refl, ap, String, Option, none, some, arith, ◌==◌, if◌then◌else◌}
use diddifree_id.Platform.Environment.{Env, JwtResult, decoded, invalid_token}
use diddifree_id.Infra.Keys.Loading.{IsKeyPair}
use diddifree_id.Tests.Demo.{demo}

-- A text in front of another one: each of its characters after an `x`, and an end.
abbrev pub framed : String → String → String
framed String.[] rest = String.◌∷◌ "o" rest
framed (String.◌∷◌ c s) rest = String.◌∷◌ "x" (String.◌∷◌ c (framed s rest))

abbrev after_char : Char → Option (String × String) → Option (String × String)
after_char c none = none
after_char c (some (s, rest)) = some (String.◌∷◌ c s, rest)

-- The first text, and what comes after it.
unfoldable pub unframed : String → Option (String × String)
unframed String.[] = none
unframed (String.◌∷◌ x String.[]) = if code x == 111 then some ("", "") else none
unframed (String.◌∷◌ x (String.◌∷◌ c s)) =
    let later = after_char c (unframed s) in
    if code x == 111 then some ("", String.◌∷◌ c s) else later

unframed-framed : (s rest : String) → unframed (framed s rest) ≡ some (s, rest)
unfolding unframed
unframed-framed String.[] String.[] = refl
unframed-framed String.[] (String.◌∷◌ c r) = refl
unframed-framed (String.◌∷◌ c s) rest = ap (after_char c) (unframed-framed s rest)

abbrev read_status : String → String → Option (String × String) → JwtResult
read_status sub role none = invalid_token
read_status sub role (some (status, rest)) =
    decoded (record { sub = some sub; role = some role; status = some status })

abbrev read_role : String → Option (String × String) → JwtResult
unfolding unframed
read_role sub none = invalid_token
read_role sub (some (role, rest)) = read_status sub role (unframed rest)

read_sub : Option (String × String) → JwtResult
unfolding read_role
read_sub none = invalid_token
read_sub (some (sub, rest)) = read_role sub (unframed rest)

unfoldable pub read_claims : Option (String × String) → JwtResult
unfolding read_sub
read_claims none = invalid_token
read_claims (some (kid, rest)) = read_sub (unframed rest)

unfoldable pub read_kid : Option (String × String) → Option (Option String)
read_kid none = none
read_kid (some (kid, rest)) = some (some kid)

-- A file holds its path, and a token its kid, its subject, its role and its status. No token
-- expires, and the clock stands still.
abbrev pub signing : Env
signing = record demo {
  clock = λ n. 1000;
  jwt_encode = λ c k kid. framed kid (framed c.sub (framed c.role (framed c.status "")));
  jwt_kid = λ t. read_kid (unframed t);
  jwt_decode = λ instant t k iss. read_claims (unframed t);
  read_file = λ path. some path;
}

pub signing-IsKeyPair : (private public : String) → IsKeyPair ⦃env = signing⦄ private public
unfolding read_claims read_kid
signing-IsKeyPair private public = record {
  header = λ c kid.
      ground (arith, unframed-framed kid (framed c.sub (framed c.role (framed c.status ""))));
  verified = λ t c kid le lt. ground (
    arith,
    unframed-framed kid (framed c.sub (framed c.role (framed c.status ""))),
    unframed-framed c.sub (framed c.role (framed c.status "")),
    unframed-framed c.role (framed c.status ""),
    unframed-framed c.status "",
  );
}
