-- ===== src/Contract/Agreement.antt =====
-- The service and a module that verifies by its published keys, on the same token.
use diddifree_id.Prelude.{
  ℕ, ◌+◌, ◌≡◌, refl, sym, ◌∙◌, String, Option, none, some, List, [], ◌∷◌, str_eq, arith, eq_iff,
  inl, inr, ◌⊎◌, find_first, Option-cases, Bool-cases, if◌then◌else◌,
}
use diddifree_id.Platform.Environment.{
  Env, DecodedClaims, JwtResult, decoded, expired_signature, invalid_token,
}
use diddifree_id.Platform.Monad.{World, Result, ErrorCode, ok, err, api_error}
use diddifree_id.Infra.TokenService.{KeyRing, PublicKeyEntry, has_kid, decode_access_token}
use diddifree_id.Infra.Keys.{Jwk, Loaded, RuntimeError, loaded, refused, to_jwk, to_jwks, jwks}
use diddifree_id.Contract.Verifier.{
  Network, Verifier, VerifiedIdentity, Verdict, IdentityError, returned, raised, assign_key,
  key_for, parse_keys, refresh, find_key, verify, judge, usable_kid,
}
use diddifree_id.Contract.Traffic.{issuer-find_key}

-- No two entries of a ring have the same kid.
abbrev pub AreDistinct : List PublicKeyEntry → Type 0
AreDistinct [] = Unit
AreDistinct (e ∷ es) = (find_first (has_kid (some e.kid)) es ≡ none) × AreDistinct es

abbrev pem_or : Option PublicKeyEntry → Option String → Option String
pem_or none other = other
pem_or (some e) other = some e.pem

key_for-assign_key :
    (kid k x : String) (keys : List (String × String))
    → key_for kid (assign_key k x keys) ≡ (if str_eq k kid then some x else key_for kid keys)
unfolding key_for assign_key
key_for-assign_key kid k x [] = refl
key_for-assign_key kid k x ((j, y) ∷ rest) =
    ground (arith, key_for-assign_key kid k x rest, eq_iff j k, eq_iff k kid, eq_iff j kid)

find_first_no_kid : (es : List PublicKeyEntry) → find_first (has_kid none) es ≡ none
unfolding find_first
find_first_no_kid [] = refl
find_first_no_kid (e ∷ es) = find_first_no_kid es

-- A dictionary that a module parsed from published entries, over one that it had.
record IsParsed ⦃net : Network⦄ (es : List PublicKeyEntry) (document : List Jwk)
    (before : List (String × String)) : Type 0 where
  keys : List (String × String)
  parsed : parse_keys document before ≡ some keys
  looked_up :
      (kid : String)
      → key_for kid keys ≡ pem_or (find_first (has_kid (some kid)) es) (key_for kid before)

Loaded-cases :
    {A : Type 0} (r : Loaded A)
    → ((a : A) × (r ≡ loaded a)) ⊎ ((e : RuntimeError) × (r ≡ refused e))
Loaded-cases (loaded a) = inl (a, refl)
Loaded-cases (refused e) = inr (e, refl)

module _ ⦃env : Env⦄ ⦃net : Network⦄ where
  -- `PyJWK.from_dict` gives back the key that an entry was made of.
  abbrev pub AreReadBack : List PublicKeyEntry → Type 0
  AreReadBack [] = Unit
  AreReadBack (e ∷ es) =
      ((j : Jwk) × ((to_jwk e ≡ loaded j) × (net.key_of j ≡ some e.pem))) × AreReadBack es

  kid-to_jwk : (e : PublicKeyEntry) (j : Jwk) → to_jwk e ≡ loaded j → j.kid ≡ e.kid
  unfolding to_jwk
  kid-to_jwk e j h = ground (arith, h)

  parse_published :
      (es : List PublicKeyEntry) (document : List Jwk) (before : List (String × String))
      → to_jwks es ≡ loaded document
      → AreDistinct es
      → AreReadBack es
      → IsParsed es document before
  unfolding to_jwks parse_keys find_first
  parse_published [] document before h d r = record {
    keys = before;
    parsed = ground (arith, h);
    looked_up = λ kid. refl;
  }
  parse_published (e ∷ es) document before h d ((j, (q, r)), rs) =
      elim (Loaded-cases (to_jwks es)) [
        | inr (x, l) ↦ absurd (ground (arith, h, q, l))
        | inl (rest, l) ↦
            let g : document ≡ j ∷ rest = ground (arith, h, q, l) in
            let k = kid-to_jwk e j q in
            let p = parse_published es rest (assign_key e.kid e.pem before) l d.1 rs in
            record {
              keys = p.keys;
              parsed = ground (arith, g, r, k, p.parsed);
              looked_up = λ kid. ground (
                arith,
                p.looked_up kid,
                key_for-assign_key kid e.kid e.pem before,
                d.0,
                eq_iff e.kid kid,
              );
            }
      ]

-- A reply of the service as a module sees it.
abbrev pub module_view : ⦃env : Env⦄ → Verifier → Result DecodedClaims → Verdict VerifiedIdentity
module_view v (ok c) = (judge c v).0
module_view v (err (api_error e)) = elim e.code [
  | ErrorCode.token_expired ↦ raised IdentityError.token_expired
  | _ ↦ raised IdentityError.token_invalid
]
module_view v (err _) = raised IdentityError.token_invalid

-- The verdict on a token that could be looked up.
abbrev read_verdict : ⦃env : Env⦄ → Verifier → JwtResult → Verdict VerifiedIdentity
read_verdict v (decoded c) = (judge c v).0
read_verdict v expired_signature = raised IdentityError.token_expired
read_verdict v invalid_token = raised IdentityError.token_invalid

module _ ⦃env : Env⦄ ⦃net : Network⦄ where
  -- The verdict does not depend on the state of the verifier.
  judge_state : (c : DecodedClaims) (v v' : Verifier) → (judge c v).0 ≡ (judge c v').0
  unfolding judge
  judge_state c v v' = ground arith

  module _ (token kid key : String) (v : Verifier) where
    verify_found_key :
        (r : JwtResult)
        → usable_kid (env.jwt_kid token) ≡ some kid
        → (find_key kid v).0 ≡ returned key
        → env.jwt_decode (net.wall_clock (find_key kid v).1.ticks) token key v.issuer ≡ r
        → (verify token v).0 ≡ read_verdict v r
    unfolding verify
    verify_found_key (decoded c) u k d =
        let i = issuer-find_key kid v in
        let last = record (find_key kid v).1 { ticks = (find_key kid v).1.ticks + 1 } in
        let q : (verify token v).0 ≡ (judge c last).0 = ground (arith, u, k, d, i) in
        q ∙ judge_state c last v
    verify_found_key expired_signature u k d = ground (arith, u, k, d, issuer-find_key kid v)
    verify_found_key invalid_token u k d = ground (arith, u, k, d, issuer-find_key kid v)

  decode_access_token_found :
      (ring : KeyRing) (token kid : String) (entry : PublicKeyEntry) (v : Verifier) (w : World)
      (r : JwtResult)
      → env.jwt_kid token ≡ some (some kid)
      → find_first (has_kid (some kid)) ring.public_keys ≡ some entry
      → env.jwt_decode (env.clock w.draws) token entry.pem env.settings.jwt_issuer ≡ r
      → module_view v (decode_access_token ring token w).0 ≡ read_verdict v r
  unfolding decode_access_token
  decode_access_token_found ring token kid entry v w (decoded c) h e d = ground (arith, h, e, d)
  decode_access_token_found ring token kid entry v w expired_signature h e d =
      ground (arith, h, e, d)
  decode_access_token_found ring token kid entry v w invalid_token h e d = ground (arith, h, e, d)

module _ ⦃env : Env⦄ ⦃net : Network⦄ (ring : KeyRing) (document : List Jwk) (v : Verifier)
    (served : jwks ring ≡ loaded document) (fetched : (n : ℕ) → net.fetch n ≡ some document)
    (distinct : AreDistinct ring.public_keys) (read_back : AreReadBack ring.public_keys)
    (started : v.keys ≡ []) where
  published : IsParsed ring.public_keys document []
  unfolding jwks
  published = parse_published ring.public_keys document [] served distinct read_back

  find_key_published :
      (kid : String)
      → (find_key kid v).0 ≡ elim (find_first (has_kid (some kid)) ring.public_keys) [
        | none ↦ raised IdentityError.token_invalid
        | some e ↦ returned e.pem
      ]
  unfolding find_key refresh key_for
  find_key_published kid = ground (
    arith,
    started,
    fetched v.fetches,
    fetched (v.fetches + 1),
    published.parsed,
    published.looked_up kid,
  )

  module _ (token : String) (w : World)
      (no_empty_kid : find_first (has_kid (some "")) ring.public_keys ≡ none)
      (same_issuer : v.issuer ≡ env.settings.jwt_issuer)
      (same_instant : (n : ℕ) → net.wall_clock n ≡ env.clock w.draws) where
    -- A token with a kid that is not empty.
    verify_kid :
        (kid : String)
        → env.jwt_kid token ≡ some (some kid)
        → usable_kid (env.jwt_kid token) ≡ some kid
        → (verify token v).0 ≡ module_view v (decode_access_token ring token w).0
    unfolding verify decode_access_token
    verify_kid kid h u = elim (Option-cases (find_first (has_kid (some kid)) ring.public_keys)) [
      | inl e ↦ ground (arith, h, u, e, find_key_published kid)
      | inr (entry, e) ↦
          let found : (find_key kid v).0 ≡ returned entry.pem =
            ground (arith, e, find_key_published kid) in
          let r = env.jwt_decode (env.clock w.draws) token entry.pem env.settings.jwt_issuer in
          let t = same_instant (find_key kid v).1.ticks in
          verify_found_key token kid entry.pem v r u found (rw (t, same_issuer) refl)
          ∙ sym (decode_access_token_found ring token kid entry v w r h e refl)
    ]

    -- A module that starts with no keys and fetches the document of a key ring reaches the
    -- verdict on a token that the service reaches with that ring at the same instant: the
    -- identity that the claims of the service give, token_expired where the service says so, and
    -- token_invalid for every other refusal. The ring has no two entries with one kid and none
    -- with an empty kid, PyJWK gives back the keys, and both have the same issuer.
    pub verify_agrees : (verify token v).0 ≡ module_view v (decode_access_token ring token w).0
    unfolding verify decode_access_token
    verify_agrees = elim (Option-cases (env.jwt_kid token)) [
      | inl e ↦ ground (arith, e)
      | inr (none, e) ↦ ground (arith, e, find_first_no_kid ring.public_keys)
      | inr (some kid, e) ↦ elim (Bool-cases (str_eq kid "")) [
        | inl q ↦ let k : kid ≡ "" = (eq_iff kid "").0 q in ground (arith, e, k, no_empty_kid)
        | inr q ↦ verify_kid kid e (ground (arith, e, q))
      ]
    ]
