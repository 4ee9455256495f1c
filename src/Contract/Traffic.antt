-- ===== src/Contract/Traffic.antt =====
-- The network traffic of a verification, and who passes it.
use diddifree_id.Prelude.{
  ℕ, ◌+◌, ◌-◌, ◌≤◌, ◌<◌, ◌∙◌, ◌≡◌, refl, sym, subst, Bool-cases, String, true, false, none, some,
  List, str_eq, ltb, arith, eq_iff, Option-cases, inl, inr, ◌⊎◌, [], ◌∷◌, or_else,
}
use diddifree_id.Platform.Environment.{
  Env, DecodedClaims, JwtResult, decoded, expired_signature, invalid_token,
}
use diddifree_id.Contract.Verifier.{
  Network, Verifier, VerifiedIdentity, Verdict, IdentityError, returned, raised, refresh, find_key,
  verify, judge, key_for, has_keys, usable_kid, subject_id,
}

has_keys-key_for :
    (kid : String) (keys : List (String × String)) {key : String}
    → key_for kid keys ≡ some key
    → has_keys keys ≡ true
unfolding key_for
has_keys-key_for kid [] h = absurd (ground (arith, h))
has_keys-key_for kid (k ∷ ks) h = refl

module _ ⦃net : Network⦄ (kid : String) (v : Verifier) where
  find_key_cached :
      (key : String)
      → key_for kid v.keys ≡ some key
      → ltb v.ttl (net.monotonic v.ticks - v.fetched_at) ≡ false
      → find_key kid v ≡ (returned key, record v { ticks = v.ticks + 1 })
  unfolding find_key
  find_key_cached key k f = ground (arith, k, has_keys-key_for kid v.keys k, f)

  published_find_key :
      {key : String}
      → (find_key kid v).0 ≡ returned key
      → key_for kid (find_key kid v).1.keys ≡ some key
  unfolding find_key refresh
  published_find_key h = ground (arith, h)

  pub issuer-find_key : (find_key kid v).1.issuer ≡ v.issuer
  unfolding find_key refresh
  issuer-find_key = ground arith

Verdict-cases :
    {A : Type 0} (r : Verdict A)
    → ((a : A) × (r ≡ returned a)) ⊎ ((e : IdentityError) × (r ≡ raised e))
Verdict-cases (returned a) = inl (a, refl)
Verdict-cases (raised e) = inr (e, refl)

pub jwt_cases :
    (r : JwtResult)
    → ((c : DecodedClaims) × (r ≡ decoded c)) ⊎ ((r ≡ expired_signature) ⊎ (r ≡ invalid_token))
jwt_cases (decoded c) = inl (c, refl)
jwt_cases expired_signature = inr (inl refl)
jwt_cases invalid_token = inr (inr refl)

module _ ⦃env : Env⦄ ⦃net : Network⦄ (token : String) (v : Verifier) where
  pub verify_offline :
      (kid key : String)
      → usable_kid (env.jwt_kid token) ≡ some kid
      → key_for kid v.keys ≡ some key
      → ltb v.ttl (net.monotonic v.ticks - v.fetched_at) ≡ false
      → ((verify token v).1.fetches ≡ v.fetches) × ((verify token v).1.keys ≡ v.keys)
  unfolding verify judge
  verify_offline kid key u k f = (
    ground (arith, u, find_key_cached kid v key k f),
    ground (arith, u, find_key_cached kid v key k f),
  )

  -- The keys are there, and not older than their lifetime.
  abbrev IsFresh : Type 0
  IsFresh = (has_keys v.keys ≡ true) × (net.monotonic v.ticks ≤ v.fetched_at + v.ttl)

  abbrev IsStale : Type 0
  IsStale = (has_keys v.keys ≡ false) ⊎ (v.fetched_at + v.ttl < net.monotonic v.ticks)

  -- The first request for the keys, if there is one, after a reading of the clock.
  abbrev first_request : Verdict Unit × Verifier
  first_request = refresh (record v { ticks = v.ticks + 1 })

  -- How many requests for the keys were made when a verification is over, and why.
  pub data IsTraffic : ℕ → Type 0 where
    no_kid : usable_kid (env.jwt_kid token) ≡ none → IsTraffic v.fetches
    known :
        {kid key : String}
        → usable_kid (env.jwt_kid token) ≡ some kid
        → IsFresh
        → key_for kid v.keys ≡ some key
        → IsTraffic v.fetches
    unknown :
        {kid : String}
        → usable_kid (env.jwt_kid token) ≡ some kid
        → IsFresh
        → key_for kid v.keys ≡ none
        → IsTraffic (v.fetches + 1)
    stale_refused :
        {kid : String} {e : IdentityError}
        → usable_kid (env.jwt_kid token) ≡ some kid
        → IsStale
        → first_request.0 ≡ raised e
        → IsTraffic (v.fetches + 1)
    stale_known :
        {kid key : String}
        → usable_kid (env.jwt_kid token) ≡ some kid
        → IsStale
        → first_request.0 ≡ returned tt
        → key_for kid first_request.1.keys ≡ some key
        → IsTraffic (v.fetches + 1)
    stale_unknown :
        {kid : String}
        → usable_kid (env.jwt_kid token) ≡ some kid
        → IsStale
        → first_request.0 ≡ returned tt
        → key_for kid first_request.1.keys ≡ none
        → IsTraffic (v.fetches + 2)

  -- The state that the key is looked up from decides the requests of a verification.
  fetches-find_key :
      (kid : String)
      → usable_kid (env.jwt_kid token) ≡ some kid
      → (verify token v).1.fetches ≡ (find_key kid v).1.fetches
  unfolding verify judge
  fetches-find_key kid u = ground (arith, u)

  module _ (kid : String) (u : usable_kid (env.jwt_kid token) ≡ some kid) where
    fresh-IsTraffic : IsFresh → IsTraffic (find_key kid v).1.fetches
    unfolding find_key refresh
    fresh-IsTraffic h =
        let f : ltb v.ttl (net.monotonic v.ticks - v.fetched_at) ≡ false = ground (arith, h) in
        elim (Option-cases (key_for kid v.keys)) [
          | inr (key, k) ↦ subst IsTraffic (ground (arith, h, f, k)) (known u h k)
          | inl k ↦ subst IsTraffic (ground (arith, h, f, k)) (unknown u h k)
        ]

    stale-IsTraffic : IsStale → IsTraffic (find_key kid v).1.fetches
    unfolding find_key refresh
    stale-IsTraffic h = elim (Verdict-cases first_request.0) [
      | inr (e, r) ↦ subst IsTraffic (ground (arith, h, r)) (stale_refused u h r)
      | inl (a, r) ↦ elim (Option-cases (key_for kid first_request.1.keys)) [
        | inr (key, k) ↦ subst IsTraffic (ground (arith, h, r, k)) (stale_known u h r k)
        | inl k ↦ subst IsTraffic (ground (arith, h, r, k)) (stale_unknown u h r k)
      ]
    ]

  -- How many requests for the keys a verification makes: none for a token without a kid, or if
  -- the keys are there, not older than their lifetime, and have its kid; one if they are so and
  -- do not have it; and if there are no keys or they are older, one if that request fails or
  -- brings the kid, and two if it does not.
  pub verify-IsTraffic : IsTraffic (verify token v).1.fetches
  unfolding verify
  verify-IsTraffic = elim (Option-cases (usable_kid (env.jwt_kid token))) [
    | inl u ↦ subst IsTraffic (ground (arith, u)) (no_kid u)
    | inr (kid, u) ↦
        subst IsTraffic (sym (fetches-find_key kid u)) (elim (Bool-cases (has_keys v.keys)) [
          | inr e ↦ stale-IsTraffic kid u (inl e)
          | inl k ↦ elim (Bool-cases (ltb v.ttl (net.monotonic v.ticks - v.fetched_at))) [
            | inl t ↦ stale-IsTraffic kid u (inr (ground (arith, t)))
            | inr t ↦ fresh-IsTraffic kid u (k, ground (arith, t))
          ]
        ])
  ]

  -- What stands behind an identity that `verify` returns.
  pub record IsBacked (id : VerifiedIdentity) : Type 0 where
    pub kid : String
    pub key : String
    pub instant : ℕ
    pub claims : DecodedClaims
    pub header : env.jwt_kid token ≡ some (some kid)
    pub published : key_for kid (verify token v).1.keys ≡ some key
    pub verified : env.jwt_decode instant token key v.issuer ≡ decoded claims
    pub subject : subject_id claims.sub ≡ some id.user_id
    pub role : claims.role ≡ some id.role
    pub status : or_else claims.status "active" ≡ "active"
    pub active : id.status ≡ "active"

  -- If verify returns an identity, the header of the token names a kid, the keys that the
  -- verifier then holds have a key for it, that key verified the token for the issuer at some
  -- instant, the subject and the role are those of its claims, and the status is active, in the
  -- claims or because they give none.
  pub verify-IsBacked : {id : VerifiedIdentity} → (verify token v).0 ≡ returned id → IsBacked id
  unfolding verify judge
  verify-IsBacked {id} h = elim (Option-cases (usable_kid (env.jwt_kid token))) [
    | inl e ↦ absurd (ground (arith, h, e))
    | inr (kid, e) ↦ elim (Verdict-cases (find_key kid v).0) [
      | inr (x, f) ↦ absurd (ground (arith, h, e, f))
      | inl (key, f) ↦
          let after = (find_key kid v).1 in
          let instant = net.wall_clock after.ticks in
          elim (jwt_cases (env.jwt_decode instant token key after.issuer)) [
            | inr n ↦ absurd (ground (arith, h, e, f, n))
            | inl (c, d) ↦
                let s : str_eq (or_else c.status "active") "active" ≡ true =
                  ground (arith, h, e, f, d) in
                let i = issuer-find_key kid v in
                let q : id.status ≡ or_else c.status "active" = ground (arith, h, e, f, d, s) in
                record {
                  kid = kid;
                  key = key;
                  instant = instant;
                  claims = c;
                  header = ground (arith, e);
                  published = ground (arith, e, f, d, h, published_find_key kid v f);
                  verified = ground (arith, d, i);
                  subject = ground (arith, h, e, f, d, s);
                  role = ground (arith, h, e, f, d, s);
                  status = (eq_iff (or_else c.status "active") "active").0 s;
                  active = q ∙ (eq_iff (or_else c.status "active") "active").0 s;
                }
          ]
    ]
  ]
