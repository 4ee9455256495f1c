-- ===== src/Behaviour/Refresh.antt =====
-- commands/refresh_token.py: a refresh token is good for one refresh.
use diddifree_id.Prelude.{
  ℕ, ◌+◌, ◌≡◌, refl, ◌∙◌, ap, String, Option, true, false, some, arith, find_first, is_some, leb,
  All, map_option, apply_if, Option-cases, Bool-cases, inl, inr, find_first-update_where,
  find_first-append_one,
}
use diddifree_id.Domain.Access.{is_session_allowed}
use diddifree_id.Domain.Entities.{User, RefreshToken}
use diddifree_id.Platform.Database.{Db}
use diddifree_id.Platform.Environment.{Env}
use diddifree_id.Platform.Monad.{World, ok, refusal, no_details, refresh_token_revoked}
use diddifree_id.Infra.Users.{user_by_id}
use diddifree_id.Infra.Tokens.{has_hash, is_open_token, set_revoked, add_token, close_token}
use diddifree_id.Infra.TokenService.{KeyRing, hash_refresh_token}
use diddifree_id.Commands.RefreshAccessToken.{TokenPair, refresh_access_token}
use diddifree_id.Refinement.Tokens.{committed-rotate}
use diddifree_id.Refinement.Reuse.{is_closed_for, refresh_access_token-reused}

-- A token that may be refreshed, and its owner.
pub record IsRefreshable ⦃env : Env⦄ (raw : String) (w : World) : Type 0 where
  pub token : RefreshToken
  pub owner : User
  pub found : find_first (has_hash (hash_refresh_token raw)) w.db.refresh_tokens ≡ some token
  pub unrevoked : is_some token.revoked_at ≡ false
  pub fresh : leb token.expires_at (env.clock w.draws) ≡ false
  pub known : user_by_id token.user_id w.db.users ≡ some owner
  pub allowed : is_session_allowed owner.status ≡ true

-- The row of a token after it was closed and another one added.
found_revoked :
    (hash : String) (k new : RefreshToken) (t : ℕ) (db : Db)
    → find_first (has_hash hash) db.refresh_tokens ≡ some k
    → is_some k.revoked_at ≡ false
    → find_first (has_hash hash) (add_token new (close_token k.id t db)).refresh_tokens
      ≡ some (set_revoked t k)
unfolding add_token close_token
found_revoked hash k new t db f r =
    let closed =
      find_first-update_where (has_hash hash) (is_open_token k.id) (set_revoked t) db.refresh_tokens
        (λ a. refl) in
    let hit : apply_if (is_open_token k.id) (set_revoked t) k ≡ set_revoked t k =
      ground (arith, r) in
    let c =
      closed ∙ ap (map_option (apply_if (is_open_token k.id) (set_revoked t))) f ∙ ap some hit in
    find_first-append_one (has_hash hash) (close_token k.id t db).refresh_tokens new ∙ rw c refl

module _ ⦃env : Env⦄ (ring : KeyRing) (raw : String) (device : Option String) (w : World) where
  -- A refresh that returns.
  ok-IsRefreshable :
      {pair : TokenPair}
      → (refresh_access_token ring raw device w).0 ≡ ok pair
      → IsRefreshable raw w
  unfolding refresh_access_token
  ok-IsRefreshable {pair} h =
      elim (Option-cases (find_first (has_hash (hash_refresh_token raw)) w.db.refresh_tokens)) [
        | inl f ↦ absurd (ground (arith, h, f))
        | inr (k, f) ↦ elim (Bool-cases (is_some k.revoked_at)) [
          | inl r ↦ absurd (ground (arith, h, f, r))
          | inr r ↦ elim (Bool-cases (leb k.expires_at (env.clock w.draws))) [
            | inl e ↦ absurd (ground (arith, h, f, r, e))
            | inr e ↦ elim (Option-cases (user_by_id k.user_id w.db.users)) [
              | inl u ↦ absurd (ground (arith, h, f, r, e, u))
              | inr (a, u) ↦ record {
                token = k;
                owner = a;
                found = f;
                unrevoked = r;
                fresh = e;
                known = u;
                allowed = ground (arith, h, f, r, e, u);
              }
            ]
          ]
        ]
      ]

  revoked_refused :
      (k : RefreshToken)
      → find_first (has_hash (hash_refresh_token raw)) w.db.refresh_tokens ≡ some k
      → is_some k.revoked_at ≡ true
      → (refresh_access_token ring raw device w).0 ≡ refusal 401 refresh_token_revoked no_details
  unfolding refresh_access_token
  revoked_refused k f r = ground (arith, f, r)

module _ ⦃env : Env⦄ (ring : KeyRing) (raw : String) (device : Option String) (w : World) where
  -- A refresh token is good for one refresh: if a refresh returned, the same token presented
  -- again to the tables that it left, with whatever ring and device, is answered with 401
  -- REFRESH_TOKEN_REVOKED, and closes every session of the user that the token belonged to.
  pub refresh_access_token_once :
      {pair : TokenPair} (later_ring : KeyRing) (later_device : Option String) (v : World)
      → (refresh_access_token ring raw device w).0 ≡ ok pair
      → v.db ≡ (refresh_access_token ring raw device w).1.committed
      → (k : RefreshToken) × ((find_first (has_hash (hash_refresh_token raw)) w.db.refresh_tokens
            ≡ some k)
          × (((refresh_access_token later_ring raw later_device v).0
                ≡ refusal 401 refresh_token_revoked no_details)
              × All
                  (λ s. is_closed_for k.user_id s ≡ true)
                  (refresh_access_token later_ring raw later_device v).1.committed.refresh_tokens))
  refresh_access_token_once later_ring later_device v h same =
      let g = ok-IsRefreshable ring raw device w h in
      let k = g.token in
      let rotated =
        committed-rotate ring raw device w k g.found g.owner g.unrevoked g.fresh g.known
          g.allowed in
      let f =
        found_revoked (hash_refresh_token raw) k _ (env.clock (w.draws + 1)) w.db g.found
          g.unrevoked in
      let t = set_revoked (env.clock (w.draws + 1)) k in
      let now : find_first (has_hash (hash_refresh_token raw)) v.db.refresh_tokens ≡ some t =
        ap (λ db. find_first (has_hash (hash_refresh_token raw)) db.refresh_tokens) (same ∙ rotated)
        ∙ f in
      (
        k,
        (
          g.found,
          (
            revoked_refused later_ring raw later_device v t now refl,
            refresh_access_token-reused later_ring raw later_device v t now refl,
          ),
        ),
      )
