-- ===== src/Refinement/Tokens.antt =====
-- commands/refresh_token.py and commands/logout.py beside the lifecycle.
use diddifree_id.Prelude.{
  ℕ, ◌+◌, ◌≡◌, refl, sym, subst, String, Bool, Option, true, false, some, arith, find_first,
  Option-cases, Bool-cases, inl, inr, leb, is_some,
}
use diddifree_id.Domain.Access.{is_session_allowed}
use diddifree_id.Domain.Entities.{User, RefreshToken}
use diddifree_id.Platform.Environment.{Env}
use diddifree_id.Platform.Monad.{World}
use diddifree_id.Infra.Users.{user_by_id}
use diddifree_id.Infra.Tokens.{has_hash, add_token, close_token, close_tokens_of}
use diddifree_id.Infra.TokenService.{KeyRing, hash_refresh_token, refresh_expiry, opaque_token}
use diddifree_id.Commands.Rows.{new_session}
use diddifree_id.Commands.RefreshAccessToken.{refresh_access_token, device_or}
use diddifree_id.Commands.Logout.{logout}
use diddifree_id.Lifecycle.{Change, keep, rotated, session_closed, sessions_closed}
use diddifree_id.Refinement.Lookup.{user_by_id_self}

module _ ⦃env : Env⦄ (ring : KeyRing) (raw : String) (device : Option String) (w : World) where
  module _ (k : RefreshToken)
      (f : find_first (has_hash (hash_refresh_token raw)) w.db.refresh_tokens ≡ some k) where
    pub committed-reuse :
        is_some k.revoked_at ≡ true
        → (refresh_access_token ring raw device w).1.committed
          ≡ close_tokens_of k.user_id (env.clock (w.draws + 1)) w.db
    unfolding refresh_access_token
    committed-reuse r = ground (arith, f, r)

    pub committed-rotate :
        (a : User)
        → is_some k.revoked_at ≡ false
        → leb k.expires_at (env.clock w.draws) ≡ false
        → user_by_id k.user_id w.db.users ≡ some a
        → is_session_allowed a.status ≡ true
        → (refresh_access_token ring raw device w).1.committed
          ≡ add_token
              (new_session
                (env.uuid4 (w.draws + 3))
                a.id
                (hash_refresh_token (opaque_token (w.draws + 2)))
                (device_or device k.device_info)
                (refresh_expiry (env.clock w.draws))
                (env.clock w.draws))
              (close_token k.id (env.clock (w.draws + 1)) w.db)
    unfolding refresh_access_token
    committed-rotate a r e u s = ground (arith, f, r, e, u, s)

    refresh_found :
        {New : ℕ → Type 0}
        → w.committed ≡ w.db
        → Change New w.db (refresh_access_token ring raw device w).1.committed
    unfolding refresh_access_token
    refresh_found clean = elim (Bool-cases (is_some k.revoked_at)) [
      | inl r ↦ subst (Change _ w.db) (sym (committed-reuse r)) (sessions_closed _ _)
      | inr r ↦ elim (Bool-cases (leb k.expires_at (env.clock w.draws))) [
        | inl e ↦ rw (f, r, e, clean) keep
        | inr e ↦ elim (Option-cases (user_by_id k.user_id w.db.users)) [
          | inl u ↦ rw (f, r, e, u, clean) keep
          | inr (a, u) ↦ elim (Bool-cases (is_session_allowed a.status)) [
            | inr s ↦ rw (f, r, e, u, s, clean) keep
            | inl s ↦ subst (Change _ w.db) (sym (committed-rotate a r e u s)) (
                rotated k _ a _ (user_by_id_self k.user_id w.db.users u) s
                  (record { owner = refl; open_session = refl }))
          ]
        ]
      ]
    ]

  -- On a session with nothing to write, a refresh, whatever it replies, leaves committed tables
  -- that one step `Change` of the lifecycle makes of those before it (keeping them is a step).
  pub refresh_access_token-Change :
      {New : ℕ → Type 0}
      → w.committed ≡ w.db
      → Change New w.db (refresh_access_token ring raw device w).1.committed
  unfolding refresh_access_token
  refresh_access_token-Change clean =
      elim (Option-cases (find_first (has_hash (hash_refresh_token raw)) w.db.refresh_tokens)) [
        | inl f ↦ rw (f, clean) keep
        | inr (k, f) ↦ refresh_found k f clean
      ]

module _ ⦃env : Env⦄ (raw : String) (all : Bool) (w : World) where
  committed-logout_all :
      (k : RefreshToken)
      → find_first (has_hash (hash_refresh_token raw)) w.db.refresh_tokens ≡ some k
      → all ≡ true
      → (logout raw all w).1.committed ≡ close_tokens_of k.user_id (env.clock w.draws) w.db
  unfolding logout
  committed-logout_all k f a = ground (arith, f, a)

  committed-logout_one :
      (k : RefreshToken)
      → find_first (has_hash (hash_refresh_token raw)) w.db.refresh_tokens ≡ some k
      → all ≡ false
      → (logout raw all w).1.committed ≡ close_token k.id (env.clock w.draws) w.db
  unfolding logout
  committed-logout_one k f a = ground (arith, f, a)

  -- On a session with nothing to write, a logout, whatever it replies, leaves committed tables
  -- that one step `Change` of the lifecycle makes of those before it (keeping them is a step).
  pub logout-Change :
      {New : ℕ → Type 0} → w.committed ≡ w.db → Change New w.db (logout raw all w).1.committed
  unfolding logout
  logout-Change clean =
      elim (Option-cases (find_first (has_hash (hash_refresh_token raw)) w.db.refresh_tokens)) [
        | inl f ↦ rw (f, clean) keep
        | inr (k, f) ↦ elim (Bool-cases all) [
          | inl a ↦ subst (Change _ w.db) (sym (committed-logout_all k f a)) (sessions_closed _ _)
          | inr a ↦ subst (Change _ w.db) (sym (committed-logout_one k f a)) (session_closed _ _)
        ]
      ]
