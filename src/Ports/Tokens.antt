-- ===== src/Ports/Tokens.antt =====
-- `SqlAlchemyRefreshTokenRepository` keeps what the port promises.
use diddifree_id.Prelude.{
  ℕ, ◌+◌, String, some, List, [], ◌∷◌, ◌≡◌, refl, find_first, find_first-update_where, update_where,
  count_where, arith,
}
use diddifree_id.Domain.Entities.{RefreshToken}
use diddifree_id.Platform.Environment.{Env}
use diddifree_id.Platform.Monad.{World, ok}
use diddifree_id.Infra.Tokens.{
  has_hash, is_open_token, is_open_token_of, set_revoked, close_token, close_tokens_of,
  find_by_hash, revoke, revoke_all_for_user,
}
use diddifree_id.Ports.Promises.{IsRevoked, IsRefreshTokenRepository}
use diddifree_id.Ports.Wiring.{refresh_token_repo}

-- Once the open rows that match are revoked, no row that matches is open.
count_where-revoked :
    (i at : ℕ) (tokens : List RefreshToken)
    → count_where (is_open_token_of i) (update_where (is_open_token_of i) (set_revoked at) tokens)
      ≡ 0
unfolding count_where update_where
count_where-revoked i at [] = refl
count_where-revoked i at (t ∷ ts) = ground (arith, count_where-revoked i at ts)

module _ ⦃env : Env⦄ (h : String) (t : RefreshToken) (w : World)
    (found : find_first (has_hash h) w.db.refresh_tokens ≡ some t) where
  -- The row of the token, after its revocation.
  revoke_lem : (w' : World) × (revoke t.id w ≡ (ok tt, w')) × IsRevoked refresh_token_repo h w'
  unfolding revoke find_by_hash close_token
  revoke_lem = (
    record w { db = close_token t.id (env.clock w.draws) w.db; draws = w.draws + 1 },
    refl,
    record {
      revoked = λ k e. ground (
        arith,
        e,
        found,
        find_first-update_where (has_hash h) (is_open_token t.id) (set_revoked (env.clock w.draws))
            w.db.refresh_tokens (λ a. refl),
      );
    },
  )

  revoke_all_lem :
      (n : ℕ) × (w' : World) × (revoke_all_for_user t.user_id w ≡ (ok n, w'))
      × IsRevoked refresh_token_repo h w'
  unfolding revoke_all_for_user find_by_hash close_tokens_of
  revoke_all_lem = (
    count_where (is_open_token_of t.user_id) w.db.refresh_tokens,
    record w { db = close_tokens_of t.user_id (env.clock w.draws) w.db; draws = w.draws + 1 },
    refl,
    record {
      revoked = λ k e. ground (
        arith,
        e,
        found,
        find_first-update_where (has_hash h) (is_open_token_of t.user_id)
            (set_revoked (env.clock w.draws)) w.db.refresh_tokens (λ a. refl),
      );
    },
  )

module _ ⦃env : Env⦄ where
  pub refresh_token_repo-IsRefreshTokenRepository : IsRefreshTokenRepository refresh_token_repo
  unfolding find_by_hash revoke_all_for_user close_tokens_of
  refresh_token_repo-IsRefreshTokenRepository = record {
    find_by_hash_reads = λ h w. (find_first (has_hash h) w.db.refresh_tokens, refl);
    revoke_revokes = λ h t w e. revoke_lem h t w (ground (arith, e));
    revoke_all_revokes = λ h t w e. revoke_all_lem h t w (ground (arith, e));
    revoke_all_again =
        λ i w. ground (arith, count_where-revoked i (env.clock w.draws) w.db.refresh_tokens);
    find_by_hash-commit = λ h w. refl;
    commit_visible = λ w. refl;
  }
