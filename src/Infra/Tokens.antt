-- ===== src/Infra/Tokens.antt =====
-- identity_app/modules/identity/infra/write_repository.py: `SqlAlchemyRefreshTokenRepository`.
use diddifree_id.Prelude.{
  ℕ, String, Bool, ◌&&◌, not, Option, some, [], ◌∷◌, ◌++◌, is_some, find_first, update_where,
  count_where, str_eq, ◌==◌,
}
use diddifree_id.Domain.Entities.{RefreshToken}
use diddifree_id.Platform.Database.{Db}
use diddifree_id.Platform.Environment.{Env}
use diddifree_id.Platform.Monad.{M, ◌>>=◌, ◌>>◌, pure, query, execute, now}

abbrev pub has_hash : String → RefreshToken → Bool
has_hash token_hash t = str_eq t.token_hash token_hash

-- `id == token_id AND revoked_at IS NULL`
abbrev pub is_open_token : ℕ → RefreshToken → Bool
is_open_token token_id t = t.id == token_id && not (is_some t.revoked_at)

-- `user_id == user_id AND revoked_at IS NULL`
abbrev pub is_open_token_of : ℕ → RefreshToken → Bool
is_open_token_of user_id t = t.user_id == user_id && not (is_some t.revoked_at)

abbrev pub set_revoked : ℕ → RefreshToken → RefreshToken
set_revoked at t = record t { revoked_at = some at }

unfoldable pub add_token : RefreshToken → Db → Db
add_token t db = record db { refresh_tokens = db.refresh_tokens ++ t ∷ [] }

unfoldable pub close_token : ℕ → ℕ → Db → Db
close_token token_id at db = record db {
  refresh_tokens = update_where (is_open_token token_id) (set_revoked at) db.refresh_tokens;
}

unfoldable pub close_tokens_of : ℕ → ℕ → Db → Db
close_tokens_of user_id at db = record db {
  refresh_tokens = update_where (is_open_token_of user_id) (set_revoked at) db.refresh_tokens;
}

unfoldable pub save : RefreshToken → M RefreshToken
save token = do execute (add_token token); pure token

unfoldable pub find_by_hash : String → M (Option RefreshToken)
find_by_hash token_hash = query (λ db. find_first (has_hash token_hash) db.refresh_tokens)

module _ ⦃env : Env⦄ where
  unfoldable pub revoke : ℕ → M Unit
  revoke token_id = do at ← now; execute (close_token token_id at)

  -- The number of the rows that were changed.
  unfoldable pub revoke_all_for_user : ℕ → M ℕ
  revoke_all_for_user user_id = do
    at ← now
    rowcount ← query (λ db. count_where (is_open_token_of user_id) db.refresh_tokens)
    execute (close_tokens_of user_id at)
    pure rowcount
