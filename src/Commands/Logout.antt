-- ===== src/Commands/Logout.antt =====
-- commands/logout.py
use diddifree_id.Prelude.{String, Bool, Option, none, some, if◌then◌else◌}
use diddifree_id.Domain.Entities.{RefreshToken}
use diddifree_id.Platform.Environment.{Env}
use diddifree_id.Platform.Monad.{M, ◌>>=◌, ◌>>◌, pure}
use diddifree_id.Platform.Session.{commit}
use diddifree_id.Infra.Tokens.{find_by_hash, revoke, revoke_all_for_user}
use diddifree_id.Infra.TokenService.{hash_refresh_token}

module _ ⦃env : Env⦄ where
  close_sessions : RefreshToken → Bool → M Unit
  unfolding revoke revoke_all_for_user
  close_sessions stored all_devices =
      if all_devices then (do revoke_all_for_user stored.user_id; pure tt) else revoke stored.id

  -- An unknown token ends the command without an error.
  close_found : Option RefreshToken → Bool → M Unit
  unfolding close_sessions
  close_found none all_devices = pure tt
  close_found (some stored) all_devices = do close_sessions stored all_devices; commit

  unfoldable pub logout : String → Bool → M Unit
  unfolding find_by_hash close_found
  logout refresh_token all_devices = do
    stored ← find_by_hash (hash_refresh_token refresh_token)
    close_found stored all_devices
