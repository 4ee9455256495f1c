-- ===== src/Commands/RefreshAccessToken.antt =====
-- commands/refresh_token.py
use diddifree_id.Prelude.{String, Option, none, some, is_some, not, leb, str_eq, if◌then◌else◌}
use diddifree_id.Domain.Access.{is_session_allowed, role_value, status_value}
use diddifree_id.Domain.Entities.{RefreshToken}
use diddifree_id.Platform.Environment.{Env}
use diddifree_id.Platform.Monad.{
  M, ◌>>=◌, ◌>>◌, pure, raise, raise_if, or_raise, now, new_id, no_details, refresh_token_invalid,
  refresh_token_revoked, user_suspended,
}
use diddifree_id.Platform.Session.{commit}
use diddifree_id.Infra.Users.{find_by_id}
use diddifree_id.Infra.Tokens.{find_by_hash, revoke, revoke_all_for_user, save}
use diddifree_id.Infra.TokenService.{
  KeyRing, hash_refresh_token, issue_access_token, new_refresh_token, refresh_expiry,
}
use diddifree_id.Commands.Rows.{new_session}

pub record TokenPair : Type 0 where
  pub access_token : String
  pub refresh_token : String

-- `device_info or stored.device_info`
abbrev pub device_or : Option String → Option String → Option String
device_or none stored = stored
device_or (some d) stored = if str_eq d "" then stored else some d

module _ ⦃env : Env⦄ where
  -- A token that was revoked is presented again: every session of the user is closed.
  check_reuse : RefreshToken → M Unit
  unfolding revoke_all_for_user
  check_reuse stored =
      if is_some stored.revoked_at
      then (do
        revoke_all_for_user stored.user_id
        commit
        raise 401 refresh_token_revoked no_details)
      else pure tt

  unfoldable pub refresh_access_token : KeyRing → String → Option String → M TokenPair
  unfolding find_by_hash check_reuse find_by_id revoke new_refresh_token save issue_access_token
  refresh_access_token ring refresh_token device_info = do
    t ← now
    found ← find_by_hash (hash_refresh_token refresh_token)
    stored ← or_raise found (raise 401 refresh_token_invalid no_details)
    check_reuse stored
    raise_if (leb stored.expires_at t) (raise 401 refresh_token_invalid no_details)
    owner ← find_by_id stored.user_id
    u ← or_raise owner (raise 401 refresh_token_invalid no_details)
    raise_if (not (is_session_allowed u.status)) (raise 403 user_suspended no_details)
    revoke stored.id
    (raw_refresh, refresh_hash) ← new_refresh_token
    id ← new_id
    save (
        new_session id u.id refresh_hash (device_or device_info stored.device_info)
          (refresh_expiry t) t)
    commit
    access_token ← issue_access_token ring u.id (role_value u.role) (status_value u.status)
    pure (record { access_token = access_token; refresh_token = raw_refresh })
