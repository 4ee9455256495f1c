-- ===== src/Queries/GetUser.antt =====
-- queries/get_user.py: `GetUserById`, `GetCurrentUserProfile` and `GetUserByPhone`.
use diddifree_id.Prelude.{ℕ, String, Option, none, some}
use diddifree_id.Domain.Entities.{User}
use diddifree_id.Platform.Environment.{Env}
use diddifree_id.Platform.Monad.{M, ◌>>=◌, ◌>>◌, pure, raise, or_raise, no_details, user_not_found}
use diddifree_id.Application.Payloads.{Profile, profile_payload}
use diddifree_id.Application.Validation.{validate_phone}
use diddifree_id.Infra.Cache.{get_user, set_user}
use diddifree_id.Infra.Reads.{get_by_id, get_by_phone}

module _ ⦃env : Env⦄ where
  -- A miss: the row is read, and cached.
  load_profile : ℕ → M Profile
  unfolding get_by_id set_user
  load_profile user_id = do
    row ← get_by_id user_id
    u ← or_raise row (raise 404 user_not_found no_details)
    set_user u
    pure (profile_payload u)

  serve_profile : ℕ → Option User → M Profile
  unfolding load_profile
  serve_profile user_id (some u) = pure (profile_payload u)
  serve_profile user_id none = load_profile user_id

  unfoldable pub get_user_by_id : ℕ → M Profile
  unfolding get_user serve_profile
  get_user_by_id user_id = do cached ← get_user user_id; serve_profile user_id cached

  unfoldable pub get_current_user_profile : ℕ → M Profile
  unfolding get_user_by_id
  get_current_user_profile user_id = get_user_by_id user_id

  abbrev payload_of : Option User → Option Profile
  payload_of none = none
  payload_of (some u) = some (profile_payload u)

  unfoldable pub get_user_by_phone : String → M (Option Profile)
  unfolding validate_phone get_by_phone
  get_user_by_phone text = do
    phone ← validate_phone text
    row ← get_by_phone phone
    pure (payload_of row)
