-- ===== src/Infra/Cache.antt =====
-- identity_app/modules/identity/infra/cache.py: `RedisProfileCache`.
mod Document
pub mod Laws
unfoldable pub use Document.{to_document, of_document}
use diddifree_id.Prelude.{ℕ, Option, none, some}
use diddifree_id.Domain.Entities.{User}
use diddifree_id.Platform.Redis.{
  Key, profile_key, ProfileDocument, RedisValue, one, document, unreadable, get, set, delete,
}
use diddifree_id.Platform.Environment.{Env}
use diddifree_id.Platform.Monad.{M, err, type_error, ◌>>=◌, ◌>>◌, pure, send}

abbrev profile_ttl_seconds : ℕ
profile_ttl_seconds = 300

module _ ⦃env : Env⦄ where
  -- A failure is logged and not raised.
  unfoldable pub invalidate_user : ℕ → M Unit
  invalidate_user user_id = do send (delete (profile_key user_id)) env.redis_done; pure tt

  -- An entry that cannot be read is dropped.
  purge : ℕ → M (Option User)
  unfolding invalidate_user
  purge user_id = do invalidate_user user_id; pure none

  read_document : ℕ → Option User → M (Option User)
  unfolding purge
  read_document user_id none = purge user_id
  read_document user_id (some u) = pure (some u)

  -- What `get_user` makes of the reply to its `GET`; the text "1" is no JSON object.
  read_reply : ℕ → Option (Option RedisValue) → M (Option User)
  unfolding read_document of_document
  read_reply user_id none = pure none
  read_reply user_id (some none) = pure none
  read_reply user_id (some (some (document d))) = read_document user_id (of_document d)
  read_reply user_id (some (some unreadable)) = purge user_id
  read_reply user_id (some (some one)) = λ w. (err type_error, w)

  unfoldable pub get_user : ℕ → M (Option User)
  unfolding read_reply
  get_user user_id = do raw ← send (get (profile_key user_id)) env.redis_get; read_reply user_id raw

  unfoldable pub set_user : User → M Unit
  unfolding to_document
  set_user u = do
    send (set (profile_key u.id) (document (to_document u)) profile_ttl_seconds) env.redis_done
    pure tt
