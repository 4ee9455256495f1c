-- ===== src/Infra/Cache/Laws.antt =====
-- What a profile keeps through the cache of infra/cache.py.
use diddifree_id.Prelude.{ℕ, ◌≡◌, none, some, ◌∷◌, arith}
use diddifree_id.Domain.Access.{role_of_value-role_value, status_of_value-status_value}
use diddifree_id.Domain.Entities.{User}
use diddifree_id.Platform.Redis.{document, get, profile_key}
use diddifree_id.Platform.Environment.{Env}
use diddifree_id.Platform.Monad.{World, ok}
use diddifree_id.Infra.Cache.{to_document, of_document, get_user}

-- The profile that comes back: the password hash and the pending request are lost.
abbrev pub forgotten : User → User
forgotten u = record u { password_hash = none; requested_role = none }

module _ ⦃env : Env⦄
    (uuid_of_text-uuid_text : (i : ℕ) → env.uuid_of_text (env.uuid_text i) ≡ some i) where
  -- If the text of every UUID is read back as that UUID, a profile that was written to the cache
  -- is read back with every field but the password hash and the requested role, which are lost.
  pub of_document-to_document : (u : User) → of_document (to_document u) ≡ some (forgotten u)
  unfolding of_document to_document
  of_document-to_document u = ground (
    arith,
    uuid_of_text-uuid_text u.id,
    role_of_value-role_value u.role,
    status_of_value-status_value u.status,
  )

  pub get_user-to_document :
      (u : User) (w : World)
      → env.redis_get (get (profile_key u.id) ∷ w.redis) ≡ some (some (document (to_document u)))
      → (get_user u.id w).0 ≡ ok (some (forgotten u))
  unfolding get_user
  get_user-to_document u w h = ground (arith, h, of_document-to_document u)
