-- ===== src/Server/Reads/Effects.antt =====
-- What the routes that read leave, and whom they answer.
use diddifree_id.Prelude.{ℕ, refl, ap, arith}
use diddifree_id.Platform.Environment.{Env}
use diddifree_id.Platform.Monad.{World, M, ◌>>=◌, pure}
use diddifree_id.Infra.TokenService.{KeyRing}
use diddifree_id.Infra.Reads.{Filters}
use diddifree_id.Queries.GetUser.{get_user_by_id, get_current_user_profile}
use diddifree_id.Queries.ListUsers.{list_users, since_filters, backfill}
use diddifree_id.Queries.Outcomes.{get_user_by_id_reads}
use diddifree_id.Queries.Pages.{list_users-IsListReply}
use diddifree_id.Server.Auth.{get_current_user_id, require_admin, require_service_or_admin}
use diddifree_id.Server.Guards.{
  IsGuard, >>=-IsGuard, get_current_user_id-IsGuard, require_admin-IsGuard,
  require_service_or_admin-IsGuard,
}
use diddifree_id.Server.Reads.{
  ReadRequest, ReadReply, profile, users, me, user_list_since, user_of, user_list, key_document,
  admin_filters, read_route,
}

module _ ⦃env : Env⦄ where
  get_user_by_id-IsGuard : (user_id : ℕ) (w : World) → IsGuard (get_user_by_id user_id) w
  get_user_by_id-IsGuard user_id w =
      let (db, (committed, draws)) = get_user_by_id_reads user_id w in
      record { db = db; committed = committed; draws = omega (arith, draws) }

  list_users-IsGuard : (f : Filters) (page s : ℕ) (w : World) → IsGuard (list_users f page s) w
  list_users-IsGuard f page s w =
      let same = (list_users-IsListReply f page s w).1 in
      record {
        db = ap (λ v. v.db) same;
        committed = ap (λ v. v.committed) same;
        draws = omega (arith, ap (λ v. v.draws) same);
      }

  pure-IsGuard : {A : Type 0} (a : A) (w : World) → IsGuard (pure a) w
  pure-IsGuard a w = record { db = refl; committed = refl; draws = omega arith }

  -- A query behind a guard, and its reply.
  query-IsGuard :
      {A B : Type 0} (g : M A) (q : A → M B) (k : B → ReadReply) (w : World)
      → IsGuard g w
      → ((a : A) (v : World) → IsGuard (q a) v)
      → IsGuard (g >>= λ a. q a >>= λ b. pure (k b)) w
  query-IsGuard g q k w h i =
      >>=-IsGuard g _ w h
        (λ a. >>=-IsGuard (q a) _ (g w).1 (i a (g w).1) (λ b. pure-IsGuard (k b) (q a (g w).1).1))

  module _ (ring : KeyRing) where
    -- A route that reads, whatever its guard and its query do, writes no table, commits nothing,
    -- and takes back no reading of the clock.
    pub read_route-IsGuard :
        (request : ReadRequest) (w : World) → IsGuard (read_route ring request) w
    unfolding read_route backfill get_current_user_profile
    read_route-IsGuard (me credentials) w =
        query-IsGuard (get_current_user_id ring credentials) get_current_user_profile profile w
          (get_current_user_id-IsGuard ring credentials w) get_user_by_id-IsGuard
    read_route-IsGuard (user_list_since key credentials since page s) w =
        query-IsGuard (require_service_or_admin ring key credentials) (λ _. backfill since page s)
          users w (require_service_or_admin-IsGuard ring credentials w key)
          (λ _ v. list_users-IsGuard (since_filters since) page s v)
    read_route-IsGuard (user_of key credentials user_id) w =
        query-IsGuard (require_service_or_admin ring key credentials) (λ _. get_user_by_id user_id)
          profile w (require_service_or_admin-IsGuard ring credentials w key)
          (λ _ v. get_user_by_id-IsGuard user_id v)
    read_route-IsGuard (user_list credentials role status pending page s) w =
        query-IsGuard (require_admin ring credentials)
          (λ _. list_users (admin_filters role status pending) page s) users w
          (require_admin-IsGuard ring credentials w)
          (λ _ v. list_users-IsGuard (admin_filters role status pending) page s v)
    read_route-IsGuard key_document w = pure-IsGuard _ w
