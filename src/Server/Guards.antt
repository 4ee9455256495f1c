-- ===== src/Server/Guards.antt =====
-- The guards of core/auth_deps.py: whom they let through, and what they write.
use diddifree_id.Prelude.{ℕ, ◌≡◌, ◌≤◌, ◌∙◌, ap, sym, String, Option, some, arith, inl, inr, subst}
use diddifree_id.Domain.Access.{UserRole, UserStatus}
use diddifree_id.Domain.Entities.{User}
use diddifree_id.Platform.Environment.{Env}
use diddifree_id.Platform.Database.{Db}
use diddifree_id.Platform.Monad.{World, M, Result-cases, ok, err, ◌>>=◌}
use diddifree_id.Infra.Users.{user_by_id}
use diddifree_id.Infra.TokenService.{KeyRing, decode_access_token}
use diddifree_id.Refinement.Lookup.{user_by_id_self}
use diddifree_id.Server.Auth.{
  read_admin, get_current_user_id, require_admin, require_service_or_admin,
}

-- A guard reads, and at most draws: it writes no table, sends nothing and logs nothing.
pub record IsGuard {A : Type 0} (m : M A) (w : World) : Type 0 where
  pub db : (m w).1.db ≡ w.db
  pub committed : (m w).1.committed ≡ w.committed
  pub draws : w.draws ≤ (m w).1.draws

-- An account that may act as an admin.
pub record IsActiveAdmin (db : Db) (u : User) : Type 0 where
  pub found : user_by_id u.id db.users ≡ some u
  pub status : u.status ≡ UserStatus.active
  pub role : u.role ≡ UserRole.admin

-- A chain that returns: its first action returned, and the rest did.
pub >>=-ok :
    {A B : Type 0} (m : M A) (f : A → M B) (w : World) {b : B}
    → ((m >>= f) w).0 ≡ ok b
    → (a : A) × ((m w).0 ≡ ok a) × ((f a (m w).1).0 ≡ ok b)
>>=-ok m f w h = elim (Result-cases (m w).0) [
  | inl (a, e) ↦ (a, e, ground (arith, h, e))
  | inr (x, e) ↦ absurd (ground (arith, h, e))
]

-- A guard after a guard.
pub >>=-IsGuard :
    {A B : Type 0} (m : M A) (f : A → M B) (w : World)
    → IsGuard m w
    → ((a : A) → IsGuard (f a) (m w).1)
    → IsGuard (m >>= f) w
>>=-IsGuard m f w g h = elim (Result-cases (m w).0) [
  | inl (a, e) ↦
      let q : (m >>= f) w ≡ f a (m w).1 = ground (arith, e) in
      let i = h a in
      record {
        db = ap (λ r. r.1.db) q ∙ i.db ∙ g.db;
        committed = ap (λ r. r.1.committed) q ∙ i.committed ∙ g.committed;
        draws = subst (λ r. w.draws ≤ r.1.draws) (sym q) (omega (arith, g.draws, i.draws));
      }
  | inr (x, e) ↦
      let q : (m >>= f) w ≡ (err x, (m w).1) = ground (arith, e) in
      record {
        db = ap (λ r. r.1.db) q ∙ g.db;
        committed = ap (λ r. r.1.committed) q ∙ g.committed;
        draws = subst (λ r. w.draws ≤ r.1.draws) (sym q) g.draws;
      }
]

module _ ⦃env : Env⦄ where
  read_admin-IsGuard : (user_id : ℕ) (w : World) → IsGuard (read_admin user_id) w
  unfolding read_admin
  read_admin-IsGuard user_id w = record {
    db = ground arith;
    committed = ground arith;
    draws = ground arith;
  }

module _ ⦃env : Env⦄ (ring : KeyRing) (credentials : Option String) (w : World) where
  pub get_current_user_id-IsGuard : IsGuard (get_current_user_id ring credentials) w
  unfolding get_current_user_id decode_access_token
  get_current_user_id-IsGuard = record {
    db = ground arith;
    committed = ground arith;
    draws = ground arith;
  }

  pub require_admin-IsGuard : IsGuard (require_admin ring credentials) w
  unfolding require_admin
  require_admin-IsGuard =
      >>=-IsGuard (get_current_user_id ring credentials) read_admin w get_current_user_id-IsGuard
        (λ i. read_admin-IsGuard i (get_current_user_id ring credentials w).1)

  pub require_service_or_admin-IsGuard :
      (key : Option String) → IsGuard (require_service_or_admin ring key credentials) w
  unfolding require_service_or_admin decode_access_token
  require_service_or_admin-IsGuard key = record {
    db = ground arith;
    committed = ground arith;
    draws = ground arith;
  }

  read_admin-ok : (user_id : ℕ) {u : User} → (read_admin user_id w).0 ≡ ok u → IsActiveAdmin w.db u
  unfolding read_admin
  read_admin-ok user_id {u} h =
      let f : user_by_id user_id w.db.users ≡ some u = ground arith in
      record {
        found = user_by_id_self user_id w.db.users f;
        status = ground arith;
        role = ground arith;
      }

module _ ⦃env : Env⦄ (ring : KeyRing) (credentials : Option String) (w : World) where
  -- Whoever passes require_admin is, in the tables and not only in the token, an active account
  -- with the role admin.
  pub require_admin-ok :
      {u : User} → (require_admin ring credentials w).0 ≡ ok u → IsActiveAdmin w.db u
  unfolding require_admin
  require_admin-ok {u} h =
      let (i, e, g) = >>=-ok (get_current_user_id ring credentials) read_admin w h in
      subst (λ db. IsActiveAdmin db u) (get_current_user_id-IsGuard ring credentials w).db
        (read_admin-ok ring credentials (get_current_user_id ring credentials w).1 i g)
