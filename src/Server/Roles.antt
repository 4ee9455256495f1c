-- ===== src/Server/Roles.antt =====
-- Who gets the role of a driver or a merchant, by any request that writes: changes of role in
-- commands/change_role.py, and decisions in commands/decide_kyc.py.
use diddifree_id.Prelude.{ℕ, ◌≡◌, refl, true, some}
use diddifree_id.Domain.Access.{UserRole, is_kyc_required}
use diddifree_id.Platform.Environment.{Env}
use diddifree_id.Platform.Monad.{World}
use diddifree_id.Infra.TokenService.{KeyRing}
use diddifree_id.Invariants.Columns.{column_at}
use diddifree_id.Invariants.Roles.{role, HadOrRequested, Change-HadOrRequested}
use diddifree_id.Server.Routes.{Request, handle}
use diddifree_id.Server.Steps.{IsReady, handle-Change}

-- The roles that the contract gives out only after a decision.
pub data IsProfessional : UserRole → Type 0 where
  driver : IsProfessional UserRole.driver
  merchant : IsProfessional UserRole.merchant

IsProfessional-is_kyc_required : {r : UserRole} → IsProfessional r → is_kyc_required r ≡ true
unfolding is_kyc_required
IsProfessional-is_kyc_required driver = refl
IsProfessional-is_kyc_required merchant = refl

module _ ⦃env : Env⦄ (ring : KeyRing) (request : Request) (w : World) where
  -- After a request to any route that writes, on a session that is ready (nothing to write, ids
  -- that are keys, ids to come that are new), an account with the role of a driver or of a
  -- merchant had that role before the request, or had a pending request for exactly that role.
  pub handle-HadOrRequested :
      IsReady w
      → (i : ℕ) {r : UserRole} → IsProfessional r
      → column_at role i (handle ring request w).committed.users ≡ some r
      → HadOrRequested i r w.db
  handle-HadOrRequested ready i {r} p h =
      Change-HadOrRequested i r (IsProfessional-is_kyc_required p)
        (handle-Change ring request w ready) h
