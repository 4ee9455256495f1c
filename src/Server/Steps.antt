-- ===== src/Server/Steps.antt =====
-- One request, with its guard and its session, beside the lifecycle.
use diddifree_id.Prelude.{ℕ, ◌≤◌, ◌≡◌, ◌∙◌, ap, sym, subst, arith, inl, inr, some}
use diddifree_id.Platform.Environment.{Env}
use diddifree_id.Platform.Monad.{World, M, ◌>>=◌, ◌>>◌, Result-cases, pure, ok, err}
use diddifree_id.Platform.Session.{get_session}
use diddifree_id.Infra.TokenService.{KeyRing}
use diddifree_id.Lifecycle.{Change, keep}
use diddifree_id.Lifecycle.Fresh.{IsFresh, DrawnIn}
use diddifree_id.Lifecycle.Keyed.{IsKeyed}
use diddifree_id.Refinement.ChangeStatus.{change_status-Change}
use diddifree_id.Refinement.ChangeRole.{change_role-Change}
use diddifree_id.Refinement.DecideKyc.{decide_kyc-Change}
use diddifree_id.Refinement.Account.{register_user-Change, update_profile-Change}
use diddifree_id.Refinement.VerifyOtp.{verify_otp-Change}
use diddifree_id.Refinement.RequestOtp.{request_otp-Change}
use diddifree_id.Refinement.Tokens.{refresh_access_token-Change, logout-Change}
use diddifree_id.Refinement.Settled.{
  IsSettled, register_user-IsSettled, request_otp-IsSettled, verify_otp-IsSettled,
  refresh_access_token-IsSettled, logout-IsSettled, change_status-IsSettled, change_role-IsSettled,
  decide_kyc-IsSettled, update_profile-IsSettled,
}
use diddifree_id.Commands.RegisterUser.{register_user}
use diddifree_id.Commands.RequestOtp.{request_otp}
use diddifree_id.Commands.VerifyOtp.{verify_otp}
use diddifree_id.Commands.RefreshAccessToken.{refresh_access_token}
use diddifree_id.Commands.Logout.{logout}
use diddifree_id.Commands.ChangeStatus.{change_status}
use diddifree_id.Commands.ChangeRole.{change_role}
use diddifree_id.Commands.DecideKyc.{decide_kyc}
use diddifree_id.Commands.UpdateProfile.{update_profile}
use diddifree_id.Server.Auth.{get_current_user_id, require_admin, require_service_or_admin}
use diddifree_id.Refinement.Draws.{
  draws-register_user, draws-request_otp, draws-verify_otp, draws-refresh_access_token,
  draws-logout, draws-change_status, draws-change_role, draws-decide_kyc, draws-update_profile,
}
use diddifree_id.Server.Guards.{
  IsGuard, get_current_user_id-IsGuard, require_admin-IsGuard, require_service_or_admin-IsGuard,
}
use diddifree_id.Server.Routes.{
  Request, register, otp_request, otp_verify, refresh, log_out, update_me, role_change,
  status_change, kyc_decision, route, handle,
}

pub ≤-trans : {a b c : ℕ} → a ≤ b → b ≤ c → a ≤ c
≤-trans h k = omega (arith, h, k)

module _ ⦃env : Env⦄ where
  -- A handler that makes one change with ids drawn since a count of the draws, and commits it if it
  -- returns.
  pub record IsStep {A : Type 0} (from : ℕ) (m : M A) (w : World) : Type 0 where
    pub change : Change (DrawnIn from (m w).1.draws) w.db (m w).1.committed
    pub draws : from ≤ (m w).1.draws
    pub settled : IsSettled (m w)

  -- Its reply does not matter.
  IsStep-reply :
      {A : Type 0} (from : ℕ) (m : M A) (w : World) → IsStep from m w → IsStep from (m >> pure tt) w
  IsStep-reply from m w s = elim (Result-cases (m w).0) [
    | inl (a, e) ↦
        let q : (m >> pure tt) w ≡ (ok tt, (m w).1) = ground (arith, e) in
        record {
          change = subst (λ x. Change (DrawnIn from x.1.draws) w.db x.1.committed) (sym q) s.change;
          draws = subst (λ x. from ≤ x.1.draws) (sym q) s.draws;
          settled = λ h. let c = s.settled (ground (arith, e)) in ground (arith, q, c);
        }
    | inr (x, e) ↦
        let q : (m >> pure tt) w ≡ (err x, (m w).1) = ground (arith, e) in
        record {
          change = subst (λ x. Change (DrawnIn from x.1.draws) w.db x.1.committed) (sym q) s.change;
          draws = subst (λ x. from ≤ x.1.draws) (sym q) s.draws;
          settled = λ h. absurd (ground (arith, h, q));
        }
  ]

  -- A guard before it leaves it what it was.
  IsStep-guard :
      {A B : Type 0} (g : M A) (f : A → M B) (w : World)
      → w.committed ≡ w.db
      → IsGuard g w
      → ((a : A) → IsStep w.draws (f a) (g w).1)
      → IsStep w.draws (g >>= f) w
  IsStep-guard g f w clean guard s = elim (Result-cases (g w).0) [
    | inl (a, e) ↦
        let q : (g >>= f) w ≡ f a (g w).1 = ground (arith, e) in
        record {
          change =
              subst (λ x. Change (DrawnIn w.draws x.1.draws) w.db x.1.committed) (sym q)
                (subst
                  (λ d. Change (DrawnIn w.draws (f a (g w).1).1.draws) d (f a (g w).1).1.committed)
                  guard.db (s a).change);
          draws = subst (λ x. w.draws ≤ x.1.draws) (sym q) (s a).draws;
          settled = subst IsSettled (sym q) (s a).settled;
        }
    | inr (x, e) ↦
        let q : (g >>= f) w ≡ (err x, (g w).1) = ground (arith, e) in
        record {
          change =
              subst (Change _ w.db) (sym (ap (λ x. x.1.committed) q ∙ guard.committed ∙ clean))
                keep;
          draws = subst (λ x. w.draws ≤ x.1.draws) (sym q) guard.draws;
          settled = λ h. absurd (ground (arith, h, q));
        }
  ]

-- A session that starts: nothing is written yet, ids are keys, and those to come are new.
pub record IsReady ⦃env : Env⦄ (w : World) : Type 0 where
  pub clean : w.committed ≡ w.db
  pub keyed : IsKeyed w.db
  pub fresh : IsFresh w

module _ ⦃env : Env⦄ (ring : KeyRing) (w : World) (ready : IsReady w) where
  guarded_clean : {A : Type 0} (g : M A) → IsGuard g w → (g w).1.committed ≡ (g w).1.db
  guarded_clean g guard = guard.committed ∙ ready.clean ∙ sym guard.db

  -- Every route, whatever its guard says.
  route-IsStep : (request : Request) → IsStep w.draws (route ring request) w
  unfolding route
  route-IsStep (register phone name) = IsStep-reply w.draws (register_user phone name) w record {
    change = register_user-Change phone name w ready.clean ready.fresh;
    draws = draws-register_user w phone name;
    settled = register_user-IsSettled w ready.clean phone name;
  }
  route-IsStep (otp_request phone ip) = IsStep-reply w.draws (request_otp phone ip) w record {
    change = request_otp-Change phone ip w ready.clean ready.fresh;
    draws = draws-request_otp w phone ip;
    settled = request_otp-IsSettled w ready.clean phone ip;
  }
  route-IsStep (otp_verify phone code device) =
      IsStep-reply w.draws (verify_otp ring phone code device) w record {
        change = verify_otp-Change ring phone code device w ready.clean ready.keyed;
        draws = draws-verify_otp w ring phone code device;
        settled = verify_otp-IsSettled w ready.clean ring phone code device;
      }
  route-IsStep (refresh token device) =
      IsStep-reply w.draws (refresh_access_token ring token device) w record {
        change = refresh_access_token-Change ring token device w ready.clean;
        draws = draws-refresh_access_token w ring token device;
        settled = refresh_access_token-IsSettled w ready.clean ring token device;
      }
  route-IsStep (log_out token all) = IsStep-reply w.draws (logout token all) w record {
    change = logout-Change token all w ready.clean;
    draws = draws-logout w token all;
    settled = logout-IsSettled w ready.clean token all;
  }
  route-IsStep (update_me credentials name) =
      let g = get_current_user_id ring credentials in
      let guard = get_current_user_id-IsGuard ring credentials w in
      let clean = guarded_clean g guard in
      IsStep-guard g _ w ready.clean guard (λ id.
        IsStep-reply w.draws (update_profile id name) (g w).1 record {
          change = update_profile-Change id name (g w).1 clean;
          draws = ≤-trans guard.draws (draws-update_profile (g w).1 id name);
          settled = update_profile-IsSettled (g w).1 clean id name;
        })
  route-IsStep (role_change key credentials user_id role reason) =
      let g = require_service_or_admin ring key credentials in
      let guard = require_service_or_admin-IsGuard ring credentials w key in
      let clean = guarded_clean g guard in
      IsStep-guard g _ w ready.clean guard (λ by.
        IsStep-reply w.draws (change_role user_id role reason by) (g w).1 record {
          change = change_role-Change user_id role reason by (g w).1 clean;
          draws = ≤-trans guard.draws (draws-change_role (g w).1 user_id role reason by);
          settled = change_role-IsSettled (g w).1 clean user_id role reason by;
        })
  route-IsStep (status_change credentials user_id status reason) =
      let g = require_admin ring credentials in
      let guard = require_admin-IsGuard ring credentials w in
      let clean = guarded_clean g guard in
      IsStep-guard g _ w ready.clean guard (λ a.
        IsStep-reply w.draws (change_status user_id status reason (some a.id)) (g w).1 record {
          change = change_status-Change user_id status reason (some a.id) (g w).1 clean;
          draws =
              ≤-trans guard.draws (draws-change_status (g w).1 user_id status reason (some a.id));
          settled = change_status-IsSettled (g w).1 clean user_id status reason (some a.id);
        })
  route-IsStep (kyc_decision credentials user_id approved reason) =
      let g = require_admin ring credentials in
      let guard = require_admin-IsGuard ring credentials w in
      let clean = guarded_clean g guard in
      IsStep-guard g _ w ready.clean guard (λ a.
        IsStep-reply w.draws (decide_kyc user_id approved reason (some a.id)) (g w).1 record {
          change = decide_kyc-Change user_id approved reason (some a.id) (g w).1 clean;
          draws =
              ≤-trans guard.draws (draws-decide_kyc (g w).1 user_id approved reason (some a.id));
          settled = decide_kyc-IsSettled (g w).1 clean user_id approved reason (some a.id);
        })

-- On a session that is ready, a route that returns has committed all that it wrote: the commit of
-- get_session, which comes after the reply, has nothing to add.
pub route-IsSettled :
    ⦃env : Env⦄ (ring : KeyRing) (request : Request) (w : World)
    → IsReady w
    → IsSettled (route ring request w)
route-IsSettled ring request w ready = (route-IsStep ring w ready request).settled

module _ ⦃env : Env⦄ {A : Type 0} (m : M A) (w : World) where
  -- The session closes clean.
  get_session-clean : (get_session m w).1.committed ≡ (get_session m w).1.db
  unfolding get_session
  get_session-clean = elim (Result-cases (m w).0) [
    | inl (a, e) ↦ ground (arith, e)
    | inr (x, e) ↦ ground (arith, e)
  ]

  draws-get_session : (get_session m w).1.draws ≡ (m w).1.draws
  unfolding get_session
  draws-get_session = elim (Result-cases (m w).0) [
    | inl (a, e) ↦ ground (arith, e)
    | inr (x, e) ↦ ground (arith, e)
  ]

  -- The commit of the session adds nothing to that of the handler.
  get_session-committed : IsSettled (m w) → (get_session m w).1.committed ≡ (m w).1.committed
  unfolding get_session
  get_session-committed settled = elim (Result-cases (m w).0) [
    | inl (a, e) ↦ let c = settled (ground (arith, e)) in ground (arith, e, c)
    | inr (x, e) ↦ ground (arith, e)
  ]

module _ ⦃env : Env⦄ (ring : KeyRing) (request : Request) (w : World) where
  -- A request, whatever its route does, leaves a session that sees what is committed: what was
  -- written is committed, or rolled back.
  pub handle-clean : (handle ring request w).committed ≡ (handle ring request w).db
  unfolding handle
  handle-clean = get_session-clean (route ring request) w

  -- On a session that is ready (nothing to write, ids that are keys, ids to come that are new), a
  -- request to any route that writes changes the committed tables by one step of the account
  -- lifecycle, its guard and its session included; a new account or code has an id that was drawn
  -- during the request.
  pub handle-Change :
      IsReady w
      → Change
          (DrawnIn w.draws (handle ring request w).draws)
          w.db
          (handle ring request w).committed
  unfolding handle
  handle-Change ready =
      let s = route-IsStep ring w ready request in
      subst (λ n. Change (DrawnIn w.draws n) w.db (handle ring request w).committed)
        (sym (draws-get_session (route ring request) w))
        (subst (Change _ w.db) (sym (get_session-committed (route ring request) w s.settled))
          s.change)

  pub draws-handle : IsReady w → w.draws ≤ (handle ring request w).draws
  unfolding handle
  draws-handle ready =
      subst (λ n. w.draws ≤ n) (sym (draws-get_session (route ring request) w))
        (route-IsStep ring w ready request).draws
