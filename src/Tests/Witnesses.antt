-- ===== src/Tests/Witnesses.antt =====
-- The theorems at work on the demonstration service.
use diddifree_id.Prelude.{
  List, ◌≡◌, refl, ap, [], ◌∷◌, true, none, some, arith, find_first, update_where,
}
use diddifree_id.Domain.Access.{UserRole, is_session_allowed, can_transition, status_value}
use diddifree_id.Platform.Database.{Db}
use diddifree_id.Platform.Monad.{World}
use diddifree_id.Lifecycle.{Change}
use diddifree_id.Lifecycle.Fresh.{DrawnIn}
use diddifree_id.Lifecycle.Keyed.{IsKeyed}
use diddifree_id.Invariants.Sessions.{AreSessionsAllowed}
use diddifree_id.Invariants.Codes.{AreCodesBounded}
use diddifree_id.Invariants.Audit.{IsAudited, is_trail, last_status}
use diddifree_id.Server.WellFormed.{IsWellFormed, serve-IsWellFormed}
use diddifree_id.Server.Routes.{Request, otp_verify, register, handle, serve}
use diddifree_id.Commands.RegisterUser.{register_user}
use diddifree_id.Commands.VerifyOtp.{verify_otp}
use diddifree_id.Commands.ChangeStatus.{change_status}
use diddifree_id.Refinement.ChangeStatus.{change_status-Change}
use diddifree_id.Refinement.Account.{register_user-Change}
use diddifree_id.Refinement.VerifyOtp.{verify_otp-Change}
use diddifree_id.Refinement.Settled.{IsSettled}
use diddifree_id.Invariants.Sessions.{Change-AreSessionsAllowed}
use diddifree_id.Invariants.Codes.{Change-AreCodesBounded}
use diddifree_id.Invariants.Audit.{Change-IsAudited}
use diddifree_id.Infra.Cache.{to_document, of_document}
use diddifree_id.Infra.Cache.Laws.{forgotten, of_document-to_document}
use diddifree_id.Infra.Users.{find_by_id, save}
use diddifree_id.Infra.TokenService.{decode_access_token}
use diddifree_id.Server.Auth.{require_admin}
use diddifree_id.Server.Guards.{IsActiveAdmin, require_admin-ok}
use diddifree_id.Server.Routes.{route, status_change, kyc_decision}
use diddifree_id.Server.Steps.{IsReady, handle-Change, route-IsSettled}
use diddifree_id.Domain.Entities.{RefreshToken}
use diddifree_id.Infra.Users.{put_user, add_role_change}
use diddifree_id.Invariants.Roles.{HadOrRequested}
use diddifree_id.Server.Roles.{driver, handle-HadOrRequested}
use diddifree_id.Commands.DecideKyc.{decide_kyc}
use diddifree_id.Platform.Session.{get_session}
use diddifree_id.Tests.Demo.{
  open_session, length-id_text, ama, root, demo, ring, tables, start, start-IsFresh,
}

pub tables-IsKeyed : IsKeyed tables
unfolding find_first
tables-IsKeyed = record { users = (refl, (refl, (refl, tt))); codes = (refl, tt) }

tables-AreSessionsAllowed : AreSessionsAllowed tables
unfolding find_first is_session_allowed
tables-AreSessionsAllowed = (refl, tt)

tables-AreCodesBounded : AreCodesBounded 5 tables
tables-AreCodesBounded = (refl, tt)

tables-IsAudited : IsAudited tables
unfolding is_trail last_status find_first can_transition
tables-IsAudited = record { trail = λ i. ground arith; current = λ i. ground arith }

tables-IsWellFormed : IsWellFormed 5 tables
tables-IsWellFormed = record {
  keyed = tables-IsKeyed;
  sessions = tables-AreSessionsAllowed;
  codes = tables-AreCodesBounded;
  audited = tables-IsAudited;
}

-- A first login with a role request, a suspension by the admin, and a registration.
abbrev requests : List Request
requests =
    otp_verify "+22890000001" "123456" none
    ∷ status_change (some "admin") 2 "suspended" none
    ∷ register "+228 90 00 00 04" none
    ∷ []

serve-IsWellFormed_example : IsWellFormed 5 (serve ring requests start).db
serve-IsWellFormed_example =
    serve-IsWellFormed (λ m n e. omega (arith, e)) (omega arith) ring requests start refl
      start-IsFresh tables-IsWellFormed

start-IsReady : IsReady start
start-IsReady = record { clean = refl; keyed = tables-IsKeyed; fresh = start-IsFresh }

-- The admin suspends an account.
abbrev suspension : Request
suspension = status_change (some "admin") 2 "suspended" none

handle-Change_example :
    Change
      (DrawnIn 0 (handle ring suspension start).draws)
      tables
      (handle ring suspension start).committed
handle-Change_example = handle-Change ring suspension start start-IsReady

route-IsSettled_example : IsSettled (route ring suspension start)
route-IsSettled_example = route-IsSettled ring suspension start start-IsReady

require_admin-ok_example : IsActiveAdmin tables root
unfolding require_admin decode_access_token find_by_id find_first status_value
require_admin-ok_example = require_admin-ok ring (some "admin") start {u = root} refl

verify_otp-Change_example :
    Change (λ i. ⊥) tables (verify_otp ring "+22890000001" "123456" none start).1.committed
verify_otp-Change_example =
    verify_otp-Change ring "+22890000001" "123456" none start refl tables-IsKeyed

registration-Change :
    Change
      (DrawnIn 0 (register_user "+228 90 00 00 04" none start).1.draws)
      tables
      (register_user "+228 90 00 00 04" none start).1.committed
registration-Change = register_user-Change "+228 90 00 00 04" none start refl start-IsFresh

suspension-Change :
    Change (λ i. ⊥) tables (change_status 2 "suspended" none (some 3) start).1.committed
suspension-Change = change_status-Change 2 "suspended" none (some 3) start refl

Change-AreSessionsAllowed_example :
    AreSessionsAllowed (change_status 2 "suspended" none (some 3) start).1.committed
Change-AreSessionsAllowed_example =
    Change-AreSessionsAllowed suspension-Change tables-AreSessionsAllowed

Change-AreCodesBounded_example :
    AreCodesBounded 5 (verify_otp ring "+22890000001" "000000" none start).1.committed
Change-AreCodesBounded_example =
    Change-AreCodesBounded (omega arith) {New = λ i. ⊥}
      (verify_otp-Change ring "+22890000001" "000000" none start refl tables-IsKeyed) tables-IsKeyed
      tables-AreCodesBounded

Change-IsAudited_example : IsAudited (change_status 2 "suspended" none (some 3) start).1.committed
Change-IsAudited_example = Change-IsAudited suspension-Change tables-IsAudited

of_document-to_document_example : of_document (to_document ama) ≡ some (forgotten ama)
of_document-to_document_example = of_document-to_document (λ i. ap some (length-id_text i)) ama

-- The admin grants the role that an account asked for.
abbrev grant : Request
grant = kyc_decision (some "admin") 1 true none

handle-HadOrRequested_example : HadOrRequested 1 UserRole.driver tables
unfolding handle route get_session require_admin decode_access_token find_by_id find_first
    status_value decide_kyc save put_user add_role_change update_where
handle-HadOrRequested_example = handle-HadOrRequested ring grant start start-IsReady 1 driver refl

-- The session of an account was rotated, and another one is open.
abbrev rotated_session : RefreshToken
rotated_session = record open_session { revoked_at = some 950 }

abbrev stale_tables : Db
stale_tables = record tables {
  refresh_tokens =
      rotated_session ∷ (record open_session { id = 21; token_hash = "opaque_new" }) ∷ [];
}

abbrev stale : World
stale = record start { db = stale_tables; committed = stale_tables }
