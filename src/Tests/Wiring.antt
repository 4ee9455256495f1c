-- ===== src/Tests/Wiring.antt =====
-- The wiring of the service, its start and its addresses, on the small instance.
use diddifree_id.Prelude.{
  arith, find_first, ◌≡◌, refl, true, false, none, some, [], ◌∷◌, All, eq_iff, arith,
}
use diddifree_id.Platform.Environment.{Env}
use diddifree_id.Platform.Monad.{World, ok}
use diddifree_id.Infra.Otps.{mark_consumed, latest_active, consume_code}
use diddifree_id.Infra.TokenService.{KeyRing}
use diddifree_id.Infra.Keys.{loaded, get_key_ring}
use diddifree_id.Ports.Filled.{dependencies-ArePorts}
use diddifree_id.Ports.Tokens.{refresh_token_repo-IsRefreshTokenRepository}
use diddifree_id.Ports.Wiring.{refresh_token_repo}
use diddifree_id.Ports.Logout.{IsLoggedOut, logout_with, logout_with-IsLoggedOut}
use diddifree_id.Scripts.GenerateKeys.{
  RsaKey, EnvLines, Files, generate, configured, private_path, public_path, get_key_ring-generate,
}
use diddifree_id.Server.Startup.{Process, lifespan, rings_of, get_redis, rings_of-lifespan}
use diddifree_id.Server.Paths.{get, get_user, dispatch}
use diddifree_id.Server.Paths.Dispatch.{dispatch-IsRoutingTable}
use diddifree_id.Tests.Demo.{demo, start, tables, sent_code}
use diddifree_id.Behaviour.Announced.{IsAnnounced}
use diddifree_id.Behaviour.Announced.Commands.{commands-AreAnnounced}
use diddifree_id.Behaviour.OldCodes.{latest_active-consume_code}
use diddifree_id.Commands.ChangeStatus.{change_status}
use diddifree_id.Domain.Entities.{OtpCode}
use diddifree_id.Platform.Database.{Db}
use diddifree_id.Tests.Witnesses.{tables-IsKeyed}
use diddifree_id.Tests.Signing.{signing}

-- The code of the demo, consumed twice.
dependencies-ArePorts_example :
    (w' : World) × (mark_consumed ⦃env = demo⦄ 10 start ≡ (ok tt, w'))
    × (mark_consumed ⦃env = demo⦄ 10 w' ≡ (ok tt, w'))
dependencies-ArePorts_example =
    (dependencies-ArePorts ⦃env = demo⦄).otps.mark_consumed_again 10 start

logout_with-IsLoggedOut_example :
    IsLoggedOut ⦃env = demo⦄
      (refresh_token_repo ⦃env = demo⦄)
      "opaque_old"
      start
      (logout_with ⦃env = demo⦄ (refresh_token_repo ⦃env = demo⦄) "opaque_old" true start)
logout_with-IsLoggedOut_example =
    logout_with-IsLoggedOut ⦃env = demo⦄ (refresh_token_repo ⦃env = demo⦄)
      (refresh_token_repo-IsRefreshTokenRepository ⦃env = demo⦄) "opaque_old" true start

dispatch-IsRoutingTable_example :
    dispatch ("identity" ∷ "v1" ∷ []) get ("identity" ∷ "v1" ∷ "users" ∷ "42" ∷ []) ≡ some get_user
dispatch-IsRoutingTable_example =
    (dispatch-IsRoutingTable ("identity" ∷ "v1" ∷ []) "42"
        (λ e. absurd (ground (arith, e, eq_iff "42" "")))).lookup
      (λ e. absurd (ground (arith, e, eq_iff "42" "me")))
      (λ e. absurd (ground (arith, e, eq_iff "42" "backfill")))

-- A service that signs, and the process that it starts.
abbrev first_ring : KeyRing
first_ring = record {
  active_kid = "dev-2026-07-01";
  private_pem = "keys/private.pem";
  public_keys = (record { kid = "dev-2026-07-01"; pem = "keys/public.pem" }) ∷ [];
}

abbrev running : Process
running = record {
  cached = some first_ring;
  tokens = some first_ring;
  redis = some "redis://localhost:6381/0";
}

-- The key files go away while it runs.
rings_of-lifespan_example :
    (true ≡ true)
    × ((ring : KeyRing) × (get_key_ring ⦃env = signing⦄ ≡ loaded ring)
        × All (λ r. r ≡ loaded ring) (rings_of (demo ∷ signing ∷ demo ∷ []) running))
    × ((e : Env) → get_redis ⦃env = e⦄ running ≡ signing.settings.redis_url)
unfolding lifespan get_key_ring
rings_of-lifespan_example =
    rings_of-lifespan ⦃env = signing⦄ true (demo ∷ signing ∷ demo ∷ []) {app = running} refl

abbrev new_key : RsaKey
new_key = record { private_pem = "private"; public_pem = "public" }

abbrev no_files : Files
no_files path = none

abbrev printed : EnvLines
printed = record {
  jwt_private_key_path = private_path "keys/next";
  jwt_public_key_path = public_path "keys/next";
  jwt_active_kid = "2026-08-01";
}

abbrev written : Files
unfolding generate
written = (generate "keys/next" "2026-08-01" false new_key no_files).1

get_key_ring-generate_example :
    get_key_ring ⦃env = configured demo written printed⦄
    ≡ loaded (record {
      active_kid = "2026-08-01";
      private_pem = "private";
      public_keys = (record { kid = "2026-08-01"; pem = "public" }) ∷ [];
    })
unfolding generate
get_key_ring-generate_example =
    get_key_ring-generate demo "keys/next" "2026-08-01" false new_key no_files {lines = printed}
      {files' = written} refl

-- A suspension, and its event.
commands-AreAnnounced_example :
    IsAnnounced start (change_status ⦃env = demo⦄ 2 "suspended" none (some 3) start)
commands-AreAnnounced_example =
    (commands-AreAnnounced ⦃env = demo⦄ start refl tables-IsKeyed).statuses 2 "suspended" none
      (some 3)

-- Two codes for one number.
abbrev older_code : OtpCode
older_code = record sent_code { id = 11; created_at = 800 }

abbrev two_codes : Db
two_codes = record tables { otp_codes = older_code ∷ sent_code ∷ [] }

latest_active-consume_code_example :
    (q : OtpCode) × (latest_active "+22890000001" (consume_code 10 950 two_codes).otp_codes
      ≡ some q)
unfolding find_first
latest_active-consume_code_example =
    latest_active-consume_code sent_code older_code "+22890000001" 950 two_codes refl
      (λ e. absurd (omega (arith, e))) refl refl
