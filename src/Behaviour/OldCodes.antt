-- ===== src/Behaviour/OldCodes.antt =====
-- infra/write_repository.py, `find_latest_active`: what is found once the newest code is used.
use diddifree_id.Prelude.{
  ℕ, ◌≡◌, ◌≢◌, refl, String, true, Option, none, some, arith, find_first, find_first-update_where,
  All-find, str_eq,
}
use diddifree_id.Domain.Entities.{OtpCode}
use diddifree_id.Platform.Database.{Db}
use diddifree_id.Infra.Otps.{has_otp_id, latest_active, consume, consume_code}
use diddifree_id.Ports.Promises.{IsNotAfter}
use diddifree_id.Ports.Otps.{NotAfter, latest_active-NotAfter}

found_some :
    (t : ℕ) (found : Option OtpCode) → IsNotAfter t found → (q : OtpCode) × (found ≡ some q)
found_some t none h = absurd h
found_some t (some q) h = (q, refl)

module _ (o p : OtpCode) (phone : String) (t : ℕ) (db : Db) where
  -- Once a code is used, any other code of the number that is not consumed keeps the number open:
  -- a search for the latest active code still finds one.
  pub latest_active-consume_code :
      find_first (has_otp_id p.id) db.otp_codes ≡ some p
      → p.id ≢ o.id
      → str_eq p.phone phone ≡ true
      → p.consumed_at ≡ none
      → (q : OtpCode) × (latest_active phone (consume_code o.id t db).otp_codes ≡ some q)
  unfolding consume_code
  latest_active-consume_code f ne same unused =
      let codes = (consume_code o.id t db).otp_codes in
      let kept : find_first (has_otp_id p.id) codes ≡ some p = ground (
        arith,
        f,
        ne,
        find_first-update_where (has_otp_id p.id) (has_otp_id o.id) (consume t) db.otp_codes
            (λ a. refl),
      ) in
      found_some p.created_at (latest_active phone codes) (
        All-find (NotAfter phone (latest_active phone codes)) (has_otp_id p.id) codes
          (latest_active-NotAfter phone codes) kept same unused)
