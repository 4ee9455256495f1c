-- ===== src/Schema/Rows.antt =====
-- alembic/versions, revision b2c3d4e5f6a7: what its downgrade leaves of the rows.
use diddifree_id.Prelude.{
  ℕ, true, false, none, some, List, [], ◌∷◌, ◌≡◌, refl, All, find_first, map_option, update_where,
  if◌then◌else◌, arith,
}
use diddifree_id.Domain.Access.{pending_kyc, pending_verification, status_eq}
use diddifree_id.Domain.Entities.{User}
use diddifree_id.Platform.Database.{Db}
use diddifree_id.Infra.Users.{user_by_id}
use diddifree_id.Schema.{Store}
use diddifree_id.Schema.Revisions.{downgrade_kyc}
use diddifree_id.Schema.Laws.{
  IsForeign, initial_tables, head_tables, with_tables, previous_rows, downgrade_kyc_lem,
}

-- An account as the previous revision knows it.
abbrev pub downgraded : User → User
downgraded u = record u {
  status = if status_eq u.status pending_kyc then pending_verification else u.status;
  requested_role = none;
}

pub record IsPrevious (before after : Db) : Type 0 where
  pub settled :
      All (λ u. (status_eq u.status pending_kyc ≡ false) × (u.requested_role ≡ none)) after.users
  pub accounts :
      (i : ℕ) → user_by_id i after.users ≡ map_option downgraded (user_by_id i before.users)
  pub decisions : after.user_role_history ≡ []
  pub codes : after.otp_codes ≡ before.otp_codes
  pub sessions : after.refresh_tokens ≡ before.refresh_tokens
  pub history : after.user_status_history ≡ before.user_status_history

module _ (users : List User) where
  abbrev parked : List User
  parked =
      update_where (λ u. status_eq u.status pending_kyc)
        (λ u. record u { status = pending_verification }) users

  abbrev stripped : List User
  stripped = update_where (λ _. true) (λ u. record u { requested_role = none }) parked

previous_accounts :
    (users : List User) (i : ℕ)
    → user_by_id i (stripped users) ≡ map_option downgraded (user_by_id i users)
unfolding find_first update_where
previous_accounts [] i = refl
previous_accounts (u ∷ us) i = ground (arith, previous_accounts us i)

previous_settled :
    (users : List User)
    → All
        (λ u. (status_eq u.status pending_kyc ≡ false) × (u.requested_role ≡ none))
        (stripped users)
unfolding update_where
previous_settled [] = tt
previous_settled (u ∷ us) = (ground arith, previous_settled us)

-- On a database at the last revision whose other tables stand in other schemas and reference
-- nothing in the schema identity, the downgrade by one revision gives the tables of the first, no
-- account that waits for a decision and no requested role; each account keeps its other columns
-- and, if it did not wait, its status, and codes, sessions and the status history stay as they
-- are, while the role history goes.
pub downgrade_kyc-IsPrevious :
    (s : Store)
    → All IsForeign s.tables
    → (s' : Store) × (downgrade_kyc (with_tables head_tables s) ≡ some s')
      × (s'.tables ≡ (with_tables initial_tables s).tables)
      × IsPrevious s.rows s'.rows
unfolding previous_rows
downgrade_kyc-IsPrevious s foreign = (
  with_tables initial_tables (record s { rows = previous_rows s.rows }),
  downgrade_kyc_lem s foreign,
  refl,
  record {
    settled = previous_settled s.rows.users;
    accounts = previous_accounts s.rows.users;
    decisions = refl;
    codes = refl;
    sessions = refl;
    history = refl;
  },
)
