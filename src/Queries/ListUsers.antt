-- ===== src/Queries/ListUsers.antt =====
-- queries/list_users.py: `ListUsers`, and the routes that serve its pages.
use diddifree_id.Prelude.{
  ℕ, ◌+◌, ◌-◌, ◌/◌, String, Bool, false, not, Option, none, some, List, [], ◌∷◌, is_some, ◌==◌,
  if◌then◌else◌,
}
use diddifree_id.Domain.Access.{role_of_value, status_of_value, role_values, status_values}
use diddifree_id.Domain.Entities.{User}
use diddifree_id.Platform.Environment.{Env}
use diddifree_id.Platform.Monad.{
  M, ◌>>=◌, ◌>>◌, pure, raise, raise_if, field_accepted, invalid_role, invalid_status,
}
use diddifree_id.Application.Payloads.{Profile, profile_payload}
use diddifree_id.Infra.Reads.{Filters, list_users as list_rows}

pub record Pagination : Type 0 where
  pub page : ℕ
  pub page_size : ℕ
  pub total_items : ℕ
  pub total_pages : ℕ

pub record UserList : Type 0 where
  pub rows : List Profile
  pub pagination : Pagination

-- `role is not None and role not in {r.value for r in UserRole}`, and the same of a status.
abbrev pub is_unknown_role : Option String → Bool
is_unknown_role none = false
is_unknown_role (some text) = not (is_some (role_of_value text))

abbrev pub is_unknown_status : Option String → Bool
is_unknown_status none = false
is_unknown_status (some text) = not (is_some (status_of_value text))

-- `ceil(total / page_size) if page_size else 0`
unfoldable pub total_pages : ℕ → ℕ → ℕ
total_pages total page_size = if page_size == 0 then 0 else (total + (page_size - 1)) / page_size

abbrev pub since_filters : ℕ → Filters
since_filters since = record {
  role = none;
  status = none;
  pending_kyc = false;
  created_since = some since;
}

module _ ⦃env : Env⦄ where
  unfoldable pub payloads : List User → List Profile
  payloads [] = []
  payloads (u ∷ us) = profile_payload u ∷ payloads us

  unfoldable pub list_users : Filters → ℕ → ℕ → M UserList
  unfolding role_of_value status_of_value list_rows total_pages payloads
  list_users f page page_size = do
    raise_if (is_unknown_role f.role) (raise 422 invalid_role (field_accepted "role" role_values))
    raise_if (is_unknown_status f.status)
        (raise 422 invalid_status (field_accepted "status" status_values))
    (rows, total) ← list_rows f page page_size
    pure (record {
      rows = payloads rows;
      pagination = record {
        page = page;
        page_size = page_size;
        total_items = total;
        total_pages = total_pages total page_size;
      };
    })

  -- What `GET /users/backfill` asks for, past its guard.
  unfoldable pub backfill : ℕ → ℕ → ℕ → M UserList
  unfolding list_users
  backfill since page page_size = list_users (since_filters since) page page_size
