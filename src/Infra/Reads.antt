-- ===== src/Infra/Reads.antt =====
-- identity_app/modules/identity/infra/read_repository.py: `SqlAlchemyUserReadRepository`. The
-- columns of a row are those of its entity; `created_at` is not null in the table.
use diddifree_id.Prelude.{
  ℕ, ◌-◌, ◌*◌, String, Bool, true, ◌&&◌, ◌||◌, Option, none, some, List, is_some, or_else, str_eq,
  leb, ltb, ◌==◌, if◌then◌else◌,
}
use diddifree_id.Prelude.Lists.{length, filter, take, drop, sort_by}
use diddifree_id.Domain.Access.{role_value, status_value}
use diddifree_id.Domain.Entities.{User}
use diddifree_id.Platform.Monad.{M, ◌>>=◌, pure, query}
use diddifree_id.Infra.Users.{user_by_id, user_by_phone}

abbrev pub max_page_size : ℕ
max_page_size = 100

-- The filters of `list_users`, and the page.
pub record Filters : Type 0 where
  pub role : Option String
  pub status : Option String
  pub pending_kyc : Bool
  pub created_since : Option ℕ

unfoldable pub get_by_id : ℕ → M (Option User)
get_by_id user_id = query (λ db. user_by_id user_id db.users)

unfoldable pub get_by_phone : String → M (Option User)
get_by_phone phone = query (λ db. user_by_phone phone db.users)

abbrev pub instant_of : User → ℕ
instant_of u = or_else u.created_at 0

-- A condition that is only there if its filter is.
abbrev pub where_eq : Option String → String → Bool
where_eq none column = true
where_eq (some text) column = str_eq column text

abbrev pub where_since : Option ℕ → ℕ → Bool
where_since none column = true
where_since (some since) column = leb since column

-- `WHERE` with the conditions that apply.
unfoldable pub matches : Filters → User → Bool
unfolding role_value status_value
matches f u =
    where_eq f.role (role_value u.role)
    && where_eq f.status (status_value u.status)
    && (if f.pending_kyc then is_some u.requested_role else true)
    && where_since f.created_since (instant_of u)

-- `created_at.asc(), id.asc()`, and both descending.
unfoldable pub is_older : User → User → Bool
is_older u v = ltb (instant_of u) (instant_of v) || (instant_of u == instant_of v && leb u.id v.id)

unfoldable pub is_newer : User → User → Bool
is_newer u v = ltb (instant_of v) (instant_of u) || (instant_of u == instant_of v && leb v.id u.id)

abbrev pub order_of : Option ℕ → User → User → Bool
order_of none = is_newer
order_of (some since) = is_older

-- All rows that a list selects, in its order.
unfoldable pub selected : Filters → List User → List User
unfolding filter sort_by matches is_newer is_older
selected f users = sort_by (order_of f.created_since) (filter (matches f) users)

-- `max(page, 1)`, and `min(max(page_size, 1), MAX_PAGE_SIZE)`.
abbrev pub clamp_page : ℕ → ℕ
clamp_page page = if page == 0 then 1 else page

abbrev pub clamp_page_size : ℕ → ℕ
clamp_page_size n = if n == 0 then 1 else if ltb max_page_size n then max_page_size else n

unfoldable pub page_of : ℕ → ℕ → List User → List User
unfolding take drop
page_of page page_size rows = take page_size (drop ((page - 1) * page_size) rows)

unfoldable pub list_users : Filters → ℕ → ℕ → M (List User × ℕ)
unfolding filter selected page_of
list_users f page page_size = do
  total ← query (λ db. length (filter (matches f) db.users))
  rows ← query (λ db. page_of (clamp_page page) (clamp_page_size page_size) (selected f db.users))
  pure (rows, total)
