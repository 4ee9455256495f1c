-- ===== src/Ports/Users.antt =====
-- `SqlAlchemyUserWriteRepository` and `SqlAlchemyUserReadRepository` keep what their ports promise.
use diddifree_id.Prelude.{
  ℕ, zero, suc, ◌≤◌, ◌-◌, ◌*◌, none, some, List, [], ◌∷◌, ◌≡◌, refl, find_first-holds,
  find_first-update_where, find_first-append_one, arith, inl, inr, Option-cases,
}
use diddifree_id.Prelude.Lists.{
  length, length-take, length-drop, length-sort_by, filter, take, drop,
}
use diddifree_id.Domain.Entities.{User}
use diddifree_id.Platform.Environment.{Env}
use diddifree_id.Platform.Monad.{World, ok}
use diddifree_id.Infra.Users.{
  user_by_id, user_by_phone, has_id, assign, new_row, put_user, add_user, save, find_by_id,
  record_status_change, record_role_change, add_status_change, add_role_change,
}
use diddifree_id.Infra.Users.Save.{save_found, save_new}
use diddifree_id.Infra.Reads.{
  get_by_id, get_by_phone, list_users, selected, page_of, matches, order_of, clamp_page,
  clamp_page_size, max_page_size,
}
use diddifree_id.Ports.Promises.{IsWritten, IsUserWriteRepository, IsUserReadRepository}
use diddifree_id.Ports.Wiring.{user_write_repo, user_read_repo}

module _ ⦃env : Env⦄ (u : User) (w : World) {u' : User} {w' : World}
    (saved : save u w ≡ (ok u', w')) where
  find_by_id-save_found :
      (row : User)
      → user_by_id u.id w.db.users ≡ some row
      → (row' : User) × (find_by_id u.id w' ≡ (ok (some row'), w')) × IsWritten u row'
  unfolding find_by_id put_user
  find_by_id-save_found row e =
      let t = env.clock w.draws in
      let same : row.id ≡ u.id = ground (arith, find_first-holds (has_id u.id) w.db.users e) in
      (
        assign u t row,
        ground (
          arith,
          saved,
          save_found u w row e,
          e,
          same,
          find_first-update_where (has_id u.id) (has_id u.id) (assign u t) w.db.users (λ a. refl),
        ),
        record {
          id = same;
          role = refl;
          status = refl;
          full_name = refl;
          password_hash = refl;
          requested_role = refl;
        },
      )

  taken_phone :
      (other : User)
      → user_by_phone u.phone w.db.users ≡ some other
      → user_by_id u.id w.db.users ≡ none
      → ⊥
  unfolding save
  taken_phone other p e = ground (arith, saved, p, e)

  find_by_id-save_new :
      user_by_id u.id w.db.users ≡ none
      → (row' : User) × (find_by_id u.id w' ≡ (ok (some row'), w')) × IsWritten u row'
  unfolding find_by_id add_user
  find_by_id-save_new e = elim (Option-cases (user_by_phone u.phone w.db.users)) [
    | inl p ↦
        let t = env.clock w.draws in
        (
          new_row u t,
          ground (
            arith,
            saved,
            save_new u w e p,
            e,
            find_first-append_one (has_id u.id) w.db.users (new_row u t),
          ),
          record {
            id = refl;
            role = refl;
            status = refl;
            full_name = refl;
            password_hash = refl;
            requested_role = refl;
          },
        )
    | inr (other, p) ↦ absurd (taken_phone other p e)
  ]

module _ ⦃env : Env⦄ where
  committed-save : (u : User) (w : World) → (save u w).1.committed ≡ w.committed
  unfolding save
  committed-save u w = ground arith

  pub user_write_repo-IsUserWriteRepository : IsUserWriteRepository user_write_repo
  unfolding record_status_change record_role_change add_status_change add_role_change
  user_write_repo-IsUserWriteRepository = record {
    find_by_id-save = λ u w {u'} {w'} saved. elim (Option-cases (user_by_id u.id w.db.users)) [
      | inl e ↦ find_by_id-save_new u w saved e
      | inr (row, e) ↦ find_by_id-save_found u w saved row e
    ];
    committed-save = committed-save;
    status_recorded = λ c w. (_, refl, refl, refl);
    role_recorded = λ c w. (_, refl, refl, refl);
    commit_visible = λ w. refl;
  }

length-take-le {ℓ} : {A : Type ℓ} (n : ℕ) (xs : List A) → length (take n xs) ≤ length xs
unfolding take
length-take-le zero xs = omega arith
length-take-le (suc n) [] = omega arith
length-take-le (suc n) (x ∷ xs) = ground (arith, length-take-le n xs)

page_bounds :
    (page page_size : ℕ) (rows : List User)
    → (length (page_of page (clamp_page_size page_size) rows) ≤ max_page_size)
      × (length (page_of page (clamp_page_size page_size) rows) ≤ length rows)
unfolding page_of
page_bounds page page_size rows =
    let n = clamp_page_size page_size in
    let skipped = drop ((page - 1) * n) rows in
    (
      ground (arith, length-take n skipped),
      ground (arith, length-take-le n skipped, length-drop ((page - 1) * n) rows),
    )

pub user_read_repo-IsUserReadRepository : IsUserReadRepository user_read_repo
unfolding get_by_id get_by_phone list_users selected
user_read_repo-IsUserReadRepository = record {
  get_by_id_reads = λ i w. refl;
  get_by_phone_reads = λ p w. refl;
  list_users_reads = λ f page page_size w.
      let bounds = page_bounds (clamp_page page) page_size (selected f w.db.users) in
      (
        _,
        refl,
        bounds.0,
        omega (
          arith,
          bounds.1,
          length-sort_by (order_of f.created_since) (filter (matches f) w.db.users),
        ),
      );
}
