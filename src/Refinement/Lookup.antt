-- ===== src/Refinement/Lookup.antt =====
-- What a successful lookup says of its row.
use diddifree_id.Prelude.{ℕ, String, ◌≡◌, ◌∙◌, ap, List, some, arith, find_first-holds, eq_iff}
use diddifree_id.Domain.Entities.{User}
use diddifree_id.Infra.Users.{has_id, has_phone, user_by_id, user_by_phone}

pub id-user_by_id : (i : ℕ) (us : List User) {a : User} → user_by_id i us ≡ some a → a.id ≡ i
id-user_by_id i us {a} e = let h = find_first-holds (has_id i) us e in ground arith

pub user_by_id_self :
    (i : ℕ) (us : List User) {a : User} → user_by_id i us ≡ some a → user_by_id a.id us ≡ some a
user_by_id_self i us {a} e = ap (λ k. user_by_id k us) (id-user_by_id i us e) ∙ e

pub phone-user_by_phone :
    (p : String) (us : List User) {a : User} → user_by_phone p us ≡ some a → a.phone ≡ p
phone-user_by_phone p us {a} e = (eq_iff a.phone p).0 (find_first-holds (has_phone p) us e)
