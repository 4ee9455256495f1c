-- ===== src/Queries/Outcomes.antt =====
-- What a profile query replies, on every branch, and what it leaves: queries/get_user.py.
use diddifree_id.Prelude.{ℕ, subst, sym, ◌≡◌, none, some, ◌∷◌, inl, inr, Option-cases, arith}
use diddifree_id.Domain.Entities.{User}
use diddifree_id.Platform.Redis.{document, get, profile_key}
use diddifree_id.Platform.Environment.{Env}
use diddifree_id.Platform.Monad.{
  World, Result, Result-cases, Fault, refusal, ok, err, no_details, user_not_found,
}
use diddifree_id.Application.Payloads.{Profile, profile_payload}
use diddifree_id.Infra.Users.{user_by_id}
use diddifree_id.Infra.Cache.{get_user, set_user, to_document}
use diddifree_id.Infra.Cache.Laws.{get_user-to_document}
use diddifree_id.Queries.GetUser.{get_user_by_id}

-- What a profile query replies, and what it sends to Redis after its `GET`.
pub data IsProfileReply ⦃env : Env⦄ (user_id : ℕ) (w : World)
    : Result Profile × World → Type 0 where
  cached :
      {u : User}
      → (get_user user_id w).0 ≡ ok (some u)
      → IsProfileReply user_id w (ok (profile_payload u), (get_user user_id w).1)
  loaded :
      {u : User}
      → (get_user user_id w).0 ≡ ok none
      → user_by_id user_id w.db.users ≡ some u
      → IsProfileReply user_id w (ok (profile_payload u), (set_user u (get_user user_id w).1).1)
  absent :
      (get_user user_id w).0 ≡ ok none
      → user_by_id user_id w.db.users ≡ none
      → IsProfileReply user_id w (refusal 404 user_not_found no_details, (get_user user_id w).1)
  failed :
      {e : Fault}
      → (get_user user_id w).0 ≡ err e
      → IsProfileReply user_id w (err e, (get_user user_id w).1)

module _ ⦃env : Env⦄ (user_id : ℕ) (w : World) where
  db-get_user : (get_user user_id w).1.db ≡ w.db
  unfolding get_user
  db-get_user = ground arith

  pub get_user_by_id-IsProfileReply : IsProfileReply user_id w (get_user_by_id user_id w)
  unfolding get_user_by_id
  get_user_by_id-IsProfileReply = elim (Result-cases (get_user user_id w).0) [
    | inr (e, q) ↦
        let r : get_user_by_id user_id w ≡ (err e, (get_user user_id w).1) = ground (arith, q) in
        subst (IsProfileReply user_id w) (sym r) (failed q)
    | inl (some u, q) ↦
        let r : get_user_by_id user_id w ≡ (ok (profile_payload u), (get_user user_id w).1) =
          ground (arith, q) in
        subst (IsProfileReply user_id w) (sym r) (cached q)
    | inl (none, q) ↦ elim (Option-cases (user_by_id user_id w.db.users)) [
      | inl n ↦
          let r : get_user_by_id user_id w
              ≡ (refusal 404 user_not_found no_details, (get_user user_id w).1) =
            ground (arith, q, n, db-get_user) in
          subst (IsProfileReply user_id w) (sym r) (absent q n)
      | inr (u, n) ↦
          let r : get_user_by_id user_id w
              ≡ (ok (profile_payload u), (set_user u (get_user user_id w).1).1) =
            ground (arith, q, n, db-get_user) in
          subst (IsProfileReply user_id w) (sym r) (loaded q n)
    ]
  ]

  -- A query writes no table, and what it logs and draws is nothing.
  pub get_user_by_id_reads :
      ((get_user_by_id user_id w).1.db ≡ w.db)
      × (((get_user_by_id user_id w).1.committed ≡ w.committed)
          × ((get_user_by_id user_id w).1.draws ≡ w.draws))
  unfolding get_user_by_id
  get_user_by_id_reads = (ground arith, (ground arith, ground arith))

-- The same query twice, where Redis gives back what the first one stored.
module _ ⦃env : Env⦄
    (uuid_of_text-uuid_text : (i : ℕ) → env.uuid_of_text (env.uuid_text i) ≡ some i) (u : User)
    (w : World) where
  -- If the cache has no entry for an account, a query by its id gives its profile; if Redis then
  -- gives back the entry that was stored, the same query gives that profile without its requested
  -- role. The text of every UUID is read back as that UUID.
  pub get_user_by_id_again :
      user_by_id u.id w.db.users ≡ some u
      → (get_user u.id w).0 ≡ ok none
      → env.redis_get (get (profile_key u.id) ∷ (get_user_by_id u.id w).1.redis)
        ≡ some (some (document (to_document u)))
      → ((get_user_by_id u.id w).0 ≡ ok (profile_payload u))
        × ((get_user_by_id u.id (get_user_by_id u.id w).1).0
            ≡ ok (record (profile_payload u) { requested_role = none }))
  unfolding get_user_by_id profile_payload
  get_user_by_id_again found miss back =
      let hit = get_user-to_document uuid_of_text-uuid_text u (get_user_by_id u.id w).1 back in
      (ground (arith, found, miss, db-get_user u.id w), ground (arith, hit))
