-- ===== src/Refinement/Account.antt =====
-- commands/register_user.py and commands/update_profile.py beside the lifecycle.
use diddifree_id.Prelude.{
  ℕ, ◌+◌, ◌≡◌, ◌<◌, refl, sym, subst, String, Option, true, none, some, arith, Option-cases,
  Bool-cases, inl, inr,
}
use diddifree_id.Domain.Entities.{User}
use diddifree_id.Platform.Environment.{Env}
use diddifree_id.Platform.Monad.{World}
use diddifree_id.Application.Validation.{strip_spaces, is_e164}
use diddifree_id.Infra.Users.{user_by_id, user_by_phone, new_row, add_user, put_user}
use diddifree_id.Infra.Users.Save.{save_found, save_new}
use diddifree_id.Commands.RegisterUser.{register_user, new_user}
use diddifree_id.Commands.UpdateProfile.{update_profile, is_new_name}
use diddifree_id.Lifecycle.{Change, keep, registered, renamed}
use diddifree_id.Lifecycle.Fresh.{IsFresh, DrawnIn}
use diddifree_id.Refinement.Lookup.{user_by_id_self}

module _ ⦃env : Env⦄ (phone : String) (name : Option String) (w : World) where
  committed-register :
      is_e164 (strip_spaces phone) ≡ true
      → user_by_phone (strip_spaces phone) w.db.users ≡ none
      → user_by_id (env.uuid4 w.draws) w.db.users ≡ none
      → (register_user phone name w).1.committed
        ≡ add_user
            (new_row
              (new_user (env.uuid4 w.draws) (strip_spaces phone) name (env.clock (w.draws + 1)))
              (env.clock (w.draws + 2)))
            w.db
  unfolding register_user
  committed-register v p i = ground (
    arith,
    v,
    p,
    save_new (new_user (env.uuid4 w.draws) (strip_spaces phone) name (env.clock (w.draws + 1)))
        (record w { draws = w.draws + 1 + 1 }) i p,
  )

  register-draws :
      is_e164 (strip_spaces phone) ≡ true
      → user_by_phone (strip_spaces phone) w.db.users ≡ none
      → user_by_id (env.uuid4 w.draws) w.db.users ≡ none
      → w.draws < (register_user phone name w).1.draws
  unfolding register_user
  register-draws v p i = ground (
    arith,
    v,
    p,
    save_new (new_user (env.uuid4 w.draws) (strip_spaces phone) name (env.clock (w.draws + 1)))
        (record w { draws = w.draws + 1 + 1 }) i p,
  )

  -- On a session with nothing to write and new ids to draw, a registration, whatever it replies,
  -- leaves committed tables that one step `Change` of the lifecycle makes of those before it
  -- (keeping them is a step); a new id was drawn by the command.
  pub register_user-Change :
      w.committed ≡ w.db
      → IsFresh w
      → Change
          (DrawnIn w.draws (register_user phone name w).1.draws)
          w.db
          (register_user phone name w).1.committed
  unfolding register_user
  register_user-Change clean fresh = elim (Bool-cases (is_e164 (strip_spaces phone))) [
    | inr v ↦ rw (v, clean) keep
    | inl v ↦ elim (Option-cases (user_by_phone (strip_spaces phone) w.db.users)) [
      | inr (a, p) ↦ rw (v, p, clean) keep
      | inl p ↦
          (let i = fresh.users w.draws (omega arith) in
            subst (Change (DrawnIn w.draws (register_user phone name w).1.draws) w.db)
              (sym (committed-register v p i))
              (registered _ _ name _ _
                (record {
                  draw = w.draws;
                  after = omega arith;
                  before = register-draws v p i;
                  id = refl;
                })
                i p))
    ]
  ]

module _ ⦃env : Env⦄ (user_id : ℕ) (name : Option String) (w : World) where
  committed-rename :
      (a : User)
      → user_by_id user_id w.db.users ≡ some a
      → user_by_id a.id w.db.users ≡ some a
      → is_new_name name a.full_name ≡ true
      → (update_profile user_id name w).1.committed
        ≡ put_user (record a { full_name = name }) (env.clock w.draws) w.db
  unfolding update_profile
  committed-rename a f g n = ground (arith, f, n, save_found (record a { full_name = name }) w a g)

  -- On a session with nothing to write, an update of the profile, whatever it replies, leaves
  -- committed tables that one step `Change` of the lifecycle makes of those before it (keeping
  -- them is a step).
  pub update_profile-Change :
      {New : ℕ → Type 0}
      → w.committed ≡ w.db
      → Change New w.db (update_profile user_id name w).1.committed
  unfolding update_profile
  update_profile-Change clean = elim (Option-cases (user_by_id user_id w.db.users)) [
    | inl f ↦ rw (f, clean) keep
    | inr (a, f) ↦ elim (Bool-cases (is_new_name name a.full_name)) [
      | inr n ↦ rw (f, n, clean) keep
      | inl n ↦
          (let g = user_by_id_self user_id w.db.users f in
            subst (Change _ w.db) (sym (committed-rename a f g n)) (renamed a name _ g))
    ]
  ]
