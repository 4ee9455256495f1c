-- ===== src/Queries/Wanted.antt =====
-- What a query wants of the rows, in words of the route: identity_app/modules/identity/infra/
-- read_repository.py, `list_users`.
use diddifree_id.Prelude.{
  ℕ, ◌≤◌, ◌<◌, ◌≡◌, refl, String, Bool, true, false, not, Option, none, some, ◌⊎◌, List, [], ◌∷◌,
  All, All-map, is_some, eq_iff, arith, if◌then◌else◌,
}
use diddifree_id.Prelude.Lists.{IsSorted}
use diddifree_id.Domain.Access.{UserRole, role_value, status_value}
use diddifree_id.Domain.Entities.{User}
use diddifree_id.Infra.Reads.{
  Filters, matches, where_eq, where_since, is_older, is_newer, order_of, instant_of,
}

abbrev pub IsAsked : Option String → String → Type 0
IsAsked none column = Unit
IsAsked (some text) column = text ≡ column

-- A pending request for a role, if only those are asked for.
abbrev pub IsWaiting : Bool → Option UserRole → Type 0
IsWaiting false requested = Unit
IsWaiting true requested = (q : UserRole) × (requested ≡ some q)

abbrev pub IsSince : Option ℕ → ℕ → Type 0
IsSince none instant = Unit
IsSince (some since) instant = since ≤ instant

pub record IsWanted (f : Filters) (u : User) : Type 0 where
  pub role : IsAsked f.role (role_value u.role)
  pub status : IsAsked f.status (status_value u.status)
  pub waiting : IsWaiting f.pending_kyc u.requested_role
  pub since : IsSince f.created_since (instant_of u)

-- One row before another: the oldest first from an instant on, and else the newest first; rows of
-- one instant by their ids, in the same direction.
abbrev pub IsBefore : Option ℕ → User → User → Type 0
IsBefore none u v = (instant_of v < instant_of u) ⊎ ((instant_of v ≡ instant_of u) × (v.id ≤ u.id))
IsBefore (some since) u v =
    (instant_of u < instant_of v) ⊎ ((instant_of u ≡ instant_of v) × (u.id ≤ v.id))

-- Each row before all later ones.
abbrev pub IsInOrder : Option ℕ → List User → Type 0
IsInOrder since [] = Unit
IsInOrder since (u ∷ us) = All (IsBefore since u) us × IsInOrder since us

where_eq-IsAsked : (o : Option String) (c : String) → where_eq o c ≡ true → IsAsked o c
where_eq-IsAsked none c h = tt
where_eq-IsAsked (some text) c h = ground (arith, h, eq_iff text c, eq_iff c text)

IsAsked-where_eq : (o : Option String) (c : String) → IsAsked o c → where_eq o c ≡ true
IsAsked-where_eq none c h = refl
IsAsked-where_eq (some text) c h = ground (arith, h, eq_iff text c, eq_iff c text)

where_since-IsSince : (o : Option ℕ) (t : ℕ) → where_since o t ≡ true → IsSince o t
where_since-IsSince none t h = tt
where_since-IsSince (some since) t h = ground (arith, h)

IsSince-where_since : (o : Option ℕ) (t : ℕ) → IsSince o t → where_since o t ≡ true
IsSince-where_since none t h = refl
IsSince-where_since (some since) t h = ground (arith, h)

waits : Bool → Option UserRole → Bool
waits b o = if b then is_some o else true

waits-IsWaiting : (b : Bool) (o : Option UserRole) → waits b o ≡ true → IsWaiting b o
unfolding waits
waits-IsWaiting false o h = tt
waits-IsWaiting true none h = absurd (ground (arith, h))
waits-IsWaiting true (some q) h = (q, refl)

IsWaiting-waits : (b : Bool) (o : Option UserRole) → IsWaiting b o → waits b o ≡ true
unfolding waits
IsWaiting-waits false o h = refl
IsWaiting-waits true o h = let e = h.1 in rw e refl

pub matches-IsWanted : (f : Filters) (u : User) → matches f u ≡ true → IsWanted f u
unfolding matches waits
matches-IsWanted f u h = record {
  role = where_eq-IsAsked f.role (role_value u.role) (ground (arith, h));
  status = where_eq-IsAsked f.status (status_value u.status) (ground (arith, h));
  waiting = waits-IsWaiting f.pending_kyc u.requested_role (ground (arith, h));
  since = where_since-IsSince f.created_since (instant_of u) (ground (arith, h));
}

pub matches-IsUnwanted : (f : Filters) (u : User) → not (matches f u) ≡ true → ¬ IsWanted f u
unfolding matches waits
matches-IsUnwanted f u h w = absurd (
    ground (
      arith,
      h,
      IsAsked-where_eq f.role (role_value u.role) w.role,
      IsAsked-where_eq f.status (status_value u.status) w.status,
      IsWaiting-waits f.pending_kyc u.requested_role w.waiting,
      IsSince-where_since f.created_since (instant_of u) w.since,
    ))

order_of-IsBefore : (since : Option ℕ) (u v : User) → order_of since u v ≡ true → IsBefore since u v
unfolding is_older is_newer
order_of-IsBefore none u v h = ground (arith, h)
order_of-IsBefore (some since) u v h = ground (arith, h)

pub IsSorted-IsInOrder :
    (since : Option ℕ) (us : List User) → IsSorted (order_of since) us → IsInOrder since us
IsSorted-IsInOrder since [] h = tt
IsSorted-IsInOrder since (u ∷ us) h = (
  All-map (λ v. order_of since u v ≡ true) (IsBefore since u) us (order_of-IsBefore since u) h.0,
  IsSorted-IsInOrder since us h.1,
)
