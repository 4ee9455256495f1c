-- ===== src/Domain/Access.antt =====
-- identity_app/modules/identity/domain/entities.py: the two enumerations and the tables over them.
use diddifree_id.Prelude.{
  String, Bool, true, false, ◌||◌, Option, none, some, List, [], ◌∷◌, ◌≡◌, ◌↔◌, refl, arith, str_eq,
  if◌then◌else◌,
}

pub data UserRole : Type 0 where
  user driver merchant admin : UserRole

pub data UserStatus : Type 0 where
  pending_verification pending_kyc active suspended : UserStatus

abbrev pub role_eq : UserRole → UserRole → Bool
role_eq UserRole.user UserRole.user = true
role_eq UserRole.driver UserRole.driver = true
role_eq UserRole.merchant UserRole.merchant = true
role_eq UserRole.admin UserRole.admin = true
role_eq _ _ = false

abbrev pub status_eq : UserStatus → UserStatus → Bool
status_eq UserStatus.pending_verification UserStatus.pending_verification = true
status_eq UserStatus.pending_kyc UserStatus.pending_kyc = true
status_eq UserStatus.active UserStatus.active = true
status_eq UserStatus.suspended UserStatus.suspended = true
status_eq _ _ = false

-- `a == b` where either may be `None`.
abbrev pub requested_eq : Option UserRole → UserRole → Bool
requested_eq none r = false
requested_eq (some q) r = role_eq q r

-- `UserRole.value`, `UserStatus.value`.
unfoldable pub role_value : UserRole → String
role_value UserRole.user = "user"
role_value UserRole.driver = "driver"
role_value UserRole.merchant = "merchant"
role_value UserRole.admin = "admin"

unfoldable pub status_value : UserStatus → String
status_value UserStatus.pending_verification = "pending_verification"
status_value UserStatus.pending_kyc = "pending_kyc"
status_value UserStatus.active = "active"
status_value UserStatus.suspended = "suspended"

-- `UserRole(text)`, `UserStatus(text)`: `none` is the `ValueError`.
unfoldable pub role_of_value : String → Option UserRole
role_of_value s =
    if str_eq s "user"
    then some UserRole.user
    else if str_eq s "driver"
    then some UserRole.driver
    else if str_eq s "merchant"
    then some UserRole.merchant
    else if str_eq s "admin"
    then some UserRole.admin
    else none

unfoldable pub status_of_value : String → Option UserStatus
status_of_value s =
    if str_eq s "pending_verification"
    then some UserStatus.pending_verification
    else if str_eq s "pending_kyc"
    then some UserStatus.pending_kyc
    else if str_eq s "active"
    then some UserStatus.active
    else if str_eq s "suspended"
    then some UserStatus.suspended
    else none

role_in : UserRole → List UserRole → Bool
role_in r [] = false
role_in r (x ∷ xs) = role_eq r x || role_in r xs

status_in : UserStatus → List UserStatus → Bool
status_in s [] = false
status_in s (x ∷ xs) = status_eq s x || status_in s xs

abbrev kyc_required_roles : List UserRole
kyc_required_roles = UserRole.driver ∷ UserRole.merchant ∷ []

abbrev allowed_status_transitions : UserStatus → List UserStatus
allowed_status_transitions UserStatus.pending_verification =
    UserStatus.active ∷ UserStatus.pending_kyc ∷ UserStatus.suspended ∷ []
allowed_status_transitions UserStatus.pending_kyc = UserStatus.active ∷ UserStatus.suspended ∷ []
allowed_status_transitions UserStatus.active = UserStatus.suspended ∷ []
allowed_status_transitions UserStatus.suspended = UserStatus.active ∷ []

abbrev session_allowed_statuses : List UserStatus
session_allowed_statuses = UserStatus.active ∷ UserStatus.pending_kyc ∷ []

abbrev admin_settable_statuses : List UserStatus
admin_settable_statuses = UserStatus.active ∷ UserStatus.suspended ∷ []

-- `role in KYC_REQUIRED_ROLES`
unfoldable pub is_kyc_required : UserRole → Bool
unfolding role_in
is_kyc_required r = role_in r kyc_required_roles

-- `status in SESSION_ALLOWED_STATUSES`
unfoldable pub is_session_allowed : UserStatus → Bool
unfolding status_in
is_session_allowed s = status_in s session_allowed_statuses

-- `status in ADMIN_SETTABLE_STATUSES`
unfoldable pub is_admin_settable : UserStatus → Bool
unfolding status_in
is_admin_settable s = status_in s admin_settable_statuses

unfoldable pub can_transition : UserStatus → UserStatus → Bool
unfolding status_in
can_transition current target = status_in target (allowed_status_transitions current)

pub role_eq_iff : (a b : UserRole) → (role_eq a b ≡ true) ↔ (a ≡ b)
role_eq_iff a b = (λ h. ground arith, λ h. ground arith)

pub status_eq_iff : (a b : UserStatus) → (status_eq a b ≡ true) ↔ (a ≡ b)
status_eq_iff a b = (λ h. ground arith, λ h. ground arith)

-- `[r.value for r in UserRole]`, and the same of the statuses.
abbrev pub role_values : List String
unfolding role_value
role_values =
    role_value UserRole.user
    ∷ role_value UserRole.driver
    ∷ role_value UserRole.merchant
    ∷ role_value UserRole.admin
    ∷ []

abbrev pub status_values : List String
unfolding status_value
status_values =
    status_value UserStatus.pending_verification
    ∷ status_value UserStatus.pending_kyc
    ∷ status_value UserStatus.active
    ∷ status_value UserStatus.suspended
    ∷ []

pub role_of_value-role_value : (r : UserRole) → role_of_value (role_value r) ≡ some r
unfolding role_of_value role_value
role_of_value-role_value UserRole.user = refl
role_of_value-role_value _ = refl

pub status_of_value-status_value : (s : UserStatus) → status_of_value (status_value s) ≡ some s
unfolding status_of_value status_value
status_of_value-status_value UserStatus.active = refl
status_of_value-status_value _ = refl
