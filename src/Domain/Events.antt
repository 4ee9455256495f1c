-- ===== src/Domain/Events.antt =====
-- identity_app/modules/identity/domain/events/user_events.py. The class of an event is its
-- constructor; `at` is the reading of the clock that its default factory makes.
use diddifree_id.Prelude.{ℕ, String, Option, List, [], ◌∷◌, str_eq, if◌then◌else◌, ◌++◌}

-- The fields of `DomainEvent` that a caller gives, and `at`.
pub record EventBase : Type 0 where
  pub user_id : ℕ
  pub phone : String
  pub role : String
  pub at : ℕ

pub data DomainEvent : Type 0 where
  user_registered : EventBase → DomainEvent
  user_updated : EventBase → List String → DomainEvent
  user_role_changed : EventBase → String → String → DomainEvent
  user_status_changed : EventBase → String → String → Option String → DomainEvent

-- `name`, with the `__post_init__` of `UserStatusChanged`.
unfoldable pub event_name : DomainEvent → String
event_name (user_registered b) = "user.registered"
event_name (user_updated b changed) = "user.updated"
event_name (user_role_changed b old new) = "user.role_changed"
event_name (user_status_changed b old new reason) =
    if str_eq new "suspended" then "user.suspended" else "user.updated"

unfoldable pub event_base : DomainEvent → EventBase
event_base (user_registered b) = b
event_base (user_updated b changed) = b
event_base (user_role_changed b old new) = b
event_base (user_status_changed b old new reason) = b

-- A value of a published JSON object.
pub data EventValue : Type 0 where
  text : String → EventValue
  id_text : ℕ → EventValue
  instant : ℕ → EventValue
  texts : List String → EventValue
  optional_text : Option String → EventValue

abbrev pub Payload : Type 0
Payload = List (String × EventValue)

-- `DomainEvent.to_payload`
base_payload : DomainEvent → Payload
unfolding event_name event_base
base_payload e =
    ("event", text (event_name e))
    ∷ ("user_id", id_text (event_base e).user_id)
    ∷ ("phone", text (event_base e).phone)
    ∷ ("role", text (event_base e).role)
    ∷ ("at", instant (event_base e).at)
    ∷ []

-- `to_payload` of each class; `|` of two dicts with different keys appends the second.
unfoldable pub to_payload : DomainEvent → Payload
unfolding base_payload
to_payload (user_registered b) = base_payload (user_registered b)
to_payload (user_updated b changed) =
    base_payload (user_updated b changed) ++ ("changed_fields", texts changed) ∷ []
to_payload (user_role_changed b old new) =
    base_payload (user_role_changed b old new)
    ++ ("old_role", text old) ∷ ("new_role", text new) ∷ []
to_payload (user_status_changed b old new reason) =
    base_payload (user_status_changed b old new reason)
    ++ ("old_status", text old) ∷ ("new_status", text new) ∷ ("reason", optional_text reason) ∷ []
