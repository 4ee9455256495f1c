-- ===== src/Tests/Readings.antt =====
-- The theorems on queries, replies and the bus at work on the demonstration service.
use diddifree_id.Prelude.{
  ℕ, ◌≡◌, refl, String, Option, none, some, List, [], ◌∷◌, ◌++◌, true, arith, find_first, All,
  str_eq, if◌then◌else◌,
}
use diddifree_id.Domain.Access.{UserRole, UserStatus}
use diddifree_id.Domain.Entities.{User}
use diddifree_id.Domain.Events.{DomainEvent, user_registered, Payload, to_payload, event_name}
use diddifree_id.Platform.Monad.{World, ok}
use diddifree_id.Application.Payloads.{profile_payload}
use diddifree_id.Infra.Reads.{Filters}
use diddifree_id.Infra.Bus.{stream_key}
use diddifree_id.Infra.Consumer.{
  Broker, Entry, Consumer, new_consumer, group_created, returned, read, read_pending, field_of,
}
use diddifree_id.Infra.Consumer.Decoding.{no_entries, published, malformed, read_published}
use diddifree_id.Queries.ListUsers.{list_users, since_filters}
use diddifree_id.Queries.Walk.{walk, pages_of}
use diddifree_id.Queries.Listing.{IsWalked, walk_registered}
use diddifree_id.Queries.Pages.{IsListReply, list_users-IsListReply}
use diddifree_id.Commands.RequestOtp.{request_otp}
use diddifree_id.Domain.Entities.{RefreshToken}
use diddifree_id.Domain.Access.{is_session_allowed}
use diddifree_id.Platform.Monad.{refusal, refresh_token_revoked, no_details}
use diddifree_id.Infra.Users.{save}
use diddifree_id.Infra.Tokens.{has_hash}
use diddifree_id.Infra.TokenService.{hash_refresh_token}
use diddifree_id.Commands.RefreshAccessToken.{refresh_access_token}
use diddifree_id.Refinement.Reuse.{is_closed_for}
use diddifree_id.Domain.Access.{role_of_value}
use diddifree_id.Domain.Entities.{needs_kyc_for}
use diddifree_id.Commands.ChangeRole.{change_role}
use diddifree_id.Commands.DecideKyc.{decide_kyc}
use diddifree_id.Behaviour.RoleReply.{IsRoleReply, change_role-IsRoleReply}
use diddifree_id.Behaviour.KycGrant.{change_role-decide_kyc}
use diddifree_id.Behaviour.Refresh.{refresh_access_token_once}
use diddifree_id.Behaviour.Enumeration.{request_otp-IsBlind}
use diddifree_id.Server.Reads.{read_route, user_list_since}
use diddifree_id.Server.Reads.Effects.{read_route-IsGuard}
use diddifree_id.Server.Guards.{IsGuard}
use diddifree_id.Tests.Demo.{id_text, kofi, demo, ring, tables, start, account}

-- All accounts, the oldest first, two on a page.
abbrev everyone : Filters
everyone = since_filters 0

-- A registration while the pages are read.
abbrev latecomer : User
latecomer = record (account 4 "+22890000004" UserRole.user UserStatus.active none) {
  created_at = some 5;
}

abbrev registered : ℕ → List User
registered n = latecomer ∷ []

abbrev later_states : ℕ → World
later_states n = record start { db = record tables { users = tables.users ++ latecomer ∷ [] } }

walk_registered_example :
    IsWalked everyone 2 tables.users registered
      (walk everyone 2 later_states (pages_of (list_users everyone 1 2 start).0))
walk_registered_example =
    walk_registered 0 2 2 start later_states registered (omega arith) (omega arith) (λ n. refl)
      (omega arith, (omega arith, (omega arith, tt))) (λ n. (omega arith, tt))

-- The second page of the accounts that are active.
abbrev active_ones : Filters
active_ones = record everyone { status = some "active" }

list_users-IsListReply_example :
    IsListReply active_ones 2 1 tables.users (list_users active_ones 2 1 start).0
    × ((list_users active_ones 2 1 start).1 ≡ start)
list_users-IsListReply_example = list_users-IsListReply active_ones 2 1 start

-- The number of an account, and the same tables without it.
abbrev nobody : World
nobody = record start { db = record tables { users = [] } }

request_otp-IsBlind_example :
    (request_otp "+22890000002" none start).0 ≡ (request_otp "+22890000002" none nobody).0
request_otp-IsBlind_example = (request_otp-IsBlind "+22890000002" none).result start nobody refl

read_route-IsGuard_example :
    IsGuard (read_route ring (user_list_since none (some "admin") 0 1 20)) start
read_route-IsGuard_example =
    read_route-IsGuard ring (user_list_since none (some "admin") 0 1 20) start

-- An event on the stream, after an entry without a payload.
abbrev event : DomainEvent
event = user_registered (record { user_id = 2; phone = "+22890000002"; role = "user"; at = 1000 })

abbrev odd_entry : Entry
odd_entry = record { entry_id = "1-0"; fields = [] }

abbrev entries : List Entry
entries =
    odd_entry
    ∷ (record { entry_id = "2-0"; fields = ("event", event_name event) ∷ ("payload", "json") ∷ [] })
    ∷ []

abbrev loads_json : String → Option Payload
loads_json s = if str_eq s "json" then some (to_payload event) else none

abbrev broker : Broker
broker = record {
  create_reply = λ calls. group_created;
  read_reply = λ calls. some (some ((stream_key, entries) ∷ []));
  ack_reply = λ calls. true;
  json_dumps = λ p. "json";
  json_loads = loads_json;
}

abbrev wallet : Consumer
wallet = new_consumer "diddi-wallet" "worker-1"

read_published_example :
    ((read ⦃broker = broker⦄ wallet 10 5000 []).0 ≡ returned (("2-0", to_payload event) ∷ []))
    × ((read_pending ⦃broker = broker⦄ wallet 10 []).0 ≡ returned (("2-0", to_payload event) ∷ []))
unfolding field_of
read_published_example =
    read_published ⦃broker = broker⦄ wallet 10 5000 [] {stream = stream_key} {xs = entries}
      {es = ("2-0", event) ∷ []} (refl, tt)
      (malformed odd_entry refl (published ("2-0", event) no_entries)) refl refl

-- A refresh token, presented again after its refresh.
abbrev renewed : World
renewed = (refresh_access_token ring "opaque_old" none start).1

refresh_access_token_once_example :
    (k : RefreshToken) × ((find_first (has_hash "opaque_old") tables.refresh_tokens ≡ some k)
      × (((refresh_access_token ring "opaque_old" none renewed).0
            ≡ refusal 401 refresh_token_revoked no_details)
          × All
              (λ s. is_closed_for k.user_id s ≡ true)
              (refresh_access_token ring "opaque_old" none renewed).1.committed.refresh_tokens))
unfolding refresh_access_token find_first is_session_allowed id_text hash_refresh_token
refresh_access_token_once_example =
    refresh_access_token_once ring "opaque_old" none start
      {pair = record { access_token = "ii"; refresh_token = "opaque_raw" }} ring none renewed refl
      refl

-- A merchant's role, requested and granted.
change_role-IsRoleReply_example :
    IsRoleReply 2 "merchant" start (change_role 2 "merchant" none none start).0
change_role-IsRoleReply_example = change_role-IsRoleReply 2 "merchant" none none start

change_role-decide_kyc_example :
    (decide_kyc 2 true none (some 3) (change_role 2 "merchant" none none start).1).0
    ≡ ok (profile_payload (record kofi { role = UserRole.merchant }))
unfolding role_of_value find_first needs_kyc_for change_role save
change_role-decide_kyc_example =
    change_role-decide_kyc 2 "merchant" none none start refl UserRole.merchant kofi refl refl refl
      true none (some 3) (change_role 2 "merchant" none none start).1 refl
