-- ===== src/Platform/Redis.antt =====
-- The commands that the service sends to Redis. A key is its f-string: the prefix is the
-- constructor. A value is the text "1", or the JSON document of a profile.
use diddifree_id.Prelude.{ℕ, String, Option}
use diddifree_id.Domain.Events.{Payload}

pub data Key : Type 0 where
  profile_key : ℕ → Key
  cooldown_key : String → Key
  ip_key : String → Key

-- The JSON object of a cached profile. `none` is a key that the object lacks; the inner option
-- is a JSON `null`. An ISO date stands for its instant.
pub record ProfileDocument : Type 0 where
  pub id : Option String
  pub phone : Option String
  pub full_name : Option (Option String)
  pub role : Option String
  pub status : Option String
  pub created_at : Option (Option ℕ)
  pub updated_at : Option (Option ℕ)

pub data RedisValue : Type 0 where
  one : RedisValue
  document : ProfileDocument → RedisValue
  -- a text that `json.loads` refuses
  unreadable : RedisValue

pub data RedisCall : Type 0 where
  get : Key → RedisCall
  -- with the lifetime `ex` in seconds
  set : Key → RedisValue → ℕ → RedisCall
  delete : Key → RedisCall
  ttl : Key → RedisCall
  incr : Key → RedisCall
  expire : Key → ℕ → RedisCall
  -- stream, event name, payload, `maxlen`
  xadd : String → String → Payload → ℕ → RedisCall

-- The reply to `TTL`: -2 and -1 are the replies for no key and for no expiry.
pub data TtlReply : Type 0 where
  seconds : ℕ → TtlReply
  negative : TtlReply
