-- ===== src/Infra/Consumer.antt =====
-- identity_app/shared_kernel/events/bus.py: `RedisEventConsumer` and `_decode`, as a module that
-- subscribes to the stream runs them.
pub mod Decoding
pub mod Loop
pub mod Group
mod Entries
pub mod Redelivery
use diddifree_id.Prelude.{
  ℕ, String, Bool, true, false, ◌||◌, Option, none, some, List, [], ◌∷◌, str_eq, if◌then◌else◌,
}
use Prim.Native.Char.{Char, code}
use diddifree_id.Prelude.{◌==◌, ◌&&◌}
use diddifree_id.Domain.Events.{Payload}
use diddifree_id.Infra.Bus.{stream_key}

-- An entry of the stream, with its fields.
pub record Entry : Type 0 where
  pub entry_id : String
  pub fields : List (String × String)

-- A reply to `XREADGROUP`: the entries of each stream.
abbrev pub Response : Type 0
Response = List (String × List Entry)

-- The commands that a consumer sends: stream, group, and
pub data GroupCall : Type 0 where
  -- the id that the group starts from
  xgroup_create : String → String → String → GroupCall
  -- the consumer, the id after which it reads, `count` and `block`
  xreadgroup : String → String → String → String → ℕ → Option ℕ → GroupCall
  -- the entry
  xack : String → String → String → GroupCall

pub data GroupReply : Type 0 where
  group_created : GroupReply
  response_error : (message : String) → GroupReply
  -- any other failure of the call
  call_failed : GroupReply

-- The Redis server, by the commands sent to it so far, the last one first, and Python's `json`:
-- `none` is the exception of a call, and the `ValueError` of `json.loads`.
pub record Broker : Type 0 where
  pub create_reply : List GroupCall → GroupReply
  pub read_reply : List GroupCall → Option (Option Response)
  pub ack_reply : List GroupCall → Bool
  pub json_dumps : Payload → String
  pub json_loads : String → Option Payload

pub data Raised : Type 0 where
  redis_error : Raised

pub data Outcome (A : Type 0) : Type 0 where
  returned : A → Outcome A
  raised : Raised → Outcome A

-- A consumer: the commands that it sent.
abbrev pub C : Type 0 → Type 0
C A = List GroupCall → Outcome A × List GroupCall

pub record Consumer : Type 0 where
  pub stream : String
  pub group : String
  pub name : String

abbrev pub new_consumer : String → String → Consumer
new_consumer group name = record { stream = stream_key; group = group; name = name }

-- `"BUSYGROUP" in text`
starts_with : String → String → Bool
starts_with String.[] s = true
starts_with (String.◌∷◌ c p) String.[] = false
starts_with (String.◌∷◌ c p) (String.◌∷◌ d s) = (code c == code d) && starts_with p s

unfoldable pub is_in : String → String → Bool
unfolding starts_with
is_in p String.[] = starts_with p String.[]
is_in p (String.◌∷◌ c s) = starts_with p (String.◌∷◌ c s) || is_in p s

-- `fields[name]`, `none` for the `KeyError`
unfoldable pub field_of : String → List (String × String) → Option String
field_of name [] = none
field_of name ((k, x) ∷ rest) =
    let later = field_of name rest in if str_eq k name then some x else later

abbrev pub entries_of : Option Response → Response
entries_of none = []
entries_of (some response) = response

module _ ⦃broker : Broker⦄ where
  abbrev pub loads : Option String → Option Payload
  loads none = none
  loads (some text) = broker.json_loads text

  -- An entry that cannot be read is logged and skipped.
  abbrev keep_if : String → Option Payload → List (String × Payload) → List (String × Payload)
  keep_if entry_id none rest = rest
  keep_if entry_id (some payload) rest = (entry_id, payload) ∷ rest

  unfoldable pub decode_entries : List Entry → List (String × Payload) → List (String × Payload)
  unfolding field_of
  decode_entries [] after = after
  decode_entries (e ∷ es) after =
      keep_if e.entry_id (loads (field_of "payload" e.fields)) (decode_entries es after)

  unfoldable pub decode : Response → List (String × Payload)
  unfolding decode_entries
  decode [] = []
  decode ((stream, entries) ∷ rest) = decode_entries entries (decode rest)

  abbrev decoded_reply : Option (Option Response) → Outcome (List (String × Payload))
  decoded_reply none = raised redis_error
  decoded_reply (some response) = returned (decode (entries_of response))

  unfoldable pub read_from : GroupCall → C (List (String × Payload))
  unfolding decode
  read_from call calls = (decoded_reply (broker.read_reply (call ∷ calls)), call ∷ calls)

  module _ (self : Consumer) where
    abbrev created : GroupReply → Outcome Unit
    created group_created = returned tt
    created (response_error message) =
        if is_in "BUSYGROUP" message then returned tt else raised redis_error
    created call_failed = raised redis_error

    unfoldable pub ensure_group : Bool → C Unit
    unfolding is_in
    ensure_group from_beginning calls =
        let start_id = if from_beginning then "0" else "$" in
        let sent = xgroup_create self.stream self.group start_id ∷ calls in
        (created (broker.create_reply sent), sent)

    unfoldable pub read : ℕ → ℕ → C (List (String × Payload))
    unfolding read_from
    read count block_ms =
        read_from (xreadgroup self.stream self.group self.name ">" count (some block_ms))

    unfoldable pub read_pending : ℕ → C (List (String × Payload))
    unfolding read_from
    read_pending count = read_from (xreadgroup self.stream self.group self.name "0" count none)

    unfoldable pub ack : String → C Unit
    ack entry_id calls =
        let sent = xack self.stream self.group entry_id ∷ calls in
        (if broker.ack_reply sent then returned tt else raised redis_error, sent)
