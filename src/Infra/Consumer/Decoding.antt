-- ===== src/Infra/Consumer/Decoding.antt =====
-- What a subscriber reads of what the service published.
use diddifree_id.Prelude.{ℕ, All, ◌≡◌, refl, String, none, some, List, [], ◌∷◌, arith}
use diddifree_id.Domain.Events.{DomainEvent, Payload, event_name, to_payload}
use diddifree_id.Infra.Consumer.{
  Broker, Entry, GroupCall, xreadgroup, Consumer, loads, returned, decode, decode_entries, read,
  read_pending, field_of,
}

module _ ⦃broker : Broker⦄ where
  -- The entry that `XADD` makes of an event.
  abbrev pub entry_of : String × DomainEvent → Entry
  entry_of (entry_id, e) = record {
    entry_id = entry_id;
    fields = ("event", event_name e) ∷ ("payload", broker.json_dumps (to_payload e)) ∷ [];
  }

  abbrev pub entries_published : List (String × DomainEvent) → List Entry
  entries_published [] = []
  entries_published (e ∷ es) = entry_of e ∷ entries_published es

  abbrev pub payloads_of : List (String × DomainEvent) → List (String × Payload)
  payloads_of [] = []
  payloads_of ((entry_id, e) ∷ es) = (entry_id, to_payload e) ∷ payloads_of es

  -- Entries of a stream: those of events, in their order, among entries that cannot be read.
  pub data AreFrom : List Entry → List (String × DomainEvent) → Type 0 where
    no_entries : AreFrom [] []
    published :
        (e : String × DomainEvent) {xs : List Entry} {es : List (String × DomainEvent)}
        → AreFrom xs es
        → AreFrom (entry_of e ∷ xs) (e ∷ es)
    malformed :
        (x : Entry) {xs : List Entry} {es : List (String × DomainEvent)}
        → loads (field_of "payload" x.fields) ≡ none
        → AreFrom xs es
        → AreFrom (x ∷ xs) es

  -- `json.loads` reads back what `json.dumps` made of the payload of an event.
  abbrev pub IsLoaded : String × DomainEvent → Type 0
  IsLoaded e = broker.json_loads (broker.json_dumps (to_payload e.1)) ≡ some (to_payload e.1)

  decode_from :
      {xs : List Entry} {es : List (String × DomainEvent)}
      → AreFrom xs es
      → All IsLoaded es
      → decode_entries xs [] ≡ payloads_of es
  unfolding decode_entries field_of
  decode_from no_entries l = refl
  decode_from (published e h) (l, ls) = ground (arith, l, decode_from h ls)
  decode_from (malformed x m h) ls = ground (arith, m, decode_from h ls)

  -- If Redis replies with entries that the service published, in their order, among entries whose
  -- payload is missing or no JSON, both read and read_pending return the payloads of the events,
  -- each with the id of its entry, in that order, and skip the others. json.loads reads back what
  -- json.dumps wrote of these payloads.
  pub read_published :
      (self : Consumer) (count block_ms : ℕ) (calls : List GroupCall) {stream : String}
      {xs : List Entry} {es : List (String × DomainEvent)}
      → All IsLoaded es
      → AreFrom xs es
      → broker.read_reply
          (xreadgroup self.stream self.group self.name ">" count (some block_ms) ∷ calls)
        ≡ some (some ((stream, xs) ∷ []))
      → broker.read_reply (xreadgroup self.stream self.group self.name "0" count none ∷ calls)
        ≡ some (some ((stream, xs) ∷ []))
      → ((read self count block_ms calls).0 ≡ returned (payloads_of es))
        × ((read_pending self count calls).0 ≡ returned (payloads_of es))
  unfolding read read_pending decode
  read_published self count block_ms calls l h new pending =
      (ground (arith, new, decode_from h l), ground (arith, pending, decode_from h l))
