-- ===== src/Infra/Consumer/Group.antt =====
-- A consumer group of Redis, as its documentation describes it, to the consumer of
-- identity_app/shared_kernel/events/bus.py.
use mathlib.Core.List.{Memᴰ}
use diddifree_id.Prelude.{ℕ, ◌≤◌, ◌≡◌, ◌≢◌, String, Option, none, some, List, [], ◌∷◌, ◌++◌}
use diddifree_id.Prelude.Lists.{length}
use diddifree_id.Infra.Consumer.{Broker, Entry, Response, GroupCall, xreadgroup, xack, Consumer}

-- The entries of a reply.
abbrev pub entries_in : Response → List Entry
entries_in [] = []
entries_in ((stream, entries) ∷ rest) = entries ++ entries_in rest

module _ ⦃broker : Broker⦄ where
  -- What Redis documents of a consumer group, for a consumer whose entries nobody claims and for
  -- entries that the stream still retains.
  pub record IsGroup (self : Consumer) : Type 0 where
    -- the fields of an entry, by its id
    pub content : String → List (String × String)
    -- the ids that were delivered to the consumer and not acknowledged
    pub pending : List GroupCall → List String
    -- a read removes nothing from them
    pub read_keeps :
        (after : String) (count : ℕ) (block : Option ℕ) (calls : List GroupCall) (id : String)
        → Memᴰ id (pending calls)
        → Memᴰ id (pending (xreadgroup self.stream self.group self.name after count block ∷ calls))
    -- an acknowledgement removes its own
    pub ack_keeps :
        (acked id : String) (calls : List GroupCall)
        → id ≢ acked
        → Memᴰ id (pending calls)
        → Memᴰ id (pending (xack self.stream self.group acked ∷ calls))
    -- new entries become pending
    pub delivers :
        (count : ℕ) (block : Option ℕ) (calls : List GroupCall) {response : Response}
        → broker.read_reply (xreadgroup self.stream self.group self.name ">" count block ∷ calls)
          ≡ some (some response)
        → (entry : Entry) → Memᴰ entry (entries_in response)
        → Memᴰ entry.entry_id
            (pending (xreadgroup self.stream self.group self.name ">" count block ∷ calls))
    -- a read from the start of the pending ones returns them, up to its count
    pub returns_pending :
        (count : ℕ) (calls : List GroupCall) {response : Response}
        → broker.read_reply (xreadgroup self.stream self.group self.name "0" count none ∷ calls)
          ≡ some (some response)
        → length (pending calls) ≤ count
        → (id : String) → Memᴰ id (pending calls)
        → Memᴰ (record { entry_id = id; fields = content id }) (entries_in response)
    -- every reply has the fields of an entry
    pub has_content :
        (calls : List GroupCall) {response : Response}
        → broker.read_reply calls ≡ some (some response)
        → (entry : Entry) → Memᴰ entry (entries_in response)
        → entry.fields ≡ content entry.entry_id
