-- ===== src/Infra/Consumer/Loop.antt =====
-- identity_app/shared_kernel/events/bus.py: the loop of a subscriber, as the documentation of
-- `RedisEventConsumer` writes it, of a process that may die at any step and is started again.
use diddifree_id.Prelude.{ℕ, zero, suc, String, List, [], ◌∷◌, ◌++◌}
use diddifree_id.Domain.Events.{Payload}
use diddifree_id.Infra.Consumer.{
  Broker, GroupCall, Consumer, Outcome, returned, raised, read, read_pending, ack,
}

-- One pass of a `for` over what a read returned, with its `count` and `block_ms`. The process lives
-- for so many steps of it, where handling an event is one and acknowledging it is another.
pub data Pass : Type 0 where
  new_entries : (count block_ms lifetime : ℕ) → Pass
  pending_entries : (count lifetime : ℕ) → Pass

-- The events that were handled, with the commands sent.
abbrev pub Handled : Type 0
Handled = List (String × Payload) × List GroupCall

module _ ⦃broker : Broker⦄ (self : Consumer) where
  -- An acknowledgement that fails ends the process.
  abbrev pub acked : String × Payload → Outcome Unit → List GroupCall → Handled → Handled
  acked event (returned u) sent rest = (event ∷ rest.0, rest.1)
  acked event (raised e) sent rest = (event ∷ [], sent)

  unfoldable pub handle_all : ℕ → List (String × Payload) → List GroupCall → Handled
  unfolding ack
  handle_all lifetime [] calls = ([], calls)
  handle_all zero (event ∷ events) calls = ([], calls)
  handle_all (suc zero) (event ∷ events) calls = (event ∷ [], calls)
  handle_all (suc (suc lifetime)) (event ∷ events) calls =
      let reply = ack self event.0 calls in
      acked event reply.0 reply.1 (handle_all lifetime events reply.1)

  abbrev pub handle_read : ℕ → Outcome (List (String × Payload)) → List GroupCall → Handled
  handle_read lifetime (returned events) calls = handle_all lifetime events calls
  handle_read lifetime (raised e) calls = ([], calls)

  unfoldable pub run_pass : Pass → List GroupCall → Handled
  unfolding read read_pending handle_all
  run_pass (new_entries count block_ms lifetime) calls =
      let reply = read self count block_ms calls in handle_read lifetime reply.0 reply.1
  run_pass (pending_entries count lifetime) calls =
      let reply = read_pending self count calls in handle_read lifetime reply.0 reply.1

  unfoldable pub run_passes : List Pass → List GroupCall → Handled
  unfolding run_pass
  run_passes [] calls = ([], calls)
  run_passes (p ∷ ps) calls =
      let first = run_pass p calls in
      let rest = run_passes ps first.1 in (first.0 ++ rest.0, rest.1)
