-- ===== src/Infra/Consumer/Redelivery.antt =====
-- identity_app/shared_kernel/events/bus.py: acknowledging after handling, across restarts.
use mathlib.Core.List.{Memᴰ}
use mathlib.Core.List.Memᴰ
use mathlib.Core.List.Memᴰ.{head, tail}
use diddifree_id.Prelude.{
  ℕ, zero, suc, ◌*◌, ◌≤◌, ◌≡◌, refl, sym, subst, ◌∙◌, ap, ◌⊎◌, inl, inr, String, true, Option, none,
  some, List, [], ◌∷◌, ◌++◌, arith, str_eq, eq_iff, Bool-cases,
}
use diddifree_id.Prelude.Lists.{length}
use diddifree_id.Domain.Events.{Payload}
use diddifree_id.Infra.Consumer.{
  Broker, Response, GroupCall, xreadgroup, xack, Consumer, Outcome, returned, raised, decoded_reply,
  read_from, loads, field_of, decode, ack, read, read_pending,
}
use diddifree_id.Infra.Consumer.Loop.{
  Pass, new_entries, pending_entries, Handled, acked, handle_all, handle_read, run_pass, run_passes,
}
use diddifree_id.Infra.Consumer.Group.{IsGroup, entries_in}
use diddifree_id.Infra.Consumer.Entries.{Comes, decode-Comes, decodes}

module _ ⦃broker : Broker⦄ {self : Consumer} (g : IsGroup self) where
  -- The event of a pending entry, with its payload.
  abbrev IsEvent : String × Payload → Type 0
  IsEvent event = loads (field_of "payload" (g.content event.0)) ≡ some event.1

  -- Handled, or still pending.
  abbrev IsSafe : String × Payload → Handled → Type 0
  IsSafe event result = Memᴰ event result.0 ⊎ Memᴰ event.0 (g.pending result.1)

  entry-IsEvent :
      (calls : List GroupCall) {response : Response}
      → broker.read_reply calls ≡ some (some response)
      → {event : String × Payload} → Comes event (entries_in response)
      → IsEvent event
  entry-IsEvent calls e {event} (entry, m, i, l) =
      ap (λ id. loads (field_of "payload" (g.content id))) (sym i)
      ∙ ap (λ fields. loads (field_of "payload" fields)) (sym (g.has_content calls e entry m))
      ∙ l

  same_event : {a b : String × Payload} → IsEvent a → IsEvent b → a.0 ≡ b.0 → a ≡ b
  same_event {a = (i, x)} {b = (j, y)} p q e = let same : x ≡ y = ground (arith, p, q, e) in cc

  module _ (event : String × Payload) (sent : List GroupCall) (rest : Handled) where
    acked_head : (o : Outcome Unit) → Memᴰ event (acked self event o sent rest).0
    acked_head (returned u) = head refl
    acked_head (raised e) = head refl

    acked-IsSafe :
        {safe : String × Payload} (o : Outcome Unit)
        → Memᴰ safe.0 (g.pending sent)
        → IsSafe safe rest
        → IsSafe safe (acked self event o sent rest)
    acked-IsSafe (returned u) m (inl handled) = inl (tail handled)
    acked-IsSafe (returned u) m (inr left) = inr left
    acked-IsSafe (raised e) m h = inr m

  handle_all-IsSafe :
      (lifetime : ℕ) (events : List (String × Payload)) (calls : List GroupCall)
      → ((e : String × Payload) → Memᴰ e events → IsEvent e)
      → {event : String × Payload} → IsEvent event
      → Memᴰ event.0 (g.pending calls)
      → IsSafe event (handle_all self lifetime events calls)
  unfolding handle_all ack
  handle_all-IsSafe lifetime [] calls all is m = inr m
  handle_all-IsSafe zero (e ∷ es) calls all is m = inr m
  handle_all-IsSafe (suc zero) (e ∷ es) calls all is m = inr m
  handle_all-IsSafe (suc (suc lifetime)) (e ∷ es) calls all {event} is m =
      let reply = ack self e.0 calls in
      let rest = handle_all self lifetime es reply.1 in
      elim (Bool-cases (str_eq event.0 e.0)) [
        | inl same ↦ inl (
            Memᴰ.cast (same_event is (all e (head refl)) ((eq_iff event.0 e.0).0 same))
              (acked_head e reply.1 rest reply.0))
        | inr other ↦
            let m' =
              g.ack_keeps e.0 event.0 calls
                (λ same. absurd (ground (arith, other, same, eq_iff event.0 e.0))) m in
            acked-IsSafe e reply.1 rest reply.0 m'
              (handle_all-IsSafe lifetime es reply.1 (λ a b. all a (tail b)) is m')
      ]

  read-IsSafe :
      (lifetime : ℕ) (call : GroupCall) (calls : List GroupCall) {event : String × Payload}
      → IsEvent event
      → Memᴰ event.0 (g.pending (call ∷ calls))
      → (reply : Option (Option Response)) → broker.read_reply (call ∷ calls) ≡ reply
      → IsSafe event (handle_read self lifetime (decoded_reply reply) (call ∷ calls))
  unfolding decode
  read-IsSafe lifetime call calls is m none e = inr m
  read-IsSafe lifetime call calls is m (some none) e =
      handle_all-IsSafe lifetime [] (call ∷ calls) (λ b n. absurd (Memᴰ.not-nil n)) is m
  read-IsSafe lifetime call calls is m (some (some response)) e =
      handle_all-IsSafe lifetime (decode response) (call ∷ calls)
        (λ b n. entry-IsEvent (call ∷ calls) e (decode-Comes response n)) is m

  run_pass-IsSafe :
      (p : Pass) (calls : List GroupCall) {event : String × Payload}
      → IsEvent event
      → Memᴰ event.0 (g.pending calls)
      → IsSafe event (run_pass self p calls)
  unfolding run_pass read read_pending read_from
  run_pass-IsSafe (new_entries count block_ms lifetime) calls is m =
      read-IsSafe lifetime (xreadgroup self.stream self.group self.name ">" count (some block_ms))
        calls is (g.read_keeps ">" count (some block_ms) calls _ m) _ refl
  run_pass-IsSafe (pending_entries count lifetime) calls is m =
      read-IsSafe lifetime (xreadgroup self.stream self.group self.name "0" count none) calls is
        (g.read_keeps "0" count none calls _ m) _ refl

  first_pass-IsSafe :
      (p : Pass) (ps : List Pass) (calls : List GroupCall) {event : String × Payload}
      → IsSafe event (run_pass self p calls)
      → (Memᴰ event.0 (g.pending (run_pass self p calls).1)
          → IsSafe event (run_passes self ps (run_pass self p calls).1))
      → IsSafe event (run_passes self (p ∷ ps) calls)
  unfolding run_passes
  first_pass-IsSafe p ps calls safe below =
      let first = run_pass self p calls in
      let rest = run_passes self ps first.1 in
      elim safe [
        | inl handled ↦ inl (Memᴰ.append_left rest.0 handled)
        | inr left ↦ elim (below left) [
          | inl handled ↦ inl (Memᴰ.append_right first.0 handled)
          | inr left' ↦ inr left'
        ]
      ]

  run_passes-IsSafe :
      (ps : List Pass) (calls : List GroupCall) {event : String × Payload}
      → IsEvent event
      → Memᴰ event.0 (g.pending calls)
      → IsSafe event (run_passes self ps calls)
  unfolding run_passes
  run_passes-IsSafe [] calls is m = inr m
  run_passes-IsSafe (p ∷ ps) calls is m =
      first_pass-IsSafe p ps calls (run_pass-IsSafe p calls is m) (run_passes-IsSafe ps _ is)

  handle_all_lem :
      (lifetime : ℕ) (events : List (String × Payload)) (calls : List GroupCall)
      → ((id : String) (sent : List GroupCall)
          → broker.ack_reply (xack self.stream self.group id ∷ sent) ≡ true)
      → 2 * length events ≤ lifetime
      → (handle_all self lifetime events calls).0 ≡ events
  unfolding handle_all ack
  handle_all_lem lifetime [] calls up h = refl
  handle_all_lem zero (e ∷ es) calls up h = absurd (omega (arith, h))
  handle_all_lem (suc zero) (e ∷ es) calls up h = absurd (omega (arith, h))
  handle_all_lem (suc (suc lifetime)) (e ∷ es) calls up h =
      let sent = xack self.stream self.group e.0 ∷ calls in
      let below : 2 * length es ≤ lifetime = omega arith in
      let rest = handle_all_lem lifetime es sent up below in
      rw (up e.0 calls) (ap (λ xs. e ∷ xs) rest)

  delivered-IsSafe :
      (count block_ms lifetime : ℕ) (passes : List Pass) (calls : List GroupCall)
      {response : Response} {event : String × Payload}
      → broker.read_reply
          (xreadgroup self.stream self.group self.name ">" count (some block_ms) ∷ calls)
        ≡ some (some response)
      → Memᴰ event (decode response)
      → IsEvent event
        × IsSafe event (run_passes self (new_entries count block_ms lifetime ∷ passes) calls)
  unfolding run_passes run_pass read read_from
  delivered-IsSafe count block_ms lifetime passes calls {response} {event} e m =
      let call = xreadgroup self.stream self.group self.name ">" count (some block_ms) in
      let c = decode-Comes response m in
      let is = entry-IsEvent (call ∷ calls) e c in
      let pending = Memᴰ.cast (sym c.2) (g.delivers count (some block_ms) calls e c.0 c.1) in
      (
        is,
        first_pass-IsSafe (new_entries count block_ms lifetime) passes calls
            (read-IsSafe lifetime call calls is pending _ refl) (run_passes-IsSafe passes _ is),
      )

  pending-IsHandled :
      (count lifetime : ℕ) (calls : List GroupCall) {response : Response} {event : String × Payload}
      → IsEvent event
      → Memᴰ event.0 (g.pending calls)
      → broker.read_reply (xreadgroup self.stream self.group self.name "0" count none ∷ calls)
        ≡ some (some response)
      → length (g.pending calls) ≤ count
      → 2 * length (decode response) ≤ lifetime
      → ((id : String) (sent : List GroupCall)
          → broker.ack_reply (xack self.stream self.group id ∷ sent) ≡ true)
      → Memᴰ event (run_pass self (pending_entries count lifetime) calls).0
  unfolding run_pass read_pending read_from
  pending-IsHandled count lifetime calls {response} {event} is m e small long up =
      let call = xreadgroup self.stream self.group self.name "0" count none in
      let decoded = decodes response (g.returns_pending count calls e small event.0 m) is in
      let all = handle_all_lem lifetime (decode response) (call ∷ calls) up long in
      rw (e, all) decoded

  -- An event that a read of new entries returns is handled, even if the process dies in the
  -- middle of the loop over that read and in any number of later ones: it is among the events
  -- handled up to then, or in the pass over the pending entries that a process makes when it
  -- starts again, if that one lives through its loop, Redis replies to its reads and
  -- acknowledgements, and no more entries are pending than it asks for. Redis keeps the promises
  -- of a consumer group: an entry that was delivered stays pending until it is acknowledged and
  -- is returned with its fields by a read of the pending ones.
  pub run_passes-handles :
      (count block_ms lifetime : ℕ) (passes : List Pass) (calls : List GroupCall)
      {response : Response} {event : String × Payload}
      → broker.read_reply
          (xreadgroup self.stream self.group self.name ">" count (some block_ms) ∷ calls)
        ≡ some (some response)
      → Memᴰ event (decode response)
      → (before : Handled)
      → run_passes self (new_entries count block_ms lifetime ∷ passes) calls ≡ before
      → (last_count last_lifetime : ℕ) {last : Response}
      → broker.read_reply
          (xreadgroup self.stream self.group self.name "0" last_count none ∷ before.1)
        ≡ some (some last)
      → length (g.pending before.1) ≤ last_count
      → 2 * length (decode last) ≤ last_lifetime
      → ((id : String) (sent : List GroupCall)
          → broker.ack_reply (xack self.stream self.group id ∷ sent) ≡ true)
      → Memᴰ event
          (before.0 ++ (run_pass self (pending_entries last_count last_lifetime) before.1).0)
  run_passes-handles count block_ms lifetime passes calls {event} e m before b last_count
        last_lifetime e' small long up =
      let (is, safe) = delivered-IsSafe count block_ms lifetime passes calls e m in
      elim (subst (IsSafe event) b safe) [
        | inl handled ↦ Memᴰ.append_left _ handled
        | inr left ↦
            Memᴰ.append_right before.0
              (pending-IsHandled last_count last_lifetime before.1 is left e' small long up)
      ]
