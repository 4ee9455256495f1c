-- ===== src/Infra/Consumer/Entries.antt =====
-- `_decode` of identity_app/shared_kernel/events/bus.py: which entries an event comes of.
use mathlib.Core.List.{Memᴰ}
use mathlib.Core.List.Memᴰ
use mathlib.Core.List.Memᴰ.{head, tail}
use diddifree_id.Prelude.{
  ◌≡◌, refl, sym, ◌∙◌, ap, ◌⊎◌, inl, inr, String, Option, none, some, List, [], ◌∷◌,
}
use diddifree_id.Domain.Events.{Payload}
use diddifree_id.Infra.Consumer.{
  Broker, Entry, Response, loads, field_of, decode, decode_entries, keep_if,
}
use diddifree_id.Infra.Consumer.Group.{entries_in}

module _ ⦃broker : Broker⦄ where
  -- An event that a read decodes comes of an entry of the reply.
  abbrev pub Comes : String × Payload → List Entry → Type 0
  Comes event entries =
      (entry : Entry) × Memᴰ entry entries
      × (entry.entry_id ≡ event.0)
      × (loads (field_of "payload" entry.fields) ≡ some event.1)

  later :
      {event : String × Payload} (entry : Entry) {entries : List Entry}
      → Comes event entries
      → Comes event (entry ∷ entries)
  later entry (found, m, i, l) = (found, tail m, i, l)

  kept_cases :
      (id : String) (o : Option Payload) {rest : List (String × Payload)} {event : String × Payload}
      → Memᴰ event (keep_if id o rest)
      → ((id ≡ event.0) × (o ≡ some event.1)) ⊎ Memᴰ event rest
  kept_cases id none m = inr m
  kept_cases id (some payload) m = elim (Memᴰ.cases_cons m) [
    | inl e ↦ inl (sym (ap (λ x. x.0) e), sym (ap (λ x. some x.1) e))
    | inr m' ↦ inr m'
  ]

  after_kept :
      (id : String) (o : Option Payload) {rest : List (String × Payload)} {event : String × Payload}
      → Memᴰ event rest
      → Memᴰ event (keep_if id o rest)
  after_kept id none m = m
  after_kept id (some payload) m = tail m

  keeps :
      (id : String) {o : Option Payload} (rest : List (String × Payload)) {payload : Payload}
      → o ≡ some payload
      → Memᴰ (id, payload) (keep_if id o rest)
  keeps id {o} rest {payload} e = rw e (head refl)

  decoded-Comes :
      (entries : List Entry) (after : List (String × Payload)) {event : String × Payload}
      → Memᴰ event (decode_entries entries after)
      → Comes event entries ⊎ Memᴰ event after
  unfolding decode_entries
  decoded-Comes [] after m = inr m
  decoded-Comes (entry ∷ entries) after {event} m =
      elim (kept_cases entry.entry_id (loads (field_of "payload" entry.fields)) m) [
        | inl (i, l) ↦ inl (entry, head refl, i, l)
        | inr m' ↦ elim (decoded-Comes entries after m') [
          | inl c ↦ inl (later entry c)
          | inr m'' ↦ inr m''
        ]
      ]

  pub decode-Comes :
      (response : Response) {event : String × Payload}
      → Memᴰ event (decode response)
      → Comes event (entries_in response)
  unfolding decode
  decode-Comes [] m = absurd (Memᴰ.not-nil m)
  decode-Comes ((stream, entries) ∷ rest) m = elim (decoded-Comes entries (decode rest) m) [
    | inl (entry, m', i, l) ↦ (entry, Memᴰ.append_left (entries_in rest) m', i, l)
    | inr m' ↦ let c = decode-Comes rest m' in (c.0, Memᴰ.append_right entries c.1, c.2, c.3)
  ]

  after_decoded :
      (entries : List Entry) {after : List (String × Payload)} {event : String × Payload}
      → Memᴰ event after
      → Memᴰ event (decode_entries entries after)
  unfolding decode_entries
  after_decoded [] m = m
  after_decoded (entry ∷ entries) m =
      after_kept entry.entry_id (loads (field_of "payload" entry.fields)) (after_decoded entries m)

  decodes_entry :
      (entries : List Entry) (after : List (String × Payload)) {entry : Entry} {payload : Payload}
      → Memᴰ entry entries
      → loads (field_of "payload" entry.fields) ≡ some payload
      → Memᴰ (entry.entry_id, payload) (decode_entries entries after)
  unfolding decode_entries
  decodes_entry [] after m l = absurd (Memᴰ.not-nil m)
  decodes_entry (x ∷ xs) after {entry} {payload} m l = elim (Memᴰ.cases_cons m) [
    | inl e ↦ Memᴰ.cast (ap (λ (y : Entry). (y.entry_id, payload)) e) (
        keeps x.entry_id (decode_entries xs after)
          (ap (λ (y : Entry). loads (field_of "payload" y.fields)) (sym e) ∙ l))
    | inr m' ↦
        after_kept x.entry_id (loads (field_of "payload" x.fields)) (decodes_entry xs after m' l)
  ]

  pub decodes :
      (response : Response) {entry : Entry} {payload : Payload}
      → Memᴰ entry (entries_in response)
      → loads (field_of "payload" entry.fields) ≡ some payload
      → Memᴰ (entry.entry_id, payload) (decode response)
  unfolding decode
  decodes [] m l = absurd (Memᴰ.not-nil m)
  decodes ((stream, entries) ∷ rest) m l = elim (Memᴰ.append_cases entries m) [
    | inl m' ↦ decodes_entry entries (decode rest) m' l
    | inr m' ↦ after_decoded entries (decodes rest m' l)
  ]
