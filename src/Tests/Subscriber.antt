-- ===== src/Tests/Subscriber.antt =====
-- A consumer group that holds two entries, and the theorem on redelivery at work on it.
use mathlib.Core.List.{Memᴰ}
use mathlib.Core.List.Memᴰ
use mathlib.Core.List.Memᴰ.{head, tail}
use diddifree_id.Prelude.{
  ℕ, ◌≡◌, ◌≢◌, refl, sym, subst, ap, ◌∙◌, Bool-cases, String, true, Option, none, some, List, [],
  ◌∷◌, ◌++◌, inl, inr, arith, str_eq, eq_iff, if◌then◌else◌,
}
use diddifree_id.Infra.Consumer.{
  Broker, Entry, Response, GroupCall, xgroup_create, xreadgroup, xack, Consumer, new_consumer,
  group_created, field_of, ack, read, read_pending, read_from, decode, decode_entries,
}
use diddifree_id.Infra.Consumer.Group.{IsGroup, entries_in}
use diddifree_id.Infra.Consumer.Loop.{pending_entries, handle_all, run_pass, run_passes}
use diddifree_id.Infra.Consumer.Redelivery.{run_passes-handles}

abbrev fields_of : String → List (String × String)
fields_of id = ("payload", id) ∷ []

abbrev entry : String → Entry
entry id = record { entry_id = id; fields = fields_of id }

abbrev entries : List String → List Entry
entries [] = []
entries (id ∷ ids) = entry id ∷ entries ids

abbrev fresh : List GroupCall → List String
fresh [] = "1-0" ∷ "2-0" ∷ []
fresh (xreadgroup s g n after count block ∷ calls) =
    let rest = fresh calls in if str_eq after ">" then [] else rest
fresh (xgroup_create s g id ∷ calls) = fresh calls
fresh (xack s g id ∷ calls) = fresh calls

abbrev remove : String → List String → List String
remove id [] = []
remove id (x ∷ xs) = let rest = remove id xs in if str_eq x id then rest else x ∷ rest

abbrev pending : List GroupCall → List String
pending [] = []
pending (xreadgroup s g n after count block ∷ calls) =
    let rest = pending calls in if str_eq after ">" then fresh calls ++ rest else rest
pending (xgroup_create s g id ∷ calls) = pending calls
pending (xack s g id ∷ calls) = remove id (pending calls)

abbrev reply_with : List String → Option (Option Response)
reply_with ids = some (some (("identity.events", entries ids) ∷ []))

abbrev reply : List GroupCall → Option (Option Response)
reply [] = none
reply (xreadgroup s g n after count block ∷ calls) =
    if str_eq after ">" then reply_with (fresh calls) else reply_with (pending calls)
reply (xgroup_create s g id ∷ calls) = none
reply (xack s g id ∷ calls) = none

abbrev broker : Broker
broker = record {
  create_reply = λ calls. group_created;
  read_reply = reply;
  ack_reply = λ calls. true;
  json_dumps = λ p. "1-0";
  json_loads = λ s. some [];
}

abbrev wallet : Consumer
wallet = new_consumer "diddi-wallet" "worker-1"

entry_is :
    (ids : List String) (e : Entry)
    → Memᴰ e (entries ids ++ [])
    → Memᴰ e.entry_id ids × (e.fields ≡ fields_of e.entry_id)
entry_is [] e m = absurd (Memᴰ.not-nil m)
entry_is (id ∷ ids) e m = elim (Memᴰ.cases_cons m) [
  | inl h ↦ (head (ap (λ (x : Entry). x.entry_id) h), cc)
  | inr m' ↦ let (a, b) = entry_is ids e m' in (tail a, b)
]

entry_in : (ids : List String) {id : String} → Memᴰ id ids → Memᴰ (entry id) (entries ids ++ [])
entry_in [] m = absurd (Memᴰ.not-nil m)
entry_in (x ∷ xs) m = elim (Memᴰ.cases_cons m) [
  | inl h ↦ head (ap entry h)
  | inr m' ↦ tail (entry_in xs m')
]

remove_other :
    (ids : List String) {id other : String} → id ≢ other → Memᴰ id ids → Memᴰ id (remove other ids)
remove_other [] ne m = absurd (Memᴰ.not-nil m)
remove_other (x ∷ xs) {id} {other} ne m = elim (Bool-cases (str_eq x other)) [
  | inl same ↦ elim (Memᴰ.cases_cons m) [
    | inl e ↦ absurd (ne (e ∙ (eq_iff x other).0 same))
    | inr m' ↦ rw same (remove_other xs ne m')
  ]
  | inr differ ↦ elim (Memᴰ.cases_cons m) [
    | inl e ↦ rw differ (head e)
    | inr m' ↦ rw differ (tail (remove_other xs ne m'))
  ]
]

reply_is :
    (ids : List String) {response : Response}
    → reply_with ids ≡ some (some response)
    → ((("identity.events", entries ids) ∷ []) ≡ response)
reply_is ids e = ground (arith, e)

has_content :
    (calls : List GroupCall) {response : Response}
    → reply calls ≡ some (some response)
    → (e : Entry) → Memᴰ e (entries_in response)
    → e.fields ≡ fields_of e.entry_id
has_content [] h e m = ground (arith, h)
has_content (xgroup_create s g id ∷ calls) h e m = ground (arith, h)
has_content (xack s g id ∷ calls) h e m = ground (arith, h)
has_content (xreadgroup s g n after count block ∷ calls) {response} h e m =
    let content = λ (ids : List String) (r : reply_with ids ≡ some (some response)).
      (entry_is ids e (subst (λ x. Memᴰ e (entries_in x)) (sym (reply_is ids r)) m)).1 in
    elim (Bool-cases (str_eq after ">")) [
      | inl new ↦ content (fresh calls) (ground (arith, new, h))
      | inr old ↦ content (pending calls) (ground (arith, old, h))
    ]

read_keeps :
    (s g n after : String) (count : ℕ) (block : Option ℕ) (calls : List GroupCall) (id : String)
    → Memᴰ id (pending calls)
    → Memᴰ id (pending (xreadgroup s g n after count block ∷ calls))
read_keeps s g n after count block calls id m = elim (Bool-cases (str_eq after ">")) [
  | inl new ↦ rw new (Memᴰ.append_right (fresh calls) m)
  | inr old ↦ rw old m
]

abbrev wallet_group : IsGroup ⦃broker = broker⦄ wallet
wallet_group = record {
  content = fields_of;
  pending = pending;
  read_keeps = read_keeps wallet.stream wallet.group wallet.name;
  ack_keeps = λ acked id calls ne m. remove_other (pending calls) ne m;
  delivers = λ count block calls {response} h e m.
      Memᴰ.append_left (pending calls)
        (entry_is (fresh calls) e
          (subst (λ x. Memᴰ e (entries_in x)) (sym (reply_is (fresh calls) h)) m)).0;
  returns_pending = λ count calls {response} h small id m.
      subst (λ x. Memᴰ (entry id) (entries_in x)) (reply_is (pending calls) h)
        (entry_in (pending calls) m);
  has_content = has_content;
}

-- The process dies before it acknowledges the first of two events, and is started again.
abbrev started : List GroupCall
started = xreadgroup wallet.stream wallet.group wallet.name ">" 10 (some 5000) ∷ []

run_passes-handles_example :
    Memᴰ
      ("2-0", [])
      (("1-0", []) ∷ [] ++ (run_pass ⦃broker = broker⦄ wallet (pending_entries 100 4) started).0)
unfolding run_passes run_pass read read_from read_pending handle_all decode decode_entries field_of
    ack
run_passes-handles_example =
    run_passes-handles ⦃broker = broker⦄ wallet_group 10 5000 1 [] []
      {response = ("identity.events", entries ("1-0" ∷ "2-0" ∷ [])) ∷ []} {event = ("2-0", [])} refl
      (tail (head refl)) (("1-0", []) ∷ [], started) refl 100 4
      {last = ("identity.events", entries ("1-0" ∷ "2-0" ∷ [])) ∷ []} refl (omega arith)
      (omega arith) (λ id sent. refl)
