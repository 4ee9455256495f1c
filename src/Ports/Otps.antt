-- ===== src/Ports/Otps.antt =====
-- `SqlAlchemyOtpRepository` keeps what the port promises.
use diddifree_id.Prelude.{
  ℕ, ◌+◌, ◌<◌, String, true, Option, none, some, List, [], ◌∷◌, ◌≡◌, refl, subst, sym, inl, inr,
  str_eq, All, All-map, find_first, find_first-update_where, find_first-holds, Bool-cases,
  Option-cases, arith,
}
use diddifree_id.Domain.Entities.{OtpCode}
use diddifree_id.Platform.Environment.{Env}
use diddifree_id.Platform.Monad.{err, no_result_found, World, ok}
use diddifree_id.Infra.Otps.{
  has_otp_id, is_active_for, newer, latest_active, find_latest_active, register_attempt,
  count_attempt, add_attempt, consume, consume_code, mark_consumed,
}
use diddifree_id.Infra.Otps.Laws.{find-add_attempt}
use diddifree_id.Ports.Promises.{IsNotAfter, IsOtpRepository}
use diddifree_id.Ports.Wiring.{otp_repo}

latest_active-holds :
    (phone : String) (codes : List OtpCode) (o : OtpCode)
    → latest_active phone codes ≡ some o
    → (str_eq o.phone phone ≡ true) × (o.consumed_at ≡ none)
unfolding latest_active
latest_active-holds phone [] o h = absurd (ground arith)
latest_active-holds phone (c ∷ rest) o h = ground (arith, latest_active-holds phone rest o)

later :
    (t : ℕ) (o : OtpCode) (found : Option OtpCode)
    → IsNotAfter t found
    → IsNotAfter t (some (newer o found))
later t o none h = absurd h
later t o (some p) h = ground arith

newest : (o : OtpCode) (found : Option OtpCode) → IsNotAfter o.created_at (some (newer o found))
newest o none = omega arith
newest o (some p) = ground arith

abbrev pub NotAfter : String → Option OtpCode → OtpCode → Type 0
NotAfter phone found p =
    str_eq p.phone phone ≡ true → p.consumed_at ≡ none → IsNotAfter p.created_at found

pub latest_active-NotAfter :
    (phone : String) (codes : List OtpCode) → All (NotAfter phone (latest_active phone codes)) codes
unfolding latest_active
latest_active-NotAfter phone [] = tt
latest_active-NotAfter phone (c ∷ rest) =
    let found = latest_active phone rest in
    let ih = latest_active-NotAfter phone rest in
    elim (Bool-cases (is_active_for phone c)) [
      | inl e ↦
          let q : latest_active phone (c ∷ rest) ≡ some (newer c found) = ground (arith, e) in
          subst (λ f. All (NotAfter phone f) (c ∷ rest)) (sym q)
            (
              (λ _ _. newest c found),
              All-map (NotAfter phone found) (NotAfter phone (some (newer c found))) rest
                  (λ p h x y. later p.created_at c found (h x y)) ih,
            )
      | inr e ↦
          let q : latest_active phone (c ∷ rest) ≡ found = ground (arith, e) in
          subst (λ f. All (NotAfter phone f) (c ∷ rest)) (sym q)
            ((λ x y. absurd (ground (arith, x, y, e))), ih)
    ]

-- A wrong guess at a code that is there.
register_attempt_counts :
    (i : ℕ) (w : World) (o : OtpCode)
    → find_first (has_otp_id i) w.db.otp_codes ≡ some o
    → register_attempt i w ≡ (ok (o.attempts + 1), record w { db = add_attempt i w.db })
unfolding register_attempt
register_attempt_counts i w o h = ground (arith, find-add_attempt i w.db o h)

register_attempt_misses :
    (i : ℕ) (w : World)
    → find_first (has_otp_id i) w.db.otp_codes ≡ none
    → (register_attempt i w).0 ≡ err no_result_found
unfolding register_attempt add_attempt
register_attempt_misses i w h = ground (
  arith,
  h,
  find_first-update_where (has_otp_id i) (has_otp_id i) count_attempt w.db.otp_codes (λ a. refl),
)

register_attempt_twice :
    (i n : ℕ) (w : World) {w' : World}
    → register_attempt i w ≡ (ok n, w')
    → 0 < n
    → (register_attempt i w').0 ≡ ok (n + 1)
register_attempt_twice i n w {w'} h pos =
    elim (Option-cases (find_first (has_otp_id i) w.db.otp_codes)) [
      | inl e ↦ absurd (ground (arith, register_attempt_misses i w e, h))
      | inr (o, e) ↦ ground (
        arith,
        h,
        register_attempt_counts i w o e,
        register_attempt_counts i (record w { db = add_attempt i w.db }) (count_attempt o)
            (find-add_attempt i w.db o e),
      )
    ]

module _ ⦃env : Env⦄ where
  mark_consumed_twice :
      (i : ℕ) (w : World)
      → (w' : World) × (mark_consumed i w ≡ (ok tt, w')) × (mark_consumed i w' ≡ (ok tt, w'))
  unfolding mark_consumed consume_code
  mark_consumed_twice i w = elim (Option-cases (find_first (has_otp_id i) w.db.otp_codes)) [
    | inl e ↦ (w, ground (arith, e), ground (arith, e))
    | inr (o, e) ↦ elim (Option-cases o.consumed_at) [
      | inl fresh ↦ (
        record w { db = consume_code i (env.clock w.draws) w.db; draws = w.draws + 1 },
        ground (arith, e, fresh),
        ground (
          arith,
          e,
          find_first-holds (has_otp_id i) w.db.otp_codes e,
          find_first-update_where (has_otp_id i) (has_otp_id i) (consume (env.clock w.draws))
              w.db.otp_codes (λ a. refl),
        ),
      )
      | inr (t, closed) ↦ (w, ground (arith, e, closed), ground (arith, e, closed))
    ]
  ]

  pub otp_repo-IsOtpRepository : IsOtpRepository otp_repo
  unfolding find_latest_active
  otp_repo-IsOtpRepository = record {
    found_active = λ phone w. (
      latest_active phone w.db.otp_codes,
      refl,
      latest_active-holds phone w.db.otp_codes,
      latest_active-NotAfter phone w.db.otp_codes,
    );
    register_attempt_again = register_attempt_twice;
    mark_consumed_again = mark_consumed_twice;
    commit_visible = λ w. refl;
  }
