-- ===== src/Server/WellFormed.antt =====
-- Well-formed tables, through the requests of the routes.
use diddifree_id.Prelude.{ℕ, ◌≤◌, ◌<◌, ◌≡◌, subst, List, [], ◌∷◌, arith}
use diddifree_id.Platform.Database.{Db}
use diddifree_id.Platform.Environment.{Env}
use diddifree_id.Platform.Monad.{World}
use diddifree_id.Infra.TokenService.{KeyRing}
use diddifree_id.Lifecycle.{Change}
use diddifree_id.Lifecycle.Fresh.{IsFresh, DrawnIn}
use diddifree_id.Lifecycle.Keyed.{IsKeyed}
use diddifree_id.Invariants.Keys.{Change-IsKeyed}
use diddifree_id.Invariants.Sessions.{AreSessionsAllowed, Change-AreSessionsAllowed}
use diddifree_id.Invariants.Codes.{AreCodesBounded, Change-AreCodesBounded}
use diddifree_id.Invariants.Unused.{IsUnused, Change-IsUnused}
use diddifree_id.Invariants.Audit.{IsAudited, Change-IsAudited}
use diddifree_id.Server.Routes.{Request, handle, serve}
use diddifree_id.Server.Steps.{IsReady, ≤-trans, draws-handle, handle-Change, handle-clean}

-- The ids are keys; an account with an open session may have one; no code is guessed at more
-- often than allowed; the audit trail leads to the status of every account.
pub record IsWellFormed (max_attempts : ℕ) (db : Db) : Type 0 where
  pub keyed : IsKeyed db
  pub sessions : AreSessionsAllowed db
  pub codes : AreCodesBounded max_attempts db
  pub audited : IsAudited db

module _ ⦃env : Env⦄ (some_attempts : 0 < env.settings.otp_max_attempts) where
  Change-IsWellFormed :
      {New : ℕ → Type 0} {db db' : Db}
      → Change New db db'
      → IsWellFormed env.settings.otp_max_attempts db
      → IsWellFormed env.settings.otp_max_attempts db'
  Change-IsWellFormed c h = record {
    keyed = Change-IsKeyed c h.keyed;
    sessions = Change-AreSessionsAllowed c h.sessions;
    codes = Change-AreCodesBounded some_attempts c h.keyed h.codes;
    audited = Change-IsAudited c h.audited;
  }

  -- If at least one attempt at a code is allowed, a request to any route that writes, whoever
  -- makes it and whether it succeeds, keeps the tables well formed: ids are keys, a session that
  -- is open belongs to an account that may have one, an unconsumed code was guessed at less often
  -- than allowed, and the status history of each account is a run of allowed transitions that
  -- ends in its status. The session starts with nothing to write, and the ids still to be drawn
  -- are in no table.
  pub handle-IsWellFormed :
      (ring : KeyRing) (request : Request) (w : World)
      → w.committed ≡ w.db
      → IsFresh w
      → IsWellFormed env.settings.otp_max_attempts w.db
      → IsWellFormed env.settings.otp_max_attempts (handle ring request w).db
  handle-IsWellFormed ring request w clean fresh h =
      subst (IsWellFormed env.settings.otp_max_attempts) (handle-clean ring request w) (
        Change-IsWellFormed
          (handle-Change ring request w (record { clean = clean; keyed = h.keyed; fresh = fresh }))
          h)

module _ ⦃env : Env⦄ (uuid4_injective : (m n : ℕ) → env.uuid4 m ≡ env.uuid4 n → m ≡ n) where
  -- An id that is still to be drawn was not drawn before.
  not_drawn : (from until n : ℕ) → until ≤ n → DrawnIn from until (env.uuid4 n) → ⊥
  not_drawn from until n h d =
      let e = uuid4_injective n d.draw d.id in let b = d.before in omega (arith, h, e, b)

  -- The ids still to be drawn stay new.
  handle-IsFresh :
      (ring : KeyRing) (request : Request) (w : World) → IsReady w → IsFresh (handle ring request w)
  handle-IsFresh ring request w ready =
      let after = handle ring request w in
      let unused : (n : ℕ) → after.draws ≤ n → IsUnused (env.uuid4 n) after.db = λ n h.
        subst (IsUnused (env.uuid4 n)) (handle-clean ring request w) (
          Change-IsUnused (DrawnIn w.draws after.draws) (env.uuid4 n)
            (not_drawn w.draws after.draws n h) (handle-Change ring request w ready)
            (record {
              user = ready.fresh.users n (≤-trans (draws-handle ring request w ready) h);
              code = ready.fresh.codes n (≤-trans (draws-handle ring request w ready) h);
            })) in
      record { users = λ n h. (unused n h).user; codes = λ n h. (unused n h).code }

  -- If uuid4 never gives an id twice and at least one attempt at a code is allowed, any requests
  -- to the routes that write, one after the other, whoever makes them and whether they succeed,
  -- keep the tables well formed: ids are keys, a session that is open belongs to an account that
  -- may have one, an unconsumed code was guessed at less often than allowed, and the status
  -- history of each account is a run of allowed transitions that ends in its status. The service
  -- starts with nothing to write, and the ids still to be drawn are in no table.
  pub serve-IsWellFormed :
      0 < env.settings.otp_max_attempts
      → (ring : KeyRing) (requests : List Request) (w : World) → w.committed ≡ w.db
      → IsFresh w
      → IsWellFormed env.settings.otp_max_attempts w.db
      → IsWellFormed env.settings.otp_max_attempts (serve ring requests w).db
  unfolding serve
  serve-IsWellFormed allowed ring [] w clean fresh h = h
  serve-IsWellFormed allowed ring (r ∷ rs) w clean fresh h =
      serve-IsWellFormed allowed ring rs (handle ring r w) (handle-clean ring r w)
        (handle-IsFresh ring r w (record { clean = clean; keyed = h.keyed; fresh = fresh }))
        (handle-IsWellFormed allowed ring r w clean fresh h)
