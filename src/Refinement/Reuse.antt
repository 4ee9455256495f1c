-- ===== src/Refinement/Reuse.antt =====
-- A refresh token that comes back after its rotation: commands/refresh_token.py.
use diddifree_id.Prelude.{
  ℕ, ◌+◌, Bool, List, [], ◌∷◌, ◌≡◌, refl, subst, sym, String, Option, some, true, is_some, arith,
  All, All-update_where, find_first, ◌||◌, not, ◌==◌,
}
use diddifree_id.Domain.Entities.{RefreshToken}
use diddifree_id.Platform.Database.{Db}
use diddifree_id.Platform.Environment.{Env}
use diddifree_id.Platform.Monad.{World}
use diddifree_id.Infra.Tokens.{has_hash, is_open_token_of, set_revoked, close_tokens_of}
use diddifree_id.Infra.TokenService.{KeyRing, hash_refresh_token}
use diddifree_id.Commands.RefreshAccessToken.{refresh_access_token}
use diddifree_id.Refinement.Tokens.{committed-reuse}

-- No session of the user is open.
abbrev pub is_closed_for : ℕ → RefreshToken → Bool
is_closed_for i k = not (k.user_id == i) || is_some k.revoked_at

All-refl : (ks : List RefreshToken) → All (λ k. k ≡ k) ks
All-refl [] = tt
All-refl (k ∷ ks) = (refl, All-refl ks)

close_tokens_of-closed :
    (i t : ℕ) (db : Db)
    → All (λ k. is_closed_for i k ≡ true) (close_tokens_of i t db).refresh_tokens
unfolding close_tokens_of
close_tokens_of-closed i t db =
    All-update_where (λ k. k ≡ k) (λ k. is_closed_for i k ≡ true) (is_open_token_of i)
      (set_revoked t) db.refresh_tokens (λ k hit u. ground (arith, hit))
      (λ k miss u. ground (arith, miss)) (All-refl db.refresh_tokens)

module _ ⦃env : Env⦄ (ring : KeyRing) (raw : String) (device : Option String) (w : World) where
  -- If the refresh token presented is in the table and was revoked, no session of its user is
  -- open in the committed tables when the command ends.
  pub refresh_access_token-reused :
      (k : RefreshToken)
      → find_first (has_hash (hash_refresh_token raw)) w.db.refresh_tokens ≡ some k
      → is_some k.revoked_at ≡ true
      → All
          (λ s. is_closed_for k.user_id s ≡ true)
          (refresh_access_token ring raw device w).1.committed.refresh_tokens
  refresh_access_token-reused k f r =
      subst (λ db. All (λ s. is_closed_for k.user_id s ≡ true) db.refresh_tokens)
        (sym (committed-reuse ring raw device w k f r))
        (close_tokens_of-closed k.user_id (env.clock (w.draws + 1)) w.db)
