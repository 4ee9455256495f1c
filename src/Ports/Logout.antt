-- ===== src/Ports/Logout.antt =====
-- commands/logout.py over its port: the command as a client that knows of its repository what the
-- port promises, and `logout_command` of core/deps.py, which hands it the repository.
use diddifree_id.Prelude.{
  String, Bool, true, false, Option, none, some, ◌≡◌, refl, subst, sym, arith, if◌then◌else◌, inl,
  inr, Option-cases,
}
use diddifree_id.Domain.Entities.{RefreshToken}
use diddifree_id.Platform.Environment.{Env}
use diddifree_id.Platform.Monad.{M, World, Result, ok, ◌>>=◌, ◌>>◌, pure}
use diddifree_id.Infra.TokenService.{hash_refresh_token}
use diddifree_id.Commands.Logout.{logout}
use diddifree_id.Ports.{RefreshTokenRepository}
use diddifree_id.Ports.Promises.{IsRevoked, IsRefreshTokenRepository}
use diddifree_id.Ports.Wiring.{refresh_token_repo}
use diddifree_id.Ports.Tokens.{refresh_token_repo-IsRefreshTokenRepository}

module _ ⦃env : Env⦄ (refresh_tokens : RefreshTokenRepository) where
  revoke_stored : RefreshToken → Bool → M Unit
  revoke_stored stored all_devices =
      if all_devices
      then (do refresh_tokens.revoke_all_for_user stored.user_id; pure tt)
      else refresh_tokens.revoke stored.id

  end_stored : Option RefreshToken → Bool → M Unit
  unfolding revoke_stored
  end_stored none all_devices = pure tt
  end_stored (some stored) all_devices = do revoke_stored stored all_devices; refresh_tokens.commit

  -- `Logout(refresh_tokens)`, called.
  unfoldable pub logout_with : String → Bool → M Unit
  unfolding end_stored
  logout_with refresh_token all_devices = do
    stored ← refresh_tokens.find_by_hash (hash_refresh_token refresh_token)
    end_stored stored all_devices

module _ ⦃env : Env⦄ where
  -- What deps.py builds, and that it is the command.
  abbrev pub logout_command : String → Bool → M Unit
  logout_command = logout_with refresh_token_repo

  logout_command_lem :
      (token : String) (all_devices : Bool) (w : World)
      → logout_command token all_devices w ≡ logout token all_devices w
  unfolding logout_with logout
  logout_command_lem token all_devices w = ground arith

module _ ⦃env : Env⦄ (r : RefreshTokenRepository) (token : String) where
  -- The end of a logout: the token is revoked if it is found at all, and what was revoked is
  -- committed; nothing changes for a token that is not known.
  pub record IsLoggedOut (w : World) (result : Result Unit × World) : Type 0 where
    pub returns : result.0 ≡ ok tt
    pub revoked : IsRevoked r (hash_refresh_token token) result.1
    pub silent : (r.find_by_hash (hash_refresh_token token) w).0 ≡ ok none → result.1 ≡ w
    pub visible :
        (t : RefreshToken)
        → (r.find_by_hash (hash_refresh_token token) w).0 ≡ ok (some t)
        → result.1.committed ≡ result.1.db

module _ ⦃env : Env⦄ (r : RefreshTokenRepository) (lawful : IsRefreshTokenRepository r)
    (token : String) where
  committed_IsRevoked :
      (h : String) (w : World) → IsRevoked r h w → IsRevoked r h (record w { committed = w.db })
  committed_IsRevoked h w rev = record {
    revoked = λ t e. rev.revoked t (ground (arith, e, lawful.find_by_hash-commit h w));
  }

  end_stored-IsLoggedOut :
      (t : RefreshToken) (all_devices : Bool) (w : World)
      → (r.find_by_hash (hash_refresh_token token) w).0 ≡ ok (some t)
      → IsLoggedOut r token w (end_stored r (some t) all_devices w)
  unfolding end_stored
  end_stored-IsLoggedOut t true w e =
      let h = hash_refresh_token token in
      let (n, w', called, rev) = lawful.revoke_all_revokes h t w e in
      let q : end_stored r (some t) true w ≡ (ok tt, record w' { committed = w'.db }) =
        ground (arith, called, lawful.commit_visible w') in
      subst (IsLoggedOut r token w) (sym q) (record {
        returns = refl;
        revoked = committed_IsRevoked h w' rev;
        silent = λ e'. absurd (ground (arith, e, e'));
        visible = λ _ _. refl;
      })
  end_stored-IsLoggedOut t false w e =
      let h = hash_refresh_token token in
      let (w', called, rev) = lawful.revoke_revokes h t w e in
      let q : end_stored r (some t) false w ≡ (ok tt, record w' { committed = w'.db }) =
        ground (arith, called, lawful.commit_visible w') in
      subst (IsLoggedOut r token w) (sym q) (record {
        returns = refl;
        revoked = committed_IsRevoked h w' rev;
        silent = λ e'. absurd (ground (arith, e, e'));
        visible = λ _ _. refl;
      })

  -- Over any repository of refresh tokens that keeps what the port promises, a logout returns;
  -- the token, if it is found at all, is then found revoked, and what was revoked is committed.
  -- For a token that is not found nothing changes.
  pub logout_with-IsLoggedOut :
      (all_devices : Bool) (w : World) → IsLoggedOut r token w (logout_with r token all_devices w)
  unfolding logout_with end_stored
  logout_with-IsLoggedOut all_devices w =
      let h = hash_refresh_token token in
      let (found, e) = lawful.find_by_hash_reads h w in
      elim (Option-cases found) [
        | inl unknown ↦
            let q : logout_with r token all_devices w ≡ (ok tt, w) = ground (arith, e, unknown) in
            subst (IsLoggedOut r token w) (sym q) (record {
              returns = refl;
              revoked = record { revoked = λ t e'. absurd (ground (arith, e, e', unknown)) };
              silent = λ _. refl;
              visible = λ t e'. absurd (ground (arith, e, e', unknown));
            })
        | inr (t, known) ↦
            let q : logout_with r token all_devices w ≡ end_stored r (some t) all_devices w =
              ground (arith, e, known) in
            subst (IsLoggedOut r token w) (sym q)
              (end_stored-IsLoggedOut t all_devices w (ground (arith, e, known)))
      ]

-- The command over the tables of the service.
pub logout-IsLoggedOut :
    ⦃env : Env⦄ (token : String) (all_devices : Bool) (w : World)
    → IsLoggedOut refresh_token_repo token w (logout token all_devices w)
logout-IsLoggedOut token all_devices w =
    subst (IsLoggedOut refresh_token_repo token w) (logout_command_lem token all_devices w) (
      logout_with-IsLoggedOut refresh_token_repo refresh_token_repo-IsRefreshTokenRepository token
        all_devices w)
