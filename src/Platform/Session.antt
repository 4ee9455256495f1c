-- ===== src/Platform/Session.antt =====
-- identity_app/core/database.py: the session of a request.
use diddifree_id.Platform.Monad.{World, M, Result, ok, err}

-- `session.commit()`
abbrev pub commit : M Unit
commit w = (ok tt, record w { committed = w.db })

-- `get_session`: what is left open is committed if the handler returned, and rolled back if it
-- raised.
unfoldable pub get_session : {A : Type 0} → M A → World → Result A × World
get_session m w =
    let (r, w') = m w in
    elim r [
      | ok a ↦ (ok a, record w' { committed = w'.db })
      | err e ↦ (err e, record w' { db = w'.committed })
    ]
