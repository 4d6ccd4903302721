-- ===== src/Clients.antt =====
-- The lazy singletons of app/devin/factory.py and app/github_client.py: get_client and _http, which
-- are written alike, in several threads at once.
pub mod Single
pub mod Racing
pub mod Progress
use cognition_devin_automati.Prelude.{
  ℕ, Option, Bool, false, List, none, if◌then◌else◌, some, [], is_some, ◌∷◌, suc, true,
}
use cognition_devin_automati.World.{Except, Exn, raised, ok}

-- Where a thread stands in get_client or _http: at the first test, before the lock, in the lock
-- before the second test, in the lock with a client that is built and not assigned, before the
-- `return`, and at the end, with what the variable then held or an exception.
pub data Caller : Type 0 where
  calling waiting locked returning : Caller
  building : ℕ → Caller
  returned : Option ℕ → Caller
  failed : Exn → Caller

-- The module's variables; a client is named by its number among those that were built.
pub record Registry : Type 0 where
  pub lock : Bool
  pub client : Option ℕ
  pub built : ℕ

unfoldable pub unbuilt : Registry
unbuilt = record { lock = false; client = none; built = 0 }

-- How the constructor ends: `DevinTransport(…)` checks the credentials, and `_http` the token.
unfoldable pub build : Except (Unit {0}) → Registry → Caller × Registry
build (raised e) r = (failed e, record r { lock = false })
build (ok _) r = (building r.built, record r { built = suc r.built })

module _ (construct : Except (Unit {0})) where
  unfoldable pub take_step : Caller → Registry → Caller × Registry
  unfolding build
  take_step calling r = if is_some r.client then (returning, r) else (waiting, r)
  take_step waiting r = if r.lock then (waiting, r) else (locked, record r { lock = true })
  take_step locked r =
      if is_some r.client then (returning, record r { lock = false }) else build construct r
  take_step (building k) r = (returning, record r { client = some k; lock = false })
  take_step returning r = (returned r.client, r)
  take_step (returned o) r = (returned o, r)
  take_step (failed e) r = (failed e, r)
