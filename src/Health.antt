-- ===== src/Health.antt =====
-- app/routes/health.py, and the checks at start-up in app/main.py.
pub mod Ready
use cognition_devin_automati.Settings.{Settings, validate_for_runtime}
use cognition_devin_automati.Devin.Client.{healthcheck}
use cognition_devin_automati.Handlers.{get_client}
use cognition_devin_automati.Devin.Transport.{Finish}
use cognition_devin_automati.Prelude.{Bool, List, if◌then◌else◌, false, ◌&&◌, true, ℕ}
use cognition_devin_automati.World.{Except, raised, ok}
use cognition_devin_automati.Prelude.Texts.{nonempty, Text}

pub data DevinHealth : Type 0 where
  devin_up devin_down not_configured : DevinHealth

-- The body of the answer, and its status.
pub record HealthReport : Type 0 where
  pub db_up : Bool
  pub devin : DevinHealth
  pub config_issues : List Text
  pub status_code : ℕ

unfoldable pub is_configured : Settings → Bool
is_configured cfg = nonempty cfg.devin_api_key && nonempty cfg.devin_org_id

unfoldable pub probed : Bool → DevinHealth
probed up = if up then devin_up else devin_down

-- `get_client().healthcheck()`, where an exception counts as False.
unfoldable pub probe : Except (Unit {0}) → Finish → DevinHealth
unfolding probed healthcheck
probe (raised e) answer = devin_down
probe (ok _) answer = probed (healthcheck answer)

unfoldable pub devin_health : Settings → Finish → DevinHealth
unfolding is_configured probe
devin_health cfg answer =
    if is_configured cfg then probe (get_client cfg) answer else not_configured

-- `devin_ok is not False`
unfoldable pub not_down : DevinHealth → Bool
not_down devin_down = false
not_down _ = true

-- `db_ok` is what db.healthcheck() found, and `answer` how the probe of Devin ends.
unfoldable pub healthz : Settings → Bool → Finish → HealthReport
unfolding devin_health not_down
healthz cfg db_ok answer =
    let devin = devin_health cfg answer in
    record {
      db_up = db_ok;
      devin = devin;
      config_issues = validate_for_runtime cfg;
      status_code = if db_ok && not_down devin then 200 else 503;
    }

-- Whether `lifespan` starts the poller.
unfoldable pub starts_poller : Settings → Bool
starts_poller cfg = nonempty cfg.devin_api_key && nonempty cfg.devin_org_id
