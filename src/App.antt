-- ===== src/App.antt =====
-- The application of app/main.py with the read routes of app/routes/metrics.py and
-- app/serializers.py: which routes it has, what each answers, and what a request or a tick of the
-- poller leaves.
pub mod Refines
use cognition_devin_automati.Prelude.{
  ℕ, Option, Bool, List, map, ◌∷◌, if◌then◌else◌, [], some, none,
}
use cognition_devin_automati.Settings.{Settings}
use cognition_devin_automati.Health.{HealthReport, healthz, starts_poller}
use cognition_devin_automati.Sessions.{SessionRow, TriggerType, list_recent, list_desc}
use cognition_devin_automati.World.{State, Env}
use cognition_devin_automati.Devin.Transport.{Finish}
use cognition_devin_automati.Webhook.{Response, Crypto, Job, github_webhook}
use cognition_devin_automati.Prelude.Texts.{Text}
use cognition_devin_automati.Metrics.{DashboardMetrics, compute_dashboard_metrics}
use cognition_devin_automati.Admin.{reset, Reply, replay}
use cognition_devin_automati.Admin.Locks.{after}
use cognition_devin_automati.Status.{Status}
use cognition_devin_automati.Orchestrator.{poll_once}

-- session_to_dict
pub record SessionDict : Type 0 where
  pub id : ℕ
  pub devin_session_id : Option Text
  pub devin_url : Option Text
  pub trigger_type : TriggerType
  pub trigger_ref : Text
  pub issue_number : Option ℕ
  pub label : Option Text
  pub parent_devin_session_id : Option Text
  pub status : Status
  pub raw_status : Option Text
  pub pr_url : Option Text
  pub acus_consumed : ℕ
  pub started_at : ℕ
  pub completed_at : Option ℕ
  pub last_polled_at : Option ℕ
  pub error_message : Option Text
  pub fix_attempt_number : ℕ

unfoldable pub session_to_dict : SessionRow → SessionDict
session_to_dict r = record {
  id = r.id;
  devin_session_id = r.devin_session_id;
  devin_url = r.devin_url;
  trigger_type = r.trigger_type;
  trigger_ref = r.trigger_ref;
  issue_number = r.issue_number;
  label = r.label;
  parent_devin_session_id = r.parent_devin_session_id;
  status = r.status;
  raw_status = r.raw_status;
  pr_url = r.pr_url;
  acus_consumed = r.acus_consumed;
  started_at = r.started_at;
  completed_at = r.completed_at;
  last_polled_at = r.last_polled_at;
  error_message = r.error_message;
  fix_attempt_number = r.fix_attempt_number;
}

unfoldable pub metrics_endpoint : Settings → State → DashboardMetrics
metrics_endpoint cfg s = compute_dashboard_metrics cfg (list_recent 10_000 s.sessions)

-- A negative limit, `none`, is no limit to SQLite.
unfoldable pub sessions_endpoint : Option ℕ → State → List SessionDict
unfolding session_to_dict
sessions_endpoint none s = map session_to_dict (list_desc s.sessions.rows)
sessions_endpoint (some limit) s = map session_to_dict (list_recent limit s.sessions)

-- The requests that the routers know, with what the handlers read of them; /healthz with what its
-- two probes find.
pub data AppRequest : Type 0 where
  get_healthz : Bool → Finish → AppRequest
  -- the body and the event, delivery and signature headers
  post_webhook : Text → Option Text → Option Text → Option Text → AppRequest
  get_metrics : AppRequest
  get_sessions : Option ℕ → AppRequest
  -- the delivery and the token
  post_replay : Text → Option Text → AppRequest
  post_reset : Option Text → AppRequest

pub data Answer : Type 0 where
  health : HealthReport → Answer
  webhook : Response → Answer
  metrics : DashboardMetrics → Answer
  sessions : List SessionDict → Answer
  admin : Reply → Answer
  not_found : Answer

-- A request, or a tick of the poller's loop.
pub data Happening : Type 0 where
  asks : AppRequest → Happening
  ticks : Happening

module _ (cfg : Settings) (enable_admin_routes : Bool) (env : Env) (crypto : Crypto) where
  -- The answer with the background task and the state that it leaves.
  unfoldable pub handle : AppRequest → State → Answer × Option Job × State
  unfolding metrics_endpoint sessions_endpoint
  handle (get_healthz db_ok probed) s = (health (healthz cfg db_ok probed), none, s)
  handle (post_webhook body event delivery signature) s =
      let (response, job, t) = github_webhook cfg env crypto body event delivery signature s in
      (webhook response, job, t)
  handle get_metrics s = (metrics (metrics_endpoint cfg s), none, s)
  handle (get_sessions limit) s = (sessions (sessions_endpoint limit s), none, s)
  handle (post_replay delivery token) s =
      if enable_admin_routes
      then (let (outcome, job) = replay cfg crypto delivery token s in (admin outcome, job, s))
      else (not_found, none, s)
  handle (post_reset token) s =
      if enable_admin_routes
      then (let (outcome, t) = reset cfg crypto token s in (admin outcome, none, t))
      else (not_found, none, s)

  -- A background task runs behind the answer; the loop runs only where `lifespan` has started it.
  unfoldable pub happen : Happening → State → State
  unfolding handle
  happen (asks r) s = let (answer, job, t) = handle r s in after cfg env crypto job t
  happen ticks s = if starts_poller cfg then (poll_once cfg env s).1 else s

  unfoldable pub run_app : List Happening → State → State
  unfolding happen
  run_app [] s = s
  run_app (h ∷ hs) s = run_app hs (happen h s)
