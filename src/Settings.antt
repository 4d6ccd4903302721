-- ===== src/Settings.antt =====
-- app/settings.py: the configuration that the handlers and the poller read, and its check.
pub mod Environment
use cognition_devin_automati.Prelude.{ℕ, List, [], ◌∷◌, ◌++◌, if◌then◌else◌}
use cognition_devin_automati.Prelude.Texts.{Text, text, nonempty}

-- The module's variables. Durations are in seconds, as there.
pub record Settings : Type 0 where
  pub devin_api_key : Text
  pub devin_org_id : Text
  pub devin_mode : Text
  pub devin_max_acu_per_session : ℕ
  pub gh_webhook_secret : Text
  pub gh_token : Text
  pub fork_url : Text
  pub fork_repo : Text
  pub max_concurrent_sessions : ℕ
  pub max_sessions_per_day : ℕ
  pub session_timeout_seconds : ℕ
  pub max_fix_attempts : ℕ
  pub hours_saved_per_completed_session : ℕ
  pub engineer_hourly_rate_usd : ℕ
  pub admin_token : Text
  pub devin_bot_logins : List Text

unfoldable pub gate_label : Text
unfolding text
gate_label = text "devin-remediate"

unfoldable pub security_label : Text
unfolding text
security_label = text "devin-security"

unfoldable pub quality_label : Text
unfolding text
quality_label = text "devin-quality"

unfoldable pub ci_fix_label : Text
unfolding text
ci_fix_label = text "devin-ci-fix"

-- One message for a variable that is not set.
problem : Text → Text → List Text
problem value message = if nonempty value then [] else message ∷ []

unfoldable pub validate_for_runtime : Settings → List Text
unfolding problem text
validate_for_runtime cfg =
    problem cfg.devin_api_key (text "DEVIN_API_KEY not set")
    ++ (problem cfg.devin_org_id (text "DEVIN_ORG_ID not set")
        ++ (problem cfg.gh_webhook_secret
              (text "GH_WEBHOOK_SECRET not set (webhooks will be rejected)")
            ++ problem cfg.gh_token (text "GH_TOKEN not set (cannot fetch PR/workflow data)")))
