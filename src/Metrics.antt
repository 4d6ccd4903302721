-- ===== src/Metrics.antt =====
-- app/metrics.py: the dashboard's counts. ACUs and hours are whole numbers of a unit; the success
-- rate is the pair of its numerator and denominator, before the rounding.
pub mod Buckets
use cognition_devin_automati.Status.{
  Status, status_eq, is_terminal, is_active, completed, failed, cancelled, is_needs_human,
}
use cognition_devin_automati.Prelude.{
  ℕ, List, Option, ◌∷◌, ◌+◌, if◌then◌else◌, none, some, [], or_else, ◌&&◌, ◌*◌, not,
}
use cognition_devin_automati.Settings.{Settings}
use cognition_devin_automati.Prelude.Texts.{Text, text_eq, truthy}
use cognition_devin_automati.Sessions.{SessionRow}
use cognition_devin_automati.Prelude.Lists.{count_by, length}

pub record DashboardMetrics : Type 0 where
  pub total_sessions : ℕ
  pub active_sessions : ℕ
  pub completed_sessions : ℕ
  pub failed_sessions : ℕ
  pub cancelled_sessions : ℕ
  pub needs_human : ℕ
  pub pr_created : ℕ
  pub completed_without_pr : ℕ
  pub total_acus_consumed : ℕ
  pub successful_terminal : ℕ
  pub terminal : ℕ
  pub estimated_hours_saved : ℕ
  pub estimated_dollars_saved : ℕ
  pub by_label : List (Text × ℕ)
  pub last_activity_at : Option ℕ

-- Rows of one status.
unfoldable pub count_status : Status → List SessionRow → ℕ
count_status st rows = count_by (λ r. status_eq r.status st) rows

unfoldable pub sum_acus : List SessionRow → ℕ
sum_acus [] = 0
sum_acus (r ∷ rs) = r.acus_consumed + sum_acus rs

-- by_label[label] = by_label.get(label, 0) + 1
unfoldable pub bump_label : Text → List (Text × ℕ) → List (Text × ℕ)
bump_label label [] = (label, 1) ∷ []
bump_label label ((l, n) ∷ rest) =
    if text_eq l label then (l, n + 1) ∷ rest else (l, n) ∷ bump_label label rest

unfoldable pub count_labels : List SessionRow → List (Text × ℕ) → List (Text × ℕ)
count_labels [] acc = acc
count_labels (r ∷ rs) acc =
    count_labels rs (if truthy r.label then bump_label (or_else r.label []) acc else acc)

unfoldable pub first_started : List SessionRow → Option ℕ
first_started [] = none
first_started (r ∷ rs) = some r.started_at

unfoldable pub compute_dashboard_metrics : Settings → List SessionRow → DashboardMetrics
compute_dashboard_metrics cfg rows =
    let successful = count_by (λ r. is_terminal r.status && truthy r.pr_url) rows in
    let hours = successful * cfg.hours_saved_per_completed_session in
    record {
      total_sessions = length rows;
      active_sessions = count_by (λ r. is_active r.status) rows;
      completed_sessions = count_status completed rows;
      failed_sessions = count_status failed rows;
      cancelled_sessions = count_status cancelled rows;
      needs_human = count_by (λ r. is_needs_human r.status) rows;
      pr_created = count_by (λ r. truthy r.pr_url) rows;
      completed_without_pr =
          count_by (λ r. status_eq r.status completed && not (truthy r.pr_url)) rows;
      total_acus_consumed = sum_acus rows;
      successful_terminal = successful;
      terminal = count_by (λ r. is_terminal r.status) rows;
      estimated_hours_saved = hours;
      estimated_dollars_saved = hours * cfg.engineer_hourly_rate_usd;
      by_label = count_labels rows [];
      last_activity_at = first_started rows;
    }
