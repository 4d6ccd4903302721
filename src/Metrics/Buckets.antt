-- ===== src/Metrics/Buckets.antt =====
-- How the dashboard's buckets add up.
use cognition_devin_automati.Prelude.{
  Bool, List, ℕ, ◌∷◌, if◌then◌else◌, ◌&&◌, ◌≡◌, ◌+◌, arith, [], refl,
}
use cognition_devin_automati.Status.{
  is_active, is_needs_human, status_eq, Status, completed, failed, cancelled, reserving, pending,
  running, blocked, needs_attention, timeout,
}
use cognition_devin_automati.Prelude.Lists.{count_by, length}
use cognition_devin_automati.Settings.{Settings}
use cognition_devin_automati.Sessions.{SessionRow}
use cognition_devin_automati.Metrics.{compute_dashboard_metrics, DashboardMetrics, count_status}

count_cons :
    (p : SessionRow → Bool) (r : SessionRow) (rs : List SessionRow)
    → count_by p (r ∷ rs) ≡ (if p r then 1 else 0) + count_by p rs
unfolding count_by
count_cons p r rs = ground arith

abbrev pub one_if : Bool → ℕ
one_if b = if b then 1 else 0

-- Each status falls in one of five buckets, and the waiting ones are counted twice.
buckets :
    (st : Status)
    → 1 + one_if (is_active st && is_needs_human st)
      ≡ one_if (is_active st)
        + one_if (status_eq st completed)
        + one_if (status_eq st failed)
        + one_if (status_eq st cancelled)
        + one_if (is_needs_human st)
unfolding is_active is_needs_human status_eq
buckets reserving = refl
buckets pending = refl
buckets running = refl
buckets blocked = refl
buckets needs_attention = refl
buckets completed = refl
buckets failed = refl
buckets cancelled = refl
buckets timeout = refl

abbrev pub waiting : List SessionRow → ℕ
waiting rows = count_by (λ r. is_active r.status && is_needs_human r.status) rows

rows_in_buckets :
    (rows : List SessionRow)
    → length rows + waiting rows
      ≡ count_by (λ r. is_active r.status) rows
        + count_by (λ r. status_eq r.status completed) rows
        + count_by (λ r. status_eq r.status failed) rows
        + count_by (λ r. status_eq r.status cancelled) rows
        + count_by (λ r. is_needs_human r.status) rows
unfolding count_by
rows_in_buckets [] = refl
rows_in_buckets (r ∷ rs) = omega (
  arith,
  rows_in_buckets rs,
  buckets r.status,
  count_cons (λ x. is_active x.status && is_needs_human x.status) r rs,
  count_cons (λ x. is_active x.status) r rs,
  count_cons (λ x. status_eq x.status completed) r rs,
  count_cons (λ x. status_eq x.status failed) r rs,
  count_cons (λ x. status_eq x.status cancelled) r rs,
  count_cons (λ x. is_needs_human x.status) r rs,
)

module _ (cfg : Settings) (rows : List SessionRow) where
  abbrev shown : DashboardMetrics
  shown = compute_dashboard_metrics cfg rows

  -- The five lifecycle buckets add up to the number of rows plus the rows that are blocked or
  -- need attention, which are both active and in need of a human.
  pub compute_dashboard_metrics-buckets :
      shown.total_sessions + waiting rows
      ≡ shown.active_sessions + shown.completed_sessions + shown.failed_sessions
        + shown.cancelled_sessions + shown.needs_human
  unfolding compute_dashboard_metrics count_status
  compute_dashboard_metrics-buckets = rows_in_buckets rows
