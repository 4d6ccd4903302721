-- ===== src/Examples/Reads.antt =====
-- What is read: the stage, the metrics, Devin's answers and requests, and the admin routes.
use cognition_devin_automati.Examples.Data.{cfg, completed_row, fix_row}
use cognition_devin_automati.Prelude.{
  List, ℕ, ◌≡◌, ◌+◌, none, ◌∷◌, [], suc, zero, some, if◌then◌else◌,
}
use cognition_devin_automati.Devin.Transport.{Ends, Attempt, reply, request, request-Ends}
use cognition_devin_automati.Metrics.{compute_dashboard_metrics}
use cognition_devin_automati.Sessions.{SessionRow}
use cognition_devin_automati.Metrics.Buckets.{waiting, compute_dashboard_metrics-buckets}
use cognition_devin_automati.Prelude.Texts.{Text, text, text_eq}
use cognition_devin_automati.World.{Except, ok, raised}

abbrev rows : List SessionRow
rows = completed_row ∷ fix_row ∷ []

compute_dashboard_metrics-buckets_example :
    let shown = compute_dashboard_metrics cfg rows in
    shown.total_sessions + waiting rows
    ≡ shown.active_sessions + shown.completed_sessions + shown.failed_sessions
      + shown.cancelled_sessions + shown.needs_human
compute_dashboard_metrics-buckets_example = compute_dashboard_metrics-buckets cfg rows

-- A server that asks for two seconds, and answers on the second try.
abbrev answers : ℕ → Attempt
answers zero = reply 429 (some (text "2"))
answers (suc n) = reply 200 none

-- A reader of this one header.
abbrev float : Text → Except ℕ
float header =
    if text_eq header (text "2")
    then ok 2
    else raised (record { kind = text "ValueError"; message = [] })

request-Ends_example :
    Ends
      (λ n. n)
      float
      (λ code. none)
      answers
      3
      0
      []
      (request (λ n. n) float (λ code. none) answers 3)
request-Ends_example = request-Ends (λ n. n) float (λ code. none) answers 3
