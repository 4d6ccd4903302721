-- ===== src/Examples/Services.antt =====
-- The service and the handler of a CVE issue.
use cognition_devin_automati.Examples.Data.{
  cfg, env, crypto, issue, two_rows, one_row, one_row-IsValid,
}
use cognition_devin_automati.Prelude.Texts.{Text, text, text_eq, starts_with, drop_prefix}
use cognition_devin_automati.Runs.Invariants.{creates}
use cognition_devin_automati.Webhook.{
  github_webhook, Job, verify_github_signature, signature_prefix, accept_parsed, process, accept,
}
use cognition_devin_automati.Prelude.{
  List, ◌≡◌, Option, some, ◌+◌, ◌≤◌, arith, none, refl, ◌∷◌, ◌⊎◌, [], ◌-◌, ◌<◌, ℕ,
}
use cognition_devin_automati.Sessions.{count_active, count_started_today}
use cognition_devin_automati.Prelude.Lists.{any_by, count_by, length}
use cognition_devin_automati.Service.{serve, Turn, deliver, tick}
use cognition_devin_automati.Handlers.Security.Decisions.{
  Handled, handle_security_issue-Handled, HasRoom,
}
use cognition_devin_automati.Service.Ledger.{
  handle_security_issue_once, serve-paid, deliver_once, serve-fixes_bounded,
}
use cognition_devin_automati.Dispatcher.Routing.{SecurityEvent, FailureEvent, dispatch-inert}
use cognition_devin_automati.Handlers.Security.{handle_security_issue}
use cognition_devin_automati.Status.{is_active}
use cognition_devin_automati.Webhook.Receipts.{Admitted, github_webhook-Admitted}
use cognition_devin_automati.Events.{record_event}
use cognition_devin_automati.Dispatcher.{dispatch}
use cognition_devin_automati.Orchestrator.Drain.{drain_queue}
use cognition_devin_automati.Orchestrator.Drain.Bounds.{drain_queue-bounds}
use cognition_devin_automati.Prelude.Digits.{NoColon}
use cognition_devin_automati.Handlers.Keys.{issue_item, work_key-injective}
use cognition_devin_automati.Sessions.Chains.{fixes_of, last_attempt, IsCounted}

abbrev delivery_body : Text
delivery_body = text "{}"

abbrev genuine : Option Text
genuine = some (text "sha256=s{}")

abbrev turns : List Turn
turns =
    deliver delivery_body (some (text "issues")) (some (text "n1")) genuine
    ∷ tick
    ∷ deliver delivery_body (some (text "issues")) (some (text "n2")) genuine
    ∷ []

handle_security_issue-Handled_example :
    Handled cfg env issue one_row
      (handle_security_issue cfg env issue one_row).0
      (handle_security_issue cfg env issue one_row).1
handle_security_issue-Handled_example =
    handle_security_issue-Handled cfg env issue one_row one_row-IsValid

serve-paid_example :
    creates (serve cfg env crypto turns two_rows).trace + length two_rows.sessions.rows
    ≤ creates two_rows.trace + length (serve cfg env crypto turns two_rows).sessions.rows
serve-paid_example = serve-paid cfg env crypto turns two_rows

two_rows-IsCounted : IsCounted (text "d1") two_rows.sessions
unfolding fixes_of count_by last_attempt text text_eq
two_rows-IsCounted = omega arith

serve-fixes_bounded_example :
    fixes_of (text "d1") (serve cfg env crypto turns two_rows).sessions ≤ 3
serve-fixes_bounded_example =
    serve-fixes_bounded cfg env crypto turns two_rows (text "d1") two_rows-IsCounted
      (omega arith, (omega arith, tt))

has_room : HasRoom cfg env issue one_row
unfolding count_active count_by is_active count_started_today
has_room = (omega arith, omega arith)

handle_security_issue_once_example :
    let t = serve cfg env crypto turns (handle_security_issue cfg env issue one_row).1 in
    (handle_security_issue cfg env issue t).1 ≡ t
handle_security_issue_once_example =
    handle_security_issue_once cfg env crypto turns one_row issue one_row-IsValid has_room

abbrev first_job : Job
first_job = record {
  delivery_id = text "n1";
  event_type = text "issues";
  action = some (text "labeled");
  payload = record { action = some (text "labeled"); issue = some issue; workflow_run = none };
}

job_left :
    (github_webhook cfg env crypto delivery_body
      (some (text "issues"))
      (some (text "n1"))
      genuine
      one_row).1
    ≡ some first_job
unfolding github_webhook verify_github_signature signature_prefix accept_parsed accept record_event
    text text_eq starts_with drop_prefix any_by
job_left = refl

deliver_once_example :
    let left =
      github_webhook cfg env crypto delivery_body
        (some (text "issues"))
        (some (text "n1"))
        genuine
        one_row in
    let t = serve cfg env crypto turns (process cfg env first_job left.2) in
    let again =
      github_webhook cfg env crypto delivery_body
        (some (text "issues"))
        (some (text "n1"))
        genuine
        t in
    (again.1 ≡ none) × (again.2 ≡ t)
deliver_once_example =
    deliver_once cfg env crypto turns one_row delivery_body (some (text "issues"))
      (some (text "n1")) genuine first_job job_left

github_webhook-Admitted_example :
    Admitted cfg env crypto delivery_body
      (some (text "issues"))
      (some (text "n1"))
      genuine
      one_row
      first_job
github_webhook-Admitted_example =
    github_webhook-Admitted cfg env crypto delivery_body (some (text "issues")) (some (text "n1"))
      genuine one_row first_job job_left

dispatch-inert_example :
    ((text "push" ≡ text "issues") × SecurityEvent cfg env none first_job.payload)
    ⊎ (((text "push" ≡ text "workflow_run") × FailureEvent cfg env none first_job.payload)
        ⊎ ((dispatch cfg env (text "push") none first_job.payload two_rows).1 ≡ two_rows))
dispatch-inert_example = dispatch-inert cfg env (text "push") none first_job.payload two_rows

drain_queue-bounds_example :
    let q = (drain_queue cfg env one_row).0 in
    (q.queue_dispatched ≤ q.queue_retried)
    × ((q.queue_retried ≤ q.queue_seen)
        × ((q.queue_seen ≤ 2 - count_active one_row.sessions)
            × ((count_active one_row.sessions < 2) ⊎ ((drain_queue cfg env one_row).1 ≡ one_row))))
drain_queue-bounds_example = drain_queue-bounds cfg env one_row

abbrev number : ℕ
number = 7

no_colon : NoColon (text "o/r")
unfolding text
no_colon = (λ e. cc, (λ e. cc, (λ e. cc, tt)))

work_key-injective_example :
    issue_item (text "o/r") number (text "devin-security")
    ≡ issue_item (text "o/r") number (text "devin-security")
work_key-injective_example =
    work_key-injective (issue_item (text "o/r") number (text "devin-security"))
      (issue_item (text "o/r") number (text "devin-security")) no_colon no_colon refl
