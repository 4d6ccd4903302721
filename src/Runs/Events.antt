-- ===== src/Runs/Events.antt =====
-- The dispatcher, the background task of the webhook and the poller's tick, as runs.
use cognition_devin_automati.Settings.{Settings, gate_label, security_label, quality_label}
use cognition_devin_automati.World.{
  Env, Issue, WorkflowRun, State, Payload, EventRow, Except, raised, ok,
}
use cognition_devin_automati.Orchestrator.Drain.{drain_queue, settle, retry_all, QueueSummary}
use cognition_devin_automati.Dispatcher.{
  dispatch_workflow_run, run_or_empty, dispatch_issue, issue_or_empty, route_run, dispatch,
  route_issue, no_issue, no_run, has_label, is_issue_action,
}
use cognition_devin_automati.Webhook.{process, Job}
use cognition_devin_automati.Prelude.{
  Option, List, Bool-cases, some, ◌∷◌, leb, inr, none, inl, [], ◌-◌,
}
use cognition_devin_automati.Prelude.Texts.{Text, holds_text, text_eq, text}
use cognition_devin_automati.Runs.{Run, next, logged, Run-trans, here}
use cognition_devin_automati.Outcomes.{Outcome, is_queued}
use cognition_devin_automati.Sessions.{count_active}
use cognition_devin_automati.Events.{list_queued}
use cognition_devin_automati.Runs.CiFix.{handle_ci_failure-Run}
use cognition_devin_automati.Runs.Security.{handle_security_issue-Run}
use cognition_devin_automati.Events.Known.{known-mark_processed}

module _ (cfg : Settings) (env : Env) where
  route_issue-Run :
      (issue : Issue) (s : State) → Run cfg.max_fix_attempts s (route_issue cfg env issue s).1
  unfolding route_issue
  route_issue-Run issue s = elim (Bool-cases (has_label gate_label issue.labels)) [
    | inr shut ↦ rw shut here
    | inl open_gate ↦ rw open_gate (elim (Bool-cases (has_label security_label issue.labels)) [
      | inl security ↦ rw security (handle_security_issue-Run cfg env issue s)
      | inr other ↦ rw other (elim (Bool-cases (has_label quality_label issue.labels)) [
        | inl quality ↦ rw quality here
        | inr generic ↦ rw generic here
      ])
    ])
  ]

  issue_or_empty-Run :
      (issue : Option Issue) (s : State)
      → Run cfg.max_fix_attempts s (issue_or_empty cfg env issue s).1
  unfolding issue_or_empty
  issue_or_empty-Run none s = route_issue-Run no_issue s
  issue_or_empty-Run (some issue) s = route_issue-Run issue s

  dispatch_issue-Run :
      (action : Option Text) (payload : Payload) (s : State)
      → Run cfg.max_fix_attempts s (dispatch_issue cfg env action payload s).1
  unfolding dispatch_issue
  dispatch_issue-Run action payload s = elim (Bool-cases (is_issue_action action)) [
    | inr other ↦ rw other here
    | inl known ↦ rw known (issue_or_empty-Run payload.issue s)
  ]

  route_run-Run :
      (run : WorkflowRun) (s : State) → Run cfg.max_fix_attempts s (route_run cfg env run s).1
  unfolding route_run
  route_run-Run run s = elim (Bool-cases (holds_text run.conclusion (text "failure"))) [
    | inr other ↦ rw other here
    | inl failure ↦ rw failure (handle_ci_failure-Run cfg env run s)
  ]

  run_or_empty-Run :
      (run : Option WorkflowRun) (s : State)
      → Run cfg.max_fix_attempts s (run_or_empty cfg env run s).1
  unfolding run_or_empty
  run_or_empty-Run none s = route_run-Run no_run s
  run_or_empty-Run (some run) s = route_run-Run run s

  dispatch_workflow_run-Run :
      (action : Option Text) (payload : Payload) (s : State)
      → Run cfg.max_fix_attempts s (dispatch_workflow_run cfg env action payload s).1
  unfolding dispatch_workflow_run
  dispatch_workflow_run-Run action payload s =
      elim (Bool-cases (holds_text action (text "completed"))) [
        | inr other ↦ rw other here
        | inl completed_run ↦ rw completed_run (run_or_empty-Run payload.workflow_run s)
      ]

  pub dispatch-Run :
      (event_type : Text) (action : Option Text) (payload : Payload) (s : State)
      → Run cfg.max_fix_attempts s (dispatch cfg env event_type action payload s).1
  unfolding dispatch
  dispatch-Run event_type action payload s =
      elim (Bool-cases (text_eq event_type (text "issues"))) [
        | inl issues ↦ rw issues (dispatch_issue-Run action payload s)
        | inr other ↦ rw other (elim (Bool-cases (text_eq event_type (text "workflow_run"))) [
          | inl run ↦ rw run (dispatch_workflow_run-Run action payload s)
          | inr more ↦ rw more (elim (Bool-cases (text_eq event_type (text "ping"))) [
            | inl ping ↦ rw ping here
            | inr unknown ↦ rw unknown here
          ])
        ])
      ]

  pub process-Run : (job : Job) (s : State) → Run cfg.max_fix_attempts s (process cfg env job s)
  unfolding process
  process-Run job s =
      next (dispatch-Run job.event_type job.action job.payload s)
        (logged _ (λ id. known-mark_processed id job.delivery_id _ _ _))

  pub settle-Run :
      {s : State} (row : EventRow) (answer : Except Outcome) (q : QueueSummary) (t : State)
      → Run cfg.max_fix_attempts s t
      → Run cfg.max_fix_attempts s (settle cfg env row answer q t).1
  unfolding settle
  settle-Run row (raised e) q t run = run
  settle-Run row (ok o) q t run = elim (Bool-cases (is_queued o)) [
    | inl queued ↦ rw queued run
    | inr settled ↦
        rw settled (next run (logged _ (λ id. known-mark_processed id row.delivery_id _ _ _)))
  ]

  retry_all-Run :
      {s : State} (rows : List EventRow) (q : QueueSummary) (t : State)
      → Run cfg.max_fix_attempts s t
      → Run cfg.max_fix_attempts s (retry_all cfg env rows q t).1
  unfolding retry_all
  retry_all-Run [] q t run = run
  retry_all-Run (row ∷ rows) q t run =
      retry_all-Run rows _ _ (
        settle-Run row _ q _ (Run-trans run (dispatch-Run row.event_type row.action row.payload t)))

  pub drain_queue-Run : (s : State) → Run cfg.max_fix_attempts s (drain_queue cfg env s).1
  unfolding drain_queue
  drain_queue-Run s =
      elim (Bool-cases (leb cfg.max_concurrent_sessions (count_active s.sessions))) [
        | inl full ↦ rw full here
        | inr room ↦ rw room (
            retry_all-Run
              (list_queued (cfg.max_concurrent_sessions - count_active s.sessions) s.events) _ s
              here)
      ]
