-- ===== src/Dispatcher.antt =====
-- app/dispatcher.py: the label-based router, and the stub handlers of app/handlers.py.
pub mod Routing
use cognition_devin_automati.Prelude.{
  Bool, false, ◌||◌, not, Option, none, some, List, [], ◌∷◌, if◌then◌else◌,
}
use cognition_devin_automati.Prelude.Texts.{Text, text, text_eq, holds_text}
use cognition_devin_automati.Settings.{Settings, gate_label, security_label, quality_label}
use cognition_devin_automati.Outcomes.{
  Outcome, stub_quality_session, stub_generic_session, ok_ping, skipped_unhandled_event,
  skipped_issue_action, skipped_no_gate_label, skipped_workflow_action, skipped_workflow_conclusion,
}
use cognition_devin_automati.World.{Except, ok, Issue, WorkflowRun, Payload, Env, State}
use cognition_devin_automati.Handlers.Security.{handle_security_issue}
use cognition_devin_automati.Handlers.CiFix.{handle_ci_failure}

unfoldable pub handle_quality_issue : Issue → Outcome
handle_quality_issue issue = stub_quality_session issue.number

unfoldable pub handle_generic_remediation : Issue → Outcome
handle_generic_remediation issue = stub_generic_session issue.number

-- `label in label_names`
unfoldable pub has_label : Text → List (Option Text) → Bool
has_label label [] = false
has_label label (l ∷ ls) = holds_text l label || has_label label ls

-- `payload.get(…) or {}`: the empty dict has no labels and no conclusion.
abbrev pub no_issue : Issue
no_issue = record {
  html_url = none;
  number = none;
  body = none;
  labels = [];
  repository_full_name = none;
  repository_url = none;
}

abbrev pub no_run : WorkflowRun
no_run = record {
  id = none;
  name = none;
  event = none;
  conclusion = none;
  repository_full_name = none;
  pull_request_numbers = [];
}

unfoldable pub is_issue_action : Option Text → Bool
unfolding text
is_issue_action action =
    holds_text action (text "opened")
    || (holds_text action (text "labeled") || holds_text action (text "reopened"))

module _ (cfg : Settings) (env : Env) where
  unfoldable pub route_issue : Issue → State → Outcome × State
  route_issue issue s =
      if not (has_label gate_label issue.labels)
      then (skipped_no_gate_label, s)
      else if has_label security_label issue.labels
      then handle_security_issue cfg env issue s
      else if has_label quality_label issue.labels
      then (handle_quality_issue issue, s)
      else (handle_generic_remediation issue, s)

  -- `payload.get("issue") or {}`
  unfoldable pub issue_or_empty : Option Issue → State → Outcome × State
  unfolding route_issue
  issue_or_empty none s = route_issue no_issue s
  issue_or_empty (some issue) s = route_issue issue s

  unfoldable pub dispatch_issue : Option Text → Payload → State → Outcome × State
  unfolding issue_or_empty
  dispatch_issue action payload s =
      if not (is_issue_action action)
      then (skipped_issue_action action, s)
      else issue_or_empty payload.issue s

  unfoldable pub route_run : WorkflowRun → State → Except Outcome × State
  unfolding text
  route_run run s =
      if not (holds_text run.conclusion (text "failure"))
      then (ok (skipped_workflow_conclusion run.conclusion), s)
      else handle_ci_failure cfg env run s

  -- `payload.get("workflow_run") or {}`
  unfoldable pub run_or_empty : Option WorkflowRun → State → Except Outcome × State
  unfolding route_run
  run_or_empty none s = route_run no_run s
  run_or_empty (some run) s = route_run run s

  unfoldable pub dispatch_workflow_run : Option Text → Payload → State → Except Outcome × State
  unfolding run_or_empty text
  dispatch_workflow_run action payload s =
      if not (holds_text action (text "completed"))
      then (ok (skipped_workflow_action action), s)
      else run_or_empty payload.workflow_run s

  abbrev returned : Outcome × State → Except Outcome × State
  returned (o, s) = (ok o, s)

  unfoldable pub dispatch : Text → Option Text → Payload → State → Except Outcome × State
  unfolding dispatch_issue dispatch_workflow_run text
  dispatch event_type action payload s =
      if text_eq event_type (text "issues")
      then returned (dispatch_issue action payload s)
      else if text_eq event_type (text "workflow_run")
      then dispatch_workflow_run action payload s
      else if text_eq event_type (text "ping")
      then (ok ok_ping, s)
      else (ok (skipped_unhandled_event event_type), s)
