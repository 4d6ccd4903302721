-- ===== src/Dispatcher/Routing.antt =====
-- Which events reach a handler.
use cognition_devin_automati.Settings.{Settings, gate_label, security_label, quality_label}
use cognition_devin_automati.World.{Env, Issue, State, Payload, WorkflowRun}
use cognition_devin_automati.Prelude.{
  Option, ◌⊎◌, ◌≡◌, true, Bool-cases, some, inr, inl, refl, none,
}
use cognition_devin_automati.Dispatcher.{
  dispatch_workflow_run, dispatch, run_or_empty, dispatch_issue, issue_or_empty, route_issue,
  has_label, route_run, is_issue_action,
}
use cognition_devin_automati.Prelude.Texts.{Text, holds_text, text, text_eq, eq_of_text_eq}

module _ (cfg : Settings) (env : Env) where
  -- The issue carries the gate label and the security label.
  pub record SecurityEvent (action : Option Text) (payload : Payload) : Type 0 where
    pub issue : Issue
    pub acted : is_issue_action action ≡ true
    pub carried : payload.issue ≡ some issue
    pub gated : has_label gate_label issue.labels ≡ true
    pub security : has_label security_label issue.labels ≡ true

  -- The run is over and has failed.
  pub record FailureEvent (action : Option Text) (payload : Payload) : Type 0 where
    pub run : WorkflowRun
    pub over : holds_text action (text "completed") ≡ true
    pub carried : payload.workflow_run ≡ some run
    pub broken : holds_text run.conclusion (text "failure") ≡ true

  abbrev Gated : Issue → Type 0
  Gated issue =
      (has_label gate_label issue.labels ≡ true) × (has_label security_label issue.labels ≡ true)

  route_issue-inert :
      (issue : Issue) (s : State) → Gated issue ⊎ ((route_issue cfg env issue s).1 ≡ s)
  unfolding route_issue
  route_issue-inert issue s = elim (Bool-cases (has_label gate_label issue.labels)) [
    | inr shut ↦ inr (rw shut refl)
    | inl gate ↦ elim (Bool-cases (has_label security_label issue.labels)) [
      | inl security ↦ inl (gate, security)
      | inr other ↦ inr (
          rw gate (
            rw other (elim (Bool-cases (has_label quality_label issue.labels)) [
              | inl quality ↦ rw quality refl
              | inr generic ↦ rw generic refl
            ])))
    ]
  ]

  issue_or_empty-inert :
      (found : Option Issue) (s : State)
      → ((issue : Issue) × (found ≡ some issue) × Gated issue)
        ⊎ ((issue_or_empty cfg env found s).1 ≡ s)
  unfolding issue_or_empty route_issue has_label
  issue_or_empty-inert none s = inr refl
  issue_or_empty-inert (some issue) s = elim (route_issue-inert issue s) [
    | inl gated ↦ inl (issue, refl, gated)
    | inr same ↦ inr same
  ]

  issue-inert :
      (action : Option Text) (payload : Payload) (s : State)
      → SecurityEvent action payload ⊎ ((dispatch_issue cfg env action payload s).1 ≡ s)
  unfolding dispatch_issue
  issue-inert action payload s = elim (Bool-cases (is_issue_action action)) [
    | inr other ↦ inr (rw other refl)
    | inl acted ↦ elim (issue_or_empty-inert payload.issue s) [
      | inl (issue, carried, gated) ↦ inl (record {
        issue = issue;
        acted = acted;
        carried = carried;
        gated = gated.0;
        security = gated.1;
      })
      | inr same ↦ inr (rw acted same)
    ]
  ]

  run_or_empty-inert :
      (found : Option WorkflowRun) (s : State)
      → ((run : WorkflowRun) × (found ≡ some run)
          × (holds_text run.conclusion (text "failure") ≡ true))
        ⊎ ((run_or_empty cfg env found s).1 ≡ s)
  unfolding run_or_empty route_run
  run_or_empty-inert none s = inr refl
  run_or_empty-inert (some run) s = elim (Bool-cases (holds_text run.conclusion (text "failure"))) [
    | inl broken ↦ inl (run, refl, broken)
    | inr fine ↦ inr (rw fine refl)
  ]

  run-inert :
      (action : Option Text) (payload : Payload) (s : State)
      → FailureEvent action payload ⊎ ((dispatch_workflow_run cfg env action payload s).1 ≡ s)
  unfolding dispatch_workflow_run
  run-inert action payload s = elim (Bool-cases (holds_text action (text "completed"))) [
    | inr other ↦ inr (rw other refl)
    | inl over ↦ elim (run_or_empty-inert payload.workflow_run s) [
      | inl (run, carried, broken) ↦
          inl (record { run = run; over = over; carried = carried; broken = broken })
      | inr same ↦ inr (rw over same)
    ]
  ]

  -- An event leaves the state as it is, unless it is an "issues" event, opened, labeled or
  -- reopened, on an issue with the gate label and the security label, or a "workflow_run" event of
  -- a completed run that failed.
  pub dispatch-inert :
      (event_type : Text) (action : Option Text) (payload : Payload) (s : State)
      → ((event_type ≡ text "issues") × SecurityEvent action payload)
        ⊎ (((event_type ≡ text "workflow_run") × FailureEvent action payload)
            ⊎ ((dispatch cfg env event_type action payload s).1 ≡ s))
  unfolding dispatch
  dispatch-inert event_type action payload s =
      elim (Bool-cases (text_eq event_type (text "issues"))) [
        | inl issues ↦ elim (issue-inert action payload s) [
          | inl event ↦ inl (eq_of_text_eq event_type _ issues, event)
          | inr same ↦ inr (inr (rw issues same))
        ]
        | inr other ↦ elim (Bool-cases (text_eq event_type (text "workflow_run"))) [
          | inl runs ↦ elim (run-inert action payload s) [
            | inl event ↦ inr (inl (eq_of_text_eq event_type _ runs, event))
            | inr same ↦ inr (inr (rw other (rw runs same)))
          ]
          | inr more ↦ inr (
              inr (
                rw other (
                  rw more (elim (Bool-cases (text_eq event_type (text "ping"))) [
                    | inl ping ↦ rw ping refl
                    | inr unknown ↦ rw unknown refl
                  ]))))
        ]
      ]
