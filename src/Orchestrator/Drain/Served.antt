-- ===== src/Orchestrator/Drain/Served.antt =====
-- What a retried issue event does to the log, and when it waits again.
use cognition_devin_automati.Handlers.Security.Decisions.{
  Handled, queued, throttled, known, no_cve, handle_security_issue-Handled, malformed, not_created,
  created,
}
use cognition_devin_automati.Settings.{Settings, gate_label, security_label, quality_label}
use cognition_devin_automati.World.{Env, State, Issue, Payload}
use cognition_devin_automati.Dispatcher.{
  dispatch_issue, route_issue, issue_or_empty, handle_quality_issue, no_issue,
  handle_generic_remediation, has_label, is_issue_action,
}
use cognition_devin_automati.Outcomes.{
  is_queued, Outcome, render, skipped_daily_cap, skipped_already_reserved, skipped_no_gate_label,
  skipped_issue_action, skipped_not_a_cve_issue, stub_quality_session, skipped_missing_fields,
  stub_generic_session, error_devin_create_failed, created_session,
}
use cognition_devin_automati.Prelude.{
  ◌≡◌, Option, true, false, ◌≤◌, ap, some, refl, Bool-cases, none, inr, inl,
}
use cognition_devin_automati.Prelude.Texts.{text, starts_with, Text}
use cognition_devin_automati.Sessions.Unique.{IsValid}
use cognition_devin_automati.Sessions.{count_active}
use cognition_devin_automati.Handlers.Security.{security_key, issue_number}
use cognition_devin_automati.Prompts.{missing_required_fields}

module _ (cfg : Settings) (env : Env) where
  -- The log is left alone, and only a reached cap queues.
  pub record Served (s : State) (r : Outcome × State) : Type 0 where
    pub events : r.1.events ≡ s.events
    pub queued : is_queued r.0 ≡ true → cfg.max_concurrent_sessions ≤ count_active s.sessions

  settled : (o : Outcome) → is_queued o ≡ false → {A : Type 0} → is_queued o ≡ true → A
  settled o h e = cc

  Handled-Served :
      (issue : Issue) (s t : State) (o : Outcome) → Handled cfg env issue s o t → Served s (o, t)
  unfolding is_queued render text starts_with
  Handled-Served issue s t o (queued full e same) = record {
    events = ap (λ (u : State). u.events) same;
    queued = λ h. full;
  }
  Handled-Served issue s t o (throttled room spent e same) = record {
    events = ap (λ (u : State). u.events) same;
    queued = rw e (settled (skipped_daily_cap cfg.max_sessions_per_day) refl);
  }
  Handled-Served issue s t o (known room taken e same) = record {
    events = ap (λ (u : State). u.events) same;
    queued = rw e (settled (skipped_already_reserved (security_key cfg issue)) refl);
  }
  Handled-Served issue s t o (no_cve room row added st parsed e tr) = record {
    events = added.events;
    queued = rw e (settled (skipped_not_a_cve_issue (issue_number issue)) refl);
  }
  Handled-Served issue s t o (malformed room row ctx added st parsed inc e tr) = record {
    events = added.events;
    queued = rw e (settled (skipped_missing_fields (missing_required_fields ctx)) refl);
  }
  Handled-Served issue s t o (not_created room row ctx x added st parsed comp e tr) = record {
    events = added.events;
    queued = rw e (settled (error_devin_create_failed x.kind) refl);
  }
  Handled-Served issue s t o (created room row ctx c added st i p parsed comp a e tr) = record {
    events = added.events;
    queued = rw e (settled (created_session c.devin_session_id) refl);
  }

  unchanged-Served : (o : Outcome) (s : State) → is_queued o ≡ false → Served s (o, s)
  unchanged-Served o s h = record { events = refl; queued = settled o h }

  route_issue-Served :
      (issue : Issue) (s : State) → IsValid s.sessions → Served s (route_issue cfg env issue s)
  unfolding route_issue is_queued render text starts_with handle_quality_issue
      handle_generic_remediation
  route_issue-Served issue s v = elim (Bool-cases (has_label gate_label issue.labels)) [
    | inr shut ↦ rw shut (unchanged-Served skipped_no_gate_label s refl)
    | inl open_gate ↦ rw open_gate (elim (Bool-cases (has_label security_label issue.labels)) [
      | inl security ↦
          rw security (Handled-Served issue s _ _ (handle_security_issue-Handled cfg env issue s v))
      | inr other ↦ rw other (elim (Bool-cases (has_label quality_label issue.labels)) [
        | inl quality ↦ rw quality (unchanged-Served (stub_quality_session issue.number) s refl)
        | inr generic ↦ rw generic (unchanged-Served (stub_generic_session issue.number) s refl)
      ])
    ])
  ]

  issue_or_empty-Served :
      (issue : Option Issue) (s : State)
      → IsValid s.sessions
      → Served s (issue_or_empty cfg env issue s)
  unfolding issue_or_empty
  issue_or_empty-Served none s v = route_issue-Served no_issue s v
  issue_or_empty-Served (some issue) s v = route_issue-Served issue s v

  pub dispatch_issue-Served :
      (action : Option Text) (payload : Payload) (s : State)
      → IsValid s.sessions
      → Served s (dispatch_issue cfg env action payload s)
  unfolding dispatch_issue is_queued render text starts_with
  dispatch_issue-Served action payload s v = elim (Bool-cases (is_issue_action action)) [
    | inr other ↦ rw other (unchanged-Served (skipped_issue_action action) s refl)
    | inl known_action ↦ rw known_action (issue_or_empty-Served payload.issue s v)
  ]
