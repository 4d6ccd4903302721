-- ===== src/Outcomes.antt =====
-- The result strings of app/dispatcher.py and app/handlers.py, one constructor for each f-string,
-- with the text that webhook_events.handler_result stores.
use cognition_devin_automati.Prelude.{ℕ, Bool, Option, List, ◌++◌}
use cognition_devin_automati.Prelude.Texts.{
  Text, text, starts_with, show_nat, show_opt, show_opt_nat, join_comma,
}
use cognition_devin_automati.Status.{Status, status_text}

pub data Outcome : Type 0 where
  queued_concurrency_cap skipped_already_reserved : Text → Outcome
  skipped_daily_cap skipped_not_a_cve_issue : ℕ → Outcome
  skipped_missing_fields : List Text → Outcome
  error_devin_create_failed error_pr_fetch_failed error_commits_fetch_failed : Text → Outcome
  created_session : Text → Outcome
  skipped_not_pr_triggered : Option Text → Outcome
  skipped_no_pr_in_payload skipped_no_pr_number : Option ℕ → Outcome
  skipped_pr_not_found skipped_no_tracked_session_for_pr : ℕ → Outcome
  skipped_not_devin_branch : Text → Outcome
  skipped_parent_still_active : Status → Outcome
  escalated_max_fix_attempts skipped_human_commits_on_branch skipped_concurrency_cap : ℕ → Outcome
  stub_quality_session stub_generic_session : Option ℕ → Outcome
  ok_ping skipped_no_gate_label : Outcome
  skipped_unhandled_event : Text → Outcome
  skipped_issue_action skipped_workflow_action skipped_workflow_conclusion : Option Text → Outcome
  error_crashed : Text → Text → Outcome

unfoldable pub render : Outcome → Text
unfolding text
render (queued_concurrency_cap key) = text "queued:concurrency_cap:" ++ key
render (skipped_already_reserved key) = text "skipped:already_reserved:" ++ key
render (skipped_daily_cap n) = text "skipped:daily_cap:" ++ show_nat n
render (skipped_not_a_cve_issue n) = text "skipped:not_a_cve_issue:" ++ show_nat n
render (skipped_missing_fields ts) = text "skipped:missing_fields:" ++ join_comma ts
render (error_devin_create_failed e) = text "error:devin_create_failed:" ++ e
render (error_pr_fetch_failed e) = text "error:pr_fetch_failed:" ++ e
render (error_commits_fetch_failed e) = text "error:commits_fetch_failed:" ++ e
render (created_session i) = text "created_session:" ++ i
render (skipped_not_pr_triggered e) = text "skipped:not_pr_triggered:" ++ show_opt e
render (skipped_no_pr_in_payload n) = text "skipped:no_pr_in_payload:" ++ show_opt_nat n
render (skipped_no_pr_number n) = text "skipped:no_pr_number:" ++ show_opt_nat n
render (skipped_pr_not_found n) = text "skipped:pr_not_found:" ++ show_nat n
render (skipped_no_tracked_session_for_pr n) =
    text "skipped:no_tracked_session_for_pr:" ++ show_nat n
render (skipped_not_devin_branch b) = text "skipped:not_devin_branch:" ++ b
render (skipped_parent_still_active s) = text "skipped:parent_still_active:" ++ status_text s
render (escalated_max_fix_attempts n) = text "escalated:max_fix_attempts:" ++ show_nat n
render (skipped_human_commits_on_branch n) = text "skipped:human_commits_on_branch:" ++ show_nat n
render (skipped_concurrency_cap n) = text "skipped:concurrency_cap:" ++ show_nat n
render (stub_quality_session n) = text "stub:would_spawn_quality_session:" ++ show_opt_nat n
render (stub_generic_session n) = text "stub:would_spawn_generic_session:" ++ show_opt_nat n
render ok_ping = text "ok:ping"
render skipped_no_gate_label = text "skipped:no_gate_label"
render (skipped_unhandled_event e) = text "skipped:unhandled_event:" ++ e
render (skipped_issue_action a) = text "skipped:issue_action:" ++ show_opt a
render (skipped_workflow_action a) = text "skipped:workflow_action:" ++ show_opt a
render (skipped_workflow_conclusion c) = text "skipped:workflow_conclusion:" ++ show_opt c
render (error_crashed kind message) = text "error:" ++ (kind ++ text ":" ++ message)

-- startswith("queued:"), and LIKE 'queued:%'
unfoldable pub is_queued : Outcome → Bool
unfolding render text starts_with
is_queued o = starts_with (text "queued:") (render o)
