-- ===== src/Handlers/Escalation.antt =====
-- _escalate_to_human of app/handlers.py.
pub mod Cancels
pub mod Stops
use cognition_devin_automati.Prelude.{
  ℕ, ◌+◌, false, not, Option, none, some, List, [], ◌∷◌, ◌++◌, leb, ◌==◌, if◌then◌else◌, or_else,
}
use cognition_devin_automati.Prelude.Texts.{Text, text, starts_with, holds_text, truthy, show_nat}
use cognition_devin_automati.Settings.{Settings, ci_fix_label}
use cognition_devin_automati.Status.{needs_attention, cancelled, is_terminal, status_eq}
use cognition_devin_automati.Prompts.{ci_fix_prompt, not_preserved}
use cognition_devin_automati.Sessions.{
  Table, SessionRow, ci_failure, Reservation, try_reserve, update, set_status, set_error_message,
  count_active, find_by_pr, find_active_children, max_fix_attempt_for_parent,
}
use cognition_devin_automati.Outcomes.{
  Outcome, skipped_already_reserved, skipped_not_pr_triggered, skipped_no_pr_in_payload,
  skipped_no_pr_number, error_pr_fetch_failed, skipped_pr_not_found, skipped_not_devin_branch,
  skipped_no_tracked_session_for_pr, skipped_parent_still_active, escalated_max_fix_attempts,
  error_commits_fetch_failed, skipped_human_commits_on_branch, skipped_concurrency_cap,
}
use cognition_devin_automati.World.{
  Except, ok, raised, WorkflowRun, PullRequest, Commit, CreateRequest, Call, Env, State,
}
use cognition_devin_automati.Github.{has_non_devin_commits}
use cognition_devin_automati.Handlers.{make_ci_fix_work_key, get_client, open_session}

-- A request is put on the trace.
abbrev pub sent : Call → State → State
sent c s = record s { trace = c ∷ s.trace }

unfoldable pub escalation_pr_comment : ℕ → Option Text → Text
unfolding text
escalation_pr_comment attempt_count devin_url =
    text
      "## :rotating_light: Devin Maintenance Orchestrator escalation\n\nCI-fix attempts exhausted after **"
    ++ (show_nat attempt_count
        ++ (text
              "** tries. The most recent failing CI workflow continues to fail; the autonomous loop cannot resolve it.\n\nActive fix-sessions have been terminated to stop further ACU spend. **This PR needs human review.**\n\n- "
            ++ (parent_link
                ++ (text "\n- Configured cap: `MAX_FIX_ATTEMPTS="
                    ++ (show_nat attempt_count
                        ++ text
                            "`\n\n_If you fix this manually and want autonomous fixes to resume on a new failure, re-run the failing workflow — the orchestrator treats each `workflow_run.id` as a fresh chain start (subject to the cap)._")))))
  where
    parent_link : Text
    parent_link =
        if truthy devin_url
        then text "[Parent Devin session](" ++ (or_else devin_url [] ++ text ")")
        else text "Parent session id missing"

module _ (cfg : Settings) (env : Env) where
  -- The requests to terminate; a failure is only logged.
  unfoldable pub terminate_child : SessionRow → State → State
  terminate_child child s =
      if truthy child.devin_session_id
      then sent (Call.terminate_session (or_else child.devin_session_id [])) s
      else s

  unfoldable pub cancel_children : List SessionRow → State → State
  unfolding terminate_child text
  cancel_children [] s = s
  cancel_children (child ∷ rest) s =
      let s' = terminate_child child s in
      cancel_children rest (record s' {
        sessions =
            update child.id
              (set_status cancelled ∷ set_error_message (text "cap_hit_on_parent") ∷ [])
              s'.sessions;
      })

  -- Step 1: the parent's row.
  unfoldable pub flag_parent : SessionRow → ℕ → State → State
  unfolding text
  flag_parent parent attempt_count s = record s {
    sessions =
        update parent.id
          (set_status needs_attention
            ∷ set_error_message (
                text "CI-fix exhausted after "
                ++ (show_nat attempt_count ++ text " attempts — needs human review"))
            ∷ [])
          s.sessions;
  }

  -- Steps 2 and 3, for which the client is needed.
  unfoldable pub stop_and_comment :
      Except (Unit {0}) → SessionRow → Text → ℕ → ℕ → State → Except (Unit {0}) × State
  unfolding cancel_children
  stop_and_comment (raised e) parent repo pr_number attempt_count s = (raised e, s)
  stop_and_comment (ok _) parent repo pr_number attempt_count s = (
    ok tt,
    sent
        (Call.post_pr_comment repo pr_number (escalation_pr_comment attempt_count parent.devin_url))
        (cancel_children (find_active_children parent.devin_session_id s.sessions) s),
  )

  unfoldable pub escalate_to_human : SessionRow → Text → ℕ → ℕ → State → Except (Unit {0}) × State
  unfolding flag_parent stop_and_comment
  escalate_to_human parent repo pr_number attempt_count s =
      if status_eq parent.status needs_attention
      then (ok tt, s)
      else stop_and_comment (get_client cfg) parent repo pr_number attempt_count
          (flag_parent parent attempt_count s)
