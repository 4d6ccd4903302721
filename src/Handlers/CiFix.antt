-- ===== src/Handlers/CiFix.antt =====
-- handle_ci_failure of app/handlers.py.
pub mod Guards
pub mod Permits
pub mod Dropped
pub mod Decisions
pub mod Decided
use cognition_devin_automati.Prelude.{
  ℕ, ◌+◌, false, not, Option, none, some, List, [], ◌∷◌, ◌++◌, leb, ◌==◌, if◌then◌else◌, or_else,
}
use cognition_devin_automati.Prelude.Texts.{Text, text, starts_with, holds_text, truthy, show_nat}
use cognition_devin_automati.Settings.{Settings, ci_fix_label}
use cognition_devin_automati.Status.{needs_attention, cancelled, is_terminal, status_eq}
use cognition_devin_automati.Prompts.{ci_fix_prompt, not_preserved}
use cognition_devin_automati.Sessions.{
  Table, SessionRow, ci_failure, Reservation, try_reserve, update, set_status, set_error_message,
  count_active, find_by_pr, find_active_children, max_fix_attempt_for_parent,
}
use cognition_devin_automati.Outcomes.{
  Outcome, skipped_already_reserved, skipped_not_pr_triggered, skipped_no_pr_in_payload,
  skipped_no_pr_number, error_pr_fetch_failed, skipped_pr_not_found, skipped_not_devin_branch,
  skipped_no_tracked_session_for_pr, skipped_parent_still_active, escalated_max_fix_attempts,
  error_commits_fetch_failed, skipped_human_commits_on_branch, skipped_concurrency_cap,
}
use cognition_devin_automati.World.{
  Except, ok, raised, WorkflowRun, PullRequest, Commit, CreateRequest, Call, Env, State,
}
use cognition_devin_automati.Github.{has_non_devin_commits}
use cognition_devin_automati.Handlers.{make_ci_fix_work_key, get_client, open_session}
use cognition_devin_automati.Handlers.Escalation.{escalate_to_human, sent}

-- The fix that a request asks for, once the guards have passed.
pub record Fix : Type 0 where
  pub repo : Text
  pub run : WorkflowRun
  pub pr_number : ℕ
  pub pr_url : Text
  pub head_ref : Text

unfoldable pub fix_reservation : Fix → SessionRow → ℕ → Reservation
fix_reservation fix parent next_attempt = record {
  work_key = make_ci_fix_work_key fix.repo fix.run.id;
  trigger_type = ci_failure;
  trigger_ref = fix.pr_url;
  issue_number = some fix.pr_number;
  label = some ci_fix_label;
  parent_devin_session_id = parent.devin_session_id;
  fix_attempt_number = next_attempt;
}

module _ (cfg : Settings) (env : Env) where
  -- The tail of the failing log, or the note that it could not be fetched.
  unfoldable pub logs_or_note : Except Text → Text
  unfolding text
  logs_or_note (ok logs) = logs
  logs_or_note (raised e) = text "(could not fetch logs: " ++ (e.message ++ text ")")

  unfoldable pub fix_request : Fix → SessionRow → ℕ → Text → CreateRequest
  unfolding text
  fix_request fix parent next_attempt logs_tail = record {
    prompt =
        ci_fix_prompt
          (record {
            pr_url = fix.pr_url;
            branch = fix.head_ref;
            workflow_name = or_else fix.run.name (text "unknown");
            failure_logs_tail = logs_tail;
            attempt_number = next_attempt;
            max_attempts = cfg.max_fix_attempts;
          })
          (or_else parent.prompt_snapshot not_preserved);
    repos = cfg.fork_repo ∷ [];
    title =
        text "CI fix attempt #"
        ++ (show_nat next_attempt ++ (text ": PR #" ++ show_nat fix.pr_number));
    tags = text "ci-fix" ∷ show_nat next_attempt ∷ [];
    max_acu_limit = cfg.devin_max_acu_per_session;
    devin_mode = cfg.devin_mode;
    parent_session_id = parent.devin_session_id;
    with_schema = false;
  }

  unfoldable pub claimed_fix : Option ℕ × Table → Fix → SessionRow → ℕ → State → Outcome × State
  unfolding logs_or_note
  claimed_fix (none, t) fix parent next_attempt s =
      (skipped_already_reserved (make_ci_fix_work_key fix.repo fix.run.id), s)
  claimed_fix (some pk, t) fix parent next_attempt s =
      open_session cfg env
        (fix_request fix parent next_attempt
          (logs_or_note (env.get_logs s.trace fix.repo fix.run.id)))
        pk (sent (Call.get_logs fix.repo fix.run.id) (record s { sessions = t }))

  -- From the reservation on.
  unfoldable pub reserve_and_fix : Fix → SessionRow → ℕ → State → Outcome × State
  unfolding claimed_fix
  reserve_and_fix fix parent next_attempt s =
      claimed_fix (try_reserve (fix_reservation fix parent next_attempt) (env.now s) s.sessions) fix
        parent next_attempt s

  -- The guards behind the list of commits.
  unfoldable pub with_commits :
      Except (List Commit) → Fix → SessionRow → ℕ → State → Outcome × State
  unfolding reserve_and_fix
  with_commits (raised e) fix parent next_attempt s = (error_commits_fetch_failed e.kind, s)
  with_commits (ok commits) fix parent next_attempt s =
      if has_non_devin_commits cfg.devin_bot_logins commits
      then (skipped_human_commits_on_branch fix.pr_number, s)
      else if leb cfg.max_concurrent_sessions (count_active s.sessions)
      then (skipped_concurrency_cap cfg.max_concurrent_sessions, s)
      else reserve_and_fix fix parent next_attempt s

  abbrev returned : Outcome × State → Except Outcome × State
  returned (o, s) = (ok o, s)

  -- The result of a handler whose escalation may raise.
  unfoldable pub escalated : ℕ → Except (Unit {0}) × State → Except Outcome × State
  escalated n (ok _, s) = (ok (escalated_max_fix_attempts n), s)
  escalated n (raised e, s) = (raised e, s)

  unfoldable pub with_parent : Fix → SessionRow → State → Except Outcome × State
  unfolding escalated with_commits
  with_parent fix parent s =
      let current_max = max_fix_attempt_for_parent parent.devin_session_id s.sessions in
      if not (is_terminal parent.status)
      then (ok (skipped_parent_still_active parent.status), s)
      else if leb cfg.max_fix_attempts current_max
      then escalated current_max
          (escalate_to_human cfg env parent fix.repo fix.pr_number current_max s)
      else returned (
          with_commits (env.list_pr_commits s.trace fix.repo fix.pr_number) fix parent
            (current_max + 1) (sent (Call.list_pr_commits fix.repo fix.pr_number) s))

  unfoldable pub with_tracked : Fix → Option SessionRow → State → Except Outcome × State
  unfolding with_parent
  with_tracked fix none s = (ok (skipped_no_tracked_session_for_pr fix.pr_number), s)
  with_tracked fix (some parent) s = with_parent fix parent s

  unfoldable pub with_pr :
      Except (Option PullRequest) → Text → WorkflowRun → ℕ → State → Except Outcome × State
  unfolding with_tracked text
  with_pr (raised e) repo run pr_number s = (ok (error_pr_fetch_failed e.kind), s)
  with_pr (ok none) repo run pr_number s = (ok (skipped_pr_not_found pr_number), s)
  with_pr (ok (some pr)) repo run pr_number s =
      let pr_url = or_else pr.html_url [] in
      let head_ref = or_else pr.head_ref [] in
      if not (starts_with (text "devin/") head_ref)
      then (ok (skipped_not_devin_branch head_ref), s)
      else with_tracked
          (record {
            repo = repo;
            run = run;
            pr_number = pr_number;
            pr_url = pr_url;
            head_ref = head_ref;
          })
          (find_by_pr pr_url s.sessions) s

  -- Guard 2: the first pull request of the payload, with a number that is not 0.
  unfoldable pub with_refs : List (Option ℕ) → WorkflowRun → State → Except Outcome × State
  unfolding with_pr
  with_refs [] run s = (ok (skipped_no_pr_in_payload run.id), s)
  with_refs (none ∷ refs) run s = (ok (skipped_no_pr_number run.id), s)
  with_refs (some n ∷ refs) run s =
      let repo = or_else run.repository_full_name cfg.fork_repo in
      if n == 0
      then (ok (skipped_no_pr_number run.id), s)
      else with_pr (env.get_pr s.trace repo n) repo run n (sent (Call.get_pr repo n) s)

  unfoldable pub handle_ci_failure : WorkflowRun → State → Except Outcome × State
  unfolding with_refs text
  handle_ci_failure run s =
      if not (holds_text run.event (text "pull_request"))
      then (ok (skipped_not_pr_triggered run.event), s)
      else with_refs run.pull_request_numbers run s
