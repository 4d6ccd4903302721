-- ===== src/Races.antt =====
-- handle_security_issue and handle_ci_failure in several threads of FastAPI's pool at once: a worker
-- stops between two statements on the database, and behind an answer that another statement follows.
-- _escalate_to_human is one step of its worker.
pub mod Moves
pub mod Walk
pub mod Charge
pub mod Valid
pub mod Numbers
pub mod Paid
pub mod Alone
pub mod Fixing
pub mod Overshoot
pub mod Attempts
pub mod Escalations
use cognition_devin_automati.Prelude.{
  ℕ, zero, suc, Option, none, some, List, [], ◌∷◌, leb, if◌then◌else◌, not, or_else, ◌==◌, ◌+◌,
}
use cognition_devin_automati.Prelude.Texts.{Text, text, holds_text, starts_with}
use cognition_devin_automati.Settings.{Settings}
use cognition_devin_automati.Prompts.{CveContext, missing_required_fields}
use cognition_devin_automati.Sessions.{
  Table, try_reserve, count_active, count_started_today, SessionRow, max_fix_attempt_for_parent,
  find_by_pr,
}
use cognition_devin_automati.Outcomes.{
  Outcome, queued_concurrency_cap, skipped_daily_cap, skipped_already_reserved,
  skipped_no_pr_in_payload, skipped_no_pr_number, skipped_no_tracked_session_for_pr,
  error_pr_fetch_failed, error_commits_fetch_failed, skipped_pr_not_found, skipped_not_pr_triggered,
  skipped_parent_still_active, skipped_human_commits_on_branch, skipped_not_devin_branch,
  skipped_concurrency_cap,
}
use cognition_devin_automati.World.{
  Except, ok, raised, Issue, SessionCreated, CreateRequest, Call, Env, State, WorkflowRun, Commit,
  PullRequest,
}
use cognition_devin_automati.Handlers.{
  make_ci_fix_work_key, get_client, creation_failed, creation_result,
}
use cognition_devin_automati.Handlers.Security.{
  security_key, security_reservation, parse_issue_to_cve_context, cve_request, with_context,
  create_or_refuse,
}
use cognition_devin_automati.Handlers.CiFix.{
  Fix, escalated, fix_reservation, fix_request, logs_or_note,
}
use cognition_devin_automati.Github.{has_non_devin_commits}
use cognition_devin_automati.Status.{is_terminal}
use cognition_devin_automati.Handlers.Escalation.{escalate_to_human, sent}

-- Where a worker stands. In handle_security_issue: before each of the two counts, before the INSERT,
-- and behind it with the row's id.
-- In handle_ci_failure: at its start, behind the answer about the pull request, before the SELECT of
-- the chain's attempts with the parent that was read, behind the list of commits, before the INSERT,
-- behind it, and behind the logs. In both: behind the answer of Devin, and at the end.
pub data Worker : Type 0 where
  entered counted cleared : Issue → Worker
  holds_row : Issue → ℕ → Worker
  received : WorkflowRun → Worker
  pr_fetched : Except (Option PullRequest) → Text → WorkflowRun → ℕ → Worker
  found_parent : Fix → SessionRow → Worker
  commits_fetched : Except (List Commit) → Fix → SessionRow → ℕ → Worker
  cleared_fix : Fix → SessionRow → ℕ → Worker
  holds_fix : Fix → SessionRow → ℕ → ℕ → Worker
  logs_fetched : Except Text → Fix → SessionRow → ℕ → ℕ → Worker
  answered : CreateRequest → ℕ → Except SessionCreated → Worker
  finished : Except Outcome → Worker

abbrev pub stop : Outcome × State → Worker × State
stop (o, s) = (finished (ok o), s)

abbrev pub stop_or_raise : Except Outcome × State → Worker × State
stop_or_raise (o, s) = (finished o, s)

module _ (cfg : Settings) (env : Env) where
  unfoldable pub inserted : Issue → Option ℕ × Table → State → Worker × State
  inserted issue (none, t) s = stop (skipped_already_reserved (security_key cfg issue), s)
  inserted issue (some pk, t) s = (holds_row issue pk, record s { sessions = t })

  unfoldable pub ask_devin : Except (Unit {0}) → CreateRequest → ℕ → State → Worker × State
  ask_devin (raised e) req pk s = stop (creation_failed cfg env e pk s)
  ask_devin (ok _) req pk s = (
    answered req pk (env.create_session s.trace req),
    record s { trace = Call.create_session req ∷ s.trace },
  )

  unfoldable pub prepare : CveContext → List Text → ℕ → State → Worker × State
  unfolding ask_devin
  prepare ctx [] pk s = ask_devin (get_client cfg) (cve_request cfg env ctx) pk s
  prepare ctx (m ∷ ms) pk s = stop (create_or_refuse cfg env ctx (m ∷ ms) pk s)

  unfoldable pub read_issue : Issue → Option CveContext → ℕ → State → Worker × State
  unfolding prepare
  read_issue issue none pk s = stop (with_context cfg env issue none pk s)
  read_issue issue (some ctx) pk s = prepare ctx (missing_required_fields ctx) pk s

  -- Guard 2 of handle_ci_failure, up to the request for the pull request.
  unfoldable pub fetch_pr : List (Option ℕ) → WorkflowRun → State → Worker × State
  fetch_pr [] run s = stop (skipped_no_pr_in_payload run.id, s)
  fetch_pr (none ∷ refs) run s = stop (skipped_no_pr_number run.id, s)
  fetch_pr (some n ∷ refs) run s =
      let repo = or_else run.repository_full_name cfg.fork_repo in
      if n == 0
      then stop (skipped_no_pr_number run.id, s)
      else (pr_fetched (env.get_pr s.trace repo n) repo run n, sent (Call.get_pr repo n) s)

  -- Guards 4 and 5, on the row that find_by_pr read.
  unfoldable pub check_parent : Fix → Option SessionRow → State → Worker × State
  check_parent fix none s = stop (skipped_no_tracked_session_for_pr fix.pr_number, s)
  check_parent fix (some parent) s =
      if not (is_terminal parent.status)
      then stop (skipped_parent_still_active parent.status, s)
      else (found_parent fix parent, s)

  unfoldable pub find_parent :
      Except (Option PullRequest) → Text → WorkflowRun → ℕ → State → Worker × State
  unfolding check_parent text
  find_parent (raised e) repo run pr_number s = stop (error_pr_fetch_failed e.kind, s)
  find_parent (ok none) repo run pr_number s = stop (skipped_pr_not_found pr_number, s)
  find_parent (ok (some pr)) repo run pr_number s =
      let pr_url = or_else pr.html_url [] in
      let head_ref = or_else pr.head_ref [] in
      if not (starts_with (text "devin/") head_ref)
      then stop (skipped_not_devin_branch head_ref, s)
      else check_parent
          (record {
            repo = repo;
            run = run;
            pr_number = pr_number;
            pr_url = pr_url;
            head_ref = head_ref;
          })
          (find_by_pr pr_url s.sessions) s

  -- The loop cap, with the whole escalation in one step, or the request for the commits.
  unfoldable pub fetch_commits : Fix → SessionRow → State → Worker × State
  fetch_commits fix parent s =
      let current_max = max_fix_attempt_for_parent parent.devin_session_id s.sessions in
      if leb cfg.max_fix_attempts current_max
      then stop_or_raise (
          escalated cfg env current_max
            (escalate_to_human cfg env parent fix.repo fix.pr_number current_max s))
      else (
        commits_fetched (env.list_pr_commits s.trace fix.repo fix.pr_number) fix parent
            (current_max + 1),
        sent (Call.list_pr_commits fix.repo fix.pr_number) s,
      )

  unfoldable pub check_commits :
      Except (List Commit) → Fix → SessionRow → ℕ → State → Worker × State
  check_commits (raised e) fix parent attempt s = stop (error_commits_fetch_failed e.kind, s)
  check_commits (ok commits) fix parent attempt s =
      if has_non_devin_commits cfg.devin_bot_logins commits
      then stop (skipped_human_commits_on_branch fix.pr_number, s)
      else if leb cfg.max_concurrent_sessions (count_active s.sessions)
      then stop (skipped_concurrency_cap cfg.max_concurrent_sessions, s)
      else (cleared_fix fix parent attempt, s)

  unfoldable pub inserted_fix : Option ℕ × Table → Fix → SessionRow → ℕ → State → Worker × State
  inserted_fix (none, t) fix parent attempt s =
      stop (skipped_already_reserved (make_ci_fix_work_key fix.repo fix.run.id), s)
  inserted_fix (some pk, t) fix parent attempt s =
      (holds_fix fix parent attempt pk, record s { sessions = t })

  -- A worker's code up to the next statement of its own.
  unfoldable pub advance : Worker → State → Worker × State
  unfolding inserted read_issue fetch_pr find_parent fetch_commits check_commits inserted_fix text
  advance (entered issue) s =
      if leb cfg.max_concurrent_sessions (count_active s.sessions)
      then stop (queued_concurrency_cap (security_key cfg issue), s)
      else (counted issue, s)
  advance (counted issue) s =
      if leb cfg.max_sessions_per_day (count_started_today (env.now s) s.sessions)
      then stop (skipped_daily_cap cfg.max_sessions_per_day, s)
      else (cleared issue, s)
  advance (cleared issue) s =
      inserted issue (try_reserve (security_reservation cfg issue) (env.now s) s.sessions) s
  advance (holds_row issue pk) s = read_issue issue (parse_issue_to_cve_context issue) pk s
  advance (received run) s =
      if not (holds_text run.event (text "pull_request"))
      then stop (skipped_not_pr_triggered run.event, s)
      else fetch_pr run.pull_request_numbers run s
  advance (pr_fetched answer repo run pr_number) s = find_parent answer repo run pr_number s
  advance (found_parent fix parent) s = fetch_commits fix parent s
  advance (commits_fetched answer fix parent attempt) s = check_commits answer fix parent attempt s
  advance (cleared_fix fix parent attempt) s =
      inserted_fix (try_reserve (fix_reservation fix parent attempt) (env.now s) s.sessions) fix
        parent attempt s
  advance (holds_fix fix parent attempt pk) s = (
    logs_fetched (env.get_logs s.trace fix.repo fix.run.id) fix parent attempt pk,
    sent (Call.get_logs fix.repo fix.run.id) s,
  )
  advance (logs_fetched answer fix parent attempt pk) s =
      ask_devin (get_client cfg)
        (fix_request cfg env fix parent attempt (logs_or_note cfg env answer)) pk s
  advance (answered req pk answer) s = stop (creation_result cfg env answer req pk s)
  advance (finished o) s = (finished o, s)
