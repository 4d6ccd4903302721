-- ===== src/Handlers/Security.antt =====
-- handle_security_issue of app/handlers.py.
pub mod Decisions
pub mod Rails
use cognition_devin_automati.Prelude.{
  ℕ, true, Option, none, some, List, [], ◌∷◌, ◌++◌, leb, if◌then◌else◌, or_else,
}
use cognition_devin_automati.Prelude.Texts.{Text, text, lower, join_comma}
use cognition_devin_automati.Settings.{Settings, security_label}
use cognition_devin_automati.Prompts.{
  CveContext, cve_prompt, missing_required_fields, context_of_fields,
}
use cognition_devin_automati.Sessions.{
  Table, cve_issue, Reservation, try_reserve, mark_failed, count_active, count_started_today,
}
use cognition_devin_automati.Outcomes.{
  Outcome, queued_concurrency_cap, skipped_daily_cap, skipped_already_reserved,
  skipped_not_a_cve_issue, skipped_missing_fields,
}
use cognition_devin_automati.World.{Issue, CreateRequest, Env, State}
use cognition_devin_automati.Handlers.{make_work_key, repo_full_name, open_session}
use cognition_devin_automati.Prompts.Fields.{finditer}

unfoldable pub issue_url : Issue → Text
issue_url issue = or_else issue.html_url []

unfoldable pub issue_number : Issue → ℕ
issue_number issue = or_else issue.number 0

unfoldable pub security_key : Settings → Issue → Text
security_key cfg issue =
    make_work_key (repo_full_name cfg issue) (issue_number issue) security_label

unfoldable pub security_reservation : Settings → Issue → Reservation
security_reservation cfg issue = record {
  work_key = security_key cfg issue;
  trigger_type = cve_issue;
  trigger_ref = issue_url issue;
  issue_number = some (issue_number issue);
  label = some security_label;
  parent_devin_session_id = none;
  fix_attempt_number = 0;
}

-- prompts.parse_issue_to_cve_context
unfoldable pub parse_issue_to_cve_context : Issue → Option CveContext
parse_issue_to_cve_context issue =
    context_of_fields (finditer (or_else issue.body [])) (issue_url issue) (issue_number issue)

module _ (cfg : Settings) (env : Env) where
  unfoldable pub cve_request : CveContext → CreateRequest
  unfolding text
  cve_request ctx = record {
    prompt = cve_prompt ctx cfg.fork_url;
    repos = cfg.fork_repo ∷ [];
    title =
        text "CVE remediation: " ++ (ctx.cve_id ++ (text " (" ++ (ctx.package_name ++ text ")")));
    tags = text "cve" ∷ lower ctx.severity ∷ ctx.package_name ∷ [];
    max_acu_limit = cfg.devin_max_acu_per_session;
    devin_mode = cfg.devin_mode;
    parent_session_id = none;
    with_schema = true;
  }

  -- Steps 5 and 6, or the refusal of a malformed prompt.
  unfoldable pub create_or_refuse : CveContext → List Text → ℕ → State → Outcome × State
  unfolding text
  create_or_refuse ctx [] pk s = open_session cfg env (cve_request ctx) pk s
  create_or_refuse ctx (m ∷ ms) pk s = (
    skipped_missing_fields (m ∷ ms),
    record s {
      sessions =
          mark_failed pk (text "missing_fields:" ++ join_comma (m ∷ ms)) (env.now s) s.sessions;
    },
  )

  unfoldable pub with_context : Issue → Option CveContext → ℕ → State → Outcome × State
  unfolding text create_or_refuse
  with_context issue none pk s = (
    skipped_not_a_cve_issue (issue_number issue),
    record s { sessions = mark_failed pk (text "not_a_cve_issue") (env.now s) s.sessions },
  )
  with_context issue (some ctx) pk s = create_or_refuse ctx (missing_required_fields ctx) pk s

  unfoldable pub claimed_issue : Option ℕ × Table → Issue → State → Outcome × State
  unfolding with_context
  claimed_issue (none, t) issue s = (skipped_already_reserved (security_key cfg issue), s)
  claimed_issue (some pk, t) issue s =
      with_context issue (parse_issue_to_cve_context issue) pk (record s { sessions = t })

  unfoldable pub reserve_and_remediate : Issue → State → Outcome × State
  unfolding claimed_issue
  reserve_and_remediate issue s =
      claimed_issue (try_reserve (security_reservation cfg issue) (env.now s) s.sessions) issue s

  unfoldable pub handle_security_issue : Issue → State → Outcome × State
  unfolding reserve_and_remediate
  handle_security_issue issue s =
      if leb cfg.max_concurrent_sessions (count_active s.sessions)
      then (queued_concurrency_cap (security_key cfg issue), s)
      else if leb cfg.max_sessions_per_day (count_started_today (env.now s) s.sessions)
      then (skipped_daily_cap cfg.max_sessions_per_day, s)
      else reserve_and_remediate issue s
