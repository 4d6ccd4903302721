-- ===== src/Examples/Data.antt =====
-- A configuration, an outside world that answers each request alike, an issue and a CI run.
use cognition_devin_automati.Prelude.Texts.{text, text_eq}
use cognition_devin_automati.World.{
  Payload, SessionDetails, PullRequest, Env, Issue, WorkflowRun, State, ok,
}
use cognition_devin_automati.Prelude.Lists.{any_by}
use cognition_devin_automati.Sessions.{SessionRow, has_key, cve_issue, ci_failure}
use cognition_devin_automati.Prelude.{List, some, none, [], ◌∷◌, ◌++◌, arith, refl}
use cognition_devin_automati.Webhook.{Crypto, object}
use cognition_devin_automati.Settings.{Settings}
use cognition_devin_automati.Status.{completed, needs_attention, running}
use cognition_devin_automati.Sessions.Unique.{IsValid}

abbrev pub cfg : Settings
cfg = record {
  devin_api_key = text "cog_k";
  devin_org_id = text "org-1";
  devin_mode = text "normal";
  devin_max_acu_per_session = 10;
  gh_webhook_secret = text "s";
  gh_token = text "t";
  fork_url = text "https://github.com/o/r";
  fork_repo = text "o/r";
  max_concurrent_sessions = 2;
  max_sessions_per_day = 5;
  session_timeout_seconds = 3600;
  max_fix_attempts = 3;
  hours_saved_per_completed_session = 4;
  engineer_hourly_rate_usd = 100;
  admin_token = text "a";
  devin_bot_logins = text "bot" ∷ [];
}

-- No room for a session.
abbrev pub cfg_full : Settings
cfg_full = record cfg { max_concurrent_sessions = 0 }

abbrev pub running_remote : SessionDetails
running_remote = record {
  devin_session_id = text "d1";
  status = running;
  raw_status = text "running";
  status_detail = none;
  acus_consumed = 2;
  pull_requests = record { pr_url = text "p"; pr_state = some (text "merged") } ∷ [];
  parent_session_id = none;
  child_session_ids = [];
  created_at = none;
  updated_at = some 2_000;
  title = none;
  structured_output = none;
}

abbrev pub exited_remote : SessionDetails
exited_remote = record running_remote {
  status = completed;
  raw_status = text "exit";
  pull_requests = record { pr_url = text "p"; pr_state = some (text "open") } ∷ [];
}

abbrev pub pull : PullRequest
pull = record { html_url = some (text "p"); head_ref = some (text "devin/fix") }

abbrev pub env : Env
env = record {
  now = λ s. 2_000_000_000;
  create_session = λ trace req. ok (record { devin_session_id = text "d2"; devin_url = text "u" });
  get_session = λ trace id. ok running_remote;
  get_pr = λ trace repo n. ok (some pull);
  list_pr_commits = λ trace repo n.
      ok (record { committer_login = some (text "bot"); author_login = some (text "bot") } ∷ []);
  get_logs = λ trace repo run. ok (text "log");
}

abbrev pub issue : Issue
issue = record {
  html_url = some (text "i");
  number = some 7;
  body = some (
      text
        "- **CVE:** C-1\n- **Package:** flask\n- **Installed:** 1\n- **Fix version:** 2\n- **Severity:** LOW");
  labels = some (text "devin-remediate") ∷ some (text "devin-security") ∷ [];
  repository_full_name = some (text "o/r");
  repository_url = none;
}

abbrev pub crypto : Crypto
crypto = record {
  hexdigest = λ secret body. secret ++ body;
  compare_digest = text_eq;
  parse_json = λ body. object payload;
}
  where
    payload : Payload
    payload = record { action = some (text "labeled"); issue = some issue; workflow_run = none }

abbrev pub ci_run : WorkflowRun
ci_run = record {
  id = some 9;
  name = some (text "ci");
  event = some (text "pull_request");
  conclusion = some (text "failure");
  repository_full_name = some (text "o/r");
  pull_request_numbers = some 3 ∷ [];
}

abbrev pub running_row : SessionRow
running_row = record {
  id = 1;
  work_key = text "k";
  devin_session_id = some (text "d1");
  devin_url = some (text "u");
  trigger_type = cve_issue;
  trigger_ref = text "i";
  issue_number = some 7;
  label = none;
  parent_devin_session_id = none;
  prompt_snapshot = none;
  status = running;
  raw_status = some (text "running");
  pr_url = some (text "p");
  pr_urls_json = none;
  acus_consumed = 2;
  started_at = 1_000_000;
  completed_at = none;
  last_polled_at = none;
  error_message = none;
  fix_attempt_number = 0;
  structured_output_json = none;
}

abbrev pub completed_row : SessionRow
completed_row = record running_row { status = completed }

abbrev pub flagged_row : SessionRow
flagged_row = record running_row { status = needs_attention }

-- A row that fixes the PR of the row above.
abbrev pub fix_row : SessionRow
fix_row = record running_row {
  id = 2;
  work_key = text "f";
  devin_session_id = some (text "d3");
  trigger_type = ci_failure;
  parent_devin_session_id = some (text "d1");
  fix_attempt_number = 3;
}

abbrev pub state_of : List SessionRow → State
state_of rows = record { sessions = record { rows = rows; next_id = 3 }; events = []; trace = [] }

-- Two rows: a running session and a fix of it.
abbrev pub two_rows : State
two_rows = state_of (running_row ∷ fix_row ∷ [])

abbrev pub one_row : State
one_row = state_of (completed_row ∷ [])

pub two_rows-IsValid : IsValid two_rows.sessions
unfolding any_by has_key text text_eq
two_rows-IsValid = record {
  keys_unique = (refl, (refl, tt));
  ids_unique = (refl, (refl, tt));
  ids_below = (omega arith, (omega arith, tt));
}

pub one_row-IsValid : IsValid one_row.sessions
unfolding any_by
one_row-IsValid = record {
  keys_unique = (refl, tt);
  ids_unique = (refl, tt);
  ids_below = (omega arith, tt);
}
