-- ===== src/Github/Fetch.antt =====
-- get_pr, list_pr_commits and get_workflow_run_failing_job_logs of app/github_client.py, over the
-- answers of GitHub: a status code with a body, or an exception of the HTTP client.
use cognition_devin_automati.Prelude.Texts.{Text, text, nonempty, holds_text, join_lines}
use cognition_devin_automati.Settings.{Settings}
use cognition_devin_automati.Prelude.{
  List, ℕ, Option, if◌then◌else◌, ◌∷◌, ◌==◌, none, [], some, ◌-◌,
}
use cognition_devin_automati.World.{Exn, Except, PullRequest, Commit, raised, ok}
use cognition_devin_automati.Prelude.Lists.{drop, length}

-- A job of a workflow run.
pub record RunJob : Type 0 where
  pub id : ℕ
  pub conclusion : Option Text

-- `_http()`: the RuntimeError where no token is configured.
unfoldable pub http : Settings → Option Exn
unfolding text
http cfg =
    if nonempty cfg.gh_token
    then none
    else some (record { kind = text "RuntimeError"; message = text "GH_TOKEN not configured" })

-- `lines[-n:]`, which for 0 is the whole list
unfoldable pub last_lines : ℕ → List Text → List Text
last_lines n lines = if n == 0 then lines else drop (length lines - n) lines

unfoldable pub no_job_note : Text
unfolding text
no_job_note = text "(no failing job found in this workflow run)"

unfoldable pub expired_note : Text
unfolding text
expired_note = text "(logs expired and are no longer available)"

unfoldable pub failing_job : List RunJob → Option ℕ
unfolding text
failing_job [] = none
failing_job (j ∷ js) =
    if holds_text j.conclusion (text "failure") then some j.id else failing_job js

-- `raise_for_status` and `splitlines` are httpx's and Python's.
module _ (cfg : Settings) (raise_for_status : ℕ → Option Exn) (splitlines : Text → List Text) where
  abbrev pub checked : {A : Type 0} → Option Exn → A → Except A
  checked (some e) x = raised e
  checked none x = ok x

  abbrev pub asked : {A : Type 0} → Option Exn → Except A → Except A
  asked (some e) answer = raised e
  asked none answer = answer

  unfoldable pub read_pr : Except (ℕ × PullRequest) → Except (Option PullRequest)
  read_pr (raised e) = raised e
  read_pr (ok (code, pr)) =
      if code == 404 then ok none else checked (raise_for_status code) (some pr)

  unfoldable pub get_pr : Except (ℕ × PullRequest) → Except (Option PullRequest)
  unfolding read_pr
  get_pr answer = read_pr (asked (http cfg) answer)

  unfoldable pub read_commits : Except (ℕ × List Commit) → Except (List Commit)
  read_commits (raised e) = raised e
  read_commits (ok (code, commits)) = checked (raise_for_status code) commits

  unfoldable pub list_pr_commits : Except (ℕ × List Commit) → Except (List Commit)
  unfolding read_commits
  list_pr_commits answer = read_commits (asked (http cfg) answer)

  -- The body is decoded with errors="replace", which never raises.
  unfoldable pub read_logs : Except (ℕ × Text) → ℕ → Except Text
  read_logs (raised e) tail_lines = raised e
  read_logs (ok (code, body)) tail_lines =
      if code == 410
      then ok expired_note
      else checked (raise_for_status code) (join_lines (last_lines tail_lines (splitlines body)))

  unfoldable pub logs_of_job : Option ℕ → (ℕ → Except (ℕ × Text)) → ℕ → Except Text
  unfolding read_logs
  logs_of_job none logs tail_lines = ok no_job_note
  logs_of_job (some id) logs tail_lines = read_logs (logs id) tail_lines

  unfoldable pub logs_of_jobs : Except (List RunJob) → (ℕ → Except (ℕ × Text)) → ℕ → Except Text
  unfolding logs_of_job
  logs_of_jobs (raised e) logs tail_lines = raised e
  logs_of_jobs (ok jobs) logs tail_lines = logs_of_job (failing_job jobs) logs tail_lines

  unfoldable pub read_jobs : Except (ℕ × List RunJob) → Except (List RunJob)
  read_jobs (raised e) = raised e
  read_jobs (ok (code, jobs)) = checked (raise_for_status code) jobs

  unfoldable pub get_workflow_run_failing_job_logs :
      Except (ℕ × List RunJob) → (ℕ → Except (ℕ × Text)) → ℕ → Except Text
  unfolding logs_of_jobs read_jobs
  get_workflow_run_failing_job_logs jobs logs tail_lines =
      logs_of_jobs (read_jobs (asked (http cfg) jobs)) logs tail_lines
