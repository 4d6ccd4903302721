-- ===== src/Examples/Fetches.antt =====
-- The answers of GitHub's HTTP API.
use cognition_devin_automati.Github.Fetch.{
  RunJob, get_workflow_run_failing_job_logs, logs_of_jobs, logs_of_job, read_jobs, read_logs,
  failing_job, http, last_lines,
}
use cognition_devin_automati.Github.Tails.{Logs, get_workflow_run_failing_job_logs-Logs}
use cognition_devin_automati.Examples.Data.{cfg}
use cognition_devin_automati.Prelude.Texts.{nonempty, Text, text, text_eq, join_lines}
use cognition_devin_automati.Prelude.{List, ℕ, Option, ◌∷◌, some, ◌≡◌, [], true, none, arith, refl}
use cognition_devin_automati.World.{ok, Except, Exn}

abbrev no_error : ℕ → Option Exn
no_error code = none

-- A body of one line.
abbrev one_line : Text → List Text
one_line body = body ∷ []

abbrev jobs : List RunJob
jobs =
    record { id = 4; conclusion = some (text "success") }
    ∷ record { id = 5; conclusion = some (text "failure") }
    ∷ []

abbrev logs : ℕ → Except (ℕ × Text)
logs id = ok (200, text "broken")

fetched :
    get_workflow_run_failing_job_logs cfg no_error one_line (ok (200, jobs)) logs 200
    ≡ ok (text "broken")
unfolding get_workflow_run_failing_job_logs logs_of_jobs logs_of_job read_jobs read_logs failing_job
    http text text_eq last_lines join_lines
fetched = refl

get_workflow_run_failing_job_logs-Logs_example :
    (nonempty cfg.gh_token ≡ true)
    × ((no_error 200 ≡ none) × Logs cfg no_error one_line jobs logs 200 (text "broken"))
get_workflow_run_failing_job_logs-Logs_example =
    get_workflow_run_failing_job_logs-Logs cfg no_error one_line 200 jobs logs 200 (text "broken")
      (omega arith) fetched
