-- ===== src/Github/Tails.antt =====
-- What get_workflow_run_failing_job_logs and get_pr can return.
use cognition_devin_automati.Github.Fetch.{
  get_pr, read_pr, last_lines, RunJob, failing_job, no_job_note, expired_note, read_logs,
  logs_of_job, get_workflow_run_failing_job_logs, logs_of_jobs, checked, read_jobs, http,
}
use cognition_devin_automati.Settings.{Settings}
use cognition_devin_automati.Prelude.{
  ℕ, List, Option, ◌≡◌, ◌<◌, ◌++◌, ◌≤◌, Bool-cases, [], ◌-◌, ◌==◌, suc, arith, inl, none, ◌∷◌, ap,
  zero, some, refl, ==_iff, inr, true, ◌↔◌, ==_of_eq, ◌∙◌, sym,
}
use cognition_devin_automati.World.{Exn, Except, ok, raised, PullRequest}
use cognition_devin_automati.Prelude.Texts.{Text, nonempty, join_lines}
use cognition_devin_automati.Prelude.Lists.{length, drop}

drop_suffix : (n : ℕ) (xs : List Text) → (front : List Text) × (xs ≡ front ++ drop n xs)
drop_suffix zero xs = ([], refl)
drop_suffix (suc n) [] = ([], refl)
drop_suffix (suc n) (x ∷ xs) =
    let rest = drop_suffix n xs in (x ∷ rest.0, ap (λ (l : List Text). x ∷ l) rest.1)

length-drop : (n : ℕ) (xs : List Text) → length (drop n xs) ≡ length xs - n
length-drop zero xs = omega arith
length-drop (suc n) [] = omega arith
length-drop (suc n) (x ∷ xs) = omega (arith, length-drop n xs)

-- The lines are at most so many, and the last ones of a list.
abbrev pub IsTail : ℕ → List Text → List Text → Type 0
IsTail n lines tail = (length tail ≤ n) × ((front : List Text) × (lines ≡ front ++ tail))

last_lines-IsTail : (n : ℕ) (lines : List Text) → 0 < n → IsTail n lines (last_lines n lines)
unfolding last_lines
last_lines-IsTail n lines h = elim (Bool-cases (n == 0)) [
  | inl zero_lines ↦ absurd (omega (arith, (==_iff n 0).0 zero_lines))
  | inr some_lines ↦
      rw some_lines
        (omega (arith, length-drop (length lines - n) lines), drop_suffix (length lines - n) lines)
]

module _ (cfg : Settings) (raise_for_status : ℕ → Option Exn) (splitlines : Text → List Text) where
  -- One of the two notes, or the last lines of the log of the run's first failed job.
  pub data Logs (jobs : List RunJob) (logs : ℕ → Except (ℕ × Text)) (n : ℕ) (t : Text)
      : Type 0 where
    no_failing_job : failing_job jobs ≡ none → t ≡ no_job_note → Logs jobs logs n t
    expired :
        (id : ℕ) (body : Text)
        → failing_job jobs ≡ some id
        → logs id ≡ ok (410, body)
        → t ≡ expired_note
        → Logs jobs logs n t
    tail :
        (id code : ℕ) (body : Text) (lines : List Text)
        → failing_job jobs ≡ some id
        → logs id ≡ ok (code, body)
        → ¬ (code ≡ 410)
        → raise_for_status code ≡ none
        → IsTail n (splitlines body) lines
        → t ≡ join_lines lines
        → Logs jobs logs n t

  module _ (jobs : List RunJob) (logs : ℕ → Except (ℕ × Text)) (n : ℕ) (t : Text)
      (enough : 0 < n) where
    read_logs-Logs :
        (id : ℕ) (answer : Except (ℕ × Text))
        → failing_job jobs ≡ some id
        → logs id ≡ answer
        → read_logs cfg raise_for_status splitlines answer n ≡ ok t
        → Logs jobs logs n t
    unfolding read_logs
    read_logs-Logs id (raised e) failed answered h = cc
    read_logs-Logs id (ok (code, body)) failed answered h = elim (Bool-cases (code == 410)) [
      | inl gone ↦
          expired id body failed
            (answered ∙ ap (λ (c : ℕ). ok (c, body)) ((==_iff code 410).0 gone)) (note gone)
      | inr there ↦
          checked_log (λ e. cc (sym there ∙ ==_of_eq code 410 e)) (raise_for_status code) refl
            (rw there at h)
    ]
      where
        note : (code == 410) ≡ true → t ≡ expired_note
        note gone = cc (rw gone at h)

        checked_log :
            ¬ (code ≡ 410)
            → (verdict : Option Exn) → raise_for_status code ≡ verdict
            → checked cfg raise_for_status splitlines verdict
                (join_lines (last_lines n (splitlines body)))
              ≡ ok t
            → Logs jobs logs n t
        checked_log there (some e) raises k = cc
        checked_log there none fine k =
            tail id code body _ failed answered there fine
              (last_lines-IsTail n (splitlines body) enough) (cc)

    logs_of_job-Logs :
        (found : Option ℕ)
        → failing_job jobs ≡ found
        → logs_of_job cfg raise_for_status splitlines found logs n ≡ ok t
        → Logs jobs logs n t
    unfolding logs_of_job
    logs_of_job-Logs none none_failed h = no_failing_job none_failed (cc)
    logs_of_job-Logs (some id) failed h = read_logs-Logs id (logs id) failed refl h

  -- Asked for at least one line, what the log fetch returns is one of three things: its first note,
  -- for a run with no failed job; its second note, where GitHub answers 410 for the log of the first
  -- failed job; or else at most so many lines, which are the last ones of that log, where the answer
  -- was not 410. No status code was an error but this 410.
  pub get_workflow_run_failing_job_logs-Logs :
      (code : ℕ) (jobs : List RunJob) (logs : ℕ → Except (ℕ × Text)) (n : ℕ) (t : Text)
      → 0 < n
      → get_workflow_run_failing_job_logs cfg raise_for_status splitlines (ok (code, jobs)) logs n
        ≡ ok t
      → (nonempty cfg.gh_token ≡ true) × ((raise_for_status code ≡ none) × Logs jobs logs n t)
  unfolding get_workflow_run_failing_job_logs logs_of_jobs read_jobs http
  get_workflow_run_failing_job_logs-Logs code jobs logs n t enough h =
      elim (Bool-cases (nonempty cfg.gh_token)) [
        | inr missing ↦ cc (rw missing at h)
        | inl given ↦ (given, listed (raise_for_status code) refl (rw given at h))
      ]
    where
      listed :
          (verdict : Option Exn)
          → raise_for_status code ≡ verdict
          → logs_of_jobs cfg raise_for_status splitlines
              (checked cfg raise_for_status splitlines verdict jobs)
              logs
              n
            ≡ ok t
          → (raise_for_status code ≡ none) × Logs jobs logs n t
      listed (some e) raises k = cc
      listed none fine k = (fine, logs_of_job-Logs jobs logs n t enough _ refl k)

  -- get_pr returns None exactly where a token is configured and GitHub answers 404.
  get_pr-none_iff :
      (code : ℕ) (pr : PullRequest)
      → (get_pr cfg raise_for_status splitlines (ok (code, pr)) ≡ ok none)
        ↔ ((nonempty cfg.gh_token ≡ true) × (code ≡ 404))
  unfolding get_pr read_pr http
  get_pr-none_iff code pr = (found, missing)
    where
      not_none :
          (verdict : Option Exn)
          → checked cfg raise_for_status splitlines verdict (some pr) ≡ ok none
          → ⊥
      not_none (some e) k = cc
      not_none none k = cc

      found :
          get_pr cfg raise_for_status splitlines (ok (code, pr)) ≡ ok none
          → (nonempty cfg.gh_token ≡ true) × (code ≡ 404)
      found h = elim (Bool-cases (nonempty cfg.gh_token)) [
        | inr absent ↦ cc (rw absent at h)
        | inl given ↦
            let h' = rw given at h in
            elim (Bool-cases (code == 404)) [
              | inl e ↦ (given, (==_iff code 404).0 e)
              | inr other ↦ absurd (not_none (raise_for_status code) (rw other at h'))
            ]
      ]

      missing :
          (nonempty cfg.gh_token ≡ true) × (code ≡ 404)
          → get_pr cfg raise_for_status splitlines (ok (code, pr)) ≡ ok none
      missing (given, e) = rw given (rw (==_of_eq code 404 e) refl)
