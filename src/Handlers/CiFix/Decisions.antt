-- ===== src/Handlers/CiFix/Decisions.antt =====
-- The decision table of handle_ci_failure.
use cognition_devin_automati.Prelude.{
  ℕ, ◌≡◌, ◌⊎◌, List, ◌++◌, true, false, ◌∷◌, some, Option, ◌<◌, [], ◌+◌, ◌==◌, or_else, none, ◌≤◌,
}
use cognition_devin_automati.Settings.{Settings}
use cognition_devin_automati.World.{
  Env, WorkflowRun, State, PullRequest, Except, Call, CreateRequest, ok, Commit, Exn, raised,
  SessionCreated,
}
use cognition_devin_automati.Prelude.Texts.{Text, holds_text, text, starts_with}
use cognition_devin_automati.Sessions.{
  SessionRow, max_fix_attempt_for_parent, find_by_pr, count_active,
}
use cognition_devin_automati.Handlers.CiFix.Guards.{run_repo, fix_of, pr_url_of}
use cognition_devin_automati.Outcomes.{
  skipped_concurrency_cap, Outcome, skipped_not_pr_triggered, skipped_no_pr_in_payload,
  skipped_no_pr_number, error_pr_fetch_failed, skipped_pr_not_found, skipped_not_devin_branch,
  skipped_no_tracked_session_for_pr, skipped_parent_still_active, error_commits_fetch_failed,
  skipped_human_commits_on_branch, skipped_concurrency_cap, skipped_already_reserved,
  error_devin_create_failed, created_session,
}
use cognition_devin_automati.Handlers.{make_ci_fix_work_key, get_client}
use cognition_devin_automati.Status.{failed, is_terminal, pending}
use cognition_devin_automati.Handlers.CiFix.{fix_request, logs_or_note, escalated}
use cognition_devin_automati.Sessions.Claims.{is_taken}
use cognition_devin_automati.Github.{has_non_devin_commits}
use cognition_devin_automati.Handlers.Escalation.{escalate_to_human}

-- Which guard decides, the result, the row that was added and the requests that were sent.
module _ (cfg : Settings) (env : Env) (run : WorkflowRun) (s : State) where
  -- The run is one of this pull request, whose branch is Devin's and whose row is the parent's.
  pub record Found (n : ℕ) (pr : PullRequest) (parent : SessionRow) : Type 0 where
    pub fetched : env.get_pr s.trace (run_repo cfg run) n ≡ ok (some pr)
    pub devin_branch : starts_with (text "devin/") (or_else pr.head_ref []) ≡ true
    pub tracked : find_by_pr (pr_url_of pr) s.sessions ≡ some parent

  -- The run names this pull request.
  abbrev pub Names : ℕ → Type 0
  Names n =
      (holds_text run.event (text "pull_request") ≡ true)
      × (((rest : List (Option ℕ)) × (run.pull_request_numbers ≡ some n ∷ rest))
          × ((n == 0) ≡ false))

  abbrev pub highest : SessionRow → ℕ
  highest parent = max_fix_attempt_for_parent parent.devin_session_id s.sessions

  -- The trace behind the request for the pull request, for its commits, and for the logs.
  abbrev pub after_pr : ℕ → List Call
  after_pr n = Call.get_pr (run_repo cfg run) n ∷ s.trace

  abbrev pub after_commits : ℕ → List Call
  after_commits n = Call.list_pr_commits (run_repo cfg run) n ∷ after_pr n

  abbrev pub after_logs : ℕ → List Call
  after_logs n = Call.get_logs (run_repo cfg run) run.id ∷ after_commits n

  abbrev pub ci_key : Text
  ci_key = make_ci_fix_work_key (run_repo cfg run) run.id

  -- The parent is over, below the cap, the commits are Devin's and a slot is free.
  pub record Free (n : ℕ) (parent : SessionRow) : Type 0 where
    pub over : is_terminal parent.status ≡ true
    pub below : highest parent < cfg.max_fix_attempts
    pub commits : List Commit
    pub listed : env.list_pr_commits (after_pr n) (run_repo cfg run) n ≡ ok commits
    pub no_human : has_non_devin_commits cfg.devin_bot_logins commits ≡ false
    pub room : count_active s.sessions < cfg.max_concurrent_sessions

  -- The only change to the table is the row of the fix, which stands last.
  pub record AddedFix (parent : SessionRow) (t : State) (row : SessionRow) : Type 0 where
    pub rows : t.sessions.rows ≡ s.sessions.rows ++ row ∷ []
    pub work_key : row.work_key ≡ ci_key
    pub was_free : is_taken ci_key s.sessions ≡ false
    pub attempt : row.fix_attempt_number ≡ highest parent + 1
    pub of_parent : row.parent_devin_session_id ≡ parent.devin_session_id
    pub events : t.events ≡ s.events

  -- What the request for the session holds.
  abbrev pub request_of : ℕ → PullRequest → SessionRow → CreateRequest
  request_of n pr parent =
      fix_request cfg env (fix_of cfg run n pr) parent (highest parent + 1)
        (logs_or_note cfg env (env.get_logs (after_commits n) (run_repo cfg run) run.id))

  pub data FixHandled (o : Except Outcome) (t : State) : Type 0 where
    not_pr_triggered :
        holds_text run.event (text "pull_request") ≡ false
        → o ≡ ok (skipped_not_pr_triggered run.event)
        → t ≡ s
        → FixHandled o t
    no_pr :
        run.pull_request_numbers ≡ []
        → o ≡ ok (skipped_no_pr_in_payload run.id)
        → t ≡ s
        → FixHandled o t
    no_number :
        (first : Option ℕ) (rest : List (Option ℕ))
        → run.pull_request_numbers ≡ first ∷ rest
        → or_else first 0 ≡ 0
        → o ≡ ok (skipped_no_pr_number run.id)
        → t ≡ s
        → FixHandled o t
    not_fetched :
        (n : ℕ) (e : Exn)
        → Names n
        → env.get_pr s.trace (run_repo cfg run) n ≡ raised e
        → o ≡ ok (error_pr_fetch_failed e.kind)
        → t ≡ record s { trace = after_pr n }
        → FixHandled o t
    no_such_pr :
        (n : ℕ)
        → Names n
        → env.get_pr s.trace (run_repo cfg run) n ≡ ok none
        → o ≡ ok (skipped_pr_not_found n)
        → t ≡ record s { trace = after_pr n }
        → FixHandled o t
    other_branch :
        (n : ℕ) (pr : PullRequest)
        → Names n
        → env.get_pr s.trace (run_repo cfg run) n ≡ ok (some pr)
        → starts_with (text "devin/") (or_else pr.head_ref []) ≡ false
        → o ≡ ok (skipped_not_devin_branch (or_else pr.head_ref []))
        → t ≡ record s { trace = after_pr n }
        → FixHandled o t
    untracked :
        (n : ℕ) (pr : PullRequest)
        → Names n
        → env.get_pr s.trace (run_repo cfg run) n ≡ ok (some pr)
        → find_by_pr (pr_url_of pr) s.sessions ≡ none
        → o ≡ ok (skipped_no_tracked_session_for_pr n)
        → t ≡ record s { trace = after_pr n }
        → FixHandled o t
    parent_alive :
        (n : ℕ) (pr : PullRequest) (parent : SessionRow)
        → Names n
        → Found n pr parent
        → is_terminal parent.status ≡ false
        → o ≡ ok (skipped_parent_still_active parent.status)
        → t ≡ record s { trace = after_pr n }
        → FixHandled o t
    exhausted :
        (n : ℕ) (pr : PullRequest) (parent : SessionRow)
        → Names n
        → Found n pr parent
        → is_terminal parent.status ≡ true
        → cfg.max_fix_attempts ≤ highest parent
        → (o, t)
          ≡ escalated cfg env (highest parent) (
              escalate_to_human cfg env parent
                (run_repo cfg run)
                n
                (highest parent)
                (record s { trace = after_pr n }))
        → FixHandled o t
    commits_not_fetched :
        (n : ℕ) (pr : PullRequest) (parent : SessionRow) (e : Exn)
        → Names n
        → Found n pr parent
        → env.list_pr_commits (after_pr n) (run_repo cfg run) n ≡ raised e
        → o ≡ ok (error_commits_fetch_failed e.kind)
        → t ≡ record s { trace = after_commits n }
        → FixHandled o t
    human_pushed :
        (n : ℕ) (pr : PullRequest) (parent : SessionRow) (commits : List Commit)
        → Names n
        → Found n pr parent
        → env.list_pr_commits (after_pr n) (run_repo cfg run) n ≡ ok commits
        → has_non_devin_commits cfg.devin_bot_logins commits ≡ true
        → o ≡ ok (skipped_human_commits_on_branch n)
        → t ≡ record s { trace = after_commits n }
        → FixHandled o t
    full :
        (n : ℕ) (pr : PullRequest) (parent : SessionRow)
        → Names n
        → Found n pr parent
        → cfg.max_concurrent_sessions ≤ count_active s.sessions
        → o ≡ ok (skipped_concurrency_cap cfg.max_concurrent_sessions)
        → t ≡ record s { trace = after_commits n }
        → FixHandled o t
    known :
        (n : ℕ) (pr : PullRequest) (parent : SessionRow)
        → Names n
        → Found n pr parent
        → Free n parent
        → is_taken ci_key s.sessions ≡ true
        → o ≡ ok (skipped_already_reserved ci_key)
        → t ≡ record s { trace = after_commits n }
        → FixHandled o t
    not_created :
        (n : ℕ) (pr : PullRequest) (parent row : SessionRow) (e : Exn)
        → Names n
        → Found n pr parent
        → Free n parent
        → AddedFix parent t row
        → row.status ≡ failed
        → o ≡ ok (error_devin_create_failed e.kind)
        → ((get_client cfg ≡ raised e) × (t.trace ≡ after_logs n))
          ⊎ ((env.create_session (after_logs n) (request_of n pr parent) ≡ raised e)
              × (t.trace ≡ Call.create_session (request_of n pr parent) ∷ after_logs n))
        → FixHandled o t
    created :
        (n : ℕ) (pr : PullRequest) (parent row : SessionRow) (session : SessionCreated)
        → Names n
        → Found n pr parent
        → Free n parent
        → AddedFix parent t row
        → row.status ≡ pending
        → row.devin_session_id ≡ some session.devin_session_id
        → env.create_session (after_logs n) (request_of n pr parent) ≡ ok session
        → o ≡ ok (created_session session.devin_session_id)
        → t.trace ≡ Call.create_session (request_of n pr parent) ∷ after_logs n
        → FixHandled o t
