-- ===== src/Handlers/CiFix/Guards.antt =====
-- The guards of handle_ci_failure: when a fix session may be asked for.
use cognition_devin_automati.World.{
  State, PullRequest, WorkflowRun, Env, Except, ok, Commit, raised, Call,
}
use cognition_devin_automati.Settings.{Settings}
use cognition_devin_automati.Runs.Invariants.{creates}
use cognition_devin_automati.Prelude.Texts.{Text, holds_text, text, starts_with}
use cognition_devin_automati.Handlers.CiFix.{
  reserve_and_fix, escalated, with_commits, fix_reservation, Fix,
}
use cognition_devin_automati.Prelude.{
  ◌≡◌, ℕ, or_else, [], List, Bool-cases, ◌∷◌, false, true, inl, ◌⊎◌, refl, some, inr, ◌<◌, leb,
  leb_false→lt, Option, ◌==◌,
}
use cognition_devin_automati.Sessions.{
  SessionRow, count_active, find_by_pr, max_fix_attempt_for_parent,
}
use cognition_devin_automati.Github.{has_non_devin_commits}
use cognition_devin_automati.Status.{is_terminal}
use cognition_devin_automati.Handlers.{make_ci_fix_work_key}
use cognition_devin_automati.Sessions.Claims.{is_taken, try_reserve-taken}
use cognition_devin_automati.Handlers.Escalation.{escalate_to_human}
use cognition_devin_automati.Runs.Quiet.{Quiet-creates, escalate_to_human-Quiet}

-- A request for a paid session was sent between the two states, or not.
abbrev pub Silent : State → State → Type 0
Silent s t = creates t.trace ≡ creates s.trace

abbrev pub run_repo : Settings → WorkflowRun → Text
run_repo cfg run = or_else run.repository_full_name cfg.fork_repo

abbrev pub pr_url_of : PullRequest → Text
pr_url_of pr = or_else pr.html_url []

-- The fix that a run leads to.
abbrev pub fix_of : Settings → WorkflowRun → ℕ → PullRequest → Fix
fix_of cfg run n pr = record {
  repo = run_repo cfg run;
  run = run;
  pr_number = n;
  pr_url = pr_url_of pr;
  head_ref = or_else pr.head_ref [];
}

module _ (cfg : Settings) (env : Env) where
  -- The guards behind the list of commits, for an answer to that request.
  pub record Clear (answer : Except (List Commit)) (key : Text) (s : State) : Type 0 where
    pub commits : List Commit
    pub listed : answer ≡ ok commits
    pub no_human : has_non_devin_commits cfg.devin_bot_logins commits ≡ false
    pub room : count_active s.sessions < cfg.max_concurrent_sessions
    pub unclaimed : is_taken key s.sessions ≡ false

  -- All that the handler has checked.
  pub record Permitted (run : WorkflowRun) (s : State) : Type 0 where
    pub pr_number : ℕ
    pub pr : PullRequest
    pub parent : SessionRow
    pub pr_triggered : holds_text run.event (text "pull_request") ≡ true
    pub numbered : (rest : List (Option ℕ)) × (run.pull_request_numbers ≡ some pr_number ∷ rest)
    pub not_zero : (pr_number == 0) ≡ false
    pub fetched : env.get_pr s.trace (run_repo cfg run) pr_number ≡ ok (some pr)
    pub devin_branch : starts_with (text "devin/") (or_else pr.head_ref []) ≡ true
    pub tracked : find_by_pr (pr_url_of pr) s.sessions ≡ some parent
    pub parent_over : is_terminal parent.status ≡ true
    pub below_cap :
        max_fix_attempt_for_parent parent.devin_session_id s.sessions < cfg.max_fix_attempts
    pub clear :
        Clear
          (env.list_pr_commits
            (Call.get_pr (run_repo cfg run) pr_number ∷ s.trace)
            (run_repo cfg run)
            pr_number)
          (make_ci_fix_work_key (run_repo cfg run) run.id)
          s

  -- An escalation sends no request for a paid session.
  pub escalate_to_human-Silent :
      (parent : SessionRow) (repo : Text) (pr n : ℕ) (s : State)
      → Silent s (escalate_to_human cfg env parent repo pr n s).1
  escalate_to_human-Silent parent repo pr n s =
      Quiet-creates (escalate_to_human-Quiet cfg env parent repo pr n s)

  pub escalated-Silent :
      (n : ℕ) (r : Except (Unit {0}) × State) (s : State)
      → Silent s r.1
      → Silent s (escalated cfg env n r).1
  unfolding escalated
  escalated-Silent n (ok u, t) s h = h
  escalated-Silent n (raised e, t) s h = h

  reserve_and_fix-guarded :
      (fix : Fix) (parent : SessionRow) (n : ℕ) (s : State)
      → (is_taken (make_ci_fix_work_key fix.repo fix.run.id) s.sessions ≡ false)
        ⊎ Silent s (reserve_and_fix cfg env fix parent n s).1
  unfolding reserve_and_fix fix_reservation
  reserve_and_fix-guarded fix parent n s =
      let r = fix_reservation fix parent n in
      elim (Bool-cases (is_taken (make_ci_fix_work_key fix.repo fix.run.id) s.sessions)) [
        | inl taken ↦ inr (rw (try_reserve-taken r (env.now s) s.sessions taken) refl)
        | inr free ↦ inl free
      ]

  pub with_commits-guarded :
      (answer : Except (List Commit)) (fix : Fix) (parent : SessionRow) (n : ℕ) (s : State)
      → Clear answer (make_ci_fix_work_key fix.repo fix.run.id) s
        ⊎ Silent s (with_commits cfg env answer fix parent n s).1
  unfolding with_commits
  with_commits-guarded (raised e) fix parent n s = inr refl
  with_commits-guarded (ok commits) fix parent n s =
      elim (Bool-cases (has_non_devin_commits cfg.devin_bot_logins commits)) [
        | inl human ↦ inr (rw human refl)
        | inr devin ↦
            elim (Bool-cases (leb cfg.max_concurrent_sessions (count_active s.sessions))) [
              | inl full ↦ inr (rw devin (rw full refl))
              | inr room ↦ elim (reserve_and_fix-guarded fix parent n s) [
                | inl free ↦ inl (record {
                  commits = commits;
                  listed = refl;
                  no_human = devin;
                  room = leb_false→lt _ _ room;
                  unclaimed = free;
                })
                | inr silent ↦ inr (rw devin (rw room silent))
              ]
            ]
      ]
