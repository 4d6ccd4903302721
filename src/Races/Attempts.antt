-- ===== src/Races/Attempts.antt =====
-- Two failed CI runs of the same pull request, in two threads that both read the number of the last
-- attempt before either of them inserts.
use cognition_devin_automati.Prelude.{
  ℕ, or_else, [], ◌≡◌, suc, true, some, ◌∷◌, ◌==◌, false, List, refl, ◌+◌, lt→leb_false, arith, ◌<◌,
  ◌∙◌,
}
use cognition_devin_automati.Settings.{Settings}
use cognition_devin_automati.Handlers.CiFix.{Fix, fix_reservation}
use cognition_devin_automati.World.{Env, WorkflowRun, PullRequest, State, ok, Call, Commit}
use cognition_devin_automati.Prelude.Texts.{
  Text, holds_text, text, starts_with, text_eq, text_eq_refl,
}
use cognition_devin_automati.Handlers.{make_ci_fix_work_key}
use cognition_devin_automati.Sessions.{
  SessionRow, Table, max_fix_attempt_for_parent, find_by_pr, count_active,
}
use cognition_devin_automati.Handlers.CiFix.Guards.{run_repo, pr_url_of, fix_of}
use cognition_devin_automati.Prelude.Threads.{interleave, step_at}
use cognition_devin_automati.Races.{
  advance, fetch_pr, find_parent, fetch_commits, received, check_parent, pr_fetched, found_parent,
  commits_fetched, check_commits, inserted_fix, cleared_fix, holds_fix,
}
use cognition_devin_automati.Handlers.Escalation.{sent}
use cognition_devin_automati.Status.{is_terminal}
use cognition_devin_automati.Github.{has_non_devin_commits}
use cognition_devin_automati.Sessions.Claims.{is_taken, claimed, try_reserve-free}
use cognition_devin_automati.Sessions.Chains.{fixes_of, fixes_of-claimed}
use cognition_devin_automati.Races.Overshoot.{claimed_free}

abbrev pub fix_key : Fix → Text
fix_key fix = make_ci_fix_work_key fix.repo fix.run.id

module _ (cfg : Settings) (env : Env) where
  -- A failed run of this pull request, whose session is over, with commits of Devin alone.
  pub record IsFixable (pr : PullRequest) (n : ℕ) (parent : SessionRow) (run : WorkflowRun)
      (t : Table) : Type 0 where
    pub pr_triggered : holds_text run.event (text "pull_request") ≡ true
    pub numbered : run.pull_request_numbers ≡ some n ∷ []
    pub not_zero : (n == 0) ≡ false
    pub fetched : (trace : List Call) → env.get_pr trace (run_repo cfg run) n ≡ ok (some pr)
    pub devin_branch : starts_with (text "devin/") (or_else pr.head_ref []) ≡ true
    pub tracked : find_by_pr (pr_url_of pr) t ≡ some parent
    pub parent_over : is_terminal parent.status ≡ true
    pub commits : List Commit
    pub listed : (trace : List Call) → env.list_pr_commits trace (run_repo cfg run) n ≡ ok commits
    pub no_human : has_non_devin_commits cfg.devin_bot_logins commits ≡ false
    pub unclaimed : is_taken (make_ci_fix_work_key (run_repo cfg run) run.id) t ≡ false

  module _ (pr : PullRequest) (n : ℕ) (parent : SessionRow) (run : WorkflowRun) (s : State) where
    advance-received :
        IsFixable pr n parent run s.sessions
        → advance cfg env (received run) s ≡ (
          pr_fetched (ok (some pr)) (run_repo cfg run) run n,
          sent (Call.get_pr (run_repo cfg run) n) s,
        )
    unfolding advance fetch_pr
    advance-received f =
        rw f.pr_triggered (rw f.numbered (rw f.not_zero (rw (f.fetched s.trace) refl)))

    advance-pr_fetched :
        IsFixable pr n parent run s.sessions
        → advance cfg env (pr_fetched (ok (some pr)) (run_repo cfg run) run n) s
          ≡ (found_parent (fix_of cfg run n pr) parent, s)
    unfolding advance find_parent check_parent
    advance-pr_fetched f = rw f.devin_branch (rw f.tracked (rw f.parent_over refl))

    advance-found_parent :
        max_fix_attempt_for_parent parent.devin_session_id s.sessions + 1 ≡ cfg.max_fix_attempts
        → (f : IsFixable pr n parent run s.sessions)
        → advance cfg env (found_parent (fix_of cfg run n pr) parent) s ≡ (
          commits_fetched (ok f.commits) (fix_of cfg run n pr) parent cfg.max_fix_attempts,
          sent (Call.list_pr_commits (run_repo cfg run) n) s,
        )
    unfolding advance fetch_commits
    advance-found_parent last f =
        rw
          (lt→leb_false cfg.max_fix_attempts
            (max_fix_attempt_for_parent parent.devin_session_id s.sessions) (omega (arith, last)))
          (rw (f.listed s.trace) (rw last refl))

    advance-commits_fetched :
        count_active s.sessions < cfg.max_concurrent_sessions
        → (f : IsFixable pr n parent run s.sessions)
        → advance cfg env
            (commits_fetched (ok f.commits) (fix_of cfg run n pr) parent cfg.max_fix_attempts)
            s
          ≡ (cleared_fix (fix_of cfg run n pr) parent cfg.max_fix_attempts, s)
    unfolding advance check_commits
    advance-commits_fetched room f = rw f.no_human (rw (lt→leb_false _ _ room) refl)

  advance-cleared_fix :
      (fix : Fix) (parent : SessionRow) (attempt : ℕ) (s : State)
      → is_taken (fix_key fix) s.sessions ≡ false
      → advance cfg env (cleared_fix fix parent attempt) s ≡ (
        holds_fix fix parent attempt s.sessions.next_id,
        record s { sessions = claimed (fix_reservation fix parent attempt) (env.now s) s.sessions },
      )
  unfolding advance inserted_fix fix_reservation
  advance-cleared_fix fix parent attempt s free =
      rw (try_reserve-free (fix_reservation fix parent attempt) (env.now s) s.sessions free) refl

  fixes_of-claimed_fix :
      (p : Text) (fix : Fix) (parent : SessionRow) (attempt now : ℕ) (t : Table)
      → parent.devin_session_id ≡ some p
      → fixes_of p (claimed (fix_reservation fix parent attempt) now t) ≡ suc (fixes_of p t)
  unfolding fix_reservation
  fixes_of-claimed_fix p fix parent attempt now t own =
      fixes_of-claimed p (fix_reservation fix parent attempt) now t
      ∙ rw own (rw (text_eq_refl p) (omega arith))

  -- The cap on fixes is checked before the row is inserted, so it can be passed: two failed runs of
  -- one pull request with different work keys, of which neither is claimed, come to a state in which
  -- the parent has one fix less than MAX_FIX_ATTEMPTS, the last attempt has that number, and a slot
  -- is free. If two threads both read the last attempt before either inserts, the parent has one fix
  -- more than MAX_FIX_ATTEMPTS.
  pub interleave_fix_overshoot :
      (pr : PullRequest) (n : ℕ) (parent : SessionRow) (p : Text) (first second : WorkflowRun)
      (s : State)
      → parent.devin_session_id ≡ some p
      → IsFixable pr n parent first s.sessions
      → IsFixable pr n parent second s.sessions
      → text_eq (fix_key (fix_of cfg first n pr)) (fix_key (fix_of cfg second n pr)) ≡ false
      → max_fix_attempt_for_parent parent.devin_session_id s.sessions + 1 ≡ cfg.max_fix_attempts
      → fixes_of p s.sessions + 1 ≡ cfg.max_fix_attempts
      → count_active s.sessions < cfg.max_concurrent_sessions
      → fixes_of p
          (interleave
            (advance cfg env)
            (0 ∷ 1 ∷ 0 ∷ 1 ∷ 0 ∷ 1 ∷ 0 ∷ 1 ∷ 0 ∷ 1 ∷ [])
            (received first ∷ received second ∷ [])
            s).1.sessions
        ≡ suc cfg.max_fix_attempts
  unfolding interleave step_at
  interleave_fix_overshoot pr n parent p first second s own f g apart last used room =
      let a = fix_of cfg first n pr in
      let b = fix_of cfg second n pr in
      let cap = cfg.max_fix_attempts in
      let s1 = sent (Call.get_pr (run_repo cfg first) n) s in
      let s2 = sent (Call.get_pr (run_repo cfg second) n) s1 in
      let s3 = sent (Call.list_pr_commits (run_repo cfg first) n) s2 in
      let s4 = sent (Call.list_pr_commits (run_repo cfg second) n) s3 in
      let r = fix_reservation a parent cap in
      let t = claimed r (env.now s4) s.sessions in
      rw (advance-received pr n parent first s f) (
        rw (advance-received pr n parent second s1 g) (
          rw (advance-pr_fetched pr n parent first s2 f) (
            rw (advance-pr_fetched pr n parent second s2 g) (
              rw (advance-found_parent pr n parent first s2 last f) (
                rw (advance-found_parent pr n parent second s3 last g) (
                  rw (advance-commits_fetched pr n parent first s4 room f) (
                    rw (advance-commits_fetched pr n parent second s4 room g) (
                      rw (advance-cleared_fix a parent cap s4 f.unclaimed) (
                        rw
                          (advance-cleared_fix b parent cap (record s4 { sessions = t })
                            (claimed_free r (fix_key b) (env.now s4) s.sessions g.unclaimed
                              (unfold fix_reservation in apart)))
                          (omega (
                            arith,
                            fixes_of-claimed_fix p b parent cap
                                (env.now (record s4 { sessions = t })) t own,
                            fixes_of-claimed_fix p a parent cap (env.now s4) s.sessions own,
                          )))))))))))
