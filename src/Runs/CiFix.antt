-- ===== src/Runs/CiFix.antt =====
-- handle_ci_failure, as a run.
use cognition_devin_automati.Settings.{Settings}
use cognition_devin_automati.World.{
  Env, WorkflowRun, State, Except, PullRequest, Commit, raised, ok, Call,
}
use cognition_devin_automati.Handlers.CiFix.{
  with_commits, with_pr, with_tracked, reserve_and_fix, with_refs, handle_ci_failure, escalated,
  with_parent, Fix, fix_reservation,
}
use cognition_devin_automati.Prelude.{
  List, ℕ, Option, Bool-cases, inl, ◌∷◌, inr, some, leb, ◌==◌, or_else, [], refl, none, arith, ◌≡◌,
  false, ◌+◌, true, ◌<◌,
}
use cognition_devin_automati.Sessions.{SessionRow, count_active, max_fix_attempt_for_parent}
use cognition_devin_automati.Prelude.Texts.{Text, holds_text, text, starts_with, eq_of_text_eq}
use cognition_devin_automati.Runs.{Run, here, next, requested, Run-trans, Call}
use cognition_devin_automati.Status.{is_terminal}
use cognition_devin_automati.Sessions.Claims.{is_taken, try_reserve-taken, try_reserve-free}
use cognition_devin_automati.Github.{has_non_devin_commits}
use cognition_devin_automati.Runs.Quiet.{Quiet-Run, escalate_to_human-Quiet}
use cognition_devin_automati.Runs.Opening.{open_session-Run}
use cognition_devin_automati.Sessions.Chains.{
  IsNumbered, last_attempt, last_attempt-max_fix_attempt_for_parent,
}

module _ (cfg : Settings) (env : Env) where
  fix-IsNumbered :
      (fix : Fix) (parent : SessionRow) (t : State)
      → let highest = max_fix_attempt_for_parent parent.devin_session_id t.sessions in
        leb cfg.max_fix_attempts highest ≡ false
        → IsNumbered cfg.max_fix_attempts (fix_reservation fix parent (highest + 1)) t.sessions
  unfolding fix_reservation
  fix-IsNumbered fix parent t left =
      (ground arith, λ p same. follows p parent.devin_session_id same)
    where
      follows :
          (p : Text) (o : Option Text)
          → holds_text o p ≡ true
          → last_attempt p t.sessions.rows < max_fix_attempt_for_parent o t.sessions + 1
      follows p none h = cc h
      follows p (some q) h =
          rw (eq_of_text_eq q p h)
            (omega (arith, last_attempt-max_fix_attempt_for_parent p t.sessions))

  reserve_and_fix-Run :
      {s : State} (fix : Fix) (parent : SessionRow) (attempt : ℕ) (t : State)
      → IsNumbered cfg.max_fix_attempts (fix_reservation fix parent attempt) t.sessions
      → Run cfg.max_fix_attempts s t
      → Run cfg.max_fix_attempts s (reserve_and_fix cfg env fix parent attempt t).1
  unfolding reserve_and_fix fix_reservation
  reserve_and_fix-Run fix parent attempt t fits run =
      let r = fix_reservation fix parent attempt in
      elim (Bool-cases (is_taken r.work_key t.sessions)) [
        | inl taken ↦ rw (try_reserve-taken r (env.now t) t.sessions taken) run
        | inr free ↦ rw (try_reserve-free r (env.now t) t.sessions free) (
            open_session-Run cfg env _ _ r (env.now t)
              (next run (requested (Call.get_logs fix.repo fix.run.id) refl)) free fits)
      ]

  with_commits-Run :
      {s : State} (answer : Except (List Commit)) (fix : Fix) (parent : SessionRow) (attempt : ℕ)
      (t : State)
      → IsNumbered cfg.max_fix_attempts (fix_reservation fix parent attempt) t.sessions
      → Run cfg.max_fix_attempts s t
      → Run cfg.max_fix_attempts s (with_commits cfg env answer fix parent attempt t).1
  unfolding with_commits
  with_commits-Run (raised e) fix parent attempt t fits run = run
  with_commits-Run (ok commits) fix parent attempt t fits run =
      elim (Bool-cases (has_non_devin_commits cfg.devin_bot_logins commits)) [
        | inl human ↦ rw human run
        | inr devin ↦
            rw devin
              (elim (Bool-cases (leb cfg.max_concurrent_sessions (count_active t.sessions))) [
                | inl full ↦ rw full run
                | inr room ↦ rw room (reserve_and_fix-Run fix parent attempt t fits run)
              ])
      ]

  escalated-Run :
      {s : State} (n : ℕ) (r : Except (Unit {0}) × State)
      → Run cfg.max_fix_attempts s r.1
      → Run cfg.max_fix_attempts s (escalated cfg env n r).1
  unfolding escalated
  escalated-Run n (ok u, t) run = run
  escalated-Run n (raised e, t) run = run

  with_parent-Run :
      {s : State} (fix : Fix) (parent : SessionRow) (t : State)
      → Run cfg.max_fix_attempts s t
      → Run cfg.max_fix_attempts s (with_parent cfg env fix parent t).1
  unfolding with_parent
  with_parent-Run fix parent t run = elim (Bool-cases (is_terminal parent.status)) [
    | inr alive ↦ rw alive run
    | inl over ↦
        rw over
          (elim (Bool-cases (
            leb cfg.max_fix_attempts
              (max_fix_attempt_for_parent parent.devin_session_id t.sessions))) [
                | inl spent ↦ rw spent (
                    escalated-Run _ _ (
                      Run-trans run (
                        Quiet-Run
                          (escalate_to_human-Quiet cfg env parent fix.repo fix.pr_number _ t))))
                | inr left ↦ rw left (
                    with_commits-Run _ fix parent _ _ (fix-IsNumbered fix parent t left)
                      (next run (requested (Call.list_pr_commits fix.repo fix.pr_number) refl)))
              ])
  ]

  with_tracked-Run :
      {s : State} (fix : Fix) (parent : Option SessionRow) (t : State)
      → Run cfg.max_fix_attempts s t
      → Run cfg.max_fix_attempts s (with_tracked cfg env fix parent t).1
  unfolding with_tracked
  with_tracked-Run fix none t run = run
  with_tracked-Run fix (some parent) t run = with_parent-Run fix parent t run

  with_pr-Run :
      {s : State} (answer : Except (Option PullRequest)) (repo : Text) (run : WorkflowRun) (n : ℕ)
      (t : State)
      → Run cfg.max_fix_attempts s t
      → Run cfg.max_fix_attempts s (with_pr cfg env answer repo run n t).1
  unfolding with_pr
  with_pr-Run (raised e) repo run n t h = h
  with_pr-Run (ok none) repo run n t h = h
  with_pr-Run (ok (some pr)) repo run n t h =
      elim (Bool-cases (starts_with (text "devin/") (or_else pr.head_ref []))) [
        | inl devin ↦ rw devin (with_tracked-Run _ _ t h)
        | inr other ↦ rw other h
      ]

  with_refs-Run :
      (refs : List (Option ℕ)) (run : WorkflowRun) (s : State)
      → Run cfg.max_fix_attempts s (with_refs cfg env refs run s).1
  unfolding with_refs
  with_refs-Run [] run s = here
  with_refs-Run (none ∷ refs) run s = here
  with_refs-Run (some n ∷ refs) run s = elim (Bool-cases (n == 0)) [
    | inl zero_number ↦ rw zero_number here
    | inr number ↦
        rw number (with_pr-Run _ _ run n _ (next here (requested (Call.get_pr _ n) refl)))
  ]

  pub handle_ci_failure-Run :
      (run : WorkflowRun) (s : State)
      → Run cfg.max_fix_attempts s (handle_ci_failure cfg env run s).1
  unfolding handle_ci_failure
  handle_ci_failure-Run run s = elim (Bool-cases (holds_text run.event (text "pull_request"))) [
    | inl pr ↦ rw pr (with_refs-Run run.pull_request_numbers run s)
    | inr other ↦ rw other here
  ]
