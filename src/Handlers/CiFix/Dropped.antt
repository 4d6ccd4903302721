-- ===== src/Handlers/CiFix/Dropped.antt =====
-- handle_ci_failure never queues: what it does not handle at once is not retried.
use cognition_devin_automati.Settings.{Settings}
use cognition_devin_automati.World.{
  Except, Env, ok, WorkflowRun, State, SessionCreated, CreateRequest, Commit, raised, PullRequest,
  Call,
}
use cognition_devin_automati.Outcomes.{Outcome, is_queued}
use cognition_devin_automati.Handlers.CiFix.{
  claimed_fix, with_pr, handle_ci_failure, with_parent, with_tracked, escalated, with_commits,
  with_refs, reserve_and_fix, Fix,
}
use cognition_devin_automati.Handlers.{creation_result, with_client, open_session, get_client}
use cognition_devin_automati.Prelude.{
  Option, List, ℕ, Bool-cases, ◌≡◌, false, ◌∷◌, some, subst, refl, inl, inr, none, ◌==◌, leb,
  or_else, [],
}
use cognition_devin_automati.Sessions.{Table, SessionRow, count_active, max_fix_attempt_for_parent}
use cognition_devin_automati.Prelude.Texts.{holds_text, Text, text, starts_with}
use cognition_devin_automati.Github.{has_non_devin_commits}
use cognition_devin_automati.Status.{is_terminal}
use cognition_devin_automati.Handlers.Escalation.{sent}

abbrev NotQueued : Except Outcome → Type 0
NotQueued (ok o) = is_queued o ≡ false
NotQueued (raised e) = Unit

module _ (cfg : Settings) (env : Env) where
  creation_result-NotQueued :
      (answer : Except SessionCreated) (req : CreateRequest) (pk : ℕ) (s : State)
      → is_queued (creation_result cfg env answer req pk s).0 ≡ false
  unfolding creation_result is_queued
  creation_result-NotQueued (raised e) req pk s = refl
  creation_result-NotQueued (ok c) req pk s = refl

  open_session-NotQueued :
      (client : Except (Unit {0})) (req : CreateRequest) (pk : ℕ) (s : State)
      → is_queued (with_client cfg env client req pk s).0 ≡ false
  unfolding with_client is_queued
  open_session-NotQueued (raised e) req pk s = refl
  open_session-NotQueued (ok _) req pk s = creation_result-NotQueued _ req pk _

  claimed_fix-NotQueued :
      (claim : Option ℕ × Table) (fix : Fix) (parent : SessionRow) (n : ℕ) (s : State)
      → is_queued (claimed_fix cfg env claim fix parent n s).0 ≡ false
  unfolding claimed_fix open_session is_queued
  claimed_fix-NotQueued (none, t) fix parent n s = refl
  claimed_fix-NotQueued (some pk, t) fix parent n s = open_session-NotQueued (get_client cfg) _ pk _

  with_commits-NotQueued :
      (answer : Except (List Commit)) (fix : Fix) (parent : SessionRow) (n : ℕ) (s : State)
      → is_queued (with_commits cfg env answer fix parent n s).0 ≡ false
  unfolding with_commits reserve_and_fix is_queued
  with_commits-NotQueued (raised e) fix parent n s = refl
  with_commits-NotQueued (ok commits) fix parent n s =
      elim (Bool-cases (has_non_devin_commits cfg.devin_bot_logins commits)) [
        | inl human ↦ rw human refl
        | inr devin ↦
            rw devin
              (elim (Bool-cases (leb cfg.max_concurrent_sessions (count_active s.sessions))) [
                | inl full ↦ rw full refl
                | inr room ↦ rw room (claimed_fix-NotQueued _ fix parent n s)
              ])
      ]

  escalated-NotQueued :
      (n : ℕ) (r : Except (Unit {0}) × State) → NotQueued (escalated cfg env n r).0
  unfolding escalated is_queued
  escalated-NotQueued n (ok u, t) = refl
  escalated-NotQueued n (raised e, t) = tt

  with_parent-NotQueued :
      (fix : Fix) (parent : SessionRow) (s : State) → NotQueued (with_parent cfg env fix parent s).0
  unfolding with_parent is_queued
  with_parent-NotQueued fix parent s = elim (Bool-cases (is_terminal parent.status)) [
    | inr alive ↦ rw alive refl
    | inl over ↦
        rw over
          (elim (Bool-cases (
            leb cfg.max_fix_attempts
              (max_fix_attempt_for_parent parent.devin_session_id s.sessions))) [
                | inl spent ↦ rw spent (escalated-NotQueued _ _)
                | inr left ↦ rw left (with_commits-NotQueued _ fix parent _ _)
              ])
  ]

  with_tracked-NotQueued :
      (fix : Fix) (found : Option SessionRow) (s : State)
      → NotQueued (with_tracked cfg env fix found s).0
  unfolding with_tracked is_queued
  with_tracked-NotQueued fix none s = refl
  with_tracked-NotQueued fix (some parent) s = with_parent-NotQueued fix parent s

  with_pr-NotQueued :
      (answer : Except (Option PullRequest)) (repo : Text) (run : WorkflowRun) (n : ℕ) (s : State)
      → NotQueued (with_pr cfg env answer repo run n s).0
  unfolding with_pr is_queued
  with_pr-NotQueued (raised e) repo run n s = refl
  with_pr-NotQueued (ok none) repo run n s = refl
  with_pr-NotQueued (ok (some pr)) repo run n s =
      elim (Bool-cases (starts_with (text "devin/") (or_else pr.head_ref []))) [
        | inl devin ↦ rw devin (with_tracked-NotQueued _ _ s)
        | inr other ↦ rw other refl
      ]

  with_refs-NotQueued :
      (refs : List (Option ℕ)) (run : WorkflowRun) (s : State)
      → NotQueued (with_refs cfg env refs run s).0
  unfolding with_refs is_queued
  with_refs-NotQueued [] run s = refl
  with_refs-NotQueued (none ∷ refs) run s = refl
  with_refs-NotQueued (some n ∷ refs) run s = elim (Bool-cases (n == 0)) [
    | inl no_number ↦ rw no_number refl
    | inr number ↦
        let repo = or_else run.repository_full_name cfg.fork_repo in
        rw number
          (with_pr-NotQueued (env.get_pr s.trace repo n) repo run n (sent (Call.get_pr repo n) s))
  ]

  handled-NotQueued :
      (run : WorkflowRun) (s : State) → NotQueued (handle_ci_failure cfg env run s).0
  unfolding handle_ci_failure is_queued
  handled-NotQueued run s = elim (Bool-cases (holds_text run.event (text "pull_request"))) [
    | inr other ↦ rw other refl
    | inl pr_run ↦ rw pr_run (with_refs-NotQueued run.pull_request_numbers run s)
  ]

  -- No result that handle_ci_failure returns starts with "queued:".
  pub handle_ci_failure-not_queued :
      (run : WorkflowRun) (s : State) (o : Outcome)
      → (handle_ci_failure cfg env run s).0 ≡ ok o
      → is_queued o ≡ false
  handle_ci_failure-not_queued run s o h = subst NotQueued h (handled-NotQueued run s)
