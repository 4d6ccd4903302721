-- ===== src/Races/Walk.antt =====
-- The steps of a worker, one constructor after another, as moves.
use cognition_devin_automati.Prelude.{
  ℕ, List, Option, ◌≡◌, Bool-cases, some, leb, ◌∷◌, inl, [], none, ◌==◌, arith, inr, refl, or_else,
}
use cognition_devin_automati.Settings.{Settings}
use cognition_devin_automati.World.{
  Env, Issue, Except, State, Commit, SessionCreated, CreateRequest, WorkflowRun, PullRequest,
  raised, ok, Call,
}
use cognition_devin_automati.Races.{
  check_commits, prepare, find_parent, ask_devin, read_issue, fetch_commits, inserted_fix, inserted,
  advance, fetch_pr, check_parent, Worker, stop, holds_row, cleared, cleared_fix, received,
  found_parent, commits_fetched, entered, pr_fetched, stop_or_raise, counted, holds_fix,
  logs_fetched, answered, finished,
}
use cognition_devin_automati.Handlers.{
  creation_result, creation_failed, creation_done, get_client, make_ci_fix_work_key,
}
use cognition_devin_automati.Handlers.Security.{
  create_or_refuse, with_context, cve_request, security_reservation, parse_issue_to_cve_context,
}
use cognition_devin_automati.Handlers.CiFix.{Fix, fix_reservation, escalated}
use cognition_devin_automati.Sessions.{
  SessionRow, mark_failed, try_reserve, count_active, max_fix_attempt_for_parent,
  count_started_today,
}
use cognition_devin_automati.Prompts.{CveContext, missing_required_fields}
use cognition_devin_automati.Races.Moves.{holding, Move, ends, key_ahead, pays, goes_on, reserves}
use cognition_devin_automati.Prelude.Texts.{Text, starts_with, text, holds_text}
use cognition_devin_automati.Runs.Quiet.{
  Quiet, then_written, still, escalate_to_human-Quiet, then_sent,
}
use cognition_devin_automati.Sessions.Claims.{is_taken, try_reserve-taken, try_reserve-free}
use cognition_devin_automati.Status.{is_terminal}
use cognition_devin_automati.Github.{has_non_devin_commits}

module _ (cfg : Settings) (env : Env) where
  creation_result-Move :
      {w : Worker} (answer : Except SessionCreated) (req : CreateRequest) (pk : ℕ) (s : State)
      → Move cfg w s (stop (creation_result cfg env answer req pk s))
  unfolding creation_result creation_failed creation_done mark_failed
  creation_result-Move (raised e) req pk s = ends cfg _ (then_written pk _ still)
  creation_result-Move (ok created) req pk s = ends cfg _ (then_written pk _ still)

  ask_devin-Move :
      {w : Worker} (client : Except (Unit {0})) (req : CreateRequest) (pk : ℕ) (s : State)
      → holding w ≡ 1
      → Move cfg w s (ask_devin cfg env client req pk s)
  unfolding ask_devin creation_failed mark_failed
  ask_devin-Move (raised e) req pk s h = ends cfg _ (then_written pk _ still)
  ask_devin-Move (ok _) req pk s h = pays req (omega (arith, h)) refl refl

  prepare-Move :
      {w : Worker} (ctx : CveContext) (missing : List Text) (pk : ℕ) (s : State)
      → holding w ≡ 1
      → Move cfg w s (prepare cfg env ctx missing pk s)
  unfolding prepare create_or_refuse mark_failed
  prepare-Move ctx [] pk s h = ask_devin-Move (get_client cfg) (cve_request cfg env ctx) pk s h
  prepare-Move ctx (m ∷ ms) pk s h = ends cfg _ (then_written pk _ still)

  read_issue-Move :
      (issue : Issue) (ctx : Option CveContext) (pk : ℕ) (s : State)
      → Move cfg (holds_row issue pk) s (read_issue cfg env issue ctx pk s)
  unfolding read_issue with_context mark_failed
  read_issue-Move issue none pk s = ends cfg _ (then_written pk _ still)
  read_issue-Move issue (some ctx) pk s = prepare-Move ctx (missing_required_fields ctx) pk s refl

  inserted-Move :
      (issue : Issue) (s : State)
      → Move cfg (cleared issue) s (
          inserted cfg env issue
            (try_reserve (security_reservation cfg issue) (env.now s) s.sessions)
            s)
  unfolding inserted
  inserted-Move issue s =
      let r = security_reservation cfg issue in
      elim (Bool-cases (is_taken r.work_key s.sessions)) [
        | inl taken ↦ rw (try_reserve-taken r (env.now s) s.sessions taken) (ends cfg _ still)
        | inr free ↦ rw (try_reserve-free r (env.now s) s.sessions free) (
            reserves r (env.now s) free (unfold security_reservation in refl)
              (λ within. unfold security_reservation in omega arith) refl refl refl)
      ]

  inserted_fix-Move :
      (fix : Fix) (parent : SessionRow) (attempt : ℕ) (s : State)
      → Move cfg (cleared_fix fix parent attempt) s (
          inserted_fix cfg env
            (try_reserve (fix_reservation fix parent attempt) (env.now s) s.sessions)
            fix
            parent
            attempt
            s)
  unfolding inserted_fix
  inserted_fix-Move fix parent attempt s =
      let r = fix_reservation fix parent attempt in
      elim (Bool-cases (is_taken r.work_key s.sessions)) [
        | inl taken ↦ rw (try_reserve-taken r (env.now s) s.sessions taken) (ends cfg _ still)
        | inr free ↦ rw (try_reserve-free r (env.now s) s.sessions free) (
            reserves r (env.now s) free (unfold fix_reservation in refl)
              (λ within. unfold fix_reservation in within) refl refl refl)
      ]

  fetch_pr-Move :
      (refs : List (Option ℕ)) (run : WorkflowRun) (s : State)
      → Move cfg (received run) s (fetch_pr cfg env refs run s)
  unfolding fetch_pr
  fetch_pr-Move [] run s = ends cfg _ still
  fetch_pr-Move (none ∷ refs) run s = ends cfg _ still
  fetch_pr-Move (some n ∷ refs) run s = elim (Bool-cases (n == 0)) [
    | inl nil ↦ rw nil (ends cfg _ still)
    | inr given ↦
        rw given
          (goes_on cfg _ (then_sent (Call.get_pr _ n) refl still) refl refl (λ within. within))
  ]

  check_parent-Move :
      {w : Worker} (fix : Fix) (parent : Option SessionRow) (s : State)
      → holding w ≡ 0
      → key_ahead cfg w ≡ some (make_ci_fix_work_key fix.repo fix.run.id)
      → Move cfg w s (check_parent cfg env fix parent s)
  unfolding check_parent
  check_parent-Move fix none s h k = ends cfg _ still
  check_parent-Move fix (some parent) s h k = elim (Bool-cases (is_terminal parent.status)) [
    | inl over ↦
        rw over (goes_on cfg _ still (omega (arith, h)) (rw k refl) (λ within. omega arith))
    | inr alive ↦ rw alive (ends cfg _ still)
  ]

  find_parent-Move :
      (answer : Except (Option PullRequest)) (repo : Text) (run : WorkflowRun) (n : ℕ) (s : State)
      → Move cfg (pr_fetched answer repo run n) s (find_parent cfg env answer repo run n s)
  unfolding find_parent
  find_parent-Move (raised e) repo run n s = ends cfg _ still
  find_parent-Move (ok none) repo run n s = ends cfg _ still
  find_parent-Move (ok (some pr)) repo run n s =
      elim (Bool-cases (starts_with (text "devin/") (or_else pr.head_ref []))) [
        | inl devin ↦ rw devin (check_parent-Move _ _ s refl refl)
        | inr other ↦ rw other (ends cfg _ still)
      ]

  fetch_commits-Move :
      (fix : Fix) (parent : SessionRow) (s : State)
      → Move cfg (found_parent fix parent) s (fetch_commits cfg env fix parent s)
  unfolding fetch_commits
  fetch_commits-Move fix parent s =
      let current_max = max_fix_attempt_for_parent parent.devin_session_id s.sessions in
      elim (Bool-cases (leb cfg.max_fix_attempts current_max)) [
        | inl spent ↦ rw spent (
            escalated-Move current_max _
              (escalate_to_human-Quiet cfg env parent fix.repo fix.pr_number current_max s))
        | inr left ↦ rw left (
            goes_on cfg _ (then_sent (Call.list_pr_commits _ _) refl still) refl refl
              (λ within. ground arith))
      ]
    where
      escalated-Move :
          (n : ℕ) (r : Except (Unit {0}) × State)
          → Quiet s r.1
          → Move cfg (found_parent fix parent) s (stop_or_raise (escalated cfg env n r))
      escalated-Move n (ok _, t) q = unfold escalated in ends cfg _ q
      escalated-Move n (raised e, t) q = unfold escalated in ends cfg _ q

  check_commits-Move :
      (answer : Except (List Commit)) (fix : Fix) (parent : SessionRow) (attempt : ℕ) (s : State)
      → Move cfg
          (commits_fetched answer fix parent attempt)
          s
          (check_commits cfg env answer fix parent attempt s)
  unfolding check_commits
  check_commits-Move (raised e) fix parent attempt s = ends cfg _ still
  check_commits-Move (ok commits) fix parent attempt s =
      elim (Bool-cases (has_non_devin_commits cfg.devin_bot_logins commits)) [
        | inl human ↦ rw human (ends cfg _ still)
        | inr bots ↦
            rw bots (elim (Bool-cases (leb cfg.max_concurrent_sessions (count_active s.sessions))) [
              | inl full ↦ rw full (ends cfg _ still)
              | inr room ↦ rw room (goes_on cfg _ still refl refl (λ within. within))
            ])
      ]

  -- Every step is a move.
  pub advance-Move : (w : Worker) (s : State) → Move cfg w s (advance cfg env w s)
  unfolding advance
  advance-Move (entered issue) s =
      elim (Bool-cases (leb cfg.max_concurrent_sessions (count_active s.sessions))) [
        | inl full ↦ rw full (ends cfg _ still)
        | inr room ↦ rw room (goes_on cfg _ still refl refl (λ within. within))
      ]
  advance-Move (counted issue) s =
      elim (Bool-cases
        (leb cfg.max_sessions_per_day (count_started_today (env.now s) s.sessions))) [
          | inl spent ↦ rw spent (ends cfg _ still)
          | inr left ↦ rw left (goes_on cfg _ still refl refl (λ within. within))
        ]
  advance-Move (cleared issue) s = inserted-Move issue s
  advance-Move (holds_row issue pk) s =
      read_issue-Move issue (parse_issue_to_cve_context issue) pk s
  advance-Move (received run) s = elim (Bool-cases (holds_text run.event (text "pull_request"))) [
    | inl pr ↦ rw pr (fetch_pr-Move run.pull_request_numbers run s)
    | inr other ↦ rw other (ends cfg _ still)
  ]
  advance-Move (pr_fetched answer repo run n) s = find_parent-Move answer repo run n s
  advance-Move (found_parent fix parent) s = fetch_commits-Move fix parent s
  advance-Move (commits_fetched answer fix parent attempt) s =
      check_commits-Move answer fix parent attempt s
  advance-Move (cleared_fix fix parent attempt) s = inserted_fix-Move fix parent attempt s
  advance-Move (holds_fix fix parent attempt pk) s =
      goes_on cfg _ (then_sent (Call.get_logs _ _) refl still) refl refl (λ within. within)
  advance-Move (logs_fetched answer fix parent attempt pk) s =
      ask_devin-Move (get_client cfg) _ pk s refl
  advance-Move (answered req pk answer) s = creation_result-Move answer req pk s
  advance-Move (finished o) s = ends cfg o still
