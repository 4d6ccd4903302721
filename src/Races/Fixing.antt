-- ===== src/Races/Fixing.antt =====
-- A worker of handle_ci_failure that is not interrupted.
use cognition_devin_automati.Prelude.{
  ℕ, suc, Option, List, ◌∷◌, ◌≡◌, [], zero, ap, refl, some, Bool-cases, ◌==◌, inr, inl, none, leb,
  or_else, subst, sym,
}
use cognition_devin_automati.Settings.{Settings}
use cognition_devin_automati.World.{
  Env, State, Except, WorkflowRun, CreateRequest, Commit, PullRequest, raised, ok,
}
use cognition_devin_automati.Prelude.Threads.{interleave, step_at}
use cognition_devin_automati.Races.{
  inserted_fix, Worker, check_parent, advance, find_parent, ask_devin, fetch_pr, check_commits,
  received, finished, fetch_commits, stop, stop_or_raise,
}
use cognition_devin_automati.Handlers.CiFix.{
  handle_ci_failure, claimed_fix, with_commits, with_tracked, with_pr, with_refs, reserve_and_fix,
  with_parent, Fix,
}
use cognition_devin_automati.Handlers.{with_client, open_session, get_client}
use cognition_devin_automati.Outcomes.{Outcome}
use cognition_devin_automati.Sessions.{SessionRow, Table, count_active, max_fix_attempt_for_parent}
use cognition_devin_automati.Prelude.Texts.{Text, holds_text, starts_with, text}
use cognition_devin_automati.Status.{is_terminal}
use cognition_devin_automati.Github.{has_non_devin_commits}
use cognition_devin_automati.Sessions.Unique.{IsValid}
use cognition_devin_automati.Handlers.CiFix.Decisions.{FixHandled}
use cognition_devin_automati.Handlers.CiFix.Decided.{handle_ci_failure-FixHandled}

module _ (cfg : Settings) (env : Env) where
  -- A number of steps of one worker.
  steps : ℕ → Worker × State → Worker × State
  steps zero r = r
  steps (suc n) (w, s) = steps n (advance cfg env w s)

  steps-finished :
      (n : ℕ) (o : Except Outcome) (s : State) → steps n (finished o, s) ≡ (finished o, s)
  unfolding steps advance
  steps-finished zero o s = refl
  steps-finished (suc n) o s = steps-finished n o s

  ask_devin-steps :
      (client : Except (Unit {0})) (req : CreateRequest) (pk : ℕ) (s : State)
      → steps 1 (ask_devin cfg env client req pk s) ≡ stop (with_client cfg env client req pk s)
  unfolding steps ask_devin advance with_client
  ask_devin-steps (raised e) req pk s = refl
  ask_devin-steps (ok _) req pk s = refl

  inserted_fix-steps :
      (fix : Fix) (parent : SessionRow) (attempt : ℕ) (r : Option ℕ × Table) (s : State)
      → steps 3 (inserted_fix cfg env r fix parent attempt s)
        ≡ stop (claimed_fix cfg env r fix parent attempt s)
  unfolding steps inserted_fix claimed_fix advance open_session
  inserted_fix-steps fix parent attempt (none, t) s = refl
  inserted_fix-steps fix parent attempt (some pk, t) s = ask_devin-steps (get_client cfg) _ pk _

  check_commits-steps :
      (answer : Except (List Commit)) (fix : Fix) (parent : SessionRow) (attempt : ℕ) (s : State)
      → steps 4 (check_commits cfg env answer fix parent attempt s)
        ≡ stop (with_commits cfg env answer fix parent attempt s)
  unfolding steps check_commits with_commits advance reserve_and_fix
  check_commits-steps (raised e) fix parent attempt s = refl
  check_commits-steps (ok commits) fix parent attempt s =
      elim (Bool-cases (has_non_devin_commits cfg.devin_bot_logins commits)) [
        | inl human ↦ rw human refl
        | inr bots ↦
            rw bots (elim (Bool-cases (leb cfg.max_concurrent_sessions (count_active s.sessions))) [
              | inl full ↦ rw full refl
              | inr room ↦ rw room (inserted_fix-steps fix parent attempt _ s)
            ])
      ]

  check_parent-steps :
      (fix : Fix) (parent : Option SessionRow) (s : State)
      → steps 6 (check_parent cfg env fix parent s)
        ≡ stop_or_raise (with_tracked cfg env fix parent s)
  unfolding steps check_parent with_tracked advance with_parent fetch_commits
  check_parent-steps fix none s = refl
  check_parent-steps fix (some parent) s = elim (Bool-cases (is_terminal parent.status)) [
    | inr alive ↦ rw alive refl
    | inl over ↦
        rw over
          (elim (Bool-cases (
            leb cfg.max_fix_attempts
              (max_fix_attempt_for_parent parent.devin_session_id s.sessions))) [
                | inl spent ↦ rw spent (steps-finished 5 _ _)
                | inr left ↦ rw left (check_commits-steps _ fix parent _ _)
              ])
  ]

  find_parent-steps :
      (answer : Except (Option PullRequest)) (repo : Text) (run : WorkflowRun) (n : ℕ) (s : State)
      → steps 6 (find_parent cfg env answer repo run n s)
        ≡ stop_or_raise (with_pr cfg env answer repo run n s)
  unfolding find_parent with_pr
  find_parent-steps (raised e) repo run n s = steps-finished 6 _ s
  find_parent-steps (ok none) repo run n s = steps-finished 6 _ s
  find_parent-steps (ok (some pr)) repo run n s =
      elim (Bool-cases (starts_with (text "devin/") (or_else pr.head_ref []))) [
        | inl devin ↦ rw devin (check_parent-steps _ _ s)
        | inr other ↦ rw other (steps-finished 6 _ s)
      ]

  fetch_pr-steps :
      (refs : List (Option ℕ)) (run : WorkflowRun) (s : State)
      → steps 7 (fetch_pr cfg env refs run s) ≡ stop_or_raise (with_refs cfg env refs run s)
  unfolding fetch_pr with_refs
  fetch_pr-steps [] run s = steps-finished 7 _ s
  fetch_pr-steps (none ∷ refs) run s = steps-finished 7 _ s
  fetch_pr-steps (some n ∷ refs) run s = elim (Bool-cases (n == 0)) [
    | inl nil ↦ rw nil (steps-finished 7 _ s)
    | inr given ↦ rw given (unfold steps in unfold advance in find_parent-steps _ _ run n _)
  ]

  received-steps :
      (run : WorkflowRun) (s : State)
      → steps 8 (received run, s) ≡ stop_or_raise (handle_ci_failure cfg env run s)
  unfolding handle_ci_failure
  received-steps run s = elim (Bool-cases (holds_text run.event (text "pull_request"))) [
    | inl pr ↦
        unfold steps in unfold advance in rw pr (fetch_pr-steps run.pull_request_numbers run s)
    | inr other ↦ unfold steps in unfold advance in rw other (steps-finished 7 _ s)
  ]

  -- Eight steps lead to the handler's result, or to the exception that it raises, and to the state
  -- that it leaves.
  advance-handle_ci_failure :
      (run : WorkflowRun) (s : State)
      → let r = handle_ci_failure cfg env run s in
        interleave (advance cfg env) (0 ∷ 0 ∷ 0 ∷ 0 ∷ 0 ∷ 0 ∷ 0 ∷ 0 ∷ []) (received run ∷ []) s
        ≡ (finished r.0 ∷ [], r.1)
  unfolding interleave step_at steps
  advance-handle_ci_failure run s =
      ap (λ (r : Worker × State). (r.0 ∷ [], r.1)) (received-steps run s)

  -- On a table that meets its constraints, a worker that takes eight steps without interruption is
  -- finished with a result, an exception included, and in a state that the decision table of
  -- handle_ci_failure gives for the run and the state it started in.
  pub advance-FixHandled :
      (run : WorkflowRun) (s : State)
      → IsValid s.sessions
      → let r =
          interleave (advance cfg env) (0 ∷ 0 ∷ 0 ∷ 0 ∷ 0 ∷ 0 ∷ 0 ∷ 0 ∷ []) (received run ∷ []) s in
        (o : Except Outcome) × (r.0 ≡ finished o ∷ []) × FixHandled cfg env run s o r.1
  advance-FixHandled run s v =
      let r = handle_ci_failure cfg env run s in
      subst
        (λ (p : List Worker × State).
          (o : Except Outcome) × (p.0 ≡ finished o ∷ []) × FixHandled cfg env run s o p.1)
        (sym (advance-handle_ci_failure run s))
        (r.0, refl, handle_ci_failure-FixHandled cfg env run s v)
