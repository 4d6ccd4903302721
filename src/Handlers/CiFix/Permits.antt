-- ===== src/Handlers/CiFix/Permits.antt =====
-- The guards of handle_ci_failure, put together.
use cognition_devin_automati.Settings.{Settings}
use cognition_devin_automati.World.{Env, WorkflowRun, Except, State, PullRequest, ok, raised, Call}
use cognition_devin_automati.Handlers.CiFix.{
  with_pr, with_parent, with_tracked, Fix, with_refs, handle_ci_failure,
}
use cognition_devin_automati.Sessions.{SessionRow, max_fix_attempt_for_parent, find_by_pr}
use cognition_devin_automati.Prelude.{
  Option, List, ◌⊎◌, ◌≡◌, ℕ, true, some, Bool-cases, inr, or_else, ◌<◌, inl, [], ◌∷◌, leb, ◌==◌,
  ◌∙◌, none, refl, ◌+◌, leb_false→lt, false,
}
use cognition_devin_automati.Prelude.Texts.{Text, starts_with, text, holds_text}
use cognition_devin_automati.Status.{is_terminal}
use cognition_devin_automati.Handlers.CiFix.Guards.{
  Permitted, Silent, pr_url_of, run_repo, Clear, escalated-Silent, escalate_to_human-Silent,
  with_commits-guarded,
}
use cognition_devin_automati.Runs.Invariants.{creates, creates-other}
use cognition_devin_automati.Handlers.{make_ci_fix_work_key}

module _ (cfg : Settings) (env : Env) where
  -- What the guards from the parent's status on have checked.
  record ParentClear (fix : Fix) (parent : SessionRow) (s : State) : Type 0 where
    over : is_terminal parent.status ≡ true
    below : max_fix_attempt_for_parent parent.devin_session_id s.sessions < cfg.max_fix_attempts
    clear :
        Clear cfg env
          (env.list_pr_commits s.trace fix.repo fix.pr_number)
          (make_ci_fix_work_key fix.repo fix.run.id)
          (record s { trace = Call.list_pr_commits fix.repo fix.pr_number ∷ s.trace })

  with_parent-guarded :
      (fix : Fix) (parent : SessionRow) (s : State)
      → ParentClear fix parent s ⊎ Silent s (with_parent cfg env fix parent s).1
  unfolding with_parent
  with_parent-guarded fix parent s = elim (Bool-cases (is_terminal parent.status)) [
    | inr alive ↦ inr (rw alive refl)
    | inl over ↦
        elim (Bool-cases (
          leb cfg.max_fix_attempts
            (max_fix_attempt_for_parent parent.devin_session_id s.sessions))) [
              | inl spent ↦ inr (
                  rw over (
                    rw spent (
                      escalated-Silent cfg env _ _ s
                        (escalate_to_human-Silent cfg env parent fix.repo fix.pr_number _ s))))
              | inr left ↦
                  elim (with_commits-guarded cfg env
                    (env.list_pr_commits s.trace fix.repo fix.pr_number) fix parent
                    (max_fix_attempt_for_parent parent.devin_session_id s.sessions + 1)
                    (record s { trace = Call.list_pr_commits fix.repo fix.pr_number ∷ s.trace })) [
                      | inl clear ↦
                          inl (record { over = over; below = leb_false→lt _ _ left; clear = clear })
                      | inr silent ↦ inr (rw over (rw left (silent ∙ creates-other _ s.trace refl)))
                    ]
            ]
  ]

  with_tracked-guarded :
      (fix : Fix) (found : Option SessionRow) (s : State)
      → ((parent : SessionRow) × (found ≡ some parent) × ParentClear fix parent s)
        ⊎ Silent s (with_tracked cfg env fix found s).1
  unfolding with_tracked
  with_tracked-guarded fix none s = inr refl
  with_tracked-guarded fix (some parent) s = elim (with_parent-guarded fix parent s) [
    | inl clear ↦ inl (parent, refl, clear)
    | inr silent ↦ inr silent
  ]

  abbrev fix_of : WorkflowRun → Text → ℕ → PullRequest → Fix
  fix_of run repo n pr = record {
    repo = repo;
    run = run;
    pr_number = n;
    pr_url = pr_url_of pr;
    head_ref = or_else pr.head_ref [];
  }

  abbrev PrClear : Except (Option PullRequest) → Text → WorkflowRun → ℕ → State → Type 0
  PrClear answer repo run n s =
      (pr : PullRequest) × (parent : SessionRow) × (answer ≡ ok (some pr))
      × (starts_with (text "devin/") (or_else pr.head_ref []) ≡ true)
      × (find_by_pr (pr_url_of pr) s.sessions ≡ some parent)
      × ParentClear (fix_of run repo n pr) parent s

  with_pr-guarded :
      (answer : Except (Option PullRequest)) (repo : Text) (run : WorkflowRun) (n : ℕ) (s : State)
      → PrClear answer repo run n s ⊎ Silent s (with_pr cfg env answer repo run n s).1
  unfolding with_pr
  with_pr-guarded (raised e) repo run n s = inr refl
  with_pr-guarded (ok none) repo run n s = inr refl
  with_pr-guarded (ok (some pr)) repo run n s =
      elim (Bool-cases (starts_with (text "devin/") (or_else pr.head_ref []))) [
        | inr other ↦ inr (rw other refl)
        | inl devin ↦
            elim (with_tracked-guarded (fix_of run repo n pr) (find_by_pr (pr_url_of pr) s.sessions)
              s) [
                | inl (parent, found, clear) ↦ inl (pr, parent, refl, devin, found, clear)
                | inr silent ↦ inr (rw devin silent)
              ]
      ]

  abbrev RefsClear : List (Option ℕ) → WorkflowRun → State → Type 0
  RefsClear refs run s =
      (n : ℕ) × ((rest : List (Option ℕ)) × (refs ≡ some n ∷ rest))
      × ((n == 0) ≡ false)
      × PrClear (env.get_pr s.trace (run_repo cfg run) n) (run_repo cfg run) run n
          (record s { trace = Call.get_pr (run_repo cfg run) n ∷ s.trace })

  with_refs-guarded :
      (refs : List (Option ℕ)) (run : WorkflowRun) (s : State)
      → RefsClear refs run s ⊎ Silent s (with_refs cfg env refs run s).1
  unfolding with_refs
  with_refs-guarded [] run s = inr refl
  with_refs-guarded (none ∷ refs) run s = inr refl
  with_refs-guarded (some n ∷ refs) run s = elim (Bool-cases (n == 0)) [
    | inl no_number ↦ inr (rw no_number refl)
    | inr number ↦
        elim (with_pr-guarded (env.get_pr s.trace (run_repo cfg run) n) (run_repo cfg run) run n
          (record s { trace = Call.get_pr (run_repo cfg run) n ∷ s.trace })) [
            | inl clear ↦ inl (n, (refs, refl), number, clear)
            | inr silent ↦ inr (rw number (silent ∙ creates-other _ s.trace refl))
          ]
  ]

  -- Either every guard holds (a pull request's run whose first PR has a number other than 0, under
  -- which GitHub answers with a PR, a branch devin/…, a tracked parent that is over, fewer attempts
  -- in its chain than MAX_FIX_ATTEMPTS, no human's commit, room under the concurrency cap, and a
  -- work key that no row has claimed), or handle_ci_failure sends no request for a paid session.
  pub handle_ci_failure_guarded :
      (run : WorkflowRun) (s : State)
      → Permitted cfg env run s
        ⊎ (creates (handle_ci_failure cfg env run s).1.trace ≡ creates s.trace)
  unfolding handle_ci_failure
  handle_ci_failure_guarded run s = elim (Bool-cases (holds_text run.event (text "pull_request"))) [
    | inr other ↦ inr (rw other refl)
    | inl pr_run ↦ elim (with_refs-guarded run.pull_request_numbers run s) [
      | inl (n, numbered, number, (pr, parent, got, devin, found, clear)) ↦ inl (record {
        pr_number = n;
        pr = pr;
        parent = parent;
        pr_triggered = pr_run;
        numbered = numbered;
        not_zero = number;
        fetched = got;
        devin_branch = devin;
        tracked = found;
        parent_over = clear.over;
        below_cap = clear.below;
        clear = record {
          commits = clear.clear.commits;
          listed = clear.clear.listed;
          no_human = clear.clear.no_human;
          room = clear.clear.room;
          unclaimed = clear.clear.unclaimed;
        };
      })
      | inr silent ↦ inr (rw pr_run silent)
    ]
  ]
