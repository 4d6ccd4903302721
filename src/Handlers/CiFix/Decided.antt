-- ===== src/Handlers/CiFix/Decided.antt =====
-- The branches of handle_ci_failure beside its decision table.
use cognition_devin_automati.Prelude.{
  ℕ, ◌≡◌, Option, true, Bool-cases, List, inr, ◌+◌, ◌<◌, ◌∷◌, inl, false, leb, some, leb→le, ◌==◌,
  leb_false→lt, ==_iff, or_else, [], Option-cases, refl, none,
}
use cognition_devin_automati.Settings.{Settings}
use cognition_devin_automati.World.{
  Env, WorkflowRun, State, Except, PullRequest, raised, Commit, CreateRequest, ok, Call,
  SessionCreated,
}
use cognition_devin_automati.Handlers.CiFix.{
  with_pr, with_refs, handle_ci_failure, with_tracked, Fix, reserve_and_fix, with_commits,
  with_parent, claimed_fix, fix_reservation,
}
use cognition_devin_automati.Outcomes.{Outcome}
use cognition_devin_automati.Sessions.{
  SessionRow, Assign, reserved_row, assign_all, mark_failed, update, count_active, find_by_pr,
}
use cognition_devin_automati.Prelude.Texts.{holds_text, text, starts_with}
use cognition_devin_automati.Sessions.Unique.{IsValid, rows-update-claimed}
use cognition_devin_automati.Handlers.CiFix.Decisions.{
  created, Names, FixHandled, Found, highest, after_commits, Free, after_pr, no_pr,
  not_pr_triggered, ci_key, parent_alive, not_fetched, no_number, commits_not_fetched, exhausted,
  after_logs, request_of, no_such_pr, AddedFix, known, human_pushed, not_created, full,
  other_branch, untracked,
}
use cognition_devin_automati.Handlers.CiFix.Guards.{run_repo, fix_of, pr_url_of}
use cognition_devin_automati.Status.{is_terminal}
use cognition_devin_automati.Sessions.Claims.{
  is_taken, claimed, try_reserve-taken, try_reserve-free, assign_all-SameIdentity,
}
use cognition_devin_automati.Handlers.{open_session, creation_result, with_client, get_client}
use cognition_devin_automati.Github.{has_non_devin_commits}

module _ (cfg : Settings) (env : Env) (run : WorkflowRun) (s : State) where
  abbrev Decides : Except Outcome × State → Type 0
  Decides (o, t) = FixHandled cfg env run s o t

  abbrev Settles : Outcome × State → Type 0
  Settles (o, t) = FixHandled cfg env run s (ok o) t

  module _ (n : ℕ) (pr : PullRequest) (parent : SessionRow) (named : Names cfg env run s n)
      (found : Found cfg env run s n pr parent) where
    abbrev attempt : ℕ
    attempt = highest cfg env run s parent + 1

    abbrev the_fix : Fix
    the_fix = fix_of cfg run n pr

    abbrev now : ℕ
    now = env.now (record s { trace = after_commits cfg env run s n })

    abbrev at_commits : State
    at_commits = record s { trace = after_commits cfg env run s n }

    module _ (room : Free cfg env run s n parent)
        (free : is_taken (ci_key cfg env run s) s.sessions ≡ false) (v : IsValid s.sessions) where
      abbrev with_claim : State
      with_claim = record {
        sessions = claimed (fix_reservation the_fix parent attempt) now s.sessions;
        events = s.events;
        trace = after_logs cfg env run s n;
      }

      abbrev row_after : List Assign → SessionRow
      row_after changes =
          assign_all changes
            (reserved_row (fix_reservation the_fix parent attempt) s.sessions.next_id now)

      AddedFix-update :
          (changes : List Assign) (calls : List Call)
          → AddedFix cfg env run s parent
              (record {
                sessions = update s.sessions.next_id changes with_claim.sessions;
                events = s.events;
                trace = calls;
              })
              (row_after changes)
      unfolding reserved_row fix_reservation
      AddedFix-update changes calls =
          let same =
            assign_all-SameIdentity changes
              (reserved_row (fix_reservation the_fix parent attempt) s.sessions.next_id now) in
          record {
            rows =
                rows-update-claimed changes (fix_reservation the_fix parent attempt) now s.sessions
                  v;
            work_key = same.work_key;
            was_free = free;
            attempt = same.fix_attempt_number;
            of_parent = same.parent;
            events = refl;
          }

      abbrev the_request : CreateRequest
      the_request = request_of cfg env run s n pr parent

      result-Decided :
          (answer : Except SessionCreated)
          → env.create_session (after_logs cfg env run s n) the_request ≡ answer
          → Settles (
              creation_result cfg env answer the_request s.sessions.next_id (record with_claim {
                trace = Call.create_session the_request ∷ after_logs cfg env run s n;
              }))
      unfolding creation_result mark_failed assign_all
      result-Decided (raised e) answered =
          not_created n pr parent _ e named found room (AddedFix-update _ _) refl refl
            (inr (answered, refl))
      result-Decided (ok session) answered =
          created n pr parent _ session named found room (AddedFix-update _ _) refl refl answered
            refl refl

      client-Decided :
          (client : Except (Unit {0}))
          → get_client cfg ≡ client
          → Settles (with_client cfg env client the_request s.sessions.next_id with_claim)
      unfolding with_client mark_failed assign_all
      client-Decided (raised e) opened =
          not_created n pr parent _ e named found room (AddedFix-update _ _) refl refl
            (inl (opened, refl))
      client-Decided (ok _) opened = result-Decided _ refl

    reserve-Decided :
        Free cfg env run s n parent
        → IsValid s.sessions
        → Settles (reserve_and_fix cfg env the_fix parent attempt at_commits)
    unfolding reserve_and_fix claimed_fix open_session
    reserve-Decided room v =
        let r = fix_reservation the_fix parent attempt in
        elim (Bool-cases (is_taken (ci_key cfg env run s) s.sessions)) [
          | inl taken ↦
              rw (try_reserve-taken r now s.sessions (unfold fix_reservation in taken))
                (known n pr parent named found room taken refl refl)
          | inr free ↦
              rw (try_reserve-free r now s.sessions (unfold fix_reservation in free))
                (client-Decided room free v (get_client cfg) refl)
        ]

    commits-Decided :
        is_terminal parent.status ≡ true
        → highest cfg env run s parent < cfg.max_fix_attempts
        → IsValid s.sessions
        → (answer : Except (List Commit))
        → env.list_pr_commits (after_pr cfg env run s n) (run_repo cfg run) n ≡ answer
        → Settles (with_commits cfg env answer the_fix parent attempt at_commits)
    unfolding with_commits
    commits-Decided over below v (raised e) listed =
        commits_not_fetched n pr parent e named found listed refl refl
    commits-Decided over below v (ok commits) listed =
        elim (Bool-cases (has_non_devin_commits cfg.devin_bot_logins commits)) [
          | inl human ↦
              rw human (human_pushed n pr parent commits named found listed human refl refl)
          | inr bots ↦
              rw bots
                (elim (Bool-cases (leb cfg.max_concurrent_sessions (count_active s.sessions))) [
                  | inl none_left ↦
                      rw none_left (full n pr parent named found (leb→le _ _ none_left) refl refl)
                  | inr left ↦ rw left (
                      reserve-Decided
                        (record {
                          over = over;
                          below = below;
                          commits = commits;
                          listed = listed;
                          no_human = bots;
                          room = leb_false→lt _ _ left;
                        })
                        v)
                ])
        ]

    parent-Decided :
        IsValid s.sessions
        → Decides
            (with_parent cfg env the_fix parent (record s { trace = after_pr cfg env run s n }))
    unfolding with_parent
    parent-Decided v = elim (Bool-cases (is_terminal parent.status)) [
      | inr alive ↦ rw alive (parent_alive n pr parent named found alive refl refl)
      | inl over ↦
          rw over (elim (Bool-cases (leb cfg.max_fix_attempts (highest cfg env run s parent))) [
            | inl spent ↦ rw spent (exhausted n pr parent named found over (leb→le _ _ spent) refl)
            | inr left ↦ rw left (commits-Decided over (leb_false→lt _ _ left) v _ refl)
          ])
    ]

  pr-Decided :
      (n : ℕ)
      → Names cfg env run s n
      → IsValid s.sessions
      → (answer : Except (Option PullRequest)) → env.get_pr s.trace (run_repo cfg run) n ≡ answer
      → Decides (
          with_pr cfg env answer
            (run_repo cfg run)
            run
            n
            (record s { trace = after_pr cfg env run s n }))
  unfolding with_pr with_tracked
  pr-Decided n named v (raised e) fetched = not_fetched n e named fetched refl refl
  pr-Decided n named v (ok none) fetched = no_such_pr n named fetched refl refl
  pr-Decided n named v (ok (some pr)) fetched =
      elim (Bool-cases (starts_with (text "devin/") (or_else pr.head_ref []))) [
        | inr other ↦ rw other (other_branch n pr named fetched other refl refl)
        | inl devin ↦ rw devin (elim (Option-cases (find_by_pr (pr_url_of pr) s.sessions)) [
          | inl absent ↦ rw absent (untracked n pr named fetched absent refl refl)
          | inr (parent, tracked) ↦ rw tracked (
              parent-Decided n pr parent named
                (record { fetched = fetched; devin_branch = devin; tracked = tracked }) v)
        ])
      ]

  refs-Decided :
      holds_text run.event (text "pull_request") ≡ true
      → IsValid s.sessions
      → (refs : List (Option ℕ)) → run.pull_request_numbers ≡ refs
      → Decides (with_refs cfg env refs run s)
  unfolding with_refs
  refs-Decided triggered v [] listed = no_pr listed refl refl
  refs-Decided triggered v (none ∷ refs) listed = no_number none refs listed refl refl refl
  refs-Decided triggered v (some n ∷ refs) listed = elim (Bool-cases (n == 0)) [
    | inl nil ↦ rw nil (no_number (some n) refs listed ((==_iff n 0).0 nil) refl refl)
    | inr given ↦ rw given (pr-Decided n (triggered, ((refs, listed), given)) v _ refl)
  ]

  -- On a table that meets its constraints handle_ci_failure does what its table says. Up to the
  -- commits each guard that stops it leaves the tables as they are, with no request but those for
  -- the pull request and its commits; below the cap but out of slots, or on a claimed work key, it
  -- skips likewise; at the cap its end is the escalation's. Else it adds exactly one row with the
  -- run's work key, the parent's session id and the attempt number past the highest one. The row is
  -- failed where the client or the request raises, and pending, with Devin's session id, after the
  -- one request for a session.
  pub handle_ci_failure-FixHandled :
      IsValid s.sessions
      → FixHandled cfg env run s
          (handle_ci_failure cfg env run s).0
          (handle_ci_failure cfg env run s).1
  unfolding handle_ci_failure
  handle_ci_failure-FixHandled v = elim (Bool-cases (holds_text run.event (text "pull_request"))) [
    | inr other ↦ rw other (not_pr_triggered other refl refl)
    | inl triggered ↦ rw triggered (refs-Decided triggered v run.pull_request_numbers refl)
  ]
