-- ===== src/Examples/Fixing.antt =====
-- Threads of the handler of a CI failure.
use cognition_devin_automati.Prelude.{some, ◌∷◌, ◌≡◌, ◌<◌, [], arith, refl, false, ◌≤◌, ◌+◌}
use cognition_devin_automati.Sessions.Chains.{fixes_of}
use cognition_devin_automati.Sessions.{
  count_active, max_fix_attempt_for_parent, max_attempt, find_by_pr, has_key, in_chain,
}
use cognition_devin_automati.Settings.{Settings}
use cognition_devin_automati.World.{WorkflowRun, State, ok, Except}
use cognition_devin_automati.Prelude.Texts.{
  text, text_eq, starts_with, show_opt_nat, show_nat, show_digits, member,
}
use cognition_devin_automati.Handlers.CiFix.{handle_ci_failure}
use cognition_devin_automati.Prelude.Threads.{interleave}
use cognition_devin_automati.Races.{received, finished, advance, found_parent}
use cognition_devin_automati.Prelude.Lists.{count_by, any_by, filter_by, sort_by}
use cognition_devin_automati.Examples.Data.{
  cfg, ci_run, env, one_row, completed_row, pull, one_row-IsValid, two_rows, state_of, fix_row,
}
use cognition_devin_automati.Status.{is_active, is_terminal, status_eq, needs_attention}
use cognition_devin_automati.Handlers.{make_ci_fix_work_key, get_client}
use cognition_devin_automati.Handlers.CiFix.Guards.{fix_of}
use cognition_devin_automati.Races.Attempts.{IsFixable, interleave_fix_overshoot, fix_key}
use cognition_devin_automati.Github.{has_non_devin_commits, is_foreign}
use cognition_devin_automati.Races.Fixing.{advance-FixHandled}
use cognition_devin_automati.Handlers.CiFix.Decisions.{FixHandled}
use cognition_devin_automati.Handlers.CiFix.Decided.{handle_ci_failure-FixHandled}
use cognition_devin_automati.Runs.Invariants.{WithinCap}
use cognition_devin_automati.Races.Numbers.{interleave-WithinCap}
use cognition_devin_automati.Races.Escalations.{comments, interleave_escalates_twice}
use cognition_devin_automati.Outcomes.{Outcome}

advance-FixHandled_example :
    let r =
      interleave
        (advance cfg env)
        (0 ∷ 0 ∷ 0 ∷ 0 ∷ 0 ∷ 0 ∷ 0 ∷ 0 ∷ [])
        (received ci_run ∷ [])
        one_row in
    (o : Except Outcome) × (r.0 ≡ finished o ∷ []) × FixHandled cfg env ci_run one_row o r.1
advance-FixHandled_example = advance-FixHandled cfg env ci_run one_row one_row-IsValid

handle_ci_failure-FixHandled_example :
    FixHandled cfg env ci_run one_row
      (handle_ci_failure cfg env ci_run one_row).0
      (handle_ci_failure cfg env ci_run one_row).1
handle_ci_failure-FixHandled_example =
    handle_ci_failure-FixHandled cfg env ci_run one_row one_row-IsValid

-- One fix is allowed.
abbrev cfg_once : Settings
cfg_once = record cfg { max_fix_attempts = 1 }

abbrev other_run : WorkflowRun
other_run = record ci_run { id = some 10 }

ci_run-IsFixable : IsFixable cfg_once env pull 3 completed_row ci_run one_row.sessions
unfolding text text_eq starts_with find_by_pr sort_by filter_by is_terminal has_non_devin_commits
    is_foreign member any_by has_key make_ci_fix_work_key show_opt_nat show_nat show_digits
ci_run-IsFixable = record {
  pr_triggered = refl;
  numbered = refl;
  not_zero = refl;
  fetched = λ trace. refl;
  devin_branch = refl;
  tracked = refl;
  parent_over = refl;
  commits = _;
  listed = λ trace. refl;
  no_human = refl;
  unclaimed = refl;
}

other_run-IsFixable : IsFixable cfg_once env pull 3 completed_row other_run one_row.sessions
unfolding text text_eq any_by has_key make_ci_fix_work_key show_opt_nat show_nat show_digits
other_run-IsFixable = record {
  pr_triggered = ci_run-IsFixable.pr_triggered;
  numbered = refl;
  not_zero = refl;
  fetched = λ trace. refl;
  devin_branch = ci_run-IsFixable.devin_branch;
  tracked = ci_run-IsFixable.tracked;
  parent_over = ci_run-IsFixable.parent_over;
  commits = ci_run-IsFixable.commits;
  listed = ci_run-IsFixable.listed;
  no_human = ci_run-IsFixable.no_human;
  unclaimed = refl;
}

keys_apart :
    text_eq (fix_key (fix_of cfg_once ci_run 3 pull)) (fix_key (fix_of cfg_once other_run 3 pull))
    ≡ false
unfolding text text_eq make_ci_fix_work_key show_opt_nat show_nat show_digits
keys_apart = refl

no_attempt : max_fix_attempt_for_parent completed_row.devin_session_id one_row.sessions ≡ 0
unfolding max_fix_attempt_for_parent max_attempt filter_by in_chain text text_eq
no_attempt = refl

no_fix : fixes_of (text "d1") one_row.sessions ≡ 0
unfolding fixes_of count_by
no_fix = refl

none_active : count_active one_row.sessions < 2
unfolding count_active count_by is_active
none_active = omega arith

interleave_fix_overshoot_example :
    fixes_of
      (text "d1")
      (interleave
        (advance cfg_once env)
        (0 ∷ 1 ∷ 0 ∷ 1 ∷ 0 ∷ 1 ∷ 0 ∷ 1 ∷ 0 ∷ 1 ∷ [])
        (received ci_run ∷ received other_run ∷ [])
        one_row).1.sessions
    ≡ 2
interleave_fix_overshoot_example =
    interleave_fix_overshoot cfg_once env pull 3 completed_row (text "d1") ci_run other_run one_row
      refl ci_run-IsFixable other_run-IsFixable keys_apart (omega (arith, no_attempt))
      (omega (arith, no_fix)) none_active

interleave-WithinCap_example :
    WithinCap 3
      (interleave
        (advance cfg env)
        (0 ∷ 1 ∷ 0 ∷ 1 ∷ 0 ∷ 1 ∷ 0 ∷ 1 ∷ [])
        (received ci_run ∷ received other_run ∷ [])
        two_rows).1.sessions.rows
interleave-WithinCap_example =
    interleave-WithinCap cfg env (0 ∷ 1 ∷ 0 ∷ 1 ∷ 0 ∷ 1 ∷ 0 ∷ 1 ∷ [])
      (received ci_run ∷ received other_run ∷ []) two_rows (omega arith, (omega arith, tt))
      (omega arith, (omega arith, tt))

unflagged : status_eq completed_row.status needs_attention ≡ false
unfolding status_eq
unflagged = refl

client_there : get_client cfg_once ≡ ok tt
unfolding get_client text starts_with
client_there = refl

-- A completed session with the one fix that is allowed.
abbrev used_up : State
used_up = state_of (completed_row ∷ record fix_row { fix_attempt_number = 1 } ∷ [])

one_attempt : 1 ≤ max_fix_attempt_for_parent completed_row.devin_session_id used_up.sessions
unfolding max_fix_attempt_for_parent max_attempt filter_by in_chain text text_eq
one_attempt = omega arith

interleave_escalates_twice_example :
    comments
      (interleave
        (advance cfg_once env)
        (0 ∷ 1 ∷ [])
        (found_parent (fix_of cfg_once ci_run 3 pull) completed_row
          ∷ found_parent (fix_of cfg_once other_run 3 pull) completed_row
          ∷ [])
        used_up).1.trace
    ≡ comments used_up.trace + 2
interleave_escalates_twice_example =
    interleave_escalates_twice cfg_once env (fix_of cfg_once ci_run 3 pull)
      (fix_of cfg_once other_run 3 pull) completed_row used_up unflagged client_there one_attempt
