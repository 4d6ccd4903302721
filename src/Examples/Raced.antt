-- ===== src/Examples/Raced.antt =====
-- Threads of both handlers.
use cognition_devin_automati.Races.Valid.{interleave-IsValid}
use cognition_devin_automati.Examples.Data.{
  one_row-IsValid, cfg, env, issue, one_row, state_of, running_row, ci_run,
}
use cognition_devin_automati.Handlers.{make_work_key, repo_full_name}
use cognition_devin_automati.Prelude.Texts.{text, text_eq, show_nat, show_digits}
use cognition_devin_automati.Prelude.Threads.{interleave}
use cognition_devin_automati.Races.{entered, finished, counted, received, advance}
use cognition_devin_automati.Races.Alone.{advance-Handled}
use cognition_devin_automati.Races.Paid.{interleave_paid_once, sent_by, works_on}
use cognition_devin_automati.Races.Overshoot.{interleave_overshoot}
use cognition_devin_automati.Sessions.{count_active, count_started_today, has_key}
use cognition_devin_automati.World.{State, Issue, ok}
use cognition_devin_automati.Handlers.Security.{security_key, issue_number}
use cognition_devin_automati.Prelude.Lists.{any_by, count_by}
use cognition_devin_automati.Prelude.{
  some, ◌∷◌, [], ◌<◌, ◌≡◌, map, suc, arith, false, ◌≤◌, refl, ◌++◌, if◌then◌else◌,
}
use cognition_devin_automati.Status.{is_active}
use cognition_devin_automati.Sessions.Claims.{is_taken}
use cognition_devin_automati.Sessions.Unique.{IsValid}
use cognition_devin_automati.Outcomes.{Outcome}
use cognition_devin_automati.Handlers.Security.Decisions.{Handled}

abbrev other_issue : Issue
other_issue = record issue { number = some 8 }

advance-Handled_example :
    let r = interleave (advance cfg env) (0 ∷ 0 ∷ 0 ∷ 0 ∷ 0 ∷ []) (entered issue ∷ []) one_row in
    (o : Outcome) × (r.0 ≡ finished (ok o) ∷ []) × Handled cfg env issue one_row o r.1
advance-Handled_example = advance-Handled cfg env issue one_row one_row-IsValid

interleave_paid_once_example :
    let ws = map entered (issue ∷ issue ∷ []) ++ map received (ci_run ∷ []) in
    sent_by cfg env
      (security_key cfg issue)
      (works_on cfg env (security_key cfg issue) ws)
      (0 ∷ 1 ∷ 2 ∷ 1 ∷ 0 ∷ 2 ∷ 0 ∷ 1 ∷ 0 ∷ 2 ∷ 0 ∷ 1 ∷ [])
      ws
      one_row
    ≤ (if is_taken (security_key cfg issue) one_row.sessions then 0 else 1)
interleave_paid_once_example =
    interleave_paid_once cfg env (security_key cfg issue) (issue ∷ issue ∷ []) (ci_run ∷ [])
      (0 ∷ 1 ∷ 2 ∷ 1 ∷ 0 ∷ 2 ∷ 0 ∷ 1 ∷ 0 ∷ 2 ∷ 0 ∷ 1 ∷ []) one_row

abbrev one_running : State
one_running = state_of (running_row ∷ [])

one_slot : suc (count_active one_running.sessions) ≡ 2
unfolding count_active count_by is_active
one_slot = omega arith

room_today : count_started_today 2_000_000_000 one_running.sessions < 5
unfolding count_started_today count_by
room_today = omega arith

first_free : is_taken (security_key cfg issue) one_running.sessions ≡ false
unfolding any_by has_key security_key make_work_key repo_full_name text text_eq issue_number
first_free = refl

second_free : is_taken (security_key cfg other_issue) one_running.sessions ≡ false
unfolding any_by has_key security_key make_work_key repo_full_name text text_eq issue_number
second_free = refl

keys_differ : text_eq (security_key cfg issue) (security_key cfg other_issue) ≡ false
unfolding security_key make_work_key repo_full_name text text_eq issue_number show_nat show_digits
keys_differ = refl

interleave_overshoot_example :
    count_active
      (interleave
        (advance cfg env)
        (0 ∷ 1 ∷ 0 ∷ 1 ∷ 0 ∷ 1 ∷ [])
        (entered issue ∷ entered other_issue ∷ [])
        one_running).1.sessions
    ≡ 3
interleave_overshoot_example =
    interleave_overshoot cfg env issue other_issue one_running one_slot room_today first_free
      second_free keys_differ

interleave-IsValid_example :
    IsValid
      (interleave
        (advance cfg env)
        (0 ∷ 1 ∷ 2 ∷ 0 ∷ 1 ∷ 2 ∷ 2 ∷ [])
        (entered issue ∷ counted other_issue ∷ received ci_run ∷ [])
        one_row).1.sessions
interleave-IsValid_example =
    interleave-IsValid cfg env (0 ∷ 1 ∷ 2 ∷ 0 ∷ 1 ∷ 2 ∷ 2 ∷ [])
      (entered issue ∷ counted other_issue ∷ received ci_run ∷ []) one_row one_row-IsValid
