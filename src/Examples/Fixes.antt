-- ===== src/Examples/Fixes.antt =====
-- The handler of a CI failure, the escalation and the poller.
use cognition_devin_automati.Examples.Data.{
  cfg, cfg_full, env, ci_run, running_row, flagged_row, fix_row, running_remote, exited_remote,
  state_of, two_rows, one_row,
}
use cognition_devin_automati.Orchestrator.Poll.{
  changed, is_closed, is_stuck, is_merged, apply_remote, first_pr_state, inactivity, since,
  no_polls,
}
use cognition_devin_automati.Handlers.CiFix.{
  handle_ci_failure, with_refs, with_pr, with_tracked, with_parent, with_commits,
}
use cognition_devin_automati.Status.{
  is_terminal, status_eq, needs_attention, is_working, running, completed, is_active,
}
use cognition_devin_automati.Handlers.CiFix.Guards.{Permitted}
use cognition_devin_automati.Outcomes.{is_queued, skipped_concurrency_cap}
use cognition_devin_automati.Orchestrator.Poll.Statuses.{
  status_of, next_status, apply_remote-status,
}
use cognition_devin_automati.Handlers.{get_client}
use cognition_devin_automati.Sessions.{
  get, find_active_children, find_by_pr, max_fix_attempt_for_parent, max_attempt, in_chain,
  count_active,
}
use cognition_devin_automati.Prelude.Texts.{text, starts_with, text_eq, member}
use cognition_devin_automati.Prelude.Lists.{find_by, sort_by, filter_by, count_by}
use cognition_devin_automati.Prelude.{
  ◌≡◌, ◌⊎◌, false, some, ◌∷◌, true, [], refl, or_else, ◌↔◌, map, ◌++◌,
}
use cognition_devin_automati.Runs.Invariants.{creates}
use cognition_devin_automati.World.{ok, Call}
use cognition_devin_automati.Handlers.CiFix.Dropped.{handle_ci_failure-not_queued}
use cognition_devin_automati.Handlers.CiFix.Permits.{handle_ci_failure_guarded}
use cognition_devin_automati.Handlers.Escalation.Stops.{escalate_to_human_stops, is_active_child}
use cognition_devin_automati.Handlers.Escalation.Cancels.{flagged, stopped, terminations}
use cognition_devin_automati.Orchestrator.Poll.Gaps.{flag_overwritten, merge_unseen}
use cognition_devin_automati.Github.{has_non_devin_commits, is_foreign}
use cognition_devin_automati.Handlers.Escalation.{escalate_to_human, escalation_pr_comment}

handle_ci_failure_guarded_example :
    Permitted cfg env ci_run one_row
    ⊎ (creates (handle_ci_failure cfg env ci_run one_row).1.trace ≡ creates one_row.trace)
handle_ci_failure_guarded_example = handle_ci_failure_guarded cfg env ci_run one_row

-- No session fits: the failure is skipped.
over_capacity : (handle_ci_failure cfg_full env ci_run one_row).0 ≡ ok (skipped_concurrency_cap 0)
unfolding handle_ci_failure with_refs with_pr with_tracked with_parent with_commits find_by_pr
    max_fix_attempt_for_parent has_non_devin_commits is_terminal text text_eq starts_with sort_by
    filter_by max_attempt in_chain is_foreign member count_active count_by is_active
over_capacity = refl

handle_ci_failure-not_queued_example : is_queued (skipped_concurrency_cap 0) ≡ false
handle_ci_failure-not_queued_example =
    handle_ci_failure-not_queued cfg_full env ci_run one_row (skipped_concurrency_cap 0)
      over_capacity

not_flagged : status_eq running_row.status needs_attention ≡ false
unfolding status_eq
not_flagged = refl

client_opened : get_client cfg ≡ ok tt
unfolding get_client text starts_with
client_opened = refl

escalate_to_human_stops_example :
    let t = (escalate_to_human cfg env running_row (text "o/r") 3 3 two_rows).1 in
    let rows = map (flagged running_row 3) two_rows.sessions.rows in
    let children = filter_by (is_active_child running_row.devin_session_id) rows in
    (t.sessions.rows ≡ map (stopped children) rows)
    × (find_active_children running_row.devin_session_id t.sessions ≡ [])
    × (t.trace
        ≡ Call.post_pr_comment (text "o/r") 3 (escalation_pr_comment 3 running_row.devin_url)
            ∷ terminations children
          ++ two_rows.trace)
escalate_to_human_stops_example =
    escalate_to_human_stops cfg env running_row (text "o/r") 3 3 two_rows not_flagged client_opened

running_stored : get 1 two_rows.sessions ≡ some running_row
unfolding get find_by
running_stored = refl

flagged_stored : get 1 (state_of (flagged_row ∷ fix_row ∷ [])).sessions ≡ some flagged_row
unfolding get find_by
flagged_stored = refl

apply_remote-status_example :
    status_of (
      get 1
        (apply_remote cfg env running_row
          (text "d1")
          (ok exited_remote)
          no_polls
          two_rows).1.sessions)
    ≡ some (or_else (next_status cfg running_row exited_remote 2_000_000_000) running)
apply_remote-status_example =
    apply_remote-status cfg env running_row (text "d1") exited_remote no_polls two_rows
      running_stored

pr_merged : is_merged running_row running_remote ≡ true
unfolding is_merged first_pr_state is_terminal text text_eq
pr_merged = refl

still_live : is_stuck cfg running_row running_remote 2_000_000_000 ≡ false
unfolding is_stuck inactivity since is_working
still_live = refl

merge_unseen_example :
    let t =
      (apply_remote cfg env running_row (text "d1") (ok running_remote) no_polls two_rows).1 in
    ((status_of (get 1 t.sessions) ≡ some completed) ↔ (changed running_row running_remote ≡ true))
    × ((changed running_row running_remote ≡ true)
        ⊎ ((status_of (get 1 t.sessions) ≡ some running) × (t.trace ≡ two_rows.trace)))
merge_unseen_example =
    merge_unseen cfg env running_row (text "d1") running_remote no_polls two_rows running_stored
      pr_merged still_live

session_over : is_terminal exited_remote.status ≡ true
unfolding is_terminal
session_over = refl

not_merged : is_merged flagged_row exited_remote ≡ false
unfolding is_merged first_pr_state is_terminal text text_eq
not_merged = refl

not_closed : is_closed flagged_row exited_remote ≡ false
unfolding is_closed first_pr_state is_terminal text text_eq
not_closed = refl

flag_overwritten_example :
    status_of (
      get 1
        (apply_remote cfg env flagged_row
          (text "d1")
          (ok exited_remote)
          no_polls
          (state_of (flagged_row ∷ fix_row ∷ []))).1.sessions)
    ≡ some completed
flag_overwritten_example =
    flag_overwritten cfg env flagged_row (text "d1") exited_remote no_polls
      (state_of (flagged_row ∷ fix_row ∷ [])) flagged_stored refl session_over not_merged not_closed
