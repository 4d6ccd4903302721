-- ===== src/Orchestrator/Poll.antt =====
-- The loop of poll_once of app/orchestrator.py, row by row. Times are in microseconds.
pub mod Statuses
pub mod Gaps
use cognition_devin_automati.Prelude.{
  ℕ, ◌+◌, ◌-◌, ◌*◌, ◌/◌, Bool, true, false, ◌||◌, ◌&&◌, not, Option, none, some, List, [], ◌∷◌,
  ◌++◌, ltb, ◌==◌, if◌then◌else◌, or_else, is_some,
}
use cognition_devin_automati.Prelude.Texts.{Text, text, text_eq, holds_text, truthy, show_nat}
use cognition_devin_automati.Settings.{Settings}
use cognition_devin_automati.Status.{
  timeout, completed, cancelled, is_terminal, is_working, status_eq,
}
use cognition_devin_automati.Sessions.{
  SessionRow, PullRequestRef, Assign, set_status, set_raw_status, set_pr_url, set_error_message,
  set_structured_output, set_pr_urls, set_acus_consumed, set_completed_at, set_last_polled_at,
  update,
}
use cognition_devin_automati.World.{Except, ok, raised, SessionDetails, Call, Env, State}

pub record PollSummary : Type 0 where
  pub polled : ℕ
  pub updated : ℕ
  pub timed_out : ℕ
  pub errors : ℕ
  pub merged : ℕ

unfoldable pub no_polls : PollSummary
no_polls = record { polled = 0; updated = 0; timed_out = 0; errors = 0; merged = 0 }

-- `a != b` of two texts or Nones
unfoldable pub differs : Option Text → Option Text → Bool
differs none none = false
differs none (some t) = true
differs (some s) none = true
differs (some s) (some t) = not (text_eq s t)

unfoldable pub first_pr_url : List PullRequestRef → Option Text
first_pr_url [] = none
first_pr_url (p ∷ ps) = some p.pr_url

unfoldable pub first_pr_state : List PullRequestRef → Option Text
first_pr_state [] = none
first_pr_state (p ∷ ps) = p.pr_state

-- now - t; a time that is not in the past gives 0, which is over no limit.
unfoldable pub since : Option ℕ → ℕ → ℕ → ℕ
since none fallback now = now - fallback
since (some u) fallback now = if u == 0 then now - fallback else now - u * 1_000_000

unfoldable pub inactivity : SessionRow → SessionDetails → ℕ → ℕ
unfolding since
inactivity row remote now = since remote.updated_at (or_else row.last_polled_at row.started_at) now

unfoldable pub is_stuck : Settings → SessionRow → SessionDetails → ℕ → Bool
unfolding inactivity
is_stuck cfg row remote now =
    is_working remote.status
    && ltb (cfg.session_timeout_seconds * 1_000_000) (inactivity row remote now)

unfoldable pub changed : SessionRow → SessionDetails → Bool
unfolding differs first_pr_url
changed row remote =
    not (status_eq remote.status row.status)
    || (differs (some remote.raw_status) row.raw_status
        || (differs (first_pr_url remote.pull_requests) row.pr_url
            || (not (remote.acus_consumed == row.acus_consumed)
                || differs remote.structured_output row.structured_output_json)))

unfoldable pub pr_updates : List PullRequestRef → List Assign
pr_updates [] = []
pr_updates (p ∷ ps) = set_pr_url p.pr_url ∷ set_pr_urls (p ∷ ps) ∷ []

unfoldable pub output_updates : Option Text → List Assign
output_updates none = []
output_updates (some json) = set_structured_output json ∷ []

-- The dict `updates` before the PR's state is looked at.
unfoldable pub base_updates : SessionDetails → ℕ → List Assign
unfolding pr_updates output_updates
base_updates remote now =
    set_status remote.status
    ∷ set_raw_status remote.raw_status
    ∷ set_acus_consumed remote.acus_consumed
    ∷ set_last_polled_at now
    ∷ (pr_updates remote.pull_requests ++ output_updates remote.structured_output)

unfoldable pub is_merged : SessionRow → SessionDetails → Bool
unfolding first_pr_state text
is_merged row remote =
    holds_text (first_pr_state remote.pull_requests) (text "merged") && not (is_terminal row.status)

unfoldable pub is_closed : SessionRow → SessionDetails → Bool
unfolding first_pr_state text
is_closed row remote =
    holds_text (first_pr_state remote.pull_requests) (text "closed") && not (is_terminal row.status)

unfoldable pub write : SessionRow → List Assign → State → State
write row changes s = record s { sessions = update row.id changes s.sessions }

unfoldable pub terminated : Text → State → State
terminated session_id s = record s { trace = Call.terminate_session session_id ∷ s.trace }

-- The writes at the end of the update; the later assignment of a column wins.
unfoldable pub final_updates : SessionRow → SessionDetails → ℕ → List Assign
unfolding text
final_updates row remote now =
    if is_closed row remote
    then set_status cancelled
      ∷ set_error_message (text "pr_closed_without_merge")
      ∷ set_completed_at now
      ∷ []
    else if is_terminal remote.status && not (is_some row.completed_at)
    then set_completed_at now ∷ []
    else []

module _ (cfg : Settings) (env : Env) where
  unfoldable pub time_out :
      SessionRow → Text → SessionDetails → PollSummary → State → PollSummary × State
  unfolding write terminated text
  time_out row session_id remote p s =
      let idle = inactivity row remote (env.now s) in
      let s' = terminated session_id s in
      let now = env.now s' in
      (
        record p { timed_out = p.timed_out + 1 },
        write row
            (set_status timeout
              ∷ set_error_message
                  (text "inactive for " ++ (show_nat (idle / 1_000_000) ++ text "s"))
              ∷ set_completed_at now
              ∷ set_last_polled_at now
              ∷ [])
            s',
      )

  -- A merged PR: the session is terminated and the row completed, whatever Devin says.
  unfoldable pub sync_merged :
      SessionRow → Text → SessionDetails → PollSummary → State → PollSummary × State
  unfolding write terminated
  sync_merged row session_id remote p s =
      let s' = terminated session_id s in
      (
        record p { updated = p.updated + 1; merged = p.merged + 1 },
        write row
            (base_updates remote (env.now s)
              ++ (set_status completed ∷ set_completed_at (env.now s') ∷ []))
            s',
      )

  -- The diff-aware update.
  unfoldable pub sync :
      SessionRow → Text → SessionDetails → PollSummary → State → PollSummary × State
  unfolding write sync_merged
  sync row session_id remote p s =
      if not (changed row remote)
      then (p, write row (set_last_polled_at (env.now s) ∷ []) s)
      else if is_merged row remote
      then sync_merged row session_id remote p s
      else (
        record p { updated = p.updated + 1 },
        write row (base_updates remote (env.now s) ++ final_updates row remote (env.now s)) s,
      )

  unfoldable pub apply_remote :
      SessionRow → Text → Except SessionDetails → PollSummary → State → PollSummary × State
  unfolding time_out sync
  apply_remote row session_id (raised e) p s = (record p { errors = p.errors + 1 }, s)
  apply_remote row session_id (ok remote) p s =
      if is_stuck cfg row remote (env.now s)
      then time_out row session_id remote p s
      else sync row session_id remote p s

  unfoldable pub poll_row : SessionRow → PollSummary → State → PollSummary × State
  unfolding apply_remote
  poll_row row p s =
      if not (truthy row.devin_session_id)
      then (p, s)
      else let session_id = or_else row.devin_session_id [] in
        apply_remote row session_id (env.get_session s.trace session_id)
          (record p { polled = p.polled + 1 })
          (record s { trace = Call.get_session session_id ∷ s.trace })

  unfoldable pub poll_rows : List SessionRow → PollSummary → State → PollSummary × State
  unfolding poll_row
  poll_rows [] p s = (p, s)
  poll_rows (row ∷ rows) p s = let (p', s') = poll_row row p s in poll_rows rows p' s'
