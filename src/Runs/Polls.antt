-- ===== src/Runs/Polls.antt =====
-- The poller's loop and tick, as runs.
use cognition_devin_automati.Settings.{Settings}
use cognition_devin_automati.World.{Env, State, Except, SessionDetails, raised, ok, Call}
use cognition_devin_automati.Orchestrator.Poll.{
  apply_remote, poll_row, sync, poll_rows, PollSummary, changed, is_stuck, is_merged,
}
use cognition_devin_automati.Orchestrator.{poll_once, poll_all}
use cognition_devin_automati.Prelude.{List, Bool-cases, ◌∷◌, [], inr, inl, or_else, refl}
use cognition_devin_automati.Sessions.{SessionRow, list_non_terminal}
use cognition_devin_automati.Runs.{Run, next, written, requested, Call}
use cognition_devin_automati.Orchestrator.Drain.{QueueSummary, drain_queue}
use cognition_devin_automati.Prelude.Texts.{Text, truthy}
use cognition_devin_automati.Runs.Events.{drain_queue-Run}

module _ (cfg : Settings) (env : Env) where
  sync-Run :
      {s : State} (row : SessionRow) (session_id : Text) (remote : SessionDetails) (p : PollSummary)
      (t : State)
      → Run cfg.max_fix_attempts s t
      → Run cfg.max_fix_attempts s (sync cfg env row session_id remote p t).1
  unfolding sync
  sync-Run row session_id remote p t run = elim (Bool-cases (changed row remote)) [
    | inr same ↦ rw same (next run (written row.id _))
    | inl differ ↦ rw differ (elim (Bool-cases (is_merged row remote)) [
      | inl merge ↦
          rw merge (
            next (next run (requested (Call.terminate_session session_id) refl)) (written row.id _))
      | inr rest ↦ rw rest (next run (written row.id _))
    ])
  ]

  apply_remote-Run :
      {s : State} (row : SessionRow) (session_id : Text) (answer : Except SessionDetails)
      (p : PollSummary) (t : State)
      → Run cfg.max_fix_attempts s t
      → Run cfg.max_fix_attempts s (apply_remote cfg env row session_id answer p t).1
  unfolding apply_remote
  apply_remote-Run row session_id (raised e) p t run = run
  apply_remote-Run row session_id (ok remote) p t run =
      elim (Bool-cases (is_stuck cfg row remote (env.now t))) [
        | inl stuck ↦ rw stuck (
            next (next run (requested (Call.terminate_session session_id) refl)) (written row.id _))
        | inr live ↦ rw live (sync-Run row session_id remote p t run)
      ]

  poll_row-Run :
      {s : State} (row : SessionRow) (p : PollSummary) (t : State)
      → Run cfg.max_fix_attempts s t
      → Run cfg.max_fix_attempts s (poll_row cfg env row p t).1
  unfolding poll_row
  poll_row-Run row p t run = elim (Bool-cases (truthy row.devin_session_id)) [
    | inr none_yet ↦ rw none_yet run
    | inl known ↦ rw known (
        apply_remote-Run row _ _ _ _
          (next run (requested (Call.get_session (or_else row.devin_session_id [])) refl)))
  ]

  poll_rows-Run :
      {s : State} (rows : List SessionRow) (p : PollSummary) (t : State)
      → Run cfg.max_fix_attempts s t
      → Run cfg.max_fix_attempts s (poll_rows cfg env rows p t).1
  unfolding poll_rows
  poll_rows-Run [] p t run = run
  poll_rows-Run (row ∷ rows) p t run = poll_rows-Run rows _ _ (poll_row-Run row p t run)

  poll_all-Run :
      {s : State} (client : Except (Unit {0})) (d : QueueSummary × State)
      → Run cfg.max_fix_attempts s d.1
      → Run cfg.max_fix_attempts s (poll_all cfg env client d).1
  unfolding poll_all
  poll_all-Run (raised e) (q, t) run = run
  poll_all-Run (ok _) (q, t) run = poll_rows-Run (list_non_terminal t.sessions) _ t run

  pub poll_once-Run : (s : State) → Run cfg.max_fix_attempts s (poll_once cfg env s).1
  unfolding poll_once
  poll_once-Run s = poll_all-Run _ (drain_queue cfg env s) (drain_queue-Run cfg env s)
