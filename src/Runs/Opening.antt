-- ===== src/Runs/Opening.antt =====
-- The end of both handlers, from the reserved row on, as a run.
use cognition_devin_automati.Prelude.{ℕ, ◌≡◌, false}
use cognition_devin_automati.Settings.{Settings}
use cognition_devin_automati.Sessions.{Reservation, mark_failed}
use cognition_devin_automati.Sessions.Claims.{claimed, is_taken}
use cognition_devin_automati.World.{Except, ok, raised, SessionCreated, CreateRequest, Env, State}
use cognition_devin_automati.Handlers.{open_session, with_client, creation_result}
use cognition_devin_automati.Runs.{Run, next, written, reserved, paid}
use cognition_devin_automati.Sessions.Chains.{IsNumbered}

-- The state behind a reservation.
abbrev pub with_row : Reservation → ℕ → State → State
with_row r now s = record s { sessions = claimed r now s.sessions }

module _ (cfg : Settings) (env : Env) (req : CreateRequest) (pk : ℕ) where
  creation_result-Run :
      {s t : State} (answer : Except SessionCreated)
      → Run cfg.max_fix_attempts s t
      → Run cfg.max_fix_attempts s (creation_result cfg env answer req pk t).1
  unfolding creation_result mark_failed
  creation_result-Run (raised e) run = next run (written pk _)
  creation_result-Run (ok created) run = next run (written pk _)

  with_client-Run :
      {s t : State} (client : Except (Unit {0})) (r : Reservation) (now : ℕ)
      → Run cfg.max_fix_attempts s t
      → is_taken r.work_key t.sessions ≡ false
      → IsNumbered cfg.max_fix_attempts r t.sessions
      → Run cfg.max_fix_attempts s (with_client cfg env client req pk (with_row r now t)).1
  unfolding with_client mark_failed
  with_client-Run (raised e) r now run free fits =
      next (next run (reserved r now free fits)) (written pk _)
  with_client-Run (ok _) r now run free fits =
      creation_result-Run _ (next run (paid r now req free fits))

  pub open_session-Run :
      {s t : State} (r : Reservation) (now : ℕ)
      → Run cfg.max_fix_attempts s t
      → is_taken r.work_key t.sessions ≡ false
      → IsNumbered cfg.max_fix_attempts r t.sessions
      → Run cfg.max_fix_attempts s (open_session cfg env req pk (with_row r now t)).1
  unfolding open_session
  open_session-Run r now run free fits = with_client-Run _ r now run free fits
