-- ===== src/Races/Numbers.antt =====
-- The attempt numbers under racing workers.
use cognition_devin_automati.Prelude.{ℕ, List, ◌∷◌, [], suc, arith, zero}
use cognition_devin_automati.Settings.{Settings}
use cognition_devin_automati.Races.{Worker, advance}
use cognition_devin_automati.World.{Env, State}
use cognition_devin_automati.Prelude.Threads.{step_at, interleave}
use cognition_devin_automati.Races.Moves.{Move, IsWithin, quiet, reserves, pays}
use cognition_devin_automati.Prelude.Lists.{All}
use cognition_devin_automati.Runs.Invariants.{WithinCap, Run-WithinCap, WithinCap-claimed}
use cognition_devin_automati.Runs.Quiet.{Quiet-Run}
use cognition_devin_automati.Races.Walk.{advance-Move}

module _ {cfg : Settings} where
  Move-WithinCap :
      {w : Worker} {s : State} {r : Worker × State}
      → Move cfg w s r
      → IsWithin cfg w
      → WithinCap cfg.max_fix_attempts s.sessions.rows
      → IsWithin cfg r.0 × WithinCap cfg.max_fix_attempts r.1.sessions.rows
  Move-WithinCap (quiet q h n within) i v = (within i, Run-WithinCap (Quiet-Run q) v)
  Move-WithinCap {s} (reserves r now free ahead fits holds rest plan) i v =
      (omega (arith, plan), WithinCap-claimed cfg.max_fix_attempts r now s.sessions (fits i) v)
  Move-WithinCap (pays req holds rest plan) i v = (omega (arith, plan), v)

module _ (cfg : Settings) (env : Env) where
  step_at-WithinCap :
      (i : ℕ) (ws : List Worker) (s : State)
      → All (IsWithin cfg) ws
      → WithinCap cfg.max_fix_attempts s.sessions.rows
      → let r = step_at (advance cfg env) i ws s in
        All (IsWithin cfg) r.0 × WithinCap cfg.max_fix_attempts r.1.sessions.rows
  unfolding step_at
  step_at-WithinCap i [] s h v = (tt, v)
  step_at-WithinCap zero (w ∷ ws) s h v =
      let step = Move-WithinCap (advance-Move cfg env w s) h.0 v in ((step.0, h.1), step.1)
  step_at-WithinCap (suc i) (w ∷ ws) s h v =
      let rest = step_at-WithinCap i ws s h.1 v in ((h.0, rest.0), rest.1)

  -- However threads race, no attempt number passes MAX_FIX_ATTEMPTS: where neither a row nor a
  -- worker that has read the last attempt has a number past it, no row has one after any schedule.
  pub interleave-WithinCap :
      (schedule : List ℕ) (ws : List Worker) (s : State)
      → All (IsWithin cfg) ws
      → WithinCap cfg.max_fix_attempts s.sessions.rows
      → WithinCap cfg.max_fix_attempts (interleave (advance cfg env) schedule ws s).1.sessions.rows
  unfolding interleave
  interleave-WithinCap [] ws s h v = v
  interleave-WithinCap (i ∷ schedule) ws s h v =
      let step = step_at-WithinCap i ws s h v in interleave-WithinCap schedule _ _ step.0 step.1
