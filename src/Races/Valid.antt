-- ===== src/Races/Valid.antt =====
-- The table under racing workers.
use cognition_devin_automati.Settings.{Settings}
use cognition_devin_automati.Sessions.Unique.{IsValid, claimed-IsValid}
use cognition_devin_automati.World.{Env, State}
use cognition_devin_automati.Prelude.Threads.{interleave, step_at}
use cognition_devin_automati.Races.{Worker, advance}
use cognition_devin_automati.Prelude.{ℕ, List, ◌∷◌, suc, [], zero}
use cognition_devin_automati.Races.Moves.{Move, quiet, reserves, pays}
use cognition_devin_automati.Races.Walk.{advance-Move}
use cognition_devin_automati.Runs.Invariants.{Run-IsValid}
use cognition_devin_automati.Runs.Quiet.{Quiet-Run}

Move-IsValid :
    {cfg : Settings} {w : Worker} {s : State} {r : Worker × State}
    → Move cfg w s r
    → IsValid s.sessions
    → IsValid r.1.sessions
Move-IsValid {cfg} (quiet q h n within) v = Run-IsValid (Quiet-Run {cap = cfg.max_fix_attempts} q) v
Move-IsValid {s} (reserves r now free ahead fits holds rest plan) v =
    claimed-IsValid r now s.sessions free v
Move-IsValid (pays req holds rest plan) v = v

module _ (cfg : Settings) (env : Env) where
  step_at-IsValid :
      (i : ℕ) (ws : List Worker) (s : State)
      → IsValid s.sessions
      → IsValid (step_at (advance cfg env) i ws s).1.sessions
  unfolding step_at
  step_at-IsValid i [] s v = v
  step_at-IsValid zero (w ∷ ws) s v = Move-IsValid (advance-Move cfg env w s) v
  step_at-IsValid (suc i) (w ∷ ws) s v = step_at-IsValid i ws s v

  -- Whatever workers race, wherever each of them stands, and in whatever order they step, the table
  -- keeps its work keys and ids unique and its ids below the next one.
  pub interleave-IsValid :
      (schedule : List ℕ) (ws : List Worker) (s : State)
      → IsValid s.sessions
      → IsValid (interleave (advance cfg env) schedule ws s).1.sessions
  unfolding interleave
  interleave-IsValid [] ws s v = v
  interleave-IsValid (i ∷ schedule) ws s v =
      let r = step_at (advance cfg env) i ws s in
      interleave-IsValid schedule r.0 r.1 (step_at-IsValid i ws s v)
