-- ===== src/Prelude/Threads.antt =====
-- Threads whose steps interleave: `advance` takes a worker's code up to its next statement.
use Prim.Native.Nat.{ℕ, zero, suc}
use mathlib.Core.List.{List, [], ◌∷◌}

module _ {W S : Type 0} (advance : W → S → W × S) where
  -- The worker of this number takes one step.
  unfoldable pub step_at : ℕ → List W → S → List W × S
  step_at i [] s = ([], s)
  step_at zero (w ∷ ws) s = let (w', s') = advance w s in (w' ∷ ws, s')
  step_at (suc i) (w ∷ ws) s = let (ws', s') = step_at i ws s in (w ∷ ws', s')

  -- The workers step in the order that the threads are scheduled.
  unfoldable pub interleave : List ℕ → List W → S → List W × S
  unfolding step_at
  interleave [] ws s = (ws, s)
  interleave (i ∷ schedule) ws s = let (ws', s') = step_at i ws s in interleave schedule ws' s'
