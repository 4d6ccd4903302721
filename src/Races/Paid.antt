-- ===== src/Races/Paid.antt =====
-- What racing workers spend on one work key.
use cognition_devin_automati.Prelude.{
  ℕ, List, ◌∷◌, ◌≡◌, ◌≤◌, ◌+◌, arith, [], true, map, suc, ◌++◌, refl, zero, Option, Bool, false,
  if◌then◌else◌, some, none, ◌-◌, Bool-cases, inl, inr,
}
use cognition_devin_automati.Prelude.Texts.{Text, member, text_eq}
use cognition_devin_automati.Races.{Worker, received, entered, advance}
use cognition_devin_automati.Settings.{Settings}
use cognition_devin_automati.World.{Env, WorkflowRun, Issue, State}
use cognition_devin_automati.Races.Moves.{holding, key_ahead, IsAmong}
use cognition_devin_automati.Sessions.{Table}
use cognition_devin_automati.Prelude.Threads.{step_at}
use cognition_devin_automati.Races.Charge.{
  budget, Move-IsAmong, Move-charge, Move-creates, Move-budget,
}
use cognition_devin_automati.Sessions.Claims.{is_taken}
use cognition_devin_automati.Runs.Invariants.{creates}
use cognition_devin_automati.Races.Walk.{advance-Move}

abbrev pub is_key : Text → Option Text → Bool
is_key key none = false
is_key key (some k) = text_eq k key

abbrev total : List Worker → ℕ
total [] = 0
total (w ∷ ws) = holding w + total ws

module _ (cfg : Settings) (env : Env) (key : Text) where
  -- Whether the thread of this number starts with an event that has the work key.
  abbrev pub works_on : List Worker → ℕ → Bool
  works_on [] i = false
  works_on (w ∷ ws) zero = is_key key (key_ahead cfg w)
  works_on (w ∷ ws) (suc i) = works_on ws i

  -- The requests for a paid session that some threads send in a schedule.
  abbrev pub sent_by : (ℕ → Bool) → List ℕ → List Worker → State → ℕ
  sent_by mine [] ws s = 0
  sent_by mine (i ∷ schedule) ws s =
      let r = step_at (advance cfg env) i ws s in
      (if mine i then creates r.1.trace - creates s.trace else 0) + sent_by mine schedule r.0 r.1

  -- The requests that some threads may still send behind their rows.
  abbrev held_by : (ℕ → Bool) → List Worker → ℕ
  held_by mine [] = 0
  held_by mine (w ∷ ws) = (if mine 0 then holding w else 0) + held_by (λ i. mine (suc i)) ws

  -- These threads claim no other key.
  abbrev AreMine : (ℕ → Bool) → List Worker → Type 0
  AreMine mine [] = Unit
  AreMine mine (w ∷ ws) =
      (mine 0 ≡ true → IsAmong (key ∷ []) (key_ahead cfg w)) × AreMine (λ i. mine (suc i)) ws

  abbrev left : Table → ℕ
  left t = budget (key ∷ []) t

  step_at-held :
      (i : ℕ) (ws : List Worker) (mine : ℕ → Bool) (s : State)
      → AreMine mine ws
      → let r = step_at (advance cfg env) i ws s in
        AreMine mine r.0
        × ((if mine i then creates r.1.trace - creates s.trace else 0)
              + held_by mine r.0
              + left r.1.sessions
            ≤ held_by mine ws + left s.sessions)
  unfolding step_at
  step_at-held i [] mine s h = elim (Bool-cases (mine i)) [
    | inl m ↦ rw m (tt, omega arith)
    | inr m ↦ rw m (tt, omega arith)
  ]
  step_at-held zero (w ∷ ws) mine s h =
      let move = advance-Move cfg env w s in
      elim (Bool-cases (mine 0)) [
        | inl m ↦ (
          (λ e. Move-IsAmong (key ∷ []) move (h.0 m), h.1),
          rw m (omega (arith, Move-charge (key ∷ []) move (h.0 m), Move-creates move)),
        )
        | inr m ↦ ((λ e. cc, h.1), rw m (omega (arith, Move-budget (key ∷ []) move)))
      ]
  step_at-held (suc i) (w ∷ ws) mine s h =
      let rest = step_at-held i ws (λ n. mine (suc n)) s h.1 in
      ((h.0, rest.0), omega (arith, rest.1))

  sent_by-bounded :
      (schedule : List ℕ) (mine : ℕ → Bool) (ws : List Worker) (s : State)
      → AreMine mine ws
      → sent_by mine schedule ws s ≤ held_by mine ws + left s.sessions
  sent_by-bounded [] mine ws s h = omega arith
  sent_by-bounded (i ∷ schedule) mine ws s h =
      let step = step_at-held i ws mine s h in
      let r = step_at (advance cfg env) i ws s in
      omega (arith, step.1, sent_by-bounded schedule mine r.0 r.1 step.0)

  is_key-IsAmong : (ahead : Option Text) → is_key key ahead ≡ true → IsAmong (key ∷ []) ahead
  unfolding member
  is_key-IsAmong none e = tt
  is_key-IsAmong (some k) e = rw e refl

  works_on-AreMine : (ws : List Worker) → AreMine (works_on ws) ws
  works_on-AreMine [] = tt
  works_on-AreMine (w ∷ ws) = (is_key-IsAmong (key_ahead cfg w), works_on-AreMine ws)

  held_by_le : (mine : ℕ → Bool) (ws : List Worker) → held_by mine ws ≤ total ws
  held_by_le mine [] = omega arith
  held_by_le mine (w ∷ ws) = ground (arith, held_by_le (λ i. mine (suc i)) ws)

  total-received : (runs : List WorkflowRun) → total (map received runs) ≡ 0
  total-received [] = refl
  total-received (r ∷ runs) = omega (arith, total-received runs)

  total-entered :
      (issues : List Issue) (ws : List Worker) → total ws ≡ 0 → total (map entered issues ++ ws) ≡ 0
  total-entered [] ws h = h
  total-entered (i ∷ issues) ws h = omega (arith, total-entered issues ws h)

  -- However many threads handle events of issues and of failed CI runs, and however their steps
  -- interleave: for any work key, the threads that started with an event of this key send together
  -- at most one request for a paid session, and none if a row had claimed the key.
  pub interleave_paid_once :
      (issues : List Issue) (runs : List WorkflowRun) (schedule : List ℕ) (s : State)
      → let ws = map entered issues ++ map received runs in
        sent_by (works_on ws) schedule ws s ≤ (if is_taken key s.sessions then 0 else 1)
  interleave_paid_once issues runs schedule s =
      let ws = map entered issues ++ map received runs in
      omega (
        arith,
        sent_by-bounded schedule (works_on ws) ws s (works_on-AreMine ws),
        held_by_le (works_on ws) ws,
        total-entered issues (map received runs) (total-received runs),
      )
