-- ===== src/Races/Moves.antt =====
-- What one step of a worker does to the shared state: quiet statements and requests, one reserved
-- row, or one request for a paid session.
use cognition_devin_automati.Prelude.{
  ℕ, List, Option, some, or_else, ◌≤◌, ◌≡◌, true, arith, none, false, suc, ◌∷◌,
}
use cognition_devin_automati.Settings.{Settings}
use cognition_devin_automati.Races.{
  Worker, holds_row, holds_fix, entered, logs_fetched, finished, counted, cleared, received,
  pr_fetched, found_parent, commits_fetched, cleared_fix,
}
use cognition_devin_automati.World.{WorkflowRun, State, Except, CreateRequest, Call}
use cognition_devin_automati.Prelude.Texts.{Text, member}
use cognition_devin_automati.Handlers.{make_ci_fix_work_key}
use cognition_devin_automati.Outcomes.{Outcome}
use cognition_devin_automati.Runs.Quiet.{Quiet}
use cognition_devin_automati.Handlers.Security.{security_key}
use cognition_devin_automati.Sessions.{Reservation}
use cognition_devin_automati.Sessions.Claims.{is_taken, claimed}

-- Whether a request for a paid session may still go out behind the worker's row.
abbrev pub holding : Worker → ℕ
holding (holds_row issue pk) = 1
holding (holds_fix fix parent attempt pk) = 1
holding (logs_fetched answer fix parent attempt pk) = 1
holding _ = 0

abbrev pub ci_fix_key : Settings → WorkflowRun → Text
ci_fix_key cfg run = make_ci_fix_work_key (or_else run.repository_full_name cfg.fork_repo) run.id

-- The work key that the worker's INSERT is to claim.
abbrev pub key_ahead : Settings → Worker → Option Text
key_ahead cfg (entered issue) = some (security_key cfg issue)
key_ahead cfg (counted issue) = some (security_key cfg issue)
key_ahead cfg (cleared issue) = some (security_key cfg issue)
key_ahead cfg (received run) = some (ci_fix_key cfg run)
key_ahead cfg (pr_fetched answer repo run n) = some (make_ci_fix_work_key repo run.id)
key_ahead cfg (found_parent fix parent) = some (make_ci_fix_work_key fix.repo fix.run.id)
key_ahead cfg (commits_fetched answer fix parent attempt) =
    some (make_ci_fix_work_key fix.repo fix.run.id)
key_ahead cfg (cleared_fix fix parent attempt) = some (make_ci_fix_work_key fix.repo fix.run.id)
key_ahead cfg _ = none

-- The attempt number that the worker's INSERT is to write.
abbrev pub planned : Worker → ℕ
planned (commits_fetched answer fix parent attempt) = attempt
planned (cleared_fix fix parent attempt) = attempt
planned _ = 0

abbrev pub IsAmong : List Text → Option Text → Type 0
IsAmong keys none = Unit
IsAmong keys (some k) = member k keys ≡ true

module _ (cfg : Settings) where
  -- The rest of the way claims no other key.
  abbrev pub Narrows : Worker → Worker → Type 0
  Narrows w w' =
      (keys : List Text) → IsAmong keys (key_ahead cfg w) → IsAmong keys (key_ahead cfg w')

  -- An attempt number that is planned is within the cap.
  abbrev pub IsWithin : Worker → Type 0
  IsWithin w = planned w ≤ cfg.max_fix_attempts

  pub data Move (w : Worker) (s : State) : Worker × State → Type 0 where
    quiet :
        {w' : Worker} {t : State}
        → Quiet s t
        → holding w' ≤ holding w
        → Narrows w w'
        → (IsWithin w → IsWithin w')
        → Move w s (w', t)
    reserves :
        {w' : Worker} (r : Reservation) (now : ℕ)
        → is_taken r.work_key s.sessions ≡ false
        → key_ahead cfg w ≡ some r.work_key
        → (IsWithin w → r.fix_attempt_number ≤ cfg.max_fix_attempts)
        → holding w' ≡ suc (holding w)
        → key_ahead cfg w' ≡ none
        → planned w' ≡ 0
        → Move w s (w', record s { sessions = claimed r now s.sessions })
    pays :
        {w' : Worker} (req : CreateRequest)
        → suc (holding w') ≡ holding w
        → key_ahead cfg w' ≡ none
        → planned w' ≡ 0
        → Move w s (w', record s { trace = Call.create_session req ∷ s.trace })

  -- A worker that ends here, or that goes on about the same key.
  pub ends : {w : Worker} (o : Except Outcome) {s t : State} → Quiet s t → Move w s (finished o, t)
  ends o q = quiet q (omega arith) (λ keys h. tt) (λ within. omega arith)

  pub goes_on :
      {w : Worker} (w' : Worker) {s t : State}
      → Quiet s t
      → holding w' ≡ holding w
      → key_ahead cfg w' ≡ key_ahead cfg w
      → (IsWithin w → IsWithin w')
      → Move w s (w', t)
  goes_on w' q h k within = quiet q (omega (arith, h)) (λ keys a. rw k a) within
