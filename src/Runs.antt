-- ===== src/Runs.antt =====
-- Every way in which the code changes the shared state, as a step relation: the statements of
-- app/db/sessions.py and app/db/webhook_events.py, and the requests to Devin and GitHub. A request
-- to create a paid session comes only with the row that was reserved for it, and no delivery leaves
-- the log.
pub mod Quiet
pub mod Opening
pub mod Security
pub mod CiFix
pub mod Events
pub mod Polls
pub mod Invariants
use cognition_devin_automati.Prelude.{
  ℕ, ◌≡◌, refl, Bool, true, false, List, ◌∷◌, if◌then◌else◌, ◌≤◌,
}
use cognition_devin_automati.Sessions.{Reservation, Assign, update}
use cognition_devin_automati.Sessions.Claims.{claimed, is_taken}
use cognition_devin_automati.World.{CreateRequest, Call, EventRow, State}
use cognition_devin_automati.Prelude.Texts.{Text}
use cognition_devin_automati.Events.Known.{is_known}
use cognition_devin_automati.Sessions.Chains.{IsNumbered}

abbrev pub is_create : Call → Bool
is_create (Call.create_session req) = true
is_create _ = false

-- A reserved row's attempt number is at most `cap`, and past those of the fixes of the same parent.
pub data Step (cap : ℕ) : State → State → Type 0 where
  written :
      {s : State} (pk : ℕ) (changes : List Assign)
      → Step cap s (record s { sessions = update pk changes s.sessions })
  requested :
      {s : State} (c : Call) → is_create c ≡ false → Step cap s (record s { trace = c ∷ s.trace })
  reserved :
      {s : State} (r : Reservation) (now : ℕ)
      → is_taken r.work_key s.sessions ≡ false
      → IsNumbered cap r s.sessions
      → Step cap s (record s { sessions = claimed r now s.sessions })
  paid :
      {s : State} (r : Reservation) (now : ℕ) (req : CreateRequest)
      → is_taken r.work_key s.sessions ≡ false
      → IsNumbered cap r s.sessions
      → Step cap s (record s {
        sessions = claimed r now s.sessions;
        trace = Call.create_session req ∷ s.trace;
      })
  logged :
      {s : State} (events : List EventRow)
      → ((id : Text) → is_known id s.events ≡ true → is_known id events ≡ true)
      → Step cap s (record s { events = events })

pub data Run (cap : ℕ) (s : State) : State → Type 0 where
  here : Run cap s s
  next : {t u : State} → Run cap s t → Step cap t u → Run cap s u

pub Run-trans : {cap : ℕ} {s t u : State} → Run cap s t → Run cap t u → Run cap s u
Run-trans p here = p
Run-trans p (next q st) = next (Run-trans p q) st
