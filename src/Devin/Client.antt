-- ===== src/Devin/Client.antt =====
-- The other verbs of HttpDevinClient in app/devin/client.py: how a transport call that ended is
-- read.
use cognition_devin_automati.Devin.Transport.{Finish, returned, gave_up, crashed}
use cognition_devin_automati.Prelude.Texts.{text, Text, contains, lower, show_nat, show_opt}
use cognition_devin_automati.Prelude.{
  List, Bool, true, ℕ, ◌∷◌, false, Option, [], if◌then◌else◌, ◌++◌, ◌||◌,
}
use cognition_devin_automati.World.{Except, ok, raised}

-- str(e) of the RuntimeError of DevinTransport.request
unfoldable pub failure_message : Text → Text → ℕ → Option Text → Text
unfolding text
failure_message method path max_retries last_exc =
    text "Devin API "
    ++ method
    ++ 32 ∷ path
    ++ text " failed after "
    ++ show_nat max_retries
    ++ text " attempts: "
    ++ show_opt last_exc

unfoldable pub over_words : List Text
unfolding text
over_words = text "already" ∷ text "exited" ∷ text "archived" ∷ text "finished" ∷ []

-- any(s in msg for s in (…))
unfoldable pub mentions : List Text → Text → Bool
mentions [] msg = false
mentions (w ∷ ws) msg = contains w msg || mentions ws msg

-- "Already done" counts as done.
unfoldable pub stopped_or_raised : Text → Except (Unit {0})
unfolding over_words mentions text
stopped_or_raised message =
    if mentions over_words (lower message)
    then ok tt
    else raised (record { kind = text "RuntimeError"; message = message })

unfoldable pub terminate_session : Text → ℕ → Finish → Except (Unit {0})
unfolding failure_message stopped_or_raised text
terminate_session session_id max_retries (returned code) = ok tt
terminate_session session_id max_retries (gave_up last_exc) =
    stopped_or_raised
      (failure_message (text "DELETE") (text "/sessions/" ++ session_id) max_retries last_exc)
terminate_session session_id max_retries (crashed e) = raised e

-- The probe of the session list.
unfoldable pub healthcheck : Finish → Bool
healthcheck (returned code) = true
healthcheck (gave_up last_exc) = false
healthcheck (crashed e) = false
