-- ===== src/Examples/Simulated.antt =====
-- A waiting event at a free slot, a branch, and a simulated delivery.
use cognition_devin_automati.Prelude.Lists.{any_by}
use cognition_devin_automati.Examples.Data.{cfg, env, crypto, issue, one_row, one_row-IsValid}
use cognition_devin_automati.Webhook.{Crypto, accepted, object}
use cognition_devin_automati.Simulation.{
  Arguments, Variables, main, post_webhook, simulated_delivery_id,
}
use cognition_devin_automati.Simulation.Accepted.{main_accepted, received, opened, webhook_status}
use cognition_devin_automati.Orchestrator.Drain.Progress.{drain_queue-progress, waiting}
use cognition_devin_automati.Orchestrator.Drain.{drain_queue}
use cognition_devin_automati.Prelude.{◌<◌, some, none, ◌∷◌, ◌≡◌, ℕ, [], arith, refl}
use cognition_devin_automati.World.{EventRow, Payload, State, Except, ok, Issue}
use cognition_devin_automati.Prelude.Lists.{count_by}
use cognition_devin_automati.Prelude.Texts.{Text, text, text_eq_refl, starts_with}
use cognition_devin_automati.Sessions.{count_active}
use cognition_devin_automati.Events.{waits, result_is_queued}
use cognition_devin_automati.Outcomes.{is_queued, queued_concurrency_cap, render}
use cognition_devin_automati.Status.{is_active}

abbrev waiting_event : EventRow
waiting_event = record {
  delivery_id = text "n1";
  event_type = text "issues";
  action = some (text "labeled");
  payload = record { action = some (text "labeled"); issue = some issue; workflow_run = none };
  received_at = 1_000_000;
  processed_at = some 1_000_000;
  handler_result = some (queued_concurrency_cap (text "k"));
}

abbrev one_waits : State
one_waits = record one_row { events = waiting_event ∷ [] }

slot_free : count_active one_waits.sessions < 2
unfolding count_active count_by is_active
slot_free = omega arith

some_waits : 0 < waiting one_waits
unfolding waits result_is_queued is_queued render text starts_with count_by
some_waits = omega arith

drain_queue-progress_example : waiting (drain_queue cfg env one_waits).1 < waiting one_waits
drain_queue-progress_example =
    drain_queue-progress cfg env one_waits one_row-IsValid slot_free ((λ again. refl), tt)
      some_waits

abbrev arguments : Arguments
arguments = record { issue_number = 7; api = text "http://h/"; delivery_id = some (text "n9") }

abbrev variables : Variables
variables = record {
  fork_repo = some (text "o/r");
  gh_token = some (text "t");
  gh_webhook_secret = some (text "s");
}

abbrev dumps : Payload → Text
dumps payload = text "{}"

-- Reads the payload that is sent.
abbrev reader : Crypto
reader = record crypto { parse_json = λ body. object (opened issue) }

abbrev fetch_issue : Text → ℕ → Text → Except Issue
fetch_issue repo n token = ok issue

main_accepted_example :
    let id = simulated_delivery_id arguments 1_000_000 in
    let r =
      received cfg env reader one_row
        (post_webhook reader dumps (text "http://h/") (opened issue) (text "s") id) in
    (main reader dumps fetch_issue
        (webhook_status cfg env reader (text "http://h") one_row)
        arguments
        variables
        1_000_000
      ≡ ok 0)
    × ((r.0 ≡ accepted id)
        × (r.1
            ≡ some (record {
              delivery_id = id;
              event_type = text "issues";
              action = some (text "opened");
              payload = opened issue;
            })))
unfolding text any_by
main_accepted_example =
    main_accepted cfg env reader dumps fetch_issue arguments (text "o/r") (text "t") 1_000_000 issue
      (text "http://") 104 1 one_row text_eq_refl refl refl refl refl refl refl refl refl
