-- ===== src/Events.antt =====
-- app/db/webhook_events.py: the idempotency log of incoming events, and the queue that it holds.
pub mod Known
use cognition_devin_automati.Prelude.{
  ℕ, ◌*◌, ◌/◌, Bool, true, false, Option, none, some, List, [], ◌∷◌, ◌++◌, leb, if◌then◌else◌,
}
use cognition_devin_automati.Prelude.Lists.{filter_by, find_by, any_by, sort_by, take}
use cognition_devin_automati.Prelude.Texts.{Text, text_eq}
use cognition_devin_automati.Outcomes.{Outcome, is_queued}
use cognition_devin_automati.World.{Payload, EventRow}

unfoldable pub has_delivery : Text → EventRow → Bool
has_delivery id e = text_eq e.delivery_id id

unfoldable pub new_event : Text → Text → Option Text → Payload → ℕ → EventRow
new_event id event_type action payload now = record {
  delivery_id = id;
  event_type = event_type;
  action = action;
  payload = payload;
  received_at = now / 1_000_000 * 1_000_000;
  processed_at = none;
  handler_result = none;
}

-- INSERT under the primary key: a known delivery raises IntegrityError, which is False.
unfoldable pub record_event :
    Text → Text → Option Text → Payload → ℕ → List EventRow → Bool × List EventRow
record_event id event_type action payload now events =
    if any_by (has_delivery id) events
    then (false, events)
    else (true, events ++ new_event id event_type action payload now ∷ [])

unfoldable pub mark_processed : Text → Outcome → ℕ → List EventRow → List EventRow
mark_processed id result now [] = []
mark_processed id result now (e ∷ es) =
    (if has_delivery id e
      then record e {
        processed_at = some (now / 1_000_000 * 1_000_000);
        handler_result = some result;
      }
      else e)
    ∷ mark_processed id result now es

unfoldable pub get : Text → List EventRow → Option EventRow
get id events = find_by (has_delivery id) events

-- handler_result LIKE 'queued:%'; NULL is not like anything.
unfoldable pub result_is_queued : Option Outcome → Bool
result_is_queued none = false
result_is_queued (some o) = is_queued o

unfoldable pub waits : EventRow → Bool
unfolding result_is_queued
waits e = result_is_queued e.handler_result

unfoldable pub received_before : EventRow → EventRow → Bool
received_before a b = leb a.received_at b.received_at

unfoldable pub list_queued : ℕ → List EventRow → List EventRow
list_queued limit events = take limit (sort_by received_before (filter_by waits events))
