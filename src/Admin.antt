-- ===== src/Admin.antt =====
-- app/routes/admin.py: the replay of a stored delivery, and the reset for demo runs.
pub mod Locks
use cognition_devin_automati.Events.{get}
use cognition_devin_automati.Prelude.Texts.{Text, nonempty, truthy}
use cognition_devin_automati.Prelude.{Option, [], some, if◌then◌else◌, none, not, ◌&&◌, or_else}
use cognition_devin_automati.Settings.{Settings}
use cognition_devin_automati.World.{EventRow, State}
use cognition_devin_automati.Webhook.{Crypto, Job}

pub data Reply : Type 0 where
  token_not_configured invalid_token delivery_not_found was_reset : Reply
  replayed : Text → Reply

-- Where the request stops at the token gate: the HTTPException that it raises.
unfoldable pub require_token : Settings → Crypto → Option Text → Option Reply
require_token cfg crypto provided =
    if not (nonempty cfg.admin_token)
    then some token_not_configured
    else if not (truthy provided && crypto.compare_digest (or_else provided []) cfg.admin_token)
    then some invalid_token
    else none

-- The background task's arguments, as the stored row gives them.
unfoldable pub job_of : EventRow → Job
job_of row = record {
  delivery_id = row.delivery_id;
  event_type = row.event_type;
  action = row.action;
  payload = row.payload;
}

unfoldable pub replay_row : Option EventRow → Reply × Option Job
unfolding job_of
replay_row none = (delivery_not_found, none)
replay_row (some row) = (replayed row.delivery_id, some (job_of row))

unfoldable pub replay_gated : Option Reply → Text → State → Reply × Option Job
unfolding replay_row
replay_gated (some refusal) delivery s = (refusal, none)
replay_gated none delivery s = replay_row (get delivery s.events)

unfoldable pub replay : Settings → Crypto → Text → Option Text → State → Reply × Option Job
unfolding replay_gated
replay cfg crypto delivery provided s = replay_gated (require_token cfg crypto provided) delivery s

-- DELETE FROM both tables; AUTOINCREMENT does not give an id out again.
unfoldable pub reset_all : State → State
reset_all s = record s {
  sessions = record { rows = []; next_id = s.sessions.next_id };
  events = [];
}

unfoldable pub reset_gated : Option Reply → State → Reply × State
unfolding reset_all
reset_gated (some refusal) s = (refusal, s)
reset_gated none s = (was_reset, reset_all s)

unfoldable pub reset : Settings → Crypto → Option Text → State → Reply × State
unfolding reset_gated
reset cfg crypto provided s = reset_gated (require_token cfg crypto provided) s
