-- ===== src/Status.antt =====
-- The status vocabulary of app/db/sessions.py and the translation of Devin's statuses
-- (app/devin/types.py).
pub mod Facts
use cognition_devin_automati.Prelude.{Bool, true, false, if◌then◌else◌}
use cognition_devin_automati.Prelude.Texts.{Text, text, text_eq}

pub data Status : Type 0 where
  reserving pending running blocked needs_attention completed failed cancelled timeout : Status

-- status in ACTIVE_STATUSES
unfoldable pub is_active : Status → Bool
is_active reserving = true
is_active pending = true
is_active running = true
is_active blocked = true
is_active needs_attention = true
is_active completed = false
is_active failed = false
is_active cancelled = false
is_active timeout = false

-- status in TERMINAL_STATUSES
unfoldable pub is_terminal : Status → Bool
is_terminal completed = true
is_terminal failed = true
is_terminal cancelled = true
is_terminal timeout = true
is_terminal reserving = false
is_terminal pending = false
is_terminal running = false
is_terminal blocked = false
is_terminal needs_attention = false

-- status in {"pending", "running"}, the test of the poller
unfoldable pub is_working : Status → Bool
is_working pending = true
is_working running = true
is_working _ = false

-- status in NEEDS_HUMAN_STATUSES of app/metrics.py
unfoldable pub is_needs_human : Status → Bool
is_needs_human blocked = true
is_needs_human needs_attention = true
is_needs_human timeout = true
is_needs_human _ = false

-- The text that the column holds.
unfoldable pub status_text : Status → Text
unfolding text
status_text reserving = text "reserving"
status_text pending = text "pending"
status_text running = text "running"
status_text blocked = text "blocked"
status_text needs_attention = text "needs_attention"
status_text completed = text "completed"
status_text failed = text "failed"
status_text cancelled = text "cancelled"
status_text timeout = text "timeout"

unfoldable pub status_eq : Status → Status → Bool
unfolding status_text text_eq
status_eq s t = text_eq (status_text s) (status_text t)

-- STATUS_MAP.get(raw, UNKNOWN_STATUS)
unfoldable pub map_status : Text → Status
unfolding text
map_status raw =
    if text_eq raw (text "new")
    then pending
    else if text_eq raw (text "claimed")
    then pending
    else if text_eq raw (text "running")
    then running
    else if text_eq raw (text "exit")
    then completed
    else if text_eq raw (text "error")
    then failed
    else if text_eq raw (text "suspended")
    then cancelled
    else if text_eq raw (text "resuming")
    then running
    else needs_attention
