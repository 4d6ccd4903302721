-- ===== src/Dashboard.antt =====
-- dashboard/streamlit_app.py: the cells of the sessions table that are computed there.
pub mod Durations
pub mod Reports
use cognition_devin_automati.Status.{
  Status, status_text, is_active, is_terminal, reserving, pending, running, blocked,
  needs_attention, completed, failed, timeout, cancelled,
}
use cognition_devin_automati.Sessions.{SessionRow}
use cognition_devin_automati.Prelude.Texts.{text, Text, truthy, show_nat, member}
use cognition_devin_automati.Prelude.{
  Bool, Option, ℕ, ◌++◌, if◌then◌else◌, some, List, ◌∷◌, ltb, ◌&&◌, true, none, not, or_else, false,
  ◌/◌, is_some, [], ◌%◌,
}
use cognition_devin_automati.Prelude.Lists.{take, filter_by}

unfoldable pub status_emoji : Status → Text
unfolding text
status_emoji reserving = text "⚪"
status_emoji pending = text "🔵"
status_emoji running = text "🔵"
status_emoji blocked = text "🟡"
status_emoji needs_attention = text "🟡"
status_emoji completed = text "🟢"
status_emoji failed = text "🔴"
status_emoji timeout = text "🔴"
status_emoji cancelled = text "⚫"

unfoldable pub status_label : Status → Text
unfolding status_emoji
status_label status = status_emoji status ++ 32 ∷ status_text status

-- A time as the database holds it: SQLite's CURRENT_TIMESTAMP, without a time zone, or the
-- isoformat() of a datetime in UTC, with one; both at a number of microseconds.
pub data StoredTime : Type 0 where
  current_timestamp iso_utc : ℕ → StoredTime

-- A pandas Timestamp.
pub record Stamp : Type 0 where
  pub micros : ℕ
  pub aware : Bool

-- `int(…)` of the seconds between two stamps, which may be negative.
pub data Elapsed : Type 0 where
  seconds minus_seconds : ℕ → Elapsed

-- What pandas gives: to_datetime, Timestamp.now(tz=start.tz) and the difference of two stamps in
-- seconds, where none is an exception.
pub record Pandas : Type 0 where
  pub to_datetime : StoredTime → Stamp
  pub now_like : Stamp → Stamp
  pub total_seconds : Stamp → Stamp → Option Elapsed

unfoldable pub dash : Text
unfolding text
dash = text "—"

unfoldable pub show_seconds : ℕ → Text
unfolding text
show_seconds total_s =
    if ltb total_s 60
    then show_nat total_s ++ text "s"
    else if ltb total_s 3600
    then show_nat (total_s / 60) ++ text "m " ++ show_nat (total_s % 60) ++ text "s"
    else show_nat (total_s / 3600) ++ text "h " ++ show_nat (total_s % 3600 / 60) ++ text "m"

unfoldable pub show_elapsed : Option Elapsed → Text
unfolding dash show_seconds text
show_elapsed none = dash
show_elapsed (some (seconds n)) = show_seconds n
show_elapsed (some (minus_seconds n)) = 45 ∷ show_nat n ++ text "s"

unfoldable pub stored_iso : Option ℕ → Option StoredTime
stored_iso none = none
stored_iso (some n) = some (iso_utc n)

module _ (pd : Pandas) where
  unfoldable pub end_stamp : Stamp → Option StoredTime → Stamp
  end_stamp start_ts none = pd.now_like start_ts
  end_stamp start_ts (some end_time) = pd.to_datetime end_time

  unfoldable pub fmt_duration : Option StoredTime → Option StoredTime → Status → Text
  unfolding dash show_elapsed end_stamp
  fmt_duration none end_time status = dash
  fmt_duration (some start) end_time status =
      let start_ts = pd.to_datetime start in
      if is_terminal status && not (is_some end_time)
      then dash
      else show_elapsed (pd.total_seconds start_ts (end_stamp start_ts end_time))

  -- The column Duration: started_at is the column's default CURRENT_TIMESTAMP, and completed_at is
  -- written by _now_iso.
  unfoldable pub duration_cell : SessionRow → Text
  unfolding fmt_duration stored_iso
  duration_cell r =
      fmt_duration (some (current_timestamp r.started_at)) (stored_iso r.completed_at) r.status

-- The column Detail: `(r.error_message or r.raw_status or "")[:60]`.
unfoldable pub detail_cell : SessionRow → Text
detail_cell r =
    take 60 (if truthy r.error_message then or_else r.error_message [] else or_else r.raw_status [])

-- The rows that the two controls of the sidebar leave.
unfoldable pub visible : Bool → List Text → List SessionRow → List SessionRow
visible show_terminal label_filter rows =
    let shown = if show_terminal then rows else filter_by (λ r. is_active r.status) rows in
    if is_empty label_filter then shown else filter_by (λ r. in_labels r.label label_filter) shown
  where
    is_empty : List Text → Bool
    is_empty [] = true
    is_empty (l ∷ ls) = false

    in_labels : Option Text → List Text → Bool
    in_labels none ls = false
    in_labels (some l) ls = member l ls
