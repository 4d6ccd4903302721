-- ===== src/Examples/Reports.antt =====
-- The health report and the dashboard.
use cognition_devin_automati.Examples.Data.{completed_row, running_row}
use cognition_devin_automati.Dashboard.{
  Pandas, Stamp, StoredTime, Elapsed, seconds, duration_cell, dash, fmt_duration, current_timestamp,
  stored_iso, end_stamp, iso_utc, show_elapsed, show_seconds,
}
use cognition_devin_automati.Dashboard.Durations.{duration_cell-terminal, KeepsZones}
use cognition_devin_automati.Prelude.{refl, ◌-◌, Bool, true, ◌≡◌, false, ℕ, ◌/◌, some, Option, none}
use cognition_devin_automati.Sessions.{SessionRow}
use cognition_devin_automati.Status.{is_terminal}
use cognition_devin_automati.Prelude.Texts.{show_nat, show_digits, text}

abbrev stamp_of : StoredTime → Stamp
stamp_of (current_timestamp n) = record { micros = n; aware = false }
stamp_of (iso_utc n) = record { micros = n; aware = true }

abbrev difference : Bool → Bool → ℕ → Option Elapsed
difference true true n = some (seconds n)
difference false false n = some (seconds n)
difference _ _ n = none

abbrev pub pandas : Pandas
pandas = record {
  to_datetime = stamp_of;
  now_like = λ start. record start { micros = 76_000_000 };
  total_seconds = λ a b. difference a.aware b.aware ((b.micros - a.micros) / 1_000_000);
}

pandas-KeepsZones : KeepsZones pandas
pandas-KeepsZones = record {
  naive = λ n. refl;
  aware = λ n. refl;
  mixed = λ a b h k. rw h (rw k refl);
}

abbrev finished_row : SessionRow
finished_row = record completed_row { completed_at = some 9_000_000 }

duration_cell-terminal_example : duration_cell pandas finished_row ≡ dash
unfolding is_terminal
duration_cell-terminal_example = duration_cell-terminal pandas finished_row pandas-KeepsZones refl

still_running : duration_cell pandas running_row ≡ text "1m 15s"
unfolding duration_cell stored_iso fmt_duration end_stamp show_elapsed show_seconds show_nat
    show_digits is_terminal text
still_running = refl
