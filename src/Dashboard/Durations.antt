-- ===== src/Dashboard/Durations.antt =====
-- What the column Duration shows of a session that is over.
use cognition_devin_automati.Dashboard.{
  Pandas, Stamp, duration_cell, current_timestamp, stored_iso, fmt_duration, end_stamp, iso_utc,
  show_elapsed, dash,
}
use cognition_devin_automati.Prelude.{ℕ, ◌≡◌, false, true, none, Option-cases, inl, inr, refl}
use cognition_devin_automati.Sessions.{SessionRow}
use cognition_devin_automati.Status.{is_terminal}

-- What pandas documents of time zones: a text without one gives a naive stamp, a text with one an
-- aware stamp, and the difference of an aware and a naive stamp is a TypeError.
pub record KeepsZones (pd : Pandas) : Type 0 where
  pub naive : (n : ℕ) → (pd.to_datetime (current_timestamp n)).aware ≡ false
  pub aware : (n : ℕ) → (pd.to_datetime (iso_utc n)).aware ≡ true
  pub mixed : (a b : Stamp) → a.aware ≡ false → b.aware ≡ true → pd.total_seconds a b ≡ none

-- The column Duration is empty for every session that is over: in a terminal status a row shows a
-- dash, and so it does where completed_at is known, since the two columns hold times of different
-- kinds, whose difference pandas refuses.
pub duration_cell-terminal :
    (pd : Pandas) (r : SessionRow)
    → KeepsZones pd
    → is_terminal r.status ≡ true
    → duration_cell pd r ≡ dash
unfolding duration_cell stored_iso fmt_duration end_stamp show_elapsed
duration_cell-terminal pd r zones over = elim (Option-cases r.completed_at) [
  | inl unknown ↦ rw unknown (rw over refl)
  | inr (n, known_end) ↦ rw known_end (
      rw over (
        rw
          (zones.mixed (pd.to_datetime (current_timestamp r.started_at))
            (pd.to_datetime (iso_utc n)) (zones.naive r.started_at) (zones.aware n))
          refl))
]
