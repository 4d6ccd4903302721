-- ===== src/Examples/Backfills.antt =====
-- The backfill of three rows, two of which are of one issue and one has a key already.
use cognition_devin_automati.Prelude.Texts.{Text, text}
use cognition_devin_automati.Migration.{LegacyRow}
use cognition_devin_automati.Prelude.{List, ℕ, Option, some, none, ◌∷◌, []}

abbrev pub matches : Text → Option (Text × ℕ)
matches url = some (text "o/r", 7)

abbrev pub legacy : ℕ → Option Text → LegacyRow
legacy id key = record {
  id = id;
  trigger_ref = some (text "u");
  issue_number = some 7;
  label = some (text "l");
  work_key = key;
}

abbrev pub legacy_rows : List LegacyRow
legacy_rows = legacy 2 none ∷ legacy 1 none ∷ legacy 3 (some (text "k")) ∷ []
