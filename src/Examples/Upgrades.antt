-- ===== src/Examples/Upgrades.antt =====
-- The first schema, with two rows of one issue and one that has a key, at start-up.
use cognition_devin_automati.Examples.Backfills.{matches, legacy, legacy_rows}
use cognition_devin_automati.Migration.Schema.{
  SessionsTable, init_db, create_indexes, migrate, add_work_key, backfill, relax_not_null,
  rebuild_sessions_table, create_unique_index, add_structured_output, keys_of, chosen_keys,
  set_keys, set_key,
}
use cognition_devin_automati.Migration.Schema.Rerun.{init_db-IsMigrated, IsMigrated, is_strict}
use cognition_devin_automati.Prelude.{true, some, false, ◌≡◌, ◌∷◌, [], refl, not}
use cognition_devin_automati.Prelude.Texts.{text, text_eq, member, show_nat, show_digits}
use cognition_devin_automati.Migration.{
  choose_key, canonical, key_of_match, key_of, dup_key, existing_keys, keyless, lower_id,
}
use cognition_devin_automati.Handlers.{make_work_key}
use cognition_devin_automati.Prelude.Lists.{any_by, filter_by, insert_by, sort_by}

abbrev first_schema : SessionsTable
first_schema = record {
  work_key_column = true;
  structured_output_column = false;
  id_not_null = true;
  unique_index = false;
  other_indexes = true;
  rows = legacy_rows;
}

abbrev upgraded : SessionsTable
upgraded = record {
  work_key_column = true;
  structured_output_column = true;
  id_not_null = false;
  unique_index = true;
  other_indexes = false;
  rows =
      legacy 2 (some (text "issue:o/r:7:l:dup:2"))
      ∷ legacy 1 (some (text "issue:o/r:7:l"))
      ∷ legacy 3 (some (text "k"))
      ∷ [];
}

first_start : init_db matches (some first_schema) ≡ some upgraded
unfolding init_db migrate create_indexes add_work_key backfill relax_not_null rebuild_sessions_table
    create_unique_index add_structured_output keys_of chosen_keys set_keys set_key choose_key
    canonical key_of_match key_of dup_key existing_keys keyless lower_id make_work_key text text_eq
    member show_nat show_digits filter_by sort_by insert_by any_by
first_start = refl

init_db-IsMigrated_example :
    IsMigrated upgraded
    × (upgraded.other_indexes ≡ not (is_strict (some first_schema)))
    × (init_db matches (some upgraded) ≡ some (record upgraded { other_indexes = true }))
    × (init_db matches (some (record upgraded { other_indexes = true }))
        ≡ some (record upgraded { other_indexes = true }))
init_db-IsMigrated_example = init_db-IsMigrated matches (some first_schema) upgraded first_start
