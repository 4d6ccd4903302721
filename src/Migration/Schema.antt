-- ===== src/Migration/Schema.antt =====
-- init_db of app/db/connection.py: the schema of the sessions table and its migrations.
pub mod Keyed
pub mod Rerun
use cognition_devin_automati.Migration.{LegacyRow, choose_key, keyless, existing_keys}
use cognition_devin_automati.Prelude.{
  Bool, List, if◌then◌else◌, ℕ, Option, true, false, ◌∷◌, some, ◌||◌, [], none, ◌==◌, not, is_some,
  or_else,
}
use cognition_devin_automati.Prelude.Texts.{Text, distinct}
use cognition_devin_automati.Prelude.Lists.{any_by}

-- What the migrations look at: whether the columns work_key and structured_output_json exist,
-- whether devin_session_id is NOT NULL, whether the unique index is built, whether the five indexes
-- idx_sessions_* are, and the rows.
pub record SessionsTable : Type 0 where
  pub work_key_column : Bool
  pub structured_output_column : Bool
  pub id_not_null : Bool
  pub unique_index : Bool
  pub other_indexes : Bool
  pub rows : List LegacyRow

-- CREATE TABLE IF NOT EXISTS, of a fresh install
abbrev pub fresh_table : SessionsTable
fresh_table = record {
  work_key_column = true;
  structured_output_column = true;
  id_not_null = false;
  unique_index = false;
  other_indexes = false;
  rows = [];
}

-- CREATE INDEX IF NOT EXISTS, five times, in front of the migrations. The columns that the indexes
-- are on are those of every schema.
unfoldable pub create_indexes : SessionsTable → SessionsTable
create_indexes t = record t { other_indexes = true }

unfoldable pub without_keys : List LegacyRow → List LegacyRow
without_keys [] = []
without_keys (r ∷ rs) = record r { work_key = none } ∷ without_keys rs

-- M1: ALTER TABLE sessions ADD COLUMN work_key
unfoldable pub add_work_key : SessionsTable → SessionsTable
unfolding without_keys
add_work_key t =
    if t.work_key_column then t else record t { work_key_column = true; rows = without_keys t.rows }

-- UPDATE sessions SET work_key = key WHERE id = pk
unfoldable pub set_key : ℕ → Text → List LegacyRow → List LegacyRow
set_key pk key [] = []
set_key pk key (r ∷ rs) =
    (if r.id == pk then record r { work_key = some key } else r) ∷ set_key pk key rs

unfoldable pub set_keys : List (ℕ × Text) → List LegacyRow → List LegacyRow
unfolding set_key
set_keys [] rows = rows
set_keys ((pk, key) ∷ updates) rows = set_keys updates (set_key pk key rows)

-- M2 copies the rows to a table without structured_output_json and without indexes; a NULL work
-- key raises.
unfoldable pub rebuild_sessions_table : SessionsTable → Option SessionsTable
rebuild_sessions_table t =
    if any_by (λ r. not (is_some r.work_key)) t.rows
    then none
    else some (record t {
      structured_output_column = false;
      id_not_null = false;
      unique_index = false;
      other_indexes = false;
    })

unfoldable pub relax_not_null : SessionsTable → Option SessionsTable
unfolding rebuild_sessions_table
relax_not_null t = if t.id_not_null then rebuild_sessions_table t else some t

unfoldable pub keys_of : List LegacyRow → List Text
keys_of [] = []
keys_of (r ∷ rs) = if is_some r.work_key then or_else r.work_key [] ∷ keys_of rs else keys_of rs

-- M3: CREATE UNIQUE INDEX IF NOT EXISTS, which raises on equal keys
unfoldable pub create_unique_index : SessionsTable → Option SessionsTable
unfolding keys_of
create_unique_index t =
    if t.unique_index || distinct (keys_of t.rows)
    then some (record t { unique_index = true })
    else none

-- M4
unfoldable pub add_structured_output : SessionsTable → SessionsTable
add_structured_output t =
    if t.structured_output_column then t else record t { structured_output_column = true }

abbrev then_index : Option SessionsTable → Option SessionsTable
then_index none = none
then_index (some t) = create_unique_index t

abbrev then_column : Option SessionsTable → Option SessionsTable
then_column none = none
then_column (some t) = some (add_structured_output t)

module _ (issue_match : Text → Option (Text × ℕ)) where
  -- The updates of the backfill's loop, in their order.
  unfoldable pub chosen_keys : List LegacyRow → List Text → List (ℕ × Text)
  unfolding choose_key
  chosen_keys [] existing = []
  chosen_keys (r ∷ rs) existing =
      let key = choose_key issue_match existing r in (r.id, key) ∷ chosen_keys rs (key ∷ existing)

  unfoldable pub backfill : SessionsTable → SessionsTable
  unfolding chosen_keys set_keys keyless existing_keys
  backfill t = record t {
    rows = set_keys (chosen_keys (keyless t.rows) (existing_keys t.rows)) t.rows;
  }

  unfoldable pub migrate : SessionsTable → Option SessionsTable
  unfolding add_work_key backfill relax_not_null create_unique_index add_structured_output
  migrate t = then_column (then_index (relax_not_null (backfill (add_work_key t))))

  -- On a database file with or without the table; none is an exception.
  unfoldable pub init_db : Option SessionsTable → Option SessionsTable
  unfolding migrate create_indexes
  init_db none = migrate (create_indexes fresh_table)
  init_db (some t) = migrate (create_indexes t)
