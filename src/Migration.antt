-- ===== src/Migration.antt =====
-- _backfill_missing_work_keys of app/db/connection.py: the keys that rows without one are given.
pub mod Clashes
pub mod Schema
use cognition_devin_automati.Prelude.Texts.{Text, text, truthy, show_nat, member, nonempty}
use cognition_devin_automati.Prelude.{
  ℕ, Option, List, Bool, ◌∷◌, leb, ◌++◌, [], or_else, if◌then◌else◌, some, not, none, ◌&&◌,
}
use cognition_devin_automati.Prelude.Lists.{sort_by, filter_by}
use cognition_devin_automati.Handlers.{make_work_key}

-- The columns that the backfill reads. A NULL and an empty work key are alike.
pub record LegacyRow : Type 0 where
  pub id : ℕ
  pub trigger_ref : Option Text
  pub issue_number : Option ℕ
  pub label : Option Text
  pub work_key : Option Text

-- The keys that rows have, and the rows that have none.
unfoldable pub existing_keys : List LegacyRow → List Text
existing_keys [] = []
existing_keys (r ∷ rs) =
    if truthy r.work_key then or_else r.work_key [] ∷ existing_keys rs else existing_keys rs

unfoldable pub lower_id : LegacyRow → LegacyRow → Bool
lower_id a b = leb a.id b.id

unfoldable pub keyless : List LegacyRow → List LegacyRow
unfolding lower_id
keyless rows = sort_by lower_id (filter_by (λ r. not (truthy r.work_key)) rows)

-- `repo and number is not None and label`
unfoldable pub key_of : Text → Option ℕ → Option Text → ℕ → Text
unfolding text
key_of repo none label id = text "legacy:" ++ show_nat id
key_of repo (some number) label id =
    if nonempty repo && truthy label
    then make_work_key repo number (or_else label [])
    else text "legacy:" ++ show_nat id

-- `issue_match` gives the groups of the URL's pattern, where it is found.
module _ (issue_match : Text → Option (Text × ℕ)) where
  unfoldable pub key_of_match : Option (Text × ℕ) → LegacyRow → Text
  unfolding key_of
  key_of_match none r = key_of [] r.issue_number r.label r.id
  key_of_match (some (repo, number)) r =
      key_of repo (some (or_else r.issue_number number)) r.label r.id

  unfoldable pub canonical : LegacyRow → Text
  unfolding key_of_match
  canonical r = key_of_match (issue_match (or_else r.trigger_ref [])) r

  unfoldable pub dup_key : LegacyRow → Text
  unfolding canonical text
  dup_key r = canonical r ++ (text ":dup:" ++ show_nat r.id)

  unfoldable pub choose_key : List Text → LegacyRow → Text
  choose_key existing r = if member (canonical r) existing then dup_key r else canonical r

  -- The keys in the table after the loop, the last first.
  unfoldable pub fill : List LegacyRow → List Text → List Text
  unfolding choose_key
  fill [] existing = existing
  fill (r ∷ rs) existing = fill rs (choose_key existing r ∷ existing)

  unfoldable pub backfill_missing_work_keys : List LegacyRow → List Text
  unfolding fill
  backfill_missing_work_keys rows = fill (keyless rows) (existing_keys rows)
