-- ===== src/Dashboard/Reports.antt =====
-- The sessions table and the remediation reports of live_section in dashboard/streamlit_app.py. An
-- exception, which ends the run of the section, is `none`.
pub mod Shown
pub mod Sections
use cognition_devin_automati.Prelude.{
  ℕ, ◌++◌, Option, suc, List, Bool, some, map, [], zero, false, none, ◌∷◌, if◌then◌else◌, or_else,
  ◌==◌,
}
use cognition_devin_automati.Prelude.Json.{
  Json, Items, Members, no_items, item, string, array, object, no_members, entry, is_true, get_key,
  lookup,
}
use cognition_devin_automati.Prelude.Texts.{text, Text, join_lines, truthy, show_nat}
use cognition_devin_automati.Dashboard.{Pandas, detail_cell, visible, duration_cell, status_label}
use cognition_devin_automati.Sessions.{SessionRow, TriggerType}
use cognition_devin_automati.Prelude.Lists.{take}
use cognition_devin_automati.Stage.{stage_label, stage_text, compute_stage}

infixl 5 ◌>>=◌
abbrev pub ◌>>=◌ : {A B : Type 0} → Option A → (A → Option B) → Option B
none >>= f = none
some a >>= f = f a

-- A row of the data frame; the columns that are not text are as Python's values.
pub record TableRow : Type 0 where
  pub stage : Text
  pub status : Text
  pub trigger : TriggerType
  pub issue : Text
  pub devin : Text
  pub pr : Text
  pub summary : Json
  pub risk : Json
  pub acus : Text
  pub duration : Text
  pub started : ℕ
  pub detail : Text

-- What an expander of a report shows.
pub record Report : Type 0 where
  pub title : Text
  pub risk : Text
  pub tests_run : Text
  pub tests_passing : Text
  pub flagged : Bool
  pub files : Option Text
  pub blockers : List Text

-- `v or d` for what a lookup found
unfoldable pub json_or : Option Json → Json → Json
json_or none d = d
json_or (some v) d = if is_true v then v else d

unfoldable pub truth : Option Json → Bool
truth none = false
truth (some v) = is_true v

unfoldable pub take_items : ℕ → Items → Items
take_items zero vs = no_items
take_items (suc n) no_items = no_items
take_items (suc n) (item v vs) = item v (take_items n vs)

-- `v[:n]`
unfoldable pub slice : ℕ → Json → Option Json
unfolding take_items
slice n (string s) = some (string (take n s))
slice n (array vs) = some (array (take_items n vs))
slice n _ = none

unfoldable pub characters : Text → List Text
characters s = map (λ c. c ∷ []) s

unfoldable pub key_texts : Members → List Text
key_texts no_members = []
key_texts (entry k v ms) = k ∷ key_texts ms

-- `"\n".join(v)` raises where an item is not a text.
unfoldable pub texts_of : Items → Option (List Text)
texts_of no_items = some []
texts_of (item (string s) vs) = (texts_of vs >>= λ l. some (s ∷ l))
texts_of (item _ vs) = none

unfoldable pub join_value : Json → Option Text
unfolding characters key_texts texts_of
join_value (string s) = some (join_lines (characters s))
join_value (array vs) = (texts_of vs >>= λ l. some (join_lines l))
join_value (object ms) = some (join_lines (key_texts ms))
join_value _ = none

unfoldable pub check_mark : Bool → Text
unfolding text
check_mark b = if b then text "✓" else text "✗"

-- `if files: st.code("\n".join(files))`
unfoldable pub shown_files : Option Json → Option (Option Text)
unfolding join_value truth
shown_files none = some none
shown_files (some v) = if is_true v then (join_value v >>= λ t. some (some t)) else some none

-- What Python and the modules beside this file give: str, str.upper, json.loads, the format .2f, and
-- the stage and the duration of a row.
pub record Python : Type 0 where
  pub str : Json → Text
  pub upper : Text → Text
  pub loads : Text → Option Json
  pub two_decimals : ℕ → Text

module _ (py : Python) (pd : Pandas) where
  -- `f"- {blk}"` for each
  unfoldable pub item_lines : Items → List Text
  unfolding text
  item_lines no_items = []
  item_lines (item v vs) = (text "- " ++ py.str v) ∷ item_lines vs

  unfoldable pub bullets : Json → Option (List Text)
  unfolding characters key_texts item_lines text
  bullets (string s) = some (map (λ c. text "- " ++ c) (characters s))
  bullets (array vs) = some (item_lines vs)
  bullets (object ms) = some (map (λ k. text "- " ++ k) (key_texts ms))
  bullets _ = none

  unfoldable pub shown_blockers : Option Json → Option (List Text)
  unfolding bullets
  shown_blockers none = some []
  shown_blockers (some v) = if is_true v then bullets v else some []

  -- `v.upper()`
  unfoldable pub upper_of : Json → Option Text
  upper_of (string s) = some (py.upper s)
  upper_of _ = none

  unfoldable pub report_title : SessionRow → Option Json → Text
  unfolding text
  report_title r summary = 35 ∷ show_nat number_shown ++ (text " — " ++ (shown summary ++ link))
    where
      number_shown : ℕ
      number_shown = if or_else r.issue_number 0 == 0 then r.id else or_else r.issue_number 0

      shown : Option Json → Text
      shown none = text "(no summary)"
      shown (some v) = py.str v

      link : Text
      link = if truthy r.pr_url then text " → [PR](" ++ (or_else r.pr_url [] ++ text ")") else []

  -- The members of a report that the expander reads, one by one.
  unfoldable pub report_of : SessionRow → Members → Option Report
  unfolding json_or truth shown_files shown_blockers upper_of report_title check_mark text lookup
  report_of r ms = do
    risk ← upper_of (json_or (lookup (text "risk_level") ms) (string (text "?")))
    files ← shown_files (lookup (text "files_changed") ms)
    blockers ← shown_blockers (lookup (text "blockers") ms)
    some (record {
      title = report_title r (lookup (text "summary") ms);
      risk = risk;
      tests_run = check_mark (truth (lookup (text "tests_run") ms));
      tests_passing = check_mark (truth (lookup (text "tests_passing") ms));
      flagged = truth (lookup (text "needs_human_review") ms);
      files = files;
      blockers = blockers;
    })

  -- A report that is no dict has no `get`.
  unfoldable pub show_report : SessionRow → Json → Option Report
  unfolding report_of
  show_report r (object ms) = report_of r ms
  show_report r _ = none

  -- The output that the row holds, parsed; a row without one has an empty dict in the table.
  unfoldable pub parsed_output : SessionRow → Option (Option Json)
  parsed_output r =
      if truthy r.structured_output_json
      then (py.loads (or_else r.structured_output_json []) >>= λ v. some (some v))
      else some none

  unfoldable pub key_in_output : Text → Option Json → Option (Option Json)
  unfolding get_key
  key_in_output key none = some none
  key_in_output key (some v) = get_key key v

  unfoldable pub cells : List SessionRow → SessionRow → Json → Json → TableRow
  unfolding detail_cell duration_cell text status_label
  cells all_rows r summary risk = record {
    stage = stage_label (stage_text (compute_stage r all_rows));
    status = status_label r.status;
    trigger = r.trigger_type;
    issue = r.trigger_ref;
    devin = or_else r.devin_url [];
    pr = or_else r.pr_url [];
    summary = summary;
    risk = risk;
    acus = if r.acus_consumed == 0 then text "—" else py.two_decimals r.acus_consumed;
    duration = duration_cell pd r;
    started = r.started_at;
    detail = detail_cell r;
  }

  unfoldable pub table_row : List SessionRow → SessionRow → Option TableRow
  unfolding parsed_output key_in_output json_or slice cells text
  table_row all_rows r = do
    output ← parsed_output r
    found_summary ← key_in_output (text "summary") output
    summary ← slice 80 (json_or found_summary (string (text "—")))
    found_risk ← key_in_output (text "risk_level") output
    some (cells all_rows r summary (json_or found_risk (string (text "—"))))

  unfoldable pub table_rows : List SessionRow → List SessionRow → Option (List TableRow)
  unfolding table_row
  table_rows all_rows [] = some []
  table_rows all_rows (r ∷ rs) = do
    row ← table_row all_rows r
    rest ← table_rows all_rows rs
    some (row ∷ rest)

  -- One expander for each row that has an output.
  unfoldable pub add_report : SessionRow → Option Json → List Report → Option (List Report)
  unfolding show_report
  add_report r none rest = some rest
  add_report r (some v) rest = show_report r v >>= λ report. some (report ∷ rest)

  unfoldable pub reports : List SessionRow → Option (List Report)
  unfolding parsed_output add_report
  reports [] = some []
  reports (r ∷ rs) = do output ← parsed_output r; rest ← reports rs; add_report r output rest

  -- The sessions table with the reports below it, under the sidebar's two controls.
  unfoldable pub sessions_section :
      Bool → List Text → List SessionRow → Option (List TableRow × List Report)
  unfolding table_rows reports visible
  sessions_section show_terminal label_filter rows = do
    table ← table_rows rows (visible show_terminal label_filter rows)
    expanders ← reports (visible show_terminal label_filter rows)
    some (table, expanders)
