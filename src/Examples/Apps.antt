-- ===== src/Examples/Apps.antt =====
-- The application, its clients and the reports on its dashboard.
use cognition_devin_automati.Prelude.{ℕ, ◌≡◌, List, false, true, some, ◌∷◌, [], ◌≤◌, refl}
use cognition_devin_automati.Prelude.Threads.{interleave}
use cognition_devin_automati.Sessions.Unique.{IsValid}
use cognition_devin_automati.Prelude.Lists.{All, length, count_by}
use cognition_devin_automati.Prompts.Schema.{
  conforms, all_fit, has_all, fits_known, fits, shape_of, all_strings, count_items,
  cve_remediation_schema, risk_levels,
}
use cognition_devin_automati.Dashboard.Reports.{Python, TableRow, Report, sessions_section}
use cognition_devin_automati.App.{
  run_app, Happening, asks, get_metrics, post_webhook, ticks, post_reset,
}
use cognition_devin_automati.Prelude.Json.{
  Json, object, entry, string, boolean, array, item, no_items, no_members, lookup,
}
use cognition_devin_automati.Sessions.{SessionRow}
use cognition_devin_automati.Clients.{take_step, unbuilt}
use cognition_devin_automati.Prelude.Texts.{text, show_nat, member, text_eq, truthy}
use cognition_devin_automati.Examples.Data.{
  cfg, completed_row, env, crypto, two_rows, two_rows-IsValid, running_row,
}
use cognition_devin_automati.Dashboard.Reports.Sections.{
  IsReported, HasRisk, sessions_section-shown,
}
use cognition_devin_automati.World.{ok}
use cognition_devin_automati.Clients.Racing.{callers, sum_of, interleave_one_client}
use cognition_devin_automati.App.Refines.{run_app-IsValid}
use cognition_devin_automati.Clients.Single.{IsFirst}
use cognition_devin_automati.Clients.Progress.{ahead, interleave_can_finish}
use cognition_devin_automati.Examples.Reports.{pandas}
use cognition_devin_automati.Dashboard.{visible}

abbrev happenings : List Happening
happenings =
    asks get_metrics
    ∷ asks (post_webhook [] (some (text "issues")) (some (text "e")) (some (text "sha256=s")))
    ∷ ticks
    ∷ asks (post_reset (some (text "a")))
    ∷ []

run_app-IsValid_example : IsValid (run_app cfg true env crypto happenings two_rows).sessions
run_app-IsValid_example = run_app-IsValid cfg env crypto true happenings two_rows two_rows-IsValid

interleave_one_client_example :
    let t = interleave (take_step (ok tt)) (0 ∷ 1 ∷ 0 ∷ 1 ∷ 0 ∷ 0 ∷ 1 ∷ []) (callers 2) unbuilt in
    (t.1.built ≤ 1) × All (IsFirst (ok tt) t.1.client) t.0
interleave_one_client_example = interleave_one_client (ok tt) 2 (0 ∷ 1 ∷ 0 ∷ 1 ∷ 0 ∷ 0 ∷ 1 ∷ [])

interleave_can_finish_example :
    let t = interleave (take_step (ok tt)) (0 ∷ 1 ∷ 0 ∷ 1 ∷ []) (callers 2) unbuilt in
    (rest : List ℕ) × (sum_of ahead (interleave (take_step (ok tt)) rest t.0 t.1).0 ≡ 0)
interleave_can_finish_example = interleave_can_finish (ok tt) 2 (0 ∷ 1 ∷ 0 ∷ 1 ∷ [])

-- A report that keeps to the shape.
abbrev report : Json
report = object (
    entry (text "summary") (string (text "bumped")) (
      entry (text "tests_run") (boolean true) (
        entry (text "risk_level") (string (text "low")) (
          entry (text "needs_human_review") (boolean false) (
            entry (text "files_changed") (array (item (string (text "f")) no_items)) no_members)))))

abbrev py : Python
py = record {
  str = λ v. text "v";
  upper = λ s. s;
  loads = λ s. some report;
  two_decimals = show_nat;
}

report-conforms : conforms cve_remediation_schema report ≡ true
unfolding conforms all_fit has_all fits_known fits shape_of all_strings count_items lookup
    cve_remediation_schema risk_levels member text text_eq
report-conforms = refl

abbrev reported_row : SessionRow
reported_row = record completed_row { structured_output_json = some (text "j") }

abbrev reported_rows : List SessionRow
reported_rows = reported_row ∷ running_row ∷ []

all_visible : visible true [] reported_rows ≡ reported_rows
unfolding visible
all_visible = refl

reported_rows-IsReported : All (IsReported py pandas) (visible true [] reported_rows)
reported_rows-IsReported =
    rw all_visible (
      (λ held. (report, (refl, report-conforms))),
      ((λ held. (report, (refl, report-conforms))), tt),
    )

sessions_section-shown_example :
    (view : List TableRow × List Report) × ((sessions_section py pandas true [] reported_rows
        ≡ some view)
      × ((length view.0 ≡ length (visible true [] reported_rows))
          × ((length view.1
                ≡ count_by (λ r. truthy r.structured_output_json) (visible true [] reported_rows))
              × All (HasRisk py pandas) view.1)))
sessions_section-shown_example =
    sessions_section-shown py pandas true [] reported_rows reported_rows-IsReported
