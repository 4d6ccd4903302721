-- ===== src/Dashboard/Reports/Sections.antt =====
-- The sessions table and the reports, where Devin kept to the shape.
use cognition_devin_automati.Prelude.{
  ◌≡◌, ◌⊎◌, true, or_else, some, [], refl, List, Bool-cases, inr, inl, false, if◌then◌else◌, none,
  Bool, ◌∷◌, ap, suc,
}
use cognition_devin_automati.Prelude.Json.{
  Json, Members, null, number, string, boolean, array, object, is_true, get_key, lookup,
}
use cognition_devin_automati.Dashboard.Reports.{
  Python, Report, report_of, show_report, json_or, upper_of, report_title, table_row, parsed_output,
  check_mark, key_in_output, truth, TableRow, slice, table_rows, reports, sessions_section, cells,
  add_report,
}
use cognition_devin_automati.Dashboard.{Pandas, visible}
use cognition_devin_automati.Sessions.{SessionRow}
use cognition_devin_automati.Prompts.Schema.{conforms, cve_remediation_schema, risk_levels}
use cognition_devin_automati.Prelude.Texts.{truthy, Text, member, text, nonempty}
use cognition_devin_automati.Dashboard.Reports.Shown.{
  Conforming, conforming, risk_value, files_shown, blockers_shown, levels_nonempty, summary_value,
}
use cognition_devin_automati.Prelude.Lists.{All, length, count_by, take}

module _ (py : Python) (pd : Pandas) where
  -- The row's output is parsed to a report of the schema, or there is none.
  abbrev pub IsReported : SessionRow → Type 0
  IsReported r =
      (truthy r.structured_output_json ≡ true)
      → (v : Json) × ((py.loads (or_else r.structured_output_json []) ≡ some v)
          × (conforms cve_remediation_schema v ≡ true))

  -- Its risk is one of the levels of the schema, in upper case.
  abbrev pub HasRisk : Report → Type 0
  HasRisk report = (s : Text) × ((member s risk_levels ≡ true) × (report.risk ≡ py.upper s))

  object_of :
      (v : Json)
      → conforms cve_remediation_schema v ≡ true
      → (ms : Members) × ((v ≡ object ms) × Conforming ms)
  unfolding conforms
  object_of (object ms) h = (ms, (refl, conforming ms (unfold conforms in h)))
  object_of null h = cc h
  object_of (boolean b) h = cc h
  object_of (number b t) h = cc h
  object_of (string s) h = cc h
  object_of (array vs) h = cc h

  report_of-shown :
      (r : SessionRow) (ms : Members)
      → Conforming ms
      → (report : Report) × ((report_of py pd r ms ≡ some report) × HasRisk report)
  unfolding report_of json_or upper_of is_true
  report_of-shown r ms c =
      let (s, (found, known)) = risk_value ms c in
      let (files, shown) = files_shown ms c in
      let (blockers, listed) = blockers_shown py pd ms c in
      (
        record {
          title = report_title py pd r (lookup (text "summary") ms);
          risk = py.upper s;
          tests_run = check_mark (truth (lookup (text "tests_run") ms));
          tests_passing = check_mark (truth (lookup (text "tests_passing") ms));
          flagged = truth (lookup (text "needs_human_review") ms);
          files = files;
          blockers = blockers;
        },
        (rw found (rw (levels_nonempty s known) (rw shown (rw listed refl))), (s, (known, refl))),
      )

  show_report-shown :
      (r : SessionRow) (v : Json)
      → conforms cve_remediation_schema v ≡ true
      → (report : Report) × ((show_report py pd r v ≡ some report) × HasRisk report)
  unfolding show_report
  show_report-shown r v h =
      let (ms, (is_object, c)) = object_of v h in
      let (report, (shown, risk)) = report_of-shown r ms c in (report, (rw is_object shown, risk))

  parsed :
      (r : SessionRow)
      → IsReported r
      → ((truthy r.structured_output_json ≡ false) × (parsed_output py pd r ≡ some none))
        ⊎ ((truthy r.structured_output_json ≡ true)
            × ((v : Json) × ((parsed_output py pd r ≡ some (some v))
                  × (conforms cve_remediation_schema v ≡ true))))
  unfolding parsed_output
  parsed r h = elim (Bool-cases (truthy r.structured_output_json)) [
    | inr without ↦ inl (without, rw without refl)
    | inl given ↦ let (v, (loaded, c)) = h given in inr (given, (v, (rw given (rw loaded refl), c)))
  ]

  text_or :
      (s d : Text) → json_or (some (string s)) (string d) ≡ string (if nonempty s then s else d)
  unfolding json_or is_true
  text_or [] d = refl
  text_or (c ∷ s) d = refl

  table_row-shown :
      (all_rows : List SessionRow) (r : SessionRow)
      → IsReported r
      → (row : TableRow) × (table_row py pd all_rows r ≡ some row)
  unfolding table_row key_in_output get_key slice
  table_row-shown all_rows r h = elim (parsed r h) [
    | inl (without, none_parsed) ↦ (
      cells py pd all_rows r (string (text "—")) (string (text "—")),
      rw none_parsed (unfold json_or in unfold text in refl),
    )
    | inr (given, (v, (loaded, meets))) ↦
        let (ms, (is_object, c)) = object_of v meets in
        let (s, found) = summary_value ms c in
        (
          cells py pd all_rows r (string (take 80 (if nonempty s then s else text "—")))
              (json_or (lookup (text "risk_level") ms) (string (text "—"))),
          rw loaded (rw is_object (rw found (rw (text_or s (text "—")) refl))),
        )
  ]

  table_rows-shown :
      (all_rows rows : List SessionRow)
      → All IsReported rows
      → (table : List TableRow) × ((table_rows py pd all_rows rows ≡ some table)
          × (length table ≡ length rows))
  unfolding table_rows
  table_rows-shown all_rows [] h = ([], (refl, refl))
  table_rows-shown all_rows (r ∷ rs) h =
      let (row, shown) = table_row-shown all_rows r h.0 in
      let (table, (rest, same)) = table_rows-shown all_rows rs h.1 in
      (row ∷ table, (rw shown (rw rest refl), ap suc same))

  reports-shown :
      (rows : List SessionRow)
      → All IsReported rows
      → (expanders : List Report) × ((reports py pd rows ≡ some expanders)
          × ((length expanders ≡ count_by (λ r. truthy r.structured_output_json) rows)
              × All HasRisk expanders))
  unfolding reports add_report count_by
  reports-shown [] h = ([], (refl, (refl, tt)))
  reports-shown (r ∷ rs) h =
      let (expanders, (rest, (counted, risks))) = reports-shown rs h.1 in
      elim (parsed r h.0) [
        | inl (without, none_parsed) ↦
            (expanders, (rw none_parsed (rw rest refl), (rw (without, count_by) counted, risks)))
        | inr (given, (v, (loaded, meets))) ↦
            let (report, (shown, risk)) = show_report-shown r v meets in
            (
              report ∷ expanders,
              (
                rw loaded (rw rest (rw shown refl)),
                (rw (given, count_by) (ap suc counted), (risk, risks)),
              ),
            )
      ]

  -- Where each visible row that holds an output holds a report of the shape that was asked of Devin,
  -- no access of the section to a report raises: the table has a row for each visible session, there
  -- is an expander for each of them that holds an output, and each shows one of the three risk levels.
  pub sessions_section-shown :
      (show_terminal : Bool) (label_filter : List Text) (rows : List SessionRow)
      → All IsReported (visible show_terminal label_filter rows)
      → let shown_rows = visible show_terminal label_filter rows in
        (view : List TableRow × List Report) × ((sessions_section py pd show_terminal label_filter
              rows
            ≡ some view)
          × ((length view.0 ≡ length shown_rows)
              × ((length view.1 ≡ count_by (λ r. truthy r.structured_output_json) shown_rows)
                  × All HasRisk view.1)))
  unfolding sessions_section
  sessions_section-shown show_terminal label_filter rows h =
      let shown_rows = visible show_terminal label_filter rows in
      let (table, (listed, same)) = table_rows-shown rows shown_rows h in
      let (expanders, (expanded, (counted, risks))) = reports-shown shown_rows h in
      ((table, expanders), (rw listed (rw expanded refl), (same, (counted, risks))))
