-- ===== src/Findings/Filing/Parsed.antt =====
-- The parser of app/prompts/cve.py reads back what superset-fork-scripts/file_issues.py writes.
use cognition_devin_automati.Findings.{Finding}
use cognition_devin_automati.Prompts.Fields.{
  find_from, match_field, spaces_then, literal_then, finditer, is_name_char,
}
use cognition_devin_automati.Prelude.Texts.{
  Text, text, join_lines, is_space, in_range, text_eq, lower, strip, rstrip, lstrip, drop_blank,
  show_opt,
}
use cognition_devin_automati.Prompts.Fields.Lines.{
  OneLine, NoNewline, strip-OneLine, nonempty-OneLine, IsInk-NoNewline,
}
use cognition_devin_automati.Prelude.{◌∷◌, ◌≡◌, some, ◌++◌, [], zero, true, List, refl, ap, ◌∙◌, ℕ}
use cognition_devin_automati.Prompts.Fields.Matches.{
  find_from-line, field_line, find_from-field, find_from-last_field,
}
use cognition_devin_automati.Prompts.{context_of_fields, CveContext, field}
use cognition_devin_automati.Handlers.Security.{parse_issue_to_cve_context, issue_url, issue_number}
use cognition_devin_automati.Findings.Filing.{issue_body, shown_summary}
use cognition_devin_automati.World.{Issue}

-- What is shown in a body stands on one line each.
pub record Plain (f : Finding) (fix : Text) : Type 0 where
  pub cve_line : OneLine f.cve_id
  pub package_line : OneLine f.package_name
  pub installed_line : OneLine f.installed_version
  pub fix_line : OneLine fix
  pub severity_line : OneLine f.severity
  pub fixed : f.fix_version ≡ some fix

-- The body below the fields.
abbrev pub footer : Text → Text
footer cve_id = join_lines (
    text "## OSV link"
    ∷ (text "https://osv.dev/vulnerability/" ++ cve_id)
    ∷ []
    ∷ text "## Remediation"
    ∷ text
        "This issue will be auto-remediated by Devin via the `devin-remediate` + `devin-security` labels. "
    ∷ text "Watch the orchestrator dashboard for status."
    ∷ []
    ∷ text "---"
    ∷ text "*Filed automatically by the nightly CVE scan workflow.*"
    ∷ [])

pub find_from-footer :
    (cve_id : Text) → NoNewline cve_id → find_from zero true (10 ∷ footer cve_id) ≡ []
unfolding find_from match_field spaces_then literal_then text is_space in_range join_lines
find_from-footer cve_id h = find_from-line cve_id _ h

-- The first five fields, and then another line that starts with a dash.
abbrev pub five : Finding → Text → Text → Text
five f fix rest =
    text "## Vulnerability"
    ++ 10
      ∷ (field_line (text "CVE") f.cve_id
          ++ 10
            ∷ (field_line (text "Package") f.package_name
                ++ 10
                  ∷ (field_line (text "Installed") f.installed_version
                      ++ 10
                        ∷ (field_line (text "Fix version") fix
                            ++ 10 ∷ (field_line (text "Severity") f.severity ++ 10 ∷ rest)))))

abbrev pub found_five : Finding → Text → List (Text × Text) → List (Text × Text)
found_five f fix more =
    (text "CVE", f.cve_id)
    ∷ (text "Package", f.package_name)
    ∷ (text "Installed", f.installed_version)
    ∷ (text "Fix version", fix)
    ∷ (text "Severity", f.severity)
    ∷ more

find_from-heading :
    (s : Text) → find_from zero true (text "## Vulnerability" ++ 10 ∷ s) ≡ find_from zero true s
unfolding find_from match_field spaces_then literal_then text is_space in_range
find_from-heading s = refl

pub found : (p : Text × Text) {l m : List (Text × Text)} → l ≡ m → p ∷ l ≡ p ∷ m
found p e = ap (λ (l : List (Text × Text)). p ∷ l) e

pub finditer-five :
    (f : Finding) (fix s : Text)
    → Plain f fix
    → finditer (five f fix (45 ∷ s)) ≡ found_five f fix (find_from zero true (45 ∷ s))
unfolding finditer text is_name_char in_range is_space
finditer-five f fix s h =
    find_from-heading _
    ∙ find_from-field 67 45 (text "VE") f.cve_id _ (refl, (refl, (refl, tt))) h.cve_line refl
    ∙ found _ (
        find_from-field 80 45 (text "ackage") f.package_name _
          (refl, (refl, (refl, (refl, (refl, (refl, (refl, tt))))))) h.package_line refl
        ∙ found _ (
            find_from-field 73 45 (text "nstalled") f.installed_version _
              (refl, (refl, (refl, (refl, (refl, (refl, (refl, (refl, (refl, tt)))))))))
              h.installed_line refl
            ∙ found _ (
                find_from-field 70 45 (text "ix version") fix _
                  (
                    refl,
                    (
                      refl,
                      (refl, (refl, (refl, (refl, (refl, (refl, (refl, (refl, (refl, tt))))))))),
                    ),
                  )
                  h.fix_line refl
                ∙ found _ (
                    find_from-field 83 45 (text "everity") f.severity _
                      (refl, (refl, (refl, (refl, (refl, (refl, (refl, (refl, tt))))))))
                      h.severity_line refl))))

abbrev pub context : Finding → Text → Text → Text → ℕ → CveContext
context f fix summary url number = record {
  cve_id = f.cve_id;
  package_name = f.package_name;
  installed_version = f.installed_version;
  fix_version = fix;
  severity = f.severity;
  summary = summary;
  issue_url = url;
  issue_number = number;
}

context_of_five :
    (f : Finding) (fix summary url : Text) (number : ℕ)
    → Plain f fix
    → OneLine summary
    → context_of_fields (found_five f fix ((text "Summary", summary) ∷ [])) url number
      ≡ some (context f fix summary url number)
unfolding context_of_fields field text text_eq lower in_range strip rstrip lstrip drop_blank
    is_space
context_of_five f fix summary url number h one = rw (strip-OneLine f.cve_id h.cve_line) (
    rw (strip-OneLine f.package_name h.package_line) (
      rw (strip-OneLine f.installed_version h.installed_line) (
        rw (strip-OneLine fix h.fix_line) (
          rw (strip-OneLine f.severity h.severity_line) (
            rw (strip-OneLine summary one) (
              rw (nonempty-OneLine f.cve_id h.cve_line)
                (rw (nonempty-OneLine f.package_name h.package_line) refl)))))))

-- The end of the body: the summary, and the footer.
abbrev ending : Text → Text → Text
ending summary cve_id = field_line (text "Summary") summary ++ 10 ∷ 10 ∷ footer cve_id

-- The same without its dash.
abbrev pub ending_tail : Text → Text → Text
ending_tail summary cve_id = text " **Summary:** " ++ summary ++ 10 ∷ 10 ∷ footer cve_id

pub issue_body-five :
    (f : Finding) (fix : Text)
    → Plain f fix
    → issue_body f ≡ five f fix (45 ∷ ending_tail (shown_summary f) f.cve_id)
unfolding issue_body text join_lines show_opt
issue_body-five f fix h = rw h.fixed refl

find_from-ending :
    (f : Finding) (fix summary : Text)
    → Plain f fix
    → OneLine summary
    → find_from zero true (45 ∷ ending_tail summary f.cve_id) ≡ (text "Summary", summary) ∷ []
unfolding text is_name_char in_range is_space join_lines
find_from-ending f fix summary h one =
    find_from-last_field 83 35 (text "ummary") summary _
      (refl, (refl, (refl, (refl, (refl, (refl, (refl, tt))))))) one refl
    ∙ found _ (find_from-footer f.cve_id (IsInk-NoNewline f.cve_id h.cve_line.ink))

-- An issue that the script writes is read back as it was meant: where the CVE id, the package, the
-- two versions, the severity and the shown summary of a fixable finding each stand on one line with
-- no white space around them, the parser gives exactly them, with the issue's URL and number.
pub parse-issue_body :
    (f : Finding) (fix : Text) (issue : Issue)
    → Plain f fix
    → OneLine (shown_summary f)
    → issue.body ≡ some (issue_body f)
    → parse_issue_to_cve_context issue
      ≡ some (context f fix (shown_summary f) (issue_url issue) (issue_number issue))
unfolding parse_issue_to_cve_context issue_url issue_number
parse-issue_body f fix issue h one body = rw body (
    ap (λ (ms : List (Text × Text)). context_of_fields ms (issue_url issue) (issue_number issue))
      (ap finditer (issue_body-five f fix h)
        ∙ finditer-five f fix _ h
        ∙ ap (found_five f fix) (find_from-ending f fix (shown_summary f) h one))
    ∙ context_of_five f fix (shown_summary f) (issue_url issue) (issue_number issue) h one)
