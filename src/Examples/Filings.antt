-- ===== src/Examples/Filings.antt =====
-- The filing of findings, the way back from an issue's body, and a scan.
use cognition_devin_automati.Prelude.Texts.{
  Text, text, is_space, in_range, starts_with, drop_prefix, lstrip, rstrip, drop_blank, strip,
  text_eq,
}
use cognition_devin_automati.Findings.{Finding}
use cognition_devin_automati.Prompts.Fields.Lines.{OneLine}
use cognition_devin_automati.Findings.Filing.{Gh, issue_body, shown_summary}
use cognition_devin_automati.Findings.Filing.Parsed.{parse-issue_body, Plain, context}
use cognition_devin_automati.Findings.Filing.Forged.{parse-forged, forged}
use cognition_devin_automati.Findings.Scan.{
  Vulnerability, scan, parse_requirements, requirement_of, uncommented, add_requirement,
  match_requirement, match_version, pinned, is_alnum, is_req_name, is_req_version, take_while,
  drop_while, findings_of_package, add_finding, finding_of, cve_alias, extract_fix_version,
  fix_of_affected, first_in_ranges, first_fixed, severity_of, cvss_score,
}
use cognition_devin_automati.Findings.Scan.Shapes.{scan-IsShaped, IsShaped, subject, subjects}
use cognition_devin_automati.Examples.Data.{issue}
use cognition_devin_automati.Prelude.{refl, some, ◌∷◌, List, ◌≡◌, Option, [], true, none, map}
use cognition_devin_automati.Prelude.Lists.{All}
use cognition_devin_automati.World.{Issue}
use cognition_devin_automati.Handlers.Security.{parse_issue_to_cve_context, issue_url, issue_number}

abbrev finding : Finding
finding = record {
  package_name = text "flask";
  installed_version = text "1.0";
  vuln_id = text "G-1";
  cve_id = text "C-1";
  aliases = text "C-1" ∷ [];
  summary = text "bad cookie";
  severity = text "LOW";
  fix_version = some (text "2.0");
  fixable = true;
}

abbrev two_line_finding : Finding
two_line_finding = record finding { summary = text "bad\n- **Package:** evil" }

abbrev filed_issue : Finding → Issue
filed_issue f = record issue { body = some (issue_body f) }

-- Knows no issue, and files each.
abbrev gh : Gh
gh = record { list = λ calls cve_id. some []; create = λ calls title body. some (text "u") }

cve_line : OneLine (text "C-1")
unfolding text is_space in_range
cve_line = record { starts = refl; ink = (λ e. cc, (λ e. cc, refl)) }

fix_line : OneLine (text "2.0")
unfolding text is_space in_range
fix_line = record { starts = refl; ink = (λ e. cc, (λ e. cc, refl)) }

installed_line : OneLine (text "1.0")
unfolding text is_space in_range
installed_line = record { starts = refl; ink = (λ e. cc, (λ e. cc, refl)) }

severity_line : OneLine (text "LOW")
unfolding text is_space in_range
severity_line = record { starts = refl; ink = (λ e. cc, (λ e. cc, refl)) }

bad_line : OneLine (text "bad")
unfolding text is_space in_range
bad_line = record { starts = refl; ink = (λ e. cc, (λ e. cc, refl)) }

evil_line : OneLine (text "evil")
unfolding text is_space in_range
evil_line = record { starts = refl; ink = (λ e. cc, (λ e. cc, (λ e. cc, refl))) }

package_line : OneLine (text "flask")
unfolding text is_space in_range
package_line = record { starts = refl; ink = (λ e. cc, (λ e. cc, (λ e. cc, (λ e. cc, refl)))) }

summary_line : OneLine (shown_summary finding)
unfolding text is_space in_range shown_summary
summary_line = record {
  starts = refl;
  ink = (
    λ e. cc,
    (λ e. cc, (λ e. cc, (λ e. cc, (λ e. cc, (λ e. cc, (λ e. cc, (λ e. cc, (λ e. cc, refl)))))))),
  );
}

plain : (summary : Text) → Plain (record finding { summary = summary }) (text "2.0")
plain summary = record {
  cve_line = cve_line;
  package_line = package_line;
  installed_line = installed_line;
  fix_line = fix_line;
  severity_line = severity_line;
  fixed = refl;
}

parse-issue_body_example :
    parse_issue_to_cve_context (filed_issue finding)
    ≡ some (
        context finding
          (text "2.0")
          (shown_summary finding)
          (issue_url (filed_issue finding))
          (issue_number (filed_issue finding)))
parse-issue_body_example =
    parse-issue_body finding (text "2.0") (filed_issue finding) (plain finding.summary) summary_line
      refl

two_lines_shown : shown_summary two_line_finding ≡ forged (text "bad") (text "evil")
unfolding shown_summary text
two_lines_shown = refl

parse-forged_example :
    parse_issue_to_cve_context (filed_issue two_line_finding)
    ≡ some
        (record (context two_line_finding
          (text "2.0")
          (text "bad")
          (issue_url (filed_issue two_line_finding))
          (issue_number (filed_issue two_line_finding))) { package_name = text "evil" })
parse-forged_example =
    parse-forged two_line_finding (text "2.0") (text "bad") (text "evil")
      (filed_issue two_line_finding) (plain two_line_finding.summary) bad_line evil_line
      two_lines_shown refl

abbrev osv_details : Text → Option Vulnerability
osv_details vuln_id = some (record {
  aliases = text "C-1" ∷ [];
  summary = some (text "bad cookie");
  affected =
      record { ecosystem = some (text "PyPI"); ranges = (none ∷ some (text "2.0") ∷ []) ∷ [] } ∷ [];
  severity = [];
  database_severity = some (text "LOW");
})

abbrev osv_finding : Finding
osv_finding = record finding { cve_id = text "G-1" }

abbrev requirements : List Text
requirements = text "# pins" ∷ text "flask==1.0  # web" ∷ text "-e ./core" ∷ []

scanned :
    scan osv_details (parse_requirements requirements) ((text "G-1" ∷ []) ∷ [])
    ≡ some (osv_finding ∷ [])
unfolding scan parse_requirements requirement_of uncommented add_requirement match_requirement
    match_version pinned is_alnum is_req_name is_req_version take_while drop_while
    findings_of_package add_finding finding_of cve_alias extract_fix_version fix_of_affected
    first_in_ranges first_fixed severity_of cvss_score text is_space in_range starts_with
    drop_prefix lstrip rstrip drop_blank strip text_eq
scanned = refl

scan-IsShaped_example :
    All IsShaped (osv_finding ∷ [])
    × (map subject (osv_finding ∷ [])
        ≡ subjects (parse_requirements requirements) ((text "G-1" ∷ []) ∷ []))
scan-IsShaped_example =
    scan-IsShaped osv_details requirements ((text "G-1" ∷ []) ∷ []) (osv_finding ∷ []) scanned
