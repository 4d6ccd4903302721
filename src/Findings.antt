-- ===== src/Findings.antt =====
-- The findings that scripts/scan_osv.py writes and superset-fork-scripts/file_issues.py reads, and
-- what becomes of them.
pub mod Scan
pub mod Filing
use cognition_devin_automati.Prelude.Texts.{Text}
use cognition_devin_automati.Prelude.{List, Option, Bool}

-- One entry of the JSON list.
pub record Finding : Type 0 where
  pub package_name : Text
  pub installed_version : Text
  pub vuln_id : Text
  pub cve_id : Text
  pub aliases : List Text
  pub summary : Text
  pub severity : Text
  pub fix_version : Option Text
  pub fixable : Bool
