-- ===== src/Findings/Scan.antt =====
-- scripts/scan_osv.py: the pinned packages of a requirements file, looked up at OSV.dev.
pub mod Shapes
use cognition_devin_automati.Prelude.Texts.{
  Text, text, in_range, is_space, strip, lstrip, starts_with, nonempty, holds_text, contains,
  truthy, drop_prefix,
}
use cognition_devin_automati.Findings.{Finding}
use cognition_devin_automati.Prelude.{
  first_of, ℕ, Option, List, or_else, Bool, none, not, if◌then◌else◌, some, ◌∷◌, [], ◌||◌, ◌==◌,
  is_some,
}
use cognition_devin_automati.Prelude.Lists.{take}

-- The pattern REQ_LINE, `^([A-Za-z0-9][A-Za-z0-9._-]*)\s*==\s*([^\s;#]+)`. What stands behind a
-- repetition never fits its class, so that its longest match is the only one that can go on.
unfoldable pub is_alnum : ℕ → Bool
unfolding in_range
is_alnum c = in_range 48 57 c || (in_range 65 90 c || in_range 97 122 c)

-- [A-Za-z0-9._-]
unfoldable pub is_req_name : ℕ → Bool
unfolding is_alnum
is_req_name c = is_alnum c || (c == 46 || (c == 95 || c == 45))

-- [^\s;#]
unfoldable pub is_req_version : ℕ → Bool
unfolding is_space
is_req_version c = not (is_space c || (c == 59 || c == 35))

unfoldable pub take_while : (ℕ → Bool) → Text → Text
take_while p [] = []
take_while p (c ∷ s) = let rest = take_while p s in if p c then c ∷ rest else []

unfoldable pub drop_while : (ℕ → Bool) → Text → Text
drop_while p [] = []
drop_while p (c ∷ s) = if p c then drop_while p s else c ∷ s

unfoldable pub pinned : Text → Text → Option (Text × Text)
pinned name [] = none
pinned name (c ∷ version) = some (name, c ∷ version)

-- The pattern from `\s*==` on.
unfoldable pub match_version : Text → Text → Option (Text × Text)
unfolding pinned text
match_version name s =
    let rest = lstrip s in
    if starts_with (text "==") rest
    then pinned name (take_while is_req_version (lstrip (drop_prefix (text "==") rest)))
    else none

unfoldable pub match_requirement : Text → Option (Text × Text)
unfolding match_version
match_requirement [] = none
match_requirement (c ∷ s) =
    if is_alnum c
    then match_version (c ∷ take_while is_req_name s) (drop_while is_req_name s)
    else none

-- `raw.split("#", 1)[0].strip()`
unfoldable pub uncommented : Text → Text
uncommented raw = strip (take_while (λ c. not (c == 35)) raw)

unfoldable pub requirement_of : Text → Option (Text × Text)
unfolding text match_requirement
requirement_of line =
    if not (nonempty line) || starts_with (text "-") line then none else match_requirement line

unfoldable pub add_requirement : Option (Text × Text) → List (Text × Text) → List (Text × Text)
add_requirement none pkgs = pkgs
add_requirement (some p) pkgs = p ∷ pkgs

-- Of the lines that `splitlines` gives.
unfoldable pub parse_requirements : List Text → List (Text × Text)
unfolding requirement_of uncommented add_requirement
parse_requirements [] = []
parse_requirements (raw ∷ lines) =
    add_requirement (requirement_of (uncommented raw)) (parse_requirements lines)

-- The fields of an OSV record that are read. An event may have a fixed version.
pub record Affected : Type 0 where
  pub ecosystem : Option Text
  pub ranges : List (List (Option Text))

pub record Vulnerability : Type 0 where
  pub aliases : List Text
  pub summary : Option Text
  pub affected : List Affected
  -- the type and the score of each severity
  pub severity : List (Option Text × Option Text)
  pub database_severity : Option Text

unfoldable pub first_fixed : List (Option Text) → Option Text
first_fixed [] = none
first_fixed (e ∷ events) = first_of e (first_fixed events)

unfoldable pub first_in_ranges : List (List (Option Text)) → Option Text
unfolding first_fixed
first_in_ranges [] = none
first_in_ranges (r ∷ ranges) = first_of (first_fixed r) (first_in_ranges ranges)

unfoldable pub fix_of_affected : List Affected → Option Text
unfolding first_in_ranges text
fix_of_affected [] = none
fix_of_affected (a ∷ affected) =
    let later = fix_of_affected affected in
    if holds_text a.ecosystem (text "PyPI")
    then first_of (first_in_ranges a.ranges) later
    else later

unfoldable pub extract_fix_version : Vulnerability → Option Text
unfolding fix_of_affected
extract_fix_version vuln = fix_of_affected vuln.affected

unfoldable pub cvss_score : List (Option Text × Option Text) → Option Text
unfolding text
cvss_score [] = none
cvss_score ((kind, score) ∷ rest) =
    if contains (text "CVSS_V3") (or_else kind [])
    then some (or_else score (text "?"))
    else cvss_score rest

unfoldable pub severity_of : Vulnerability → Text
unfolding cvss_score text
severity_of vuln =
    or_else (cvss_score vuln.severity)
      (if truthy vuln.database_severity then or_else vuln.database_severity [] else text "UNKNOWN")

-- `next((a for a in aliases if a.startswith("CVE-")), vid)`
unfoldable pub cve_alias : List Text → Text → Text
unfolding text
cve_alias [] vuln_id = vuln_id
cve_alias (a ∷ aliases) vuln_id =
    if starts_with (text "CVE-") a then a else cve_alias aliases vuln_id

unfoldable pub finding_of : Text → Text → Text → Vulnerability → Finding
unfolding cve_alias extract_fix_version severity_of
finding_of name version vuln_id vuln = record {
  package_name = name;
  installed_version = version;
  vuln_id = vuln_id;
  cve_id = cve_alias vuln.aliases vuln_id;
  aliases = vuln.aliases;
  summary = take 200 (or_else vuln.summary []);
  severity = severity_of vuln;
  fix_version = extract_fix_version vuln;
  fixable = is_some (extract_fix_version vuln);
}

-- `osv_details` answers with a record, or raises.
module _ (osv_details : Text → Option Vulnerability) where
  unfoldable pub add_finding :
      Text × Text → Text → Option Vulnerability → Option (List Finding) → Option (List Finding)
  unfolding finding_of
  add_finding pkg vuln_id none rest = none
  add_finding pkg vuln_id (some vuln) none = none
  add_finding pkg vuln_id (some vuln) (some fs) = some (finding_of pkg.0 pkg.1 vuln_id vuln ∷ fs)

  -- The findings of one package, in front of the later ones.
  unfoldable pub findings_of_package :
      Text × Text → List Text → Option (List Finding) → Option (List Finding)
  unfolding add_finding
  findings_of_package pkg [] rest = rest
  findings_of_package pkg (vuln_id ∷ vuln_ids) rest =
      add_finding pkg vuln_id (osv_details vuln_id) (findings_of_package pkg vuln_ids rest)

  -- The double loop of `main` over the packages and the ids that `osv_batch` gives for each; lists
  -- of different lengths make `zip(…, strict=True)` raise.
  unfoldable pub scan : List (Text × Text) → List (List Text) → Option (List Finding)
  unfolding findings_of_package
  scan [] [] = some []
  scan [] (ids ∷ results) = none
  scan (pkg ∷ pkgs) [] = none
  scan (pkg ∷ pkgs) (ids ∷ results) = findings_of_package pkg ids (scan pkgs results)
