-- ===== src/Prompts.antt =====
-- app/prompts: the contexts from which the prompts are built, the parser of an issue's body and
-- the check of the fields.
pub mod Fields
pub mod Schema
pub mod Wording
use cognition_devin_automati.Prelude.{
  ℕ, Bool, ◌||◌, not, Option, none, some, List, [], ◌∷◌, ◌++◌, if◌then◌else◌, or_else,
}
use cognition_devin_automati.Prelude.Texts.{
  Text, text, text_eq, nonempty, truthy, member, lower, strip,
}

-- app/prompts/cve.py
pub record CveContext : Type 0 where
  pub cve_id : Text
  pub package_name : Text
  pub installed_version : Text
  pub fix_version : Text
  pub severity : Text
  pub summary : Text
  pub issue_url : Text
  pub issue_number : ℕ

-- app/prompts/ci_fix.py
pub record CiFixContext : Type 0 where
  pub pr_url : Text
  pub branch : Text
  pub workflow_name : Text
  pub failure_logs_tail : Text
  pub attempt_number : ℕ
  pub max_attempts : ℕ

-- A prompt is the template with the values that it is filled with. The parent's prompt of a CI fix
-- is None where it was not preserved.
pub data Prompt : Type 0 where
  cve_prompt : CveContext → Text → Prompt
  ci_fix_prompt : CiFixContext → Prompt → Prompt
  not_preserved : Prompt

unfoldable pub placeholder_versions : List Text
unfolding text
placeholder_versions = text "latest" ∷ text "unknown" ∷ text "" ∷ text "n/a" ∷ text "tbd" ∷ []

-- `not v or v.lower() in _PLACEHOLDER_VERSIONS`
unfoldable pub is_placeholder : Text → Bool
unfolding placeholder_versions
is_placeholder v = not (nonempty v) || member (lower v) placeholder_versions

-- One name of a missing field, if the test says so.
missing_if : Bool → Text → List Text
missing_if b name = if b then name ∷ [] else []

unfoldable pub missing_required_fields : CveContext → List Text
unfolding missing_if text
missing_required_fields c =
    missing_if (is_placeholder c.cve_id) (text "cve_id")
    ++ (missing_if (not (nonempty c.package_name)) (text "package")
        ++ (missing_if (is_placeholder c.installed_version) (text "installed_version")
            ++ (missing_if (is_placeholder c.fix_version) (text "fix_version")
                ++ missing_if (not (nonempty c.issue_url)) (text "issue_url"))))

-- `fields.get(name)` of the dict that the matches build, each key stripped and lowered and each
-- value stripped: the last match of a name wins.
unfoldable pub field : Text → List (Text × Text) → Option Text
field name [] = none
field name ((k, v) ∷ ms) =
    let later = field name ms in
    let here = if text_eq (lower (strip k)) name then some (strip v) else none in
    elim later [ some w ↦ some w | none ↦ here ]

-- The part of `parse_issue_to_cve_context` behind the dict of fields.
unfoldable pub context_of_fields : List (Text × Text) → Text → ℕ → Option CveContext
unfolding text
context_of_fields ms html_url number =
    let cve_id = field (text "cve") ms in
    let package_name = field (text "package") ms in
    if truthy cve_id
    then if truthy package_name
      then some (record {
        cve_id = or_else cve_id [];
        package_name = or_else package_name [];
        installed_version = or_else (field (text "installed") ms) [];
        fix_version = or_else (field (text "fix version") ms) [];
        severity = or_else (field (text "severity") ms) (text "UNKNOWN");
        summary = or_else (field (text "summary") ms) [];
        issue_url = html_url;
        issue_number = number;
      })
      else none
    else none
