-- ===== src/Findings/Filing.antt =====
-- superset-fork-scripts/file_issues.py: one issue for each fixable CVE that has none yet.
pub mod Distinct
pub mod Once
pub mod Parsed
pub mod Forged
use cognition_devin_automati.Prelude.Texts.{
  Text, text, join_lines, contains, show_opt, nonempty, member, truthy, strip,
}
use cognition_devin_automati.Findings.{Finding}
use cognition_devin_automati.Prelude.{
  Option, List, if◌then◌else◌, ◌++◌, ℕ, ◌∷◌, none, some, [], ◌==◌, or_else, ◌+◌,
}
use cognition_devin_automati.Prelude.Lists.{filter_by, take}

unfoldable pub issue_title : Finding → Text
unfolding text
issue_title f =
    text "[CVE] "
    ++ (f.package_name
        ++ (32
            ∷ (f.installed_version
                ++ (text " → "
                    ++ (show_opt f.fix_version ++ (text " (" ++ (f.cve_id ++ text ")")))))))

-- `finding.get('summary', '')[:300] or '(no summary provided by OSV)'`
unfoldable pub shown_summary : Finding → Text
unfolding text
shown_summary f =
    if nonempty (take 300 f.summary)
    then take 300 f.summary
    else text "(no summary provided by OSV)"

unfoldable pub issue_body : Finding → Text
unfolding text
issue_body f = join_lines (
    text "## Vulnerability"
    ∷ (text "- **CVE:** " ++ f.cve_id)
    ∷ (text "- **Package:** " ++ f.package_name)
    ∷ (text "- **Installed:** " ++ f.installed_version)
    ∷ (text "- **Fix version:** " ++ show_opt f.fix_version)
    ∷ (text "- **Severity:** " ++ f.severity)
    ∷ (text "- **Summary:** " ++ shown_summary f)
    ∷ []
    ∷ text "## OSV link"
    ∷ (text "https://osv.dev/vulnerability/" ++ f.cve_id)
    ∷ []
    ∷ text "## Remediation"
    ∷ text
        "This issue will be auto-remediated by Devin via the `devin-remediate` + `devin-security` labels. "
    ∷ text "Watch the orchestrator dashboard for status."
    ∷ []
    ∷ text "---"
    ∷ text "*Filed automatically by the nightly CVE scan workflow.*"
    ∷ [])

-- A row of `gh issue list --json url,title`.
pub record ListedIssue : Type 0 where
  pub url : Option Text
  pub title : Option Text

-- The commands that the script runs: the search for a CVE, and the issue of a finding, whose title
-- and body are `issue_title` and `issue_body`.
pub data GhCall : Type 0 where
  issue_list : Text → GhCall
  issue_create : Finding → GhCall

-- What `gh` answers, which may depend on all that was run before: none is a CalledProcessError.
pub record Gh : Type 0 where
  pub list : List GhCall → Text → Option (List ListedIssue)
  pub create : List GhCall → Text → Text → Option Text

-- The URL of the first row whose title holds the id.
unfoldable pub url_in : Text → List ListedIssue → Option Text
url_in cve_id [] = none
url_in cve_id (r ∷ rs) = if contains cve_id (or_else r.title []) then r.url else url_in cve_id rs

unfoldable pub listed_url : Text → Option (List ListedIssue) → Option Text
unfolding url_in
listed_url cve_id none = none
listed_url cve_id (some rows) = url_in cve_id rows

-- The counters of `main`.
pub record Tally : Type 0 where
  pub filed : ℕ
  pub skipped : ℕ
  pub failed : ℕ

-- In-run deduplication: the first finding of each CVE.
unfoldable pub unique_fixable : List Text → List Finding → List Finding
unique_fixable seen_in_run [] = []
unique_fixable seen_in_run (f ∷ fs) =
    if member f.cve_id seen_in_run
    then unique_fixable seen_in_run fs
    else f ∷ unique_fixable (f.cve_id ∷ seen_in_run) fs

-- `.stdout.strip()`
unfoldable pub stripped : Option Text → Option Text
stripped none = none
stripped (some out) = some (strip out)

module _ (gh : Gh) where
  unfoldable pub existing_issue_for : Text → List GhCall → Option Text × List GhCall
  unfolding listed_url
  existing_issue_for cve_id calls =
      (listed_url cve_id (gh.list calls cve_id), issue_list cve_id ∷ calls)

  unfoldable pub file_issue : Finding → List GhCall → Option Text × List GhCall
  unfolding issue_title issue_body stripped
  file_issue f calls = (gh.create calls (issue_title f) (issue_body f), issue_create f ∷ calls)

  -- What the answer to `gh issue create` counts as.
  unfoldable pub count_filed : Option Text → Tally → Tally
  count_filed url t =
      if truthy url then record t { filed = t.filed + 1 } else record t { failed = t.failed + 1 }

  -- One round of the loop.
  unfoldable pub file_one : Finding → Tally × List GhCall → Tally × List GhCall
  unfolding existing_issue_for file_issue count_filed
  file_one f (t, calls) =
      let (existing, calls') = existing_issue_for f.cve_id calls in
      if truthy existing
      then (record t { skipped = t.skipped + 1 }, calls')
      else (let (url, calls'') = file_issue f calls' in (count_filed url t, calls''))

  unfoldable pub file_all : List Finding → Tally × List GhCall → Tally × List GhCall
  unfolding file_one
  file_all [] r = r
  file_all (f ∷ fs) r = file_all fs (file_one f r)

  unfoldable pub run_filing : List Finding → Tally × List GhCall
  unfolding file_all unique_fixable
  run_filing findings =
      file_all (unique_fixable [] (filter_by (λ f. f.fixable) findings))
        (record { filed = 0; skipped = 0; failed = 0 }, [])

  -- The exit code.
  unfoldable pub main : List Finding → ℕ
  unfolding run_filing
  main findings = if (run_filing findings).0.failed == 0 then 0 else 1
