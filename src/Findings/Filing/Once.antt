-- ===== src/Findings/Filing/Once.antt =====
-- No CVE is filed twice in a run, and none that has an issue.
use cognition_devin_automati.Findings.{Finding}
use cognition_devin_automati.Findings.Filing.{GhCall, issue_create, issue_list, Gh, listed_url}
use cognition_devin_automati.Prelude.Texts.{Text, member, truthy}
use cognition_devin_automati.Prelude.{List, Bool, ◌≡◌, true, ◌∷◌, not, ◌&&◌, [], false}

-- The CVEs of the issues that a run asked for, the last first.
abbrev pub created : List GhCall → List Text
created [] = []
created (issue_create f ∷ calls) = f.cve_id ∷ created calls
created (issue_list cve_id ∷ calls) = created calls

-- Findings of different CVEs, none of which was seen.
abbrev fresh : List Text → List Finding → Bool
fresh seen [] = true
fresh seen (f ∷ fs) = not (member f.cve_id seen) && fresh (f.cve_id ∷ seen) fs

-- Every CVE that was filed was seen.
abbrev Seen : List Text → List GhCall → Type 0
Seen seen calls = (t : Text) → member t (created calls) ≡ true → member t seen ≡ true

module _ (gh : Gh) where
  -- The newest command searched for this finding's CVE and gave no URL.
  abbrev Searched : Finding → List GhCall → Type 0
  Searched f [] = ⊥
  Searched f (issue_create g ∷ calls) = ⊥
  Searched f (issue_list cve_id ∷ calls) =
      (cve_id ≡ f.cve_id) × (truthy (listed_url cve_id (gh.list calls cve_id)) ≡ false)

  -- Before each issue that was asked for stands a search for its CVE that gave no URL.
  abbrev pub Checked : List GhCall → Type 0
  Checked [] = Unit
  Checked (issue_list cve_id ∷ calls) = Checked calls
  Checked (issue_create f ∷ calls) = Searched f calls × Checked calls
