-- ===== src/Handlers/Keys.antt =====
-- The work keys tell different work apart.
use cognition_devin_automati.Handlers.{make_work_key, make_ci_fix_work_key}
use cognition_devin_automati.Prelude.Texts.{
  Text, drop_prefix-append, text, drop_prefix, show_nat, show_opt_nat, starts_with,
}
use cognition_devin_automati.Prelude.{ℕ, ◌≡◌, sym, ◌∙◌, ap, Option, some, ◌≢◌, true, false, refl}
use cognition_devin_automati.Prelude.Digits.{
  NoColon, split_colon, show_nat-NoColon, show_nat_injective,
}

-- For repositories whose names have no colon, two issues with the same work key are the same issue
-- of the same repository under the same label.
pub make_work_key-injective :
    (repo repo' : Text) (n n' : ℕ) (label label' : Text)
    → NoColon repo
    → NoColon repo'
    → make_work_key repo n label ≡ make_work_key repo' n' label'
    → (repo ≡ repo') × ((n ≡ n') × (label ≡ label'))
unfolding make_work_key
make_work_key-injective repo repo' n n' label label' clean clean' h =
    let body =
      sym (drop_prefix-append (text "issue:") _)
      ∙ ap (drop_prefix (text "issue:")) h
      ∙ drop_prefix-append (text "issue:") _ in
    let outer = split_colon repo repo' _ _ clean clean' body in
    let inner =
      split_colon (show_nat n) (show_nat n') label label' (show_nat-NoColon n) (show_nat-NoColon n')
        outer.1 in
    (outer.0, (show_nat_injective n n' inner.0, inner.1))

-- For repositories whose names have no colon, two runs with the same work key are the same run of
-- the same repository.
pub make_ci_fix_work_key-injective :
    (repo repo' : Text) (n n' : ℕ)
    → NoColon repo
    → NoColon repo'
    → make_ci_fix_work_key repo (some n) ≡ make_ci_fix_work_key repo' (some n')
    → (repo ≡ repo') × (n ≡ n')
unfolding make_ci_fix_work_key show_opt_nat
make_ci_fix_work_key-injective repo repo' n n' clean clean' h =
    let body =
      sym (drop_prefix-append (text "ci_fix:") _)
      ∙ ap (drop_prefix (text "ci_fix:")) h
      ∙ drop_prefix-append (text "ci_fix:") _ in
    let parts = split_colon repo repo' _ _ clean clean' body in
    (parts.0, show_nat_injective n n' parts.1)

true_not_false : true ≢ false
true_not_false h = cc

-- The work keys of issues and of CI runs are never the same.
pub work_keys_apart :
    (repo repo' label : Text) (n : ℕ) (run : Option ℕ)
    → make_work_key repo n label ≢ make_ci_fix_work_key repo' run
unfolding make_work_key make_ci_fix_work_key text starts_with
work_keys_apart repo repo' label n run h = true_not_false (ap (starts_with (text "i")) h)

-- The work that a key is made for: an issue under a label, or a workflow run.
pub data WorkItem : Type 0 where
  issue_item : Text → ℕ → Text → WorkItem
  run_item : Text → ℕ → WorkItem

abbrev pub work_key : WorkItem → Text
work_key (issue_item repo n label) = make_work_key repo n label
work_key (run_item repo n) = make_ci_fix_work_key repo (some n)

abbrev pub repo_of : WorkItem → Text
repo_of (issue_item repo n label) = repo
repo_of (run_item repo n) = repo

-- The two makers of work keys together tell all work apart: for repositories whose names have no
-- colon, two pieces of work with the same key are the same, that is, the same issue of the same
-- repository under the same label, or the same run of the same repository, and never an issue and
-- a run.
pub work_key-injective :
    (a b : WorkItem) → NoColon (repo_of a) → NoColon (repo_of b) → work_key a ≡ work_key b → a ≡ b
work_key-injective (issue_item repo n label) (issue_item repo' n' label') clean clean' h =
    let same = make_work_key-injective repo repo' n n' label label' clean clean' h in
    rw same.0 (rw same.1.0 (rw same.1.1 refl))
work_key-injective (issue_item repo n label) (run_item repo' n') clean clean' h =
    absurd (work_keys_apart repo repo' label n (some n') h)
work_key-injective (run_item repo n) (issue_item repo' n' label') clean clean' h =
    absurd (work_keys_apart repo' repo label' n' (some n) (sym h))
work_key-injective (run_item repo n) (run_item repo' n') clean clean' h =
    let same = make_ci_fix_work_key-injective repo repo' n n' clean clean' h in
    rw same.0 (rw same.1 refl)
