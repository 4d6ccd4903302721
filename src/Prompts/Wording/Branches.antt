-- ===== src/Prompts/Wording/Branches.antt =====
-- The branch that a CVE prompt asks for, at the branch guard of handle_ci_failure.
use cognition_devin_automati.Handlers.CiFix.{with_pr, with_tracked}
use cognition_devin_automati.Prelude.{
  ℕ, Bool, ◌≡◌, ◌||◌, if◌then◌else◌, true, ◌∷◌, ◌==◌, ◌+◌, [], arith, false, some, or_else, refl,
}
use cognition_devin_automati.Prompts.Wording.{cve_id_slug, cve_branch, is_slug_char, dashed}
use cognition_devin_automati.Prelude.Texts.{Text, in_range, text, lower, starts_with}
use cognition_devin_automati.Prelude.Lists.{All}
use cognition_devin_automati.Settings.{Settings}
use cognition_devin_automati.World.{Env, PullRequest, WorkflowRun, State, ok}
use cognition_devin_automati.Sessions.{find_by_pr}

-- Lower-case letters, digits, dashes and slashes.
abbrev pub is_branch_char : ℕ → Bool
is_branch_char c = in_range 97 122 c || (in_range 48 57 c || (c == 45 || c == 47))

AreBranchChars : Text → Type 0
AreBranchChars s = All (λ c. is_branch_char c ≡ true) s

slug_char-lower :
    (c : ℕ)
    → is_branch_char (elim (in_range 65 90 (if is_slug_char c then c else 45)) [
      | true ↦ (if is_slug_char c then c else 45) + 32
      | false ↦ if is_slug_char c then c else 45
    ])
      ≡ true
unfolding is_slug_char in_range
slug_char-lower c = ground arith

cve_id_slug-AreBranchChars : (cve_id : Text) → AreBranchChars (cve_id_slug cve_id)
unfolding AreBranchChars cve_id_slug dashed lower
cve_id_slug-AreBranchChars [] = tt
cve_id_slug-AreBranchChars (c ∷ s) = (slug_char-lower c, cve_id_slug-AreBranchChars s)

-- Whatever the CVE id of an issue holds, the branch of the prompt has only lower-case letters,
-- digits, dashes and slashes, and a pull request from this branch passes the branch guard of
-- handle_ci_failure, which then looks up the session of the pull request.
cve_branch-with_pr :
    (cfg : Settings) (env : Env) (cve_id repo : Text) (pr : PullRequest) (run : WorkflowRun) (n : ℕ)
    (s : State)
    → pr.head_ref ≡ some (cve_branch cve_id)
    → let pr_url = or_else pr.html_url [] in
      All (λ c. is_branch_char c ≡ true) (cve_branch cve_id)
      × (with_pr cfg env (ok (some pr)) repo run n s
          ≡ with_tracked cfg env
              (record {
                repo = repo;
                run = run;
                pr_number = n;
                pr_url = pr_url;
                head_ref = cve_branch cve_id;
              })
              (find_by_pr pr_url s.sessions)
              s)
unfolding with_pr cve_branch text starts_with in_range AreBranchChars
cve_branch-with_pr cfg env cve_id repo pr run n s h = (
  (
    refl,
    (
      refl,
      (
        refl,
        (refl, (refl, (refl, (refl, (refl, (refl, (refl, cve_id_slug-AreBranchChars cve_id))))))),
      ),
    ),
  ),
  rw h refl,
)
