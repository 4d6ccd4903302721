-- ===== src/Stage.antt =====
-- app/stage.py: the workflow stage of a row among all rows.
use cognition_devin_automati.Prelude.Texts.{Text, text, holds_text, truthy, show_nat, text_eq}
use cognition_devin_automati.Prelude.{
  ℕ, Bool, List, ◌∷◌, ◌++◌, if◌then◌else◌, ◌≡◌, ◌&&◌, not, ◌==◌, ◌↔◌, [], or_else, true, false,
  subst, sym, refl, arith, ◌∙◌,
}
use cognition_devin_automati.Sessions.{SessionRow, TriggerType, cve_issue, ci_failure, other}
use cognition_devin_automati.Status.{
  Status, cancelled, status_text, failed, is_active, status_eq, completed, timeout, needs_attention,
  blocked, reserving, pending, running,
}
use cognition_devin_automati.Prelude.Lists.{any_by}
use cognition_devin_automati.Status.Facts.{eq_of_status_eq, status_eq_of_eq}

pub data Stage : Type 0 where
  stage_cancelled stage_failed needs_human detected devin_running : Stage
  ci_fix_running verified pr_open : Stage
  -- the attempt and the status of a fix session, and the bare status of any other
  fix : ℕ → Status → Stage
  bare : Status → Stage

-- `r.parent_devin_session_id == row.devin_session_id and r.status in ACTIVE_STATUSES`, for a row
-- with an id
unfoldable pub is_fix_of : Text → SessionRow → Bool
is_fix_of session_id r = holds_text r.parent_devin_session_id session_id && is_active r.status

unfoldable pub has_active_fix : SessionRow → List SessionRow → Bool
unfolding is_fix_of
has_active_fix row all_rows =
    truthy row.devin_session_id && any_by (is_fix_of (or_else row.devin_session_id [])) all_rows

unfoldable pub pr_stage : SessionRow → List SessionRow → Stage
pr_stage row all_rows =
    if not (truthy row.pr_url)
    then devin_running
    else if has_active_fix row all_rows
    then ci_fix_running
    else if status_eq row.status completed
    then verified
    else pr_open

unfoldable pub cve_stage : SessionRow → List SessionRow → Status → Stage
unfolding pr_stage
cve_stage row all_rows cancelled = stage_cancelled
cve_stage row all_rows failed = stage_failed
cve_stage row all_rows timeout = stage_failed
cve_stage row all_rows needs_attention = needs_human
cve_stage row all_rows blocked = needs_human
cve_stage row all_rows reserving = detected
cve_stage row all_rows pending = pr_stage row all_rows
cve_stage row all_rows running = pr_stage row all_rows
cve_stage row all_rows completed = pr_stage row all_rows

unfoldable pub stage_by_trigger : SessionRow → List SessionRow → TriggerType → Stage
unfolding cve_stage
stage_by_trigger row all_rows cve_issue = cve_stage row all_rows row.status
stage_by_trigger row all_rows ci_failure = fix row.fix_attempt_number row.status
stage_by_trigger row all_rows other = bare row.status

unfoldable pub compute_stage : SessionRow → List SessionRow → Stage
unfolding stage_by_trigger
compute_stage row all_rows = stage_by_trigger row all_rows row.trigger_type

-- status.replace("_", " ")
unfoldable pub spaced : Text → Text
spaced [] = []
spaced (c ∷ t) = (if c == 95 then 32 else c) ∷ spaced t

-- The string that stands for a stage.
unfoldable pub stage_text : Stage → Text
unfolding text
stage_text stage_cancelled = text "cancelled"
stage_text stage_failed = text "failed"
stage_text needs_human = text "needs human"
stage_text detected = text "detected"
stage_text devin_running = text "devin running"
stage_text ci_fix_running = text "ci fix running"
stage_text verified = text "verified"
stage_text pr_open = text "PR open"
stage_text (fix n s) = text "fix #" ++ (show_nat n ++ (text ": " ++ spaced (status_text s)))
stage_text (bare s) = status_text s

unfoldable pub stage_emojis : List (Text × Text)
unfolding text
stage_emojis =
    (text "detected", text "🟣")
    ∷ (text "devin running", text "🔵")
    ∷ (text "PR open", text "🟢")
    ∷ (text "ci fix running", text "🟠")
    ∷ (text "verified", text "✅")
    ∷ (text "needs human", text "🟡")
    ∷ (text "failed", text "🔴")
    ∷ (text "cancelled", text "⚫")
    ∷ []

-- d.get(key, default)
unfoldable pub emoji_or : Text → Text → List (Text × Text) → Text
emoji_or key default [] = default
emoji_or key default ((k, v) ∷ rest) = if text_eq k key then v else emoji_or key default rest

unfoldable pub stage_label : Text → Text
unfolding stage_emojis emoji_or text
stage_label stage = emoji_or stage (text "⚪") stage_emojis ++ (text " " ++ stage)

pr_stage_verified :
    (row : SessionRow) (all_rows : List SessionRow)
    → (pr_stage row all_rows ≡ verified) ↔ (
        (status_eq row.status completed ≡ true)
        × (truthy row.pr_url ≡ true)
        × (has_active_fix row all_rows ≡ false))
unfolding pr_stage
pr_stage_verified row all_rows = (ground arith, ground arith)

completed_by_status :
    (row : SessionRow) (all_rows : List SessionRow) (st : Status)
    → status_eq st completed ≡ status_eq row.status completed
    → cve_stage row all_rows st ≡ pr_stage row all_rows
    → (cve_stage row all_rows st ≡ verified)
      ↔ ((st ≡ completed) × (truthy row.pr_url ≡ true) × (has_active_fix row all_rows ≡ false))
completed_by_status row all_rows st e same = (
  λ h.
      let (c, u, f) = (pr_stage_verified row all_rows).0 (sym same ∙ h) in
      (eq_of_status_eq st completed (e ∙ c), u, f),
  λ (c, u, f).
      same ∙ (pr_stage_verified row all_rows).1 (sym e ∙ status_eq_of_eq st completed c, u, f),
)

verified_by_status :
    (row : SessionRow) (all_rows : List SessionRow) (st : Status)
    → status_eq st completed ≡ status_eq row.status completed
    → (cve_stage row all_rows st ≡ verified)
      ↔ ((st ≡ completed) × (truthy row.pr_url ≡ true) × (has_active_fix row all_rows ≡ false))
unfolding cve_stage
verified_by_status row all_rows cancelled e = (λ h. cc, λ h. cc)
verified_by_status row all_rows failed e = (λ h. cc, λ h. cc)
verified_by_status row all_rows timeout e = (λ h. cc, λ h. cc)
verified_by_status row all_rows needs_attention e = (λ h. cc, λ h. cc)
verified_by_status row all_rows blocked e = (λ h. cc, λ h. cc)
verified_by_status row all_rows reserving e = (λ h. cc, λ h. cc)
verified_by_status row all_rows pending e = completed_by_status row all_rows pending e refl
verified_by_status row all_rows running e = completed_by_status row all_rows running e refl
verified_by_status row all_rows completed e = completed_by_status row all_rows completed e refl

-- A CVE row is at the stage "verified" exactly when its status is completed, it has a PR, and no
-- row of the list is an active fix session of it.
compute_stage-verified_iff :
    (row : SessionRow) (all_rows : List SessionRow)
    → row.trigger_type ≡ cve_issue
    → (compute_stage row all_rows ≡ verified) ↔ (
        (row.status ≡ completed)
        × (truthy row.pr_url ≡ true)
        × (has_active_fix row all_rows ≡ false))
unfolding compute_stage
compute_stage-verified_iff row all_rows cve =
    subst
      (λ (t : TriggerType). (stage_by_trigger row all_rows t ≡ verified) ↔ (
        (row.status ≡ completed)
        × (truthy row.pr_url ≡ true)
        × (has_active_fix row all_rows ≡ false)))
      (sym cve) (verified_by_status row all_rows row.status refl)
