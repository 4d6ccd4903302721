-- ===== src/Orchestrator/Poll/Gaps.antt =====
-- Two consequences of the poller's decision table: a merge that is not seen, and an escalation
-- that a later tick takes back.
use mathlib.Core.Option.{some-injective}
use cognition_devin_automati.Settings.{Settings}
use cognition_devin_automati.World.{Env, SessionDetails, State, ok}
use cognition_devin_automati.Sessions.{SessionRow, get}
use cognition_devin_automati.Prelude.Texts.{Text}
use cognition_devin_automati.Orchestrator.Poll.{
  PollSummary, apply_remote, is_stuck, changed, is_merged, is_closed,
}
use cognition_devin_automati.Orchestrator.Poll.Statuses.{
  next_status, status_of, apply_remote-status,
}
use cognition_devin_automati.Status.{
  is_terminal, is_working, status_eq, Status, needs_attention, completed, failed, cancelled,
  timeout, reserving, pending, running, blocked,
}
use cognition_devin_automati.Prelude.{
  ◌≡◌, some, true, false, arith, ◌∙◌, ap, refl, ◌↔◌, Bool-cases, inl, inr, sym, ◌⊎◌,
}

not_working : (st : Status) → is_terminal st ≡ true → is_working st ≡ false
unfolding is_terminal is_working
not_working st h = ground arith

not_flag : (st : Status) → is_terminal st ≡ true → status_eq st needs_attention ≡ false
unfolding is_terminal status_eq
not_flag completed h = refl
not_flag failed h = refl
not_flag cancelled h = refl
not_flag timeout h = refl
not_flag reserving h = cc
not_flag pending h = cc
not_flag running h = cc
not_flag blocked h = cc
not_flag needs_attention h = cc

is_merged-not_completed :
    (row : SessionRow) (remote : SessionDetails)
    → is_merged row remote ≡ true
    → ¬ (row.status ≡ completed)
unfolding is_merged is_terminal
is_merged-not_completed row remote merge e = ground (arith, e)

module _ (cfg : Settings) (env : Env) (row : SessionRow) (id : Text) (remote : SessionDetails)
    (p : PollSummary) (s : State) where
  -- Where the PR of a row that is not over is merged, and its session is not idle for too long, the
  -- round completes the row if and only if the status, the raw status, the first PR's URL, the ACUs
  -- or the structured output differ from the row's; where none does, it leaves the row's status as
  -- it is and asks for no termination.
  pub merge_unseen :
      get row.id s.sessions ≡ some row
      → is_merged row remote ≡ true
      → is_stuck cfg row remote (env.now s) ≡ false
      → let t = (apply_remote cfg env row id (ok remote) p s).1 in
        ((status_of (get row.id t.sessions) ≡ some completed) ↔ (changed row remote ≡ true))
        × ((changed row remote ≡ true)
            ⊎ ((status_of (get row.id t.sessions) ≡ some row.status) × (t.trace ≡ s.trace)))
  unfolding next_status
  merge_unseen there merge live = elim (Bool-cases (changed row remote)) [
    | inl differ ↦ (
      (
        λ e. differ,
        λ e.
            apply_remote-status cfg env row id remote p s there
            ∙ rw live (rw differ (rw merge refl)),
      ),
      inl differ,
    )
    | inr same ↦
        let kept : status_of (get row.id (apply_remote cfg env row id (ok remote) p s).1.sessions)
            ≡ some row.status =
          apply_remote-status cfg env row id remote p s there ∙ rw live (rw same refl) in
        (
          (
            λ e.
                absurd
                  (is_merged-not_completed row remote merge (some-injective _ _ (sym kept ∙ e))),
            λ e. cc,
          ),
          inr (kept, unfold apply_remote in rw live (rw same refl)),
        )
  ]

  -- Where a row is flagged needs_attention, Devin's session is over and its PR neither merged nor
  -- closed, the round overwrites the flag by Devin's status, so that the row is terminal again.
  pub flag_overwritten :
      get row.id s.sessions ≡ some row
      → row.status ≡ needs_attention
      → is_terminal remote.status ≡ true
      → is_merged row remote ≡ false
      → is_closed row remote ≡ false
      → status_of (get row.id (apply_remote cfg env row id (ok remote) p s).1.sessions)
        ≡ some remote.status
  unfolding next_status is_stuck changed
  flag_overwritten there flagged over unmerged unclosed =
      apply_remote-status cfg env row id remote p s there
      ∙ rw (not_working remote.status over) (
          rw (ap (status_eq remote.status) flagged ∙ not_flag remote.status over)
            (rw unmerged (rw unclosed refl)))
