-- ===== src/Orchestrator/Poll/Statuses.antt =====
-- The status that one round of the poller gives a row, against its decision table.
use cognition_devin_automati.Sessions.{
  assign_all, SessionRow, PullRequestRef, Assign, get, set_status, update, set_raw_status,
  set_acus_consumed, set_last_polled_at,
}
use cognition_devin_automati.Orchestrator.Poll.{
  base_updates, final_updates, pr_updates, output_updates, PollSummary, is_stuck, is_closed,
  apply_remote, changed, is_merged,
}
use cognition_devin_automati.Settings.{Settings}
use cognition_devin_automati.Prelude.{
  Option, ℕ, List, ◌≡◌, ◌++◌, some, ap, if◌then◌else◌, ◌∷◌, none, refl, [], not, Bool-cases, inl,
  or_else, ◌∙◌, arith, inr, ◌&&◌, is_some,
}
use cognition_devin_automati.World.{SessionDetails, Env, State, ok}
use cognition_devin_automati.Prelude.Texts.{Text}
use cognition_devin_automati.Status.{Status, timeout, cancelled, completed, is_terminal}
use cognition_devin_automati.Sessions.Rows.{assign_all-append, get-update}

-- The table, in the order of the code's tests: `none` leaves the status alone.
unfoldable pub next_status : Settings → SessionRow → SessionDetails → ℕ → Option Status
next_status cfg row remote now =
    if is_stuck cfg row remote now
    then some timeout
    else if not (changed row remote)
    then none
    else if is_merged row remote
    then some completed
    else if is_closed row remote
    then some cancelled
    else some remote.status

status-pr_updates :
    (ps : List PullRequestRef) (r : SessionRow) → (assign_all (pr_updates ps) r).status ≡ r.status
unfolding assign_all pr_updates
status-pr_updates [] r = refl
status-pr_updates (p ∷ ps) r = refl

status-output_updates :
    (o : Option Text) (r : SessionRow) → (assign_all (output_updates o) r).status ≡ r.status
unfolding assign_all output_updates
status-output_updates none r = refl
status-output_updates (some j) r = refl

-- The first updates leave Devin's status.
status-base_updates :
    (remote : SessionDetails) (now : ℕ) (r : SessionRow)
    → (assign_all (base_updates remote now) r).status ≡ remote.status
unfolding base_updates
status-base_updates remote now r =
    ap (λ (x : SessionRow). x.status)
      (assign_all-append
        (set_status remote.status
          ∷ set_raw_status remote.raw_status
          ∷ set_acus_consumed remote.acus_consumed
          ∷ set_last_polled_at now
          ∷ [])
        (pr_updates remote.pull_requests ++ output_updates remote.structured_output) r)
    ∙ ap (λ (x : SessionRow). x.status)
        (assign_all-append (pr_updates remote.pull_requests)
          (output_updates remote.structured_output) _)
    ∙ status-output_updates remote.structured_output _
    ∙ status-pr_updates remote.pull_requests _
    ∙ unfold assign_all in refl

-- A change made after them decides the status.
status_after :
    (remote : SessionDetails) (now : ℕ) (more : List Assign) (r : SessionRow)
    → (assign_all (base_updates remote now ++ more) r).status
      ≡ (assign_all more (assign_all (base_updates remote now) r)).status
status_after remote now more r =
    ap (λ (x : SessionRow). x.status) (assign_all-append (base_updates remote now) more r)

abbrev pub status_of : Option SessionRow → Option Status
status_of none = none
status_of (some r) = some r.status

status-final_updates :
    (row : SessionRow) (remote : SessionDetails) (now : ℕ) (r : SessionRow)
    → (assign_all (base_updates remote now ++ final_updates row remote now) r).status
      ≡ (if is_closed row remote then cancelled else remote.status)
unfolding final_updates
status-final_updates row remote now r = elim (Bool-cases (is_closed row remote)) [
  | inl shut ↦ rw shut (status_after remote now _ r ∙ unfold assign_all in refl)
  | inr still_open ↦
      rw still_open
        (elim (Bool-cases (is_terminal remote.status && not (is_some row.completed_at))) [
          | inl done ↦ rw done (
              status_after remote now _ r ∙ (unfold assign_all in status-base_updates remote now r))
          | inr going ↦ rw going (
              status_after remote now _ r ∙ (unfold assign_all in status-base_updates remote now r))
        ])
]

module _ (cfg : Settings) (env : Env) (row : SessionRow) (id : Text) (remote : SessionDetails)
    (p : PollSummary) (s : State) (there : get row.id s.sessions ≡ some row) where
  read_back :
      (changes : List Assign)
      → status_of (get row.id (update row.id changes s.sessions))
        ≡ some (assign_all changes row).status
  read_back changes = ap status_of (get-update row.id changes s.sessions row there)

  -- For a row of the table and an answer of Devin's, the row's status after the round is the one
  -- of the table: timeout where a pending or running session has been idle for too long; else
  -- unchanged where nothing that the code compares differs; else completed on a merged PR and
  -- cancelled on a closed one, for a row that is not over; else Devin's own status.
  pub apply_remote-status :
      status_of (get row.id (apply_remote cfg env row id (ok remote) p s).1.sessions)
      ≡ some (or_else (next_status cfg row remote (env.now s)) row.status)
  unfolding apply_remote next_status
  apply_remote-status = elim (Bool-cases (is_stuck cfg row remote (env.now s))) [
    | inl stuck ↦ rw stuck (read_back _ ∙ unfold assign_all in refl)
    | inr live ↦ rw live (elim (Bool-cases (changed row remote)) [
      | inr same ↦ rw same (read_back _ ∙ unfold assign_all in refl)
      | inl differ ↦ rw differ (elim (Bool-cases (is_merged row remote)) [
        | inl merge ↦
            rw merge
              (read_back _ ∙ ap some (status_after remote _ _ row ∙ unfold assign_all in refl))
        | inr rest ↦ rw rest (
            read_back _
            ∙ ap some (status-final_updates row remote (env.now s) row)
            ∙ closed_or_remote)
      ])
    ])
  ]
    where
      closed_or_remote :
          some (if is_closed row remote then cancelled else remote.status)
          ≡ some (
              or_else
                (if is_closed row remote then some cancelled else some remote.status)
                row.status)
      closed_or_remote = ground arith
