-- ===== src/Runs/Quiet.antt =====
-- The statements and requests that neither reserve a row nor ask for a paid session, and
-- _escalate_to_human of app/handlers.py as such a run.
use cognition_devin_automati.Prelude.{ℕ, List, Bool-cases, ◌∷◌, ◌≡◌, false, inl, inr, [], refl, ◌∙◌}
use cognition_devin_automati.World.{State, Env, Call, Except, raised, ok}
use cognition_devin_automati.Settings.{Settings}
use cognition_devin_automati.Sessions.{Assign, update, SessionRow, find_active_children}
use cognition_devin_automati.Runs.{Run, here, next, is_create, written, requested}
use cognition_devin_automati.Handlers.Escalation.{
  terminate_child, cancel_children, escalate_to_human, stop_and_comment,
}
use cognition_devin_automati.Prelude.Texts.{Text, truthy}
use cognition_devin_automati.Status.{status_eq, needs_attention}
use cognition_devin_automati.Handlers.{get_client}
use cognition_devin_automati.Runs.Invariants.{creates, creates-other}

pub data Quiet (s : State) : State → Type 0 where
  still : Quiet s s
  then_written :
      {t : State} (pk : ℕ) (changes : List Assign)
      → Quiet s t
      → Quiet s (record t { sessions = update pk changes t.sessions })
  then_sent :
      {t : State} (c : Call)
      → is_create c ≡ false
      → Quiet s t
      → Quiet s (record t { trace = c ∷ t.trace })

pub Quiet-Run : {cap : ℕ} {s t : State} → Quiet s t → Run cap s t
Quiet-Run still = here
Quiet-Run (then_written pk changes q) = next (Quiet-Run q) (written pk changes)
Quiet-Run (then_sent c other q) = next (Quiet-Run q) (requested c other)

pub Quiet-creates : {s t : State} → Quiet s t → creates t.trace ≡ creates s.trace
Quiet-creates still = refl
Quiet-creates (then_written pk changes q) = Quiet-creates q
Quiet-creates (then_sent {t} c other q) = creates-other c t.trace other ∙ Quiet-creates q

module _ (cfg : Settings) (env : Env) where
  terminate_child-Quiet :
      {s t : State} (child : SessionRow) → Quiet s t → Quiet s (terminate_child cfg env child t)
  unfolding terminate_child
  terminate_child-Quiet child q = elim (Bool-cases (truthy child.devin_session_id)) [
    | inl known ↦ rw known (then_sent (Call.terminate_session _) refl q)
    | inr unknown ↦ rw unknown q
  ]

  cancel_children-Quiet :
      {s : State} (children : List SessionRow) (t : State)
      → Quiet s t
      → Quiet s (cancel_children cfg env children t)
  unfolding cancel_children
  cancel_children-Quiet [] t q = q
  cancel_children-Quiet (child ∷ rest) t q =
      cancel_children-Quiet rest _ (then_written child.id _ (terminate_child-Quiet child q))

  stop_and_comment-Quiet :
      {s t : State} (client : Except (Unit {0})) (parent : SessionRow) (repo : Text) (pr n : ℕ)
      → Quiet s t
      → Quiet s (stop_and_comment cfg env client parent repo pr n t).1
  unfolding stop_and_comment
  stop_and_comment-Quiet (raised e) parent repo pr n q = q
  stop_and_comment-Quiet {t} (ok _) parent repo pr n q =
      then_sent (Call.post_pr_comment repo pr _) refl
        (cancel_children-Quiet (find_active_children parent.devin_session_id t.sessions) t q)

  pub escalate_to_human-Quiet :
      (parent : SessionRow) (repo : Text) (pr n : ℕ) (s : State)
      → Quiet s (escalate_to_human cfg env parent repo pr n s).1
  unfolding escalate_to_human
  escalate_to_human-Quiet parent repo pr n s =
      elim (Bool-cases (status_eq parent.status needs_attention)) [
        | inl done ↦ rw done still
        | inr fresh ↦ rw fresh (
            stop_and_comment-Quiet (get_client cfg) parent repo pr n
              (then_written parent.id _ still))
      ]
