-- ===== src/Races/Escalations.antt =====
-- Two failed CI runs of a pull request whose fixes are used up, in two threads that both read the
-- parent before either of them flags it.
use cognition_devin_automati.Prelude.{
  ℕ, ◌≡◌, List, Option, Bool, true, false, ◌∷◌, Bool-cases, ◌∙◌, [], inl, inr, refl, ◌==◌, arith,
  suc, ◌≤◌, le→leb, ◌+◌, ap,
}
use cognition_devin_automati.Status.{Status, cancelled, status_eq, needs_attention}
use cognition_devin_automati.Settings.{Settings}
use cognition_devin_automati.World.{Call, Env, State, ok, Except, raised}
use cognition_devin_automati.Prelude.Lists.{count_by, filter_by}
use cognition_devin_automati.Prelude.Texts.{Text, text, truthy}
use cognition_devin_automati.Handlers.Escalation.{
  terminate_child, cancel_children, escalate_to_human, stop_and_comment, flag_parent,
}
use cognition_devin_automati.Sessions.{
  max_attempt, Assign, max_fix_attempt_for_parent, set_status, update, SessionRow, in_chain, Table,
  set_error_message, update_rows, assign_all, assign, find_active_children,
}
use cognition_devin_automati.Prelude.Threads.{interleave, step_at}
use cognition_devin_automati.Handlers.{get_client}
use cognition_devin_automati.Handlers.CiFix.{Fix, escalated}
use cognition_devin_automati.Races.{advance, fetch_commits, found_parent, stop_or_raise}

-- The comments among the requests.
abbrev pub is_comment : Call → Bool
is_comment (Call.post_pr_comment repo n body) = true
is_comment _ = false

unfoldable pub comments : List Call → ℕ
comments calls = count_by is_comment calls

-- What an escalation writes to a row.
abbrev marks : Status → Text → List Assign
marks status message = set_status status ∷ set_error_message message ∷ []

module _ (parent : Option Text) (status : Status) (message : Text) (pk : ℕ) where
  max_attempt-marks :
      (rows : List SessionRow)
      → max_attempt (filter_by (in_chain parent) (update_rows pk (marks status message) rows))
        ≡ max_attempt (filter_by (in_chain parent) rows)
  unfolding max_attempt filter_by in_chain update_rows assign_all assign
  max_attempt-marks [] = refl
  max_attempt-marks (r ∷ rs) = elim (Bool-cases (r.id == pk)) [
    | inl hit ↦ rw hit (ground (arith, max_attempt-marks rs))
    | inr miss ↦ rw miss (ground (arith, max_attempt-marks rs))
  ]

  max_fix_attempt-marks :
      (t : Table)
      → max_fix_attempt_for_parent parent (update pk (marks status message) t)
        ≡ max_fix_attempt_for_parent parent t
  unfolding max_fix_attempt_for_parent update
  max_fix_attempt-marks t = max_attempt-marks t.rows

module _ (cfg : Settings) (env : Env) where
  -- An escalation leaves the attempts as they are, and adds its comment.
  record Leaves (parent : Option Text) (s t : State) : Type 0 where
    attempts :
        max_fix_attempt_for_parent parent t.sessions ≡ max_fix_attempt_for_parent parent s.sessions
    same_comments : comments t.trace ≡ comments s.trace

  terminate_child-Leaves :
      (parent : Option Text) (child : SessionRow) (s : State)
      → Leaves parent s (terminate_child cfg env child s)
  unfolding terminate_child comments count_by
  terminate_child-Leaves parent child s = elim (Bool-cases (truthy child.devin_session_id)) [
    | inl named ↦ rw named (record { attempts = refl; same_comments = refl })
    | inr unnamed ↦ rw unnamed (record { attempts = refl; same_comments = refl })
  ]

  cancel_children-Leaves :
      (parent : Option Text) (children : List SessionRow) (s : State)
      → Leaves parent s (cancel_children cfg env children s)
  unfolding cancel_children text
  cancel_children-Leaves parent [] s = record { attempts = refl; same_comments = refl }
  cancel_children-Leaves parent (child ∷ rest) s =
      let t = terminate_child cfg env child s in
      let here = terminate_child-Leaves parent child s in
      let later = cancel_children-Leaves parent rest _ in
      record {
        attempts =
            later.attempts
            ∙ max_fix_attempt-marks parent cancelled _ child.id t.sessions
            ∙ here.attempts;
        same_comments = later.same_comments ∙ here.same_comments;
      }

  module _ (parent : SessionRow) (fresh : status_eq parent.status needs_attention ≡ false)
      (client : get_client cfg ≡ ok tt) where
    -- What the escalation of a parent that is not flagged adds.
    record Comments (s t : State) : Type 0 where
      attempts :
          max_fix_attempt_for_parent parent.devin_session_id t.sessions
          ≡ max_fix_attempt_for_parent parent.devin_session_id s.sessions
      one_more : comments t.trace ≡ suc (comments s.trace)

    escalate_to_human-Comments :
        (repo : Text) (pr n : ℕ) (s : State)
        → Comments s (escalate_to_human cfg env parent repo pr n s).1
    unfolding escalate_to_human stop_and_comment flag_parent comments count_by text
    escalate_to_human-Comments repo pr n s =
        let t = flag_parent cfg env parent n s in
        let left =
          cancel_children-Leaves parent.devin_session_id
            (find_active_children parent.devin_session_id t.sessions) t in
        rw (fresh, client)
          (record {
            attempts =
                left.attempts
                ∙ max_fix_attempt-marks parent.devin_session_id needs_attention _ parent.id
                    s.sessions;
            one_more = ap suc left.same_comments;
          })

    escalated-Comments :
        (n : ℕ) (s : State) (r : Except (Unit {0}) × State)
        → Comments s r.1
        → Comments s (stop_or_raise (escalated cfg env n r)).1
    unfolding escalated
    escalated-Comments n s (ok u, t) c = c
    escalated-Comments n s (raised e, t) c = c

    advance-Comments :
        (fix : Fix) (s : State)
        → cfg.max_fix_attempts ≤ max_fix_attempt_for_parent parent.devin_session_id s.sessions
        → Comments s (advance cfg env (found_parent fix parent) s).1
    unfolding advance fetch_commits
    advance-Comments fix s spent =
        rw (le→leb _ _ spent)
          (escalated-Comments _ s _ (escalate_to_human-Comments fix.repo fix.pr_number _ s))

  -- An escalation that finds the parent unflagged is not idempotent in threads: if two workers have
  -- both read a parent that is not flagged and whose fixes are used up, before either of them flags
  -- it, and the client can be had, then two comments are posted.
  pub interleave_escalates_twice :
      (first second : Fix) (parent : SessionRow) (s : State)
      → status_eq parent.status needs_attention ≡ false
      → get_client cfg ≡ ok tt
      → cfg.max_fix_attempts ≤ max_fix_attempt_for_parent parent.devin_session_id s.sessions
      → comments
          (interleave
            (advance cfg env)
            (0 ∷ 1 ∷ [])
            (found_parent first parent ∷ found_parent second parent ∷ [])
            s).1.trace
        ≡ comments s.trace + 2
  unfolding interleave step_at
  interleave_escalates_twice first second parent s fresh client spent =
      let t = (advance cfg env (found_parent first parent) s).1 in
      let one = advance-Comments parent fresh client first s spent in
      let two =
        advance-Comments parent fresh client second t (omega (arith, spent, one.attempts)) in
      omega (arith, one.one_more, two.one_more)
