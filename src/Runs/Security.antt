-- ===== src/Runs/Security.antt =====
-- handle_security_issue, as a run.
use cognition_devin_automati.Settings.{Settings}
use cognition_devin_automati.World.{Env, Issue, State}
use cognition_devin_automati.Handlers.Security.{
  create_or_refuse, handle_security_issue, reserve_and_remediate, with_context,
  security_reservation, security_key,
}
use cognition_devin_automati.Sessions.{mark_failed, count_active, count_started_today}
use cognition_devin_automati.Prompts.{CveContext}
use cognition_devin_automati.Prelude.{
  Option, List, Bool-cases, leb, ◌≡◌, false, ℕ, inl, ◌∷◌, inr, some, [], none, arith,
}
use cognition_devin_automati.Runs.{Run, next, here, reserved, written}
use cognition_devin_automati.Sessions.Claims.{is_taken, try_reserve-taken, try_reserve-free}
use cognition_devin_automati.Prelude.Texts.{Text}
use cognition_devin_automati.Runs.Opening.{with_row, open_session-Run}
use cognition_devin_automati.Sessions.Chains.{IsNumbered}

-- The row of an issue has no parent.
security-IsNumbered :
    (cfg : Settings) (issue : Issue) (s : State)
    → IsNumbered cfg.max_fix_attempts (security_reservation cfg issue) s.sessions
unfolding security_reservation
security-IsNumbered cfg issue s = (omega arith, λ p h. cc h)

module _ (cfg : Settings) (env : Env) where
  create_or_refuse-Run :
      (ctx : CveContext) (missing : List Text) (issue : Issue) (s : State)
      → is_taken (security_key cfg issue) s.sessions ≡ false
      → (now pk : ℕ)
      → Run cfg.max_fix_attempts s
          (create_or_refuse cfg env ctx missing pk
            (with_row (security_reservation cfg issue) now s)).1
  unfolding create_or_refuse mark_failed security_reservation
  create_or_refuse-Run ctx [] issue s free now pk =
      open_session-Run cfg env _ pk (security_reservation cfg issue) now here free
        (security-IsNumbered cfg issue s)
  create_or_refuse-Run ctx (m ∷ ms) issue s free now pk =
      next
        (next here
          (reserved (security_reservation cfg issue) now free (security-IsNumbered cfg issue s)))
        (written pk _)

  with_context-Run :
      (found : Option CveContext) (issue : Issue) (s : State)
      → is_taken (security_key cfg issue) s.sessions ≡ false
      → (now pk : ℕ)
      → Run cfg.max_fix_attempts s
          (with_context cfg env issue found pk (with_row (security_reservation cfg issue) now s)).1
  unfolding with_context mark_failed security_reservation
  with_context-Run none issue s free now pk =
      next
        (next here
          (reserved (security_reservation cfg issue) now free (security-IsNumbered cfg issue s)))
        (written pk _)
  with_context-Run (some ctx) issue s free now pk = create_or_refuse-Run ctx _ issue s free now pk

  reserve_and_remediate-Run :
      (issue : Issue) (s : State)
      → Run cfg.max_fix_attempts s (reserve_and_remediate cfg env issue s).1
  unfolding reserve_and_remediate security_reservation
  reserve_and_remediate-Run issue s =
      elim (Bool-cases (is_taken (security_key cfg issue) s.sessions)) [
        | inl taken ↦
            rw (try_reserve-taken (security_reservation cfg issue) (env.now s) s.sessions taken)
              here
        | inr free ↦
            rw (try_reserve-free (security_reservation cfg issue) (env.now s) s.sessions free)
              (with_context-Run _ issue s free (env.now s) s.sessions.next_id)
      ]

  pub handle_security_issue-Run :
      (issue : Issue) (s : State)
      → Run cfg.max_fix_attempts s (handle_security_issue cfg env issue s).1
  unfolding handle_security_issue
  handle_security_issue-Run issue s =
      elim (Bool-cases (leb cfg.max_concurrent_sessions (count_active s.sessions))) [
        | inl full ↦ rw full here
        | inr room ↦
            rw room
              (elim (Bool-cases
                (leb cfg.max_sessions_per_day (count_started_today (env.now s) s.sessions))) [
                  | inl spent ↦ rw spent here
                  | inr left ↦ rw left (reserve_and_remediate-Run issue s)
                ])
      ]
