-- ===== src/Races/Alone.antt =====
-- A worker that is not interrupted.
use cognition_devin_automati.Handlers.Security.{
  handle_security_issue, create_or_refuse, with_context, claimed_issue, reserve_and_remediate,
  cve_request, parse_issue_to_cve_context, security_reservation,
}
use cognition_devin_automati.Settings.{Settings}
use cognition_devin_automati.World.{Env, Issue, Except, State, CreateRequest, raised, ok}
use cognition_devin_automati.Prelude.Threads.{interleave, step_at}
use cognition_devin_automati.Races.{
  read_issue, prepare, inserted, ask_devin, advance, stop, entered, finished, Worker,
}
use cognition_devin_automati.Handlers.{with_client, open_session, get_client}
use cognition_devin_automati.Prompts.{CveContext, missing_required_fields}
use cognition_devin_automati.Prelude.{
  Option, List, ℕ, ◌∷◌, ◌≡◌, [], some, Bool-cases, leb, refl, none, inl, inr, ap, subst, sym,
}
use cognition_devin_automati.Prelude.Texts.{Text}
use cognition_devin_automati.Sessions.{Table, count_active, count_started_today, try_reserve}
use cognition_devin_automati.Sessions.Unique.{IsValid}
use cognition_devin_automati.Outcomes.{Outcome}
use cognition_devin_automati.Handlers.Security.Decisions.{Handled, handle_security_issue-Handled}

module _ (cfg : Settings) (env : Env) where
  ask_devin_last :
      (client : Except (Unit {0})) (req : CreateRequest) (pk : ℕ) (s : State)
      → let r = ask_devin cfg env client req pk s in
        advance cfg env r.0 r.1 ≡ stop (with_client cfg env client req pk s)
  unfolding ask_devin advance with_client
  ask_devin_last (raised e) req pk s = refl
  ask_devin_last (ok _) req pk s = refl

  prepare_last :
      (ctx : CveContext) (missing : List Text) (pk : ℕ) (s : State)
      → let r = prepare cfg env ctx missing pk s in
        advance cfg env r.0 r.1 ≡ stop (create_or_refuse cfg env ctx missing pk s)
  unfolding prepare create_or_refuse open_session
  prepare_last ctx [] pk s = ask_devin_last (get_client cfg) (cve_request cfg env ctx) pk s
  prepare_last ctx (m ∷ ms) pk s = unfold advance in refl

  read_issue_last :
      (issue : Issue) (ctx : Option CveContext) (pk : ℕ) (s : State)
      → let r = read_issue cfg env issue ctx pk s in
        advance cfg env r.0 r.1 ≡ stop (with_context cfg env issue ctx pk s)
  unfolding read_issue with_context
  read_issue_last issue none pk s = unfold advance in refl
  read_issue_last issue (some ctx) pk s = prepare_last ctx (missing_required_fields ctx) pk s

  -- Two steps from a worker behind its INSERT.
  inserted_last :
      (issue : Issue) (r : Option ℕ × Table) (s : State)
      → let a = inserted cfg env issue r s in
        let b = advance cfg env a.0 a.1 in
        advance cfg env b.0 b.1 ≡ stop (claimed_issue cfg env r issue s)
  unfolding inserted claimed_issue
  inserted_last issue (none, t) s = unfold advance in refl
  inserted_last issue (some pk, t) s =
      unfold advance in
      read_issue_last issue (parse_issue_to_cve_context issue) pk (record s { sessions = t })

  -- Five steps lead to the handler's result and to the state that it leaves.
  advance-handle_security_issue :
      (issue : Issue) (s : State)
      → let r = handle_security_issue cfg env issue s in
        interleave (advance cfg env) (0 ∷ 0 ∷ 0 ∷ 0 ∷ 0 ∷ []) (entered issue ∷ []) s
        ≡ (finished (ok r.0) ∷ [], r.1)
  unfolding interleave step_at advance handle_security_issue reserve_and_remediate
  advance-handle_security_issue issue s =
      elim (Bool-cases (leb cfg.max_concurrent_sessions (count_active s.sessions))) [
        | inl full ↦ rw full refl
        | inr room ↦
            rw room
              (elim (Bool-cases
                (leb cfg.max_sessions_per_day (count_started_today (env.now s) s.sessions))) [
                  | inl spent ↦ rw spent refl
                  | inr left ↦ rw left (
                      ap (λ (r : Worker × State). (r.0 ∷ [], r.1))
                        (inserted_last issue
                          (try_reserve (security_reservation cfg issue) (env.now s) s.sessions) s))
                ])
      ]

  -- On a table that meets its constraints, a worker that takes five steps without interruption is
  -- finished with an outcome and in a state that the decision table of handle_security_issue gives
  -- for the issue and the state it started in.
  pub advance-Handled :
      (issue : Issue) (s : State)
      → IsValid s.sessions
      → let r = interleave (advance cfg env) (0 ∷ 0 ∷ 0 ∷ 0 ∷ 0 ∷ []) (entered issue ∷ []) s in
        (o : Outcome) × (r.0 ≡ finished (ok o) ∷ []) × Handled cfg env issue s o r.1
  advance-Handled issue s v =
      let r = handle_security_issue cfg env issue s in
      subst
        (λ (p : List Worker × State).
          (o : Outcome) × (p.0 ≡ finished (ok o) ∷ []) × Handled cfg env issue s o p.1)
        (sym (advance-handle_security_issue issue s))
        (r.0, refl, handle_security_issue-Handled cfg env issue s v)
