-- ===== src/Handlers/Security/Rails.antt =====
-- The safety rails of handle_security_issue, from its decision table.
use cognition_devin_automati.Settings.{Settings}
use cognition_devin_automati.Prelude.Lists.{
  any_by, any_by-append, count_by, count_by-append, count_by-le-length,
}
use cognition_devin_automati.Sessions.{
  count_active, has_key, Table, SessionRow, count_started_today,
}
use cognition_devin_automati.World.{Env, Issue, State}
use cognition_devin_automati.Prelude.{
  List, ◌≡◌, ◌≤◌, ◌++◌, arith, ◌∷◌, [], true, Bool-cases, leb, ◌+◌, inl, inr,
}
use cognition_devin_automati.Prelude.Texts.{Text, text_eq_of_eq}
use cognition_devin_automati.Handlers.Security.Decisions.{
  HasRoom, Added, Handled, queued, handle_security_issue-Handled, throttled, known, no_cve,
  malformed, not_created, created,
}
use cognition_devin_automati.Sessions.Unique.{IsValid}
use cognition_devin_automati.Handlers.Security.{
  handle_security_issue, security_reservation, security_key,
}
use cognition_devin_automati.Outcomes.{Outcome}
use cognition_devin_automati.Sessions.Claims.{is_taken, try_reserve-taken}
use cognition_devin_automati.Status.{is_active}

is_taken-append :
    (key : Text) (t : Table) (rows : List SessionRow) (row : SessionRow)
    → t.rows ≡ rows ++ row ∷ []
    → row.work_key ≡ key
    → is_taken key t ≡ true
unfolding any_by has_key
is_taken-append key t rows row e named = rw e (
    rw (any_by-append (has_key key) rows (row ∷ []))
      (ground (arith, text_eq_of_eq row.work_key key)))

count_active-append :
    (t : Table) (rows : List SessionRow) (row : SessionRow)
    → t.rows ≡ rows ++ row ∷ []
    → count_active t ≤ count_by (λ r. is_active r.status) rows + 1
unfolding count_active
count_active-append t rows row e = rw e (
    rw (count_by-append (λ r. is_active r.status) rows (row ∷ []))
      (omega (arith, count_by-le-length (λ (r : SessionRow). is_active r.status) (row ∷ []))))

module _ (cfg : Settings) (env : Env) (issue : Issue) (s : State) where
  Added-within :
      {t : State} (row : SessionRow)
      → HasRoom cfg env issue s
      → Added cfg env issue s t row
      → count_active t.sessions ≤ cfg.max_concurrent_sessions
  unfolding count_active
  Added-within {t} row room added =
      omega (arith, count_active-append t.sessions s.sessions.rows row added.rows)

  Handled-within :
      {o : Outcome} {t : State}
      → Handled cfg env issue s o t
      → count_active s.sessions ≤ cfg.max_concurrent_sessions
      → count_active t.sessions ≤ cfg.max_concurrent_sessions
  Handled-within (queued full e same) h = rw same h
  Handled-within (throttled room spent e same) h = rw same h
  Handled-within (known room taken e same) h = rw same h
  Handled-within (no_cve room row added st parsed e tr) h = Added-within row room added
  Handled-within (malformed room row ctx added st parsed inc e tr) h = Added-within row room added
  Handled-within (not_created room row ctx x added st parsed comp e tr) h =
      Added-within row room added
  Handled-within (created room row ctx c added st i p parsed comp a e tr) h =
      Added-within row room added

  -- On a table that meets its constraints and has no more active sessions than
  -- MAX_CONCURRENT_SESSIONS, it has no more after handle_security_issue.
  handle_security_issue-within_cap :
      IsValid s.sessions
      → count_active s.sessions ≤ cfg.max_concurrent_sessions
      → count_active (handle_security_issue cfg env issue s).1.sessions
        ≤ cfg.max_concurrent_sessions
  handle_security_issue-within_cap v h =
      Handled-within (handle_security_issue-Handled cfg env issue s v) h

  Added-taken :
      {t : State} (row : SessionRow)
      → Added cfg env issue s t row
      → is_taken (security_key cfg issue) t.sessions ≡ true
  Added-taken {t} row added =
      is_taken-append (security_key cfg issue) t.sessions s.sessions.rows row added.rows
        added.work_key

  Handled-taken :
      {o : Outcome} {t : State}
      → Handled cfg env issue s o t
      → HasRoom cfg env issue s
      → is_taken (security_key cfg issue) t.sessions ≡ true
  Handled-taken (queued full e same) h = absurd (omega arith)
  Handled-taken (throttled room spent e same) h = absurd (omega arith)
  Handled-taken (known room taken e same) h = rw same taken
  Handled-taken (no_cve room row added st parsed e tr) h = Added-taken row added
  Handled-taken (malformed room row ctx added st parsed inc e tr) h = Added-taken row added
  Handled-taken (not_created room row ctx x added st parsed comp e tr) h = Added-taken row added
  Handled-taken (created room row ctx c added st i p parsed comp a e tr) h = Added-taken row added

  -- With room under both caps the issue's work key is claimed afterwards.
  pub handle_security_issue-taken :
      IsValid s.sessions
      → HasRoom cfg env issue s
      → is_taken (security_key cfg issue) (handle_security_issue cfg env issue s).1.sessions ≡ true
  handle_security_issue-taken v room =
      Handled-taken (handle_security_issue-Handled cfg env issue s v) room

  -- A claimed issue changes nothing and sends nothing.
  pub handle_security_issue_claimed :
      is_taken (security_key cfg issue) s.sessions ≡ true
      → (handle_security_issue cfg env issue s).1 ≡ s
  unfolding handle_security_issue security_reservation
  handle_security_issue_claimed taken =
      elim (Bool-cases (leb cfg.max_concurrent_sessions (count_active s.sessions))) [
        | inl full ↦ rw full
        | inr room ↦
            rw room
              (elim (Bool-cases
                (leb cfg.max_sessions_per_day (count_started_today (env.now s) s.sessions))) [
                  | inl spent ↦ rw spent
                  | inr left ↦ rw left (
                      rw (
                        try_reserve-taken (security_reservation cfg issue) (env.now s) s.sessions
                          taken))
                ])
      ]
