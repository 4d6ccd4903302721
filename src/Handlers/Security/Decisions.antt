-- ===== src/Handlers/Security/Decisions.antt =====
-- handle_security_issue against its decision table.
use cognition_devin_automati.Settings.{Settings}
use cognition_devin_automati.World.{
  Env, Issue, State, Call, raised, Except, SessionCreated, ok, Exn,
}
use cognition_devin_automati.Outcomes.{
  Outcome, queued_concurrency_cap, skipped_daily_cap, skipped_already_reserved,
  skipped_not_a_cve_issue, skipped_missing_fields, error_devin_create_failed, created_session,
}
use cognition_devin_automati.Handlers.Security.{
  reserve_and_remediate, handle_security_issue, security_key, security_reservation,
  create_or_refuse, with_context, cve_request, parse_issue_to_cve_context, issue_number,
}
use cognition_devin_automati.Sessions.{
  SessionRow, count_active, count_started_today, reserved_row, Assign, mark_failed, assign_all,
  update,
}
use cognition_devin_automati.Sessions.Claims.{
  is_taken, claimed, try_reserve-taken, try_reserve-free, assign_all-SameIdentity,
}
use cognition_devin_automati.Sessions.Unique.{IsValid, rows-update-claimed}
use cognition_devin_automati.Prelude.{
  ◌≤◌, ◌<◌, ◌≡◌, false, Bool-cases, ◌++◌, ℕ, List, inl, leb, ◌∷◌, [], true, leb→le, inr, Option,
  leb_false→lt, none, some, refl, ◌≢◌, ◌⊎◌,
}
use cognition_devin_automati.Handlers.{with_client, creation_result, open_session, get_client}
use cognition_devin_automati.Prompts.{CveContext, missing_required_fields, cve_prompt}
use cognition_devin_automati.Status.{failed, pending}
use cognition_devin_automati.Prelude.Texts.{Text}

-- The table: which guard decides, the result, the row that was added and the requests that were
-- sent. `o` is the handler's result and `t` the state that it leaves.
module _ (cfg : Settings) (env : Env) (issue : Issue) (s : State) where
  abbrev pub HasRoom : Type 0
  HasRoom =
      (count_active s.sessions < cfg.max_concurrent_sessions)
      × (count_started_today (env.now s) s.sessions < cfg.max_sessions_per_day)

  -- The row of this issue stands last in the table, the only change to it.
  pub record Added (t : State) (row : SessionRow) : Type 0 where
    pub rows : t.sessions.rows ≡ s.sessions.rows ++ row ∷ []
    pub work_key : row.work_key ≡ security_key cfg issue
    pub was_free : is_taken (security_key cfg issue) s.sessions ≡ false
    pub events : t.events ≡ s.events

  pub data Handled (o : Outcome) (t : State) : Type 0 where
    queued :
        cfg.max_concurrent_sessions ≤ count_active s.sessions
        → o ≡ queued_concurrency_cap (security_key cfg issue)
        → t ≡ s
        → Handled o t
    throttled :
        count_active s.sessions < cfg.max_concurrent_sessions
        → cfg.max_sessions_per_day ≤ count_started_today (env.now s) s.sessions
        → o ≡ skipped_daily_cap cfg.max_sessions_per_day
        → t ≡ s
        → Handled o t
    known :
        HasRoom
        → is_taken (security_key cfg issue) s.sessions ≡ true
        → o ≡ skipped_already_reserved (security_key cfg issue)
        → t ≡ s
        → Handled o t
    no_cve :
        HasRoom
        → (row : SessionRow) → Added t row
        → row.status ≡ failed
        → parse_issue_to_cve_context issue ≡ none
        → o ≡ skipped_not_a_cve_issue (issue_number issue)
        → t.trace ≡ s.trace
        → Handled o t
    malformed :
        HasRoom
        → (row : SessionRow) (ctx : CveContext) → Added t row
        → row.status ≡ failed
        → parse_issue_to_cve_context issue ≡ some ctx
        → missing_required_fields ctx ≢ []
        → o ≡ skipped_missing_fields (missing_required_fields ctx)
        → t.trace ≡ s.trace
        → Handled o t
    not_created :
        HasRoom
        → (row : SessionRow) (ctx : CveContext) (e : Exn) → Added t row
        → row.status ≡ failed
        → parse_issue_to_cve_context issue ≡ some ctx
        → missing_required_fields ctx ≡ []
        → o ≡ error_devin_create_failed e.kind
        → ((get_client cfg ≡ raised e) × (t.trace ≡ s.trace))
          ⊎ ((env.create_session s.trace (cve_request cfg env ctx) ≡ raised e)
              × (t.trace ≡ Call.create_session (cve_request cfg env ctx) ∷ s.trace))
        → Handled o t
    created :
        HasRoom
        → (row : SessionRow) (ctx : CveContext) (session : SessionCreated) → Added t row
        → row.status ≡ pending
        → row.devin_session_id ≡ some session.devin_session_id
        → row.prompt_snapshot ≡ some (cve_prompt ctx cfg.fork_url)
        → parse_issue_to_cve_context issue ≡ some ctx
        → missing_required_fields ctx ≡ []
        → env.create_session s.trace (cve_request cfg env ctx) ≡ ok session
        → o ≡ created_session session.devin_session_id
        → t.trace ≡ Call.create_session (cve_request cfg env ctx) ∷ s.trace
        → Handled o t

  abbrev Handles : Outcome × State → Type 0
  Handles (o, t) = Handled o t

  module _ (room : HasRoom) (free : is_taken (security_key cfg issue) s.sessions ≡ false)
      (v : IsValid s.sessions) where
    abbrev pk : ℕ
    pk = s.sessions.next_id

    abbrev with_claim : State
    with_claim = record s {
      sessions = claimed (security_reservation cfg issue) (env.now s) s.sessions;
    }

    abbrev row_after : List Assign → SessionRow
    row_after changes =
        assign_all changes (reserved_row (security_reservation cfg issue) pk (env.now s))

    Added-update :
        (changes : List Assign) (calls : List Call)
        → Added
            (record {
              sessions = update pk changes with_claim.sessions;
              events = s.events;
              trace = calls;
            })
            (row_after changes)
    unfolding reserved_row security_reservation
    Added-update changes calls = record {
      rows = rows-update-claimed changes (security_reservation cfg issue) (env.now s) s.sessions v;
      work_key =
          (assign_all-SameIdentity changes
            (reserved_row (security_reservation cfg issue) pk (env.now s))).work_key;
      was_free = free;
      events = refl;
    }

    result-Handled :
        (ctx : CveContext) (answer : Except SessionCreated)
        → parse_issue_to_cve_context issue ≡ some ctx
        → missing_required_fields ctx ≡ []
        → env.create_session s.trace (cve_request cfg env ctx) ≡ answer
        → Handles (
            creation_result cfg env answer (cve_request cfg env ctx) pk (record with_claim {
              trace = Call.create_session (cve_request cfg env ctx) ∷ s.trace;
            }))
    unfolding creation_result mark_failed assign_all cve_request
    result-Handled ctx (raised e) parsed complete answered =
        not_created room _ ctx e (Added-update _ _) refl parsed complete refl (inr (answered, refl))
    result-Handled ctx (ok session) parsed complete answered =
        created room _ ctx session (Added-update _ _) refl refl refl parsed complete answered refl
          refl

    client-Handled :
        (ctx : CveContext) (client : Except (Unit {0}))
        → get_client cfg ≡ client
        → parse_issue_to_cve_context issue ≡ some ctx
        → missing_required_fields ctx ≡ []
        → Handles (with_client cfg env client (cve_request cfg env ctx) pk with_claim)
    unfolding with_client mark_failed assign_all
    client-Handled ctx (raised e) opened parsed complete =
        not_created room _ ctx e (Added-update _ _) refl parsed complete refl (inl (opened, refl))
    client-Handled ctx (ok _) opened parsed complete = result-Handled ctx _ parsed complete refl

    fields-Handled :
        (ctx : CveContext) (missing : List Text)
        → missing_required_fields ctx ≡ missing
        → parse_issue_to_cve_context issue ≡ some ctx
        → Handles (create_or_refuse cfg env ctx missing pk with_claim)
    unfolding create_or_refuse open_session mark_failed assign_all
    fields-Handled ctx [] complete parsed = client-Handled ctx (get_client cfg) refl parsed complete
    fields-Handled ctx (m ∷ ms) incomplete parsed =
        malformed room _ ctx (Added-update _ _) refl parsed (rw incomplete (λ e. cc))
          (rw incomplete) refl

    context-Handled :
        (found : Option CveContext)
        → parse_issue_to_cve_context issue ≡ found
        → Handles (with_context cfg env issue found pk with_claim)
    unfolding with_context mark_failed assign_all
    context-Handled none parsed = no_cve room _ (Added-update _ _) refl parsed refl refl
    context-Handled (some ctx) parsed = fields-Handled ctx _ refl parsed

  remediate-Handled : HasRoom → IsValid s.sessions → Handles (reserve_and_remediate cfg env issue s)
  unfolding reserve_and_remediate security_reservation
  remediate-Handled room v =
      let r = security_reservation cfg issue in
      elim (Bool-cases (is_taken (security_key cfg issue) s.sessions)) [
        | inl taken ↦
            rw (try_reserve-taken r (env.now s) s.sessions taken) (known room taken refl refl)
        | inr free ↦
            rw (try_reserve-free r (env.now s) s.sessions free) (context-Handled room free v _ refl)
      ]

  -- On a table that meets its constraints handle_security_issue does what the table says: at the
  -- concurrency cap it queues, at the daily cap and on a claimed work key it skips, each with no
  -- change; else it adds exactly one row with the issue's work key. The row is failed, with no
  -- request sent, where the issue is not a CVE issue or lacks fields; failed where the client or
  -- the request raises; and pending, with Devin's session id and the prompt, after the one
  -- request, where the session is created.
  pub handle_security_issue-Handled :
      IsValid s.sessions
      → Handled (handle_security_issue cfg env issue s).0 (handle_security_issue cfg env issue s).1
  unfolding handle_security_issue
  handle_security_issue-Handled v =
      elim (Bool-cases (leb cfg.max_concurrent_sessions (count_active s.sessions))) [
        | inl full ↦ rw full (queued (leb→le _ _ full) refl refl)
        | inr room ↦
            rw room
              (elim (Bool-cases
                (leb cfg.max_sessions_per_day (count_started_today (env.now s) s.sessions))) [
                  | inl spent ↦
                      rw spent (throttled (leb_false→lt _ _ room) (leb→le _ _ spent) refl refl)
                  | inr left ↦
                      rw left (remediate-Handled (leb_false→lt _ _ room, leb_false→lt _ _ left) v)
                ])
      ]
