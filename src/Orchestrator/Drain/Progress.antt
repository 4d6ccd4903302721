-- ===== src/Orchestrator/Drain/Progress.antt =====
-- A drain with a free slot makes the queue shorter.
use cognition_devin_automati.Orchestrator.Drain.{settle, retry_all, drain_queue, QueueSummary}
use cognition_devin_automati.Orchestrator.Drain.Served.{dispatch_issue-Served}
use cognition_devin_automati.Orchestrator.Drain.Waiting.{
  IsWaiting, list_queued-IsWaiting, list_queued-All, mark_processed-lt, mark_processed-le,
  list_queued-nonempty,
}
use cognition_devin_automati.Runs.Events.{dispatch-Run, settle-Run}
use cognition_devin_automati.Events.{waits, list_queued}
use cognition_devin_automati.World.{State, EventRow, Env, ok}
use cognition_devin_automati.Prelude.{
  List, ℕ, ◌≡◌, true, ◌∷◌, ◌<◌, Bool-cases, ◌≤◌, inl, false, ap, arith, ◌-◌, inr, sym, lt→leb_false,
  refl, [],
}
use cognition_devin_automati.Settings.{Settings}
use cognition_devin_automati.Prelude.Lists.{filter_by, All, count_by, length}
use cognition_devin_automati.Dispatcher.{dispatch, dispatch_issue}
use cognition_devin_automati.Outcomes.{Outcome, is_queued}
use cognition_devin_automati.Prelude.Texts.{text, text_eq_refl}
use cognition_devin_automati.Sessions.Unique.{IsValid}
use cognition_devin_automati.Sessions.{count_active}
use cognition_devin_automati.Runs.Invariants.{Run-IsValid}

abbrev pub waiting : State → ℕ
waiting s = count_by waits s.events

abbrev IsIssues : EventRow → Type 0
IsIssues e = e.event_type ≡ text "issues"

-- The waiting events are issue events.
abbrev pub QueuesIssues : List EventRow → Type 0
QueuesIssues events = All (λ e. waits e ≡ true → e.event_type ≡ text "issues") events

filter_by-IsIssues :
    (events : List EventRow) → QueuesIssues events → All IsIssues (filter_by waits events)
unfolding filter_by
filter_by-IsIssues [] h = tt
filter_by-IsIssues (e ∷ events) h = elim (Bool-cases (waits e)) [
  | inl again ↦ rw (again, All) (h.0 again, filter_by-IsIssues events h.1)
  | inr over ↦ rw (over, All) (filter_by-IsIssues events h.1)
]

module _ (cfg : Settings) (env : Env) where
  -- One round of the loop.
  abbrev round : EventRow → QueueSummary → State → QueueSummary × State
  round row q s =
      let r = dispatch cfg env row.event_type row.action row.payload s in
      settle cfg env row r.0 q r.1

  dispatch_issues :
      (row : EventRow) (s : State)
      → IsIssues row
      → let r = dispatch_issue cfg env row.action row.payload s in
        dispatch cfg env row.event_type row.action row.payload s ≡ (ok r.0, r.1)
  unfolding dispatch
  dispatch_issues row s h = rw h (rw (text_eq_refl (text "issues")) refl)

  settle-le :
      (row : EventRow) (o : Outcome) (q : QueueSummary) (s : State)
      → waiting (settle cfg env row (ok o) q s).1 ≤ waiting s
  unfolding settle
  settle-le row o q s = elim (Bool-cases (is_queued o)) [
    | inl again ↦ rw again (omega arith)
    | inr over ↦ rw over (mark_processed-le row.delivery_id o (env.now s) s.events over)
  ]

  settle-lt :
      (row : EventRow) (o : Outcome) (q : QueueSummary) (s : State)
      → is_queued o ≡ false
      → IsWaiting s.events row
      → waiting (settle cfg env row (ok o) q s).1 < waiting s
  unfolding settle
  settle-lt row o q s over h =
      rw over (mark_processed-lt row.delivery_id o (env.now s) s.events over h.1)

  round-IsValid :
      (row : EventRow) (q : QueueSummary) (s : State)
      → IsValid s.sessions
      → IsValid (round row q s).1.sessions
  round-IsValid row q s v =
      Run-IsValid
        (settle-Run cfg env row _ q _
          (dispatch-Run cfg env row.event_type row.action row.payload s))
        v

  round-le :
      (row : EventRow) (q : QueueSummary) (s : State)
      → IsIssues row
      → IsValid s.sessions
      → waiting (round row q s).1 ≤ waiting s
  round-le row q s h v =
      let served = dispatch_issue-Served cfg env row.action row.payload s v in
      let r = dispatch_issue cfg env row.action row.payload s in
      rw (dispatch_issues row s h) (
        rw (ap (λ (es : List EventRow). count_by waits es) (sym served.events))
          (settle-le row r.0 q r.1))

  round-lt :
      (row : EventRow) (q : QueueSummary) (s : State)
      → IsIssues row
      → IsValid s.sessions
      → IsWaiting s.events row
      → count_active s.sessions < cfg.max_concurrent_sessions
      → waiting (round row q s).1 < waiting s
  round-lt row q s h v w room =
      let served = dispatch_issue-Served cfg env row.action row.payload s v in
      let r = dispatch_issue cfg env row.action row.payload s in
      elim (Bool-cases (is_queued r.0)) [
        | inl again ↦ absurd (omega (arith, served.queued again))
        | inr over ↦ rw (dispatch_issues row s h) (
            rw (ap (λ (es : List EventRow). count_by waits es) (sym served.events))
              (settle-lt row r.0 q r.1 over (rw served.events w)))
      ]

  retry_all-le :
      (rows : List EventRow) (q : QueueSummary) (s : State)
      → All IsIssues rows
      → IsValid s.sessions
      → waiting (retry_all cfg env rows q s).1 ≤ waiting s
  unfolding retry_all
  retry_all-le [] q s h v = omega arith
  retry_all-le (row ∷ rows) q s h v =
      let r = round row q s in
      omega (arith, round-le row q s h.0 v, retry_all-le rows r.0 r.1 h.1 (round-IsValid row q s v))

  retry_all-lt :
      (rows : List EventRow) (q : QueueSummary) (s : State)
      → 0 < length rows
      → All IsIssues rows
      → All (IsWaiting s.events) rows
      → IsValid s.sessions
      → count_active s.sessions < cfg.max_concurrent_sessions
      → waiting (retry_all cfg env rows q s).1 < waiting s
  unfolding retry_all
  retry_all-lt [] q s some_row h w v room = absurd (omega arith)
  retry_all-lt (row ∷ rows) q s some_row h w v room =
      let r = round row q s in
      omega (
        arith,
        round-lt row q s h.0 v w.0 room,
        retry_all-le rows r.0 r.1 h.1 (round-IsValid row q s v),
      )

  -- The queue drains: on a table that meets its constraints, with a session slot free, some event
  -- waiting and none but issue events waiting, one call of drain_queue leaves fewer events waiting.
  pub drain_queue-progress :
      (s : State)
      → IsValid s.sessions
      → count_active s.sessions < cfg.max_concurrent_sessions
      → QueuesIssues s.events
      → 0 < waiting s
      → waiting (drain_queue cfg env s).1 < waiting s
  unfolding drain_queue
  drain_queue-progress s v room issues some_row =
      let free = cfg.max_concurrent_sessions - count_active s.sessions in
      rw (lt→leb_false _ _ room) (
        retry_all-lt (list_queued free s.events) _ s
          (list_queued-nonempty free s.events (omega arith) some_row)
          (list_queued-All IsIssues free s.events (filter_by-IsIssues s.events issues))
          (list_queued-IsWaiting free s.events) v room)
