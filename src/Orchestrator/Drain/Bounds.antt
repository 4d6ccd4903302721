-- ===== src/Orchestrator/Drain/Bounds.antt =====
-- How much of the queue one call of drain_queue takes.
use cognition_devin_automati.Orchestrator.Drain.{QueueSummary, settle, retry_all, drain_queue}
use cognition_devin_automati.Settings.{Settings}
use cognition_devin_automati.World.{Env, EventRow, Except, State, raised, ok}
use cognition_devin_automati.Prelude.{
  ℕ, List, ◌≡◌, suc, ◌≤◌, ◌∙◌, arith, ◌+◌, ◌-◌, ◌∷◌, Bool-cases, leb, [], inl, refl, inr,
  leb_false→lt, ◌<◌, ◌⊎◌,
}
use cognition_devin_automati.Events.{list_queued, received_before, waits}
use cognition_devin_automati.Outcomes.{Outcome, is_queued}
use cognition_devin_automati.Prelude.Lists.{length, length-take, sort_by, filter_by}
use cognition_devin_automati.Sessions.{count_active}
use cognition_devin_automati.Dispatcher.{dispatch}

module _ (cfg : Settings) (env : Env) where
  -- The counters of a loop over some rows that started with others.
  abbrev Counted : ℕ → QueueSummary → QueueSummary → Type 0
  Counted n q r =
      (r.queue_seen ≡ q.queue_seen)
      × ((r.queue_retried ≤ q.queue_retried + n)
          × (r.queue_dispatched + q.queue_retried ≤ q.queue_dispatched + r.queue_retried))

  settle-Counted :
      (row : EventRow) (result : Except Outcome) (q : QueueSummary) (s : State)
      → Counted 1 q (settle cfg env row result q s).0
  unfolding settle
  settle-Counted row (raised e) q s = (refl, (omega arith, omega arith))
  settle-Counted row (ok o) q s = elim (Bool-cases (is_queued o)) [
    | inl again ↦ rw again (refl, (omega arith, omega arith))
    | inr over ↦ rw over (refl, (omega arith, omega arith))
  ]

  Counted-trans :
      (n : ℕ) (p q r : QueueSummary) → Counted 1 p q → Counted n q r → Counted (suc n) p r
  Counted-trans n p q r (a, (b, c)) (d, (e, f)) = (d ∙ a, (omega arith, omega arith))

  retry_all-Counted :
      (rows : List EventRow) (q : QueueSummary) (s : State)
      → Counted (length rows) q (retry_all cfg env rows q s).0
  unfolding retry_all
  retry_all-Counted [] q s = (refl, (omega arith, omega arith))
  retry_all-Counted (row ∷ rows) q s =
      let result = dispatch cfg env row.event_type row.action row.payload s in
      let settled = settle cfg env row result.0 q result.1 in
      Counted-trans (length rows) q settled.0 _ (settle-Counted row result.0 q result.1)
        (retry_all-Counted rows settled.0 settled.1)

  -- One call of drain_queue takes no more events than there are free session slots, retries no more
  -- than it takes, and dispatches no more than it retries; with no free slot it changes nothing.
  pub drain_queue-bounds :
      (s : State)
      → let q = (drain_queue cfg env s).0 in
        (q.queue_dispatched ≤ q.queue_retried)
        × ((q.queue_retried ≤ q.queue_seen)
            × ((q.queue_seen ≤ cfg.max_concurrent_sessions - count_active s.sessions)
                × ((count_active s.sessions < cfg.max_concurrent_sessions)
                    ⊎ ((drain_queue cfg env s).1 ≡ s))))
  unfolding drain_queue list_queued
  drain_queue-bounds s =
      elim (Bool-cases (leb cfg.max_concurrent_sessions (count_active s.sessions))) [
        | inl full ↦ rw full (omega arith, (omega arith, (omega arith, inr refl)))
        | inr room ↦
            let free = cfg.max_concurrent_sessions - count_active s.sessions in
            let queued = list_queued free s.events in
            let start : QueueSummary = record {
              queue_seen = length queued;
              queue_retried = 0;
              queue_dispatched = 0;
            } in
            let counted = retry_all-Counted queued start s in
            let few = length-take free (sort_by received_before (filter_by waits s.events)) in
            rw room (
              omega (arith, counted.1.1),
              (
                omega (arith, counted.0, counted.1.0),
                (omega (arith, counted.0, few), inl (leb_false→lt _ _ room)),
              ),
            )
      ]
