-- ===== src/Orchestrator/Drain.antt =====
-- drain_queue of app/orchestrator.py.
pub mod Bounds
pub mod Served
pub mod Waiting
pub mod Progress
use cognition_devin_automati.Prelude.{ℕ, ◌+◌, ◌-◌, List, [], ◌∷◌, leb, if◌then◌else◌}
use cognition_devin_automati.Prelude.Lists.{length}
use cognition_devin_automati.Settings.{Settings}
use cognition_devin_automati.Sessions.{count_active}
use cognition_devin_automati.Outcomes.{Outcome, is_queued}
use cognition_devin_automati.World.{Except, ok, raised, EventRow, Env, State}
use cognition_devin_automati.Events.{list_queued, mark_processed}
use cognition_devin_automati.Dispatcher.{dispatch}

pub record QueueSummary : Type 0 where
  pub queue_seen : ℕ
  pub queue_retried : ℕ
  pub queue_dispatched : ℕ

module _ (cfg : Settings) (env : Env) where
  -- What the loop does with the result of one retry.
  unfoldable pub settle : EventRow → Except Outcome → QueueSummary → State → QueueSummary × State
  settle row (raised e) q s = (q, s)
  settle row (ok o) q s =
      if is_queued o then (record q { queue_retried = q.queue_retried + 1 }, s) else (
        record q { queue_retried = q.queue_retried + 1; queue_dispatched = q.queue_dispatched + 1 },
        record s { events = mark_processed row.delivery_id o (env.now s) s.events },
      )

  unfoldable pub retry_all : List EventRow → QueueSummary → State → QueueSummary × State
  unfolding settle
  retry_all [] q s = (q, s)
  retry_all (row ∷ rows) q s =
      let (result, s') = dispatch cfg env row.event_type row.action row.payload s in
      let (q', s'') = settle row result q s' in retry_all rows q' s''

  unfoldable pub drain_queue : State → QueueSummary × State
  unfolding retry_all
  drain_queue s =
      if leb cfg.max_concurrent_sessions (count_active s.sessions)
      then (record { queue_seen = 0; queue_retried = 0; queue_dispatched = 0 }, s)
      else let queued =
          list_queued (cfg.max_concurrent_sessions - count_active s.sessions) s.events in
        retry_all queued
          (record { queue_seen = length queued; queue_retried = 0; queue_dispatched = 0 }) s
