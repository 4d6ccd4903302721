-- ===== src/Orchestrator.antt =====
-- app/orchestrator.py: one tick of the poller.
pub mod Drain
pub mod Poll
use cognition_devin_automati.Prelude.{ℕ}
use cognition_devin_automati.Settings.{Settings}
use cognition_devin_automati.Sessions.{list_non_terminal}
use cognition_devin_automati.World.{Except, ok, raised, Env, State}
use cognition_devin_automati.Handlers.{get_client}
use cognition_devin_automati.Orchestrator.Drain.{QueueSummary, drain_queue}
use cognition_devin_automati.Orchestrator.Poll.{PollSummary, no_polls, poll_rows}

module _ (cfg : Settings) (env : Env) where
  unfoldable pub poll_all :
      Except (Unit {0}) → QueueSummary × State → Except (QueueSummary × PollSummary) × State
  poll_all (raised e) (queue, s) = (raised e, s)
  poll_all (ok _) (queue, s) =
      let (polls, s') = poll_rows cfg env (list_non_terminal s.sessions) no_polls s in
      (ok (queue, polls), s')

  -- The summary is the queue's and the polls'; without a client the tick raises after the drain.
  unfoldable pub poll_once : State → Except (QueueSummary × PollSummary) × State
  unfolding poll_all
  poll_once s = poll_all (get_client cfg) (drain_queue cfg env s)
