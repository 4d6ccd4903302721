-- ===== src/Service.antt =====
-- The service as a whole, one turn after another: a delivery with its background task, or a tick
-- of the poller.
pub mod Ledger
use cognition_devin_automati.Prelude.Texts.{Text, truthy}
use cognition_devin_automati.Settings.{Settings}
use cognition_devin_automati.Prelude.{Option, List, ◌∷◌, some, Bool-cases, [], none, inl, inr, ◌&&◌}
use cognition_devin_automati.World.{Env, State, Payload}
use cognition_devin_automati.Webhook.{
  Crypto, Response, accept, accept_parsed, github_webhook, Job, process, verify_github_signature,
  Parsed, object, not_json, unusable,
}
use cognition_devin_automati.Orchestrator.{poll_once}
use cognition_devin_automati.Runs.{Run, here, Run-trans, next, logged}
use cognition_devin_automati.Runs.Polls.{poll_once-Run}
use cognition_devin_automati.Events.{record_event}
use cognition_devin_automati.Runs.Events.{process-Run}
use cognition_devin_automati.Events.Known.{known-record_event}

pub data Turn : Type 0 where
  -- the body and the event, delivery and signature headers
  deliver : Text → Option Text → Option Text → Option Text → Turn
  tick : Turn

module _ (cfg : Settings) (env : Env) (crypto : Crypto) where
  unfoldable pub finish : Response × Option Job × State → State
  finish (response, none, s) = s
  finish (response, some job, s) = process cfg env job s

  unfoldable pub turn : Turn → State → State
  unfolding finish
  turn (deliver body event delivery signature) s =
      finish (github_webhook cfg env crypto body event delivery signature s)
  turn tick s = (poll_once cfg env s).1

  unfoldable pub serve : List Turn → State → State
  unfolding turn
  serve [] s = s
  serve (t ∷ ts) s = serve ts (turn t s)

  accept-Run :
      (delivery event : Text) (payload : Payload) (s : State)
      → Run cfg.max_fix_attempts s (accept cfg env delivery event payload s).2
  unfolding accept
  accept-Run delivery event payload s =
      elim (Bool-cases
        (record_event delivery event payload.action payload (env.now s) s.events).0) [
          | inl fresh ↦ rw fresh (
              next here
                (logged _ (λ id. known-record_event id delivery event payload.action payload _ _)))
          | inr known ↦ rw known here
        ]

  parsed-Run :
      (payload : Parsed) (delivery event : Text) (s : State)
      → Run cfg.max_fix_attempts s (accept_parsed cfg env payload delivery event s).2
  unfolding accept_parsed
  parsed-Run not_json delivery event s = here
  parsed-Run unusable delivery event s = here
  parsed-Run (object payload) delivery event s = accept-Run delivery event payload s

  webhook-Run :
      (body : Text) (event delivery signature : Option Text) (s : State)
      → Run cfg.max_fix_attempts s (github_webhook cfg env crypto body event delivery signature s).2
  unfolding github_webhook
  webhook-Run body event delivery signature s =
      elim (Bool-cases (verify_github_signature crypto body signature cfg.gh_webhook_secret)) [
        | inr forged ↦ rw forged here
        | inl genuine ↦ rw genuine (elim (Bool-cases (truthy event && truthy delivery)) [
          | inr missing ↦ rw missing here
          | inl given ↦ rw given (parsed-Run (crypto.parse_json body) _ _ s)
        ])
      ]

  finish-Run :
      {s : State} (r : Response × Option Job × State)
      → Run cfg.max_fix_attempts s r.2
      → Run cfg.max_fix_attempts s (finish r)
  unfolding finish
  finish-Run (response, none, t) run = run
  finish-Run (response, some job, t) run = Run-trans run (process-Run cfg env job t)

  turn-Run : (t : Turn) (s : State) → Run cfg.max_fix_attempts s (turn t s)
  unfolding turn
  turn-Run (deliver body event delivery signature) s =
      finish-Run (github_webhook cfg env crypto body event delivery signature s)
        (webhook-Run body event delivery signature s)
  turn-Run tick s = poll_once-Run cfg env s

  pub serve-Run : (ts : List Turn) (s : State) → Run cfg.max_fix_attempts s (serve ts s)
  unfolding serve
  serve-Run [] s = here
  serve-Run (t ∷ ts) s = Run-trans (turn-Run t s) (serve-Run ts (turn t s))
