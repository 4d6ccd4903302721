-- ===== src/Service/Ledger.antt =====
-- What the service keeps, whatever is delivered and whatever Devin and GitHub answer.
use cognition_devin_automati.Settings.{Settings}
use cognition_devin_automati.World.{Env, State, Issue}
use cognition_devin_automati.Webhook.{Crypto, Job, github_webhook, process}
use cognition_devin_automati.Prelude.{
  List, ◌+◌, ◌≡◌, true, ◌≤◌, Option, some, none, or_else, [], arith,
}
use cognition_devin_automati.Service.{Turn, serve, serve-Run}
use cognition_devin_automati.Prelude.Texts.{Text}
use cognition_devin_automati.Runs.Invariants.{
  WithinCap, creates, Run-IsValid, Run-WithinCap, Run-taken, Run-paid, Run-known, Run-IsCounted,
}
use cognition_devin_automati.Sessions.Unique.{IsValid}
use cognition_devin_automati.Sessions.Claims.{is_taken}
use cognition_devin_automati.Prelude.Lists.{length}
use cognition_devin_automati.Handlers.Security.Decisions.{HasRoom}
use cognition_devin_automati.Handlers.Security.{handle_security_issue, security_key}
use cognition_devin_automati.Handlers.Security.Rails.{
  handle_security_issue_claimed, handle_security_issue-taken,
}
use cognition_devin_automati.Webhook.Receipts.{github_webhook_known, github_webhook-known}
use cognition_devin_automati.Runs.{Run-trans}
use cognition_devin_automati.Runs.Events.{process-Run}
use cognition_devin_automati.Sessions.Chains.{IsCounted, fixes_of, last_attempt-within}

module _ (cfg : Settings) (env : Env) (crypto : Crypto) (turns : List Turn) (s : State) where
  -- After any deliveries and ticks, from a table with unique work keys and ids and ids below the
  -- next one, the table again has unique work keys and ids, and ids below the next one.
  pub serve-IsValid : IsValid s.sessions → IsValid (serve cfg env crypto turns s).sessions
  serve-IsValid v = Run-IsValid (serve-Run cfg env crypto turns s) v

  -- Over any deliveries and ticks the requests for paid sessions are no more than the rows that
  -- were added to the table.
  pub serve-paid :
      creates (serve cfg env crypto turns s).trace + length s.sessions.rows
      ≤ creates s.trace + length (serve cfg env crypto turns s).sessions.rows
  serve-paid = Run-paid (serve-Run cfg env crypto turns s)

  -- If no row has an attempt number past the cap MAX_FIX_ATTEMPTS, then none has after any
  -- deliveries and ticks.
  serve-WithinCap :
      WithinCap cfg.max_fix_attempts s.sessions.rows
      → WithinCap cfg.max_fix_attempts (serve cfg env crypto turns s).sessions.rows
  serve-WithinCap h = Run-WithinCap (serve-Run cfg env crypto turns s) h

  -- Where a parent session has no more fixes than the highest attempt number among them, and no row
  -- an attempt number past MAX_FIX_ATTEMPTS, the parent has at most MAX_FIX_ATTEMPTS fixes after any
  -- deliveries and ticks, each handled before the next.
  pub serve-fixes_bounded :
      (p : Text)
      → IsCounted p s.sessions
      → WithinCap cfg.max_fix_attempts s.sessions.rows
      → fixes_of p (serve cfg env crypto turns s).sessions ≤ cfg.max_fix_attempts
  serve-fixes_bounded p counted within =
      let run = serve-Run cfg env crypto turns s in
      omega (
        arith,
        Run-IsCounted p run counted,
        last_attempt-within p cfg.max_fix_attempts _ (Run-WithinCap run within),
      )

  -- A work key that a row has claimed stays claimed over any deliveries and ticks.
  serve-taken :
      (key : Text)
      → is_taken key s.sessions ≡ true
      → is_taken key (serve cfg env crypto turns s).sessions ≡ true
  serve-taken key h = Run-taken key (serve-Run cfg env crypto turns s) h

  -- On a table that meets its constraints and with room under both caps, an issue is handled once:
  -- whatever came of it, and after any deliveries and ticks that follow, to handle it again leaves
  -- the state as it is, and so sends no second request for a paid session.
  pub handle_security_issue_once :
      (issue : Issue)
      → IsValid s.sessions
      → HasRoom cfg env issue s
      → let t = serve cfg env crypto turns (handle_security_issue cfg env issue s).1 in
        (handle_security_issue cfg env issue t).1 ≡ t
  handle_security_issue_once issue v room =
      let t = (handle_security_issue cfg env issue s).1 in
      handle_security_issue_claimed cfg env issue (serve cfg env crypto turns t) (
        Run-taken (security_key cfg issue) (serve-Run cfg env crypto turns t)
          (handle_security_issue-taken cfg env issue s v room))

  -- A delivery that left a task is worked off once: after the task and any further deliveries and
  -- ticks, the same delivery leaves no task and changes nothing.
  pub deliver_once :
      (body : Text) (event delivery signature : Option Text) (job : Job)
      → (github_webhook cfg env crypto body event delivery signature s).1 ≡ some job
      → let t =
          serve cfg env crypto turns (
            process cfg env job
              (github_webhook cfg env crypto body event delivery signature s).2) in
        ((github_webhook cfg env crypto body event delivery signature t).1 ≡ none)
        × ((github_webhook cfg env crypto body event delivery signature t).2 ≡ t)
  deliver_once body event delivery signature job left =
      let received = (github_webhook cfg env crypto body event delivery signature s).2 in
      github_webhook_known cfg env crypto body event delivery signature _ (
        Run-known (or_else delivery [])
          (Run-trans (process-Run cfg env job received)
            (serve-Run cfg env crypto turns (process cfg env job received)))
          (github_webhook-known cfg env crypto body event delivery signature s job left))
