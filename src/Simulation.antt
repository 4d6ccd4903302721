-- ===== src/Simulation.antt =====
-- scripts/simulate_issue.py: the delivery of a real issue, without GitHub.
pub mod Accepted
use cognition_devin_automati.Webhook.{
  Crypto, Response, unauthorized, missing_headers, invalid_json, duplicate, accepted, server_error,
}
use cognition_devin_automati.Prelude.{
  ℕ, Option, ◌∷◌, if◌then◌else◌, ◌++◌, ◌==◌, ◌&&◌, or_else, not, [], some, ◌/◌, none, ltb,
}
use cognition_devin_automati.Prelude.Texts.{Text, text, truthy, nonempty, show_nat}
use cognition_devin_automati.World.{Payload, Except, Issue, raised, ok}

-- s.rstrip("/")
unfoldable pub without_slashes : Text → Text
without_slashes [] = []
without_slashes (c ∷ s) =
    let rest = without_slashes s in if c == 47 && not (nonempty rest) then [] else c ∷ rest

-- The POST: its URL, its body and the headers that the receiver reads.
pub record Request : Type 0 where
  pub url : Text
  pub body : Text
  pub event : Text
  pub delivery : Text
  pub signature : Text

-- What the receiver's answers have as their HTTP status.
unfoldable pub status_code : Response → ℕ
status_code unauthorized = 401
status_code missing_headers = 400
status_code invalid_json = 400
status_code server_error = 500
status_code (duplicate id) = 200
status_code (accepted id) = 200

-- The arguments of the command line, and the variables of the environment.
pub record Arguments : Type 0 where
  pub issue_number : ℕ
  pub api : Text
  pub delivery_id : Option Text

pub record Variables : Type 0 where
  pub fork_repo : Option Text
  pub gh_token : Option Text
  pub gh_webhook_secret : Option Text

unfoldable pub simulated_delivery_id : Arguments → ℕ → Text
unfolding text
simulated_delivery_id args now =
    if truthy args.delivery_id
    then or_else args.delivery_id []
    else text "sim-" ++ show_nat args.issue_number ++ 45 ∷ show_nat (now / 1_000_000)

-- `dumps` is json.dumps of a payload.
module _ (crypto : Crypto) (dumps : Payload → Text) where
  unfoldable pub post_webhook : Text → Payload → Text → Text → Request
  unfolding without_slashes text
  post_webhook api_url payload secret delivery_id = record {
    url = without_slashes api_url ++ text "/webhook/github";
    body = dumps payload;
    event = text "issues";
    delivery = delivery_id;
    signature = text "sha256=" ++ crypto.hexdigest secret (dumps payload);
  }

  -- GitHub answers with the issue or raises, and the orchestrator with a status. The labels of an
  -- issue are printed by name, which GitHub always gives.
  module _ (fetch_issue : Text → ℕ → Text → Except Issue) (serve_post : Request → ℕ) where
    unfoldable pub post_issue : Arguments → Text → ℕ → Except Issue → Except ℕ
    unfolding post_webhook simulated_delivery_id text
    post_issue args secret now (raised e) = raised e
    post_issue args secret now (ok issue) =
        let payload : Payload = record {
          action = some (text "opened");
          issue = some issue;
          workflow_run = none;
        } in
        let status =
          serve_post (post_webhook args.api payload secret (simulated_delivery_id args now)) in
        ok (if ltb status 400 then 0 else 1)

    -- The exit code.
    unfoldable pub main : Arguments → Variables → ℕ → Except ℕ
    unfolding post_issue
    main args vars now =
        let repo = or_else vars.fork_repo [] in
        let token = or_else vars.gh_token [] in
        let secret = or_else vars.gh_webhook_secret [] in
        if nonempty repo && (nonempty token && nonempty secret)
        then post_issue args secret now (fetch_issue repo args.issue_number token)
        else ok 2
