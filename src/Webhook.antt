-- ===== src/Webhook.antt =====
-- app/routes/webhook.py and app/signature.py: the receiver, and the background task that it leaves.
pub mod Receipts
use cognition_devin_automati.Prelude.{
  Bool, false, ◌&&◌, not, Option, none, some, [], ◌++◌, if◌then◌else◌, or_else,
}
use cognition_devin_automati.Prelude.Texts.{Text, text, starts_with, drop_prefix, truthy, nonempty}
use cognition_devin_automati.Settings.{Settings}
use cognition_devin_automati.Outcomes.{Outcome, error_crashed}
use cognition_devin_automati.World.{Except, ok, raised, Payload, Env, State}
use cognition_devin_automati.Events.{record_event, mark_processed}
use cognition_devin_automati.Dispatcher.{dispatch}

-- A body: one at which json.loads raises its JSONDecodeError, one at which it raises another
-- exception or that is no object, so that `payload.get` raises, and an object.
pub data Parsed : Type 0 where
  not_json unusable : Parsed
  object : Payload → Parsed

-- What Python's `hmac`, `hashlib` and `json` give: the hex digest of a body under a secret, the
-- constant-time comparison of two texts, and what json.loads makes of a body.
pub record Crypto : Type 0 where
  pub hexdigest : Text → Text → Text
  pub compare_digest : Text → Text → Bool
  pub parse_json : Text → Parsed

pub data Response : Type 0 where
  unauthorized missing_headers invalid_json server_error : Response
  duplicate accepted : Text → Response

-- The arguments of `_process`.
pub record Job : Type 0 where
  pub delivery_id : Text
  pub event_type : Text
  pub action : Option Text
  pub payload : Payload

unfoldable pub signature_prefix : Text
unfolding text
signature_prefix = text "sha256="

module _ (crypto : Crypto) where
  unfoldable pub verify_github_signature : Text → Option Text → Text → Bool
  verify_github_signature body header secret =
      if not (nonempty secret)
      then false
      else if not (truthy header)
      then false
      else if not (starts_with signature_prefix (or_else header []))
      then false
      else crypto.compare_digest (crypto.hexdigest secret body)
          (drop_prefix signature_prefix (or_else header []))

  unfoldable pub sign_github_payload : Text → Text → Text
  sign_github_payload body secret = signature_prefix ++ crypto.hexdigest secret body

module _ (cfg : Settings) (env : Env) where
  -- The last-resort catch: a crash of the dispatcher is a result too.
  unfoldable pub result_or_crash : Except Outcome → Outcome
  result_or_crash (ok o) = o
  result_or_crash (raised e) = error_crashed e.kind e.message

  unfoldable pub process : Job → State → State
  unfolding result_or_crash
  process job s =
      let (result, s') = dispatch cfg env job.event_type job.action job.payload s in
      record s' {
        events = mark_processed job.delivery_id (result_or_crash result) (env.now s') s'.events;
      }

  unfoldable pub accept : Text → Text → Payload → State → Response × Option Job × State
  accept delivery event payload s =
      let (is_new, events) =
        record_event delivery event payload.action payload (env.now s) s.events in
      if is_new
      then (
        accepted delivery,
        some (record {
          delivery_id = delivery;
          event_type = event;
          action = payload.action;
          payload = payload;
        }),
        record s { events = events },
      )
      else (duplicate delivery, none, s)

  unfoldable pub accept_parsed : Parsed → Text → Text → State → Response × Option Job × State
  unfolding accept
  accept_parsed not_json delivery event s = (invalid_json, none, s)
  accept_parsed unusable delivery event s = (server_error, none, s)
  accept_parsed (object payload) delivery event s = accept delivery event payload s

  unfoldable pub github_webhook :
      Crypto
      → Text
      → Option Text
      → Option Text
      → Option Text
      → State
      → Response × Option Job × State
  unfolding accept_parsed
  github_webhook crypto body event delivery signature s =
      if not (verify_github_signature crypto body signature cfg.gh_webhook_secret)
      then (unauthorized, none, s)
      else if not (truthy event && truthy delivery)
      then (missing_headers, none, s)
      else accept_parsed (crypto.parse_json body) (or_else delivery []) (or_else event []) s
