-- ===== src/Simulation/Accepted.antt =====
-- The script against the receiver.
use cognition_devin_automati.Settings.{Settings}
use cognition_devin_automati.Events.Known.{is_known}
use cognition_devin_automati.World.{Env, Payload, State, Issue, Except, ok}
use cognition_devin_automati.Webhook.{
  Crypto, accept, github_webhook, Response, accept_parsed, sign_github_payload, Job, accepted,
  signature_prefix, object,
}
use cognition_devin_automati.Prelude.Texts.{Text, text, nonempty, text_eq, text_eq_refl}
use cognition_devin_automati.Simulation.{
  post_webhook, simulated_delivery_id, main, Request, post_issue, Arguments, status_code, Variables,
  without_slashes,
}
use cognition_devin_automati.Prelude.{
  some, none, ◌≡◌, Option, ℕ, false, true, refl, Option-cases, inl, inr, Bool-cases, [],
  if◌then◌else◌, ◌++◌, suc, ◌∷◌, ◌==◌, arith, ap, zero, ◌∙◌,
}
use cognition_devin_automati.Events.{record_event}
use cognition_devin_automati.Webhook.Receipts.{verify-sign}

abbrev pub opened : Issue → Payload
opened issue = record { action = some (text "opened"); issue = some issue; workflow_run = none }

module _ (cfg : Settings) (env : Env) (crypto : Crypto) where
  -- The receiver's answer to a POST, the task that it leaves and the state.
  abbrev pub received : State → Request → Response × Option Job × State
  received s req =
      github_webhook cfg env crypto req.body (some req.event) (some req.delivery)
        (some req.signature) s

  -- The server's status code: the webhook stands behind one URL, and there is nothing behind others.
  abbrev pub webhook_status : Text → State → Request → ℕ
  webhook_status base s req =
      if text_eq req.url (base ++ text "/webhook/github")
      then status_code (received s req).0
      else 404

-- So many slashes.
abbrev pub slashes : ℕ → Text
slashes zero = []
slashes (suc n) = 47 ∷ slashes n

without_slashes-slashes : (n : ℕ) → without_slashes (slashes n) ≡ []
unfolding without_slashes
without_slashes-slashes zero = refl
without_slashes-slashes (suc n) = rw (without_slashes-slashes n) refl

nonempty-append : (s : Text) (c : ℕ) → nonempty (s ++ (c ∷ [])) ≡ true
nonempty-append [] c = refl
nonempty-append (x ∷ s) c = refl

-- Only the slashes at the end go.
without_slashes-append :
    (s : Text) (c n : ℕ)
    → (c == 47) ≡ false
    → without_slashes (s ++ (c ∷ slashes n)) ≡ s ++ (c ∷ [])
unfolding without_slashes
without_slashes-append [] c n h = rw (without_slashes-slashes n) (rw h refl)
without_slashes-append (x ∷ s) c n h =
    rw (without_slashes-append s c n h) (rw (nonempty-append s c) (ground arith))

delivery_id-nonempty :
    (args : Arguments) (now : ℕ) → nonempty (simulated_delivery_id args now) ≡ true
unfolding simulated_delivery_id text
delivery_id-nonempty args now = elim (Option-cases args.delivery_id) [
  | inl absent ↦ rw absent refl
  | inr (id, given) ↦ rw given (elim (Bool-cases (nonempty id)) [
    | inl something ↦ rw something something
    | inr nothing ↦ rw nothing refl
  ])
]

module _ (cfg : Settings) (env : Env) (crypto : Crypto) (dumps : Payload → Text) where
  accept_new :
      (delivery event : Text) (payload : Payload) (s : State)
      → is_known delivery s.events ≡ false
      → ((accept cfg env delivery event payload s).0 ≡ accepted delivery)
        × ((accept cfg env delivery event payload s).1
            ≡ some (record {
              delivery_id = delivery;
              event_type = event;
              action = payload.action;
              payload = payload;
            }))
  unfolding accept record_event
  accept_new delivery event payload s fresh = rw fresh (refl, refl)

  post_webhook_accepted :
      (api delivery : Text) (payload : Payload) (s : State)
      → ((t : Text) → crypto.compare_digest t t ≡ true)
      → nonempty cfg.gh_webhook_secret ≡ true
      → crypto.parse_json (dumps payload) ≡ object payload
      → nonempty delivery ≡ true
      → is_known delivery s.events ≡ false
      → let r =
          received cfg env crypto s
            (post_webhook crypto dumps api payload cfg.gh_webhook_secret delivery) in
        (r.0 ≡ accepted delivery)
        × (r.1
            ≡ some (record {
              delivery_id = delivery;
              event_type = text "issues";
              action = payload.action;
              payload = payload;
            }))
  unfolding post_webhook github_webhook accept_parsed text sign_github_payload signature_prefix
  post_webhook_accepted api delivery payload s same given parsed named fresh =
      rw (verify-sign crypto (dumps payload) cfg.gh_webhook_secret same given)
        (rw named (rw parsed (accept_new delivery (text "issues") payload s fresh)))

  -- The script drives the real receiver: run with its variables set, the receiver's secret and an
  -- issue that GitHub knows, against a server that has not seen the delivery id and whose base URL,
  -- which does not end in a slash, the script is given with any number of slashes behind it, it ends
  -- with exit code 0, and the webhook at this base accepts the delivery and leaves the task of this
  -- opened issue. Any other URL of the server's answers 404. What it relies on: json.loads reads
  -- back what json.dumps writes of the payload, and compare_digest finds equal texts equal.
  pub main_accepted :
      (fetch_issue : Text → ℕ → Text → Except Issue) (args : Arguments) (repo token : Text)
      (now : ℕ) (issue : Issue) (front : Text) (c n : ℕ) (s : State)
      → ((t : Text) → crypto.compare_digest t t ≡ true)
      → args.api ≡ front ++ (c ∷ slashes n)
      → (c == 47) ≡ false
      → crypto.parse_json (dumps (opened issue)) ≡ object (opened issue)
      → nonempty repo ≡ true
      → nonempty token ≡ true
      → nonempty cfg.gh_webhook_secret ≡ true
      → fetch_issue repo args.issue_number token ≡ ok issue
      → is_known (simulated_delivery_id args now) s.events ≡ false
      → let vars : Variables = record {
        fork_repo = some repo;
        gh_token = some token;
        gh_webhook_secret = some cfg.gh_webhook_secret;
      } in
        let r = received cfg env crypto s (
          post_webhook crypto dumps args.api
            (opened issue)
            cfg.gh_webhook_secret
            (simulated_delivery_id args now)) in
        (main crypto dumps fetch_issue
            (webhook_status cfg env crypto (front ++ (c ∷ [])) s)
            args
            vars
            now
          ≡ ok 0)
        × ((r.0 ≡ accepted (simulated_delivery_id args now))
            × (r.1
                ≡ some (record {
                  delivery_id = simulated_delivery_id args now;
                  event_type = text "issues";
                  action = some (text "opened");
                  payload = opened issue;
                })))
  unfolding main post_issue status_code post_webhook
  main_accepted fetch_issue args repo token now issue front c n s same at other round named held
        given fetched fresh =
      let sent =
        post_webhook_accepted args.api (simulated_delivery_id args now) (opened issue) s same given
          round (delivery_id-nonempty args now) fresh in
      let url = ap without_slashes at ∙ without_slashes-append front c n other in
      (
        rw named (
            rw held (
              rw given (
                rw fetched (
                  rw url (
                    rw (text_eq_refl ((front ++ (c ∷ [])) ++ text "/webhook/github"))
                      (rw sent.0 refl)))))),
        sent,
      )
