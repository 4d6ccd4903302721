-- ===== src/Webhook/Receipts.antt =====
-- The receiver: signatures, refusals and redeliveries.
use cognition_devin_automati.Settings.{Settings}
use cognition_devin_automati.Webhook.{
  Crypto, verify_github_signature, sign_github_payload, signature_prefix, github_webhook,
  accept_parsed, Response, accept, Job, object, Parsed, not_json, unusable,
}
use cognition_devin_automati.World.{Env, State, Payload}
use cognition_devin_automati.Prelude.Texts.{
  Text, text, nonempty, starts_with-append, drop_prefix-append, drop_prefix, append-drop_prefix,
  truthy,
}
use cognition_devin_automati.Prelude.{
  Option, ◌≡◌, true, some, false, arith, or_else, none, [], Bool-cases, refl, inr, inl, ◌&&◌, ap,
}
use cognition_devin_automati.Events.Known.{is_known, known-recorded}
use cognition_devin_automati.Events.{record_event}

module _ (crypto : Crypto) where
  -- Where compare_digest finds equal texts equal, the header that sign_github_payload makes for a
  -- body is accepted for that body, under any secret that is not empty.
  pub verify-sign :
      (body secret : Text)
      → ((t : Text) → crypto.compare_digest t t ≡ true)
      → nonempty secret ≡ true
      → verify_github_signature crypto body (some (sign_github_payload crypto body secret)) secret
        ≡ true
  unfolding verify_github_signature sign_github_payload signature_prefix text
  verify-sign body secret same given = rw given (
      rw (starts_with-append (text "sha256=") (crypto.hexdigest secret body)) (
        rw (drop_prefix-append (text "sha256=") (crypto.hexdigest secret body))
          (same (crypto.hexdigest secret body))))

  -- Where compare_digest tells texts apart, an accepted header is the prefix and the digest of
  -- this body under this secret, and the secret is not empty.
  verify_sound :
      (body secret header : Text)
      → ((t u : Text) → crypto.compare_digest t u ≡ true → t ≡ u)
      → verify_github_signature crypto body (some header) secret ≡ true
      → (nonempty secret ≡ true) × (header ≡ sign_github_payload crypto body secret)
  unfolding verify_github_signature sign_github_payload
  verify_sound body secret header apart h = ground (
    arith,
    apart (crypto.hexdigest secret body) (drop_prefix signature_prefix header),
    append-drop_prefix signature_prefix header,
  )

module _ (cfg : Settings) (env : Env) (crypto : Crypto) (body : Text)
    (event delivery signature : Option Text) where
  abbrev receive : State → Response × Option Job × State
  receive s = github_webhook cfg env crypto body event delivery signature s

  -- What a task that is left shows: the signature holds, both headers are there, the body is the
  -- task's payload, and the delivery was not in the log and now is.
  pub record Admitted (s : State) (job : Job) : Type 0 where
    pub signed : verify_github_signature crypto body signature cfg.gh_webhook_secret ≡ true
    pub headers : (truthy event && truthy delivery) ≡ true
    pub parsed : crypto.parse_json body ≡ object job.payload
    pub same_delivery : job.delivery_id ≡ or_else delivery []
    pub was_new : is_known (or_else delivery []) s.events ≡ false
    pub logged : is_known (or_else delivery []) (receive s).2.events ≡ true

  known_parsed :
      (parsed : Parsed) (s : State)
      → is_known (or_else delivery []) s.events ≡ true
      → ((accept_parsed cfg env parsed (or_else delivery []) (or_else event []) s).1 ≡ none)
        × ((accept_parsed cfg env parsed (or_else delivery []) (or_else event []) s).2 ≡ s)
  unfolding accept_parsed accept record_event
  known_parsed not_json s known = (refl, refl)
  known_parsed unusable s known = (refl, refl)
  known_parsed (object payload) s known = rw known (refl, refl)

  -- A delivery whose id is in the log leaves no task and changes nothing.
  pub github_webhook_known :
      (s : State)
      → is_known (or_else delivery []) s.events ≡ true
      → ((receive s).1 ≡ none) × ((receive s).2 ≡ s)
  unfolding github_webhook
  github_webhook_known s known =
      elim (Bool-cases (verify_github_signature crypto body signature cfg.gh_webhook_secret)) [
        | inr forged ↦ rw forged (refl, refl)
        | inl genuine ↦ rw genuine (elim (Bool-cases (truthy event && truthy delivery)) [
          | inr missing ↦ rw missing (refl, refl)
          | inl given ↦ rw given (known_parsed (crypto.parse_json body) s known)
        ])
      ]

  parsed_known :
      (parsed : Parsed) (s : State) (job : Job)
      → (accept_parsed cfg env parsed (or_else delivery []) (or_else event []) s).1 ≡ some job
      → is_known
          (or_else delivery [])
          (accept_parsed cfg env parsed (or_else delivery []) (or_else event []) s).2.events
        ≡ true
  unfolding accept_parsed accept
  parsed_known not_json s job h = cc
  parsed_known unusable s job h = cc
  parsed_known (object payload) s job h =
      elim (Bool-cases
        (record_event (or_else delivery []) (or_else event []) payload.action payload (env.now s)
          s.events).0) [
            | inl fresh ↦ rw fresh (known-recorded (or_else delivery []) _ _ _ _ _)
            | inr old ↦ cc (rw old at h)
          ]

  -- A delivery that left a task is in the log.
  pub github_webhook-known :
      (s : State) (job : Job)
      → (receive s).1 ≡ some job
      → is_known (or_else delivery []) (receive s).2.events ≡ true
  unfolding github_webhook
  github_webhook-known s job h =
      elim (Bool-cases (verify_github_signature crypto body signature cfg.gh_webhook_secret)) [
        | inr forged ↦ cc (rw forged at h)
        | inl genuine ↦
            let h' = rw genuine at h in
            rw genuine (elim (Bool-cases (truthy event && truthy delivery)) [
              | inr missing ↦ cc (rw missing at h')
              | inl given ↦ rw given (parsed_known (crypto.parse_json body) s job (rw given at h'))
            ])
      ]

  accepted_job :
      (payload : Payload) (s : State) (job : Job)
      → (accept cfg env (or_else delivery []) (or_else event []) payload s).1 ≡ some job
      → (is_known (or_else delivery []) s.events ≡ false)
        × ((payload ≡ job.payload) × (job.delivery_id ≡ or_else delivery []))
  unfolding accept record_event
  accepted_job payload s job h = elim (Bool-cases (is_known (or_else delivery []) s.events)) [
    | inl known ↦ cc (rw known at h)
    | inr fresh ↦ (fresh, (cc (rw fresh at h), cc (rw fresh at h)))
  ]

  parsed_job :
      (parsed : Parsed) (s : State) (job : Job)
      → (accept_parsed cfg env parsed (or_else delivery []) (or_else event []) s).1 ≡ some job
      → (is_known (or_else delivery []) s.events ≡ false)
        × ((parsed ≡ object job.payload) × (job.delivery_id ≡ or_else delivery []))
  unfolding accept_parsed
  parsed_job not_json s job h = cc
  parsed_job unusable s job h = cc
  parsed_job (object payload) s job h =
      let found = accepted_job payload s job h in (found.0, (ap object found.1.0, found.1.1))

  -- A delivery leaves a task only where its signature is valid, both headers are given, the body is
  -- a JSON object and the delivery's id is new; the task then has that payload and id, and the id is in the
  -- log.
  pub github_webhook-Admitted : (s : State) (job : Job) → (receive s).1 ≡ some job → Admitted s job
  unfolding github_webhook
  github_webhook-Admitted s job h =
      elim (Bool-cases (verify_github_signature crypto body signature cfg.gh_webhook_secret)) [
        | inr forged ↦ cc (rw forged at h)
        | inl genuine ↦
            let h' = rw genuine at h in
            elim (Bool-cases (truthy event && truthy delivery)) [
              | inr missing ↦ cc (rw missing at h')
              | inl given ↦
                  let found = parsed_job (crypto.parse_json body) s job (rw given at h') in
                  record {
                    signed = genuine;
                    headers = given;
                    parsed = found.1.0;
                    same_delivery = found.1.1;
                    was_new = found.0;
                    logged = github_webhook-known s job h;
                  }
            ]
      ]
