-- ===== src/App/Refines.antt =====
-- The application as the service of deliveries and ticks.
use cognition_devin_automati.Prelude.{
  ◌≡◌, ◌++◌, List, ◌∷◌, Option, Bool, [], false, ◌∙◌, subst, refl, some, sym, none, Bool-cases,
  if◌then◌else◌, inl, inr, true,
}
use cognition_devin_automati.Settings.{Settings}
use cognition_devin_automati.App.{
  Happening, asks, happen, run_app, post_webhook, handle, get_healthz, get_sessions, post_replay,
  post_reset, get_metrics, ticks,
}
use cognition_devin_automati.World.{Env, State}
use cognition_devin_automati.Webhook.{Crypto, Response, Job, github_webhook}
use cognition_devin_automati.Service.{Turn, serve, finish, deliver, turn, tick}
use cognition_devin_automati.Prelude.Texts.{Text}
use cognition_devin_automati.Sessions.Unique.{IsValid}
use cognition_devin_automati.Admin.Locks.{after, replay_safe}
use cognition_devin_automati.Admin.{reset, Reply, reset_gated, reset_all, require_token}
use cognition_devin_automati.Service.Ledger.{serve-IsValid}
use cognition_devin_automati.Health.{starts_poller}

-- What of a happening changes the state where no admin routes are mounted.
unfoldable turns_of : Settings → Happening → List Turn
turns_of cfg (asks (post_webhook body event delivery signature)) =
    deliver body event delivery signature ∷ []
turns_of cfg (asks (get_healthz db_ok probed)) = []
turns_of cfg (asks get_metrics) = []
turns_of cfg (asks (get_sessions limit)) = []
turns_of cfg (asks (post_replay delivery token)) = []
turns_of cfg (asks (post_reset token)) = []
turns_of cfg ticks = if starts_poller cfg then tick ∷ [] else []

unfoldable all_turns : Settings → List Happening → List Turn
unfolding turns_of
all_turns cfg [] = []
all_turns cfg (h ∷ hs) = turns_of cfg h ++ all_turns cfg hs

module _ (cfg : Settings) (env : Env) (crypto : Crypto) where
  serve-append :
      (ts us : List Turn) (s : State)
      → serve cfg env crypto (ts ++ us) s ≡ serve cfg env crypto us (serve cfg env crypto ts s)
  unfolding serve
  serve-append [] us s = refl
  serve-append (t ∷ ts) us s = serve-append ts us (turn cfg env crypto t s)

  after-finish :
      (r : Response × Option Job × State) → after cfg env crypto r.1 r.2 ≡ finish cfg env crypto r
  unfolding finish
  after-finish (response, none, s) = refl
  after-finish (response, some job, s) = refl

  happen-serve :
      (h : Happening) (s : State)
      → happen cfg false env crypto h s ≡ serve cfg env crypto (turns_of cfg h) s
  unfolding happen handle serve turn turns_of
  happen-serve (asks (post_webhook body event delivery signature)) s =
      after-finish (github_webhook cfg env crypto body event delivery signature s)
  happen-serve (asks (get_healthz db_ok probed)) s = refl
  happen-serve (asks get_metrics) s = refl
  happen-serve (asks (get_sessions limit)) s = refl
  happen-serve (asks (post_replay delivery token)) s = refl
  happen-serve (asks (post_reset token)) s = refl
  happen-serve ticks s = elim (Bool-cases (starts_poller cfg)) [
    | inl started ↦ rw started refl
    | inr bare ↦ rw bare refl
  ]

  -- Without ENABLE_ADMIN_ROUTES the application is the service of its deliveries and ticks: over any
  -- requests to any of its routes and any ticks, the state is that which the deliveries leave, in
  -- their order, with the ticks between them where the poller is started, and with none where a
  -- credential is missing.
  run_app-serve :
      (hs : List Happening) (s : State)
      → run_app cfg false env crypto hs s ≡ serve cfg env crypto (all_turns cfg hs) s
  unfolding run_app all_turns
  run_app-serve [] s = unfold serve in refl
  run_app-serve (h ∷ hs) s = rw (happen-serve h s) (
      run_app-serve hs (serve cfg env crypto (turns_of cfg h) s)
      ∙ sym (serve-append (turns_of cfg h) (all_turns cfg hs) s))

  reset-IsValid :
      (token : Option Text) (s : State)
      → IsValid s.sessions
      → IsValid (reset cfg crypto token s).1.sessions
  unfolding reset
  reset-IsValid token s v = gated (require_token cfg crypto token)
    where
      gated : (refusal : Option Reply) → IsValid (reset_gated refusal s).1.sessions
      gated (some refusal) = unfold reset_gated in v
      gated none =
          unfold reset_gated in
          unfold reset_all in record { keys_unique = tt; ids_unique = tt; ids_below = tt }

  happen-IsValid :
      (enabled : Bool) (h : Happening) (s : State)
      → IsValid s.sessions
      → IsValid (happen cfg enabled env crypto h s).sessions
  unfolding happen handle
  happen-IsValid enabled (asks (post_webhook body event delivery signature)) s v =
      subst (λ (t : State). IsValid t.sessions)
        (sym (after-finish (github_webhook cfg env crypto body event delivery signature s)))
        (unfold serve in
          unfold turn in
          serve-IsValid cfg env crypto (deliver body event delivery signature ∷ []) s v)
  happen-IsValid enabled (asks (get_healthz db_ok probed)) s v = v
  happen-IsValid enabled (asks get_metrics) s v = v
  happen-IsValid enabled (asks (get_sessions limit)) s v = v
  happen-IsValid true (asks (post_replay delivery token)) s v =
      (replay_safe cfg env crypto delivery token s v).0
  happen-IsValid false (asks (post_replay delivery token)) s v = v
  happen-IsValid true (asks (post_reset token)) s v = reset-IsValid token s v
  happen-IsValid false (asks (post_reset token)) s v = v
  happen-IsValid enabled ticks s v = elim (Bool-cases (starts_poller cfg)) [
    | inl started ↦
        rw started (unfold serve in unfold turn in serve-IsValid cfg env crypto (tick ∷ []) s v)
    | inr bare ↦ rw bare v
  ]

  -- Over any requests to any route, the admin routes mounted or not, and any ticks, the table keeps
  -- its work keys and ids unique and its ids below the next one.
  pub run_app-IsValid :
      (enabled : Bool) (hs : List Happening) (s : State)
      → IsValid s.sessions
      → IsValid (run_app cfg enabled env crypto hs s).sessions
  unfolding run_app
  run_app-IsValid enabled [] s v = v
  run_app-IsValid enabled (h ∷ hs) s v = run_app-IsValid enabled hs _ (happen-IsValid enabled h s v)
