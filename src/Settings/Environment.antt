-- ===== src/Settings/Environment.antt =====
-- How app/settings.py reads the environment.
use cognition_devin_automati.Settings.{Settings}
use cognition_devin_automati.Prelude.{ℕ, List, Option, ◌∷◌, or_else, Bool, [], if◌then◌else◌, ◌==◌}
use cognition_devin_automati.Prelude.Texts.{Text, text, text_eq, nonempty, lower, truthy, strip}
use cognition_devin_automati.World.{Except, raised, ok}

infixl 5 ◌>>=◌
abbrev ◌>>=◌ : {A B : Type 0} → Except A → (A → Except B) → Except B
raised e >>= f = raised e
ok a >>= f = f a

-- s.split(","): the pieces in front of and behind each comma; `piece` is what stands before.
unfoldable pub add_piece : ℕ → List Text → List Text
add_piece c [] = (c ∷ []) ∷ []
add_piece c (p ∷ ps) = (c ∷ p) ∷ ps

unfoldable pub split_comma : Text → List Text
unfolding add_piece
split_comma [] = [] ∷ []
split_comma (c ∷ s) = let rest = split_comma s in if c == 44 then [] ∷ rest else add_piece c rest

-- `s.strip() for s in … if s.strip()`
unfoldable pub stripped_pieces : List Text → List Text
stripped_pieces [] = []
stripped_pieces (p ∷ ps) =
    let rest = stripped_pieces ps in if nonempty (strip p) then strip p ∷ rest else rest

unfoldable pub default_logins : Text
unfolding text
default_logins = text "devin-ai-integration[bot],devin-ai[bot],devin[bot]"

-- DEVIN_BOT_LOGINS
unfoldable pub read_logins : Option Text → List Text
unfolding split_comma stripped_pieces default_logins
read_logins raw = stripped_pieces (split_comma (or_else raw default_logins))

-- ENABLE_ADMIN_ROUTES
unfoldable pub read_enabled : Option Text → Bool
unfolding text
read_enabled raw = text_eq (lower (or_else raw (text "false"))) (text "true")

-- `parse_int` and `parse_float` are Python's, for numbers that are not negative, and raise on other
-- texts; `environ` is os.environ.
module _ (parse_int : Text → Except ℕ) (parse_float : Text → Except ℕ)
    (environ : Text → Option Text) where
  unfoldable pub int_env : Text → ℕ → Except ℕ
  int_env key default =
      if truthy (environ key) then parse_int (or_else (environ key) []) else ok default

  unfoldable pub text_env : Text → Text → Text
  text_env key default = or_else (environ key) default

  unfoldable pub float_env : Text → Text → Except ℕ
  unfolding text_env
  float_env key default = parse_float (text_env key default)

  -- The numbers, in the order in which they are read; the first that raises ends the import.
  unfoldable pub read_settings : Except Settings
  unfolding int_env text_env float_env read_logins text
  read_settings = do
    max_acu ← int_env (text "DEVIN_MAX_ACU_PER_SESSION") 50
    max_concurrent ← int_env (text "MAX_CONCURRENT_SESSIONS") 3
    max_per_day ← int_env (text "MAX_SESSIONS_PER_DAY") 25
    timeout_seconds ← int_env (text "SESSION_TIMEOUT_SECONDS") 2700
    max_fixes ← int_env (text "MAX_FIX_ATTEMPTS") 3
    interval ← int_env (text "POLL_INTERVAL_SECONDS") 30
    hours ← float_env (text "HOURS_SAVED_PER_COMPLETED_SESSION") (text "4")
    rate ← float_env (text "ENGINEER_HOURLY_RATE_USD") (text "150")
    ok (record {
      devin_api_key = text_env (text "DEVIN_API_KEY") [];
      devin_org_id = text_env (text "DEVIN_ORG_ID") [];
      devin_mode = text_env (text "DEVIN_MODE") (text "normal");
      devin_max_acu_per_session = max_acu;
      gh_webhook_secret = text_env (text "GH_WEBHOOK_SECRET") [];
      gh_token = text_env (text "GH_TOKEN") [];
      fork_url = text_env (text "FORK_URL") (text "https://github.com/rakshith48/superset");
      fork_repo = text_env (text "FORK_REPO") (text "rakshith48/superset");
      max_concurrent_sessions = max_concurrent;
      max_sessions_per_day = max_per_day;
      session_timeout_seconds = timeout_seconds;
      max_fix_attempts = max_fixes;
      hours_saved_per_completed_session = hours;
      engineer_hourly_rate_usd = rate;
      admin_token = text_env (text "ADMIN_TOKEN") [];
      devin_bot_logins = read_logins (environ (text "DEVIN_BOT_LOGINS"));
    })
