-- ===== src/Handlers.antt =====
-- app/handlers.py: what the handlers share. A handler takes the state to its result and the state
-- that it leaves.
pub mod Keys
pub mod Security
pub mod Escalation
pub mod CiFix
use cognition_devin_automati.Prelude.{
  ℕ, ◌||◌, not, Option, none, some, List, [], ◌∷◌, ◌++◌, if◌then◌else◌, or_else,
}
use cognition_devin_automati.Prelude.Texts.{
  Text, text, starts_with, drop_prefix, truthy, show_nat, show_opt_nat,
}
use cognition_devin_automati.Settings.{Settings}
use cognition_devin_automati.Status.{pending}
use cognition_devin_automati.Prompts.{Prompt}
use cognition_devin_automati.Sessions.{
  update, mark_failed, set_devin_session_id, set_devin_url, set_prompt_snapshot, set_status,
}
use cognition_devin_automati.Outcomes.{Outcome, error_devin_create_failed, created_session}
use cognition_devin_automati.World.{
  Exn, Except, ok, raised, Issue, SessionCreated, CreateRequest, Call, Env, State,
}

-- db.sessions.make_work_key
unfoldable pub make_work_key : Text → ℕ → Text → Text
unfolding text
make_work_key repo issue_number label =
    text "issue:" ++ (repo ++ (58 ∷ (show_nat issue_number ++ (58 ∷ label))))

-- db.sessions.make_ci_fix_work_key
unfoldable pub make_ci_fix_work_key : Text → Option ℕ → Text
unfolding text
make_ci_fix_work_key repo run_id = text "ci_fix:" ++ (repo ++ (58 ∷ show_opt_nat run_id))

unfoldable pub api_prefix : Text
unfolding text
api_prefix = text "https://api.github.com/repos/"

unfoldable pub repo_of_url : Settings → Option Text → Text
unfolding api_prefix
repo_of_url cfg none = cfg.fork_repo
repo_of_url cfg (some url) =
    if starts_with api_prefix url then drop_prefix api_prefix url else cfg.fork_repo

unfoldable pub repo_full_name : Settings → Issue → Text
unfolding repo_of_url
repo_full_name cfg issue =
    if truthy issue.repository_full_name
    then or_else issue.repository_full_name []
    else repo_of_url cfg issue.repository_url

-- devin.factory.get_client: the first use builds the transport, which checks the credentials; a
-- failed check leaves no client, so that each later use fails alike.
unfoldable pub get_client : Settings → Except (Unit {0})
unfolding text
get_client cfg =
    if not
      (starts_with (text "cog_") cfg.devin_api_key || starts_with (text "apk_") cfg.devin_api_key)
    then raised (record {
      kind = text "ValueError";
      message =
          text
            "DEVIN_API_KEY should start with 'cog_' (service user) or 'apk_' (personal). Check env.";
    })
    else if not (starts_with (text "org-") cfg.devin_org_id)
    then raised (record {
      kind = text "ValueError";
      message = text "DEVIN_ORG_ID should start with 'org-'";
    })
    else ok tt

module _ (cfg : Settings) (env : Env) where
  unfoldable pub creation_failed : Exn → ℕ → State → Outcome × State
  unfolding text
  creation_failed e pk s = (
    error_devin_create_failed e.kind,
    record s {
      sessions =
          mark_failed pk (text "devin_create_failed:" ++ (e.kind ++ (58 ∷ e.message))) (env.now s)
            s.sessions;
    },
  )

  unfoldable pub creation_done : SessionCreated → Prompt → ℕ → State → Outcome × State
  creation_done created prompt pk s = (
    created_session created.devin_session_id,
    record s {
      sessions =
          update pk
            (set_devin_session_id created.devin_session_id
              ∷ set_devin_url created.devin_url
              ∷ set_prompt_snapshot prompt
              ∷ set_status pending
              ∷ [])
            s.sessions;
    },
  )

  unfoldable pub creation_result :
      Except SessionCreated → CreateRequest → ℕ → State → Outcome × State
  unfolding creation_failed creation_done
  creation_result (raised e) req pk s = creation_failed e pk s
  creation_result (ok created) req pk s = creation_done created req.prompt pk s

  unfoldable pub with_client : Except (Unit {0}) → CreateRequest → ℕ → State → Outcome × State
  unfolding creation_result
  with_client (raised e) req pk s = creation_failed e pk s
  with_client (ok _) req pk s =
      creation_result (env.create_session s.trace req) req pk
        (record s { trace = Call.create_session req ∷ s.trace })

  -- `try: get_client().create_session(…) except: mark_failed`, and the UPDATE after it: the end of
  -- both handlers that create sessions.
  unfoldable pub open_session : CreateRequest → ℕ → State → Outcome × State
  unfolding with_client
  open_session req pk s = with_client (get_client cfg) req pk s
