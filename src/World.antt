-- ===== src/World.antt =====
-- The state that the components share, and what stands outside the repository: Devin's and GitHub's
-- HTTP APIs and the clock.
use cognition_devin_automati.Prelude.{ℕ, Bool, Option, List}
use cognition_devin_automati.Prelude.Texts.{Text}
use cognition_devin_automati.Status.{Status}
use cognition_devin_automati.Prompts.{Prompt}
use cognition_devin_automati.Sessions.{Table, PullRequestRef}
use cognition_devin_automati.Outcomes.{Outcome}

-- An exception: the name of its type, and its message.
pub record Exn : Type 0 where
  pub kind : Text
  pub message : Text

pub data Except {ℓ} (A : Type ℓ) : Type ℓ where
  ok : A → Except A
  raised : Exn → Except A

-- The fields of GitHub's payloads that the code reads. An absent key and a JSON null are both
-- `none`.
pub record Issue : Type 0 where
  pub html_url : Option Text
  pub number : Option ℕ
  pub body : Option Text
  pub labels : List (Option Text)
  pub repository_full_name : Option Text
  pub repository_url : Option Text

pub record WorkflowRun : Type 0 where
  pub id : Option ℕ
  pub name : Option Text
  pub event : Option Text
  pub conclusion : Option Text
  pub repository_full_name : Option Text
  pub pull_request_numbers : List (Option ℕ)

pub record Payload : Type 0 where
  pub action : Option Text
  pub issue : Option Issue
  pub workflow_run : Option WorkflowRun

pub record PullRequest : Type 0 where
  pub html_url : Option Text
  pub head_ref : Option Text

-- The logins of a commit's committer and author.
pub record Commit : Type 0 where
  pub committer_login : Option Text
  pub author_login : Option Text

-- app/devin/types.py
pub record SessionCreated : Type 0 where
  pub devin_session_id : Text
  pub devin_url : Text

-- A structured output is held as its JSON text, and an empty one as `none`.
pub record SessionDetails : Type 0 where
  pub devin_session_id : Text
  pub status : Status
  pub raw_status : Text
  pub status_detail : Option Text
  pub acus_consumed : ℕ
  pub pull_requests : List PullRequestRef
  pub parent_session_id : Option Text
  pub child_session_ids : List Text
  pub created_at : Option ℕ
  pub updated_at : Option ℕ
  pub title : Option Text
  pub structured_output : Option Text

-- The arguments of `create_session`.
pub record CreateRequest : Type 0 where
  pub prompt : Prompt
  pub repos : List Text
  pub title : Text
  pub tags : List Text
  pub max_acu_limit : ℕ
  pub devin_mode : Text
  pub parent_session_id : Option Text
  pub with_schema : Bool

-- The calls of the two clients' functions that send requests. The transport may send one of them
-- several times.
pub data Call : Type 0 where
  create_session : CreateRequest → Call
  get_session terminate_session : Text → Call
  get_pr list_pr_commits : Text → ℕ → Call
  get_logs : Text → Option ℕ → Call
  post_pr_comment : Text → ℕ → Text → Call

-- app/db/webhook_events.py: a row of webhook_events.
pub record EventRow : Type 0 where
  pub delivery_id : Text
  pub event_type : Text
  pub action : Option Text
  pub payload : Payload
  pub received_at : ℕ
  pub processed_at : Option ℕ
  pub handler_result : Option Outcome

-- The database and the requests sent so far, the newest first.
pub record State : Type 0 where
  pub sessions : Table
  pub events : List EventRow
  pub trace : List Call

-- What answers them. An answer may depend on all that was sent before (the newest call first), so
-- a service with any state of its own is covered. The time, in microseconds, may depend on the whole state. What a
-- terminate request and a PR comment return, or raise, is only logged by the callers.
pub record Env : Type 0 where
  pub now : State → ℕ
  pub create_session : List Call → CreateRequest → Except SessionCreated
  pub get_session : List Call → Text → Except SessionDetails
  pub get_pr : List Call → Text → ℕ → Except (Option PullRequest)
  pub list_pr_commits : List Call → Text → ℕ → Except (List Commit)
  pub get_logs : List Call → Text → Option ℕ → Except Text
