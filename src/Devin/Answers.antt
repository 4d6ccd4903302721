-- ===== src/Devin/Answers.antt =====
-- HttpDevinClient.create_session and SessionDetails.from_api_response: what is sent to Devin and
-- how its answers are read.
use cognition_devin_automati.World.{CreateRequest, SessionDetails}
use cognition_devin_automati.Prelude.Texts.{Text, text, truthy, text_eq, eq_of_text_eq}
use cognition_devin_automati.Prelude.{
  Option, List, ℕ, ◌∷◌, if◌then◌else◌, ◌++◌, or_else, ◌≡◌, [], some, ◌⊎◌, true, Bool-cases, ◌↔◌,
  inl, not, inr, arith, refl,
}
use cognition_devin_automati.Status.{map_status, is_terminal, is_active}
use cognition_devin_automati.Sessions.{PullRequestRef}
use cognition_devin_automati.Prelude.Lists.{take}
use cognition_devin_automati.Status.Facts.{active_or_terminal}

-- The optional keys of the request's body, in the order in which they are set; the prompt is
-- always there.
pub data BodyField : Type 0 where
  repos : List Text → BodyField
  title : Text → BodyField
  tags : List Text → BodyField
  max_acu_limit : ℕ → BodyField
  devin_mode : Text → BodyField
  parent_session_id : Text → BodyField
  structured_output_schema : BodyField

unless_empty : List Text → BodyField → List BodyField
unless_empty [] f = []
unless_empty (x ∷ xs) f = f ∷ []

if_given : Option Text → (Text → BodyField) → List BodyField
if_given o f = if truthy o then f (or_else o []) ∷ [] else []

unfoldable pub create_body : CreateRequest → List BodyField
unfolding unless_empty if_given
create_body req =
    unless_empty req.repos (repos req.repos)
    ++ (if_given (some req.title) (λ t. title (take 200 t))
        ++ (unless_empty req.tags (tags (take 50 req.tags))
            ++ (max_acu_limit req.max_acu_limit
                ∷ (if_given (some req.devin_mode) devin_mode
                    ++ (if_given req.parent_session_id parent_session_id
                        ++ (if req.with_schema then structured_output_schema ∷ [] else []))))))

-- The keys of the answer that are read; a pull request is its URL and its state.
pub record ApiResponse : Type 0 where
  pub session_id : Text
  pub status : Option Text
  pub status_detail : Option Text
  pub acus_consumed : Option ℕ
  pub pull_requests : List (Option Text × Option Text)
  pub parent_session_id : Option Text
  pub child_session_ids : List Text
  pub structured_output : Option Text
  pub created_at : Option ℕ
  pub updated_at : Option ℕ
  pub title : Option Text

-- Pull requests with a URL that is not empty.
unfoldable pub read_prs : List (Option Text × Option Text) → List PullRequestRef
read_prs [] = []
read_prs ((url, state) ∷ ps) =
    if truthy url
    then record { pr_url = or_else url []; pr_state = state } ∷ read_prs ps
    else read_prs ps

-- `data.get("status") or "unknown"`
unfoldable pub raw_status_of : Option Text → Text
unfolding text
raw_status_of o = if truthy o then or_else o [] else text "unknown"

unfoldable pub from_api_response : ApiResponse → SessionDetails
unfolding raw_status_of read_prs
from_api_response r = record {
  devin_session_id = r.session_id;
  status = map_status (raw_status_of r.status);
  raw_status = raw_status_of r.status;
  status_detail = r.status_detail;
  acus_consumed = or_else r.acus_consumed 0;
  pull_requests = read_prs r.pull_requests;
  parent_session_id = r.parent_session_id;
  child_session_ids = r.child_session_ids;
  created_at = r.created_at;
  updated_at = r.updated_at;
  title = r.title;
  structured_output = r.structured_output;
}

abbrev pub Ended : Text → Type 0
Ended raw = (raw ≡ text "exit") ⊎ ((raw ≡ text "error") ⊎ (raw ≡ text "suspended"))

map_status-terminal : (raw : Text) → is_terminal (map_status raw) ≡ true → Ended raw
unfolding map_status is_terminal
map_status-terminal raw h = elim (Bool-cases (text_eq raw (text "exit"))) [
  | inl e ↦ inl (eq_of_text_eq raw _ e)
  | inr other ↦ elim (Bool-cases (text_eq raw (text "error"))) [
    | inl e ↦ inr (inl (eq_of_text_eq raw _ e))
    | inr more ↦ elim (Bool-cases (text_eq raw (text "suspended"))) [
      | inl e ↦ inr (inr (eq_of_text_eq raw _ e))
      | inr rest ↦ ground arith
    ]
  ]
]

-- The status read from an answer is terminal exactly when Devin's own is "exit", "error" or
-- "suspended"; any other, a missing or an unknown one included, is active.
from_api_response-terminal_iff :
    (r : ApiResponse)
    → ((is_terminal (from_api_response r).status ≡ true) ↔ Ended (from_api_response r).raw_status)
      × (is_active (from_api_response r).status ≡ not (is_terminal (from_api_response r).status))
unfolding from_api_response
from_api_response-terminal_iff r = (
  (map_status-terminal (raw_status_of r.status), ended_terminal (raw_status_of r.status)),
  active_or_terminal (map_status (raw_status_of r.status)),
)
  where
    ended_terminal : (raw : Text) → Ended raw → is_terminal (map_status raw) ≡ true
    ended_terminal raw (inl e) = rw e (unfold is_terminal map_status text text_eq in refl)
    ended_terminal raw (inr (inl e)) = rw e (unfold is_terminal map_status text text_eq in refl)
    ended_terminal raw (inr (inr e)) = rw e (unfold is_terminal map_status text text_eq in refl)
