-- ===== src/Sessions.antt =====
-- app/db/sessions.py: the rows of the sessions table and the statements that read and write them.
-- Rows stand in the order of their ids. The proofs are in the modules below.
pub mod Claims
pub mod Unique
pub mod Rows
pub mod Chains
use Prim.Native.Nat.{max}
use cognition_devin_automati.Prelude.{
  ℕ, suc, ◌*◌, ◌/◌, Bool, false, ◌&&◌, ◌||◌, Option, none, some, List, [], ◌∷◌, ◌++◌, leb, ltb,
  ◌==◌, if◌then◌else◌,
}
use cognition_devin_automati.Prelude.Lists.{filter_by, count_by, find_by, any_by, sort_by, take}
use cognition_devin_automati.Prelude.Texts.{Text, text_eq, holds_text}
use cognition_devin_automati.Status.{Status, reserving, failed, is_active}
use cognition_devin_automati.Prompts.{Prompt}

-- The values that trigger_type takes; `other` stands for any that the code does not write.
pub data TriggerType : Type 0 where
  cve_issue ci_failure other : TriggerType

pub record PullRequestRef : Type 0 where
  pub pr_url : Text
  pub pr_state : Option Text

pub record SessionRow : Type 0 where
  pub id : ℕ
  pub work_key : Text
  pub devin_session_id : Option Text
  pub devin_url : Option Text
  pub trigger_type : TriggerType
  pub trigger_ref : Text
  pub issue_number : Option ℕ
  pub label : Option Text
  pub parent_devin_session_id : Option Text
  pub prompt_snapshot : Option Prompt
  pub status : Status
  pub raw_status : Option Text
  pub pr_url : Option Text
  pub pr_urls_json : Option (List PullRequestRef)
  pub acus_consumed : ℕ
  pub started_at : ℕ
  pub completed_at : Option ℕ
  pub last_polled_at : Option ℕ
  pub error_message : Option Text
  pub fix_attempt_number : ℕ
  pub structured_output_json : Option Text

-- The table: its rows, and the id that AUTOINCREMENT gives next.
pub record Table : Type 0 where
  pub rows : List SessionRow
  pub next_id : ℕ

-- The named arguments of `try_reserve`.
pub record Reservation : Type 0 where
  pub work_key : Text
  pub trigger_type : TriggerType
  pub trigger_ref : Text
  pub issue_number : Option ℕ
  pub label : Option Text
  pub parent_devin_session_id : Option Text
  pub fix_attempt_number : ℕ

-- The row that the INSERT makes, the columns' defaults included. CURRENT_TIMESTAMP has whole
-- seconds; times are in microseconds.
unfoldable pub reserved_row : Reservation → ℕ → ℕ → SessionRow
reserved_row r pk now = record {
  id = pk;
  work_key = r.work_key;
  devin_session_id = none;
  devin_url = none;
  trigger_type = r.trigger_type;
  trigger_ref = r.trigger_ref;
  issue_number = r.issue_number;
  label = r.label;
  parent_devin_session_id = r.parent_devin_session_id;
  prompt_snapshot = none;
  status = reserving;
  raw_status = none;
  pr_url = none;
  pr_urls_json = none;
  acus_consumed = 0;
  started_at = now / 1_000_000 * 1_000_000;
  completed_at = none;
  last_polled_at = none;
  error_message = none;
  fix_attempt_number = r.fix_attempt_number;
  structured_output_json = none;
}

unfoldable pub has_key : Text → SessionRow → Bool
has_key key r = text_eq r.work_key key

-- INSERT under the UNIQUE index on work_key: a taken key raises IntegrityError, which is None.
unfoldable pub try_reserve : Reservation → ℕ → Table → Option ℕ × Table
try_reserve r now t = if any_by (has_key r.work_key) t.rows then (none, t) else (
  some t.next_id,
  record { rows = t.rows ++ reserved_row r t.next_id now ∷ []; next_id = suc t.next_id },
)

-- One assignment of an UPDATE, a constructor for each column of _UPDATABLE_COLUMNS that the code
-- sets: the type is the allow-list.
pub data Assign : Type 0 where
  set_status : Status → Assign
  set_raw_status set_pr_url set_error_message : Text → Assign
  set_devin_session_id set_devin_url set_structured_output : Text → Assign
  set_pr_urls : List PullRequestRef → Assign
  set_acus_consumed set_completed_at set_last_polled_at : ℕ → Assign
  set_prompt_snapshot : Prompt → Assign

unfoldable pub assign : Assign → SessionRow → SessionRow
assign (set_status s) r = record r { status = s }
assign (set_raw_status s) r = record r { raw_status = some s }
assign (set_pr_url u) r = record r { pr_url = some u }
assign (set_error_message m) r = record r { error_message = some m }
assign (set_devin_session_id i) r = record r { devin_session_id = some i }
assign (set_devin_url u) r = record r { devin_url = some u }
assign (set_structured_output j) r = record r { structured_output_json = some j }
assign (set_pr_urls ps) r = record r { pr_urls_json = some ps }
assign (set_acus_consumed n) r = record r { acus_consumed = n }
assign (set_completed_at n) r = record r { completed_at = some n }
assign (set_last_polled_at n) r = record r { last_polled_at = some n }
assign (set_prompt_snapshot p) r = record r { prompt_snapshot = some p }

unfoldable pub assign_all : List Assign → SessionRow → SessionRow
unfolding assign
assign_all [] r = r
assign_all (a ∷ changes) r = assign_all changes (assign a r)

unfoldable pub update_rows : ℕ → List Assign → List SessionRow → List SessionRow
update_rows pk changes [] = []
update_rows pk changes (r ∷ rs) =
    (if r.id == pk then assign_all changes r else r) ∷ update_rows pk changes rs

-- UPDATE sessions SET … WHERE id = pk
unfoldable pub update : ℕ → List Assign → Table → Table
update pk changes t = record t { rows = update_rows pk changes t.rows }

unfoldable pub mark_failed : ℕ → Text → ℕ → Table → Table
unfolding update
mark_failed pk reason now =
    update pk (set_status failed ∷ set_error_message reason ∷ set_completed_at now ∷ [])

unfoldable pub get : ℕ → Table → Option SessionRow
get pk t = find_by (λ r. r.id == pk) t.rows

unfoldable pub get_by_devin_id : Text → Table → Option SessionRow
get_by_devin_id i t = find_by (λ r. holds_text r.devin_session_id i) t.rows

unfoldable pub get_by_work_key : Text → Table → Option SessionRow
get_by_work_key key t = find_by (has_key key) t.rows

-- ORDER BY started_at, where equal times keep the order of the ids.
unfoldable pub started_before : SessionRow → SessionRow → Bool
started_before a b = leb a.started_at b.started_at

-- ORDER BY started_at DESC, where equal times come with the newest id first.
unfoldable pub started_after : SessionRow → SessionRow → Bool
started_after a b = ltb b.started_at a.started_at

unfoldable pub list_non_terminal : Table → List SessionRow
list_non_terminal t = sort_by started_before (filter_by (λ r. is_active r.status) t.rows)

unfoldable pub count_active : Table → ℕ
count_active t = count_by (λ r. is_active r.status) t.rows

abbrev pub day : ℕ → ℕ
day time = time / 86_400_000_000

-- date(started_at) = date('now')
unfoldable pub count_started_today : ℕ → Table → ℕ
count_started_today now t = count_by (λ r. day r.started_at == day now) t.rows

unfoldable pub list_desc : List SessionRow → List SessionRow
list_desc rs = sort_by started_after rs

unfoldable pub head? : List SessionRow → Option SessionRow
head? [] = none
head? (r ∷ rs) = some r

unfoldable pub find_by_pr : Text → Table → Option SessionRow
unfolding list_desc head?
find_by_pr url t = head? (list_desc (filter_by (λ r. holds_text r.pr_url url) t.rows))

-- parent_devin_session_id = ?, where a NULL on either side equals nothing.
unfoldable pub same_id : Option Text → Option Text → Bool
same_id none b = false
same_id (some a) b = holds_text b a

unfoldable pub find_active_children : Option Text → Table → List SessionRow
find_active_children parent t =
    filter_by (λ r. same_id parent r.parent_devin_session_id && is_active r.status) t.rows

-- devin_session_id = ? OR parent_devin_session_id = ?
unfoldable pub in_chain : Option Text → SessionRow → Bool
unfolding same_id
in_chain parent r = same_id parent r.devin_session_id || same_id parent r.parent_devin_session_id

-- COALESCE(MAX(fix_attempt_number), 0)
unfoldable pub max_attempt : List SessionRow → ℕ
max_attempt [] = 0
max_attempt (r ∷ rs) = max r.fix_attempt_number (max_attempt rs)

unfoldable pub max_fix_attempt_for_parent : Option Text → Table → ℕ
max_fix_attempt_for_parent parent t = max_attempt (filter_by (in_chain parent) t.rows)

unfoldable pub list_recent : ℕ → Table → List SessionRow
unfolding list_desc
list_recent limit t = take limit (list_desc t.rows)
