-- ===== src/Handlers/Escalation/Cancels.antt =====
-- The rows and the requests that _escalate_to_human's loop over the active children leaves.
use mathlib.Core.List.{append_assoc}
use cognition_devin_automati.Sessions.{
  assign_all, update_rows, SessionRow, Assign, set_status, update, set_error_message,
}
use cognition_devin_automati.Prelude.{
  List, Bool, ℕ, ◌≡◌, ◌∷◌, false, [], Bool-cases, ◌==◌, ◌||◌, inl, inr, refl, some, sym, map,
  if◌then◌else◌, ◌++◌, or_else, ap, ◌∙◌,
}
use cognition_devin_automati.Settings.{Settings}
use cognition_devin_automati.Status.{cancelled, needs_attention}
use cognition_devin_automati.Prelude.Texts.{text, truthy, show_nat}
use cognition_devin_automati.World.{Env, State, Call}
use cognition_devin_automati.Sessions.Claims.{updated_row}
use cognition_devin_automati.Handlers.Escalation.{terminate_child, cancel_children}

-- The ids of some rows.
abbrev pub has_some_id : List SessionRow → ℕ → Bool
has_some_id [] n = false
has_some_id (c ∷ cs) n = n == c.id || has_some_id cs n

abbrev pub cancellation : List Assign
cancellation = set_status cancelled ∷ set_error_message (text "cap_hit_on_parent") ∷ []

-- A row with the id of a cancelled child.
abbrev pub stopped : List SessionRow → SessionRow → SessionRow
stopped children r =
    if has_some_id children r.id
    then record r { status = cancelled; error_message = some (text "cap_hit_on_parent") }
    else r

-- The row of the parent whose fixes are used up.
abbrev pub flagged : SessionRow → ℕ → SessionRow → SessionRow
flagged parent n r =
    if r.id == parent.id
    then record r {
      status = needs_attention;
      error_message =
          some (
            text "CI-fix exhausted after "
            ++ (show_nat n ++ text " attempts — needs human review"));
    }
    else r

-- The requests that terminate some sessions, the last first. A child without a session has none.
abbrev pub terminations : List SessionRow → List Call
terminations [] = []
terminations (c ∷ cs) =
    terminations cs
    ++ (if truthy c.devin_session_id
        then Call.terminate_session (or_else c.devin_session_id []) ∷ []
        else [])

stopped-updated :
    (child : SessionRow) (rest : List SessionRow) (r : SessionRow)
    → stopped rest (updated_row child.id cancellation r) ≡ stopped (child ∷ rest) r
unfolding assign_all
stopped-updated child rest r = elim (Bool-cases (r.id == child.id)) [
  | inl hit ↦ rw hit (elim (Bool-cases (has_some_id rest r.id)) [
    | inl more ↦ rw more refl
    | inr last ↦ rw last refl
  ])
  | inr miss ↦ rw miss refl
]

stopped-cons :
    (child : SessionRow) (rest rows : List SessionRow)
    → map (stopped rest) (update_rows child.id cancellation rows)
      ≡ map (stopped (child ∷ rest)) rows
unfolding update_rows
stopped-cons child rest [] = refl
stopped-cons child rest (r ∷ rs) = rw (← stopped-cons child rest rs) (
    ap (λ (x : SessionRow). x ∷ map (stopped rest) (update_rows child.id cancellation rs))
      (stopped-updated child rest r))

stopped-nil : (rows : List SessionRow) → map (stopped []) rows ≡ rows
stopped-nil [] = refl
stopped-nil (r ∷ rs) = ap (λ (l : List SessionRow). r ∷ l) (stopped-nil rs)

pub update_rows-flagged :
    (parent : SessionRow) (n : ℕ) (rows : List SessionRow)
    → update_rows parent.id
        (set_status needs_attention
          ∷ set_error_message (
              text "CI-fix exhausted after "
              ++ (show_nat n ++ text " attempts — needs human review"))
          ∷ [])
        rows
      ≡ map (flagged parent n) rows
unfolding update_rows assign_all
update_rows-flagged parent n [] = refl
update_rows-flagged parent n (r ∷ rs) = elim (Bool-cases (r.id == parent.id)) [
  | inl hit ↦ rw (update_rows-flagged parent n rs) (rw hit refl)
  | inr miss ↦ rw (update_rows-flagged parent n rs) (rw miss refl)
]

module _ (cfg : Settings) (env : Env) where
  pub terminate_child-sessions :
      (child : SessionRow) (s : State) → (terminate_child cfg env child s).sessions ≡ s.sessions
  unfolding terminate_child
  terminate_child-sessions child s = elim (Bool-cases (truthy child.devin_session_id)) [
    | inl named ↦ rw named refl
    | inr unnamed ↦ rw unnamed refl
  ]

  pub cancel_children-rows :
      (children : List SessionRow) (s : State)
      → (cancel_children cfg env children s).sessions.rows ≡ map (stopped children) s.sessions.rows
  unfolding cancel_children update
  cancel_children-rows [] s = sym (stopped-nil s.sessions.rows)
  cancel_children-rows (child ∷ rest) s =
      cancel_children-rows rest _
      ∙ rw (terminate_child-sessions child s) (stopped-cons child rest s.sessions.rows)

  terminate_child-trace :
      (child : SessionRow) (calls : List Call) (s : State)
      → calls ++ (terminate_child cfg env child s).trace
        ≡ (calls
            ++ (if truthy child.devin_session_id
                then Call.terminate_session (or_else child.devin_session_id []) ∷ []
                else []))
          ++ s.trace
  unfolding terminate_child
  terminate_child-trace child calls s = elim (Bool-cases (truthy child.devin_session_id)) [
    | inl named ↦ rw named (sym (append_assoc calls _ s.trace))
    | inr unnamed ↦ rw unnamed (sym (append_assoc calls _ s.trace))
  ]

  pub cancel_children-trace :
      (children : List SessionRow) (s : State)
      → (cancel_children cfg env children s).trace ≡ terminations children ++ s.trace
  unfolding cancel_children
  cancel_children-trace [] s = refl
  cancel_children-trace (child ∷ rest) s =
      cancel_children-trace rest _ ∙ terminate_child-trace child (terminations rest) s
