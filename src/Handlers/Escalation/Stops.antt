-- ===== src/Handlers/Escalation/Stops.antt =====
-- _escalate_to_human: what an escalation leaves, and that it is not repeated.
use cognition_devin_automati.Sessions.{
  assign_all, update_rows, SessionRow, same_id, update, find_active_children,
}
use cognition_devin_automati.Prelude.{
  List, Option, Bool, ℕ, ◌≡◌, ◌∷◌, false, true, [], ◌&&◌, Bool-cases, ◌==◌, inl, arith, inr, refl,
  subst, sym, map, ◌++◌, ap,
}
use cognition_devin_automati.Settings.{Settings}
use cognition_devin_automati.Status.{is_active, status_eq, needs_attention}
use cognition_devin_automati.Prelude.Texts.{Text}
use cognition_devin_automati.World.{Env, State, Call, ok}
use cognition_devin_automati.Prelude.Lists.{
  All, filter_by, filter_by-cons_true, filter_by-cons_false,
}
use cognition_devin_automati.Sessions.Claims.{updated_row}
use cognition_devin_automati.Handlers.{get_client}
use cognition_devin_automati.Handlers.Escalation.{
  escalate_to_human, cancel_children, escalation_pr_comment, flag_parent,
}
use cognition_devin_automati.Handlers.Escalation.Cancels.{
  has_some_id, terminate_child-sessions, flagged, cancellation, stopped, terminations,
  update_rows-flagged, cancel_children-rows, cancel_children-trace,
}

-- An active child of a parent.
abbrev pub is_active_child : Option Text → SessionRow → Bool
is_active_child parent r = same_id parent r.parent_devin_session_id && is_active r.status

-- Every active child in the table is one of the listed rows.
abbrev Covered : Option Text → List SessionRow → List SessionRow → Type 0
Covered parent children rows =
    All (λ r. is_active_child parent r ≡ true → has_some_id children r.id ≡ true) rows

-- A cancelled child is covered by any list.
Covered-row :
    (parent : Option Text) (child : SessionRow) (rest : List SessionRow) (r : SessionRow)
    → (is_active_child parent r ≡ true → has_some_id (child ∷ rest) r.id ≡ true)
    → is_active_child parent (updated_row child.id cancellation r) ≡ true
    → has_some_id rest (updated_row child.id cancellation r).id ≡ true
unfolding assign_all is_active
Covered-row parent child rest r h active = elim (Bool-cases (r.id == child.id)) [
  | inl hit ↦ ground arith
  | inr miss ↦ ground arith
]

Covered-update :
    (parent : Option Text) (child : SessionRow) (rest : List SessionRow) (rows : List SessionRow)
    → Covered parent (child ∷ rest) rows
    → Covered parent rest (update_rows child.id cancellation rows)
unfolding update_rows
Covered-update parent child rest [] h = tt
Covered-update parent child rest (r ∷ rs) h =
    (Covered-row parent child rest r h.0, Covered-update parent child rest rs h.1)

module _ (cfg : Settings) (env : Env) where
  cancel_children-Covered :
      (parent : Option Text) (children : List SessionRow) (s : State)
      → Covered parent children s.sessions.rows
      → Covered parent [] (cancel_children cfg env children s).sessions.rows
  unfolding cancel_children update
  cancel_children-Covered parent [] s h = h
  cancel_children-Covered parent (child ∷ rest) s h =
      cancel_children-Covered parent rest _
        (Covered-update parent child rest _ (rw (terminate_child-sessions cfg env child s) h))

has_some_id-cons :
    (c : SessionRow) (cs : List SessionRow) (n : ℕ)
    → has_some_id cs n ≡ true
    → has_some_id (c ∷ cs) n ≡ true
has_some_id-cons c cs n h = ground arith

Covered-cons :
    (parent : Option Text) (c : SessionRow) (cs rows : List SessionRow)
    → Covered parent cs rows
    → Covered parent (c ∷ cs) rows
Covered-cons parent c cs [] h = tt
Covered-cons parent c cs (r ∷ rs) h =
    (λ a. has_some_id-cons c cs r.id (h.0 a), Covered-cons parent c cs rs h.1)

-- The query finds them all.
Covered-filter :
    (parent : Option Text) (rows : List SessionRow)
    → Covered parent (filter_by (is_active_child parent) rows) rows
Covered-filter parent [] = tt
Covered-filter parent (r ∷ rs) = elim (Bool-cases (is_active_child parent r)) [
  | inl active ↦
      subst (λ (l : List SessionRow). Covered parent l (r ∷ rs))
        (sym (filter_by-cons_true (is_active_child parent) r rs active))
        (
          λ _. ground arith,
          Covered-cons parent r (filter_by (is_active_child parent) rs) rs
              (Covered-filter parent rs),
        )
  | inr other ↦
      subst (λ (l : List SessionRow). Covered parent l (r ∷ rs))
        (sym (filter_by-cons_false (is_active_child parent) r rs other))
        (λ a. cc, Covered-filter parent rs)
]

filter-Covered :
    (parent : Option Text) (rows : List SessionRow)
    → Covered parent [] rows
    → filter_by (is_active_child parent) rows ≡ []
unfolding filter_by
filter-Covered parent [] h = refl
filter-Covered parent (r ∷ rs) h = elim (Bool-cases (is_active_child parent r)) [
  | inl active ↦ cc (h.0 active)
  | inr other ↦
      rw (filter_by-cons_false (is_active_child parent) r rs other) (filter-Covered parent rs h.1)
]

module _ (cfg : Settings) (env : Env) (parent : SessionRow) (repo : Text) (pr n : ℕ)
    (s : State) where
  -- Where the client can be had and the parent is not flagged yet, an escalation flags the parent's
  -- row, with the number of attempts in its error, and of the other rows it changes those with the
  -- id of an active child of the parent, which become cancelled with the error cap_hit_on_parent.
  -- No active child is left. The requests are one that terminates the session of each of these
  -- children that has one, in the table's order, and last the one comment on the PR.
  pub escalate_to_human_stops :
      status_eq parent.status needs_attention ≡ false
      → get_client cfg ≡ ok tt
      → let t = (escalate_to_human cfg env parent repo pr n s).1 in
        let rows = map (flagged parent n) s.sessions.rows in
        let children = filter_by (is_active_child parent.devin_session_id) rows in
        (t.sessions.rows ≡ map (stopped children) rows)
        × (find_active_children parent.devin_session_id t.sessions ≡ [])
        × (t.trace
            ≡ Call.post_pr_comment repo pr (escalation_pr_comment n parent.devin_url)
                ∷ terminations children
              ++ s.trace)
  unfolding escalate_to_human find_active_children flag_parent update
  escalate_to_human_stops fresh client =
      let t = flag_parent cfg env parent n s in
      let children = filter_by (is_active_child parent.devin_session_id) t.sessions.rows in
      rw (fresh, client)
        (rw (← update_rows-flagged parent n s.sessions.rows) (
          cancel_children-rows cfg env children t,
          filter-Covered parent.devin_session_id _ (
              cancel_children-Covered cfg env parent.devin_session_id children t
                (Covered-filter parent.devin_session_id t.sessions.rows)),
          ap
              (λ (l : List Call).
                Call.post_pr_comment repo pr (escalation_pr_comment n parent.devin_url) ∷ l)
              (cancel_children-trace cfg env children t),
        ))

  -- An escalation of a parent that is flagged already changes nothing and sends nothing.
  pub escalate_to_human_again :
      parent.status ≡ needs_attention → escalate_to_human cfg env parent repo pr n s ≡ (ok tt, s)
  unfolding escalate_to_human status_eq
  escalate_to_human_again flagged = rw flagged refl
