-- ===== src/Status/Facts.antt =====
-- Facts on the statuses.
use cognition_devin_automati.Prelude.Texts.{text, text_eq, Text, text_eq_refl, eq_of_text_eq}
use cognition_devin_automati.Status.{
  status_eq, is_active, status_text, Status, is_terminal, reserving, pending, running, blocked,
  needs_attention, completed, failed, cancelled, timeout,
}
use cognition_devin_automati.Prelude.{
  ◌≡◌, true, not, subst, sym, arith, if◌then◌else◌, ◌∙◌, ap, refl,
}

pub status_eq_refl : (s : Status) → status_eq s s ≡ true
unfolding status_eq
status_eq_refl s = text_eq_refl (status_text s)

pub status_eq_of_eq : (s t : Status) → s ≡ t → status_eq s t ≡ true
status_eq_of_eq s t h = subst (λ (u : Status). status_eq s u ≡ true) h (status_eq_refl s)

-- Reading a status back from its text.
of_text : Text → Status
unfolding text text_eq
of_text t =
    if text_eq t (text "reserving")
    then reserving
    else if text_eq t (text "pending")
    then pending
    else if text_eq t (text "running")
    then running
    else if text_eq t (text "blocked")
    then blocked
    else if text_eq t (text "needs_attention")
    then needs_attention
    else if text_eq t (text "completed")
    then completed
    else if text_eq t (text "failed")
    then failed
    else if text_eq t (text "cancelled")
    then cancelled
    else timeout

of_text-status_text : (s : Status) → of_text (status_text s) ≡ s
unfolding of_text status_text
of_text-status_text reserving = refl
of_text-status_text pending = refl
of_text-status_text running = refl
of_text-status_text blocked = refl
of_text-status_text needs_attention = refl
of_text-status_text completed = refl
of_text-status_text failed = refl
of_text-status_text cancelled = refl
of_text-status_text timeout = refl

-- Two statuses whose texts are equal are equal.
pub eq_of_status_eq : (s t : Status) → status_eq s t ≡ true → s ≡ t
unfolding status_eq
eq_of_status_eq s t h =
    sym (of_text-status_text s)
    ∙ ap of_text (eq_of_text_eq (status_text s) (status_text t) h)
    ∙ of_text-status_text t

-- Every status is active or terminal, and none is both.
pub active_or_terminal : (s : Status) → is_active s ≡ not (is_terminal s)
unfolding is_active is_terminal
active_or_terminal s = ground arith
