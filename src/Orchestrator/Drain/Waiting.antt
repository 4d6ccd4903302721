-- ===== src/Orchestrator/Drain/Waiting.antt =====
-- The events that wait, and what of them a drain takes.
use cognition_devin_automati.Events.{
  waits, has_delivery, mark_processed, list_queued, received_before, result_is_queued,
}
use cognition_devin_automati.Prelude.Lists.{count_by, any_by, filter_by, All, length}
use cognition_devin_automati.World.{EventRow}
use cognition_devin_automati.Prelude.{
  ℕ, List, ◌≡◌, ◌∷◌, Bool-cases, true, arith, [], inl, ◌&&◌, inr, refl, false, ◌≤◌, ◌<◌,
}
use cognition_devin_automati.Prelude.Texts.{Text, text_eq_refl}
use cognition_devin_automati.Outcomes.{Outcome, is_queued}
use cognition_devin_automati.Prelude.Sorting.{take-All, take_some, sort_by-All, length-sort_by}

-- An event of the log that waits.
abbrev pub IsWaiting : List EventRow → EventRow → Type 0
IsWaiting events row =
    (waits row ≡ true) × (any_by (λ e. has_delivery row.delivery_id e && waits e) events ≡ true)

IsWaiting-cons :
    (e : EventRow) (events : List EventRow) (row : EventRow)
    → IsWaiting events row
    → IsWaiting (e ∷ events) row
unfolding any_by
IsWaiting-cons e events row h = (h.0, ground (arith, h.1))

IsWaiting-more :
    (e : EventRow) (events rows : List EventRow)
    → All (IsWaiting events) rows
    → All (IsWaiting (e ∷ events)) rows
IsWaiting-more e events [] h = tt
IsWaiting-more e events (row ∷ rows) h =
    (IsWaiting-cons e events row h.0, IsWaiting-more e events rows h.1)

filter_by-IsWaiting : (events : List EventRow) → All (IsWaiting events) (filter_by waits events)
unfolding filter_by any_by has_delivery
filter_by-IsWaiting [] = tt
filter_by-IsWaiting (e ∷ events) = elim (Bool-cases (waits e)) [
  | inr over ↦ rw (over, All) (IsWaiting-more e events _ (filter_by-IsWaiting events))
  | inl again ↦
      rw (again, All)
        (
          (again, rw (text_eq_refl e.delivery_id) (rw again refl)),
          IsWaiting-more e events _ (filter_by-IsWaiting events),
        )
]

-- A drain takes events that wait.
pub list_queued-IsWaiting :
    (n : ℕ) (events : List EventRow) → All (IsWaiting events) (list_queued n events)
unfolding list_queued
list_queued-IsWaiting n events =
    take-All (IsWaiting events) n _
      (sort_by-All (IsWaiting events) received_before _ (filter_by-IsWaiting events))

pub list_queued-All {κ} :
    (P : EventRow → Type κ) (n : ℕ) (events : List EventRow)
    → All P (filter_by waits events)
    → All P (list_queued n events)
unfolding list_queued
list_queued-All P n events h = take-All P n _ (sort_by-All P received_before _ h)

count_by-filter_by :
    (events : List EventRow) → length (filter_by waits events) ≡ count_by waits events
unfolding filter_by count_by
count_by-filter_by [] = refl
count_by-filter_by (e ∷ events) = ground (arith, count_by-filter_by events)

-- An event with a result that is not queued waits no more, and no other starts to wait.
pub mark_processed-le :
    (id : Text) (o : Outcome) (now : ℕ) (events : List EventRow)
    → is_queued o ≡ false
    → count_by waits (mark_processed id o now events) ≤ count_by waits events
unfolding mark_processed count_by waits result_is_queued
mark_processed-le id o now [] h = omega arith
mark_processed-le id o now (e ∷ es) h = elim (Bool-cases (has_delivery id e)) [
  | inl same ↦ rw same (ground (arith, mark_processed-le id o now es h))
  | inr other ↦ rw other (ground (arith, mark_processed-le id o now es h))
]

pub mark_processed-lt :
    (id : Text) (o : Outcome) (now : ℕ) (events : List EventRow)
    → is_queued o ≡ false
    → any_by (λ e. has_delivery id e && waits e) events ≡ true
    → count_by waits (mark_processed id o now events) < count_by waits events
unfolding mark_processed count_by waits result_is_queued any_by
mark_processed-lt id o now [] h k = cc
mark_processed-lt id o now (e ∷ es) h k = elim (Bool-cases (has_delivery id e)) [
  | inr other ↦ rw other (ground (arith, mark_processed-lt id o now es h))
  | inl same ↦
      rw same (ground (arith, mark_processed-le id o now es h, mark_processed-lt id o now es h))
]

-- With a slot free and an event waiting, a drain takes one.
pub list_queued-nonempty :
    (n : ℕ) (events : List EventRow)
    → 0 < n
    → 0 < count_by waits events
    → 0 < length (list_queued n events)
unfolding list_queued
list_queued-nonempty n events h k = take_some n _ h (
    omega
      (arith, length-sort_by received_before (filter_by waits events), count_by-filter_by events))
