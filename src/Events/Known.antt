-- ===== src/Events/Known.antt =====
-- A delivery that is in the log stays there.
use cognition_devin_automati.Events.{record_event, mark_processed, has_delivery, new_event}
use cognition_devin_automati.Prelude.Lists.{any_by, any_by-append_left, any_by-append}
use cognition_devin_automati.Prelude.Texts.{Text, text_eq_refl}
use cognition_devin_automati.Prelude.{
  List, Option, Bool, ℕ, ◌≡◌, true, ◌∷◌, Bool-cases, arith, inl, inr, [], refl,
}
use cognition_devin_automati.World.{EventRow, Payload}
use cognition_devin_automati.Outcomes.{Outcome}

abbrev pub is_known : Text → List EventRow → Bool
is_known id events = any_by (has_delivery id) events

pub known-mark_processed :
    (id other : Text) (result : Outcome) (now : ℕ) (events : List EventRow)
    → is_known id events ≡ true
    → is_known id (mark_processed other result now events) ≡ true
unfolding any_by mark_processed has_delivery
known-mark_processed id other result now [] h = h
known-mark_processed id other result now (e ∷ es) h =
    ground (arith, known-mark_processed id other result now es)

pub known-record_event :
    (id other event_type : Text) (action : Option Text) (payload : Payload) (now : ℕ)
    (events : List EventRow)
    → is_known id events ≡ true
    → is_known id (record_event other event_type action payload now events).1 ≡ true
unfolding record_event
known-record_event id other event_type action payload now events h =
    elim (Bool-cases (any_by (has_delivery other) events)) [
      | inl old ↦ rw old h
      | inr new ↦ rw new (any_by-append_left (has_delivery id) events _ h)
    ]

pub known-recorded :
    (id event_type : Text) (action : Option Text) (payload : Payload) (now : ℕ)
    (events : List EventRow)
    → is_known id (record_event id event_type action payload now events).1 ≡ true
unfolding record_event
known-recorded id event_type action payload now events =
    elim (Bool-cases (any_by (has_delivery id) events)) [
      | inl old ↦ rw old old
      | inr new ↦ rw new (
          rw (any_by-append (has_delivery id) events _)
            (rw new (unfold any_by has_delivery new_event in rw (text_eq_refl id) refl)))
    ]
