-- ===== src/Races/Charge.antt =====
-- What one step of a worker spends.
use cognition_devin_automati.Prelude.{
  ℕ, List, ◌≡◌, ◌∷◌, ◌≤◌, true, ◌+◌, ◌||◌, arith, false, ◌∙◌, [], if◌then◌else◌, suc, ap, refl,
  Bool-cases, inl, inr,
}
use cognition_devin_automati.Sessions.Claims.{claimed, is_taken, updated_row-SameIdentity}
use cognition_devin_automati.World.{State}
use cognition_devin_automati.Prelude.Texts.{member, Text, text_eq, eq_of_text_eq}
use cognition_devin_automati.Sessions.{update, has_key, reserved_row, Table, Assign, Reservation}
use cognition_devin_automati.Settings.{Settings}
use cognition_devin_automati.Runs.Quiet.{Quiet-creates, Quiet, then_written, then_sent, still}
use cognition_devin_automati.Races.{Worker}
use cognition_devin_automati.Prelude.Lists.{any_by, any_by-append}
use cognition_devin_automati.Runs.Invariants.{creates, creates-paid}
use cognition_devin_automati.Races.Moves.{Move, holding, IsAmong, key_ahead, quiet, reserves, pays}
use cognition_devin_automati.Sessions.Unique.{any_by-update_rows}

-- One for each key that no row has claimed.
abbrev pub budget : List Text → Table → ℕ
budget [] t = 0
budget (k ∷ ks) t = let rest = budget ks t in if is_taken k t then rest else suc rest

taken_same :
    (key : Text) (pk : ℕ) (changes : List Assign) (t : Table)
    → is_taken key (update pk changes t) ≡ is_taken key t
unfolding update has_key
taken_same key pk changes t =
    any_by-update_rows (has_key key) pk changes t.rows
      (λ r. ap (λ (k : Text). text_eq k key) (updated_row-SameIdentity pk changes r).work_key)

budget-update :
    (keys : List Text) (pk : ℕ) (changes : List Assign) (t : Table)
    → budget keys (update pk changes t) ≡ budget keys t
budget-update [] pk changes t = refl
budget-update (k ∷ ks) pk changes t =
    rw (taken_same k pk changes t) (rw (budget-update ks pk changes t) refl)

taken-claimed :
    (key : Text) (r : Reservation) (now : ℕ) (t : Table)
    → is_taken key (claimed r now t) ≡ (is_taken key t || text_eq r.work_key key)
unfolding claimed reserved_row any_by has_key
taken-claimed key r now t = rw (any_by-append (has_key key) t.rows _) (ground arith)

budget-claimed_le :
    (keys : List Text) (r : Reservation) (now : ℕ) (t : Table)
    → budget keys (claimed r now t) ≤ budget keys t
budget-claimed_le [] r now t = omega arith
budget-claimed_le (k ∷ ks) r now t =
    ground (arith, taken-claimed k r now t, budget-claimed_le ks r now t)

budget-claimed :
    (keys : List Text) (r : Reservation) (now : ℕ) (t : Table)
    → member r.work_key keys ≡ true
    → is_taken r.work_key t ≡ false
    → suc (budget keys (claimed r now t)) ≤ budget keys t
unfolding member
budget-claimed [] r now t h free = cc h
budget-claimed (k ∷ ks) r now t h free = elim (Bool-cases (text_eq r.work_key k)) [
  | inl same ↦ ground (
    arith,
    taken-claimed k r now t,
    budget-claimed_le ks r now t,
    eq_of_text_eq r.work_key k same,
  )
  | inr other ↦ ground (arith, taken-claimed k r now t, budget-claimed ks r now t)
]

Quiet-budget :
    (keys : List Text) {s t : State} → Quiet s t → budget keys t.sessions ≡ budget keys s.sessions
Quiet-budget keys still = refl
Quiet-budget keys (then_written {t} pk changes q) =
    budget-update keys pk changes t.sessions ∙ Quiet-budget keys q
Quiet-budget keys (then_sent c other q) = Quiet-budget keys q

abbrev pub charge : List Text → Worker × State → ℕ
charge keys (w, s) = creates s.trace + holding w + budget keys s.sessions

module _ {cfg : Settings} (keys : List Text) where
  pub Move-charge :
      {w : Worker} {s : State} {r : Worker × State}
      → Move cfg w s r
      → IsAmong keys (key_ahead cfg w)
      → charge keys r ≤ charge keys (w, s)
  Move-charge (quiet q h n within) a = omega (arith, h, Quiet-budget keys q, Quiet-creates q)
  Move-charge {s} (reserves r now free ahead fits holds rest plan) a =
      omega (arith, holds, budget-claimed keys r now s.sessions (rw ahead at a) free)
  Move-charge {s} (pays req holds rest plan) a = omega (arith, holds, creates-paid req s.trace)

  -- No step frees a key.
  pub Move-budget :
      {w : Worker} {s : State} {r : Worker × State}
      → Move cfg w s r
      → budget keys r.1.sessions ≤ budget keys s.sessions
  Move-budget (quiet q h n within) = omega (arith, Quiet-budget keys q)
  Move-budget {s} (reserves r now free ahead fits holds rest plan) =
      budget-claimed_le keys r now s.sessions
  Move-budget (pays req holds rest plan) = omega arith

  -- The rest of a worker's way is about the same keys.
  pub Move-IsAmong :
      {w : Worker} {s : State} {r : Worker × State}
      → Move cfg w s r
      → IsAmong keys (key_ahead cfg w)
      → IsAmong keys (key_ahead cfg r.0)
  Move-IsAmong (quiet q h n within) a = n keys a
  Move-IsAmong (reserves r now free ahead fits holds rest plan) a = rw rest tt
  Move-IsAmong (pays req holds rest plan) a = rw rest tt

-- Requests are only added.
pub Move-creates :
    {cfg : Settings} {w : Worker} {s : State} {r : Worker × State}
    → Move cfg w s r
    → creates s.trace ≤ creates r.1.trace
Move-creates (quiet q h n within) = omega (arith, Quiet-creates q)
Move-creates (reserves r now free ahead fits holds rest plan) = omega arith
Move-creates {s} (pays req holds rest plan) = omega (arith, creates-paid req s.trace)
