-- ===== src/Sessions/Chains.antt =====
-- The fixes of one parent session: how many rows there are, and their highest attempt number.
use Prim.Native.Nat.{max}
use cognition_devin_automati.Prelude.{
  ℕ, List, Bool, ◌∷◌, Bool-cases, ◌++◌, ◌≤◌, some, [], ◌≡◌, inl, if◌then◌else◌, arith, true, inr,
  ◌+◌, refl, ◌<◌, ap, Option,
}
use cognition_devin_automati.Prelude.Texts.{Text, holds_text}
use cognition_devin_automati.Sessions.{
  max_fix_attempt_for_parent, max_attempt, Reservation, SessionRow, Table, reserved_row, in_chain,
  same_id, Assign, update_rows, update,
}
use cognition_devin_automati.Sessions.Claims.{claimed, updated_row, updated_row-SameIdentity}
use cognition_devin_automati.Prelude.Lists.{filter_by, count_by, count_by-append, All}

-- parent_devin_session_id = ?
abbrev pub is_fix_with : Text → SessionRow → Bool
is_fix_with p r = holds_text r.parent_devin_session_id p

unfoldable pub fixes_of : Text → Table → ℕ
fixes_of p t = count_by (is_fix_with p) t.rows

-- The highest attempt number of these rows; `max_fix_attempt_for_parent` also reads the parent's.
unfoldable pub last_attempt : Text → List SessionRow → ℕ
last_attempt p [] = 0
last_attempt p (r ∷ rs) =
    let rest = last_attempt p rs in if is_fix_with p r then max r.fix_attempt_number rest else rest

last_attempt-le :
    (p : Text) (rows : List SessionRow)
    → last_attempt p rows ≤ max_attempt (filter_by (in_chain (some p)) rows)
unfolding last_attempt max_attempt filter_by in_chain same_id
last_attempt-le p [] = omega arith
last_attempt-le p (r ∷ rs) = grind (arith, last_attempt-le p rs)

pub last_attempt-max_fix_attempt_for_parent :
    (p : Text) (t : Table) → last_attempt p t.rows ≤ max_fix_attempt_for_parent (some p) t
unfolding max_fix_attempt_for_parent
last_attempt-max_fix_attempt_for_parent p t = last_attempt-le p t.rows

last_attempt-append :
    (p : Text) (rows : List SessionRow) (r : SessionRow)
    → last_attempt p (rows ++ r ∷ []) ≡ (
        if is_fix_with p r
        then max r.fix_attempt_number (last_attempt p rows)
        else last_attempt p rows)
unfolding last_attempt
last_attempt-append p [] r = refl
last_attempt-append p (x ∷ rows) r = grind (arith, last_attempt-append p rows r)

pub fixes_of-claimed :
    (p : Text) (r : Reservation) (now : ℕ) (t : Table)
    → fixes_of p (claimed r now t)
      ≡ fixes_of p t + (if holds_text r.parent_devin_session_id p then 1 else 0)
unfolding fixes_of claimed reserved_row count_by
fixes_of-claimed p r now t =
    ground (arith, count_by-append (is_fix_with p) t.rows (reserved_row r t.next_id now ∷ []))

pub last_attempt-claimed :
    (p : Text) (r : Reservation) (now : ℕ) (t : Table)
    → last_attempt p (claimed r now t).rows ≡ (
        if holds_text r.parent_devin_session_id p
        then max r.fix_attempt_number (last_attempt p t.rows)
        else last_attempt p t.rows)
unfolding claimed reserved_row
last_attempt-claimed p r now t = last_attempt-append p t.rows _

-- No more fixes than the highest attempt number.
abbrev pub IsCounted : Text → Table → Type 0
IsCounted p t = fixes_of p t ≤ last_attempt p t.rows

-- The reservation of a fix is numbered past the fixes before it.
abbrev pub Follows : Reservation → Table → Type 0
Follows r t =
    (p : Text)
    → holds_text r.parent_devin_session_id p ≡ true
    → last_attempt p t.rows < r.fix_attempt_number

-- The number is within the cap and past those before it.
abbrev pub IsNumbered : ℕ → Reservation → Table → Type 0
IsNumbered cap r t = (r.fix_attempt_number ≤ cap) × Follows r t

pub claimed-IsCounted :
    (p : Text) (r : Reservation) (now : ℕ) (t : Table)
    → Follows r t
    → IsCounted p t
    → IsCounted p (claimed r now t)
claimed-IsCounted p r now t next h = elim (Bool-cases (holds_text r.parent_devin_session_id p)) [
  | inl same ↦
      ground (arith, fixes_of-claimed p r now t, last_attempt-claimed p r now t, next p same)
  | inr other ↦ ground (arith, fixes_of-claimed p r now t, last_attempt-claimed p r now t)
]

module _ (p : Text) (pk : ℕ) (changes : List Assign) where
  is_fix_with-updated_row :
      (r : SessionRow) → is_fix_with p (updated_row pk changes r) ≡ is_fix_with p r
  is_fix_with-updated_row r =
      ap (λ (o : Option Text). holds_text o p) (updated_row-SameIdentity pk changes r).parent

  count_by-update_rows :
      (rows : List SessionRow)
      → count_by (is_fix_with p) (update_rows pk changes rows) ≡ count_by (is_fix_with p) rows
  unfolding update_rows count_by
  count_by-update_rows [] = refl
  count_by-update_rows (r ∷ rs) = ground (arith, is_fix_with-updated_row r, count_by-update_rows rs)

  last_attempt-update_rows :
      (rows : List SessionRow) → last_attempt p (update_rows pk changes rows) ≡ last_attempt p rows
  unfolding update_rows last_attempt
  last_attempt-update_rows [] = refl
  last_attempt-update_rows (r ∷ rs) = rw (is_fix_with-updated_row r) (
      rw (updated_row-SameIdentity pk changes r).fix_attempt_number
        (rw (last_attempt-update_rows rs) refl))

  pub update-IsCounted : (t : Table) → IsCounted p t → IsCounted p (update pk changes t)
  unfolding update fixes_of
  update-IsCounted t h = omega (arith, count_by-update_rows t.rows, last_attempt-update_rows t.rows)

pub last_attempt-within :
    (p : Text) (cap : ℕ) (rows : List SessionRow)
    → All (λ r. r.fix_attempt_number ≤ cap) rows
    → last_attempt p rows ≤ cap
unfolding last_attempt
last_attempt-within p cap [] h = omega arith
last_attempt-within p cap (r ∷ rs) h = ground (arith, h.0, last_attempt-within p cap rs h.1)
