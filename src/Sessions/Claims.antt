-- ===== src/Sessions/Claims.antt =====
-- `try_reserve` in its two cases, and what an UPDATE leaves of a row.
use cognition_devin_automati.Prelude.{
  ℕ, suc, ◌≡◌, refl, inl, inr, Bool, true, false, none, some, List, [], ◌∷◌, ◌++◌, ◌==◌,
  if◌then◌else◌, Bool-cases, ◌∙◌,
}
use cognition_devin_automati.Prelude.Lists.{any_by}
use cognition_devin_automati.Prelude.Texts.{Text}
use cognition_devin_automati.Sessions.{
  SessionRow, Table, Reservation, reserved_row, has_key, try_reserve, Assign, assign, assign_all,
}

-- The table with the reserved row.
unfoldable pub claimed : Reservation → ℕ → Table → Table
claimed r now t = record {
  rows = t.rows ++ reserved_row r t.next_id now ∷ [];
  next_id = suc t.next_id;
}

abbrev pub is_taken : Text → Table → Bool
is_taken key t = any_by (has_key key) t.rows

module _ (r : Reservation) (now : ℕ) (t : Table) where
  pub try_reserve-taken : is_taken r.work_key t ≡ true → try_reserve r now t ≡ (none, t)
  unfolding try_reserve
  try_reserve-taken h = rw h

  pub try_reserve-free :
      is_taken r.work_key t ≡ false → try_reserve r now t ≡ (some t.next_id, claimed r now t)
  unfolding try_reserve claimed
  try_reserve-free h = rw h

-- What no UPDATE touches.
pub record SameIdentity (a b : SessionRow) : Type 0 where
  pub id : a.id ≡ b.id
  pub work_key : a.work_key ≡ b.work_key
  pub fix_attempt_number : a.fix_attempt_number ≡ b.fix_attempt_number
  pub started_at : a.started_at ≡ b.started_at
  pub parent : a.parent_devin_session_id ≡ b.parent_devin_session_id

pub SameIdentity-refl : (r : SessionRow) → SameIdentity r r
SameIdentity-refl r = record {
  id = refl;
  work_key = refl;
  fix_attempt_number = refl;
  started_at = refl;
  parent = refl;
}

pub SameIdentity-trans :
    {a b c : SessionRow} → SameIdentity a b → SameIdentity b c → SameIdentity a c
SameIdentity-trans p q = record {
  id = p.id ∙ q.id;
  work_key = p.work_key ∙ q.work_key;
  fix_attempt_number = p.fix_attempt_number ∙ q.fix_attempt_number;
  started_at = p.started_at ∙ q.started_at;
  parent = p.parent ∙ q.parent;
}

assign-SameIdentity : (a : Assign) (r : SessionRow) → SameIdentity (assign a r) r
unfolding assign
assign-SameIdentity (Assign.set_status s) r = record {
  id = refl;
  work_key = refl;
  fix_attempt_number = refl;
  started_at = refl;
  parent = refl;
}
assign-SameIdentity _ r = record {
  id = refl;
  work_key = refl;
  fix_attempt_number = refl;
  started_at = refl;
  parent = refl;
}

pub assign_all-SameIdentity :
    (changes : List Assign) (r : SessionRow) → SameIdentity (assign_all changes r) r
unfolding assign_all
assign_all-SameIdentity [] r = SameIdentity-refl r
assign_all-SameIdentity (a ∷ changes) r =
    SameIdentity-trans (assign_all-SameIdentity changes (assign a r)) (assign-SameIdentity a r)

-- The row that an UPDATE puts in the place of another.
abbrev pub updated_row : ℕ → List Assign → SessionRow → SessionRow
updated_row pk changes r = if r.id == pk then assign_all changes r else r

pub updated_row-SameIdentity :
    (pk : ℕ) (changes : List Assign) (r : SessionRow) → SameIdentity (updated_row pk changes r) r
updated_row-SameIdentity pk changes r = elim (Bool-cases (r.id == pk)) [
  | inl hit ↦ rw hit (assign_all-SameIdentity changes r)
  | inr miss ↦ rw miss (SameIdentity-refl r)
]
