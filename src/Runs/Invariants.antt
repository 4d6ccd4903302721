-- ===== src/Runs/Invariants.antt =====
-- What every run keeps: the database's constraints, the claimed work keys, and the account of the
-- paid sessions.
use cognition_devin_automati.World.{State, Call, CreateRequest}
use cognition_devin_automati.Prelude.{
  List, ℕ, ◌≡◌, ◌∷◌, ap, suc, [], refl, ◌+◌, ◌≤◌, true, arith, ◌∙◌, false,
}
use cognition_devin_automati.Sessions.{
  update_rows, Assign, SessionRow, update, Reservation, has_key, reserved_row, Table,
}
use cognition_devin_automati.Runs.{
  Step, Run, Assign, is_create, written, next, here, requested, reserved, paid, logged,
}
use cognition_devin_automati.Prelude.Lists.{
  count_by, length, All, any_by-append_left, length-append, All-append,
}
use cognition_devin_automati.Sessions.Unique.{
  IsValid, update-IsValid, claimed-IsValid, any_by-update_rows,
}
use cognition_devin_automati.Sessions.Claims.{claimed, updated_row-SameIdentity, is_taken}
use cognition_devin_automati.Prelude.Texts.{Text, text_eq}
use cognition_devin_automati.Events.Known.{is_known}
use cognition_devin_automati.Sessions.Chains.{IsCounted, update-IsCounted, claimed-IsCounted}

pub creates : List Call → ℕ
creates calls = count_by is_create calls

length-update_rows :
    (pk : ℕ) (changes : List Assign) (rows : List SessionRow)
    → length (update_rows pk changes rows) ≡ length rows
unfolding update_rows
length-update_rows pk changes [] = refl
length-update_rows pk changes (r ∷ rs) = ap suc (length-update_rows pk changes rs)

Step-IsValid : {cap : ℕ} {s t : State} → Step cap s t → IsValid s.sessions → IsValid t.sessions
Step-IsValid {s} (written pk changes) v = update-IsValid pk changes s.sessions v
Step-IsValid (requested c h) v = v
Step-IsValid {s} (reserved r now free fits) v = claimed-IsValid r now s.sessions free v
Step-IsValid {s} (paid r now req free fits) v = claimed-IsValid r now s.sessions free v
Step-IsValid (logged events keep) v = v

-- The constraints of the sessions table outlive every run.
pub Run-IsValid : {cap : ℕ} {s t : State} → Run cap s t → IsValid s.sessions → IsValid t.sessions
Run-IsValid here v = v
Run-IsValid (next run step) v = Step-IsValid step (Run-IsValid run v)

taken-claimed :
    (key : Text) (r : Reservation) (now : ℕ) (t : Table)
    → is_taken key t ≡ true
    → is_taken key (claimed r now t) ≡ true
unfolding claimed
taken-claimed key r now t h = any_by-append_left (has_key key) t.rows _ h

taken-update :
    (key : Text) (pk : ℕ) (changes : List Assign) (t : Table)
    → is_taken key t ≡ true
    → is_taken key (update pk changes t) ≡ true
unfolding update has_key
taken-update key pk changes t h =
    any_by-update_rows (has_key key) pk changes t.rows
      (λ r. ap (λ (k : Text). text_eq k key) (updated_row-SameIdentity pk changes r).work_key)
    ∙ h

-- A claimed work key stays claimed.
pub Run-taken :
    (key : Text) {cap : ℕ} {s t : State}
    → Run cap s t
    → is_taken key s.sessions ≡ true
    → is_taken key t.sessions ≡ true
Run-taken key here h = h
Run-taken key (next {t} run (written pk changes)) h =
    taken-update key pk changes t.sessions (Run-taken key run h)
Run-taken key (next run (requested c other)) h = Run-taken key run h
Run-taken key (next {t} run (reserved r now free fits)) h =
    taken-claimed key r now t.sessions (Run-taken key run h)
Run-taken key (next {t} run (paid r now req free fits)) h =
    taken-claimed key r now t.sessions (Run-taken key run h)
Run-taken key (next run (logged events keep)) h = Run-taken key run h

length-claimed :
    (r : Reservation) (now : ℕ) (t : Table) → length (claimed r now t).rows ≡ suc (length t.rows)
unfolding claimed
length-claimed r now t = omega (arith, length-append t.rows (reserved_row r t.next_id now ∷ []))

pub creates-other :
    (c : Call) (calls : List Call) → is_create c ≡ false → creates (c ∷ calls) ≡ creates calls
unfolding creates count_by
creates-other c calls h = ground arith

pub creates-paid :
    (req : CreateRequest) (calls : List Call)
    → creates (Call.create_session req ∷ calls) ≡ suc (creates calls)
unfolding creates count_by
creates-paid req calls = refl

-- A request for a paid session goes out only with a new row.
pub Run-paid :
    {cap : ℕ} {s t : State}
    → Run cap s t
    → creates t.trace + length s.sessions.rows ≤ creates s.trace + length t.sessions.rows
unfolding update
Run-paid here = omega arith
Run-paid (next {t} run (written pk changes)) =
    omega (arith, Run-paid run, length-update_rows pk changes t.sessions.rows)
Run-paid (next {t} run (requested c other)) =
    omega (arith, Run-paid run, creates-other c t.trace other)
Run-paid (next {t} run (reserved r now free fits)) =
    omega (arith, Run-paid run, length-claimed r now t.sessions)
Run-paid (next {t} run (paid r now req free fits)) =
    omega (arith, Run-paid run, creates-paid req t.trace, length-claimed r now t.sessions)
Run-paid (next run (logged events keep)) = Run-paid run

abbrev pub WithinCap : ℕ → List SessionRow → Type 0
WithinCap cap rows = All (λ r. r.fix_attempt_number ≤ cap) rows

WithinCap-update :
    (cap pk : ℕ) (changes : List Assign) (rows : List SessionRow)
    → WithinCap cap rows
    → WithinCap cap (update_rows pk changes rows)
unfolding update_rows
WithinCap-update cap pk changes [] h = tt
WithinCap-update cap pk changes (r ∷ rs) h = (
  rw (updated_row-SameIdentity pk changes r).fix_attempt_number h.0,
  WithinCap-update cap pk changes rs h.1,
)

pub WithinCap-claimed :
    (cap : ℕ) (r : Reservation) (now : ℕ) (t : Table)
    → r.fix_attempt_number ≤ cap
    → WithinCap cap t.rows
    → WithinCap cap (claimed r now t).rows
unfolding claimed reserved_row
WithinCap-claimed cap r now t fits h =
    All-append (λ (x : SessionRow). x.fix_attempt_number ≤ cap) t.rows _ h (fits, tt)

-- No fix attempt is numbered past the cap.
pub Run-WithinCap :
    {cap : ℕ} {s t : State}
    → Run cap s t
    → WithinCap cap s.sessions.rows
    → WithinCap cap t.sessions.rows
unfolding update
Run-WithinCap here h = h
Run-WithinCap {cap} (next {t} run (written pk changes)) h =
    WithinCap-update cap pk changes t.sessions.rows (Run-WithinCap run h)
Run-WithinCap (next run (requested c other)) h = Run-WithinCap run h
Run-WithinCap {cap} (next {t} run (reserved r now free fits)) h =
    WithinCap-claimed cap r now t.sessions fits.0 (Run-WithinCap run h)
Run-WithinCap {cap} (next {t} run (paid r now req free fits)) h =
    WithinCap-claimed cap r now t.sessions fits.0 (Run-WithinCap run h)
Run-WithinCap (next run (logged events keep)) h = Run-WithinCap run h

-- The fixes of a parent stay no more than their highest attempt number.
pub Run-IsCounted :
    (p : Text) {cap : ℕ} {s t : State}
    → Run cap s t
    → IsCounted p s.sessions
    → IsCounted p t.sessions
Run-IsCounted p here h = h
Run-IsCounted p (next {t} run (written pk changes)) h =
    update-IsCounted p pk changes t.sessions (Run-IsCounted p run h)
Run-IsCounted p (next run (requested c other)) h = Run-IsCounted p run h
Run-IsCounted p (next {t} run (reserved r now free fits)) h =
    claimed-IsCounted p r now t.sessions fits.1 (Run-IsCounted p run h)
Run-IsCounted p (next {t} run (paid r now req free fits)) h =
    claimed-IsCounted p r now t.sessions fits.1 (Run-IsCounted p run h)
Run-IsCounted p (next run (logged events keep)) h = Run-IsCounted p run h

-- A delivery that was recorded stays recorded.
pub Run-known :
    (id : Text) {cap : ℕ} {s t : State}
    → Run cap s t
    → is_known id s.events ≡ true
    → is_known id t.events ≡ true
Run-known id here h = h
Run-known id (next run (written pk changes)) h = Run-known id run h
Run-known id (next run (requested c other)) h = Run-known id run h
Run-known id (next run (reserved r now free fits)) h = Run-known id run h
Run-known id (next run (paid r now req free fits)) h = Run-known id run h
Run-known id (next run (logged events keep)) h = keep id (Run-known id run h)
