-- ===== src/Sessions/Unique.antt =====
-- The UNIQUE index on work_key and the primary key, as an invariant of the table.
use mathlib.Core.Path.{fun_ext}
use cognition_devin_automati.Prelude.{
  ℕ, suc, ◌<◌, ◌≡◌, refl, ap, Bool, false, List, [], ◌∷◌, ◌++◌, arith, ◌==◌, ==_of_eq, ==_of_lt,
}
use cognition_devin_automati.Prelude.Lists.{any_by, All, All-append, All-map, any_by-append}
use cognition_devin_automati.Prelude.Texts.{Text, text_eq, text_eq_refl, eq_of_text_eq}
use cognition_devin_automati.Sessions.{
  SessionRow, Table, Reservation, reserved_row, has_key, Assign, update_rows, update, assign_all,
}
use cognition_devin_automati.Sessions.Claims.{
  claimed, is_taken, updated_row, updated_row-SameIdentity,
}

-- No later row has a test that an earlier one's key makes.
abbrev pub Apart : (SessionRow → SessionRow → Bool) → List SessionRow → Type 0
Apart same [] = Unit
Apart same (r ∷ rs) = (any_by (same r) rs ≡ false) × Apart same rs

abbrev pub same_key : SessionRow → SessionRow → Bool
same_key a b = has_key a.work_key b

abbrev pub has_id : ℕ → SessionRow → Bool
has_id pk r = r.id == pk

abbrev pub same_row : SessionRow → SessionRow → Bool
same_row a b = has_id a.id b

pub record IsValid (t : Table) : Type 0 where
  pub keys_unique : Apart same_key t.rows
  pub ids_unique : Apart same_row t.rows
  pub ids_below : All (λ r. r.id < t.next_id) t.rows

text_eq_comm : (s t : Text) → text_eq s t ≡ false → text_eq t s ≡ false
text_eq_comm s t h = ground (arith, eq_of_text_eq t s, text_eq_refl s)

-- A row with a free key may stand last.
Apart-claim :
    (key : Text) (x : SessionRow) (rs : List SessionRow)
    → x.work_key ≡ key
    → any_by (has_key key) rs ≡ false
    → Apart same_key rs
    → Apart same_key (rs ++ x ∷ [])
unfolding any_by has_key
Apart-claim key x [] e free h = (refl, tt)
Apart-claim key x (r ∷ rs) e free h = (
  ground (arith, any_by-append (same_key r) rs (x ∷ []), text_eq_comm r.work_key key),
  Apart-claim key x rs e (ground arith) h.1,
)

Apart-new_id :
    (n : ℕ) (x : SessionRow) (rs : List SessionRow)
    → x.id ≡ n
    → All (λ r. r.id < n) rs
    → Apart same_row rs
    → Apart same_row (rs ++ x ∷ [])
unfolding any_by
Apart-new_id n x [] e below h = (refl, tt)
Apart-new_id n x (r ∷ rs) e below h =
    (ground (arith, any_by-append (same_row r) rs (x ∷ [])), Apart-new_id n x rs e below.1 h.1)

-- A test that reads only what an UPDATE leaves finds the same rows.
pub any_by-update_rows :
    (p : SessionRow → Bool) (pk : ℕ) (changes : List Assign) (rs : List SessionRow)
    → ((r : SessionRow) → p (updated_row pk changes r) ≡ p r)
    → any_by p (update_rows pk changes rs) ≡ any_by p rs
unfolding any_by update_rows
any_by-update_rows p pk changes [] same = refl
any_by-update_rows p pk changes (r ∷ rs) same =
    ground (arith, same r, any_by-update_rows p pk changes rs same)

Apart-update :
    (same : SessionRow → SessionRow → Bool) (pk : ℕ) (changes : List Assign) (rs : List SessionRow)
    → ((a b : SessionRow) → same a (updated_row pk changes b) ≡ same a b)
    → ((a b : SessionRow) → same (updated_row pk changes a) b ≡ same a b)
    → Apart same rs
    → Apart same (update_rows pk changes rs)
unfolding update_rows
Apart-update same pk changes [] right left h = tt
Apart-update same pk changes (r ∷ rs) right left h = (
  rw (fun_ext (left r)) (rw (any_by-update_rows (same r) pk changes rs (right r)) h.0),
  Apart-update same pk changes rs right left h.1,
)

below-update :
    (n pk : ℕ) (changes : List Assign) (rs : List SessionRow)
    → All (λ r. r.id < n) rs
    → All (λ r. r.id < n) (update_rows pk changes rs)
unfolding update_rows
below-update n pk changes [] h = tt
below-update n pk changes (r ∷ rs) h =
    (rw (updated_row-SameIdentity pk changes r).id h.0, below-update n pk changes rs h.1)

pub update-IsValid :
    (pk : ℕ) (changes : List Assign) (t : Table) → IsValid t → IsValid (update pk changes t)
unfolding update has_key
update-IsValid pk changes t v = record {
  keys_unique =
      Apart-update same_key pk changes t.rows
        (λ a b.
          ap (λ (k : Text). text_eq k a.work_key) (updated_row-SameIdentity pk changes b).work_key)
        (λ a b.
          ap (λ (k : Text). text_eq b.work_key k) (updated_row-SameIdentity pk changes a).work_key)
        v.keys_unique;
  ids_unique =
      Apart-update same_row pk changes t.rows
        (λ a b. ap (λ (n : ℕ). n == a.id) (updated_row-SameIdentity pk changes b).id)
        (λ a b. ap (λ (n : ℕ). b.id == n) (updated_row-SameIdentity pk changes a).id) v.ids_unique;
  ids_below = below-update t.next_id pk changes t.rows v.ids_below;
}

pub claimed-IsValid :
    (r : Reservation) (now : ℕ) (t : Table)
    → is_taken r.work_key t ≡ false
    → IsValid t
    → IsValid (claimed r now t)
unfolding claimed reserved_row
claimed-IsValid r now t free v = record {
  keys_unique = Apart-claim r.work_key _ t.rows refl free v.keys_unique;
  ids_unique = Apart-new_id t.next_id _ t.rows refl v.ids_below v.ids_unique;
  ids_below =
      All-append (λ x. x.id < suc t.next_id) t.rows _
        (All-map (λ x (h : x.id < t.next_id). omega arith) t.rows v.ids_below) (omega arith, tt);
}

update_rows-new :
    (n : ℕ) (changes : List Assign) (x : SessionRow) (rs : List SessionRow)
    → All (λ r. r.id < n) rs
    → x.id ≡ n
    → update_rows n changes (rs ++ x ∷ []) ≡ rs ++ assign_all changes x ∷ []
unfolding update_rows
update_rows-new n changes x [] below e = rw (==_of_eq x.id n e)
update_rows-new n changes x (r ∷ rs) below e =
    rw (==_of_lt r.id n below.0)
      (ap (λ (l : List SessionRow). r ∷ l) (update_rows-new n changes x rs below.1 e))

-- An UPDATE of the row that was just reserved.
pub rows-update-claimed :
    (changes : List Assign) (r : Reservation) (now : ℕ) (t : Table)
    → IsValid t
    → (update t.next_id changes (claimed r now t)).rows
      ≡ t.rows ++ assign_all changes (reserved_row r t.next_id now) ∷ []
unfolding update claimed reserved_row
rows-update-claimed changes r now t v = update_rows-new t.next_id changes _ t.rows v.ids_below refl
