-- ===== src/Sessions/Rows.antt =====
-- What is read back after an UPDATE.
use mathlib.Core.Option
use cognition_devin_automati.Prelude.Lists.{find_by}
use cognition_devin_automati.Sessions.{
  get, assign_all, update_rows, update, Assign, SessionRow, Table, assign,
}
use cognition_devin_automati.Prelude.{List, ℕ, ◌≡◌, ◌++◌, ◌∷◌, some, ◌∙◌, ap, [], refl, ◌==◌, arith}
use cognition_devin_automati.Sessions.Claims.{updated_row-SameIdentity}

pub assign_all-append :
    (xs ys : List Assign) (r : SessionRow)
    → assign_all (xs ++ ys) r ≡ assign_all ys (assign_all xs r)
unfolding assign_all
assign_all-append [] ys r = refl
assign_all-append (x ∷ xs) ys r = assign_all-append xs ys (assign x r)

get-update_rows :
    (pk : ℕ) (changes : List Assign) (rows : List SessionRow)
    → find_by (λ r. r.id == pk) (update_rows pk changes rows)
      ≡ Option.map (assign_all changes) (find_by (λ r. r.id == pk) rows)
unfolding find_by update_rows
get-update_rows pk changes [] = refl
get-update_rows pk changes (r ∷ rs) =
    ground (arith, get-update_rows pk changes rs, (updated_row-SameIdentity pk changes r).id)

-- A row that was there is read back with the assignments made.
pub get-update :
    (pk : ℕ) (changes : List Assign) (t : Table) (row : SessionRow)
    → get pk t ≡ some row
    → get pk (update pk changes t) ≡ some (assign_all changes row)
unfolding get update
get-update pk changes t row h =
    get-update_rows pk changes t.rows ∙ ap (Option.map (assign_all changes)) h
