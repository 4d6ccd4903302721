-- ===== src/Migration/Schema/Keyed.antt =====
-- The backfill leaves no row without a key.
use cognition_devin_automati.Migration.{
  LegacyRow, choose_key, canonical, dup_key, key_of_match, key_of, keyless, lower_id,
}
use cognition_devin_automati.Prelude.Texts.{truthy, Text, nonempty, text, member}
use cognition_devin_automati.Prelude.{
  ℕ, List, ◌≡◌, Bool, Option, ◌==◌, ◌||◌, true, [], ◌∷◌, not, Bool-cases, arith, Option-cases, ap,
  ◌++◌, inl, some, or_else, refl, inr, ◌&&◌, none, subst, sym,
}
use cognition_devin_automati.Prelude.Lists.{
  filter_by, any_by, All, sort_by, filter_by-cons_false, filter_by-cons_true,
}
use cognition_devin_automati.Migration.Schema.{
  set_key, set_keys, chosen_keys, backfill, SessionsTable,
}
use cognition_devin_automati.Handlers.{make_work_key}
use cognition_devin_automati.Prelude.Sorting.{any_by-sort_by}

-- The row has a key that is not empty.
abbrev pub IsKeyed : LegacyRow → Type 0
IsKeyed r = truthy r.work_key ≡ true

-- An update for this id is among them.
abbrev reaches : ℕ → List (ℕ × Text) → Bool
reaches id updates = any_by (λ u. id == u.0) updates

abbrev GivesKeys : List (ℕ × Text) → Type 0
GivesKeys updates = All (λ u. nonempty u.1 ≡ true) updates

Covered : List (ℕ × Text) → LegacyRow → Type 0
Covered updates r = (truthy r.work_key || reaches r.id updates) ≡ true

set_key-Covered :
    (pk : ℕ) (key : Text) (updates : List (ℕ × Text)) (rows : List LegacyRow)
    → nonempty key ≡ true
    → All (Covered ((pk, key) ∷ updates)) rows
    → All (Covered updates) (set_key pk key rows)
unfolding Covered set_key any_by
set_key-Covered pk key updates [] given h = tt
set_key-Covered pk key updates (r ∷ rs) given h = elim (Bool-cases (r.id == pk)) [
  | inl hit ↦ rw (hit, All) (rw (given, All) refl, set_key-Covered pk key updates rs given h.1)
  | inr miss ↦ rw (miss, All) (rw miss at h.0, set_key-Covered pk key updates rs given h.1)
]

IsKeyed-Covered : (rows : List LegacyRow) → All (Covered []) rows → All IsKeyed rows
unfolding Covered any_by
IsKeyed-Covered [] h = tt
IsKeyed-Covered (r ∷ rs) h = (ground arith, IsKeyed-Covered rs h.1)

set_keys-IsKeyed :
    (updates : List (ℕ × Text)) (rows : List LegacyRow)
    → GivesKeys updates
    → All (Covered updates) rows
    → All IsKeyed (set_keys updates rows)
unfolding set_keys
set_keys-IsKeyed [] rows given h = IsKeyed-Covered rows h
set_keys-IsKeyed ((pk, key) ∷ updates) rows given h =
    set_keys-IsKeyed updates _ given.1 (set_key-Covered pk key updates rows given.0 h)

nonempty-append : (s t : Text) → nonempty s ≡ true → nonempty (s ++ t) ≡ true
nonempty-append [] t h = cc
nonempty-append (c ∷ s) t h = refl

-- The row has a key, or a row of its id is among these.
abbrev Listed : List LegacyRow → LegacyRow → Type 0
Listed rs r = (truthy r.work_key || any_by (λ x. r.id == x.id) rs) ≡ true

Listed-more :
    (x : LegacyRow) (found rows : List LegacyRow)
    → All (Listed found) rows
    → All (Listed (x ∷ found)) rows
unfolding any_by
Listed-more x found [] h = tt
Listed-more x found (r ∷ rs) h = (ground (arith, h.0), Listed-more x found rs h.1)

same_id : (n : ℕ) → (n == n) ≡ true
same_id n = ground arith

filter_by-Listed :
    (rows : List LegacyRow) → All (Listed (filter_by (λ r. not (truthy r.work_key)) rows)) rows
unfolding any_by
filter_by-Listed [] = tt
filter_by-Listed (r ∷ rs) =
    let bare : LegacyRow → Bool = λ x. not (truthy x.work_key) in
    elim (Bool-cases (truthy r.work_key)) [
      | inl keyed ↦
          subst (λ (found : List LegacyRow). All (Listed found) (r ∷ rs))
            (sym (filter_by-cons_false bare r rs (rw keyed refl)))
            (rw keyed refl, filter_by-Listed rs)
      | inr unkeyed ↦
          subst (λ (found : List LegacyRow). All (Listed found) (r ∷ rs))
            (sym (filter_by-cons_true bare r rs (rw unkeyed refl)))
            (rw unkeyed (rw (same_id r.id) refl), Listed-more r _ rs (filter_by-Listed rs))
    ]

keyless-Listed :
    (rows found : List LegacyRow)
    → All (Listed found) rows
    → All (Listed (sort_by lower_id found)) rows
keyless-Listed [] found h = tt
keyless-Listed (r ∷ rs) found h = (
  rw (any_by-sort_by (λ (x : LegacyRow). r.id == x.id) lower_id found) h.0,
  keyless-Listed rs found h.1,
)

module _ (issue_match : Text → Option (Text × ℕ)) where
  key_of-nonempty :
      (repo : Text) (number : Option ℕ) (label : Option Text) (id : ℕ)
      → nonempty (key_of repo number label id) ≡ true
  unfolding key_of text make_work_key
  key_of-nonempty repo none label id = refl
  key_of-nonempty repo (some number) label id = elim (Bool-cases (nonempty repo && truthy label)) [
    | inl known ↦ rw known refl
    | inr other ↦ rw other refl
  ]

  canonical-nonempty : (r : LegacyRow) → nonempty (canonical issue_match r) ≡ true
  unfolding canonical key_of_match
  canonical-nonempty r = elim (Option-cases (issue_match (or_else r.trigger_ref []))) [
    | inl other ↦ rw other (key_of-nonempty [] r.issue_number r.label r.id)
    | inr (found, e) ↦
        rw e (key_of-nonempty found.0 (some (or_else r.issue_number found.1)) r.label r.id)
  ]

  choose_key-nonempty :
      (existing : List Text) (r : LegacyRow) → nonempty (choose_key issue_match existing r) ≡ true
  unfolding choose_key dup_key
  choose_key-nonempty existing r = elim (Bool-cases (member (canonical issue_match r) existing)) [
    | inl taken ↦ rw taken (nonempty-append (canonical issue_match r) _ (canonical-nonempty r))
    | inr free ↦ rw free (canonical-nonempty r)
  ]

  chosen_keys-GivesKeys :
      (rs : List LegacyRow) (existing : List Text) → GivesKeys (chosen_keys issue_match rs existing)
  unfolding chosen_keys
  chosen_keys-GivesKeys [] existing = tt
  chosen_keys-GivesKeys (r ∷ rs) existing =
      (choose_key-nonempty existing r, chosen_keys-GivesKeys rs _)

  reaches-chosen_keys :
      (id : ℕ) (rs : List LegacyRow) (existing : List Text)
      → reaches id (chosen_keys issue_match rs existing) ≡ any_by (λ x. id == x.id) rs
  unfolding chosen_keys any_by
  reaches-chosen_keys id [] existing = refl
  reaches-chosen_keys id (r ∷ rs) existing =
      ap (λ (b : Bool). (id == r.id) || b) (reaches-chosen_keys id rs _)

  Covered-Listed :
      (rows found : List LegacyRow) (existing : List Text)
      → All (Listed found) rows
      → All (Covered (chosen_keys issue_match found existing)) rows
  unfolding Covered
  Covered-Listed [] found existing h = tt
  Covered-Listed (r ∷ rs) found existing h =
      (rw (reaches-chosen_keys r.id found existing) h.0, Covered-Listed rs found existing h.1)

  -- The backfill leaves no row without a key.
  pub backfill-IsKeyed : (t : SessionsTable) → All IsKeyed (backfill issue_match t).rows
  unfolding backfill keyless
  backfill-IsKeyed t =
      set_keys-IsKeyed _ t.rows (chosen_keys-GivesKeys _ _)
        (Covered-Listed t.rows _ _ (keyless-Listed t.rows _ (filter_by-Listed t.rows)))
