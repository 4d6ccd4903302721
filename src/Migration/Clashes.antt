-- ===== src/Migration/Clashes.antt =====
-- When the unique index can be built on the keys of the backfill.
use cognition_devin_automati.Prelude.Texts.{Text, member, distinct}
use cognition_devin_automati.Prelude.{
  List, Option, Bool, ℕ, true, ◌∷◌, false, not, ◌≡◌, ◌&&◌, arith, ◌∙◌, [], ◌||◌, Bool-cases, refl,
  inl, inr,
}
use cognition_devin_automati.Migration.{
  fill, backfill_missing_work_keys, LegacyRow, choose_key, existing_keys, canonical, keyless,
  dup_key,
}

module _ (issue_match : Text → Option (Text × ℕ)) where
  -- Some row finds both its key and its suffixed key taken.
  abbrev pub clashes : List LegacyRow → List Text → Bool
  clashes [] existing = false
  clashes (r ∷ rs) existing =
      (member (canonical issue_match r) existing && member (dup_key issue_match r) existing)
      || clashes rs (choose_key issue_match existing r ∷ existing)

  fill-distinct :
      (rs : List LegacyRow) (existing : List Text)
      → distinct (fill issue_match rs existing) ≡ (distinct existing && not (clashes rs existing))
  unfolding fill choose_key
  fill-distinct [] existing = ground arith
  fill-distinct (r ∷ rs) existing = elim (Bool-cases (member (canonical issue_match r) existing)) [
    | inl taken ↦ rw taken (ground (arith, fill-distinct rs (dup_key issue_match r ∷ existing)))
    | inr free ↦
        rw free (ground (arith, free, fill-distinct rs (canonical issue_match r ∷ existing)))
  ]

  -- Where the keys that rows have already are distinct, the keys after the backfill are distinct
  -- exactly when no row finds both its key and its key with the suffix ":dup:<id>" taken.
  backfill_missing_work_keys-distinct :
      (rows : List LegacyRow)
      → distinct (existing_keys rows) ≡ true
      → distinct (backfill_missing_work_keys issue_match rows)
        ≡ not (clashes (keyless rows) (existing_keys rows))
  unfolding backfill_missing_work_keys
  backfill_missing_work_keys-distinct rows h =
      fill-distinct (keyless rows) (existing_keys rows) ∙ rw h refl
