-- ===== src/Migration/Schema/Rerun.antt =====
-- What init_db leaves, and what further runs of it change.
use mathlib.Core.Option.{some-injective}
use cognition_devin_automati.Migration.{LegacyRow, keyless}
use cognition_devin_automati.Prelude.Texts.{truthy, Text, distinct}
use cognition_devin_automati.Prelude.{
  ℕ, List, ◌≡◌, Option, ◌||◌, true, [], ◌∷◌, not, Bool-cases, Option-cases, inl, some, refl, inr,
  none, false, ◌∙◌, is_some, Bool, ◌&&◌, arith,
}
use cognition_devin_automati.Prelude.Lists.{filter_by, any_by, All, sort_by, filter_by-cons_false}
use cognition_devin_automati.Migration.Schema.{
  set_keys, chosen_keys, backfill, SessionsTable, migrate, add_work_key, relax_not_null,
  create_unique_index, add_structured_output, rebuild_sessions_table, init_db, keys_of,
  create_indexes, fresh_table,
}
use cognition_devin_automati.Migration.Schema.Keyed.{IsKeyed, backfill-IsKeyed}

-- Each column exists, devin_session_id may be NULL, the unique index is built, and every row has a
-- key.
pub record IsMigrated (t : SessionsTable) : Type 0 where
  pub work_key_column : t.work_key_column ≡ true
  pub structured_output_column : t.structured_output_column ≡ true
  pub id_nullable : t.id_not_null ≡ false
  pub unique_index : t.unique_index ≡ true
  pub keyed : All IsKeyed t.rows

-- Whether a database file has the first schema, whose devin_session_id is NOT NULL.
abbrev pub is_strict : Option SessionsTable → Bool
is_strict none = false
is_strict (some u) = u.id_not_null

module _ (issue_match : Text → Option (Text × ℕ)) where
  filter_by-keyed :
      (rows : List LegacyRow)
      → All IsKeyed rows
      → filter_by (λ r. not (truthy r.work_key)) rows ≡ []
  filter_by-keyed [] h = unfold filter_by in refl
  filter_by-keyed (r ∷ rs) h =
      filter_by-cons_false (λ (x : LegacyRow). not (truthy x.work_key)) r rs (rw h.0 refl)
      ∙ filter_by-keyed rs h.1

  -- Another run finds nothing to do.
  migrate-same : (t : SessionsTable) → IsMigrated t → migrate issue_match t ≡ some t
  unfolding migrate add_work_key backfill relax_not_null create_unique_index add_structured_output
      keyless sort_by chosen_keys set_keys
  migrate-same t h = rw h.work_key_column (
      rw (filter_by-keyed t.rows h.keyed)
        (rw h.id_nullable (rw h.unique_index (rw h.structured_output_column refl))))

  -- What the table is known for between the migrations.
  record IsNullable (t : SessionsTable) : Type 0 where
    work_key_column : t.work_key_column ≡ true
    id_nullable : t.id_not_null ≡ false
    keyed : All IsKeyed t.rows

  relax_not_null-IsNullable :
      (t c : SessionsTable)
      → t.work_key_column ≡ true
      → All IsKeyed t.rows
      → relax_not_null t ≡ some c
      → IsNullable c
  unfolding relax_not_null rebuild_sessions_table
  relax_not_null-IsNullable t c column keyed e = elim (Bool-cases t.id_not_null) [
    | inr nullable ↦
        rw (← some-injective _ c (rw nullable at e))
          (record { work_key_column = column; id_nullable = refl; keyed = keyed })
    | inl strict ↦
        let e' = rw strict at e in
        elim (Bool-cases (any_by (λ r. not (is_some r.work_key)) t.rows)) [
          | inl null_key ↦ cc (rw null_key at e')
          | inr given ↦
              rw (← some-injective _ c (rw given at e'))
                (record { work_key_column = column; id_nullable = refl; keyed = keyed })
        ]
  ]

  indexed-IsMigrated :
      (c d : SessionsTable)
      → IsNullable c
      → create_unique_index c ≡ some d
      → IsMigrated (add_structured_output d)
  unfolding create_unique_index add_structured_output
  indexed-IsMigrated c d h e = elim (Bool-cases (c.unique_index || distinct (keys_of c.rows))) [
    | inr clash ↦ cc (rw clash at e)
    | inl apart ↦
        rw (← some-injective _ d (rw apart at e)) (elim (Bool-cases c.structured_output_column) [
          | inl there ↦ rw there (record {
            work_key_column = h.work_key_column;
            structured_output_column = refl;
            id_nullable = h.id_nullable;
            unique_index = refl;
            keyed = h.keyed;
          })
          | inr absent ↦ rw absent (record {
            work_key_column = h.work_key_column;
            structured_output_column = refl;
            id_nullable = h.id_nullable;
            unique_index = refl;
            keyed = h.keyed;
          })
        ])
  ]

  add_work_key-column : (t : SessionsTable) → (add_work_key t).work_key_column ≡ true
  unfolding add_work_key
  add_work_key-column t = elim (Bool-cases t.work_key_column) [
    | inl there ↦ rw there refl
    | inr absent ↦ rw absent refl
  ]

  with_indexes : (t : SessionsTable) → IsMigrated t → IsMigrated (record t { other_indexes = true })
  with_indexes t h = record {
    work_key_column = h.work_key_column;
    structured_output_column = h.structured_output_column;
    id_nullable = h.id_nullable;
    unique_index = h.unique_index;
    keyed = h.keyed;
  }

  migrate-IsMigrated : (u t : SessionsTable) → migrate issue_match u ≡ some t → IsMigrated t
  unfolding migrate
  migrate-IsMigrated u t e =
      let b = backfill issue_match (add_work_key u) in
      elim (Option-cases (relax_not_null b)) [
        | inl failed ↦ cc (rw failed at e)
        | inr (c, relaxed) ↦
            let e' = rw relaxed at e in
            let nullable =
              relax_not_null-IsNullable b c (unfold backfill in add_work_key-column u)
                (backfill-IsKeyed issue_match (add_work_key u)) relaxed in
            elim (Option-cases (create_unique_index c)) [
              | inl clash ↦ cc (rw clash at e')
              | inr (d, indexed) ↦
                  rw (← some-injective _ t (rw indexed at e'))
                    (indexed-IsMigrated c d nullable indexed)
            ]
      ]

  relax_not_null-indexes :
      (t c : SessionsTable)
      → relax_not_null t ≡ some c
      → c.other_indexes ≡ (t.other_indexes && not t.id_not_null)
  unfolding relax_not_null rebuild_sessions_table
  relax_not_null-indexes t c e = elim (Bool-cases t.id_not_null) [
    | inr nullable ↦ rw (← some-injective _ c (rw nullable at e)) (rw nullable (ground arith))
    | inl strict ↦
        let e' = rw strict at e in
        elim (Bool-cases (any_by (λ r. not (is_some r.work_key)) t.rows)) [
          | inl null_key ↦ cc (rw null_key at e')
          | inr given ↦ rw (← some-injective _ c (rw given at e')) (rw strict (ground arith))
        ]
  ]

  create_unique_index-indexes :
      (c d : SessionsTable) → create_unique_index c ≡ some d → d.other_indexes ≡ c.other_indexes
  unfolding create_unique_index
  create_unique_index-indexes c d e =
      elim (Bool-cases (c.unique_index || distinct (keys_of c.rows))) [
        | inr clash ↦ cc (rw clash at e)
        | inl apart ↦ rw (← some-injective _ d (rw apart at e)) refl
      ]

  add_structured_output-indexes :
      (t : SessionsTable) → (add_structured_output t).other_indexes ≡ t.other_indexes
  unfolding add_structured_output
  add_structured_output-indexes t = elim (Bool-cases t.structured_output_column) [
    | inl there ↦ rw there refl
    | inr absent ↦ rw absent refl
  ]

  backfill-indexes :
      (t : SessionsTable)
      → let b = backfill issue_match (add_work_key t) in
        (b.other_indexes ≡ t.other_indexes) × (b.id_not_null ≡ t.id_not_null)
  unfolding backfill add_work_key
  backfill-indexes t = elim (Bool-cases t.work_key_column) [
    | inl there ↦ rw there (refl, refl)
    | inr absent ↦ rw absent (refl, refl)
  ]

  migrate-indexes :
      (u t : SessionsTable)
      → migrate issue_match u ≡ some t
      → t.other_indexes ≡ (u.other_indexes && not u.id_not_null)
  unfolding migrate
  migrate-indexes u t e =
      let b = backfill issue_match (add_work_key u) in
      elim (Option-cases (relax_not_null b)) [
        | inl failed ↦ cc (rw failed at e)
        | inr (c, relaxed) ↦
            let e' = rw relaxed at e in
            elim (Option-cases (create_unique_index c)) [
              | inl clash ↦ cc (rw clash at e')
              | inr (d, indexed) ↦ rw (← some-injective _ t (rw indexed at e')) (
                  add_structured_output-indexes d
                  ∙ create_unique_index-indexes c d indexed
                  ∙ relax_not_null-indexes b c relaxed
                  ∙ rw ((backfill-indexes u).0, (backfill-indexes u).1) refl)
            ]
      ]

  -- The migrations can be run on every start: whatever schema and rows the database file has, when
  -- init_db does not raise, the table has all columns and the unique index, may hold a NULL
  -- devin_session_id, and gives every row a work key, and it has the five other indexes unless
  -- devin_session_id was NOT NULL before, so that the rebuild dropped them. Then a further init_db
  -- does not raise and changes nothing but that it builds these five, and a third changes nothing.
  pub init_db-IsMigrated :
      (db : Option SessionsTable) (t : SessionsTable)
      → init_db issue_match db ≡ some t
      → IsMigrated t
        × (t.other_indexes ≡ not (is_strict db))
        × (init_db issue_match (some t) ≡ some (record t { other_indexes = true }))
        × (init_db issue_match (some (record t { other_indexes = true }))
            ≡ some (record t { other_indexes = true }))
  unfolding init_db create_indexes
  init_db-IsMigrated none t e =
      let done = migrate-IsMigrated (create_indexes fresh_table) t e in
      let again = migrate-same (record t { other_indexes = true }) (with_indexes t done) in
      (done, migrate-indexes (create_indexes fresh_table) t e, again, again)
  init_db-IsMigrated (some u) t e =
      let done = migrate-IsMigrated (create_indexes u) t e in
      let again = migrate-same (record t { other_indexes = true }) (with_indexes t done) in
      (done, migrate-indexes (create_indexes u) t e, again, again)
