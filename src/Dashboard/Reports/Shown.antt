-- ===== src/Dashboard/Reports/Shown.antt =====
-- Reports that have the shape asked of Devin.
use mathlib.Core.Option.{some-injective}
use cognition_devin_automati.Prelude.{
  ℕ, ◌≡◌, List, true, some, is_some, arith, Option, refl, ◌∷◌, [], Bool-cases, inl, inr, none,
  Option-cases,
}
use cognition_devin_automati.Prelude.Json.{
  Json, Items, Members, null, number, no_items, item, string, boolean, array, object, no_members,
  entry, is_true, lookup,
}
use cognition_devin_automati.Dashboard.Reports.{
  shown_files, texts_of, shown_blockers, join_value, bullets, Python, item_lines,
}
use cognition_devin_automati.Prompts.Schema.{
  all_fit, fits, has_all, Schema, text_up_to, texts_up_to, all_strings, one_of, fits_known,
  shape_of, risk_levels, cve_remediation_schema, conforms,
}
use cognition_devin_automati.Prelude.Texts.{
  member, Text, text_eq, eq_of_text_eq, join_lines, text, nonempty,
}
use cognition_devin_automati.Dashboard.{Pandas}

lookup-fits :
    (schema : Schema) (k : Text) (ms : Members) (v : Json)
    → all_fit schema ms ≡ true
    → lookup k ms ≡ some v
    → fits_known schema.additional_properties (shape_of k schema.properties) v ≡ true
unfolding all_fit lookup
lookup-fits schema k no_members v fit found = cc found
lookup-fits schema k (entry j w ms) v fit found = elim (Bool-cases (text_eq j k)) [
  | inl same ↦
      rw (← eq_of_text_eq j k same)
        (rw (← some-injective w v (rw (same, lookup) at found)) (ground (arith, fit)))
  | inr other ↦ lookup-fits schema k ms v (ground (arith, fit)) (rw (other, lookup) at found)
]

has_all-member :
    (k : Text) (names : List Text) (ms : Members)
    → has_all names ms ≡ true
    → member k names ≡ true
    → is_some (lookup k ms) ≡ true
unfolding has_all member
has_all-member k [] ms all known = cc known
has_all-member k (n ∷ names) ms all known = elim (Bool-cases (text_eq k n)) [
  | inl same ↦ rw (eq_of_text_eq k n same) (ground (arith, all))
  | inr other ↦ has_all-member k names ms (ground (arith, all)) (rw other at known)
]

-- A text, or an array of texts, where the shape says so.
fits-one_of :
    (names : List Text) (v : Json)
    → fits (one_of names) v ≡ true
    → (s : Text) × ((v ≡ string s) × (member s names ≡ true))
unfolding fits
fits-one_of names (string s) h = (s, (refl, h))
fits-one_of names null h = cc h
fits-one_of names (boolean b) h = cc h
fits-one_of names (number b t) h = cc h
fits-one_of names (array vs) h = cc h
fits-one_of names (object ms) h = cc h

fits-text : (n : ℕ) (v : Json) → fits (text_up_to n) v ≡ true → (s : Text) × (v ≡ string s)
unfolding fits
fits-text n (string s) h = (s, refl)
fits-text n null h = cc h
fits-text n (boolean b) h = cc h
fits-text n (number b t) h = cc h
fits-text n (array vs) h = cc h
fits-text n (object ms) h = cc h

fits-texts :
    (n : ℕ) (v : Json)
    → fits (texts_up_to n) v ≡ true
    → (vs : Items) × ((v ≡ array vs) × (all_strings vs ≡ true))
unfolding fits
fits-texts n (array vs) h = (vs, (refl, ground (arith, h)))
fits-texts n (string s) h = cc h
fits-texts n null h = cc h
fits-texts n (boolean b) h = cc h
fits-texts n (number b t) h = cc h
fits-texts n (object ms) h = cc h

texts_of-strings : (vs : Items) → all_strings vs ≡ true → (l : List Text) × (texts_of vs ≡ some l)
unfolding texts_of all_strings
texts_of-strings no_items h = ([], refl)
texts_of-strings (item (string s) vs) h =
    let rest = texts_of-strings vs h in (s ∷ rest.0, rw rest.1 refl)
texts_of-strings (item null vs) h = cc h
texts_of-strings (item (boolean b) vs) h = cc h
texts_of-strings (item (number b t) vs) h = cc h
texts_of-strings (item (array ws) vs) h = cc h
texts_of-strings (item (object ms) vs) h = cc h

shown_files-texts :
    (n : ℕ) (v : Json)
    → fits (texts_up_to n) v ≡ true
    → (o : Option Text) × (shown_files (some v) ≡ some o)
unfolding shown_files join_value
shown_files-texts n v h =
    let (vs, (is_array, strings)) = fits-texts n v h in
    let (l, listed) = texts_of-strings vs strings in
    elim (Bool-cases (is_true v)) [
      | inl there ↦ (some (join_lines l), rw there (rw is_array (rw listed refl)))
      | inr empty ↦ (none, rw empty refl)
    ]

shown_blockers-texts :
    (py : Python) (pd : Pandas) (n : ℕ) (v : Json)
    → fits (texts_up_to n) v ≡ true
    → (l : List Text) × (shown_blockers py pd (some v) ≡ some l)
unfolding shown_blockers bullets
shown_blockers-texts py pd n v h =
    let (vs, (is_array, strings)) = fits-texts n v h in
    elim (Bool-cases (is_true v)) [
      | inl there ↦ (item_lines py pd vs, rw there (rw is_array refl))
      | inr empty ↦ ([], rw empty refl)
    ]

pub levels_nonempty : (s : Text) → member s risk_levels ≡ true → nonempty s ≡ true
unfolding risk_levels member text text_eq
levels_nonempty [] h = cc h
levels_nonempty (c ∷ s) h = refl

-- The members of a report of the schema.
pub record Conforming (ms : Members) : Type 0 where
  fit : all_fit cve_remediation_schema ms ≡ true
  all : has_all cve_remediation_schema.required ms ≡ true

pub conforming : (ms : Members) → conforms cve_remediation_schema (object ms) ≡ true → Conforming ms
unfolding conforms
conforming ms h = record { fit = ground (arith, h); all = ground (arith, h) }

-- The value of a member that is required.
required_value :
    (k : Text) (ms : Members)
    → Conforming ms
    → member k cve_remediation_schema.required ≡ true
    → (v : Json) × (lookup k ms ≡ some v)
required_value k ms c known = elim (Option-cases (lookup k ms)) [
  | inl absent ↦ cc (rw absent at (has_all-member k cve_remediation_schema.required ms c.all known))
  | inr found ↦ found
]

pub risk_value :
    (ms : Members)
    → Conforming ms
    → (s : Text) × ((lookup (text "risk_level") ms ≡ some (string s))
        × (member s risk_levels ≡ true))
unfolding cve_remediation_schema shape_of fits_known text text_eq member
risk_value ms c =
    let (v, found) = required_value (text "risk_level") ms c refl in
    let (s, (is_text, known)) =
      fits-one_of risk_levels v
        (lookup-fits cve_remediation_schema (text "risk_level") ms v c.fit found) in
    (s, (rw (← is_text) found, known))

pub summary_value :
    (ms : Members) → Conforming ms → (s : Text) × (lookup (text "summary") ms ≡ some (string s))
unfolding cve_remediation_schema shape_of fits_known text text_eq member
summary_value ms c =
    let (v, found) = required_value (text "summary") ms c refl in
    let (s, is_text) =
      fits-text 500 v (lookup-fits cve_remediation_schema (text "summary") ms v c.fit found) in
    (s, rw (← is_text) found)

pub files_shown :
    (ms : Members)
    → Conforming ms
    → (o : Option Text) × (shown_files (lookup (text "files_changed") ms) ≡ some o)
unfolding cve_remediation_schema shape_of fits_known text text_eq
files_shown ms c = elim (Option-cases (lookup (text "files_changed") ms)) [
  | inl absent ↦ (none, rw absent (unfold shown_files in refl))
  | inr (v, found) ↦
      let shown =
        shown_files-texts 50 v
          (lookup-fits cve_remediation_schema (text "files_changed") ms v c.fit found) in
      (shown.0, rw found shown.1)
]

pub blockers_shown :
    (py : Python) (pd : Pandas) (ms : Members)
    → Conforming ms
    → (l : List Text) × (shown_blockers py pd (lookup (text "blockers") ms) ≡ some l)
unfolding cve_remediation_schema shape_of fits_known text text_eq
blockers_shown py pd ms c = elim (Option-cases (lookup (text "blockers") ms)) [
  | inl absent ↦ ([], rw absent (unfold shown_blockers in refl))
  | inr (v, found) ↦
      let shown =
        shown_blockers-texts py pd 10 v
          (lookup-fits cve_remediation_schema (text "blockers") ms v c.fit found) in
      (shown.0, rw found shown.1)
]
